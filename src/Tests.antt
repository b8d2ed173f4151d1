-- ===== src/Tests.antt =====
-- Runs at concrete inputs: a small engine, a cache, a request and a queue, to which the theorems are
-- applied.
mod Instances
mod Cache
mod Generation
mod Serving
mod Alone
mod Streaming
mod Texts
mod Endpoints
mod Scripted
mod Transformer
mod Loading
