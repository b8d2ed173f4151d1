-- ===== src/Server.antt =====
-- crates/hotbatch-server/src/lib.rs: the arguments of the server, and what it builds of them.
mod Defs
pub use Defs.{ServeMode, ServeArgs, ServeError, Loaded, Built}
unfoldable pub use Defs.{validate, build_app}
pub mod Arguments
pub mod Admitted
