-- ===== src/Tokenizer.antt =====
-- The names of models and the tokenizer of crates/hotbatch-core/src/model.rs.
mod Defs
pub use Defs.{ModelName, gpt2, tiny_gpt2, scripted, TokenLibrary, TokenizerBundle, ChatMessage}
unfoldable pub use Defs.{
  normalize_model_name, hf_repo, candle_device, load_scripted, fallback_encode, fallback_decode,
  encode, decode, token_text, chat_template,
}
pub mod RoundTrip
