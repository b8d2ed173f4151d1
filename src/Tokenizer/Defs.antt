-- ===== src/Tokenizer/Defs.antt =====
-- `normalize_model_name`, `TokenizerBundle` and its fallback. The tokenizer library is a parameter.
use hotbatch.Base.{
  ℕ, ◌+◌, ◌-◌, Bool, ◌||◌, Option, none, some, List, [], ◌∷◌, ◌++◌, map, ltb, ◌==◌, if◌then◌else◌,
  list_eq, Text, chars, Unicode,
}

-- The names that `normalize_model_name` returns.
pub data ModelName : Type 0 where
  gpt2 tiny_gpt2 scripted : ModelName

-- `none` is the error "unsupported model".
unfoldable pub normalize_model_name : Text → Option ModelName
normalize_model_name model =
    if list_eq model (chars "gpt2") || list_eq model (chars "openai-community/gpt2")
    then some gpt2
    else if list_eq model (chars "tiny-gpt2")
        || (list_eq model (chars "tiny-random-gpt2")
            || (list_eq model (chars "sshleifer/tiny-gpt2")
                || list_eq model (chars "hf-internal-testing/tiny-random-gpt2")))
    then some tiny_gpt2
    else if list_eq model (chars "scripted")
    then some scripted
    else none

-- Owner, repository and revision; `none` is the error "no Hugging Face repository".
unfoldable pub hf_repo : ModelName → Option (Text × Text × Text)
hf_repo gpt2 =
    some (chars "openai-community", chars "gpt2", chars "607a30d783dfa663caf39e06633721c8d4cfcd7e")
hf_repo tiny_gpt2 = some (
  chars "hf-internal-testing",
  chars "tiny-random-gpt2",
  chars "71034c5d8bde858ff824298bdedc65515b97d2b9",
)
hf_repo scripted = none

-- Whether the device is accepted.
unfoldable pub candle_device : Text → Bool
candle_device requested = list_eq requested (chars "cpu")

-- The two calls of the tokenizer library; `none` is its error.
pub record TokenLibrary : Type 0 where
  pub encode_ids : Text → Option (List ℕ)
  pub decode_ids : List ℕ → Option Text

pub record TokenizerBundle : Type 0 where
  pub tokenizer : Option TokenLibrary
  pub model_name : ModelName
  pub eos_token : ℕ
  pub vocab_size : ℕ

pub record ChatMessage : Type 0 where
  pub role : Text
  pub content : Text

-- The arm of `load_normalized` for the scripted model.
unfoldable pub load_scripted : TokenizerBundle
load_scripted = record { tokenizer = none; model_name = scripted; eos_token = 0; vocab_size = 512 }

module _ (U : Unicode) where
  open U use {bytes, from_utf8_lossy}

  unfoldable pub fallback_encode : Text → List ℕ
  fallback_encode text = map (λ byte. byte + 1) (bytes text)

  -- The bytes that the tokens stand for; a token that stands for none is dropped.
  unfoldable pub fallback_bytes : List ℕ → List ℕ
  fallback_bytes [] = []
  fallback_bytes (token ∷ tokens) =
      if token == 0 || ltb 255 (token - 1)
      then fallback_bytes tokens
      else (token - 1) ∷ fallback_bytes tokens

  unfoldable pub fallback_decode : List ℕ → Text
  unfolding fallback_bytes
  fallback_decode tokens = from_utf8_lossy (fallback_bytes tokens)

  unfoldable pub encode : TokenizerBundle → Text → Option (List ℕ)
  unfolding fallback_encode
  encode bundle text = elim bundle.tokenizer [
    | some library ↦ library.encode_ids text
    | none ↦ some (fallback_encode text)
  ]

  unfoldable pub decode : TokenizerBundle → List ℕ → Option Text
  unfolding fallback_decode
  decode bundle tokens = elim bundle.tokenizer [
    | some library ↦ library.decode_ids tokens
    | none ↦ some (fallback_decode tokens)
  ]

  unfoldable pub token_text : TokenizerBundle → ℕ → Text
  token_text bundle token = elim (decode bundle (token ∷ [])) [ some text ↦ text | none ↦ [] ]

-- The text of each message on its own line, then the assistant's turn.
unfoldable pub render_messages : List ChatMessage → Text
render_messages [] = []
render_messages (message ∷ messages) =
    message.role ++ (chars ": " ++ (message.content ++ (10 ∷ render_messages messages)))

unfoldable pub chat_template : List ChatMessage → Text
unfolding render_messages
chat_template messages = render_messages messages ++ chars "assistant: "
