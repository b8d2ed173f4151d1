-- ===== src/Tests/Texts.antt =====
-- A Unicode whose bytes are ones and zeros, and a tokenizer with a token for each character.
use hotbatch.Base.{
  ℕ, zero, suc, ◌+◌, ◌<◌, ◌≡◌, refl, ap, ◌∙◌, some, List, [], ◌∷◌, ◌==◌, arith, All, Text, Unicode,
}
use hotbatch.Tokenizer.{TokenizerBundle, gpt2, encode, decode, load_scripted}
use hotbatch.Tokenizer.RoundTrip.{decode-encode}

-- Bytes that tell every text: a character is as many ones, then a zero.
abbrev ones : ℕ → List ℕ → List ℕ
ones zero rest = 0 ∷ rest
ones (suc n) rest = 1 ∷ ones n rest

abbrev written : Text → List ℕ
written [] = []
written (c ∷ cs) = ones c (written cs)

abbrev counted : ℕ → List ℕ → Text
counted n [] = []
counted n (zero ∷ bs) = n ∷ counted 0 bs
counted n (suc b ∷ bs) = counted (suc n) bs

ones-small : (n : ℕ) (rest : List ℕ) → All (λ b. b < 256) rest → All (λ b. b < 256) (ones n rest)
ones-small zero rest a = (omega arith, a)
ones-small (suc n) rest a = (omega arith, ones-small n rest a)

pub written-small : (t : Text) → All (λ b. b < 256) (written t)
written-small [] = tt
written-small (c ∷ cs) = ones-small c (written cs) (written-small cs)

counted-ones : (k n : ℕ) (rest : List ℕ) → counted k (ones n rest) ≡ (n + k) ∷ counted 0 rest
counted-ones k zero rest = ap (λ m. m ∷ counted 0 rest) (omega arith)
counted-ones k (suc n) rest =
    counted-ones (suc k) n rest ∙ ap (λ m. m ∷ counted 0 rest) (omega arith)

pub counted-written : (t : Text) → counted 0 (written t) ≡ t
counted-written [] = refl
counted-written (c ∷ cs) =
    counted-ones 0 c (written cs)
    ∙ (ap (λ m. m ∷ counted 0 (written cs)) (omega arith) ∙ ap (◌∷◌ c) (counted-written cs))

abbrev pub unicode : Unicode
unicode = record {
  is_whitespace = λ c. c == 32;
  bytes = written;
  from_utf8_lossy = counted 0;
  small-bytes = written-small;
  lossy-bytes = counted-written;
}

decode-encode_example :
    (tokens : List ℕ) × (encode unicode load_scripted (2 ∷ 1 ∷ []) ≡ some tokens)
    × (decode unicode load_scripted tokens ≡ some (2 ∷ 1 ∷ []))
unfolding load_scripted
decode-encode_example = decode-encode unicode load_scripted (2 ∷ 1 ∷ []) refl

-- A token for each character.
abbrev pub tokenizer : TokenizerBundle
tokenizer = record {
  tokenizer = some (record { encode_ids = λ t. some t; decode_ids = λ ts. some ts });
  model_name = gpt2;
  eos_token = 7;
  vocab_size = 512;
}
