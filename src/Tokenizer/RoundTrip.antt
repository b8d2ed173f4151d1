-- ===== src/Tokenizer/RoundTrip.antt =====
-- The fallback tokenizer loses nothing.
use hotbatch.Base.{
  ℕ, ◌+◌, ◌<◌, ◌≡◌, refl, ap, none, some, List, [], ◌∷◌, map, arith, All, Text, Unicode,
}
use hotbatch.Tokenizer.Defs.{
  TokenizerBundle, fallback_encode, fallback_bytes, fallback_decode, encode, decode,
}

module _ (U : Unicode) where
  open U use {bytes, from_utf8_lossy}

  fallback_bytes-map :
      (bs : List ℕ) → All (λ b. b < 256) bs → fallback_bytes U (map (λ byte. byte + 1) bs) ≡ bs
  unfolding fallback_bytes
  fallback_bytes-map [] a = refl
  fallback_bytes-map (b ∷ bs) (small, a) = ground (arith, fallback_bytes-map bs a)

  -- With the fallback tokenizer every text is encoded, and decoding gives it back.
  pub decode-encode :
      (bundle : TokenizerBundle) (text : Text)
      → bundle.tokenizer ≡ none
      → (tokens : List ℕ) × (encode U bundle text ≡ some tokens)
        × (decode U bundle tokens ≡ some text)
  unfolding encode decode fallback_encode fallback_decode
  decode-encode bundle text e = (
    fallback_encode U text,
    ground (arith, e),
    ground (
      arith,
      e,
      ap from_utf8_lossy (fallback_bytes-map (bytes text) (U.small-bytes text)),
      U.lossy-bytes text,
    ),
  )
