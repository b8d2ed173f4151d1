-- ===== src/Scripted/Defs.antt =====
-- The model and its two passes. Its sleeps are left out: they change no state. A logit is the bit
-- pattern of an f32. The sums of a position and an offset wrap around, as in a release build.
use Prim.Native.Nat.{bit_xor}
use hotbatch.Base.{
  ℕ, ◌-◌, ◌%◌, Option, none, some, List, [], ◌∷◌, ◌++◌, min, max, ltb, ◌==◌, if◌then◌else◌, length,
  is_empty, get_elem?, set, replicate, Result, ok, err, panic, Text, chars, Unicode,
}
use hotbatch.Base.Checked.{word, wrapping_add, saturating_add}
use hotbatch.KvCache.{KvHandle, Tensors, SlabKvCache, write, tensor_failed}
use hotbatch.Message.{ModelError, cache_failed}
use hotbatch.Model.{DecodeInput, DecodeLogits}
use hotbatch.Tokenizer.{TokenizerBundle, encode}

pub record ScriptedModel : Type 0 where
  pub tokenizer : TokenizerBundle
  pub script_tokens : List ℕ

abbrev pub script : Text
script = chars " France, known for Paris, art, science, and careful engineering."

-- `none` is the tokenizer's error.
unfoldable pub new : Unicode → TokenizerBundle → Option ScriptedModel
unfolding encode
new U tokenizer = elim (encode U tokenizer script) [
  | none ↦ none
  | some tokens ↦ some (record {
    tokenizer = tokenizer;
    script_tokens = if is_empty tokens then tokenizer.eos_token ∷ [] else tokens;
  })
]

abbrev pub max_positions : ℕ
max_positions = 1024

-- Layers, heads and the heads' dimension.
abbrev pub kv_shape : ℕ × ℕ × ℕ
kv_shape = (12, 12, 64)

-- `logits[index] = value`; `none` is the panic out of range.
unfoldable pub put_logit : List ℕ → ℕ → ℕ → Option (List ℕ)
put_logit logits index value =
    if ltb index (length logits) then some (set logits index value) else none

-- -12, 12, 8 and 3.
abbrev pub low_f32 : ℕ
low_f32 = 0xc140_0000

abbrev pub high_f32 : ℕ
high_f32 = 0x4140_0000

abbrev pub next_f32 : ℕ
next_f32 = 0x4100_0000

abbrev pub noise_f32 : ℕ
noise_f32 = 0x4040_0000

-- The logits for one row of the batch; `none` is a panic.
unfoldable pub scripted_row : ScriptedModel → DecodeInput → Option (List ℕ)
unfolding put_logit
scripted_row model input =
    let vocab_size = max model.tokenizer.vocab_size 1 in
    let n = length model.script_tokens in
    let offset = bit_xor input.prompt_hash input.seed % word % n in
    let at = wrapping_add input.position offset in
    let jitter = wrapping_add (wrapping_add input.last_token input.position) 17 % vocab_size in
    if n == 0 then none else elim (get_elem? model.script_tokens (at % n)) [
      | none ↦ none
      | some target ↦
          elim (put_logit (replicate vocab_size low_f32) (min target (vocab_size - 1)) high_f32) [
            | none ↦ none
            | some logits ↦ elim (get_elem? model.script_tokens (wrapping_add at 1 % n)) [
              | none ↦ none
              | some alternate ↦ elim (put_logit logits (min alternate (vocab_size - 1)) next_f32) [
                | none ↦ none
                | some logits' ↦ put_logit logits' jitter noise_f32
              ]
            ]
          ]
    ]

module _ (T : Tensors) where
  open T use {Tensor, zeros}

  -- `Tensor::zeros` and `kv_cache.write` of it as keys and values, for layer 0.
  unfoldable pub write_marker :
      KvHandle → ℕ → SlabKvCache Tensor → Result ModelError (Unit {0}) × SlabKvCache Tensor
  write_marker handle tokens c = elim (zeros (kv_shape.1 ∷ tokens ∷ kv_shape.2 ∷ [])) [
    | none ↦ (err (cache_failed tensor_failed), c)
    | some marker ↦ elim (write T c handle 0 marker marker) [
      | ok c' ↦ (ok tt, c')
      | err e ↦ (err (cache_failed e), c)
      | panic ↦ (panic, c)
    ]
  ]

  unfoldable pub prefill :
      List ℕ → KvHandle → SlabKvCache Tensor → Result ModelError (Unit {0}) × SlabKvCache Tensor
  unfolding write_marker
  prefill prompt_tokens handle c = write_marker handle (length prompt_tokens - 1) c

  -- The loop over the rows of the batch, with the rows so far.
  unfoldable pub forward_from :
      ScriptedModel
      → DecodeLogits
      → List DecodeInput
      → SlabKvCache Tensor
      → Result ModelError DecodeLogits × SlabKvCache Tensor
  unfolding scripted_row write_marker
  forward_from model rows [] c = (ok rows, c)
  forward_from model rows (input ∷ inputs) c = elim (scripted_row model input) [
    | none ↦ (panic, c)
    | some logits ↦
        let (written, c') = write_marker input.kv_handle (saturating_add input.position 1) c in
        let rest = forward_from model (rows ++ (logits ∷ [])) inputs c' in
        elim written [ ok _ ↦ rest | err e ↦ (err e, c') | panic ↦ (panic, c') ]
  ]

  unfoldable pub forward :
      ScriptedModel
      → List DecodeInput
      → SlabKvCache Tensor
      → Result ModelError DecodeLogits × SlabKvCache Tensor
  unfolding forward_from
  forward model batch c = forward_from model [] batch c
