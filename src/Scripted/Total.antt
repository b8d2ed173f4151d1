-- ===== src/Scripted/Total.antt =====
-- The scripted model's passes: what they do to the cache, and that they succeed.
use Prim.Native.Nat.{bit_xor}
use native.Mathlib.Nat.{mod-lt}
use hotbatch.Base.{
  ℕ, ◌-◌, ◌%◌, ◌≤◌, ◌<◌, ◌≡◌, refl, ◌∙◌, sym, ap, suc, append-nil, append_assoc, Unicode, inl, inr,
  true, false, none, some, List, [], ◌∷◌, ◌++◌, All, arith, length, length-set, length-replicate,
  min, max, get_elem?-in_range, set, replicate, ◌==◌, Result, ok,
}
use hotbatch.Base.Checked.{word, wrapping_add, saturating_add}
use hotbatch.KvCache.{KvHandle, Tensors, SlabKvCache, is_current_handle, shape_error}
use hotbatch.KvCache.Invariant.{IsSlab, write-IsSlab, write-Written}
use hotbatch.KvCache.Storage.{write_total}
use hotbatch.Message.{ModelError}
use hotbatch.Model.{DecodeInput, DecodeLogits, Writes, here, next}
use hotbatch.Model.Frame.{Writes-trans}
use hotbatch.Tokenizer.{TokenizerBundle}
use hotbatch.Scripted.Defs.{
  ScriptedModel, new, kv_shape, low_f32, high_f32, next_f32, noise_f32, put_logit, scripted_row,
  write_marker, forward_from, forward,
}

put_logit-some :
    (logits : List ℕ) (index value : ℕ)
    → index < length logits
    → (out : List ℕ) × (put_logit logits index value ≡ some out) × (length out ≡ length logits)
unfolding put_logit
put_logit-some logits index value l =
    (set logits index value, ground (arith, l), length-set logits index value)

-- With a script, a row has a logit for each token of the vocabulary.
scripted_row-some :
    (model : ScriptedModel) (input : DecodeInput)
    → 0 < length model.script_tokens
    → (logits : List ℕ) × (scripted_row model input ≡ some logits)
      × (length logits ≡ max model.tokenizer.vocab_size 1)
unfolding scripted_row
scripted_row-some model input some_token =
    let vocab_size = max model.tokenizer.vocab_size 1 in
    let n = length model.script_tokens in
    let offset = bit_xor input.prompt_hash input.seed % word % n in
    let at = wrapping_add input.position offset in
    let jitter = wrapping_add (wrapping_add input.last_token input.position) 17 % vocab_size in
    let none_zero : (n == 0) ≡ false = ground (arith, some_token) in
    let (target, found) = get_elem?-in_range model.script_tokens (at % n) (mod-lt at some_token) in
    let (alternate, found') =
      get_elem?-in_range model.script_tokens (wrapping_add at 1 % n)
        (mod-lt (wrapping_add at 1) some_token) in
    let (xs, put, len) =
      put_logit-some (replicate vocab_size low_f32) (min target (vocab_size - 1)) high_f32
        (omega (arith, length-replicate vocab_size low_f32)) in
    let (ys, put', len') =
      put_logit-some xs (min alternate (vocab_size - 1)) next_f32
        (omega (arith, len, length-replicate vocab_size low_f32)) in
    let (zs, put'', len'') = put_logit-some ys jitter noise_f32 (
      omega (
        arith,
        mod-lt (wrapping_add (wrapping_add input.last_token input.position) 17) {m = vocab_size}
            (omega arith),
        len',
        len,
        length-replicate vocab_size low_f32,
      )) in
    (
      zs,
      rw (none_zero, found, put, found', put', scripted_row) put'',
      omega (arith, len'', len', len, length-replicate vocab_size low_f32),
    )

module _ (T : Tensors) where
  open T use {Tensor, zeros, dims, dims-zeros}

  -- A cache of the model's shape.
  pub record IsServing (c : SlabKvCache Tensor) : Type 0 where
    pub slab : IsSlab T c
    pub heads : c.n_heads ≡ kv_shape.1
    pub dim : c.head_dim ≡ kv_shape.2
    pub layered : 0 < c.num_layers

  -- A row with a live handle, that has room for one more token.
  abbrev pub IsRoomy : SlabKvCache Tensor → DecodeInput → Type 0
  IsRoomy c input =
      (is_current_handle c input.kv_handle ≡ true)
      × (input.position < input.kv_handle.capacity_tokens)

  -- The tensor library can make the tensors of the model's shape.
  abbrev pub MakesZeros : Type 0
  MakesZeros =
      (tokens : ℕ) → (t : Tensor) × (zeros (kv_shape.1 ∷ tokens ∷ kv_shape.2 ∷ []) ≡ some t)

  current_kept :
      (c c' : SlabKvCache Tensor) (h : KvHandle)
      → c'.allocated ≡ c.allocated
      → is_current_handle c h ≡ true
      → is_current_handle c' h ≡ true
  unfolding is_current_handle
  current_kept c c' h same current = rw (same, is_current_handle) current

  IsRoomy-same :
      (c c' : SlabKvCache Tensor) (inputs : List DecodeInput)
      → c'.allocated ≡ c.allocated
      → All (IsRoomy c) inputs
      → All (IsRoomy c') inputs
  IsRoomy-same c c' [] same a = tt
  IsRoomy-same c c' (input ∷ inputs) same a =
      ((current_kept c c' input.kv_handle same a.0.0, a.0.1), IsRoomy-same c c' inputs same a.1)

  record Marked (h : KvHandle) (tokens : ℕ) (c : SlabKvCache Tensor) : Type 0 where
    after : SlabKvCache Tensor
    done : write_marker T h tokens c ≡ (ok tt, after)
    serving : IsServing after
    same : after.allocated ≡ c.allocated
    writes : Writes T c after

  write_marker-Marked :
      (h : KvHandle) (tokens : ℕ) (c : SlabKvCache Tensor)
      → MakesZeros
      → IsServing c
      → is_current_handle c h ≡ true
      → tokens ≤ h.capacity_tokens
      → Marked h tokens c
  unfolding write_marker shape_error
  write_marker-Marked h tokens c makes s current fits =
      let (t, made) = makes tokens in
      let shape = dims-zeros (kv_shape.1 ∷ tokens ∷ kv_shape.2 ∷ []) t made in
      let fine : shape_error T c h (dims t) (dims t) ≡ none =
        rw (shape, shape_error) (ground (arith, s.heads, s.dim, fits)) in
      elim (write_total T c h 0 t t s.slab) [
        | inl (stale, _) ↦ absurd (ground (arith, current, stale))
        | inr (inl (_, over, _)) ↦ absurd (ground (arith, over, s.layered))
        | inr (inr (inl (e, _, _, bad, _))) ↦ absurd (ground (arith, fine, bad))
        | inr (inr (inr (c', _, _, _, wrote))) ↦
            let w = write-Written T c h 0 t t c' wrote in
            record {
              after = c';
              done = rw (made, wrote, write_marker) refl;
              serving = record {
                slab = write-IsSlab T c h 0 t t c' s.slab wrote;
                heads = ap (λ (x : SlabKvCache Tensor). x.n_heads) w.after ∙ s.heads;
                dim = ap (λ (x : SlabKvCache Tensor). x.head_dim) w.after ∙ s.dim;
                layered = ground (arith, w.after, s.layered);
              };
              same = ap (λ (x : SlabKvCache Tensor). x.allocated) w.after;
              writes = next here h 0 t t wrote;
            }
      ]

  -- A pass that succeeds: a row of logits for each input, and writes to the cache.
  abbrev pub IsPassed :
      ScriptedModel
      → DecodeLogits
      → List DecodeInput
      → SlabKvCache Tensor
      → Result ModelError DecodeLogits × SlabKvCache Tensor
      → Type 0
  IsPassed model rows inputs c r =
      (new_rows : DecodeLogits) × (r.0 ≡ ok (rows ++ new_rows))
      × (length new_rows ≡ length inputs)
      × All (λ row. length row ≡ max model.tokenizer.vocab_size 1) new_rows
      × Writes T c r.1

  forward_from-next :
      (model : ScriptedModel) (rows : DecodeLogits) (input : DecodeInput)
      (inputs : List DecodeInput) (c c' : SlabKvCache Tensor) (logits : List ℕ)
      → scripted_row model input ≡ some logits
      → (write_marker T input.kv_handle (saturating_add input.position 1) c).0 ≡ ok tt
      → (write_marker T input.kv_handle (saturating_add input.position 1) c).1 ≡ c'
      → forward_from T model rows (input ∷ inputs) c
        ≡ forward_from T model (rows ++ (logits ∷ [])) inputs c'
  unfolding forward_from
  forward_from-next model rows input inputs c c' logits drawn written after =
      rw (drawn, written, after, forward_from) refl

  forward_from-IsPassed :
      (model : ScriptedModel) (rows : DecodeLogits) (inputs : List DecodeInput)
      (c : SlabKvCache Tensor)
      → 0 < length model.script_tokens
      → MakesZeros
      → IsServing c
      → All (IsRoomy c) inputs
      → IsPassed model rows inputs c (forward_from T model rows inputs c)
  unfolding forward_from
  forward_from-IsPassed model rows [] c some_token makes s a =
      ([], ap ok (sym (append-nil rows)), refl, tt, here)
  forward_from-IsPassed model rows (input ∷ inputs) c some_token makes s a =
      let (logits, drawn, full) = scripted_row-some model input some_token in
      let m =
        write_marker-Marked input.kv_handle (saturating_add input.position 1) c makes s a.0.0
          (omega (arith, a.0.1)) in
      let (new_rows, passed, len, alls, writes) =
        forward_from-IsPassed model (rows ++ (logits ∷ [])) inputs m.after some_token makes
          m.serving (IsRoomy-same c m.after inputs m.same a.1) in
      let step =
        forward_from-next model rows input inputs c m.after logits drawn (ap (λ r. r.0) m.done)
          (ap (λ r. r.1) m.done) in
      (
        logits ∷ new_rows,
        rw step (passed ∙ ap ok (append_assoc rows (logits ∷ []) new_rows)),
        ap suc len,
        (full, alls),
        rw step (Writes-trans T m.writes writes),
      )

  some_script :
      (U : Unicode) (tokenizer : TokenizerBundle) (model : ScriptedModel)
      → new U tokenizer ≡ some model
      → 0 < length model.script_tokens
  unfolding new
  some_script U tokenizer model e = ground arith

  -- The model that `new` makes never fails on a batch it can serve, and never panics: on a
  -- well-formed cache of its shape, with live handles that each have room for one more token, and with
  -- tensors of zeros to be had, `forward` gives one row of logits for each row of the batch, each as
  -- long as the vocabulary, and changes the cache by successful writes alone.
  pub forward_total :
      (U : Unicode) (tokenizer : TokenizerBundle) (model : ScriptedModel) (batch : List DecodeInput)
      (c : SlabKvCache Tensor)
      → new U tokenizer ≡ some model
      → MakesZeros
      → IsServing c
      → All (IsRoomy c) batch
      → IsPassed model [] batch c (forward T model batch c)
  unfolding forward
  forward_total U tokenizer model batch c made makes s a =
      forward_from-IsPassed model [] batch c (some_script U tokenizer model made) makes s a
