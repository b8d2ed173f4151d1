-- ===== src/Tests/Scripted.antt =====
-- The scripted model on one sequence.
use hotbatch.Base.{ℕ, ◌≡◌, refl, some, none, replicate, List, [], ◌∷◌, arith, ok}
use hotbatch.KvCache.{KvHandle, SlabKvCache, allocate, is_current_handle, occupy, has_room_for}
use hotbatch.KvCache
use hotbatch.KvCache.Invariant.{new-IsSlab, allocate-IsSlab}
use hotbatch.Model.{DecodeInput}
use hotbatch.Tokenizer.{encode}
use hotbatch.Scripted.{ScriptedModel, script, new, forward}
use hotbatch.Scripted.Total.{IsServing, IsPassed, forward_total}
use hotbatch.Tests.Instances.{tensors}
use hotbatch.Tests.Texts.{unicode, tokenizer}

abbrev handle : KvHandle
handle = record { slot = 0; capacity_tokens = 8; generation = 1 }

abbrev cache : SlabKvCache (List ℕ)
cache = KvCache.new 1 16 12 12 64

abbrev opened : SlabKvCache (List ℕ)
opened = record {
  max_seqs = 1;
  max_seq_len = 16;
  num_layers = 12;
  n_heads = 12;
  head_dim = 64;
  free_slots = [];
  allocated = (0, handle) ∷ [];
  next_generations = 1 ∷ [];
  layers = (0, replicate 12 none) ∷ [];
}

opened_here : allocate cache 2 6 ≡ ok (handle, opened)
unfolding allocate occupy has_room_for KvCache.new
opened_here = refl

opened-IsServing : IsServing tensors opened
unfolding KvCache.new
opened-IsServing = record {
  slab =
      allocate-IsSlab tensors cache 2 6 handle opened (new-IsSlab tensors 1 16 12 12 64)
        opened_here;
  heads = refl;
  dim = refl;
  layered = omega arith;
}

abbrev input : DecodeInput
input = record {
  seq_id = 1;
  kv_handle = handle;
  last_token = 6;
  position = 2;
  prompt_hash = 77;
  seed = 5;
}

abbrev model : ScriptedModel
model = record { tokenizer = tokenizer; script_tokens = script }

model_here : new unicode tokenizer ≡ some model
unfolding new encode
model_here = refl

forward_total_example :
    IsPassed tensors model [] (input ∷ []) opened (forward tensors model (input ∷ []) opened)
unfolding is_current_handle
forward_total_example =
    forward_total tensors unicode tokenizer model (input ∷ []) opened model_here
      (λ tokens. (12 ∷ tokens ∷ 64 ∷ [], refl)) opened-IsServing ((refl, omega arith), tt)
