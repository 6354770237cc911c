-- ===== src/Datastore/Memory/Steps.antt =====
-- The memory backend as a whole (memory.go): calls of its operations and evictions, in any order.
pub mod Reached
use cogment.Prelude.{ℕ, ◌≡◌, String, Option, List}
use cogment.Datastore.Memory.{
  StoredTrialSample, TrialParams, MemoryBackend, BackendError, Outcome, gives, retrieve_trial_datas,
  create_or_update_trials, delete_trials, add_samples, evict_lru_trials,
}

pub data Step : MemoryBackend → MemoryBackend → Type 0 where
  creates :
      (b : MemoryBackend) (params : List TrialParams) → Step b (create_or_update_trials b params)
  retrieves : (b : MemoryBackend) (ids : List String) → Step b (retrieve_trial_datas b ids).0
  deletes : (b : MemoryBackend) (ids : List String) → Step b (delete_trials b ids)
  adds :
      (b b' : MemoryBackend) (samples : List StoredTrialSample) (e : Option BackendError)
      → add_samples b samples ≡ gives (b', e)
      → Step b b'
  evicts : (b b' : MemoryBackend) → evict_lru_trials b ≡ gives b' → Step b b'

pub data Reach (start : MemoryBackend) : MemoryBackend → Type 0 where
  starts : Reach start start
  steps : (b b' : MemoryBackend) → Reach start b → Step b b' → Reach start b'
