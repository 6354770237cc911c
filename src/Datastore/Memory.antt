-- ===== src/Datastore/Memory.antt =====
-- packages/cli/services/datastore/backend/memory/memory.go, with trialFilter.go and the types of
-- backend.go. The pointer to a trial's element of the eviction list is whether it has one: the element
-- has the trial's id. A stored sample is its trial, its state and the length of its serialization, which
-- is the protocol buffers library's. The calls run one after another; the eviction worker calls
-- `evictLruTrials` after a trigger, on its own.
pub mod Sizes
pub mod Accounting
pub mod Eviction
pub mod Listing
pub mod Retrieval
pub mod Steps
use cogment.Prelude.{
  ℕ, zero, suc, ◌+◌, ◌-◌, ◌%◌, ◌^◌, String, Bool, true, false, Option, none, some, List, [], ◌∷◌,
  ◌++◌, ◌==◌, leb, ltb, not, ◌&&◌, ◌||◌, if◌then◌else◌, str_eq, string_key,
}
use cogment.Prelude.Dict.{Dict, lookup, insert}
use cogment.Datastore.Observable.{ObservableList, new_observable_list, append, has_ended}

abbrev pub u32 : ℕ → ℕ
u32 n = n % 2 ^ 32

-- `^uint32(s - 1)`.
abbrev pub complement : ℕ → ℕ
complement s = 2 ^ 32 - 1 - u32 (s + 2 ^ 32 - 1)

abbrev pub trial_ended_state : ℕ
trial_ended_state = 5

pub record StoredTrialSample : Type 0 where
  pub trial_id : String
  pub state : ℕ
  pub size : ℕ

pub record TrialParams : Type 0 where
  pub trial_id : String
  pub user_id : String
  pub params : Option (Dict String String)

pub record TrialData : Type 0 where
  pub params : Option (Dict String String)
  pub user_id : String
  pub trial_state : ℕ
  pub samples_count : ℕ
  pub stored_samples_size : ℕ
  pub stored_samples : Option (ObservableList StoredTrialSample)
  pub has_ev_list_element : Bool
  pub deleted : Bool

pub record MemoryBackend : Type 0 where
  pub trials : Dict String TrialData
  pub trials_ev_list : List String
  pub trial_ids : ObservableList String
  pub samples_size : ℕ
  pub max_samples_size : ℕ

unfoldable pub create_memory_backend : ℕ → MemoryBackend
unfolding new_observable_list
create_memory_backend max_samples_size = record {
  trials = [];
  trials_ev_list = [];
  trial_ids = new_observable_list;
  samples_size = 0;
  max_samples_size = u32 max_samples_size;
}

-- An operation gives its result, or a method of a list that is `nil` stops the process.
pub data Outcome (A : Type 0) : Type 0 where
  gives : A → Outcome A
  panics : Outcome A

pub data BackendError : Type 0 where
  unknown_trial : String → BackendError

unfoldable pub remove : String → List String → List String
remove id [] = []
remove id (j ∷ ids) = let rest = remove id ids in if str_eq j id then rest else j ∷ rest

abbrev pub move_to_back : String → List String → List String
move_to_back id ids = remove id ids ++ (id ∷ [])

abbrev pub touch : MemoryBackend → String → TrialData → MemoryBackend
touch b id trial = record b {
  trials_ev_list =
      if trial.has_ev_list_element then move_to_back id b.trials_ev_list else b.trials_ev_list;
}

unfoldable pub retrieve_trial_datas :
    MemoryBackend → List String → MemoryBackend × (Option BackendError)
unfolding remove
retrieve_trial_datas b [] = (b, none)
retrieve_trial_datas b (id ∷ ids) = elim (lookup id b.trials) [
  | none ↦ (b, some (unknown_trial id))
  | some trial ↦ retrieve_trial_datas (touch b id trial) ids
]

abbrev pub put : MemoryBackend → String → TrialData → MemoryBackend
put b id trial = record b { trials = insert id trial b.trials }

abbrev pub new_trial_data : TrialParams → TrialData
new_trial_data params = record {
  params = params.params;
  user_id = params.user_id;
  trial_state = 0;
  samples_count = 0;
  stored_samples_size = 0;
  stored_samples = some new_observable_list;
  has_ev_list_element = true;
  deleted = false;
}

unfoldable pub create_or_update_trial : MemoryBackend → TrialParams → MemoryBackend
unfolding append
create_or_update_trial b params = elim (lookup params.trial_id b.trials) [
  | some trial ↦
      put (touch b params.trial_id trial) params.trial_id
        (record trial { params = params.params; user_id = params.user_id })
  | none ↦ record b {
    trials = insert params.trial_id (new_trial_data params) b.trials;
    trials_ev_list = params.trial_id ∷ b.trials_ev_list;
    trial_ids = append b.trial_ids params.trial_id false;
  }
]

unfoldable pub create_or_update_trials : MemoryBackend → List TrialParams → MemoryBackend
unfolding create_or_update_trial
create_or_update_trials b [] = b
create_or_update_trials b (params ∷ rest) =
    create_or_update_trials (create_or_update_trial b params) rest

abbrev pub deleted_data : TrialData
deleted_data = record {
  params = none;
  user_id = "";
  trial_state = 0;
  samples_count = 0;
  stored_samples_size = 0;
  stored_samples = none;
  has_ev_list_element = false;
  deleted = true;
}

unfoldable pub delete_trial : MemoryBackend → String → MemoryBackend
unfolding remove
delete_trial b id = elim (lookup id b.trials) [
  | none ↦ b
  | some trial ↦ record b {
    trials = insert id deleted_data b.trials;
    trials_ev_list =
        if trial.has_ev_list_element then remove id b.trials_ev_list else b.trials_ev_list;
    samples_size = u32 (b.samples_size + complement trial.stored_samples_size);
  }
]

unfoldable pub delete_trials : MemoryBackend → List String → MemoryBackend
unfolding delete_trial
delete_trials b [] = b
delete_trials b (id ∷ ids) = delete_trials (delete_trial b id) ids

abbrev pub stored : TrialData → ObservableList StoredTrialSample → StoredTrialSample → TrialData
stored trial samples s = record trial {
  stored_samples_size = u32 (trial.stored_samples_size + u32 s.size);
  stored_samples = some (append samples s (s.state == trial_ended_state));
  trial_state = s.state;
  samples_count = trial.samples_count + 1;
}

-- The trial was retrieved before, so it is in the map.
unfoldable pub add_to : MemoryBackend → StoredTrialSample → Option TrialData → Outcome MemoryBackend
unfolding append
add_to b s none = panics
add_to b s (some trial) = elim trial.stored_samples [
  | none ↦ panics
  | some samples ↦ gives (record b {
    trials = insert s.trial_id (stored trial samples s) b.trials;
    samples_size = u32 (b.samples_size + u32 s.size);
  })
]

unfoldable pub add_sample : MemoryBackend → StoredTrialSample → Outcome MemoryBackend
unfolding add_to
add_sample b s = add_to b s (lookup s.trial_id b.trials)

unfoldable pub add_each : MemoryBackend → List StoredTrialSample → Outcome MemoryBackend
unfolding add_sample
add_each b [] = gives b
add_each b (s ∷ samples) = elim (add_sample b s) [
  | panics ↦ panics
  | gives b' ↦ add_each b' samples
]

abbrev pub trials_of : List StoredTrialSample → List String
trials_of [] = []
trials_of (s ∷ samples) = s.trial_id ∷ trials_of samples

abbrev pub added :
    List StoredTrialSample
    → MemoryBackend × Option BackendError
    → Outcome (MemoryBackend × Option BackendError)
added samples (b, some e) = gives (b, some e)
added samples (b, none) = elim (add_each b samples) [
  | panics ↦ panics
  | gives b' ↦ gives (b', none)
]

unfoldable pub add_samples :
    MemoryBackend → List StoredTrialSample → Outcome (MemoryBackend × Option BackendError)
unfolding add_each retrieve_trial_datas
add_samples b samples = added samples (retrieve_trial_datas b (trials_of samples))

abbrev pub emptied : TrialData → TrialData
emptied trial = record trial {
  stored_samples = some new_observable_list;
  stored_samples_size = 0;
  has_ev_list_element = false;
}

-- The trial at the front of the eviction list loses its samples.
abbrev pub evicted : MemoryBackend → String → List String → TrialData → MemoryBackend
evicted b id rest trial = record b {
  trials = insert id (emptied trial) b.trials;
  trials_ev_list = rest;
  samples_size = u32 (b.samples_size + complement trial.stored_samples_size);
}

abbrev pub samples_ended : Option (ObservableList StoredTrialSample) → Outcome Bool
samples_ended none = panics
samples_ended (some samples) = gives (has_ended samples)

-- The loop of `evictLruTrials`, on the eviction list.
unfoldable pub evict_each : MemoryBackend → List String → Outcome MemoryBackend
unfolding new_observable_list
evict_each b [] = gives b
evict_each b (id ∷ rest) =
    if leb b.samples_size b.max_samples_size then gives b else elim (lookup id b.trials) [
      | none ↦ panics
      | some trial ↦ elim (samples_ended trial.stored_samples) [
        | panics ↦ panics
        | gives ended ↦ if not ended then gives b else evict_each (evicted b id rest trial) rest
      ]
    ]

unfoldable pub evict_lru_trials : MemoryBackend → Outcome MemoryBackend
unfolding evict_each
evict_lru_trials b = evict_each b b.trials_ev_list
