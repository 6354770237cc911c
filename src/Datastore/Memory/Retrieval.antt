-- ===== src/Datastore/Memory/Retrieval.antt =====
-- `RetrieveTrials` of memory.go, with trialFilter.go and `createTrialInfo`. The start and the count of a
-- request are not negative; the count 0 stands for all.
pub mod Pages
pub mod Known
use mathlib.Core.Option
use cogment.Prelude.{
  ℕ, zero, suc, ◌+◌, String, Bool, true, false, Option, none, some, List, [], ◌∷◌, ◌++◌, ◌==◌, leb,
  ltb, not, ◌&&◌, if◌then◌else◌, length, drop, string_key,
}
use cogment.Prelude.Dict.{Dict, lookup}
use cogment.Utils.Filters.{IdFilter, PropertiesFilter, selects_all, selects, selects_properties}
use cogment.Datastore.Observable.{ObservableList, item_count}
use cogment.Datastore.Memory.{
  StoredTrialSample, TrialData, MemoryBackend, Outcome, gives, panics, touch,
}

pub record TrialFilter : Type 0 where
  pub id_filter : IdFilter
  pub properties_filter : PropertiesFilter

pub record TrialInfo : Type 0 where
  pub trial_id : String
  pub state : ℕ
  pub user_id : String
  pub samples_count : ℕ
  pub stored_samples_count : ℕ

abbrev pub create_trial_info : String → TrialData → ObservableList StoredTrialSample → TrialInfo
create_trial_info id trial samples = record {
  trial_id = id;
  state = trial.trial_state;
  user_id = trial.user_id;
  samples_count = trial.samples_count;
  stored_samples_count = item_count samples;
}

-- `none` stands for the properties of parameters that are nil.
abbrev pub selects_trial : TrialFilter → String → TrialData → Option Bool
selects_trial filter id trial =
    if selects filter.id_filter id
    then Option.map (selects_properties filter.properties_filter) trial.params
    else some false

-- The page so far: the infos and the index after the last trial of it.
pub record Page : Type 0 where
  pub trial_infos : List TrialInfo
  pub next_trial_idx : ℕ

abbrev pub with_info : Page → TrialInfo → ℕ → Page
with_info page trial_info idx = record {
  trial_infos = page.trial_infos ++ (trial_info ∷ []);
  next_trial_idx = idx + 1;
}

-- What one trial adds to the page; `none` if its parameters or its list, which are read, are nil.
abbrev pub turn_page :
    TrialFilter
    → String
    → ℕ
    → TrialData
    → Option (ObservableList StoredTrialSample)
    → Page
    → Option Page
turn_page filter id idx trial samples page =
    if trial.deleted then some page else elim (selects_trial filter id trial) [
      | none ↦ none
      | some false ↦ some page
      | some true ↦ elim samples [
        | none ↦ none
        | some l ↦ some (with_info page (create_trial_info id trial l) idx)
      ]
    ]

abbrev pub count_of : MemoryBackend → TrialFilter → ℕ → ℕ
count_of b filter count =
    if count == 0
    then (let all = item_count b.trial_ids in
        if not (selects_all filter.id_filter) && ltb (length filter.id_filter) all
        then length filter.id_filter
        else all)
    else count

unfoldable pub retrieve_each :
    TrialFilter → ℕ → MemoryBackend → List String → ℕ → Page → Outcome (MemoryBackend × Page)
retrieve_each filter count b [] idx page = gives (b, page)
retrieve_each filter count b (id ∷ ids) idx page =
    if leb count (length page.trial_infos) then gives (b, page) else elim (lookup id b.trials) [
      | none ↦ panics
      | some trial ↦ elim (turn_page filter id idx trial trial.stored_samples page) [
        | none ↦ panics
        | some page' ↦ retrieve_each filter count (touch b id trial) ids (idx + 1) page'
      ]
    ]

unfoldable pub retrieve_trials :
    MemoryBackend → TrialFilter → ℕ → ℕ → Outcome (MemoryBackend × Page)
unfolding retrieve_each
retrieve_trials b filter from_trial_idx count =
    retrieve_each filter (count_of b filter count) b (drop from_trial_idx b.trial_ids.items)
      from_trial_idx (record { trial_infos = []; next_trial_idx = 0 })
