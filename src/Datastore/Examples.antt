-- ===== src/Datastore/Examples.antt =====
-- The theorems on the datastore (packages/cli/services/datastore) at concrete inputs.
use cogment.Prelude.{
  subst, sym, inr, take, ℕ, ◌≡◌, refl, String, true, false, none, some, List, [], ◌∷◌, drop,
  get_elem?, arith, string_key, if◌then◌else◌, ◌&&◌, ◌||◌, ltb, length,
}
use cogment.Prelude.Dict.{lookup, insert}
use cogment.Datastore.Observable.{ObservableList, append, observe}
use cogment.Datastore.Observable.Reads.{last_read, observe_lem}
use cogment.Datastore.Memory.{
  StoredTrialSample, TrialParams, TrialData, MemoryBackend, unknown_trial, gives, panics,
  create_memory_backend, create_or_update_trials, create_or_update_trial, retrieve_trial_datas,
  delete_trial, delete_trials, new_trial_data, add_samples, evict_lru_trials,
}
use cogment.Datastore.Memory.Accounting.{IsCounted}
use cogment.Datastore.Memory.Eviction.{MayEvict, Settled}
use cogment.Datastore.Memory.Steps.{starts, steps, creates, deletes}
use cogment.Datastore.Memory.Steps.Reached.{Reach-IsCounted, Reach-Settled, delete-add_samples}
use cogment.Datastore.Memory.Retrieval.{TrialFilter, Page, count_of, retrieve_trials}
use cogment.Datastore.Memory.Retrieval.Pages.{first_infos, matching}
use cogment.Datastore.Memory.Retrieval.Known.{HasParams, Reach-matching}
use cogment.Datastore.SampleFilter.{
  TrialSampleFilter, ActorParams, ActorSample, TrialSample, Payloads, ArrayFilter,
  array_selects_all, filter_sample,
}
use cogment.Datastore.SampleFilter.Selection.{listed}
use cogment.Datastore.SampleFilter.Filtered.{kept_actors, all_indices, filter_sample_lem}

abbrev first : ObservableList String
first = record { items = "a" ∷ "b" ∷ []; ended = false }

abbrev second : ObservableList String
second = record { items = "a" ∷ "b" ∷ "c" ∷ []; ended = true }

observe_lem_example :
    observe 1 first (second ∷ []) 1 ≡ some (take 1 (drop 1 (last_read first (second ∷ [])).items))
observe_lem_example = observe_lem 1 first (second ∷ []) 1 (("c" ∷ [], refl), tt) (omega arith)

abbrev t1 : TrialParams
t1 = record { trial_id = "t1"; user_id = "u"; params = some [] }

abbrev ending : StoredTrialSample
ending = record { trial_id = "t1"; state = 5; size = 30 }

abbrev made : MemoryBackend
made = create_or_update_trials (create_memory_backend 20) (t1 ∷ [])

abbrev known : TrialData
known = new_trial_data t1

abbrev one_trial : MemoryBackend
one_trial = record {
  trials = ("t1", known) ∷ [];
  trials_ev_list = "t1" ∷ [];
  trial_ids = record { items = "t1" ∷ []; ended = false };
  samples_size = 0;
  max_samples_size = 20;
}

made_is : made ≡ one_trial
unfolding create_or_update_trials create_or_update_trial create_memory_backend insert lookup append
made_is = refl

Reach-IsCounted_example :
    IsCounted (delete_trials made ("t1" ∷ [])).trials (delete_trials made ("t1" ∷ [])).samples_size
Reach-IsCounted_example = Reach-IsCounted 20 (delete_trials made ("t1" ∷ [])) (
    steps made (delete_trials made ("t1" ∷ []))
      (steps (create_memory_backend 20) made starts (creates (create_memory_backend 20) (t1 ∷ [])))
      (deletes made ("t1" ∷ [])))

Reach-Settled_example :
    (b : MemoryBackend) × (evict_lru_trials made ≡ gives b)
    × Settled b
    × ((id : String) → MayEvict (lookup id made.trials) (lookup id b.trials))
Reach-Settled_example =
    Reach-Settled 20 made
      (steps (create_memory_backend 20) made starts (creates (create_memory_backend 20) (t1 ∷ [])))

abbrev every : TrialFilter
every = record { id_filter = []; properties_filter = [] }

Reach-matching_example :
    (b : MemoryBackend) × (page : Page) × (retrieve_trials made every 0 0 ≡ gives (b, page))
    × (b.trials ≡ made.trials)
    × (page.trial_infos
        ≡ first_infos
            (count_of made every 0)
            (matching every made.trials (drop 0 made.trial_ids.items)))
Reach-matching_example =
    Reach-matching 20 made every 0 0
      (steps (create_memory_backend 20) made starts (creates (create_memory_backend 20) (t1 ∷ [])))
      (subst (λ b. HasParams b.trials) (sym made_is) (inr ([], refl), tt))

abbrev stray : StoredTrialSample
stray = record ending { trial_id = "t2" }

stray_refused : add_samples one_trial (stray ∷ []) ≡ gives (one_trial, some (unknown_trial "t2"))
unfolding add_samples retrieve_trial_datas lookup
stray_refused = refl

known_there : lookup "t1" one_trial.trials ≡ some known
unfolding lookup
known_there = refl

delete-add_samples_example : add_samples (delete_trial one_trial "t1") (ending ∷ []) ≡ panics
delete-add_samples_example = delete-add_samples one_trial ending known known_there

abbrev players : TrialSampleFilter
players = record {
  actor_names = [];
  actor_classes = "player" ∷ [];
  actor_implementations = [];
  fields = 1 ∷ 7 ∷ [];
}

abbrev cast : List ActorParams
cast =
    record { name = "a"; actor_class = "player"; implementation = "x" }
    ∷ record { name = "b"; actor_class = "coach"; implementation = "y" }
    ∷ []

abbrev seen : ActorSample
seen = record {
  actor = 0;
  observation = some 1;
  action = some 0;
  reward = none;
  received_rewards = [];
  sent_rewards = [];
  received_messages = [];
  sent_messages = [];
}

abbrev tick : TrialSample
tick = record {
  user_id = "u";
  trial_id = "t";
  tick_id = 3;
  timestamp = 9;
  state = 2;
  actor_samples = seen ∷ record seen { actor = 1 } ∷ [];
  payloads = some "act" ∷ some "obs" ∷ [];
}

abbrev only_first : ArrayFilter
only_first = true ∷ false ∷ []

abbrev observations : ArrayFilter
observations = false ∷ true ∷ false ∷ false ∷ false ∷ false ∷ false ∷ false ∷ []

filter_sample_lem_example :
    (payloads : Payloads) × (filter_sample only_first observations tick
      ≡ some (record tick {
        actor_samples = kept_actors only_first observations tick.actor_samples;
        payloads = payloads;
      }))
    × ((i : ℕ)
        → get_elem? payloads i ≡ (
            if (array_selects_all only_first && array_selects_all observations)
              || listed i (all_indices (kept_actors only_first observations tick.actor_samples))
            then get_elem? tick.payloads i
            else if ltb i (length tick.payloads)
            then some none
            else none))
filter_sample_lem_example =
    filter_sample_lem only_first observations tick refl (omega arith, (omega arith, tt))
      (omega arith, tt)
