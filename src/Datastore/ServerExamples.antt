-- ===== src/Datastore/ServerExamples.antt =====
-- Runs of datalogServer.go, sampleBatcher.go and trialDatastoreServer.go.
use cogment.Prelude.{
  pos, ℕ, ◌≡◌, ◌≢◌, ◌⊎◌, refl, String, true, false, Option, none, some, List, [], ◌∷◌, ◌++◌, ◌+◌,
  if◌then◌else◌, arith, All, length, flatten, str_eq, id_key, string_key,
}
use cogment.Prelude.Dict.{Dict, lookup, insert}
use cogment.Datastore.Observable.{new_observable_list}
use cogment.Datastore.Memory.{
  u32, StoredTrialSample, TrialParams, new_trial_data, MemoryBackend, create_memory_backend,
  create_or_update_trials, add_samples,
}
use cogment.Datastore.SampleFilter.{ActorParams, TrialSample, ArrayFilter, bind, filter_sample}
use cogment.Datastore.SampleFilter.Payloads.{InRange}
use cogment.Datastore.SampleFilter.Filtered.{indices_of}
use cogment.Datastore.Datalog.{Floats, DatalogSample, RewardSource, enumerate_from}
use cogment.Datastore.Datalog.Indices.{NamesOnce}
use cogment.Datastore.Datalog.Stored.{
  IsComplete, stored_sample, stored_sample_lem, filter-stored_sample,
}
use cogment.Datastore.Batcher.{
  Adds, SampleBatcher, no_timer, new_sample_batcher, add_sample, Run, begun, runs, put,
}
use cogment.Datastore.Batcher.Delivered.{deliver, unsent, Run-Delivers}
use cogment.Datastore.Batcher.Ended.{Run-Ends}
use cogment.Datastore.Server.{
  trial_id_from_header_metadata, serve_add_sample, eof, after_chunk, answer_ok,
}
use cogment.Datastore.Server.Chunks.{IsOpen, relabelled, serve_add_sample-add_samples}

-- Floats that are "0" or "1".
abbrev bits : Floats
bits = record {
  nothing = "0";
  positive = λ x. str_eq x "1";
  add = λ x y. if str_eq x "0" then y else x;
  times = λ x y. if str_eq x "0" then "0" else y;
  divided_by = λ x y. x;
}

abbrev two_actors : List ActorParams
two_actors =
    record { name = "a"; actor_class = "player"; implementation = "x" }
    ∷ record { name = "b"; actor_class = "coach"; implementation = "y" }
    ∷ []

abbrev praise : RewardSource
praise = record { sender_name = "b"; value = "1"; confidence = "1"; user_data = some "well" }

abbrev logged : DatalogSample
logged = record {
  info = some (record { tick_id = 3; timestamp = 9; state = 2 });
  observations = some (record { observations = "o" ∷ "p" ∷ []; actors_map = pos 1 ∷ pos 0 ∷ [] });
  actions = "act" ∷ [];
  rewards =
      record { receiver_name = "player.*"; sources = praise ∷ [] }
      ∷ record { receiver_name = "*"; sources = praise ∷ [] }
      ∷ [];
  messages = record { sender_name = "env"; receiver_name = "a"; payload = some "hello" } ∷ [];
}

two_actors-NamesOnce : NamesOnce two_actors
two_actors-NamesOnce = ((refl, tt), (tt, tt))

logged-IsComplete : IsComplete 2 logged
logged-IsComplete = record {
  informed = (record { tick_id = 3; timestamp = 9; state = 2 }, refl);
  observed = (omega arith, (omega arith, (omega arith, tt)));
  acted = omega arith;
  told = (("hello", refl), tt);
}

stored_sample_lem_example :
    (sample : TrialSample) × (stored_sample bits two_actors "t" logged ≡ some sample)
    × (length sample.actor_samples ≡ 2)
    × All
        (λ (i, a). (a.actor ≡ u32 i) × InRange sample.payloads (indices_of a))
        (enumerate_from 0 sample.actor_samples)
stored_sample_lem_example =
    stored_sample_lem bits two_actors "t" logged two_actors-NamesOnce logged-IsComplete

abbrev first_actor : ArrayFilter
first_actor = true ∷ false ∷ []

abbrev rewards_only : ArrayFilter
rewards_only = false ∷ false ∷ false ∷ true ∷ true ∷ true ∷ false ∷ false ∷ []

filter-stored_sample_example :
    (filtered : TrialSample) × (bind
        (stored_sample bits two_actors "t" logged)
        (filter_sample first_actor rewards_only)
      ≡ some filtered)
filter-stored_sample_example =
    filter-stored_sample bits two_actors "t" logged first_actor rewards_only two_actors-NamesOnce
      logged-IsComplete refl refl

-- A backend that keeps the number of its samples.
abbrev counting : Adds ℕ ℕ ℕ
counting samples n = (none, n + length samples)

counting_answers : (samples : List ℕ) (n : ℕ) → (counting samples n).0 ≡ none
counting_answers samples n = refl

abbrev after_two : SampleBatcher ℕ ℕ ℕ
after_two = add_sample 8 (add_sample 7 (new_sample_batcher 0))

two_puts : Run counting (new_sample_batcher 0) (7 ∷ 8 ∷ []) [] after_two
two_puts =
    runs (7 ∷ []) (8 ∷ []) [] [] (add_sample 7 (new_sample_batcher 0)) after_two
      (runs [] (7 ∷ []) [] [] (new_sample_batcher 0) (add_sample 7 (new_sample_batcher 0)) begun
        (put 7 (new_sample_batcher 0) refl))
      (put 8 (add_sample 7 (new_sample_batcher 0)) (unfold add_sample in refl))

Run-Delivers_example :
    (flatten {A = ℕ} [] ++ unsent after_two.sending after_two.batch ≡ 7 ∷ 8 ∷ [])
    × (after_two.backend ≡ deliver counting [] 0)
    × ((after_two.due ≡ 0) ⊎ (after_two.timer ≢ no_timer))
Run-Delivers_example = Run-Delivers counting 0 (7 ∷ 8 ∷ []) [] after_two two_puts

Run-Ends_example :
    (next : List (List ℕ)) × (sb' : SampleBatcher ℕ ℕ ℕ) × Run counting after_two [] next sb'
    × (sb'.batch ≡ [])
    × (flatten ([] ++ next) ≡ 7 ∷ 8 ∷ [])
    × (sb'.backend ≡ deliver counting ([] ++ next) 0)
Run-Ends_example = Run-Ends counting 0 counting_answers (7 ∷ 8 ∷ []) [] after_two two_puts

abbrev t1 : TrialParams
t1 = record { trial_id = "t1"; user_id = "u"; params = some [] }

abbrev one_trial : MemoryBackend
one_trial = create_or_update_trials (create_memory_backend 1000) (t1 ∷ [])

one_trial-IsOpen : IsOpen "t1" true one_trial
unfolding create_or_update_trials create_memory_backend lookup insert
one_trial-IsOpen = record {
  trial = new_trial_data t1;
  list = new_observable_list;
  known = refl;
  has_list = refl;
  element = refl;
}

abbrev two_samples : List StoredTrialSample
two_samples =
    record { trial_id = ""; state = 2; size = 10 }
    ∷ record { trial_id = "t1"; state = 5; size = 20 }
    ∷ []

abbrev header : Option (Dict String (List String))
header = some (("trial-id", "t1" ∷ []) ∷ [])

serve_add_sample-add_samples_example :
    serve_add_sample header two_samples eof one_trial
    ≡ after_chunk (add_samples one_trial (relabelled "t1" two_samples)) answer_ok
serve_add_sample-add_samples_example =
    serve_add_sample-add_samples header "t1" true two_samples one_trial
      (unfold trial_id_from_header_metadata lookup in refl) (refl, (refl, tt)) one_trial-IsOpen
