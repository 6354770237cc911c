-- ===== src/Datastore/Server.antt =====
-- packages/cli/services/datastore/grpcservers/trialDatastoreServer.go, over the memory backend: the
-- header metadata, AddTrial, AddSample and DeleteTrials. A stream is the samples that it brings and how
-- it ends. `none` for the metadata of a call is that there are none.
pub mod Chunks
use cogment.Prelude.{
  ℕ, zero, suc, ◌≡◌, String, Bool, true, false, Option, none, some, List, [], ◌∷◌, ◌++◌, ◌==◌, not,
  ◌&&◌, if◌then◌else◌, length, str_eq, string_key,
}
use cogment.Prelude.Dict.{Dict, lookup}
use cogment.Datastore.Memory.{
  StoredTrialSample, TrialParams, MemoryBackend, BackendError, Outcome, gives, panics, add_samples,
  create_or_update_trials, delete_trials,
}

abbrev pub add_sample_chunk_size : ℕ
add_sample_chunk_size = 100

pub data Status : Type 0 where
  ok : Status
  invalid_argument : Status
  internal : BackendError → Status
  received : String → Status

-- The end of the stream, or an error that the stream gives.
pub data Ending : Type 0 where
  eof : Ending
  broken : String → Ending

abbrev one_trial_id : Option (List String) → Option String
one_trial_id (some (trial_id ∷ [])) = some trial_id
one_trial_id _ = none

unfoldable pub trial_id_from_header_metadata : Option (Dict String (List String)) → Option String
trial_id_from_header_metadata none = none
trial_id_from_header_metadata (some metadata) = one_trial_id (lookup "trial-id" metadata)

unfoldable pub add_trial :
    Option (Dict String (List String))
    → String
    → Option (Dict String String)
    → MemoryBackend
    → MemoryBackend × Status
unfolding trial_id_from_header_metadata create_or_update_trials
add_trial metadata user_id params b = elim (trial_id_from_header_metadata metadata) [
  | none ↦ (b, invalid_argument)
  | some trial_id ↦ (
    create_or_update_trials b
        (record { trial_id = trial_id; user_id = user_id; params = params } ∷ []),
    ok,
  )
]

-- After the backend was given a chunk: its error is answered.
abbrev pub after_chunk :
    Outcome (MemoryBackend × Option BackendError)
    → (MemoryBackend → Outcome (MemoryBackend × Status))
    → Outcome (MemoryBackend × Status)
after_chunk panics next = panics
after_chunk (gives (b, some e)) next = gives (b, internal e)
after_chunk (gives (b, none)) next = next b

abbrev pub answer_ok : MemoryBackend → Outcome (MemoryBackend × Status)
answer_ok b = gives (b, ok)

unfoldable pub add_last_chunk :
    List StoredTrialSample → MemoryBackend → Outcome (MemoryBackend × Status)
unfolding add_samples
add_last_chunk [] b = answer_ok b
add_last_chunk (s ∷ chunk) b = after_chunk (add_samples b (s ∷ chunk)) answer_ok

abbrev pub belongs : String → StoredTrialSample → Bool
belongs trial_id s = not (not (str_eq s.trial_id "") && not (str_eq s.trial_id trial_id))

abbrev pub labelled : String → StoredTrialSample → StoredTrialSample
labelled trial_id s = record s { trial_id = trial_id }

-- The loop, with the chunk so far, for chunks of a size.
unfoldable pub receive_samples :
    ℕ
    → String
    → Ending
    → List StoredTrialSample
    → List StoredTrialSample
    → MemoryBackend
    → Outcome (MemoryBackend × Status)
unfolding add_last_chunk add_samples
receive_samples size trial_id (broken e) [] chunk b = gives (b, received e)
receive_samples size trial_id eof [] chunk b = add_last_chunk chunk b
receive_samples size trial_id ending (s ∷ stream) chunk b =
    let chunk' = chunk ++ (labelled trial_id s ∷ []) in
    elim (belongs trial_id s) [
      | false ↦ gives (b, invalid_argument)
      | true ↦ elim (length chunk' == size) [
        | false ↦ receive_samples size trial_id ending stream chunk' b
        | true ↦ after_chunk (add_samples b chunk') (receive_samples size trial_id ending stream [])
      ]
    ]

unfoldable pub serve_add_sample :
    Option (Dict String (List String))
    → List StoredTrialSample
    → Ending
    → MemoryBackend
    → Outcome (MemoryBackend × Status)
unfolding trial_id_from_header_metadata receive_samples
serve_add_sample metadata stream ending b = elim (trial_id_from_header_metadata metadata) [
  | none ↦ gives (b, invalid_argument)
  | some trial_id ↦ receive_samples add_sample_chunk_size trial_id ending stream [] b
]

unfoldable pub serve_delete_trials : List String → MemoryBackend → MemoryBackend × Status
unfolding delete_trials
serve_delete_trials ids b = (delete_trials b ids, ok)
