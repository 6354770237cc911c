-- ===== src/Datastore/Server/Chunks.antt =====
-- trialDatastoreServer.go: the samples of a stream are stored in chunks, as they are stored at once.
use mathlib.Core.List.{append-nil, append_assoc}
use cogment.Prelude.{
  ℕ, ◌+◌, ◌≡◌, ◌∙◌, refl, sym, ap, inl, inr, String, Bool, true, false, Option, none, some, List,
  [], ◌∷◌, ◌++◌, ◌==◌, if◌then◌else◌, arith, length, str_eq, eq_iff, string_key, All, All-append,
  map, Bool-cases,
}
use cogment.Prelude.Dict.{Dict, lookup, insert, lookup-insert, same_refl}
use cogment.Datastore.Observable.{ObservableList, append}
use cogment.Datastore.Memory.Accounting.{Outcome-cases}
use cogment.Datastore.Server.{
  serve_add_sample, trial_id_from_header_metadata, add_sample_chunk_size, eof, after_chunk,
  answer_ok, add_last_chunk, belongs, labelled, receive_samples,
}
use cogment.Datastore.Memory.{
  StoredTrialSample, TrialData, MemoryBackend, gives, panics, remove, move_to_back,
  retrieve_trial_datas, trials_of, add_to, add_each, add_sample, added, add_samples, stored,
  trial_ended_state, u32,
}

remove-append : (id : String) (ids : List String) → remove id (ids ++ (id ∷ [])) ≡ remove id ids
unfolding remove
remove-append id [] = ground (arith, eq_iff id id)
remove-append id (j ∷ ids) = ground (arith, remove-append id ids)

remove-remove : (id : String) (ids : List String) → remove id (remove id ids) ≡ remove id ids
unfolding remove
remove-remove id [] = refl
remove-remove id (j ∷ ids) = elim (Bool-cases (str_eq j id)) [
  | inl same ↦ rw same (remove-remove id ids)
  | inr other ↦ rw other (rw other (ap (◌∷◌ j) (remove-remove id ids)))
]

-- A trial that is at the back stays there.
move_to_back-move_to_back :
    (id : String) (ids : List String) → move_to_back id (move_to_back id ids) ≡ move_to_back id ids
move_to_back-move_to_back id ids =
    ap (λ js. js ++ (id ∷ [])) (remove-append id (remove id ids) ∙ remove-remove id ids)

-- The trial is known, has its list, and is in the eviction list or not.
pub record IsOpen (id : String) (listed : Bool) (b : MemoryBackend) : Type 0 where
  pub trial : TrialData
  pub list : ObservableList StoredTrialSample
  pub known : lookup id b.trials ≡ some trial
  pub has_list : trial.stored_samples ≡ some list
  pub element : trial.has_ev_list_element ≡ listed

abbrev Of : String → StoredTrialSample → Type 0
Of id s = s.trial_id ≡ id

abbrev moved : String → Bool → MemoryBackend → MemoryBackend
moved id listed b = record b {
  trials_ev_list = if listed then move_to_back id b.trials_ev_list else b.trials_ev_list;
}

moved-moved :
    (id : String) (listed : Bool) (b : MemoryBackend)
    → moved id listed (moved id listed b) ≡ moved id listed b
moved-moved id true b =
    ap (λ ids. record b { trials_ev_list = ids }) (move_to_back-move_to_back id b.trials_ev_list)
moved-moved id false b = refl

moved-IsOpen :
    (id : String) (listed : Bool) (b : MemoryBackend)
    → IsOpen id listed b
    → IsOpen id listed (moved id listed b)
moved-IsOpen id listed b opened = record {
  trial = opened.trial;
  list = opened.list;
  known = opened.known;
  has_list = opened.has_list;
  element = opened.element;
}

-- A sample of the trial is added, wherever the trial is in the eviction list.
add_one :
    (id : String) (listed : Bool) (b : MemoryBackend) (s : StoredTrialSample)
    → Of id s
    → IsOpen id listed b
    → (b' : MemoryBackend) × (add_sample b s ≡ gives b')
      × (add_sample (moved id listed b) s ≡ gives (moved id listed b'))
      × IsOpen id listed b'
unfolding add_sample add_to
add_one id listed b s e opened =
    let now : lookup s.trial_id b.trials ≡ some opened.trial = rw e opened.known in
    let trial' = stored opened.trial opened.list s in
    let b' : MemoryBackend = record b {
      trials = insert s.trial_id trial' b.trials;
      samples_size = u32 (b.samples_size + u32 s.size);
    } in
    (
      b',
      rw (now, opened.has_list) refl,
      rw (now, opened.has_list) refl,
      record {
        trial = trial';
        list = append opened.list s (s.state == trial_ended_state);
        known = lookup-insert s.trial_id id trial' b.trials ∙ rw e (rw (same_refl id) refl);
        has_list = refl;
        element = opened.element;
      },
    )

add_many :
    (id : String) (listed : Bool) (b : MemoryBackend) (samples : List StoredTrialSample)
    → All (Of id) samples
    → IsOpen id listed b
    → (b' : MemoryBackend) × (add_each b samples ≡ gives b')
      × (add_each (moved id listed b) samples ≡ gives (moved id listed b'))
      × IsOpen id listed b'
unfolding add_each
add_many id listed b [] h opened = (b, refl, refl, opened)
add_many id listed b (s ∷ samples) h opened =
    let (b1, e1, f1, opened1) = add_one id listed b s h.0 opened in
    let (b2, e2, f2, opened2) = add_many id listed b1 samples h.1 opened1 in
    (b2, rw (add_each, e1) e2, rw (add_each, f1) f2, opened2)

retrieve_one :
    (id : String) (listed : Bool) (b : MemoryBackend) (ids : List String)
    → IsOpen id listed b
    → retrieve_trial_datas b (id ∷ ids) ≡ retrieve_trial_datas (moved id listed b) ids
unfolding retrieve_trial_datas
retrieve_one id listed b ids opened = rw (retrieve_trial_datas, opened.known, opened.element) refl

retrieve_moved :
    (id : String) (listed : Bool) (b : MemoryBackend) (s : StoredTrialSample)
    (samples : List StoredTrialSample)
    → All (Of id) (s ∷ samples)
    → IsOpen id listed b
    → retrieve_trial_datas b (trials_of (s ∷ samples)) ≡ (moved id listed b, none)
retrieve_moved id listed b s [] h opened =
    ap (λ j. retrieve_trial_datas b (j ∷ [])) h.0
    ∙ retrieve_one id listed b [] opened
    ∙ unfold retrieve_trial_datas in refl
retrieve_moved id listed b s (t ∷ samples) h opened =
    ap (λ j. retrieve_trial_datas b (j ∷ trials_of (t ∷ samples))) h.0
    ∙ retrieve_one id listed b (trials_of (t ∷ samples)) opened
    ∙ retrieve_moved id listed (moved id listed b) t samples h.1 (moved-IsOpen id listed b opened)
    ∙ ap (λ c. (c, none)) (moved-moved id listed b)

add_each-append :
    (b b' : MemoryBackend) (xs ys : List StoredTrialSample)
    → add_each b xs ≡ gives b'
    → add_each b (xs ++ ys) ≡ add_each b' ys
unfolding add_each
add_each-append b b' [] ys e = ground (arith, e, add_each)
add_each-append b b' (s ∷ xs) ys e = elim (Outcome-cases (add_sample b s)) [
  | inl p ↦ absurd (lost (rw (add_each, p) at e))
  | inr (b1, p) ↦ rw (add_each, p) (add_each-append b1 b' xs ys (rw (add_each, p) at e))
]
  where
    lost : panics ≡ gives b' → ⊥
    lost q = ground (arith, q)

add_samples_lem :
    (id : String) (listed : Bool) (b : MemoryBackend) (s : StoredTrialSample)
    (samples : List StoredTrialSample)
    → All (Of id) (s ∷ samples)
    → IsOpen id listed b
    → add_samples b (s ∷ samples) ≡ added (s ∷ samples) (moved id listed b, none)
unfolding add_samples
add_samples_lem id listed b s samples h opened =
    ap (added (s ∷ samples)) (retrieve_moved id listed b s samples h opened)

-- Two chunks that are added are all their samples, added at once.
add_samples-append :
    (id : String) (listed : Bool) (b : MemoryBackend) (xs ys : List StoredTrialSample)
    → All (Of id) xs
    → All (Of id) ys
    → IsOpen id listed b
    → (b' : MemoryBackend) × (add_samples b xs ≡ gives (b', none))
      × (add_samples b (xs ++ ys) ≡ add_samples b' ys)
      × IsOpen id listed b'
add_samples-append id listed b [] ys h k opened =
    (b, unfold add_samples retrieve_trial_datas add_each in refl, refl, opened)
add_samples-append id listed b (x ∷ xs) ys h k opened =
    let (b1, e, f, opened1) = add_many id listed b (x ∷ xs) h opened in
    let first : add_samples b (x ∷ xs) ≡ gives (moved id listed b1, none) =
      add_samples_lem id listed b x xs h opened ∙ rw (added, f) refl in
    (moved id listed b1, first, next b1 first f opened1 ys k, moved-IsOpen id listed b1 opened1)
  where
    next :
        (b1 : MemoryBackend)
        → add_samples b (x ∷ xs) ≡ gives (moved id listed b1, none)
        → add_each (moved id listed b) (x ∷ xs) ≡ gives (moved id listed b1)
        → IsOpen id listed b1
        → (ys : List StoredTrialSample) → All (Of id) ys
        → add_samples b (x ∷ xs ++ ys) ≡ add_samples (moved id listed b1) ys
    next b1 first f opened1 [] k =
        rw (append-nil xs) (first ∙ unfold add_samples retrieve_trial_datas add_each in refl)
    next b1 first f opened1 (y ∷ ys) k =
        add_samples_lem id listed b x (xs ++ (y ∷ ys)) (All-append (Of id) (x ∷ xs) (y ∷ ys) h k)
          opened
        ∙ rw (added, add_each-append (moved id listed b) (moved id listed b1) (x ∷ xs) (y ∷ ys) f)
            (sym (
              add_samples_lem id listed (moved id listed b1) y ys k
                (moved-IsOpen id listed b1 opened1)
              ∙ rw (moved-moved id listed b1) refl))

-- The samples of the stream with the trial's id.
abbrev pub relabelled : String → List StoredTrialSample → List StoredTrialSample
relabelled id stream = map (labelled id) stream

relabelled-Of : (id : String) (stream : List StoredTrialSample) → All (Of id) (relabelled id stream)
relabelled-Of id [] = tt
relabelled-Of id (s ∷ stream) = (refl, relabelled-Of id stream)

add_last_chunk_lem :
    (chunk : List StoredTrialSample) (b : MemoryBackend)
    → add_last_chunk chunk b ≡ after_chunk (add_samples b chunk) answer_ok
unfolding add_last_chunk
add_last_chunk_lem [] b = unfold add_samples retrieve_trial_datas add_each in refl
add_last_chunk_lem (s ∷ chunk) b = refl

receive-add_samples :
    (size : ℕ) (id : String) (listed : Bool) (stream chunk : List StoredTrialSample)
    (b : MemoryBackend)
    → All (λ s. belongs id s ≡ true) stream
    → All (Of id) chunk
    → IsOpen id listed b
    → receive_samples size id eof stream chunk b
      ≡ after_chunk (add_samples b (chunk ++ relabelled id stream)) answer_ok
unfolding receive_samples
receive-add_samples size id listed [] chunk b h k opened =
    add_last_chunk_lem chunk b ∙ rw (append-nil chunk) refl
receive-add_samples size id listed (s ∷ stream) chunk b h k opened =
    let one = labelled id s in
    let chunk' = chunk ++ (one ∷ []) in
    let k' : All (Of id) chunk' = All-append (Of id) chunk (one ∷ []) k (refl, tt) in
    let all : chunk' ++ relabelled id stream ≡ chunk ++ (one ∷ relabelled id stream) =
      append_assoc chunk (one ∷ []) (relabelled id stream) in
    elim (Bool-cases (length chunk' == size)) [
      | inl full ↦
          let (b', e, f, opened') =
            add_samples-append id listed b chunk' (relabelled id stream) k'
              (relabelled-Of id stream) opened in
          rw (receive_samples, h.0, full, e)
            (receive-add_samples size id listed stream [] b' h.1 tt opened'
              ∙ ap (λ o. after_chunk o answer_ok) (sym f ∙ ap (add_samples b) all))
      | inr room ↦
          rw (receive_samples, h.0, room)
            (receive-add_samples size id listed stream chunk' b h.1 k' opened
              ∙ ap (λ xs. after_chunk (add_samples b xs) answer_ok) all)
    ]

-- For a trial that is known and was not deleted, and a stream that ends and has samples of this trial or
-- of no trial, AddSample, in chunks, does to the backend what one call of AddSamples with all the samples
-- does, each with the trial's id, and answers its error.
pub serve_add_sample-add_samples :
    (metadata : Option (Dict String (List String))) (id : String) (listed : Bool)
    (stream : List StoredTrialSample) (b : MemoryBackend)
    → trial_id_from_header_metadata metadata ≡ some id
    → All (λ s. belongs id s ≡ true) stream
    → IsOpen id listed b
    → serve_add_sample metadata stream eof b
      ≡ after_chunk (add_samples b (relabelled id stream)) answer_ok
unfolding serve_add_sample
serve_add_sample-add_samples metadata id listed stream b e h opened =
    rw (serve_add_sample, e)
      (receive-add_samples add_sample_chunk_size id listed stream [] b h tt opened)
