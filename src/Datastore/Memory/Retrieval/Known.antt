-- ===== src/Datastore/Memory/Retrieval/Known.antt =====
-- Every operation of memory.go keeps the listed trials in the map, with their samples unless deleted.
use mathlib.Core.Path.{subst}
use cogment.Prelude.{
  ℕ, ◌≡◌, refl, ◌∙◌, ◌⊎◌, inl, inr, String, true, Option, none, some, List, [], ◌∷◌, ◌++◌, ◌==◌,
  leb, arith, All, All-append, drop, zero, suc, string_key, Bool-cases, Option-cases, str_eq,
  eq_iff,
}
use cogment.Prelude.Dict.{Dict, lookup, insert, lookup-insert}
use cogment.Datastore.Observable.{ObservableList, append, new_observable_list}
use cogment.Datastore.Memory.{
  StoredTrialSample, TrialParams, TrialData, MemoryBackend, BackendError, Outcome, gives, panics,
  create_memory_backend, touch, retrieve_trial_datas, new_trial_data, create_or_update_trial,
  create_or_update_trials, deleted_data, delete_trial, delete_trials, stored, add_to, add_sample,
  add_each, added, add_samples, trials_of, emptied, evicted, samples_ended, evict_each,
  evict_lru_trials,
}
use cogment.Datastore.Memory.Accounting.{Leaves, Outcome-cases}
use cogment.Datastore.Memory.Steps.{
  Step, creates, retrieves, deletes, adds, evicts, Reach, starts, steps,
}
use cogment.Datastore.Memory.Retrieval.{TrialFilter, Page, count_of, retrieve_trials}
use cogment.Datastore.Memory.Retrieval.Pages.{IsKnown, first_infos, matching, retrieve_trials_lem}

abbrev Fine : TrialData → Type 0
Fine trial =
    (trial.deleted ≡ true)
    ⊎ ((l : ObservableList StoredTrialSample) × (trial.stored_samples ≡ some l))

abbrev InMap : Dict String TrialData → String → Type 0
InMap m id = (trial : TrialData) × (lookup id m ≡ some trial)

record IsComplete (m : Dict String TrialData) (ids : List String) : Type 0 where
  fine : (id : String) (trial : TrialData) → lookup id m ≡ some trial → Fine trial
  present : All (InMap m) ids

abbrev Complete : MemoryBackend → Type 0
Complete b = IsComplete b.trials b.trial_ids.items

present-insert :
    (m : Dict String TrialData) (id : String) (trial : TrialData) (ids : List String)
    → All (InMap m) ids
    → All (InMap (insert id trial m)) ids
present-insert m id trial [] h = tt
present-insert m id trial (j ∷ ids) ((t, e), h) = (
  elim (Bool-cases (str_eq id j)) [
    | inl q ↦ (trial, lookup-insert id j trial m ∙ ground arith)
    | inr q ↦ (t, lookup-insert id j trial m ∙ ground arith)
  ],
  present-insert m id trial ids h,
)

insert-IsComplete :
    (m : Dict String TrialData) (id : String) (trial : TrialData) (ids : List String)
    → IsComplete m ids
    → Fine trial
    → IsComplete (insert id trial m) ids
insert-IsComplete m id trial ids c f = record {
  fine = λ j t e. elim (Bool-cases (str_eq id j)) [
    | inl q ↦ let p : trial ≡ t = ground (arith, lookup-insert id j trial m) in subst Fine p f
    | inr q ↦ c.fine j t (ground (arith, lookup-insert id j trial m))
  ];
  present = present-insert m id trial ids c.present;
}

retrieve-Complete :
    (b : MemoryBackend) (ids : List String) → Complete b → Complete (retrieve_trial_datas b ids).0
unfolding retrieve_trial_datas
retrieve-Complete b [] c = c
retrieve-Complete b (id ∷ ids) c = elim (Option-cases (lookup id b.trials)) [
  | inl e ↦ rw (e, retrieve_trial_datas) c
  | inr (trial, e) ↦ rw (e, retrieve_trial_datas) (retrieve-Complete (touch b id trial) ids c)
]

create-Complete :
    (b : MemoryBackend) (p : TrialParams) → Complete b → Complete (create_or_update_trial b p)
unfolding create_or_update_trial append
create-Complete b p c = elim (Option-cases (lookup p.trial_id b.trials)) [
  | inl e ↦
      let grown =
        insert-IsComplete b.trials p.trial_id (new_trial_data p) b.trial_ids.items c
          (inr (new_observable_list, refl)) in
      let here : InMap (insert p.trial_id (new_trial_data p) b.trials) p.trial_id = (
        new_trial_data p,
        lookup-insert p.trial_id p.trial_id (new_trial_data p) b.trials
            ∙ ground (arith, eq_iff p.trial_id p.trial_id),
      ) in
      let both : IsComplete (insert p.trial_id (new_trial_data p) b.trials)
          (b.trial_ids.items ++ (p.trial_id ∷ [])) =
        record {
          fine = grown.fine;
          present =
              All-append (InMap (insert p.trial_id (new_trial_data p) b.trials)) b.trial_ids.items
                (p.trial_id ∷ []) grown.present (here, tt);
        } in
      rw (e, create_or_update_trial) both
  | inr (trial, e) ↦
      let renamed : TrialData = record trial { params = p.params; user_id = p.user_id } in
      rw (e, create_or_update_trial)
        (insert-IsComplete b.trials p.trial_id renamed b.trial_ids.items c
          (c.fine p.trial_id trial e))
]

create_each-Complete :
    (b : MemoryBackend) (ps : List TrialParams)
    → Complete b
    → Complete (create_or_update_trials b ps)
unfolding create_or_update_trials
create_each-Complete b [] c = c
create_each-Complete b (p ∷ ps) c =
    create_each-Complete (create_or_update_trial b p) ps (create-Complete b p c)

delete-Complete : (b : MemoryBackend) (id : String) → Complete b → Complete (delete_trial b id)
unfolding delete_trial
delete-Complete b id c = elim (Option-cases (lookup id b.trials)) [
  | inl e ↦ rw (e, delete_trial) c
  | inr (trial, e) ↦
      rw (e, delete_trial)
        (insert-IsComplete b.trials id deleted_data b.trial_ids.items c (inl refl))
]

delete_each-Complete :
    (b : MemoryBackend) (ids : List String) → Complete b → Complete (delete_trials b ids)
unfolding delete_trials
delete_each-Complete b [] c = c
delete_each-Complete b (id ∷ ids) c =
    delete_each-Complete (delete_trial b id) ids (delete-Complete b id c)

add-Complete :
    (b : MemoryBackend) (s : StoredTrialSample) → Complete b → Leaves Complete (add_sample b s)
unfolding add_sample
add-Complete b s c = elim (Option-cases (lookup s.trial_id b.trials)) [
  | inl e ↦ rw (e, add_to) tt
  | inr (trial, e) ↦ elim (Option-cases trial.stored_samples) [
    | inl n ↦ rw (e, add_to, n) tt
    | inr (l, n) ↦
        let kept =
          insert-IsComplete b.trials s.trial_id (stored trial l s) b.trial_ids.items c
            (inr (append l s (s.state == 5), refl)) in
        rw (e, add_to, n) kept
  ]
]

add_each-Complete :
    (b : MemoryBackend) (samples : List StoredTrialSample)
    → Complete b
    → Leaves Complete (add_each b samples)
unfolding add_each
add_each-Complete b [] c = c
add_each-Complete b (s ∷ samples) c =
    let a = add-Complete b s c in
    elim (Outcome-cases (add_sample b s)) [
      | inl e ↦ rw (e, add_each) tt
      | inr (b', e) ↦ rw (e, add_each) (add_each-Complete b' samples (rw e at a))
    ]

abbrev Added : Outcome (MemoryBackend × Option BackendError) → Type 0
Added (gives (b, e)) = Complete b
Added panics = Unit

added-Complete :
    (samples : List StoredTrialSample) (x : MemoryBackend × Option BackendError)
    → Complete x.0
    → Added (added samples x)
added-Complete samples (b, some e) c = c
added-Complete samples (b, none) c =
    let a = add_each-Complete b samples c in
    elim (Outcome-cases (add_each b samples)) [
      | inl e ↦ rw (e, added) tt
      | inr (b', e) ↦ rw (e, added) (rw e at a)
    ]

add_samples-Complete :
    (b : MemoryBackend) (samples : List StoredTrialSample)
    → Complete b
    → Added (add_samples b samples)
unfolding add_samples
add_samples-Complete b samples c =
    added-Complete samples (retrieve_trial_datas b (trials_of samples))
      (retrieve-Complete b (trials_of samples) c)

evict_each-Complete :
    (b : MemoryBackend) (ids : List String) → Complete b → Leaves Complete (evict_each b ids)
unfolding evict_each
evict_each-Complete b [] c = c
evict_each-Complete b (id ∷ ids) c = elim (Bool-cases (leb b.samples_size b.max_samples_size)) [
  | inl k ↦ rw (k, evict_each) c
  | inr k ↦ elim (Option-cases (lookup id b.trials)) [
    | inl e ↦ rw (k, e, evict_each) tt
    | inr (trial, e) ↦ elim (Outcome-cases (samples_ended trial.stored_samples)) [
      | inl o ↦ rw (k, e, o, evict_each) tt
      | inr (ended, o) ↦ elim (Bool-cases ended) [
        | inl d ↦
            rw (k, e, o, d, evict_each)
              (evict_each-Complete (evicted b id ids trial) ids (
                insert-IsComplete b.trials id (emptied trial) b.trial_ids.items c
                  (inr (new_observable_list, refl))))
        | inr d ↦ rw (k, e, o, d, evict_each) c
      ]
    ]
  ]
]

evict-Complete : (b : MemoryBackend) → Complete b → Leaves Complete (evict_lru_trials b)
unfolding evict_lru_trials
evict-Complete b c = evict_each-Complete b b.trials_ev_list c

step-Complete : (b b' : MemoryBackend) → Step b b' → Complete b → Complete b'
step-Complete b b' (creates _ params) c = create_each-Complete b params c
step-Complete b b' (retrieves _ ids) c = retrieve-Complete b ids c
step-Complete b b' (deletes _ ids) c = delete_each-Complete b ids c
step-Complete b b' (adds _ _ samples x e) c = subst Added e (add_samples-Complete b samples c)
step-Complete b b' (evicts _ _ e) c = subst (Leaves Complete) e (evict-Complete b c)

create-IsComplete : (n : ℕ) → Complete (create_memory_backend n)
unfolding create_memory_backend lookup new_observable_list
create-IsComplete n = record { fine = λ id t e. absurd (cc e); present = tt }

Reach-Complete : (n : ℕ) (b : MemoryBackend) → Reach (create_memory_backend n) b → Complete b
Reach-Complete n b starts = create-IsComplete n
Reach-Complete n b (steps b1 _ r s) = step-Complete b1 b s (Reach-Complete n b1 r)

-- No trial that is kept has parameters that are nil.
abbrev pub HasParams : Dict String TrialData → Type 0
HasParams [] = Unit
HasParams ((id, trial) ∷ m) =
    ((trial.deleted ≡ true)
      ⊎ ((properties : Dict String String) × (trial.params ≡ some properties)))
    × HasParams m

params_of :
    (m : Dict String TrialData) (id : String) (trial : TrialData)
    → HasParams m
    → lookup id m ≡ some trial
    → (trial.deleted ≡ true)
      ⊎ ((properties : Dict String String) × (trial.params ≡ some properties))
unfolding lookup
params_of [] id trial h e = absurd (ground (arith, e))
params_of ((j, t) ∷ m) id trial h e = elim (Bool-cases (str_eq j id)) [
  | inl same ↦
      let one : t ≡ trial = ground (arith, same, e) in
      subst
        (λ (t' : TrialData).
          (t'.deleted ≡ true) ⊎ ((properties : Dict String String) × (t'.params ≡ some properties)))
        one h.0
  | inr other ↦ params_of m id trial h.1 (ground (arith, other, e))
]

known_one :
    (trial : TrialData)
    → Fine trial
    → (trial.deleted ≡ true)
      ⊎ ((properties : Dict String String) × (trial.params ≡ some properties))
    → (trial.deleted ≡ true)
      ⊎ ((l : ObservableList StoredTrialSample) × (properties : Dict String String)
          × (trial.stored_samples ≡ some l)
          × (trial.params ≡ some properties))
known_one trial (inl d) h = inl d
known_one trial (inr s) (inl d) = inl d
known_one trial (inr (l, s)) (inr (properties, p)) = inr (l, properties, s, p)

known :
    (m : Dict String TrialData) (all ids : List String)
    → IsComplete m all
    → HasParams m
    → All (InMap m) ids
    → All (IsKnown m) ids
known m all [] c p h = tt
known m all (id ∷ ids) c p ((t, e), h) =
    ((t, e, known_one t (c.fine id t e) (params_of m id t p e)), known m all ids c p h)

All-drop : (P : String → Type 0) (n : ℕ) (ids : List String) → All P ids → All P (drop n ids)
All-drop P zero ids h = h
All-drop P (suc n) [] h = tt
All-drop P (suc n) (id ∷ ids) (p, h) = All-drop P n ids h

-- In every state that is reached and in which no trial that is kept has parameters that are nil,
-- `RetrieveTrials` returns the infos of the first trials, as many as the count at most, from the start on
-- in the order of creation, that were not deleted and that the filter selects, and changes no trial.
pub Reach-matching :
    (n : ℕ) (b : MemoryBackend) (filter : TrialFilter) (from_trial_idx count : ℕ)
    → Reach (create_memory_backend n) b
    → HasParams b.trials
    → (b' : MemoryBackend) × (page : Page) × (retrieve_trials b filter from_trial_idx count
        ≡ gives (b', page))
      × (b'.trials ≡ b.trials)
      × (page.trial_infos
          ≡ first_infos
              (count_of b filter count)
              (matching filter b.trials (drop from_trial_idx b.trial_ids.items)))
Reach-matching n b filter from_trial_idx count r p =
    let c = Reach-Complete n b r in
    let ids = drop from_trial_idx b.trial_ids.items in
    retrieve_trials_lem b filter from_trial_idx count (
      known b.trials b.trial_ids.items ids c p
        (All-drop (InMap b.trials) from_trial_idx b.trial_ids.items c.present))
