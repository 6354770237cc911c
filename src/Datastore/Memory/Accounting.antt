-- ===== src/Datastore/Memory/Accounting.antt =====
-- The sizes of memory.go: `samplesSize` is the size of what is stored, whatever is created, added,
-- deleted and evicted.
use mathlib.Core.Path.{subst}
use cogment.Prelude.{
  ℕ, ◌+◌, ◌^◌, ◌<◌, ◌≡◌, refl, sym, ap, ◌∙◌, ◌⊎◌, inl, inr, String, Option, none, some, List, [],
  ◌∷◌, arith, leb, string_key, Bool-cases, Option-cases, str_eq,
}
use cogment.Prelude.Dict.{Dict, lookup, insert, lookup-insert, KeysOnce, insert-KeysOnce}
use cogment.Datastore.Observable.{ObservableList, append, new_observable_list}
use cogment.Datastore.Memory.{
  u32, complement, StoredTrialSample, TrialParams, TrialData, MemoryBackend, Outcome, gives, panics,
  touch, retrieve_trial_datas, new_trial_data, create_or_update_trial, create_or_update_trials,
  deleted_data, delete_trial, delete_trials, stored, add_to, add_sample, add_each, emptied, evicted,
  samples_ended, evict_each,
}
use cogment.Datastore.Memory.Sizes.{
  total, sizes, sizes-append, total-insert-none, total-insert-some, u32-small, u32_add, u32_replace,
  u32-complement,
}

abbrev pub sizes_of : Option (ObservableList StoredTrialSample) → ℕ
sizes_of none = 0
sizes_of (some l) = sizes l.items

-- A trial's size is that of its stored samples.
abbrev pub Counts : TrialData → Type 0
Counts trial = trial.stored_samples_size ≡ u32 (sizes_of trial.stored_samples)

pub record IsCounted (m : Dict String TrialData) (samples_size : ℕ) : Type 0 where
  pub once : KeysOnce m
  pub each : (id : String) (trial : TrialData) → lookup id m ≡ some trial → Counts trial
  pub whole : samples_size ≡ u32 (total m)

abbrev pub Counted : MemoryBackend → Type 0
Counted b = IsCounted b.trials b.samples_size

insert-IsCounted :
    (m : Dict String TrialData) (n n' : ℕ) (id : String) (trial : TrialData)
    → IsCounted m n
    → Counts trial
    → n' ≡ u32 (total (insert id trial m))
    → IsCounted (insert id trial m) n'
insert-IsCounted m n n' id trial c k h = record {
  once = insert-KeysOnce id trial m c.once;
  each = λ j t e. elim (Bool-cases (str_eq id j)) [
    | inl q ↦ let p : trial ≡ t = ground (arith, lookup-insert id j trial m) in subst Counts p k
    | inr q ↦ c.each j t (ground (arith, lookup-insert id j trial m))
  ];
  whole = h;
}

replace-IsCounted :
    (m : Dict String TrialData) (n n' : ℕ) (id : String) (old trial : TrialData)
    → IsCounted m n
    → lookup id m ≡ some old
    → Counts trial
    → ((rest : ℕ)
        → n ≡ u32 (rest + old.stored_samples_size)
        → n' ≡ u32 (rest + trial.stored_samples_size))
    → IsCounted (insert id trial m) n'
replace-IsCounted m n n' id old trial c e k h =
    let (rest, p, q) = total-insert-some id trial old m e in
    insert-IsCounted m n n' id trial c k (h rest (c.whole ∙ ap u32 p) ∙ ap u32 (sym q))

small : (trial : TrialData) → Counts trial → trial.stored_samples_size < 2 ^ 32
small trial k = omega (arith, k, u32-small (sizes_of trial.stored_samples))

pub retrieve-Counted :
    (b : MemoryBackend) (ids : List String) → Counted b → Counted (retrieve_trial_datas b ids).0
unfolding retrieve_trial_datas
retrieve-Counted b [] c = c
retrieve-Counted b (id ∷ ids) c = elim (Option-cases (lookup id b.trials)) [
  | inl e ↦ rw (e, retrieve_trial_datas) c
  | inr (trial, e) ↦ rw (e, retrieve_trial_datas) (retrieve-Counted (touch b id trial) ids c)
]

new-Counts : Counts (record deleted_data { stored_samples = some new_observable_list })
unfolding new_observable_list sizes
new-Counts = refl

create-Counted :
    (b : MemoryBackend) (p : TrialParams) → Counted b → Counted (create_or_update_trial b p)
unfolding create_or_update_trial
create-Counted b p c = elim (Option-cases (lookup p.trial_id b.trials)) [
  | inl e ↦
      rw (e, create_or_update_trial)
        (insert-IsCounted b.trials b.samples_size b.samples_size p.trial_id (new_trial_data p) c
          new-Counts
          (c.whole
            ∙ ap u32 (omega (arith, total-insert-none p.trial_id (new_trial_data p) b.trials e))))
  | inr (trial, e) ↦
      let renamed : TrialData = record trial { params = p.params; user_id = p.user_id } in
      rw (e, create_or_update_trial)
        (replace-IsCounted b.trials b.samples_size b.samples_size p.trial_id trial renamed c e
          (c.each p.trial_id trial e) (λ rest h. h))
]

delete-Counted : (b : MemoryBackend) (id : String) → Counted b → Counted (delete_trial b id)
unfolding delete_trial
delete-Counted b id c = elim (Option-cases (lookup id b.trials)) [
  | inl e ↦ rw (e, delete_trial) c
  | inr (old, e) ↦
      rw (e, delete_trial)
        (replace-IsCounted b.trials b.samples_size
          (u32 (b.samples_size + complement old.stored_samples_size)) id old deleted_data c e refl
          (λ rest h.
            ap (λ n. u32 (n + complement old.stored_samples_size)) h
            ∙ u32-complement rest old.stored_samples_size (small old (c.each id old e))
            ∙ omega arith))
]

-- What an operation that does not stop the process leaves.
abbrev pub Leaves : (MemoryBackend → Type 0) → Outcome MemoryBackend → Type 0
Leaves P (gives b) = P b
Leaves P panics = Unit

stored-Counts :
    (trial : TrialData) (l : ObservableList StoredTrialSample) (s : StoredTrialSample)
    → trial.stored_samples ≡ some l
    → Counts trial
    → Counts (stored trial l s)
unfolding append
stored-Counts trial l s e k =
    ap (λ n. u32 (n + u32 s.size)) k
    ∙ ap (λ o. u32 (u32 (sizes_of o) + u32 s.size)) e
    ∙ u32_add (sizes l.items) s.size
    ∙ ap u32 (sym (sizes-append l.items s))

add-Counted :
    (b : MemoryBackend) (s : StoredTrialSample) → Counted b → Leaves Counted (add_sample b s)
unfolding add_sample
add-Counted b s c = elim (Option-cases (lookup s.trial_id b.trials)) [
  | inl e ↦ rw (e, add_to) tt
  | inr (trial, e) ↦ elim (Option-cases trial.stored_samples) [
    | inl n ↦ rw (e, add_to, n) tt
    | inr (l, n) ↦
        let added_up =
          replace-IsCounted b.trials b.samples_size (u32 (b.samples_size + u32 s.size)) s.trial_id
            trial (stored trial l s) c e (stored-Counts trial l s n (c.each s.trial_id trial e))
            (λ rest h.
              ap (λ k. u32 (k + u32 s.size)) h
              ∙ u32_replace rest trial.stored_samples_size s.size) in
        rw (e, add_to, n) added_up
  ]
]

pub Outcome-cases : {A : Type 0} (o : Outcome A) → (o ≡ panics) ⊎ ((a : A) × (o ≡ gives a))
Outcome-cases panics = inl refl
Outcome-cases (gives a) = inr (a, refl)

pub add_each-Counted :
    (b : MemoryBackend) (samples : List StoredTrialSample)
    → Counted b
    → Leaves Counted (add_each b samples)
unfolding add_each
add_each-Counted b [] c = c
add_each-Counted b (s ∷ samples) c =
    let a = add-Counted b s c in
    elim (Outcome-cases (add_sample b s)) [
      | inl e ↦ rw (e, add_each) tt
      | inr (b', e) ↦ rw (e, add_each) (add_each-Counted b' samples (rw e at a))
    ]

evicted-Counted :
    (b : MemoryBackend) (id : String) (rest : List String) (trial : TrialData)
    → Counted b
    → lookup id b.trials ≡ some trial
    → Counted (evicted b id rest trial)
evicted-Counted b id rest trial c e =
    replace-IsCounted b.trials b.samples_size
      (u32 (b.samples_size + complement trial.stored_samples_size)) id trial (emptied trial) c e
      new-Counts
      (λ others h.
        ap (λ n. u32 (n + complement trial.stored_samples_size)) h
        ∙ u32-complement others trial.stored_samples_size (small trial (c.each id trial e))
        ∙ omega arith)

pub evict_each-Counted :
    (b : MemoryBackend) (ids : List String) → Counted b → Leaves Counted (evict_each b ids)
unfolding evict_each
evict_each-Counted b [] c = c
evict_each-Counted b (id ∷ ids) c = elim (Bool-cases (leb b.samples_size b.max_samples_size)) [
  | inl k ↦ rw (k, evict_each) c
  | inr k ↦ elim (Option-cases (lookup id b.trials)) [
    | inl e ↦ rw (k, e, evict_each) tt
    | inr (trial, e) ↦ elim (Outcome-cases (samples_ended trial.stored_samples)) [
      | inl o ↦ rw (k, e, o, evict_each) tt
      | inr (ended, o) ↦ elim (Bool-cases ended) [
        | inl d ↦
            rw (k, e, o, d, evict_each)
              (evict_each-Counted (evicted b id ids trial) ids (evicted-Counted b id ids trial c e))
        | inr d ↦ rw (k, e, o, d, evict_each) c
      ]
    ]
  ]
]

pub create_each-Counted :
    (b : MemoryBackend) (ps : List TrialParams) → Counted b → Counted (create_or_update_trials b ps)
unfolding create_or_update_trials
create_each-Counted b [] c = c
create_each-Counted b (p ∷ ps) c =
    create_each-Counted (create_or_update_trial b p) ps (create-Counted b p c)

pub delete_each-Counted :
    (b : MemoryBackend) (ids : List String) → Counted b → Counted (delete_trials b ids)
unfolding delete_trials
delete_each-Counted b [] c = c
delete_each-Counted b (id ∷ ids) c =
    delete_each-Counted (delete_trial b id) ids (delete-Counted b id c)
