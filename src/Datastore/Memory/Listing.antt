-- ===== src/Datastore/Memory/Listing.antt =====
-- Every operation of memory.go keeps the eviction list in step with the map of the trials.
use mathlib.Core.Path.{subst}
use cogment.Prelude.{
  ◌≡◌, ◌≢◌, refl, sym, ap, ◌∙◌, inl, inr, String, true, false, none, some, List, [], ◌∷◌, arith,
  string_key, Bool-cases, Option-cases, str_eq, eq_iff, In, ◌==◌,
}
use cogment.Prelude.Dict.{Dict, lookup, insert, lookup-insert}
use cogment.Datastore.Observable.{ObservableList, append, new_observable_list}
use cogment.Datastore.Memory.{
  StoredTrialSample, TrialParams, TrialData, MemoryBackend, remove, touch, retrieve_trial_datas,
  new_trial_data, create_or_update_trial, create_or_update_trials, deleted_data, delete_trial,
  delete_trials, stored, add_to, add_sample, add_each,
}
use cogment.Datastore.Memory.Accounting.{Leaves, Outcome-cases}
use cogment.Datastore.Memory.Eviction.{
  Distinct, In-remove, In-append, remove-Distinct, append-Distinct, str_ne, IsListed, Listed,
}

-- The trial may be stored under its id, if it has an element only where the earlier one had.
replace-IsListed :
    (m : Dict String TrialData) (ids : List String) (id : String) (old trial : TrialData)
    → IsListed m ids
    → lookup id m ≡ some old
    → trial.has_ev_list_element ≡ old.has_ev_list_element
    → (trial.has_ev_list_element ≡ true
        → (l : ObservableList StoredTrialSample) × (trial.stored_samples ≡ some l))
    → IsListed (insert id trial m) ids
replace-IsListed m ids id old trial v e h k = record {
  once = v.once;
  listed = λ j i. elim (Bool-cases (str_eq id j)) [
    | inl q ↦
        let (t, f, g) = v.listed j i in
        let p : id ≡ j = (eq_iff id j).0 q in
        let s : old ≡ t = ground (arith, ap (λ x. lookup x m) p) in
        (
          trial,
          lookup-insert id j trial m ∙ ground arith,
          h ∙ ap (λ x. x.has_ev_list_element) s ∙ g,
        )
    | inr q ↦ let (t, f, g) = v.listed j i in (t, lookup-insert id j trial m ∙ ground arith, g)
  ];
  backed = λ j t f g. elim (Bool-cases (str_eq id j)) [
    | inl q ↦
        let p : trial ≡ t = ground (arith, lookup-insert id j trial m) in
        subst
          (λ x.
            x.has_ev_list_element ≡ true
            → (l : ObservableList StoredTrialSample) × (x.stored_samples ≡ some l))
          p k g
    | inr q ↦ v.backed j t (ground (arith, lookup-insert id j trial m)) g
  ];
}

touch-Listed :
    (b : MemoryBackend) (id : String) (trial : TrialData)
    → Listed b
    → lookup id b.trials ≡ some trial
    → Listed (touch b id trial)
touch-Listed b id trial v e = elim (Bool-cases trial.has_ev_list_element) [
  | inr h ↦ rw h v
  | inl h ↦
      let ids = remove id b.trials_ev_list in
      rw h (record {
        once =
            append-Distinct id ids (remove-Distinct id b.trials_ev_list v.once)
              (λ i. ((In-remove id id b.trials_ev_list).0 i).1 refl);
        listed = λ j i. elim ((In-append j id ids).0 i) [
          | inl k ↦ v.listed j ((In-remove id j b.trials_ev_list).0 k).0
          | inr p ↦ (trial, subst (λ x. lookup x b.trials ≡ some trial) p e, h)
        ];
        backed = v.backed;
      })
]

pub retrieve-Listed :
    (b : MemoryBackend) (ids : List String) → Listed b → Listed (retrieve_trial_datas b ids).0
unfolding retrieve_trial_datas
retrieve-Listed b [] v = v
retrieve-Listed b (id ∷ ids) v = elim (Option-cases (lookup id b.trials)) [
  | inl e ↦ rw (e, retrieve_trial_datas) v
  | inr (trial, e) ↦
      rw (e, retrieve_trial_datas)
        (retrieve-Listed (touch b id trial) ids (touch-Listed b id trial v e))
]

new-Listed :
    (b : MemoryBackend) (id : String) (trial : TrialData)
    → Listed b
    → lookup id b.trials ≡ none
    → trial.has_ev_list_element ≡ true
    → (l : ObservableList StoredTrialSample) → trial.stored_samples ≡ some l
    → IsListed (insert id trial b.trials) (id ∷ b.trials_ev_list)
new-Listed b id trial v e h l s =
    let apart : (j : String) → In j b.trials_ev_list → str_eq id j ≡ false = λ j i.
      let (t, f, g) = v.listed j i in
      str_ne id j (λ p. ground (arith, ap (λ x. lookup x b.trials) p)) in
    record {
      once = (λ i. let (t, f, g) = v.listed id i in ground arith, v.once);
      listed = λ j i. elim i [
        | inl p ↦ (trial, lookup-insert id j trial b.trials ∙ ground (arith, eq_iff id j, p), h)
        | inr k ↦
            let (t, f, g) = v.listed j k in
            (t, lookup-insert id j trial b.trials ∙ ground (arith, apart j k), g)
      ];
      backed = λ j t f g. elim (Bool-cases (str_eq id j)) [
        | inl q ↦
            let p : trial ≡ t = ground (arith, lookup-insert id j trial b.trials) in
            (l, ap (λ x. x.stored_samples) (sym p) ∙ s)
        | inr q ↦ v.backed j t (ground (arith, lookup-insert id j trial b.trials)) g
      ];
    }

create-Listed :
    (b : MemoryBackend) (p : TrialParams) → Listed b → Listed (create_or_update_trial b p)
unfolding create_or_update_trial
create-Listed b p v = elim (Option-cases (lookup p.trial_id b.trials)) [
  | inl e ↦
      rw (e, create_or_update_trial)
        (new-Listed b p.trial_id (new_trial_data p) v e refl new_observable_list refl)
  | inr (trial, e) ↦
      let renamed : TrialData = record trial { params = p.params; user_id = p.user_id } in
      rw (e, create_or_update_trial)
        (replace-IsListed b.trials (touch b p.trial_id trial).trials_ev_list p.trial_id trial
          renamed (touch-Listed b p.trial_id trial v e) e refl (v.backed p.trial_id trial e))
]

pub create_each-Listed :
    (b : MemoryBackend) (ps : List TrialParams) → Listed b → Listed (create_or_update_trials b ps)
unfolding create_or_update_trials
create_each-Listed b [] v = v
create_each-Listed b (p ∷ ps) v =
    create_each-Listed (create_or_update_trial b p) ps (create-Listed b p v)

dropped :
    (b : MemoryBackend) (id : String) (ids : List String)
    → Listed b
    → Distinct ids
    → ((j : String) → In j ids → In j b.trials_ev_list × (j ≢ id))
    → IsListed (insert id deleted_data b.trials) ids
dropped b id ids v d k = record {
  once = d;
  listed = λ j i.
      let (i', n) = k j i in
      let (t, f, g) = v.listed j i' in
      let a = str_ne id j (λ p. n (sym p)) in
      (t, lookup-insert id j deleted_data b.trials ∙ ground arith, g);
  backed = λ j t f g. elim (Bool-cases (str_eq id j)) [
    | inl q ↦
        let p : deleted_data ≡ t = ground (arith, lookup-insert id j deleted_data b.trials) in
        absurd (ground (arith, ap (λ x. x.has_ev_list_element) p))
    | inr q ↦ v.backed j t (ground (arith, lookup-insert id j deleted_data b.trials)) g
  ];
}

delete-Listed : (b : MemoryBackend) (id : String) → Listed b → Listed (delete_trial b id)
unfolding delete_trial
delete-Listed b id v = elim (Option-cases (lookup id b.trials)) [
  | inl e ↦ rw (e, delete_trial) v
  | inr (trial, e) ↦ elim (Bool-cases trial.has_ev_list_element) [
    | inl h ↦
        rw (e, h, delete_trial)
          (dropped b id (remove id b.trials_ev_list) v (remove-Distinct id b.trials_ev_list v.once)
            (λ j i. (In-remove id j b.trials_ev_list).0 i))
    | inr h ↦
        rw (e, h, delete_trial)
          (dropped b id b.trials_ev_list v v.once (λ j i. (
            i,
            λ p.
                let (t, f, g) = v.listed j i in
                let s : trial ≡ t = ground (arith, ap (λ x. lookup x b.trials) p) in
                absurd (ground (arith, ap (λ x. x.has_ev_list_element) s)),
          )))
  ]
]

pub delete_each-Listed :
    (b : MemoryBackend) (ids : List String) → Listed b → Listed (delete_trials b ids)
unfolding delete_trials
delete_each-Listed b [] v = v
delete_each-Listed b (id ∷ ids) v =
    delete_each-Listed (delete_trial b id) ids (delete-Listed b id v)

add-Listed : (b : MemoryBackend) (s : StoredTrialSample) → Listed b → Leaves Listed (add_sample b s)
unfolding add_sample
add-Listed b s v = elim (Option-cases (lookup s.trial_id b.trials)) [
  | inl e ↦ rw (e, add_to) tt
  | inr (trial, e) ↦ elim (Option-cases trial.stored_samples) [
    | inl n ↦ rw (e, add_to, n) tt
    | inr (l, n) ↦
        let kept =
          replace-IsListed b.trials b.trials_ev_list s.trial_id trial (stored trial l s) v e refl
            (λ h. (append l s (s.state == 5), refl)) in
        rw (e, add_to, n) kept
  ]
]

pub add_each-Listed :
    (b : MemoryBackend) (samples : List StoredTrialSample)
    → Listed b
    → Leaves Listed (add_each b samples)
unfolding add_each
add_each-Listed b [] v = v
add_each-Listed b (s ∷ samples) v =
    let a = add-Listed b s v in
    elim (Outcome-cases (add_sample b s)) [
      | inl e ↦ rw (e, add_each) tt
      | inr (b', e) ↦ rw (e, add_each) (add_each-Listed b' samples (rw e at a))
    ]
