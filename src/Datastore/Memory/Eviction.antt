-- ===== src/Datastore/Memory/Eviction.antt =====
-- The eviction list of memory.go, and what `evictLruTrials` does.
use mathlib.Core.Path.{subst}
use cogment.Prelude.{
  ◌≤◌, ◌≡◌, ◌≢◌, refl, sym, ap, ◌∙◌, ◌↔◌, ◌⊎◌, inl, inr, String, true, false, Option, some, List,
  [], ◌∷◌, ◌++◌, arith, leb, string_key, Bool-cases, str_eq, eq_iff, In,
}
use cogment.Prelude.Dict.{Dict, lookup, insert, lookup-insert}
use cogment.Datastore.Observable.{ObservableList, new_observable_list}
use cogment.Datastore.Memory.{
  StoredTrialSample, TrialData, MemoryBackend, gives, remove, emptied, evicted, evict_each,
}

abbrev pub Distinct : List String → Type 0
Distinct [] = Unit
Distinct (id ∷ ids) = (¬ In id ids) × Distinct ids

pub In-remove : (id j : String) (ids : List String) → In j (remove id ids) ↔ (In j ids × (j ≢ id))
unfolding remove
In-remove id j [] = (λ i. absurd i, λ i. i.0)
In-remove id j (k ∷ ids) = elim (Bool-cases (str_eq k id)) [
  | inl e ↦ let p : k ≡ id = (eq_iff k id).0 e in rw e (ground (arith, In-remove id j ids, p))
  | inr e ↦
      let n : k ≢ id = λ p. ground (arith, (eq_iff k id).1 p) in
      rw e (
        λ i. elim i [
          | inl p ↦ (inl p, λ q. n (p ∙ q))
          | inr i' ↦ let (a, b) = (In-remove id j ids).0 i' in (inr a, b)
        ],
        λ (i, q). elim i [ inl p ↦ inl p | inr i' ↦ inr ((In-remove id j ids).1 (i', q)) ],
      )
]

pub remove-Distinct : (id : String) (ids : List String) → Distinct ids → Distinct (remove id ids)
unfolding remove
remove-Distinct id [] d = tt
remove-Distinct id (k ∷ ids) d = elim (Bool-cases (str_eq k id)) [
  | inl e ↦ rw e (remove-Distinct id ids d.1)
  | inr e ↦ rw e (λ i. d.0 ((In-remove id k ids).0 i).0, remove-Distinct id ids d.1)
]

pub In-append :
    (j id : String) (ids : List String) → In j (ids ++ (id ∷ [])) ↔ (In j ids ⊎ (id ≡ j))
In-append j id [] = (
  λ i. elim i [ inl p ↦ inr p | inr b ↦ absurd b ],
  λ i. elim i [ inl b ↦ absurd b | inr p ↦ inl p ],
)
In-append j id (k ∷ ids) = ground (arith, In-append j id ids)

pub append-Distinct :
    (id : String) (ids : List String) → Distinct ids → ¬ In id ids → Distinct (ids ++ (id ∷ []))
append-Distinct id [] d n = (λ i. i, tt)
append-Distinct id (k ∷ ids) d n = (
  λ i. elim ((In-append k id ids).0 i) [ inl j ↦ d.0 j | inr p ↦ n (inl (sym p)) ],
  append-Distinct id ids d.1 (λ i. n (inr i)),
)

-- The trials in the eviction list are, each once, in the map with an element; a trial with an element
-- has its samples.
pub record IsListed (m : Dict String TrialData) (ids : List String) : Type 0 where
  pub once : Distinct ids
  pub listed :
      (id : String)
      → In id ids
      → (trial : TrialData) × (lookup id m ≡ some trial) × (trial.has_ev_list_element ≡ true)
  pub backed :
      (id : String) (trial : TrialData)
      → lookup id m ≡ some trial
      → trial.has_ev_list_element ≡ true
      → (l : ObservableList StoredTrialSample) × (trial.stored_samples ≡ some l)

abbrev pub Listed : MemoryBackend → Type 0
Listed b = IsListed b.trials b.trials_ev_list

-- What the eviction of `b` may do to a trial: nothing, or drop the samples of one that has ended.
abbrev pub MayEvict : Option TrialData → Option TrialData → Type 0
MayEvict before after =
    (before ≡ after)
    ⊎ ((trial : TrialData) × (l : ObservableList StoredTrialSample) × (before ≡ some trial)
        × (trial.stored_samples ≡ some l)
        × (l.ended ≡ true)
        × (after ≡ some (emptied trial)))

-- The eviction ends for one of three reasons.
abbrev pub Settled : MemoryBackend → Type 0
Settled b =
    (b.samples_size ≤ b.max_samples_size)
    ⊎ (b.trials_ev_list ≡ [])
    ⊎ ((id : String) × (rest : List String) × (trial : TrialData) × (l : ObservableList
          StoredTrialSample)
        × (b.trials_ev_list ≡ id ∷ rest)
        × (lookup id b.trials ≡ some trial)
        × (trial.stored_samples ≡ some l)
        × (l.ended ≡ false))

pub str_ne : (id j : String) → id ≢ j → str_eq id j ≡ false
str_ne id j n = elim (Bool-cases (str_eq id j)) [
  | inl e ↦ absurd (n ((eq_iff id j).0 e))
  | inr e ↦ e
]

IsListed-rest :
    (m : Dict String TrialData) (id : String) (rest : List String) (trial : TrialData)
    → trial.has_ev_list_element ≡ false
    → IsListed m (id ∷ rest)
    → IsListed (insert id trial m) rest
IsListed-rest m id rest trial h v = record {
  once = v.once.1;
  listed = λ j i.
      let (t, e, k) = v.listed j (inr i) in
      let n = str_ne id j (λ p. v.once.0 (subst (λ x. In x rest) (sym p) i)) in
      (t, lookup-insert id j trial m ∙ ground arith, k);
  backed = λ j t e k. elim (Bool-cases (str_eq id j)) [
    | inl q ↦
        let p : trial ≡ t = ground (arith, lookup-insert id j trial m) in
        absurd (ground (arith, ap (λ x. x.has_ev_list_element) p))
    | inr q ↦ v.backed j t (ground (arith, lookup-insert id j trial m)) k
  ];
}

-- What was just evicted is not evicted again.
MayEvict-emptied :
    (trial : TrialData) (l : ObservableList StoredTrialSample) (after : Option TrialData)
    → trial.stored_samples ≡ some l
    → l.ended ≡ true
    → MayEvict (some (emptied trial)) after
    → MayEvict (some trial) after
unfolding new_observable_list
MayEvict-emptied trial l after s e (inl p) = inr (trial, l, refl, s, e, sym p)
MayEvict-emptied trial l after s e (inr (t, l', p, q, f, a)) = absurd (ground arith)

pub evict_each_lem :
    (b : MemoryBackend) (ids : List String)
    → b.trials_ev_list ≡ ids
    → IsListed b.trials ids
    → (b' : MemoryBackend) × (evict_each b ids ≡ gives b')
      × Settled b'
      × Listed b'
      × ((j : String) → MayEvict (lookup j b.trials) (lookup j b'.trials))
unfolding evict_each
evict_each_lem b [] s v = (b, refl, inr (inl s), rw s v, λ j. inl refl)
evict_each_lem b (id ∷ rest) s v = elim (Bool-cases (leb b.samples_size b.max_samples_size)) [
  | inl k ↦ (b, rw (k, evict_each) refl, inl (ground arith), rw s v, λ j. inl refl)
  | inr k ↦
      let (trial, e, h) = v.listed id (inl refl) in
      let (l, o) = v.backed id trial e h in
      elim (Bool-cases l.ended) [
        | inr f ↦ (
          b,
          rw (k, e, o, f, evict_each) refl,
          inr (inr (id, rest, trial, l, s, e, o, f)),
          rw s v,
          λ j. inl refl,
        )
        | inl f ↦
            let b1 = evicted b id rest trial in
            let (b', r, st, li, may) =
              evict_each_lem b1 rest refl (IsListed-rest b.trials id rest (emptied trial) refl v) in
            (
              b',
              rw (k, e, o, f, evict_each) r,
              st,
              li,
              λ j. elim (Bool-cases (str_eq id j)) [
                | inl q ↦
                    let p : id ≡ j = (eq_iff id j).0 q in
                    let m : MayEvict (some (emptied trial)) (lookup j b'.trials) =
                      subst (λ x. MayEvict x (lookup j b'.trials))
                        (lookup-insert id j (emptied trial) b.trials ∙ ground arith) (may j) in
                    subst (λ x. MayEvict x (lookup j b'.trials))
                      (sym (subst (λ x. lookup x b.trials ≡ some trial) p e))
                      (MayEvict-emptied trial l (lookup j b'.trials) o f m)
                | inr q ↦
                    subst (λ x. MayEvict x (lookup j b'.trials))
                      (lookup-insert id j (emptied trial) b.trials ∙ ground arith) (may j)
              ],
            )
      ]
]
