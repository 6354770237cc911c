-- ===== src/Datastore/Memory/Retrieval/Pages.antt =====
-- What a page of `RetrieveTrials` (memory.go) holds.
use cogment.Prelude.{
  ℕ, zero, suc, ◌+◌, ◌-◌, ◌<◌, ◌≡◌, refl, sym, ap, ◌∙◌, ◌⊎◌, inl, inr, String, Bool, true, false,
  Option, none, some, List, [], ◌∷◌, ◌++◌, leb, not, ◌&&◌, if◌then◌else◌, arith, length, drop, All,
  string_key, length-append, Bool-cases, Option-cases, leb→le,
}
use cogment.Prelude.Dict.{Dict, lookup}
use cogment.Utils.Filters.{selects, selects_properties}
use cogment.Datastore.Observable.{ObservableList}
use cogment.Datastore.Memory.{StoredTrialSample, TrialData, MemoryBackend, Outcome, gives, touch}
use cogment.Datastore.Memory.Retrieval.{
  TrialFilter, TrialInfo, Page, create_trial_info, selects_trial, with_info, turn_page, count_of,
  retrieve_each, retrieve_trials,
}

abbrev pub chosen : Option Bool → Bool
chosen none = false
chosen (some b) = b

-- The info of a trial that the filter selects and that was not deleted, if it is one.
abbrev pub info_of : TrialFilter → String → Option TrialData → List TrialInfo
info_of filter id none = []
info_of filter id (some trial) = elim trial.stored_samples [
  | none ↦ []
  | some l ↦
      if not trial.deleted && chosen (selects_trial filter id trial)
      then create_trial_info id trial l ∷ []
      else []
]

unfoldable pub matching : TrialFilter → Dict String TrialData → List String → List TrialInfo
matching filter m [] = []
matching filter m (id ∷ ids) = info_of filter id (lookup id m) ++ matching filter m ids

abbrev pub first_infos : ℕ → List TrialInfo → List TrialInfo
first_infos zero infos = []
first_infos (suc n) [] = []
first_infos (suc n) (t ∷ infos) = t ∷ first_infos n infos

-- Each listed trial is in the map, and has its samples and its parameters unless it was deleted.
abbrev pub IsKnown : Dict String TrialData → String → Type 0
IsKnown m id =
    (trial : TrialData) × (lookup id m ≡ some trial)
    × ((trial.deleted ≡ true)
        ⊎ ((l : ObservableList StoredTrialSample) × (properties : Dict String String)
            × (trial.stored_samples ≡ some l)
            × (trial.params ≡ some properties)))

append_nil : (xs : List TrialInfo) → xs ++ [] ≡ xs
append_nil [] = refl
append_nil (x ∷ xs) = ap (λ ys. x ∷ ys) (append_nil xs)

append_one :
    (xs : List TrialInfo) (x : TrialInfo) (ys : List TrialInfo)
    → (xs ++ (x ∷ [])) ++ ys ≡ xs ++ (x ∷ ys)
append_one [] x ys = refl
append_one (z ∷ xs) x ys = ap (λ r. z ∷ r) (append_one xs x ys)

first_none : (infos : List TrialInfo) → first_infos 0 infos ≡ []
first_none infos = refl

first_empty : (n : ℕ) → first_infos n [] ≡ []
first_empty zero = refl
first_empty (suc n) = refl

first_more :
    (n : ℕ) (t : TrialInfo) (infos : List TrialInfo)
    → 0 < n
    → first_infos n (t ∷ infos) ≡ t ∷ first_infos (n - 1) infos
first_more zero t infos h = absurd (omega arith)
first_more (suc n) t infos h = ap (λ k. t ∷ first_infos k infos) (omega arith)

module _ (filter : TrialFilter) (count : ℕ) where
  abbrev Holds : MemoryBackend → List String → Page → Outcome (MemoryBackend × Page) → Type 0
  Holds b ids page o =
      (b' : MemoryBackend) × (page' : Page) × (o ≡ gives (b', page'))
      × (b'.trials ≡ b.trials)
      × (page'.trial_infos
          ≡ page.trial_infos
            ++ first_infos (count - length page.trial_infos) (matching filter b.trials ids))

  info_of-cases :
      (id : String) (trial : TrialData)
      → (info_of filter id (some trial) ≡ [])
        ⊎ ((t : TrialInfo) × (info_of filter id (some trial) ≡ t ∷ []))
  info_of-cases id trial = elim (Option-cases trial.stored_samples) [
    | inl s ↦ inl (rw s refl)
    | inr (l, s) ↦ elim (Bool-cases (not trial.deleted && chosen (selects_trial filter id trial))) [
      | inl e ↦ inr (create_trial_info id trial l, rw (s, e) refl)
      | inr e ↦ inl (rw (s, e) refl)
    ]
  ]

  turn_page_lem :
      (id : String) (idx : ℕ) (trial : TrialData) (page : Page)
      → (trial.deleted ≡ true)
        ⊎ ((l : ObservableList StoredTrialSample) × (properties : Dict String String)
            × (trial.stored_samples ≡ some l)
            × (trial.params ≡ some properties))
      → (page' : Page) × (turn_page filter id idx trial trial.stored_samples page ≡ some page')
        × (page'.trial_infos ≡ page.trial_infos ++ info_of filter id (some trial))
  turn_page_lem id idx trial page (inl d) = (
    page,
    rw d refl,
    sym (ap (λ xs. page.trial_infos ++ xs) nothing ∙ append_nil page.trial_infos),
  )
    where
      nothing : info_of filter id (some trial) ≡ []
      nothing = elim (Option-cases trial.stored_samples) [
        | inl s ↦ rw s refl
        | inr (l, s) ↦ rw (s, d) refl
      ]
  turn_page_lem id idx trial page (inr (l, properties, s, p)) = elim (Bool-cases trial.deleted) [
    | inl d ↦ (page, rw d refl, sym (rw (s, d) (append_nil page.trial_infos)))
    | inr d ↦ elim (Bool-cases (selects filter.id_filter id)) [
      | inr i ↦ (page, rw (d, i) refl, sym (rw (s, d, i) (append_nil page.trial_infos)))
      | inl i ↦ elim (Bool-cases (selects_properties filter.properties_filter properties)) [
        | inl e ↦ (
          with_info page (create_trial_info id trial l) idx,
          rw (d, i, p, e, s) refl,
          rw (s, d, i, p, e) refl,
        )
        | inr e ↦
            (page, rw (d, i, p, e) refl, sym (rw (s, d, i, p, e) (append_nil page.trial_infos)))
      ]
    ]
  ]

  first_split :
      (page page' : Page) (info m : List TrialInfo)
      → length page.trial_infos < count
      → (info ≡ []) ⊎ ((t : TrialInfo) × (info ≡ t ∷ []))
      → page'.trial_infos ≡ page.trial_infos ++ info
      → page'.trial_infos ++ first_infos (count - length page'.trial_infos) m
        ≡ page.trial_infos ++ first_infos (count - length page.trial_infos) (info ++ m)
  first_split page page' info m h (inl z) e =
      let same : page'.trial_infos ≡ page.trial_infos = e ∙ rw z (append_nil page.trial_infos) in
      rw (same, z) refl
  first_split page page' info m h (inr (t, z)) e =
      let xs = page.trial_infos in
      let same : page'.trial_infos ≡ xs ++ (t ∷ []) = e ∙ ap (λ ys. xs ++ ys) z in
      let n = count - length xs in
      let more : first_infos n (t ∷ m) ≡ t ∷ first_infos (n - 1) m =
        first_more n t m (omega (arith, h)) in
      let one_less : count - length (xs ++ (t ∷ [])) ≡ n - 1 =
        omega (arith, h, length-append xs (t ∷ [])) in
      rw (same, z, more, one_less) (append_one xs t (first_infos (n - 1) m))

  retrieve_each_lem :
      (b : MemoryBackend) (ids : List String) (idx : ℕ) (page : Page)
      → All (IsKnown b.trials) ids
      → Holds b ids page (retrieve_each filter count b ids idx page)
  unfolding retrieve_each matching
  retrieve_each_lem b [] idx page k = (
    b,
    page,
    refl,
    refl,
    sym (
        ap (λ xs. page.trial_infos ++ xs) (first_empty (count - length page.trial_infos))
        ∙ append_nil page.trial_infos),
  )
  retrieve_each_lem b (id ∷ ids) idx page (here, k) =
      elim (Bool-cases (leb count (length page.trial_infos))) [
        | inl full ↦
            let z : count - length page.trial_infos ≡ 0 =
              omega (arith, leb→le count (length page.trial_infos) full) in
            (b, page, rw full refl, refl, sym (rw z (append_nil page.trial_infos)))
        | inr room ↦
            let (trial, e, d) = here in
            let (page1, r, grown) = turn_page_lem id idx trial page d in
            let (b', page', q, same, infos) =
              retrieve_each_lem (touch b id trial) ids (idx + 1) page1 k in
            (
              b',
              page',
              rw (room, e, r) q,
              same,
              infos
                  ∙ first_split page page1 (info_of filter id (some trial))
                      (matching filter b.trials ids) (ground arith) (info_of-cases id trial) grown
                  ∙ rw e refl,
            )
      ]

minus_zero : (n : ℕ) → n - 0 ≡ n
minus_zero n = omega arith

-- `RetrieveTrials` gives the infos of the first trials, as many as the count at most, from the start on in
-- the order of creation, that were not deleted and that the filter selects, if every listed trial is known
-- and has its samples and parameters unless it was deleted; it changes no trial.
pub retrieve_trials_lem :
    (b : MemoryBackend) (filter : TrialFilter) (from_trial_idx count : ℕ)
    → All (IsKnown b.trials) (drop from_trial_idx b.trial_ids.items)
    → (b' : MemoryBackend) × (page : Page) × (retrieve_trials b filter from_trial_idx count
        ≡ gives (b', page))
      × (b'.trials ≡ b.trials)
      × (page.trial_infos
          ≡ first_infos
              (count_of b filter count)
              (matching filter b.trials (drop from_trial_idx b.trial_ids.items)))
unfolding retrieve_trials
retrieve_trials_lem b filter from_trial_idx count k =
    let n = count_of b filter count in
    let ids = drop from_trial_idx b.trial_ids.items in
    let (b', page, e, same, infos) =
      retrieve_each_lem filter n b ids from_trial_idx
        (record { trial_infos = []; next_trial_idx = 0 }) k in
    (
      b',
      page,
      e,
      same,
      infos ∙ ap (λ c. first_infos c (matching filter b.trials ids)) (minus_zero n),
    )
