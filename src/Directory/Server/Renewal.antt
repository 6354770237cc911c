-- ===== src/Directory/Server/Renewal.antt =====
-- `dbUpdate` of directoryServer.go: a permanent service that registers again takes over the first of
-- the services that meet its details under its token, and the others of these are removed.
use mathlib.Core.Path.{subst}
use cogment.Prelude.{
  ℕ, ◌≡◌, ◌≢◌, refl, sym, ap, ◌∙◌, inl, inr, String, Bool, true, false, Option, none, some, List,
  [], ◌∷◌, ◌==◌, ◌&&◌, ◌||◌, if◌then◌else◌, arith, Bool-cases, Option-cases, id_key, ==_iff, str_eq,
}
use cogment.Directory.Db.{
  ServiceEndpoint, ServiceDetails, DbRecord, MemoryDb, select_by_id, delete_record,
}
use cogment.Directory.Db.Laws.{select-delete_record, update_record_lem, stamped}
use cogment.Directory.Server.{
  Result, ok, Renewing, goes, renewed, renew_step, renew_each, renew_found,
}

-- The record that was found is registered under the token.
abbrev pub owned : String → Option DbRecord → Bool
owned token none = false
owned token (some r) = str_eq r.authentication_token token

abbrev pub mem : ℕ → List ℕ → Bool
mem j [] = false
mem j (id ∷ ids) = id == j || mem j ids

unfoldable pub first_owned : String → MemoryDb → List ℕ → Option ℕ
first_owned token md [] = none
first_owned token md (id ∷ ids) =
    if owned token (select_by_id md id) then some id else first_owned token md ids

abbrev pub Distinct : List ℕ → Type 0
Distinct [] = Unit
Distinct (id ∷ ids) = (mem id ids ≡ false) × Distinct ids

-- An id that is not owned may be left out of what is removed.
kept :
    (token : String) (md : MemoryDb) (id : ℕ) (ids : List ℕ) (j : ℕ)
    → owned token (select_by_id md id) ≡ false
    → (if mem j ids && owned token (select_by_id md j) then none else select_by_id md j)
      ≡ (if mem j (id ∷ ids) && owned token (select_by_id md j) then none else select_by_id md j)
kept token md id ids j h = elim (Bool-cases (id == j)) [
  | inl e ↦
      let p : id ≡ j = (==_iff id j).0 e in
      let k : owned token (select_by_id md j) ≡ false =
        subst (λ i. owned token (select_by_id md i) ≡ false) p h in
      rw k (ground arith)
  | inr e ↦ rw e refl
]

gone :
    (token : String) (md : MemoryDb) (id j : ℕ)
    → owned token (select_by_id md id) ≡ true
    → (id == j) ≡ true
    → owned token (select_by_id md j) ≡ true
gone token md id j h e = subst (λ i. owned token (select_by_id md i) ≡ true) ((==_iff id j).0 e) h

module _ (endpoint : ServiceEndpoint) (details : ServiceDetails) (token : String) (now : ℕ) where
  abbrev step : MemoryDb → ℕ → String → ℕ → Renewing
  step = renew_step endpoint details true token now

  abbrev each : List ℕ → MemoryDb → ℕ → String → MemoryDb × Result (ℕ × String)
  each = renew_each endpoint details true token now

  step_not_owned :
      (md : MemoryDb) (u : ℕ) (s : String) (id : ℕ)
      → owned token (select_by_id md id) ≡ false
      → step md u s id ≡ goes md u s
  unfolding renew_step
  step_not_owned md u s id h = elim (Option-cases (select_by_id md id)) [
    | inl e ↦ rw (e, renew_found) refl
    | inr (r, e) ↦
        let k : str_eq r.authentication_token token ≡ false = rw e at h in
        rw (e, renew_found, k) refl
  ]

  step_removes :
      (md : MemoryDb) (u : ℕ) (s : String) (id : ℕ)
      → owned token (select_by_id md id) ≡ true
      → (u == 0) ≡ false
      → step md u s id ≡ goes (delete_record md id) u s
  unfolding renew_step
  step_removes md u s id h z = elim (Option-cases (select_by_id md id)) [
    | inl e ↦ absurd (ground arith)
    | inr (r, e) ↦
        let k : str_eq r.authentication_token token ≡ true = rw e at h in
        rw (e, renew_found, k, z) refl
  ]

  -- The first service that is found to be owned is updated in place.
  step_updates :
      (md : MemoryDb) (id : ℕ) (r : DbRecord)
      → select_by_id md id ≡ some r
      → str_eq r.authentication_token token ≡ true
      → (md' : MemoryDb) × (step md 0 "" id ≡ goes md' id r.secret)
        × ((j : ℕ)
            → select_by_id md' j ≡ (
                if id == j
                then some (stamped (renewed endpoint details r now) id r.register_timestamp)
                else select_by_id md j))
  unfolding renew_step
  step_updates md id r e k =
      let (md', u, at) = update_record_lem md id (renewed endpoint details r now) r e in
      (md', rw (e, renew_found, k, u) refl, at)

  each-step :
      (md md' : MemoryDb) (u u' : ℕ) (s s' : String) (id : ℕ) (ids : List ℕ)
      → step md u s id ≡ goes md' u' s'
      → each (id ∷ ids) md u s ≡ each ids md' u' s'
  unfolding renew_each
  each-step md md' u u' s s' id ids e = rw (e, renew_each) refl

  -- Once a service was updated, the loop removes the owned ones that are left, and no other.
  each_removes :
      (ids : List ℕ) (md : MemoryDb) (u : ℕ) (s : String)
      → (u == 0) ≡ false
      → (md' : MemoryDb) × (each ids md u s ≡ (md', ok (u, s)))
        × ((j : ℕ)
            → select_by_id md' j
              ≡ (if mem j ids && owned token (select_by_id md j) then none else select_by_id md j))
  each_removes [] md u s z = (md, unfold renew_each in refl, λ j. refl)
  each_removes (id ∷ ids) md u s z = elim (Bool-cases (owned token (select_by_id md id))) [
    | inr h ↦
        let (md', e, at) = each_removes ids md u s z in
        (
          md',
          each-step md md u u s s id ids (step_not_owned md u s id h) ∙ e,
          λ j. at j ∙ kept token md id ids j h,
        )
    | inl h ↦
        let md1 = delete_record md id in
        let (md', e, at) = each_removes ids md1 u s z in
        (
          md',
          each-step md md1 u u s s id ids (step_removes md u s id h z) ∙ e,
          λ j. at j ∙ ground (arith, select-delete_record md id j, gone token md id j h),
        )
  ]

  pub each-none :
      (ids : List ℕ) (md : MemoryDb)
      → first_owned token md ids ≡ none
      → each ids md 0 "" ≡ (md, ok (0, ""))
  unfolding first_owned
  each-none [] md h = unfold renew_each in refl
  each-none (id ∷ ids) md h =
      let k : owned token (select_by_id md id) ≡ false = ground arith in
      each-step md md 0 0 "" "" id ids (step_not_owned md 0 "" id k)
      ∙ each-none ids md (ground arith)

  -- The outcome of a renewal: `id` keeps its secret and the time of its first registration, and the
  -- other owned services among `ids` are gone.
  abbrev pub Renewal : List ℕ → MemoryDb → ℕ → DbRecord → MemoryDb × Result (ℕ × String) → Type 0
  Renewal ids md id r (md', reply) =
      (reply ≡ ok (id, r.secret))
      × ((j : ℕ)
          → select_by_id md' j ≡ (
              if id == j
              then some (stamped (renewed endpoint details r now) id r.register_timestamp)
              else if mem j ids && owned token (select_by_id md j)
              then none
              else select_by_id md j))

  each_here :
      (ids : List ℕ) (md : MemoryDb) (id : ℕ) (r : DbRecord)
      → mem id ids ≡ false
      → id ≢ 0
      → select_by_id md id ≡ some r
      → str_eq r.authentication_token token ≡ true
      → Renewal (id ∷ ids) md id r (each (id ∷ ids) md 0 "")
  each_here ids md id r d z e k =
      let (md1, st, at1) = step_updates md id r e k in
      let (md2, en, at2) = each_removes ids md1 id r.secret (ground arith) in
      rw (each-step md md1 0 id "" r.secret id ids st ∙ en) (
        refl,
        λ j. at2 j ∙ elim (Bool-cases (id == j)) [
          | inl q ↦
              let p : id ≡ j = (==_iff id j).0 q in
              let dj : mem j ids ≡ false = subst (λ i. mem i ids ≡ false) p d in
              rw (at1 j, q, dj) refl
          | inr q ↦ rw (at1 j, q) refl
        ],
      )

  pub each_first :
      (ids : List ℕ) (md : MemoryDb) (id : ℕ) (r : DbRecord)
      → Distinct ids
      → id ≢ 0
      → first_owned token md ids ≡ some id
      → select_by_id md id ≡ some r
      → Renewal ids md id r (each ids md 0 "")
  unfolding first_owned
  each_first [] md id r d z f e = absurd (cc f)
  each_first (i ∷ ids) md id r d z f e = elim (Bool-cases (owned token (select_by_id md i))) [
    | inl h ↦
        let p : i ≡ id = ground arith in
        subst (λ x. Renewal (x ∷ ids) md id r (each (x ∷ ids) md 0 "")) (sym p)
          (each_here ids md id r (subst (λ x. mem x ids ≡ false) p d.0) z e
            (ground (arith, subst (λ x. owned token (select_by_id md x) ≡ true) p h)))
    | inr h ↦
        let (o, at) = each_first ids md id r d.1 z (rw h at f) e in
        rw (each-step md md 0 0 "" "" i ids (step_not_owned md 0 "" i h)) (
          o,
          λ j.
              at j
              ∙ ap
                  (λ x.
                    if id == j
                    then some (stamped (renewed endpoint details r now) id r.register_timestamp)
                    else x)
                  (kept token md i ids j h),
        )
  ]
