-- ===== src/Directory/Health/Checks.antt =====
-- What a health check (healthCheck.go) says, and which services it removes.
use mathlib.Core.Path.{subst}
use cogment.Prelude.{
  ℕ, ◌+◌, ◌<◌, ◌^◌, ◌≡◌, refl, sym, ap, ◌∙◌, ◌↔◌, inl, inr, Bool, true, false, none, some, List, [],
  ◌∷◌, ◌==◌, ltb, leb, if◌then◌else◌, arith, Bool-cases, Option-cases, id_key, ==_iff,
}
use cogment.Prelude.Dict.{lookup-insert}
use cogment.Directory.Db.{DbRecord, MemoryDb, select_by_id, select_all_ids}
use cogment.Directory.Db.Laws.{select-delete_record}
use cogment.Directory.Db.Restart.{registration}
use cogment.Directory.Health.{
  Probe, health_check, elapsed, health_check_period, max_failed_health_checks, write_back,
  after_check, check_one, check_each, now_health_check,
}

-- A check says that a service is healthy exactly when it leaves it with no failed check, short of
-- 2^64 - 1 failures in a row.
pub health_check_iff :
    (p : Probe) (r : DbRecord) (now nb_rounds : ℕ)
    → r.nb_failed_health_checks + 1 < 2 ^ 64
    → let (r', healthy) = health_check p r now nb_rounds in
      (healthy ≡ true) ↔ (r'.nb_failed_health_checks ≡ 0)
unfolding health_check
health_check_iff p r now nb_rounds h = ground arith

-- A check changes nothing that was registered.
pub registration-health_check :
    (p : Probe) (r : DbRecord) (now nb_rounds : ℕ)
    → registration (health_check p r now nb_rounds).0 ≡ registration r
unfolding health_check
registration-health_check p r now nb_rounds = ground arith

permanent_healthy :
    (p : Probe) (r : DbRecord) (now nb_rounds : ℕ)
    → r.permanent ≡ true
    → ltb (elapsed now r.last_health_check_timestamp) health_check_period ≡ false
    → (health_check p r now nb_rounds).1 ≡ true
unfolding health_check
permanent_healthy p r now nb_rounds h k = ground arith

-- The database still has the registration of `r` under `id`.
abbrev pub Kept : MemoryDb → ℕ → DbRecord → Type 0
Kept md id r = (r' : DbRecord) × (select_by_id md id ≡ some r') × (registration r' ≡ registration r)

pub select-write_back :
    (md : MemoryDb) (id j : ℕ) (r : DbRecord)
    → select_by_id (write_back md id r) j ≡ (if id == j then some r else select_by_id md j)
unfolding select_by_id
select-write_back md id j r = lookup-insert id j r md.services

module _ (probes : ℕ → Probe) (now : ℕ) (immediate_removal : Bool) (md : MemoryDb) (id : ℕ) where
  pub check_one-none : select_by_id md id ≡ none → check_one probes now immediate_removal md id ≡ md
  unfolding check_one
  check_one-none e = rw (e, check_one) refl

  pub check_one-some :
      (r : DbRecord)
      → select_by_id md id ≡ some r
      → check_one probes now immediate_removal md id ≡ (
          if ltb (elapsed now r.last_health_check_timestamp) health_check_period
          then md
          else after_check md id immediate_removal (health_check (probes id) r now 3))
  unfolding check_one
  check_one-some r e = rw (e, check_one) refl

  -- The check of one id leaves every other id alone.
  check_one_ne :
      (j : ℕ)
      → (id == j) ≡ false
      → select_by_id (check_one probes now immediate_removal md id) j ≡ select_by_id md j
  check_one_ne j d = elim (Option-cases (select_by_id md id)) [
    | inl e ↦ rw (check_one-none e) refl
    | inr (r, e) ↦
        let r' = (health_check (probes id) r now 3).0 in
        rw (check_one-some r e) (
          ground
            (arith, select-write_back md id j r', select-delete_record (write_back md id r') id j))
  ]

  check_one_healthy :
      (r : DbRecord)
      → select_by_id md id ≡ some r
      → ((ltb (elapsed now r.last_health_check_timestamp) health_check_period ≡ false)
          → (health_check (probes id) r now 3).1 ≡ true)
      → Kept (check_one probes now immediate_removal md id) id r
  check_one_healthy r e h =
      elim (Bool-cases (ltb (elapsed now r.last_health_check_timestamp) health_check_period)) [
        | inl k ↦ rw (check_one-some r e, k) (r, e, refl)
        | inr k ↦
            let r' = (health_check (probes id) r now 3).0 in
            rw (check_one-some r e, k, h k)
              (
                r',
                rw (select-write_back md id id r') (ground arith),
                registration-health_check (probes id) r now 3,
              )
      ]

-- A record that was kept twice was kept.
Kept-trans :
    (md' : MemoryDb) (id : ℕ) (r r' : DbRecord)
    → registration r' ≡ registration r
    → Kept md' id r'
    → Kept md' id r
Kept-trans md' id r r' e (r'', l, k) = (r'', l, k ∙ e)

module _ (probes : ℕ → Probe) (now : ℕ) (immediate_removal : Bool) where
  check_one-permanent :
      (md : MemoryDb) (id j : ℕ) (r : DbRecord)
      → r.permanent ≡ true
      → select_by_id md j ≡ some r
      → Kept (check_one probes now immediate_removal md id) j r
  check_one-permanent md id j r h e = elim (Bool-cases (id == j)) [
    | inr d ↦ (r, check_one_ne probes now immediate_removal md id j d ∙ e, refl)
    | inl d ↦
        let p : id ≡ j = (==_iff id j).0 d in
        subst (λ k. Kept (check_one probes now immediate_removal md id) k r) p
          (check_one_healthy probes now immediate_removal md id r
            (subst (λ k. select_by_id md k ≡ some r) (sym p) e)
            (λ k. permanent_healthy (probes id) r now 3 h k))
  ]

  check_each-permanent :
      (md : MemoryDb) (ids : List ℕ) (j : ℕ) (r : DbRecord)
      → r.permanent ≡ true
      → select_by_id md j ≡ some r
      → Kept (check_each probes now immediate_removal md ids) j r
  unfolding check_each
  check_each-permanent md [] j r h e = (r, e, refl)
  check_each-permanent md (id ∷ ids) j r h e =
      let (r', l, k) = check_one-permanent md id j r h e in
      Kept-trans (check_each probes now immediate_removal md (id ∷ ids)) j r r' k (
        check_each-permanent (check_one probes now immediate_removal md id) ids j r'
          (ap (λ x. x.permanent) k ∙ h) l)

  -- No scan removes a permanent service or changes what it registered, whatever the network does.
  now_health_check-permanent :
      (md : MemoryDb) (j : ℕ) (r : DbRecord)
      → r.permanent ≡ true
      → select_by_id md j ≡ some r
      → Kept (now_health_check probes now immediate_removal md) j r
  unfolding now_health_check
  now_health_check-permanent md j r h e = check_each-permanent md (select_all_ids md) j r h e

spared :
    (p : Probe) (r : DbRecord) (now : ℕ)
    → r.nb_failed_health_checks < 2
    → ltb (elapsed now r.last_health_check_timestamp) health_check_period ≡ false
    → leb max_failed_health_checks (health_check p r now 3).0.nb_failed_health_checks ≡ false
unfolding health_check
spared p r now h k = ground arith

-- A periodic scan does not remove a service that failed fewer than two checks in a row before, even
-- if the check of the scan fails.
check_one_spares :
    (probes : ℕ → Probe) (now : ℕ) (md : MemoryDb) (id : ℕ) (r : DbRecord)
    → select_by_id md id ≡ some r
    → r.nb_failed_health_checks < 2
    → Kept (check_one probes now false md id) id r
check_one_spares probes now md id r e h =
    elim (Bool-cases (ltb (elapsed now r.last_health_check_timestamp) health_check_period)) [
      | inl k ↦ rw (check_one-some probes now false md id r e, k) (r, e, refl)
      | inr k ↦
          let r' = (health_check (probes id) r now 3).0 in
          let wrote : after_check md id false (health_check (probes id) r now 3)
              ≡ write_back md id r' =
            ground (arith, spared (probes id) r now h k) in
          rw (check_one-some probes now false md id r e, k, wrote)
            (
              r',
              rw (select-write_back md id id r') (ground arith),
              registration-health_check (probes id) r now 3,
            )
    ]
