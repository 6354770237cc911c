-- ===== src/Directory/Inquire/Sent.antt =====
-- What the handler `Inquire` of directoryServer.go sends.
use cogment.Prelude.{
  Bool, ℕ, zero, suc, ◌+◌, ◌≤◌, ◌<◌, ◌≡◌, ◌≢◌, refl, ap, ◌∙◌, ◌↔◌, ◌⊎◌, inl, inr, String, true,
  false, some, List, [], ◌∷◌, not, if◌then◌else◌, arith, All, In, Bool-cases, id_key, ◌==◌, eq_iff,
}
use cogment.Directory.Db.{
  ServiceEndpoint, ServiceDetails, DbRecord, MemoryDb, select_by_id, get_new_service_id,
}
use cogment.Directory.Db.Select.{IsKeyed}
use cogment.Directory.Health.{
  Probe, unserviceable_load, health_check, default_health_check_nb_rounds,
}
use cogment.Directory.Health.Checks.{health_check_iff, registration-health_check}
use cogment.Directory.Server.{
  ServerParameters, RegisterRequest, Fortune, DirectoryError, Result, ok, err, answers, register,
}
use cogment.Directory.Server.Registration.{IsValid}
use cogment.Directory.Server.Admission.{admitted, first_check, register-checked}
use cogment.Directory.Inquire.{
  Inquiry, service_id, nothing, World, db_inquire, more_recent, sort_by, balance, await_matches,
  first_matches, arranged, inquire, add_matches,
}
use cogment.Directory.Inquire.Matches.{
  Sought, Available, Answered, db_inquire_iff, db_inquire-Available,
}
use cogment.Directory.Inquire.Order.{Sorted, In-sort_by, by_time-Sorted, In-All, All-In}
use cogment.Directory.Inquire.Low.{balance_iff}

Result-cases :
    {A : Type 0} (x : Result A) → ((a : A) × (x ≡ ok a)) ⊎ ((e : DirectoryError) × (x ≡ err e))
Result-cases (ok a) = inl (a, refl)
Result-cases (err e) = inr (e, refl)

module _ (params : ServerParameters) (w : World) (inquiry : Inquiry) (token : String) where
  await-Available :
      (count i : ℕ) (md : MemoryDb) (rs : List DbRecord)
      → All (Available token) rs
      → Answered (All (Available token)) (await_matches params w inquiry token count i md rs).1
  unfolding await_matches
  await-Available count i md (r ∷ rs) h = h
  await-Available zero i md [] h = tt
  await-Available (suc count) i md [] h =
      let found = db_inquire params (w.probes i) (w.now i) (w.others i md) inquiry token in
      let ans = db_inquire-Available params (w.probes i) (w.now i) (w.others i md) inquiry token in
      elim (Result-cases found.1) [
        | inl (rs, e) ↦
            rw (e, await_matches) (await-Available count (i + 1) found.0 rs (rw e at ans))
        | inr (x, e) ↦ rw (e, await_matches) tt
      ]

  arranged-Available :
      (x : MemoryDb × Result (List DbRecord))
      → Answered (All (Available token)) x.1
      → Answered (All (Available token)) (arranged params w inquiry token x).1
  unfolding balance sort_by
  arranged-Available (md, err e) h = tt
  arranged-Available (md, ok []) h = tt
  arranged-Available (md, ok (r ∷ rs)) h = elim (Bool-cases params.load_balancing) [
    | inl b ↦ rw b (
        All-In (balance w.draw (r ∷ rs))
          (λ x i. In-All (Available token) (r ∷ rs) x h ((balance_iff w.draw (r ∷ rs) x).0 i).0))
    | inr b ↦ rw b (
        All-In (sort_by more_recent (r ∷ rs))
          (λ x i. In-All (Available token) (r ∷ rs) x h ((In-sort_by more_recent x (r ∷ rs)).0 i)))
  ]

  first-Available :
      (x : MemoryDb × Result (List DbRecord))
      → Answered (All (Available token)) x.1
      → Answered (All (Available token)) (first_matches params w inquiry token x).1
  unfolding first_matches
  first-Available (md, err e) h = tt
  first-Available (md, ok rs) h = await-Available params.registration_lag 1 md rs h

  -- Every record sent is healthy and of the caller's token, however long the handler waits for a match,
  -- whatever others do in the meantime.
  pub inquire-Available :
      (md : MemoryDb) → Answered (All (Available token)) (inquire params w inquiry token md).1
  unfolding inquire
  inquire-Available md =
      let found = db_inquire params (w.probes 0) (w.now 0) md inquiry token in
      let first = first_matches params w inquiry token found in
      arranged-Available first (
        first-Available found (db_inquire-Available params (w.probes 0) (w.now 0) md inquiry token))

module _ (params : ServerParameters) (w : World) (inquiry : Inquiry) (token : String)
    (md : MemoryDb) (unchecked : params.check_on_inquire ≡ false) (keyed : IsKeyed md.services)
    (asked : inquiry ≢ nothing) (s : DbRecord) (sought : Sought md inquiry s)
    (available : Available token s) where
  matches_now :
      (r : DbRecord) (rs : List DbRecord)
      → db_inquire params (w.probes 0) (w.now 0) md inquiry token ≡ (md, ok (r ∷ rs))
      → inquire params w inquiry token md ≡ (
        md,
        ok (
            if not params.load_balancing
            then sort_by more_recent (r ∷ rs)
            else balance w.draw (r ∷ rs)),
      )
  unfolding inquire
  matches_now r rs e = rw e refl

  found_now :
      (r : DbRecord) × (rs : List DbRecord) × (db_inquire params
          (w.probes 0)
          (w.now 0)
          md
          inquiry
          token
        ≡ (md, ok (r ∷ rs)))
      × ((x : DbRecord) → In x (r ∷ rs) ↔ (Sought md inquiry x × Available token x))
  found_now =
      let (rs, e, m) =
        db_inquire_iff params (w.probes 0) (w.now 0) md inquiry token unchecked keyed asked in
      some_found rs e m
    where
      some_found :
          (rs : List DbRecord)
          → db_inquire params (w.probes 0) (w.now 0) md inquiry token ≡ (md, ok rs)
          → ((x : DbRecord) → In x rs ↔ (Sought md inquiry x × Available token x))
          → (r' : DbRecord) × (rs' : List DbRecord) × (db_inquire params
                (w.probes 0)
                (w.now 0)
                md
                inquiry
                token
              ≡ (md, ok (r' ∷ rs')))
            × ((x : DbRecord) → In x (r' ∷ rs') ↔ (Sought md inquiry x × Available token x))
      some_found [] e m = absurd ((m s).1 (sought, available))
      some_found (r ∷ rs) e m = (r, rs, e, m)

  -- On a map with each id once, not 0 and known to its record, without load balancing and checks on
  -- inquiry: when some healthy service of the token is asked for,
  -- the handler sends all of those at once, the most recently registered first, and nothing else.
  pub inquire-Sorted :
      params.load_balancing ≡ false
      → (rs : List DbRecord) × (inquire params w inquiry token md ≡ (md, ok rs))
        × Sorted more_recent rs
        × ((x : DbRecord) → In x rs ↔ (Sought md inquiry x × Available token x))
  inquire-Sorted b =
      let (r, rs, e, m) = found_now in
      (
        sort_by more_recent (r ∷ rs),
        matches_now r rs e ∙ rw b refl,
        by_time-Sorted (r ∷ rs),
        λ x. ground (arith, In-sort_by more_recent x (r ∷ rs), m x),
      )

  -- On a map with each id once, not 0 and known to its record, under load balancing, without checks on
  -- inquiry: when some healthy service of the token that is asked for has a load below 255, the handler
  -- sends exactly those of these services whose load is below 255 and at most 10 above each one's load.
  inquire-balanced :
      params.load_balancing ≡ true
      → s.machine_load < unserviceable_load
      → (rs : List DbRecord) × (inquire params w inquiry token md ≡ (md, ok rs))
        × ((x : DbRecord)
            → In x rs ↔ (
                (Sought md inquiry x × Available token x)
                × (x.machine_load < unserviceable_load)
                × ((y : DbRecord)
                    → Sought md inquiry y × Available token y
                    → x.machine_load ≤ y.machine_load + 10)))
  inquire-balanced b l =
      let (r, rs, e, m) = found_now in
      (
        balance w.draw (r ∷ rs),
        matches_now r rs e ∙ rw b refl,
        λ x.
            let exact = balance_iff w.draw (r ∷ rs) x in
            (
              λ i.
                  let (j, v, k) = exact.0 i in
                  ((m x).0 j, v (s, (m s).1 (sought, available), l), λ y z. k y ((m y).1 z)),
              λ (a, v, k). exact.1 ((m x).1 a, λ u. v, λ y i. k y ((m y).0 i)),
            ),
      )

by_own_id :
    (params : ServerParameters) (probes : ℕ → Probe) (now : ℕ) (md : MemoryDb) (id : ℕ)
    (token : String) (r : DbRecord)
    → params.check_on_inquire ≡ false
    → select_by_id md id ≡ some r
    → r.authentication_token ≡ token
    → db_inquire params probes now md (service_id id) token
      ≡ (md, ok (if r.nb_failed_health_checks == 0 then r ∷ [] else []))
unfolding db_inquire
by_own_id params probes now md id token r c e a =
    rw (c, add_matches, e, (eq_iff r.authentication_token token).1 a) refl

-- A check is passed exactly when it leaves no failure.
first_check_iff :
    (params : ServerParameters) (endpoint : ServiceEndpoint) (description : ServiceDetails)
    (permanent : Bool) (token : String) (f : Fortune) (id : ℕ) (rs : List DbRecord)
    → let (r, healthy) = first_check params endpoint description permanent token f id in
      (if r.nb_failed_health_checks == 0 then rs else []) ≡ (if healthy then rs else [])
first_check_iff params endpoint description permanent token f id rs = ground (
  arith,
  health_check_iff f.probe (admitted params endpoint description permanent token f id) f.now
      default_health_check_nb_rounds (omega arith),
)

-- On a map with each id once, not 0 and known to its record: a new service, from a valid request that is
-- not permanent and for which an id was drawn, is found by its id, with its token and without checks on
-- inquiry, exactly when its first health check, with what the network gave then, is passed; its record
-- has the endpoint and the details of the request.
pub register-inquire :
    (params : ServerParameters) (md : MemoryDb) (request : RegisterRequest) (token : String)
    (f : Fortune) (endpoint : ServiceEndpoint) (description : ServiceDetails) (probes : ℕ → Probe)
    (now : ℕ) (id : ℕ)
    → request.endpoint ≡ some endpoint
    → request.details ≡ some description
    → IsValid endpoint description
    → IsKeyed md.services
    → request.permanent ≡ false
    → params.check_on_inquire ≡ false
    → get_new_service_id md.services f.draws ≡ some id
    → (md' : MemoryDb) × (register params md request token f ≡ answers (md', ok (id, f.new_secret)))
      × (r : DbRecord) × (select_by_id md' id ≡ some r)
      × (r.endpoint ≡ endpoint)
      × (r.details ≡ description)
      × (db_inquire params probes now md' (service_id id) token ≡ (
        md',
        ok (
            if (health_check f.probe
              (admitted params endpoint description request.permanent token f id)
              f.now
              default_health_check_nb_rounds).1
            then r ∷ []
            else []),
      ))
register-inquire params md request token f endpoint description probes now id he hd v k p c e =
    let (md', a, there) =
      register-checked params md request token f endpoint description he hd v k id p e in
    let r = (first_check params endpoint description request.permanent token f id).0 in
    let same =
      registration-health_check f.probe
        (admitted params endpoint description request.permanent token f id) f.now
        default_health_check_nb_rounds in
    (
      md',
      a,
      r,
      there,
      ap (λ x. x.endpoint) same,
      ap (λ x. x.details) same,
      by_own_id params probes now md' id token r c there (ap (λ x. x.authentication_token) same)
          ∙ ap (λ rs. (md', ok rs))
              (first_check_iff params endpoint description request.permanent token f id (r ∷ [])),
    )
