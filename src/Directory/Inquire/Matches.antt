-- ===== src/Directory/Inquire/Matches.antt =====
-- What `Inquire` of directoryServer.go finds.
use mathlib.Core.Path.{subst}
use cogment.Prelude.{
  ℕ, ◌≡◌, ◌≢◌, refl, ap, ◌∙◌, ◌↔◌, ◌⊎◌, inl, inr, String, true, false, none, some, List, [], ◌∷◌,
  ◌==◌, arith, All, In, Bool-cases, Option-cases, id_key, str_eq, eq_iff,
}
use cogment.Directory.Db.{DbRecord, MemoryDb, select_by_id, select_by_details}
use cogment.Directory.Db.Laws.{Meets}
use cogment.Directory.Db.Select.{IsKeyed, select_by_details_iff}
use cogment.Directory.Health.{Probe, health_check, write_back}
use cogment.Directory.Health.Checks.{health_check_iff, registration-health_check}
use cogment.Directory.Server.{ServerParameters, Result, ok, err}
use cogment.Directory.Inquire.{
  Inquiry, service_id, details, nothing, add_matches, check_matches, db_inquire,
}

-- A healthy record of the token's.
abbrev pub Available : String → DbRecord → Type 0
Available token r = (r.authentication_token ≡ token) × (r.nb_failed_health_checks ≡ 0)

pub add_matches_iff :
    (token : String) (md : MemoryDb) (ids : List ℕ) (r : DbRecord)
    → In r (add_matches token md ids)
      ↔ ((id : ℕ) × In id ids × (select_by_id md id ≡ some r) × Available token r)
unfolding add_matches
add_matches_iff token md [] r = (λ i. absurd i, λ (id, i, e, a). i)
add_matches_iff token md (j ∷ ids) r =
    let ih = add_matches_iff token md ids r in
    elim (Option-cases (select_by_id md j)) [
      | inl e ↦ rw e (
        λ i. let (id, k, f, a) = ih.0 i in (id, inr k, f, a),
        λ (id, k, f, a). ih.1 (id, apart e id k f, f, a),
      )
      | inr (s, e) ↦ elim (Bool-cases (str_eq s.authentication_token token)) [
        | inr t ↦
            rw (e, t)
              (
                λ i. let (id, k, f, a) = ih.0 i in (id, inr k, f, a),
                λ (id, k, f, a). ih.1 (id, no_token s e t id k f a.0, f, a),
              )
        | inl t ↦ elim (Bool-cases (s.nb_failed_health_checks == 0)) [
          | inr h ↦
              rw (e, t, h)
                (
                  λ i. let (id, k, f, a) = ih.0 i in (id, inr k, f, a),
                  λ (id, k, f, a). ih.1 (id, unhealthy s e h id k f a.1, f, a),
                )
          | inl h ↦
              rw (e, t, h)
                (
                  λ i. elim i [
                    | inl p ↦ (
                      j,
                      inl refl,
                      e ∙ ap some p,
                      subst (Available token) p
                          ((eq_iff s.authentication_token token).0 t, ground arith),
                    )
                    | inr i' ↦ let (id, k, f, a) = ih.0 i' in (id, inr k, f, a)
                  ],
                  λ (id, k, f, a). elim k [
                    | inl p ↦ inl (ground (arith, ap (select_by_id md) p))
                    | inr k' ↦ inr (ih.1 (id, k', f, a))
                  ],
                )
        ]
      ]
    ]
  where
    apart :
        select_by_id md j ≡ none
        → (id : ℕ) → (j ≡ id) ⊎ In id ids
        → select_by_id md id ≡ some r
        → In id ids
    apart e id (inr k) f = k
    apart e id (inl p) f = absurd (ground (arith, ap (select_by_id md) p))

    no_token :
        (s : DbRecord)
        → select_by_id md j ≡ some s
        → str_eq s.authentication_token token ≡ false
        → (id : ℕ) → (j ≡ id) ⊎ In id ids
        → select_by_id md id ≡ some r
        → r.authentication_token ≡ token
        → In id ids
    no_token s e t id (inr k) f a = k
    no_token s e t id (inl p) f a =
        let q : s ≡ r = ground (arith, ap (select_by_id md) p) in
        absurd
          (ground (arith, eq_iff s.authentication_token token, ap (λ x. x.authentication_token) q))

    unhealthy :
        (s : DbRecord)
        → select_by_id md j ≡ some s
        → (s.nb_failed_health_checks == 0) ≡ false
        → (id : ℕ) → (j ≡ id) ⊎ In id ids
        → select_by_id md id ≡ some r
        → r.nb_failed_health_checks ≡ 0
        → In id ids
    unhealthy s e t id (inr k) f a = k
    unhealthy s e t id (inl p) f a =
        let q : s ≡ r = ground (arith, ap (select_by_id md) p) in
        absurd (ground (arith, ap (λ x. x.nb_failed_health_checks) q))

-- The record is one that the inquiry is about.
abbrev pub Sought : MemoryDb → Inquiry → DbRecord → Type 0
Sought md (service_id id) r = select_by_id md id ≡ some r
Sought md (details d) r = (id : ℕ) × (select_by_id md id ≡ some r) × Meets d r
Sought md nothing r = ⊥

-- Without checks on inquiry, an inquiry changes nothing and finds exactly the healthy services of the
-- caller's token that it is about.
pub db_inquire_iff :
    (params : ServerParameters) (probes : ℕ → Probe) (now : ℕ) (md : MemoryDb) (inquiry : Inquiry)
    (token : String)
    → params.check_on_inquire ≡ false
    → IsKeyed md.services
    → inquiry ≢ nothing
    → (rs : List DbRecord) × (db_inquire params probes now md inquiry token ≡ (md, ok rs))
      × ((r : DbRecord) → In r rs ↔ (Sought md inquiry r × Available token r))
unfolding db_inquire
db_inquire_iff params probes now md nothing token c v n = absurd (n refl)
db_inquire_iff params probes now md (service_id id) token c v n = (
  add_matches token md (id ∷ []),
  rw c refl,
  λ r.
      let found = add_matches_iff token md (id ∷ []) r in
      (
        λ i.
            let (j, k, e, a) = found.0 i in
            elim k [ inl p ↦ (ap (select_by_id md) p ∙ e, a) | inr b ↦ absurd b ],
        λ (e, a). found.1 (id, inl refl, e, a),
      ),
)
db_inquire_iff params probes now md (details d) token c v n =
    let ids = select_by_details md d in
    (
      add_matches token md ids,
      rw c refl,
      λ r.
          let found = add_matches_iff token md ids r in
          (
            λ i.
                let (j, k, e, a) = found.0 i in
                let (s, f, m) = (select_by_details_iff md d j v).0 k in
                let p : s ≡ r = ground arith in ((j, e, subst (Meets d) p m), a),
            λ ((j, e, m), a). found.1 (j, (select_by_details_iff md d j v).1 (r, e, m), e, a),
          ),
    )

check_matches-Available :
    (probes : ℕ → Probe) (now : ℕ) (token : String) (md : MemoryDb) (rs : List DbRecord)
    → All (Available token) rs
    → All (Available token) (check_matches probes now md rs).1
unfolding check_matches
check_matches-Available probes now token md [] h = tt
check_matches-Available probes now token md (r ∷ rs) (a, h) =
    let r' = (health_check (probes r.sid) r now 1).0 in
    let same = registration-health_check (probes r.sid) r now 1 in
    let ih = check_matches-Available probes now token (write_back md r'.sid r') rs h in
    let exact = health_check_iff (probes r.sid) r now 1 (ground (arith, a.1)) in
    elim (Bool-cases (health_check (probes r.sid) r now 1).1) [
      | inl e ↦ rw e ((ap (λ x. x.authentication_token) same ∙ a.0, exact.0 e), ih)
      | inr e ↦ rw e ih
    ]

add_matches-Available :
    (token : String) (md : MemoryDb) (ids : List ℕ)
    → All (Available token) (add_matches token md ids)
unfolding add_matches
add_matches-Available token md [] = tt
add_matches-Available token md (id ∷ ids) =
    let ih = add_matches-Available token md ids in
    elim (Option-cases (select_by_id md id)) [
      | inl e ↦ rw e ih
      | inr (s, e) ↦ elim (Bool-cases (str_eq s.authentication_token token)) [
        | inr t ↦ rw (e, t) ih
        | inl t ↦ elim (Bool-cases (s.nb_failed_health_checks == 0)) [
          | inr h ↦ rw (e, t, h) ih
          | inl h ↦ rw (e, t, h) (((eq_iff s.authentication_token token).0 t, ground arith), ih)
        ]
      ]
    ]

-- Every record that an answer holds.
abbrev pub Answered : (List DbRecord → Type 0) → Result (List DbRecord) → Type 0
Answered P (ok rs) = P rs
Answered P (err e) = Unit

pub db_inquire-Available :
    (params : ServerParameters) (probes : ℕ → Probe) (now : ℕ) (md : MemoryDb) (inquiry : Inquiry)
    (token : String)
    → Answered (All (Available token)) (db_inquire params probes now md inquiry token).1
unfolding db_inquire
db_inquire-Available params probes now md inquiry token =
    elim (Bool-cases params.check_on_inquire) [
      | inl c ↦ checked c inquiry
      | inr c ↦ unchecked c inquiry
    ]
  where
    checked :
        params.check_on_inquire ≡ true
        → (q : Inquiry)
        → Answered (All (Available token)) (db_inquire params probes now md q token).1
    checked c (service_id id) = rw c (
        check_matches-Available probes now token md (add_matches token md (id ∷ []))
          (add_matches-Available token md (id ∷ [])))
    checked c (details d) =
        let ids = select_by_details md d in
        rw c (
          check_matches-Available probes now token md (add_matches token md ids)
            (add_matches-Available token md ids))
    checked c nothing = tt

    unchecked :
        params.check_on_inquire ≡ false
        → (q : Inquiry)
        → Answered (All (Available token)) (db_inquire params probes now md q token).1
    unchecked c (service_id id) = rw c (add_matches-Available token md (id ∷ []))
    unchecked c (details d) = rw c (add_matches-Available token md (select_by_details md d))
    unchecked c nothing = tt
