-- ===== src/Directory/Server/Update.antt =====
-- `dbUpdate` of directoryServer.go as a whole.
use mathlib.Core.Path.{subst}
use cogment.Prelude.{
  ℕ, ◌≡◌, ◌≢◌, refl, sym, ap, ◌∙◌, ◌↔◌, inl, inr, String, Bool, true, false, Option, none, some,
  List, [], ◌∷◌, ◌==◌, ◌&&◌, if◌then◌else◌, arith, In, Bool-cases, Option-cases, id_key, ==_iff,
  str_eq,
}
use cogment.Prelude.Dict.{KeysOnce, lookup}
use cogment.Directory.Db.{
  ServiceEndpoint, ServiceDetails, DbRecord, Services, MemoryDb, meets, select_from, select_by_id,
  select_by_details,
}
use cogment.Directory.Db.Laws.{stamped, meets_iff}
use cogment.Directory.Db.Select.{IsKeyed, select_by_details_iff}
use cogment.Directory.Server.{ServerParameters, Result, ok, renewed, renew_each, db_update}
use cogment.Directory.Server.Renewal.{owned, mem, first_owned, Distinct, each_first, each-none}

pub mem_iff : (j : ℕ) (ids : List ℕ) → (mem j ids ≡ true) ↔ In j ids
mem_iff j [] = (λ h. absurd (cc h), λ h. absurd h)
mem_iff j (id ∷ ids) = ground (arith, mem_iff j ids, ==_iff id j)

mem-select_from :
    (inquiry : ServiceDetails) (m : Services) (id : ℕ)
    → lookup id m ≡ none
    → mem id (select_from inquiry m) ≡ false
unfolding select_from lookup
mem-select_from inquiry [] id l = refl
mem-select_from inquiry ((j, r) ∷ m) id l = elim (Bool-cases (j == id)) [
  | inl e ↦ absurd (ground arith)
  | inr e ↦
      let ih = mem-select_from inquiry m id (rw e at l) in
      elim (Bool-cases (meets inquiry r)) [ inl k ↦ rw (k, e) ih | inr k ↦ rw k ih ]
]

select_from-Distinct :
    (inquiry : ServiceDetails) (m : Services) → KeysOnce m → Distinct (select_from inquiry m)
unfolding select_from
select_from-Distinct inquiry [] h = tt
select_from-Distinct inquiry ((j, r) ∷ m) h = elim (Bool-cases (meets inquiry r)) [
  | inl k ↦ rw k (mem-select_from inquiry m j h.0, select_from-Distinct inquiry m h.1)
  | inr k ↦ rw k (select_from-Distinct inquiry m h.1)
]

first_owned-some :
    (token : String) (md : MemoryDb) (ids : List ℕ) (id : ℕ)
    → first_owned token md ids ≡ some id
    → In id ids × (owned token (select_by_id md id) ≡ true)
unfolding first_owned
first_owned-some token md [] id h = absurd (cc h)
first_owned-some token md (i ∷ ids) id h = elim (Bool-cases (owned token (select_by_id md i))) [
  | inl k ↦
      let p : i ≡ id = ground arith in
      (inl p, subst (λ x. owned token (select_by_id md x) ≡ true) p k)
  | inr k ↦ let (i', o) = first_owned-some token md ids id (rw k at h) in (inr i', o)
]

first_owned-none :
    (token : String) (md : MemoryDb) (ids : List ℕ) (id : ℕ)
    → first_owned token md ids ≡ none
    → In id ids
    → owned token (select_by_id md id) ≡ false
unfolding first_owned
first_owned-none token md [] id h i = absurd i
first_owned-none token md (j ∷ ids) id h i = elim (Bool-cases (owned token (select_by_id md j))) [
  | inl k ↦ absurd (ground arith)
  | inr k ↦ elim i [
    | inl p ↦ subst (λ x. owned token (select_by_id md x) ≡ false) p k
    | inr i' ↦ first_owned-none token md ids id (rw k at h) i'
  ]
]

-- The record is one of the services that meet the details, registered under the token.
abbrev pub mine : ServiceDetails → String → Option DbRecord → Bool
mine details token none = false
mine details token (some r) = meets details r && str_eq r.authentication_token token

mem-selected :
    (details : ServiceDetails) (m : Services) (id : ℕ) (r : DbRecord)
    → KeysOnce m
    → lookup id m ≡ some r
    → mem id (select_from details m) ≡ meets details r
unfolding select_from lookup
mem-selected details [] id r o l = absurd (cc l)
mem-selected details ((j, r') ∷ m) id r o l = elim (Bool-cases (j == id)) [
  | inl e ↦
      let p : r' ≡ r = ground arith in
      let q : j ≡ id = (==_iff j id).0 e in
      let n : mem id (select_from details m) ≡ false =
        subst (λ x. mem x (select_from details m) ≡ false) q (mem-select_from details m j o.0) in
      elim (Bool-cases (meets details r')) [
        | inl k ↦ rw (k, e) (sym (subst (λ x. meets details x ≡ true) p k))
        | inr k ↦ rw (k, n) (sym (subst (λ x. meets details x ≡ false) p k))
      ]
  | inr e ↦
      let ih = mem-selected details m id r o.1 (rw e at l) in
      elim (Bool-cases (meets details r')) [ inl k ↦ rw (k, e) ih | inr k ↦ rw k ih ]
]

mem-mine :
    (details : ServiceDetails) (token : String) (md : MemoryDb) (id : ℕ)
    → IsKeyed md.services
    → (mem id (select_by_details md details) && owned token (select_by_id md id))
      ≡ mine details token (select_by_id md id)
unfolding select_by_details select_by_id
mem-mine details token md id v = elim (Option-cases (lookup id md.services)) [
  | inl e ↦ rw e (ground arith)
  | inr (r, e) ↦ rw (e, mem-selected details md.services id r v.once e) refl
]

first-mine :
    (details : ServiceDetails) (token : String) (md : MemoryDb) (id : ℕ) (o : Option ℕ)
    → IsKeyed md.services
    → mine details token (select_by_id md id) ≡ true
    → first_owned token md (select_by_details md details) ≡ o
    → (first : ℕ) × (o ≡ some first)
first-mine details token md id (some first) v m h = (first, refl)
first-mine details token md id none v m h =
    let ids = select_by_details md details in
    let both : (mem id ids && owned token (select_by_id md id)) ≡ true =
      mem-mine details token md id v ∙ m in
    let i : In id ids = (mem_iff id ids).0 (ground arith) in
    absurd (ground (arith, first_owned-none token md ids id h i))

-- What `dbUpdate` gives when it renews the service `id`, that `r` was registered as.
abbrev pub Renews :
    ServiceEndpoint
    → ServiceDetails
    → String
    → ℕ
    → MemoryDb
    → ℕ
    → DbRecord
    → MemoryDb × Result (ℕ × String)
    → Type 0
Renews endpoint details token now md id r (md', reply) =
    (reply ≡ ok (id, r.secret))
    × ((j : ℕ)
        → select_by_id md' j ≡ (
            if id == j
            then some (stamped (renewed endpoint details r now) id r.register_timestamp)
            else if mine details token (select_by_id md j)
            then none
            else select_by_id md j))

module _ (params : ServerParameters) (md : MemoryDb) (endpoint : ServiceEndpoint)
    (details : ServiceDetails) (token : String) (now : ℕ) (v : IsKeyed md.services) where
  selected-Distinct : Distinct (select_by_details md details)
  unfolding select_by_details
  selected-Distinct = select_from-Distinct details md.services v.once

  named_at : (id : ℕ) (r : DbRecord) → select_by_id md id ≡ some r → id ≢ 0
  unfolding select_by_id
  named_at id r e = (v.named id r e).1

  permanent_update :
      db_update params md endpoint details true token now
      ≡ renew_each endpoint details true token now (select_by_details md details) md 0 ""
  unfolding db_update
  permanent_update = elim (Bool-cases params.force_permanent) [
    | inl e ↦ rw e refl
    | inr e ↦ rw e refl
  ]

  first-Renews :
      (id : ℕ) (r : DbRecord)
      → first_owned token md (select_by_details md details) ≡ some id
      → select_by_id md id ≡ some r
      → Renews endpoint details token now md id r
          (db_update params md endpoint details true token now)
  first-Renews id r f e =
      let ids = select_by_details md details in
      let (o, at) =
        each_first endpoint details token now ids md id r selected-Distinct (named_at id r e) f e in
      rw permanent_update (
        ground (arith, o),
        λ j.
            at j
            ∙ ap
                (λ b.
                  if id == j
                  then some (stamped (renewed endpoint details r now) id r.register_timestamp)
                  else if b
                  then none
                  else select_by_id md j)
                (mem-mine details token md j v),
      )

  -- A permanent registration, when a service that meets its details is registered under its token,
  -- renews one such service: its id, secret and first registration time stay, its endpoint and
  -- details are the new ones; every other such service is removed, and no other record changes.
  pub db_update-Renews :
      (id : ℕ)
      → mine details token (select_by_id md id) ≡ true
      → (first : ℕ) × (r : DbRecord) × (select_by_id md first ≡ some r)
        × (mine details token (some r) ≡ true)
        × Renews endpoint details token now md first r
            (db_update params md endpoint details true token now)
  db_update-Renews id m =
      let ids = select_by_details md details in
      let (first, f) = first-mine details token md id (first_owned token md ids) v m refl in
      let (i, o) = first_owned-some token md ids first f in
      let (r, e, k) = (select_by_details_iff md details first v).0 i in
      (first, r, e, ground (arith, (meets_iff details r).1 k, rw e at o), first-Renews first r f e)

  -- Where no service that meets the details is registered under the token, `dbUpdate` changes nothing
  -- and reports no service.
  pub db_update-none :
      (permanent : Bool)
      → ((id : ℕ) → mine details token (select_by_id md id) ≡ false)
      → db_update params md endpoint details permanent token now ≡ (md, ok (0, ""))
  unfolding db_update
  db_update-none permanent h =
      let ids = select_by_details md details in
      elim (Option-cases (first_owned token md ids)) [
        | inl e ↦ ground (arith, each-none endpoint details token now ids md e)
        | inr (id, e) ↦
            let (i, o) = first_owned-some token md ids id e in
            absurd (ground (arith, h id, mem-mine details token md id v, (mem_iff id ids).1 i))
      ]
