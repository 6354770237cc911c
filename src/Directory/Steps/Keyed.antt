-- ===== src/Directory/Steps/Keyed.antt =====
-- Health checks and `dbUpdate` (directoryServer.go) keep a map in which each id stands once and is known
-- to its record.
use mathlib.Core.Path.{subst}
use cogment.Prelude.{
  ℕ, ◌≡◌, ◌≢◌, refl, sym, ap, ◌∙◌, ◌⊎◌, inl, inr, String, Bool, true, false, Option, none, some,
  List, [], ◌∷◌, ◌==◌, not, ◌&&◌, ◌||◌, if◌then◌else◌, Bool-cases, Option-cases, id_key, str_eq,
  ltb, leb,
}
use cogment.Directory.Db.{
  ServiceEndpoint, ServiceDetails, DbRecord, MemoryDb, select_by_id, select_by_details,
  select_all_ids, update_record,
}
use cogment.Directory.Db.Select.{
  IsKeyed, insert-IsKeyed, update_record-IsKeyed, delete_record-IsKeyed,
}
use cogment.Directory.Health.{
  Probe, health_check, write_back, after_check, check_one, check_each, now_health_check, elapsed,
  health_check_period,
}
use cogment.Directory.Health.Checks.{registration-health_check, check_one-none, check_one-some}
use cogment.Directory.Server.{
  ServerParameters, DirectoryError, Renewing, goes, stops, renewed, renew_step, renew_found,
  after_update, renew_each, db_update,
}

abbrev pub Keyed : MemoryDb → Type 0
Keyed md = IsKeyed md.services

write_back-IsKeyed :
    (md : MemoryDb) (r : DbRecord) → r.sid ≢ 0 → Keyed md → Keyed (write_back md r.sid r)
write_back-IsKeyed md r z v = insert-IsKeyed md.services r.sid r refl z v

pub named_at :
    (md : MemoryDb) (id : ℕ) (r : DbRecord)
    → Keyed md
    → select_by_id md id ≡ some r
    → (r.sid ≡ id) × (id ≢ 0)
unfolding select_by_id
named_at md id r v e = v.named id r e

-- A check of a record under its id.
pub checked-IsKeyed :
    (p : Probe) (md : MemoryDb) (r : DbRecord) (now n : ℕ)
    → r.sid ≢ 0
    → Keyed md
    → let r' = (health_check p r now n).0 in
      Keyed (write_back md r'.sid r') × Keyed (write_back md r.sid r')
checked-IsKeyed p md r now n z v =
    let r' = (health_check p r now n).0 in
    let same : r'.sid ≡ r.sid = ap (λ x. x.sid) (registration-health_check p r now n) in
    let k = write_back-IsKeyed md r' (λ q. z (sym same ∙ q)) v in
    (k, subst (λ i. Keyed (write_back md i r')) same k)

module _ (probes : ℕ → Probe) (now : ℕ) (immediate : Bool) where
  after_check-IsKeyed :
      (md : MemoryDb) (id : ℕ) (recent : Bool)
      → Keyed md
      → (o : DbRecord × Bool) → Keyed (write_back md id o.0)
      → Keyed (if recent then md else after_check md id immediate o)
  after_check-IsKeyed md id true v o w = v
  after_check-IsKeyed md id false v (r, healthy) w =
      elim (Bool-cases (not healthy && (immediate || leb 3 r.nb_failed_health_checks))) [
        | inl e ↦ rw e (delete_record-IsKeyed (write_back md id r) id w)
        | inr e ↦ rw e w
      ]

  check_one-IsKeyed :
      (md : MemoryDb) (id : ℕ) → Keyed md → Keyed (check_one probes now immediate md id)
  check_one-IsKeyed md id v = elim (Option-cases (select_by_id md id)) [
    | inl e ↦ rw (check_one-none probes now immediate md id e) v
    | inr (r, e) ↦
        let (s, z) = named_at md id r v e in
        let w : Keyed (write_back md id (health_check (probes id) r now 3).0) =
          subst (λ i. Keyed (write_back md i (health_check (probes id) r now 3).0)) s
            (checked-IsKeyed (probes id) md r now 3 (λ q. z (sym s ∙ q)) v).1 in
        rw (check_one-some probes now immediate md id r e) (
          after_check-IsKeyed md id
            (ltb (elapsed now r.last_health_check_timestamp) health_check_period) v
            (health_check (probes id) r now 3) w)
  ]

  check_each-IsKeyed :
      (md : MemoryDb) (ids : List ℕ) → Keyed md → Keyed (check_each probes now immediate md ids)
  unfolding check_each
  check_each-IsKeyed md [] v = v
  check_each-IsKeyed md (id ∷ ids) v =
      check_each-IsKeyed (check_one probes now immediate md id) ids (check_one-IsKeyed md id v)

pub scan-IsKeyed :
    (probes : ℕ → Probe) (now : ℕ) (immediate : Bool) (md : MemoryDb)
    → Keyed md
    → Keyed (now_health_check probes now immediate md)
unfolding now_health_check
scan-IsKeyed probes now immediate md v =
    check_each-IsKeyed probes now immediate md (select_all_ids md) v

module _ (endpoint : ServiceEndpoint) (details : ServiceDetails) (permanent : Bool) (token : String)
    (now : ℕ) where
  abbrev Renewed : Renewing → Type 0
  Renewed (goes md u s) = Keyed md
  Renewed (stops md e) = Keyed md

  after_update-IsKeyed :
      (md : MemoryDb) (id : ℕ) (r : DbRecord) (o : Option MemoryDb)
      → Keyed md
      → update_record md id (renewed endpoint details r now) ≡ o
      → Renewed (after_update endpoint details permanent token now md id r.secret o)
  unfolding after_update
  after_update-IsKeyed md id r none v e = v
  after_update-IsKeyed md id r (some md') v e =
      update_record-IsKeyed md md' id (renewed endpoint details r now) v e

  found-IsKeyed :
      (md : MemoryDb) (u : ℕ) (s : String) (id : ℕ) (o : Option DbRecord)
      → Keyed md
      → Renewed (renew_found endpoint details permanent token now md u s id o)
  unfolding renew_found
  found-IsKeyed md u s id none v = v
  found-IsKeyed md u s id (some r) v = elim (Bool-cases permanent) [
    | inr e ↦ rw e v
    | inl e ↦ elim (Bool-cases (str_eq r.authentication_token token)) [
      | inr t ↦ rw (e, t) v
      | inl t ↦ elim (Bool-cases (u == 0)) [
        | inr z ↦ rw (e, t, z) (delete_record-IsKeyed md id v)
        | inl z ↦
            rw (e, t, z)
              (after_update-IsKeyed md id r (update_record md id (renewed endpoint details r now)) v
                refl)
      ]
    ]
  ]

  step-IsKeyed :
      (md : MemoryDb) (u : ℕ) (s : String) (id : ℕ)
      → Keyed md
      → Renewed (renew_step endpoint details permanent token now md u s id)
  unfolding renew_step
  step-IsKeyed md u s id v = found-IsKeyed md u s id (select_by_id md id) v

  Renewing-cases :
      (x : Renewing)
      → ((md : MemoryDb) × (u : ℕ) × (s : String) × (x ≡ goes md u s))
        ⊎ ((md : MemoryDb) × (e : DirectoryError) × (x ≡ stops md e))
  Renewing-cases (goes md u s) = inl (md, u, s, refl)
  Renewing-cases (stops md e) = inr (md, e, refl)

  each-IsKeyed :
      (ids : List ℕ) (md : MemoryDb) (u : ℕ) (s : String)
      → Keyed md
      → Keyed (renew_each endpoint details permanent token now ids md u s).0
  unfolding renew_each
  each-IsKeyed [] md u s v = v
  each-IsKeyed (id ∷ ids) md u s v =
      let k = step-IsKeyed md u s id v in
      elim (Renewing-cases (renew_step endpoint details permanent token now md u s id)) [
        | inl (md', u', s', e) ↦ rw (e, renew_each) (each-IsKeyed ids md' u' s' (rw e at k))
        | inr (md', x, e) ↦ rw (e, renew_each) (rw e at k)
      ]

module _ (params : ServerParameters) (md : MemoryDb) (v : Keyed md) where
  pub db_update-IsKeyed :
      (endpoint : ServiceEndpoint) (details : ServiceDetails) (permanent : Bool) (token : String)
      (now : ℕ)
      → Keyed (db_update params md endpoint details permanent token now).0
  unfolding db_update
  db_update-IsKeyed endpoint wanted false token now = v
  db_update-IsKeyed endpoint wanted true token now =
      each-IsKeyed endpoint wanted (params.force_permanent || true) token now
        (select_by_details md wanted) md 0 "" v
