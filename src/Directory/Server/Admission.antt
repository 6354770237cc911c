-- ===== src/Directory/Server/Admission.antt =====
-- `Register` of directoryServer.go on a valid request: a new service, or the renewal of one.
use cogment.Prelude.{
  inl, inr, ℕ, ◌≡◌, ◌≢◌, refl, ap, ◌∙◌, String, Bool, true, false, none, some, ◌==◌, ◌||◌,
  if◌then◌else◌, arith, id_key, ==_iff,
}
use cogment.Directory.Db.{
  ServiceEndpoint, ServiceDetails, DbRecord, MemoryDb, select_by_id, get_new_service_id,
}
use cogment.Directory.Db.Laws.{stamped, insert_record_lem}
use cogment.Directory.Db.Select.{IsKeyed}
use cogment.Directory.Db.Restart.{registration}
use cogment.Directory.Health.{default_health_check_nb_rounds, health_check, write_back}
use cogment.Directory.Health.Checks.{registration-health_check, select-write_back}
use cogment.Directory.Server.{
  ServerParameters, RegisterRequest, DeregisterRequest, Fortune, ok, answers, new_record,
  db_register, db_update, register, deregister, register_valid,
}
use cogment.Directory.Server.Update.{mine, Renews, db_update-Renews, db_update-none}
use cogment.Directory.Server.Registration.{IsValid, valid, Owns, deregister_iff}

-- The record of a new service, before its first health check.
abbrev pub admitted :
    ServerParameters → ServiceEndpoint → ServiceDetails → Bool → String → Fortune → ℕ → DbRecord
admitted params endpoint details permanent token f id =
    stamped (new_record endpoint details (params.force_permanent || permanent) token f.new_secret)
      id f.now

-- The outcome of a registration under the new id `id`: the record is what was asked for, but for what
-- its health check wrote, and nothing else changed.
abbrev pub Admits : MemoryDb → ℕ → DbRecord → MemoryDb → Type 0
Admits md id r md' =
    (select_by_id md id ≡ none)
    × (id ≢ 0)
    × (r' : DbRecord) × (registration r' ≡ registration r)
    × ((j : ℕ) → select_by_id md' j ≡ (if id == j then some r' else select_by_id md j))

db_register_lem :
    (params : ServerParameters) (md : MemoryDb) (endpoint : ServiceEndpoint)
    (details : ServiceDetails) (permanent : Bool) (token : String) (f : Fortune) (id : ℕ)
    → get_new_service_id md.services f.draws ≡ some id
    → (md' : MemoryDb) × (db_register params md endpoint details permanent token f
        ≡ some (md', id, f.new_secret))
      × Admits md id (admitted params endpoint details permanent token f id) md'
unfolding db_register
db_register_lem params md endpoint details permanent token f id e =
    let r = admitted params endpoint details permanent token f id in
    let (md1, i, z, n, at) =
      insert_record_lem md
        (new_record endpoint details (params.force_permanent || permanent) token f.new_secret)
        f.draws f.now id e in
    let r' = (health_check f.probe r f.now 3).0 in
    (
      write_back md1 id r',
      rw i refl,
      (
        n,
        z,
        r',
        registration-health_check f.probe r f.now 3,
        λ j. select-write_back md1 id j r' ∙ ground (arith, at j),
      ),
    )

-- The record of a new registration as its first health check leaves it, and whether it is healthy.
abbrev pub first_check :
    ServerParameters
    → ServiceEndpoint
    → ServiceDetails
    → Bool
    → String
    → Fortune
    → ℕ
    → DbRecord × Bool
first_check params endpoint details permanent token f id =
    health_check f.probe (admitted params endpoint details permanent token f id) f.now
      default_health_check_nb_rounds

db_register-checked :
    (params : ServerParameters) (md : MemoryDb) (endpoint : ServiceEndpoint)
    (details : ServiceDetails) (permanent : Bool) (token : String) (f : Fortune) (id : ℕ)
    → get_new_service_id md.services f.draws ≡ some id
    → (md' : MemoryDb) × (db_register params md endpoint details permanent token f
        ≡ some (md', id, f.new_secret))
      × (select_by_id md' id ≡ some (first_check params endpoint details permanent token f id).0)
unfolding db_register
db_register-checked params md endpoint details permanent token f id e =
    let (md1, i, z, n, at) =
      insert_record_lem md
        (new_record endpoint details (params.force_permanent || permanent) token f.new_secret)
        f.draws f.now id e in
    let r' = (first_check params endpoint details permanent token f id).0 in
    (write_back md1 id r', rw i refl, select-write_back md1 id id r' ∙ ground arith)

module _ (params : ServerParameters) (md : MemoryDb) (request : RegisterRequest) (token : String)
    (f : Fortune) (endpoint : ServiceEndpoint) (details : ServiceDetails)
    (has_endpoint : request.endpoint ≡ some endpoint) (has_details : request.details ≡ some details)
    (is_valid : IsValid endpoint details) (keyed : IsKeyed md.services) where
  unchanged :
      (permanent : Bool)
      → (permanent ≡ true → (j : ℕ) → mine details token (select_by_id md j) ≡ false)
      → db_update params md endpoint details permanent token f.now ≡ (md, ok (0, ""))
  unfolding db_update
  unchanged false h = refl
  unchanged true h = db_update-none params md endpoint details token f.now keyed true (h refl)

  named_at : (id : ℕ) (r : DbRecord) → select_by_id md id ≡ some r → id ≢ 0
  unfolding select_by_id
  named_at id r e = (keyed.named id r e).1

  -- On a map with each id once, not 0 and known to its record: a valid request that is not permanent,
  -- or that finds no service of its token that meets its details, as soon as an id is drawn, is
  -- answered with a new id, unused and not 0, and the new secret. The record is the request's,
  -- permanent if the request or the server's parameters say so; no other record changes.
  pub register-Admits :
      (id : ℕ)
      → (request.permanent ≡ true → (j : ℕ) → mine details token (select_by_id md j) ≡ false)
      → get_new_service_id md.services f.draws ≡ some id
      → (md' : MemoryDb) × (register params md request token f
          ≡ answers (md', ok (id, f.new_secret)))
        × Admits md id (admitted params endpoint details request.permanent token f id) md'
  unfolding register_valid
  register-Admits id h e =
      let (md', d, a) = db_register_lem params md endpoint details request.permanent token f id e in
      (
        md',
        valid params md request token f endpoint details has_endpoint has_details is_valid
            ∙ rw (unchanged request.permanent h, d) refl,
        a,
      )

  -- The record of a new service is what its first health check left.
  pub register-checked :
      (id : ℕ)
      → request.permanent ≡ false
      → get_new_service_id md.services f.draws ≡ some id
      → (md' : MemoryDb) × (register params md request token f
          ≡ answers (md', ok (id, f.new_secret)))
        × (select_by_id md' id
            ≡ some (first_check params endpoint details request.permanent token f id).0)
  unfolding register_valid
  register-checked id p e =
      let (md', d, there) =
        db_register-checked params md endpoint details request.permanent token f id e in
      (
        md',
        valid params md request token f endpoint details has_endpoint has_details is_valid
            ∙ rw (unchanged request.permanent (λ q. absurd (ground arith)), d) refl,
        there,
      )

  -- On a map with each id once, not 0 and known to its record: a valid permanent request that finds
  -- services of its token that meet its details renews one of them, and is answered with the id and the
  -- secret that this one had. It keeps these, its permanence and the time of its first registration, and
  -- has the new endpoint and details; the other services found are removed, and no other record changes.
  pub register-Renews :
      (id : ℕ)
      → request.permanent ≡ true
      → mine details token (select_by_id md id) ≡ true
      → (md' : MemoryDb) × (first : ℕ) × (r : DbRecord) × (select_by_id md first ≡ some r)
        × (mine details token (some r) ≡ true)
        × (register params md request token f ≡ answers (md', ok (first, r.secret)))
        × Renews endpoint details token f.now md first r (md', ok (first, r.secret))
  unfolding register_valid
  register-Renews id p m =
      let (first, r, e, k, (reply, at)) =
        db_update-Renews params md endpoint details token f.now keyed id m in
      let md' = (db_update params md endpoint details true token f.now).0 in
      let u : db_update params md endpoint details true token f.now ≡ (md', ok (first, r.secret)) =
        ap (λ x. (md', x)) reply in
      (
        md',
        first,
        r,
        e,
        k,
        valid params md request token f endpoint details has_endpoint has_details is_valid
            ∙ rw (p, u) (ground (arith, named_at first r e)),
        (refl, at),
      )

  -- On a map with each id once, not 0 and known to its record: a new service, from a valid request for
  -- which an id was drawn, that is deregistered with its token and the secret of the answer is gone, and the
  -- records are as before.
  pub register-deregister :
      (id : ℕ)
      → (request.permanent ≡ true → (j : ℕ) → mine details token (select_by_id md j) ≡ false)
      → get_new_service_id md.services f.draws ≡ some id
      → (md' : MemoryDb) × (register params md request token f
          ≡ answers (md', ok (id, f.new_secret)))
        × let (md'', reply) =
            deregister md' (record { service_id = id; secret = f.new_secret }) token in
          (reply ≡ ok tt) × ((j : ℕ) → select_by_id md'' j ≡ select_by_id md j)
  register-deregister id h e =
      let (md', a, (n, z, r', k, at)) = register-Admits id h e in
      let request' : DeregisterRequest = record { service_id = id; secret = f.new_secret } in
      let owns : Owns md' request' token =
        (r', ground (arith, at id), ap (λ x. x.authentication_token) k, ap (λ x. x.secret) k) in
      (
        md',
        a,
        elim (deregister_iff md' request' token) [
          | inl (o, d, gone) ↦ (d, λ j. ground (arith, gone j, at j, n, ==_iff id j))
          | inr (not_owned, e, same) ↦ absurd (not_owned owns)
        ],
      )
