-- ===== src/Directory/Server.antt =====
-- packages/cli/services/directory/grpcservers/directoryServer.go: registration and deregistration. The
-- time, the secret, the drawn ids and the network of each request are arguments. A request may lack
-- its endpoint or its details (`nil`): the handler then stops the process (`panics`).
pub mod Registration
pub mod Renewal
pub mod Update
pub mod Admission
use cogment.Prelude.{
  ℕ, suc, ◌+◌, String, Bool, true, false, Option, none, some, List, [], ◌∷◌, ◌==◌, ltb, not, ◌&&◌,
  ◌||◌, if◌then◌else◌, str_eq, id_key,
}
use cogment.Directory.Db.{
  ServiceEndpoint, ServiceDetails, DbRecord, MemoryDb, select_by_id, select_by_details,
  insert_record, update_record, delete_record,
}
use cogment.Directory.Health.{
  Probe, health_check, default_health_check_nb_rounds, write_back, directory_service,
}

pub record ServerParameters : Type 0 where
  pub registration_lag : ℕ
  pub load_balancing : Bool
  pub check_on_inquire : Bool
  pub force_permanent : Bool

pub record RegisterRequest : Type 0 where
  pub endpoint : Option ServiceEndpoint
  pub details : Option ServiceDetails
  pub permanent : Bool

pub record DeregisterRequest : Type 0 where
  pub service_id : ℕ
  pub secret : String

-- What the rest of the world contributes to one registration.
pub record Fortune : Type 0 where
  pub now : ℕ
  pub new_secret : String
  pub draws : List ℕ
  pub probe : Probe

pub data DirectoryError : Type 0 where
  empty_host invalid_protocol invalid_service_type : DirectoryError
  unknown_id authentication_failure empty_request : DirectoryError
  update_failed : ℕ → DirectoryError

pub data Result {ℓ} (A : Type ℓ) : Type ℓ where
  ok : A → Result A
  err : DirectoryError → Result A

-- `RegisterReply`: `OK` with the id and the secret, or `FAILED` with the message's error.
abbrev pub RegisterReply : Type 0
RegisterReply = Result (ℕ × String)

-- A handler answers, panics, or is still drawing an id.
pub data Outcome {ℓ} (A : Type ℓ) : Type ℓ where
  answers : A → Outcome A
  panics : Outcome A
  draws_on : Outcome A

-- The state of the loop of `dbUpdate`, or its early return.
pub data Renewing : Type 0 where
  goes : MemoryDb → ℕ → String → Renewing
  stops : MemoryDb → DirectoryError → Renewing

abbrev pub renewed : ServiceEndpoint → ServiceDetails → DbRecord → ℕ → DbRecord
renewed endpoint details r now = record {
  sid = 0;
  register_timestamp = 0;
  last_health_check_timestamp = now;
  nb_failed_health_checks = 0;
  machine_load = 0;
  permanent = r.permanent;
  authentication_token = r.authentication_token;
  secret = r.secret;
  endpoint = endpoint;
  details = details;
}

module _ (endpoint : ServiceEndpoint) (details : ServiceDetails) (permanent : Bool) (token : String)
    (now : ℕ) where
  unfoldable pub after_update : MemoryDb → ℕ → String → Option MemoryDb → Renewing
  after_update md id secret none = stops md (update_failed id)
  after_update md id secret (some md') = goes md' id secret

  unfoldable pub renew_found : MemoryDb → ℕ → String → ℕ → Option DbRecord → Renewing
  unfolding after_update
  renew_found md updated_id secret id none = goes md updated_id secret
  renew_found md updated_id secret id (some r) =
      if not permanent
      then goes md updated_id secret
      else if not (str_eq r.authentication_token token)
      then goes md updated_id secret
      else if not (updated_id == 0)
      then goes (delete_record md id) updated_id secret
      else after_update md id r.secret (update_record md id (renewed endpoint details r now))

  unfoldable pub renew_step : MemoryDb → ℕ → String → ℕ → Renewing
  unfolding renew_found
  renew_step md updated_id secret id = renew_found md updated_id secret id (select_by_id md id)

  unfoldable pub renew_each : List ℕ → MemoryDb → ℕ → String → MemoryDb × Result (ℕ × String)
  renew_each [] md updated_id secret = (md, ok (updated_id, secret))
  renew_each (id ∷ ids) md updated_id secret = elim (renew_step md updated_id secret id) [
    | goes md' updated_id' secret' ↦ renew_each ids md' updated_id' secret'
    | stops md' e ↦ (md', err e)
  ]

-- The id 0 stands for: no service was updated.
unfoldable pub db_update :
    ServerParameters
    → MemoryDb
    → ServiceEndpoint
    → ServiceDetails
    → Bool
    → String
    → ℕ
    → MemoryDb × Result (ℕ × String)
unfolding renew_each renew_step
db_update params md endpoint details permanent token now =
    if not permanent
    then (md, ok (0, ""))
    else renew_each endpoint details (params.force_permanent || permanent) token now
        (select_by_details md details) md 0 ""

abbrev pub new_record : ServiceEndpoint → ServiceDetails → Bool → String → String → DbRecord
new_record endpoint details permanent token secret = record {
  sid = 0;
  register_timestamp = 0;
  last_health_check_timestamp = 0;
  nb_failed_health_checks = 0;
  machine_load = 0;
  permanent = permanent;
  authentication_token = token;
  secret = secret;
  endpoint = endpoint;
  details = details;
}

-- The record is in the map when its health is checked, so the check's writes show there.
abbrev pub after_insert : Probe → Option (MemoryDb × DbRecord) → Option (MemoryDb × ℕ × String)
after_insert probe none = none
after_insert probe (some (md, r)) =
    let r' = (health_check probe r r.register_timestamp default_health_check_nb_rounds).0 in
    some (write_back md r.sid r', r.sid, r.secret)

unfoldable pub db_register :
    ServerParameters
    → MemoryDb
    → ServiceEndpoint
    → ServiceDetails
    → Bool
    → String
    → Fortune
    → Option (MemoryDb × ℕ × String)
db_register params md endpoint details permanent token f = after_insert f.probe (
    insert_record md
      (new_record endpoint details (params.force_permanent || permanent) token f.new_secret) f.draws
      f.now)

unfoldable pub db_deregister :
    MemoryDb → DeregisterRequest → String → MemoryDb × Option DirectoryError
db_deregister md request token = elim (select_by_id md request.service_id) [
  | none ↦ (md, some unknown_id)
  | some r ↦
      if not (str_eq r.authentication_token token) || not (str_eq r.secret request.secret)
      then (md, some authentication_failure)
      else (delete_record md request.service_id, none)
]

abbrev pub other_service : ℕ
other_service = 100

-- The service types from the trial life cycle to the directory, and `OTHER_SERVICE`.
abbrev pub bad_service_type : ℕ → Bool
bad_service_type t = (ltb t 1 || ltb directory_service t) && not (t == other_service)

abbrev pub bad_protocol : ℕ → Bool
bad_protocol p = ltb p 1 || ltb 3 p

abbrev pub registered :
    MemoryDb → Option (MemoryDb × ℕ × String) → Outcome (MemoryDb × RegisterReply)
registered md none = draws_on
registered md (some (md', id, secret)) = answers (md', ok (id, secret))

abbrev pub updated :
    MemoryDb × Result (ℕ × String)
    → (MemoryDb → Outcome (MemoryDb × RegisterReply))
    → Outcome (MemoryDb × RegisterReply)
updated (md, err e) registers = answers (md, err e)
updated (md, ok (id, secret)) registers =
    if not (id == 0) then answers (md, ok (id, secret)) else registers md

unfoldable pub register_valid :
    ServerParameters
    → MemoryDb
    → ServiceEndpoint
    → ServiceDetails
    → Bool
    → String
    → Fortune
    → Outcome (MemoryDb × RegisterReply)
unfolding db_update db_register
register_valid params md endpoint details permanent token f =
    updated (db_update params md endpoint details permanent token f.now)
      (λ md'. registered md' (db_register params md' endpoint details permanent token f))

unfoldable pub register_given :
    ServerParameters
    → MemoryDb
    → Bool
    → String
    → Fortune
    → ServiceEndpoint
    → ServiceDetails
    → Outcome (MemoryDb × RegisterReply)
unfolding register_valid
register_given params md permanent token f endpoint details =
    if str_eq endpoint.host ""
    then answers (md, err empty_host)
    else if bad_protocol endpoint.protocol
    then answers (md, err invalid_protocol)
    else if bad_service_type details.type
    then answers (md, err invalid_service_type)
    else register_valid params md endpoint details permanent token f

-- One turn of the loop of `Register`.
unfoldable pub register :
    ServerParameters
    → MemoryDb
    → RegisterRequest
    → String
    → Fortune
    → Outcome (MemoryDb × RegisterReply)
unfolding register_given
register params md request token f = elim request.endpoint [
  | none ↦ panics
  | some endpoint ↦ elim request.details [
    | none ↦ panics
    | some details ↦ register_given params md request.permanent token f endpoint details
  ]
]

-- One turn of the loop of `Deregister`.
unfoldable pub deregister : MemoryDb → DeregisterRequest → String → MemoryDb × Result (Unit {0})
unfolding db_deregister
deregister md request token =
    let (md', e) = db_deregister md request token in (md', elim e [ none ↦ ok tt | some x ↦ err x ])
