-- ===== src/Directory/Examples.antt =====
-- The theorems on the directory (packages/cli/services/directory/grpcservers) at concrete inputs.
use cogment.Prelude.{
  ◌⊎◌, ℕ, ◌<◌, ◌≡◌, refl, ◌↔◌, inl, true, false, none, some, List, [], ◌∷◌, ◌==◌, if◌then◌else◌,
  arith, All, In, id_key,
}
use cogment.Prelude.Dict.{lookup}
use cogment.Utils.Filters.{selects_properties}
use cogment.Directory.Db.{
  ServiceEndpoint, ServiceDetails, DbRecord, Persistence, MemoryDb, make_memory_db,
  get_new_service_id, select_by_id, delete_record,
}
use cogment.Directory.Db.Laws.{stamped}
use cogment.Directory.Db.Select.{IsKeyed}
use cogment.Directory.Db.Restart.{SameRegistrations, deletes, restart}
use cogment.Directory.Health.{
  health_check, default_health_check_nb_rounds, Probe, now_health_check, unserviceable_load,
}
use cogment.Directory.Server.{
  ServerParameters, RegisterRequest, DeregisterRequest, DirectoryError, Fortune, ok, err, answers,
  register, deregister, new_record,
}
use cogment.Directory.Server.Update.{mine, Renews}
use cogment.Directory.Server.Registration.{IsValid, Owns, deregister_iff}
use cogment.Directory.Server.Admission.{
  admitted, Admits, admitted, register-Admits, register-Renews, register-deregister,
}
use cogment.Directory.Inquire.{
  service_id, details as details_of, World, more_recent, balance, db_inquire, inquire,
}
use cogment.Directory.Inquire.Order.{Sorted}
use cogment.Directory.Inquire.Low.{InRange, balance_iff}
use cogment.Directory.Inquire.Balance.{Serviceable}
use cogment.Directory.Inquire.Matches.{Sought, Available, Answered}
use cogment.Directory.Inquire.Sent.{inquire-Available, inquire-Sorted, register-inquire}
use cogment.Directory.Steps.{starts, steps, scans, deregisters}
use cogment.Directory.Steps.Reached.{Reach-IsKeyed}

abbrev host : ServiceEndpoint
host = record { protocol = 1; host = "model-registry"; port = 9002 }

abbrev actor : ServiceDetails
actor = record { type = 3; properties = ("class", "player") ∷ [] }

abbrev answering : Probe
answering = record { tcp = λ i. true; status = λ i. some 12; version = λ i. false }

abbrev silent : Probe
silent = record { tcp = λ i. false; status = λ i. none; version = λ i. false }

abbrev luck : Fortune
luck = record { now = 500000000; new_secret = "5ec"; draws = 0 ∷ 7 ∷ []; probe = answering }

abbrev plain : ServerParameters
plain = record {
  registration_lag = 2;
  load_balancing = false;
  check_on_inquire = false;
  force_permanent = false;
}

abbrev balanced : ServerParameters
balanced = record plain { load_balancing = true }

abbrev once : RegisterRequest
once = record { endpoint = some host; details = some actor; permanent = false }

abbrev always : RegisterRequest
always = record once { permanent = true }

abbrev empty : MemoryDb
empty = record { services = []; persistence_file = none }

abbrev player : DbRecord
player = stamped (new_record host actor true "token" "old") 7 100

abbrev one : MemoryDb
one = record { services = (7, player) ∷ []; persistence_file = none }

abbrev world : World
world = record {
  now = λ i. 1000000000;
  probes = λ i id. answering;
  others = λ i md. md;
  draw = λ i. 3;
}

host-IsValid : IsValid host actor
host-IsValid = record {
  host = λ e. absurd (cc e);
  protocol = (omega arith, omega arith);
  type = inl (omega arith, omega arith);
}

empty-IsKeyed : IsKeyed empty.services
unfolding lookup
empty-IsKeyed = record { once = tt; named = λ id r e. absurd (cc e) }

one-IsKeyed : IsKeyed one.services
unfolding lookup
one-IsKeyed = record { once = (refl, tt); named = λ id r e. ground arith }

one-there : select_by_id one 7 ≡ some player
unfolding select_by_id lookup
one-there = refl

player-mine : mine actor "token" (select_by_id one 7) ≡ true
unfolding select_by_id selects_properties lookup
player-mine = refl

seven : get_new_service_id empty.services luck.draws ≡ some 7
unfolding get_new_service_id lookup
seven = refl

Reach-IsKeyed_example :
    IsKeyed
      (deregister
        (now_health_check (λ id. silent) 70000000000 false one)
        (record { service_id = 7; secret = "old" })
        "token").0.services
Reach-IsKeyed_example =
    let scanned = now_health_check (λ id. silent) 70000000000 false one in
    let request : DeregisterRequest = record { service_id = 7; secret = "old" } in
    Reach-IsKeyed plain one (deregister scanned request "token").0
      (steps scanned (deregister scanned request "token").0
        (steps one scanned starts (scans one (λ id. silent) 70000000000 false))
        (deregisters scanned request "token"))
      one-IsKeyed

register-Admits_example :
    (md : MemoryDb) × (register plain empty once "token" luck ≡ answers (md, ok (7, "5ec")))
    × Admits empty 7 (admitted plain host actor false "token" luck 7) md
register-Admits_example =
    register-Admits plain empty once "token" luck host actor refl refl host-IsValid empty-IsKeyed 7
      (λ p. absurd (cc p)) seven

register-Renews_example :
    (md : MemoryDb) × (first : ℕ) × (r : DbRecord) × (select_by_id one first ≡ some r)
    × (mine actor "token" (some r) ≡ true)
    × (register plain one always "token" luck ≡ answers (md, ok (first, r.secret)))
    × Renews host actor "token" 500000000 one first r (md, ok (first, r.secret))
register-Renews_example =
    register-Renews plain one always "token" luck host actor refl refl host-IsValid one-IsKeyed 7
      refl player-mine

register-deregister_example :
    (md : MemoryDb) × (register plain empty once "token" luck ≡ answers (md, ok (7, "5ec")))
    × let (md', reply) = deregister md (record { service_id = 7; secret = "5ec" }) "token" in
      (reply ≡ ok tt) × ((j : ℕ) → select_by_id md' j ≡ select_by_id empty j)
register-deregister_example =
    register-deregister plain empty once "token" luck host actor refl refl host-IsValid
      empty-IsKeyed 7 (λ p. absurd (cc p)) seven

leaving : DeregisterRequest
leaving = record { service_id = 7; secret = "old" }

deregister_iff_example :
    let (md', reply) = deregister one leaving "token" in
    (Owns one leaving "token"
      × (reply ≡ ok tt)
      × ((j : ℕ)
          → select_by_id md' j ≡ (if leaving.service_id == j then none else select_by_id one j)))
    ⊎ (¬ Owns one leaving "token" × ((e : DirectoryError) × (reply ≡ err e)) × (md' ≡ one))
deregister_iff_example = deregister_iff one leaving "token"

abbrev nowhere : ServiceEndpoint
nowhere = record host { host = "" }

abbrev lost : RegisterRequest
lost = record once { endpoint = some nowhere }

player-Available : Available "token" player
player-Available = (refl, refl)

inquire-Sorted_example :
    (rs : List DbRecord) × (inquire plain world (service_id 7) "token" one ≡ (one, ok rs))
    × Sorted more_recent rs
    × ((x : DbRecord) → In x rs ↔ (Sought one (service_id 7) x × Available "token" x))
inquire-Sorted_example =
    inquire-Sorted plain world (service_id 7) "token" one refl one-IsKeyed (λ e. cc e) player
      one-there player-Available refl

abbrev busy : DbRecord
busy = record player { machine_load = 255 }

abbrev loads : List DbRecord
loads = busy ∷ record player { machine_load = 40 } ∷ record player { machine_load = 50 } ∷ []

balance_iff_example : In busy (balance (λ i. 1) loads) ↔ (
    In busy loads
    × (Serviceable loads → busy.machine_load < unserviceable_load)
    × InRange busy loads)
balance_iff_example = balance_iff (λ i. 1) loads busy

inquire-Available_example :
    Answered (All (Available "token")) (inquire balanced world (details_of actor) "token" one).1
inquire-Available_example = inquire-Available balanced world (details_of actor) "token" one

register-inquire_example :
    (md : MemoryDb) × (register plain empty once "token" luck ≡ answers (md, ok (7, "5ec")))
    × (r : DbRecord) × (select_by_id md 7 ≡ some r)
    × (r.endpoint ≡ host)
    × (r.details ≡ actor)
    × (db_inquire plain (λ id. silent) 900000000 md (service_id 7) "token" ≡ (
      md,
      ok (
          if (health_check answering
            (admitted plain host actor false "token" luck 7)
            500000000
            default_health_check_nb_rounds).1
          then r ∷ []
          else []),
    ))
register-inquire_example =
    register-inquire plain empty once "token" luck host actor (λ id. silent) 900000000 7 refl refl
      host-IsValid empty-IsKeyed refl refl seven

abbrev saved : Persistence
saved = record { content = one.services; writable = true }

abbrev kept_in_file : MemoryDb
kept_in_file = record one { persistence_file = some saved }

restart_example :
    SameRegistrations
      (make_memory_db (delete_record kept_in_file 7).persistence_file).services
      (delete_record kept_in_file 7).services
restart_example = restart kept_in_file (delete_record kept_in_file 7) saved refl refl (deletes 7)

abbrev passing : DbRecord
passing = record player { permanent = false; nb_failed_health_checks = 1 }

abbrev guests : MemoryDb
guests = record one { services = (7, passing) ∷ [] }

guests-there : select_by_id guests 7 ≡ some passing
unfolding select_by_id lookup
guests-there = refl

nine_free : lookup 9 one.services ≡ none
unfolding lookup
nine_free = refl
