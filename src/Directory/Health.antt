-- ===== src/Directory/Health.antt =====
-- packages/cli/services/directory/grpcservers/healthCheck.go. The network is an argument: what the
-- TCP connection, the `Status` call and the `Version` call give in each round. Time is in nanoseconds,
-- a uint64. `nowHealthCheck` starts a goroutine for each id; the model runs them one after another, in
-- the order of the list. Waiting and the increase of the timeouts between rounds are left out.
pub mod Checks
use cogment.Prelude.{
  ℕ, zero, suc, ◌+◌, ◌-◌, ◌%◌, ◌^◌, Bool, true, false, Option, none, some, List, [], ◌∷◌, ◌==◌, ltb,
  leb, not, ◌&&◌, ◌||◌, if◌then◌else◌, id_key,
}
use cogment.Prelude.Dict.{lookup, insert}
use cogment.Directory.Db.{DbRecord, MemoryDb, select_by_id, delete_record, select_all_ids}

-- The outcome of each round's attempts at one service; `status` gives the load.
pub record Probe : Type 0 where
  pub tcp : ℕ → Bool
  pub status : ℕ → Option ℕ
  pub version : ℕ → Bool

abbrev pub tick_period : ℕ
tick_period = 100000000

abbrev pub health_check_period : ℕ
health_check_period = 60000000000

abbrev pub max_failed_health_checks : ℕ
max_failed_health_checks = 3

abbrev pub default_health_check_nb_rounds : ℕ
default_health_check_nb_rounds = 3

abbrev pub unserviceable_load : ℕ
unserviceable_load = 255

abbrev pub grpc_protocol : ℕ
grpc_protocol = 1

abbrev pub grpc_ssl_protocol : ℕ
grpc_ssl_protocol = 2

abbrev pub directory_service : ℕ
directory_service = 9

abbrev pub u64 : ℕ → ℕ
u64 n = n % 2 ^ 64

-- `now - last`, on uint64.
abbrev pub elapsed : ℕ → ℕ → ℕ
elapsed now last = u64 (now + 2 ^ 64 - last)

-- The rounds of a check that are left, the index of the next one, and whether `err` is nil.
unfoldable pub tcp_rounds : Probe → ℕ → ℕ → Bool → Bool
tcp_rounds p zero i success = success
tcp_rounds p (suc n) i success =
    let rest = tcp_rounds p n (i + 1) false in if p.tcp i then true else rest

unfoldable pub cogment_rounds : Probe → ℕ → ℕ → ℕ → Bool → ℕ × Bool
cogment_rounds p zero i load success = (load, success)
cogment_rounds p (suc n) i load success =
    let rest = cogment_rounds p n (i + 1) unserviceable_load false in
    elim (p.status i) [
      | some load' ↦ (load', true)
      | none ↦ if p.version i then (0, true) else rest
    ]

abbrev pub failed_once_more : DbRecord → DbRecord
failed_once_more r = record r { nb_failed_health_checks = u64 (r.nb_failed_health_checks + 1) }

abbrev pub passed : DbRecord → DbRecord
passed r = record r { nb_failed_health_checks = 0 }

abbrev pub outcome : DbRecord → Bool → DbRecord × Bool
outcome r true = (passed r, true)
outcome r false = (failed_once_more r, false)

abbrev pub cogment_outcome : DbRecord → ℕ × Bool → DbRecord × Bool
cogment_outcome r (load, success) = outcome (record r { machine_load = load }) success

unfoldable pub health_check : Probe → DbRecord → ℕ → ℕ → DbRecord × Bool
health_check p r now nb_rounds =
    let r' : DbRecord = record r { last_health_check_timestamp = now } in
    if ltb (elapsed now r.last_health_check_timestamp) tick_period
    then (r, r.nb_failed_health_checks == 0)
    else if r.permanent
    then (passed r', true)
    else if not (r.endpoint.protocol == grpc_protocol)
        && not (r.endpoint.protocol == grpc_ssl_protocol)
    then (passed r', true)
    else if ltb directory_service r.details.type || r.endpoint.protocol == grpc_ssl_protocol
    then outcome r' (tcp_rounds p nb_rounds 0 true)
    else cogment_outcome r' (cogment_rounds p nb_rounds 0 r.machine_load true)

-- A check writes to the record that the map points to; nothing is persisted.
abbrev pub write_back : MemoryDb → ℕ → DbRecord → MemoryDb
write_back md id r = record md { services = insert id r md.services }

abbrev pub after_check : MemoryDb → ℕ → Bool → DbRecord × Bool → MemoryDb
after_check md id immediate_removal (r, healthy) =
    if not healthy && (immediate_removal || leb max_failed_health_checks r.nb_failed_health_checks)
    then delete_record (write_back md id r) id
    else write_back md id r

-- The goroutine of one id.
unfoldable pub check_one : (ℕ → Probe) → ℕ → Bool → MemoryDb → ℕ → MemoryDb
check_one probes now immediate_removal md id = elim (select_by_id md id) [
  | none ↦ md
  | some r ↦
      if ltb (elapsed now r.last_health_check_timestamp) health_check_period
      then md
      else after_check md id immediate_removal
          (health_check (probes id) r now default_health_check_nb_rounds)
]

unfoldable pub check_each : (ℕ → Probe) → ℕ → Bool → MemoryDb → List ℕ → MemoryDb
check_each probes now immediate_removal md [] = md
check_each probes now immediate_removal md (id ∷ ids) =
    check_each probes now immediate_removal (check_one probes now immediate_removal md id) ids

unfoldable pub now_health_check : (ℕ → Probe) → ℕ → Bool → MemoryDb → MemoryDb
unfolding check_each
now_health_check probes now immediate_removal md =
    check_each probes now immediate_removal md (select_all_ids md)
