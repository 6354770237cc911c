-- ===== src/Directory/Db.antt =====
-- packages/cli/services/directory/grpcservers/db.go. A request holds the mutex for the whole of an
-- operation. The persistence file, if there is one, holds the map that was last written: encoding it
-- as JSON and reading it back is the standard library's. `writable` tells whether writes succeed;
-- where they fail, the code logs the error and goes on.
pub mod Laws
pub mod Select
pub mod Restart
use cogment.Prelude.{
  ℕ, suc, ◌+◌, String, Bool, true, false, Option, none, some, List, [], ◌∷◌, ◌==◌, not, ◌&&◌, ◌||◌,
  if◌then◌else◌, str_eq, id_key, string_key,
}
use cogment.Prelude.Dict.{Dict, lookup, insert, delete, keys}
use cogment.Utils.Filters.{selects_properties}

-- An enum of the API is its number.
pub record ServiceEndpoint : Type 0 where
  pub protocol : ℕ
  pub host : String
  pub port : ℕ

pub record ServiceDetails : Type 0 where
  pub type : ℕ
  pub properties : Dict String String

pub record DbRecord : Type 0 where
  pub sid : ℕ
  pub register_timestamp : ℕ
  pub last_health_check_timestamp : ℕ
  pub nb_failed_health_checks : ℕ
  pub machine_load : ℕ
  pub permanent : Bool
  pub authentication_token : String
  pub secret : String
  pub endpoint : ServiceEndpoint
  pub details : ServiceDetails

abbrev pub Services : Type 0
Services = Dict ℕ DbRecord

pub record Persistence : Type 0 where
  pub content : Services
  pub writable : Bool

pub record MemoryDb : Type 0 where
  pub services : Services  -- the field `data`
  pub persistence_file : Option Persistence

abbrev pub unknown_service : ℕ
unknown_service = 0

-- Without a file, a write does nothing and succeeds. The result tells whether it succeeded.
unfoldable pub to_file : MemoryDb → MemoryDb × Bool
to_file md = elim md.persistence_file [
  | none ↦ (md, true)
  | some file ↦
      if file.writable
      then (record md { persistence_file = some (record file { content = md.services }) }, true)
      else (md, false)
]

-- A record that was read from a file is unhealthy until it is checked.
abbrev pub reloaded : DbRecord → DbRecord
reloaded r = record r { last_health_check_timestamp = 0; nb_failed_health_checks = 1 }

unfoldable pub reload : Services → Services
reload [] = []
reload ((id, r) ∷ m) = (id, reloaded r) ∷ reload m

-- A new database, from a file that holds what an earlier one wrote, or from none. An empty file holds
-- an empty map.
unfoldable pub make_memory_db : Option Persistence → MemoryDb
unfolding reload
make_memory_db none = record { services = []; persistence_file = none }
make_memory_db (some file) = record { services = reload file.content; persistence_file = some file }

abbrev pub is_new : Option DbRecord → Bool
is_new none = true
is_new (some r) = false

-- The loop draws until a number is fit; the list has the draws. `none`: it is still drawing.
unfoldable pub get_new_service_id : Services → List ℕ → Option ℕ
get_new_service_id m [] = none
get_new_service_id m (id ∷ draws) =
    if not (id == 0) && is_new (lookup id m) then some id else get_new_service_id m draws

unfoldable pub select_all_ids : MemoryDb → List ℕ
select_all_ids md = keys md.services

unfoldable pub select_by_id : MemoryDb → ℕ → Option DbRecord
select_by_id md id = lookup id md.services

-- The test of one record against an inquiry.
abbrev pub meets : ServiceDetails → DbRecord → Bool
meets inquiry r =
    if not (inquiry.type == unknown_service) && not (r.details.type == inquiry.type)
    then false
    else selects_properties inquiry.properties r.details.properties

unfoldable pub select_from : ServiceDetails → Services → List ℕ
select_from inquiry [] = []
select_from inquiry ((id, r) ∷ m) =
    let rest = select_from inquiry m in if meets inquiry r then id ∷ rest else rest

unfoldable pub select_by_details : MemoryDb → ServiceDetails → List ℕ
unfolding select_from
select_by_details md inquiry = select_from inquiry md.services

-- `Insert` mutates the record that it is given; the caller reads the new id from it.
unfoldable pub insert_record : MemoryDb → DbRecord → List ℕ → ℕ → Option (MemoryDb × DbRecord)
unfolding to_file
insert_record md r draws now = elim (get_new_service_id md.services draws) [
  | none ↦ none
  | some id ↦
      let r' : DbRecord = record r { sid = id; register_timestamp = now } in
      some ((to_file (record md { services = insert id r' md.services })).0, r')
]

-- `none`: the id to update is unknown.
unfoldable pub update_record : MemoryDb → ℕ → DbRecord → Option MemoryDb
unfolding to_file
update_record md id r = elim (lookup id md.services) [
  | none ↦ none
  | some old ↦
      let r' : DbRecord = record r { sid = id; register_timestamp = old.register_timestamp } in
      some (to_file (record md { services = insert id r' md.services })).0
]

unfoldable pub delete_record : MemoryDb → ℕ → MemoryDb
unfolding to_file
delete_record md id = (to_file (record md { services = delete id md.services })).0

unfoldable pub save : MemoryDb → MemoryDb × Bool
unfolding to_file
save md = to_file md
