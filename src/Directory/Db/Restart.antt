-- ===== src/Directory/Db/Restart.antt =====
-- What the persistence file of db.go gives back to a directory that starts again.
use mathlib.Core.Option
use mathlib.Core.Bool.{false≢true}
use mathlib.Core.Path.{subst}
use cogment.Prelude.{
  inl, inr, List, Option-cases, ℕ, ◌≡◌, refl, Bool, true, false, Option, none, some, [], ◌∷◌, arith,
  id_key,
}
use cogment.Prelude.Dict.{lookup, insert, delete}
use cogment.Directory.Db.Laws.{stamped}
use cogment.Directory.Db.{
  DbRecord, Services, Persistence, MemoryDb, to_file, reloaded, reload, make_memory_db,
  insert_record, update_record, delete_record, get_new_service_id, save,
}

-- A record without what health checks write, which is not consistently persisted.
abbrev pub registration : DbRecord → DbRecord
registration r = record r {
  last_health_check_timestamp = 0;
  nb_failed_health_checks = 1;
  machine_load = 0;
}

pub record SameRegistrations (m m' : Services) : Type 0 where
  pub at : (id : ℕ) → Option.map registration (lookup id m) ≡ Option.map registration (lookup id m')

-- The file, if writes to it succeed, has the registrations of the memory.
abbrev pub FileHas : Option Persistence → Services → Type 0
FileHas none m = Unit
FileHas (some file) m = file.writable ≡ true → SameRegistrations file.content m

abbrev pub IsSaved : MemoryDb → Type 0
IsSaved md = FileHas md.persistence_file md.services

-- Every write leaves the file as the memory is, if writes to it succeed.
pub to_file-IsSaved : (md : MemoryDb) → IsSaved (to_file md).0
unfolding to_file
to_file-IsSaved md = by_file md.services md.persistence_file
  where
    written :
        (m c : Services) (w : Bool)
        → IsSaved
            (to_file (record {
              services = m;
              persistence_file = some (record { content = c; writable = w });
            })).0
    written m c true = λ e. record { at = λ id. refl }
    written m c false = λ e. absurd (false≢true e)

    by_file :
        (m : Services) (o : Option Persistence)
        → IsSaved (to_file (record { services = m; persistence_file = o })).0
    by_file m none = tt
    by_file m (some file) = written m file.content file.writable

pub lookup-reload :
    (m : Services) (id : ℕ) → lookup id (reload m) ≡ Option.map reloaded (lookup id m)
unfolding lookup reload
lookup-reload [] id = refl
lookup-reload ((j, r) ∷ m) id = ground (arith, lookup-reload m id)

forget_reloaded :
    (o o' : Option DbRecord)
    → Option.map registration o ≡ Option.map registration o'
    → Option.map registration (Option.map reloaded o) ≡ Option.map registration o'
forget_reloaded none none h = refl
forget_reloaded none (some r) h = h
forget_reloaded (some r) none h = absurd (cc h)
forget_reloaded (some r) (some r') h = h

reload_saved :
    (md : MemoryDb) (file : Persistence)
    → md.persistence_file ≡ some file
    → file.writable ≡ true
    → IsSaved md
    → SameRegistrations (make_memory_db md.persistence_file).services md.services
unfolding make_memory_db
reload_saved md file e w s = from md.persistence_file e s
  where
    from :
        (o : Option Persistence)
        → o ≡ some file
        → FileHas o md.services
        → SameRegistrations (make_memory_db o).services md.services
    from none p h = absurd (cc p)
    from (some f) p h = record {
      at = λ id.
          let same = h (ground arith) in
          rw (lookup-reload f.content id)
            (forget_reloaded (lookup id f.content) (lookup id md.services) (same.at id));
    }

-- A change of the database that writes the file.
pub data Write (md : MemoryDb) : MemoryDb → Type 0 where
  inserts :
      (md' : MemoryDb) (r r' : DbRecord) (draws : List ℕ) (now : ℕ)
      → insert_record md r draws now ≡ some (md', r')
      → Write md md'
  updates :
      (md' : MemoryDb) (id : ℕ) (r : DbRecord) → update_record md id r ≡ some md' → Write md md'
  deletes : (id : ℕ) → Write md (delete_record md id)
  saves : Write md (save md).0

abbrev Restarts : MemoryDb → Type 0
Restarts md = SameRegistrations (make_memory_db md.persistence_file).services md.services

-- Any map that is written is read back.
written_back :
    (md : MemoryDb) (file : Persistence) (m : Services)
    → md.persistence_file ≡ some file
    → file.writable ≡ true
    → Restarts (to_file (record md { services = m })).0
written_back md file m e w =
    let md1 : MemoryDb = record md { services = m } in
    let kept : (to_file md1).0.persistence_file ≡ some (record file { content = m }) =
      unfold to_file in rw (e, w) refl in
    reload_saved (to_file md1).0 (record file { content = m }) kept w (to_file-IsSaved md1)

-- After any change of a directory with a file to which writes succeed, a directory that starts again from
-- the file has every registration of the one before, and nothing else.
pub restart :
    (md md' : MemoryDb) (file : Persistence)
    → md.persistence_file ≡ some file
    → file.writable ≡ true
    → Write md md'
    → SameRegistrations (make_memory_db md'.persistence_file).services md'.services
unfolding insert_record update_record delete_record save
restart md md' file e w (inserts _ r r' draws now h) =
    elim (Option-cases (get_new_service_id md.services draws)) [
      | inl n ↦ absurd (ground arith)
      | inr (id, n) ↦
          let m = insert id (stamped r id now) md.services in
          let p : (to_file (record md { services = m })).0 ≡ md' = ground arith in
          subst Restarts p (written_back md file m e w)
    ]
restart md md' file e w (updates _ id r h) = elim (Option-cases (lookup id md.services)) [
  | inl n ↦ absurd (ground arith)
  | inr (old, n) ↦
      let m = insert id (stamped r id old.register_timestamp) md.services in
      let p : (to_file (record md { services = m })).0 ≡ md' = ground arith in
      subst Restarts p (written_back md file m e w)
]
restart md md' file e w (deletes id) = written_back md file (delete id md.services) e w
restart md md' file e w saves = written_back md file md.services e w
