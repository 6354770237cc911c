-- ===== src/Directory/Db/Laws.antt =====
-- What the operations of db.go do to the records, as `SelectByID` and `SelectByDetails` show them.
use mathlib.Core.Path.{subst}
use mathlib.Core.Bool.{false≢true}
use cogment.Prelude.{
  ℕ, ◌≡◌, ◌≢◌, refl, sym, ◌∙◌, ◌↔◌, ◌⊎◌, inl, inr, true, false, none, some, List, [], ◌∷◌, ◌==◌,
  not, ◌&&◌, if◌then◌else◌, arith, In, Bool-cases, Option-cases, id_key,
}
use cogment.Prelude.Dict.{lookup, insert, delete, lookup-insert, lookup-delete}
use cogment.Directory.Db.{
  ServiceDetails, DbRecord, Services, MemoryDb, to_file, meets, is_new, get_new_service_id,
  select_by_id, insert_record, update_record, delete_record, unknown_service,
}
use cogment.Utils.Filters.{Matches, selects_properties_iff}

pub services-to_file : (md : MemoryDb) → (to_file md).0.services ≡ md.services
unfolding to_file
services-to_file md = ground arith

drawn :
    (m : Services) (d id : ℕ)
    → (not (d == 0) && is_new (lookup d m)) ≡ true
    → d ≡ id
    → (id ≢ 0) × (lookup id m ≡ none)
drawn m d id e p = elim (Option-cases (lookup d m)) [
  | inl n ↦ (λ z. ground arith, subst (λ i. lookup i m ≡ none) p n)
  | inr (r, n) ↦ absurd (ground arith)
]

-- The new id is not 0 and not in use, whatever numbers are drawn.
pub get_new_service_id-fresh :
    (m : Services) (draws : List ℕ) (id : ℕ)
    → get_new_service_id m draws ≡ some id
    → (id ≢ 0) × (lookup id m ≡ none)
unfolding get_new_service_id
get_new_service_id-fresh m [] id h = cc
get_new_service_id-fresh m (d ∷ draws) id h =
    elim (Bool-cases (not (d == 0) && is_new (lookup d m))) [
      | inr e ↦ get_new_service_id-fresh m draws id (rw e at h)
      | inl e ↦ drawn m d id e (ground arith)
    ]

fit :
    (m : Services) (d : ℕ)
    → d ≢ 0
    → lookup d m ≡ none
    → (not (d == 0) && is_new (lookup d m)) ≡ true
fit m d z n = rw n (ground arith)

-- The loop ends as soon as a number is drawn that is not 0 and not in use.
get_new_service_id-ends :
    (m : Services) (draws : List ℕ) (d : ℕ)
    → In d draws
    → d ≢ 0
    → lookup d m ≡ none
    → (id : ℕ) × (get_new_service_id m draws ≡ some id)
unfolding get_new_service_id
get_new_service_id-ends m [] d i z n = absurd i
get_new_service_id-ends m (d' ∷ draws) d i z n =
    elim (Bool-cases (not (d' == 0) && is_new (lookup d' m))) [
      | inl e ↦ (d', rw e refl)
      | inr e ↦ rw e (get_new_service_id-ends m draws d (others e i) z n)
    ]
  where
    others : (not (d' == 0) && is_new (lookup d' m)) ≡ false → (d' ≡ d) ⊎ In d draws → In d draws
    others e (inr j) = j
    others e (inl p) = absurd (
        false≢true
          (sym e ∙ subst (λ x. (not (x == 0) && is_new (lookup x m)) ≡ true) (sym p) (fit m d z n)))

abbrev pub stamped : DbRecord → ℕ → ℕ → DbRecord
stamped r id now = record r { sid = id; register_timestamp = now }

-- `Insert` stores the record under a new id, which was free and is not 0, with the time of its
-- registration; what is found under every other id is unchanged.
pub insert_record_lem :
    (md : MemoryDb) (r : DbRecord) (draws : List ℕ) (now id : ℕ)
    → get_new_service_id md.services draws ≡ some id
    → (md' : MemoryDb) × (insert_record md r draws now ≡ some (md', stamped r id now))
      × (id ≢ 0)
      × (select_by_id md id ≡ none)
      × ((j : ℕ)
          → select_by_id md' j ≡ (if id == j then some (stamped r id now) else select_by_id md j))
unfolding insert_record select_by_id
insert_record_lem md r draws now id e =
    let r' = stamped r id now in
    let md1 : MemoryDb = record md { services = insert id r' md.services } in
    let fresh = get_new_service_id-fresh md.services draws id e in
    (
      (to_file md1).0,
      rw (e, insert_record) refl,
      fresh.0,
      fresh.1,
      λ j. rw (services-to_file md1) (lookup-insert id j r' md.services),
    )

-- `Update` keeps the id and the time of the first registration, and changes no other record.
pub update_record_lem :
    (md : MemoryDb) (id : ℕ) (r old : DbRecord)
    → select_by_id md id ≡ some old
    → (md' : MemoryDb) × (update_record md id r ≡ some md')
      × ((j : ℕ)
          → select_by_id md' j
            ≡ (if id == j then some (stamped r id old.register_timestamp) else select_by_id md j))
unfolding update_record select_by_id
update_record_lem md id r old e =
    let r' = stamped r id old.register_timestamp in
    let md1 : MemoryDb = record md { services = insert id r' md.services } in
    (
      (to_file md1).0,
      rw (e, update_record) refl,
      λ j. rw (services-to_file md1) (lookup-insert id j r' md.services),
    )

-- Deleting an id removes it alone.
pub select-delete_record :
    (md : MemoryDb) (id j : ℕ)
    → select_by_id (delete_record md id) j ≡ (if id == j then none else select_by_id md j)
unfolding delete_record select_by_id
select-delete_record md id j =
    rw (services-to_file (record md { services = delete id md.services }))
      (lookup-delete id j md.services)

-- What an inquiry asks of a record: the type, unless it leaves it open, and each of its properties.
pub record Meets (inquiry : ServiceDetails) (r : DbRecord) : Type 0 where
  pub type : inquiry.type ≢ unknown_service → r.details.type ≡ inquiry.type
  pub properties : Matches inquiry.properties r.details.properties

pub meets_iff :
    (inquiry : ServiceDetails) (r : DbRecord) → (meets inquiry r ≡ true) ↔ Meets inquiry r
meets_iff inquiry r = (
  λ h. record {
    type = λ n. ground arith;
    properties = ground (arith, selects_properties_iff inquiry.properties r.details.properties);
  },
  λ h. ground (arith, selects_properties_iff inquiry.properties r.details.properties, h.type),
)
