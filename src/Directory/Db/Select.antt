-- ===== src/Directory/Db/Select.antt =====
-- `SelectByDetails` of db.go, and what every operation keeps true of the map.
use mathlib.Core.Path.{subst}
use cogment.Prelude.{
  ℕ, ◌≡◌, ◌≢◌, refl, ap, ◌↔◌, ◌⊎◌, inl, inr, true, none, some, List, [], ◌∷◌, ◌==◌, arith, In,
  Bool-cases, Option-cases, id_key, ==_iff,
}
use cogment.Prelude.Dict.{
  lookup, insert, delete, lookup-insert, lookup-delete, KeysOnce, insert-KeysOnce, delete-KeysOnce,
}
use cogment.Directory.Db.{
  ServiceDetails, DbRecord, Services, MemoryDb, to_file, meets, get_new_service_id, select_by_id,
  select_from, select_by_details, insert_record, update_record, delete_record,
}
use cogment.Directory.Db.Laws.{
  Meets, meets_iff, services-to_file, get_new_service_id-fresh, stamped,
}

-- Each id once, never 0, and each record knows the id that it stands under.
pub record IsKeyed (m : Services) : Type 0 where
  pub once : KeysOnce m
  pub named : (id : ℕ) (r : DbRecord) → lookup id m ≡ some r → (r.sid ≡ id) × (id ≢ 0)

-- An id of the answer, and the record that put it there.
abbrev Found : ServiceDetails → Services → ℕ → Type 0
Found inquiry m id = (r : DbRecord) × (lookup id m ≡ some r) × Meets inquiry r

lookup-skip :
    (j id : ℕ) (r r' : DbRecord) (m : Services)
    → lookup j m ≡ none
    → lookup id m ≡ some r'
    → lookup id ((j, r) ∷ m) ≡ some r'
lookup-skip j id r r' m o l = elim (Bool-cases (j == id)) [
  | inl e ↦ let p : j ≡ id = (==_iff j id).0 e in absurd (cc (o, l, ap (λ x. lookup x m) p))
  | inr e ↦ unfold lookup in rw e l
]

select_from-Found :
    (inquiry : ServiceDetails) (m : Services) (id : ℕ)
    → KeysOnce m
    → In id (select_from inquiry m)
    → Found inquiry m id
unfolding select_from
select_from-Found inquiry [] id o i = absurd i
select_from-Found inquiry ((j, r) ∷ m) id o i = elim (Bool-cases (meets inquiry r)) [
  | inl e ↦ here e (select_from-Found inquiry m id o.1) (rw e at i)
  | inr e ↦ later (select_from-Found inquiry m id o.1 (rw e at i))
]
  where
    later : Found inquiry m id → Found inquiry ((j, r) ∷ m) id
    later (r', l, k) = (r', lookup-skip j id r r' m o.0 l, k)

    here :
        meets inquiry r ≡ true
        → (In id (select_from inquiry m) → Found inquiry m id)
        → (j ≡ id) ⊎ In id (select_from inquiry m)
        → Found inquiry ((j, r) ∷ m) id
    here e ih (inl p) = (r, unfold lookup in ground arith, (meets_iff inquiry r).0 e)
    here e ih (inr k) = later (ih k)

select_from_all :
    (inquiry : ServiceDetails) (m : Services) (id : ℕ) (r : DbRecord)
    → lookup id m ≡ some r
    → meets inquiry r ≡ true
    → In id (select_from inquiry m)
unfolding select_from lookup
select_from_all inquiry [] id r l k = cc
select_from_all inquiry ((j, r') ∷ m) id r l k = elim (Bool-cases (j == id)) [
  | inl e ↦ ground arith
  | inr e ↦ elim (Bool-cases (meets inquiry r')) [
    | inl e' ↦ rw e' (inr (select_from_all inquiry m id r (rw e at l) k))
    | inr e' ↦ rw e' (select_from_all inquiry m id r (rw e at l) k)
  ]
]

-- Where each id stands once, is not 0 and is known to its record, `SelectByDetails` returns exactly the
-- ids of the records that meet the inquiry.
pub select_by_details_iff :
    (md : MemoryDb) (inquiry : ServiceDetails) (id : ℕ)
    → IsKeyed md.services
    → In id (select_by_details md inquiry)
      ↔ ((r : DbRecord) × (select_by_id md id ≡ some r) × Meets inquiry r)
unfolding select_by_details select_by_id
select_by_details_iff md inquiry id v = (
  λ i. select_from-Found inquiry md.services id v.once i,
  λ f. select_from_all inquiry md.services id f.0 f.1 ((meets_iff inquiry f.0).1 f.2),
)

pub insert-IsKeyed :
    (m : Services) (id : ℕ) (r : DbRecord)
    → r.sid ≡ id
    → id ≢ 0
    → IsKeyed m
    → IsKeyed (insert id r m)
insert-IsKeyed m id r e z v = record {
  once = insert-KeysOnce id r m v.once;
  named = λ j r' h. ground (arith, lookup-insert id j r m, v.named j r', e, z);
}

delete-IsKeyed : (m : Services) (id : ℕ) → IsKeyed m → IsKeyed (delete id m)
delete-IsKeyed m id v = record {
  once = delete-KeysOnce id m v.once;
  named = λ j r' h. ground (arith, lookup-delete id j m, v.named j r');
}

to_file-IsKeyed : (md : MemoryDb) → IsKeyed md.services → IsKeyed (to_file md).0.services
to_file-IsKeyed md v = rw (services-to_file md) v

-- `Insert`, `Update` and `Delete` keep every id once, different from 0, and known to its record.
pub insert_record-IsKeyed :
    (md md' : MemoryDb) (r r' : DbRecord) (draws : List ℕ) (now : ℕ)
    → IsKeyed md.services
    → insert_record md r draws now ≡ some (md', r')
    → IsKeyed md'.services
unfolding insert_record
insert_record-IsKeyed md md' r r' draws now v h =
    elim (Option-cases (get_new_service_id md.services draws)) [
      | inl e ↦ absurd (ground arith)
      | inr (id, e) ↦
          let md1 : MemoryDb = record md { services = insert id (stamped r id now) md.services } in
          let p : (to_file md1).0 ≡ md' = ground arith in
          subst (λ d. IsKeyed d.services) p
            (to_file-IsKeyed md1 (
              insert-IsKeyed md.services id (stamped r id now) refl
                (get_new_service_id-fresh md.services draws id e).0 v))
    ]

pub update_record-IsKeyed :
    (md md' : MemoryDb) (id : ℕ) (r : DbRecord)
    → IsKeyed md.services
    → update_record md id r ≡ some md'
    → IsKeyed md'.services
unfolding update_record
update_record-IsKeyed md md' id r v h = elim (Option-cases (lookup id md.services)) [
  | inl e ↦ absurd (ground arith)
  | inr (old, e) ↦
      let md1 : MemoryDb = record md {
        services = insert id (stamped r id old.register_timestamp) md.services;
      } in
      let p : (to_file md1).0 ≡ md' = ground arith in
      subst (λ d. IsKeyed d.services) p
        (to_file-IsKeyed md1 (
          insert-IsKeyed md.services id (stamped r id old.register_timestamp) refl
            (v.named id old e).1 v))
]

pub delete_record-IsKeyed :
    (md : MemoryDb) (id : ℕ) → IsKeyed md.services → IsKeyed (delete_record md id).services
unfolding delete_record
delete_record-IsKeyed md id v =
    to_file-IsKeyed (record md { services = delete id md.services })
      (delete-IsKeyed md.services id v)
