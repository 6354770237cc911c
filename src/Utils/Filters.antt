-- ===== src/Utils/Filters.antt =====
-- packages/cli/utils: idFilter.go and propertiesFilter.go. A set is a map to the empty struct.
use cogment.Prelude.{
  ◌≡◌, refl, ◌↔◌, ◌⊎◌, inl, inr, String, Bool, true, false, Option, none, some, List, [], ◌∷◌, ◌==◌,
  ◌&&◌, if◌then◌else◌, str_eq, eq_iff, arith, length, In, Option-cases, string_key,
}
use cogment.Prelude.Dict.{Dict, lookup, insert, lookup-insert}

abbrev pub IdFilter : Type 0
IdFilter = Dict String (Unit {0})

add_ids : IdFilter → List String → IdFilter
add_ids set [] = set
add_ids set (id ∷ ids) = add_ids (insert id tt set) ids

unfoldable pub new_id_filter : List String → IdFilter
unfolding add_ids
new_id_filter selected_ids = add_ids [] selected_ids

abbrev pub is_some {ℓ} : {A : Type ℓ} → Option A → Bool
is_some none = false
is_some (some a) = true

abbrev pub selects_all : IdFilter → Bool
selects_all f = length f == 0

unfoldable pub selects : IdFilter → String → Bool
selects f id = if length f == 0 then true else is_some (lookup id f)

abbrev pub PropertiesFilter : Type 0
PropertiesFilter = Dict String String

-- The test of one entry of the filter.
abbrev has_value : Option String → String → Bool
has_value none value = false
has_value (some prop_value) value = str_eq prop_value value

-- The loop returns at the first entry that is missing or differs.
unfoldable pub selects_properties : PropertiesFilter → Dict String String → Bool
selects_properties [] properties = true
selects_properties ((key, value) ∷ filter) properties =
    has_value (lookup key properties) value && selects_properties filter properties

is_some-add_ids :
    (ids : List String) (set : IdFilter) (id : String)
    → is_some (lookup id (add_ids set ids)) ≡ true ↔ (In id ids ⊎ (is_some (lookup id set) ≡ true))
unfolding add_ids
is_some-add_ids [] set id = (λ h. inr h, λ h. elim h [ inl x ↦ absurd x | inr y ↦ y ])
is_some-add_ids (i ∷ ids) set id =
    ground (arith, is_some-add_ids ids (insert i tt set) id, lookup-insert i id tt set, eq_iff i id)

length-insert : (id : String) (set : IdFilter) → (length (insert id tt set) == 0) ≡ false
unfolding insert
length-insert id [] = refl
length-insert id ((j, u) ∷ set) = ground arith

length-add_ids :
    (ids : List String) (set : IdFilter)
    → (length set == 0) ≡ false
    → (length (add_ids set ids) == 0) ≡ false
unfolding add_ids
length-add_ids [] set h = h
length-add_ids (i ∷ ids) set h = length-add_ids ids (insert i tt set) (length-insert i set)

-- A filter made of a list of ids selects exactly the ids of the list, and every id if the list is
-- empty.
pub selects-new_id_filter :
    (ids : List String) (id : String)
    → (selects (new_id_filter ids) id ≡ true) ↔ ((ids ≡ []) ⊎ In id ids)
unfolding selects new_id_filter lookup
selects-new_id_filter [] id = (λ h. inl refl, λ h. refl)
selects-new_id_filter (i ∷ ids) id = ground (
  arith,
  length-add_ids ids (insert i tt []) (length-insert i []),
  is_some-add_ids ids (insert i tt []) id,
  lookup-insert {V = Unit {0}} i id tt [],
  eq_iff i id,
)

-- Every entry of the filter is an entry of the properties.
abbrev pub Matches : PropertiesFilter → Dict String String → Type 0
Matches [] properties = Unit
Matches ((key, value) ∷ filter) properties =
    (lookup key properties ≡ some value) × Matches filter properties

-- A properties filter selects exactly the properties that have each of its entries.
pub selects_properties_iff :
    (filter : PropertiesFilter) (properties : Dict String String)
    → (selects_properties filter properties ≡ true) ↔ Matches filter properties
unfolding selects_properties
selects_properties_iff [] properties = (λ h. tt, λ h. refl)
selects_properties_iff ((key, value) ∷ filter) properties =
    elim (Option-cases (lookup key properties)) [
      | inl e ↦ rw e (ground arith)
      | inr (v, e) ↦ rw e (ground (arith, eq_iff v value, selects_properties_iff filter properties))
    ]
