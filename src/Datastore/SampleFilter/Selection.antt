-- ===== src/Datastore/SampleFilter/Selection.antt =====
-- Which actors and fields the filters of trialSampleFilter.go select.
use mathlib.Core.Path.{subst}
use cogment.Prelude.{
  ℕ, zero, suc, ◌≤◌, ◌<◌, ◌≡◌, ◌≢◌, refl, sym, ap, ◌∙◌, inl, inr, Bool, true, false, none, some,
  List, [], ◌∷◌, ◌++◌, map, ◌==◌, ltb, ◌&&◌, ◌||◌, if◌then◌else◌, arith, length, get_elem?, set,
  replicate, length-append, length-set, All, Bool-cases,
}
use cogment.Utils.Filters.{new_id_filter, selects_all}
use cogment.Datastore.SampleFilter.{
  TrialSampleFilter, ActorParams, ArrayFilter, set_all, set_index, selects_actor, set_each,
  new_actors_filter, nb_fields, set_fields, new_fields_filter,
}

-- The test of an actor against the three lists of the filter.
abbrev pub wanted : TrialSampleFilter → ActorParams → Bool
wanted filter p =
    selects_actor (new_id_filter filter.actor_names) (new_id_filter filter.actor_classes)
      (new_id_filter filter.actor_implementations) p

length-set_all : (f : ArrayFilter) (b : Bool) → length (set_all f b) ≡ length f
length-set_all [] b = refl
length-set_all (c ∷ f) b = ap suc (length-set_all f b)

set_all-replicate : (n : ℕ) (b : Bool) → set_all (replicate n false) b ≡ replicate n b
set_all-replicate zero b = refl
set_all-replicate (suc n) b = ap (λ f. b ∷ f) (set_all-replicate n b)

set-append :
    (f : ArrayFilter) (b c : Bool) (g : ArrayFilter)
    → set (f ++ (c ∷ g)) (length f) b ≡ f ++ (b ∷ g)
set-append [] b c g = refl
set-append (x ∷ f) b c g = ap (λ h. x ∷ h) (set-append f b c g)

snoc : (f : ArrayFilter) (b : Bool) (g : ArrayFilter) → f ++ (b ∷ g) ≡ (f ++ (b ∷ [])) ++ g
snoc [] b g = refl
snoc (x ∷ f) b g = ap (λ h. x ∷ h) (snoc f b g)

-- The loop over the actors, after those whose results are `f`.
set_each_lem :
    (test : ActorParams → Bool) (actors : List ActorParams) (f : ArrayFilter)
    → set_each test (f ++ replicate (length actors) false) (length f) actors
      ≡ some (f ++ map test actors)
unfolding set_each
set_each_lem test [] f = refl
set_each_lem test (p ∷ actors) f =
    let g = replicate (length actors) false in
    let here : set_index (f ++ (false ∷ g)) (length f) (test p) ≡ some ((f ++ (test p ∷ [])) ++ g) =
      unfold set_index in
      rw (set-append f (test p) false g, snoc f (test p) g)
        (ground (arith, length-append f (false ∷ g))) in
    let next = set_each_lem test actors (f ++ (test p ∷ [])) in
    rw here (
      subst
        (λ n.
          set_each test ((f ++ (test p ∷ [])) ++ g) n actors
          ≡ some (f ++ (test p ∷ map test actors)))
        (omega (arith, length-append f (test p ∷ [])))
        (next ∙ ap some (sym (snoc f (test p) (map test actors)))))

all_true :
    (test : ActorParams → Bool) (actors : List ActorParams)
    → ((p : ActorParams) → test p ≡ true)
    → map test actors ≡ replicate (length actors) true
all_true test [] h = refl
all_true test (p ∷ actors) h = rw (h p) (ap (λ f. true ∷ f) (all_true test actors h))

-- The filter of the actors, with its short cut where all are selected, has for each actor of the trial
-- whether the three lists select it.
new_actors_filter_lem :
    (filter : TrialSampleFilter) (actors : List ActorParams)
    → new_actors_filter filter actors ≡ some (map (wanted filter) actors)
unfolding new_actors_filter
new_actors_filter_lem filter actors =
    let names = new_id_filter filter.actor_names in
    let classes = new_id_filter filter.actor_classes in
    let implementations = new_id_filter filter.actor_implementations in
    elim (Bool-cases (selects_all names && selects_all classes && selects_all implementations)) [
      | inl e ↦ rw e (
          ap some (
            set_all-replicate (length actors) true
            ∙ sym (all_true (wanted filter) actors (λ p. ground arith))))
      | inr e ↦
          rw (e, set_all-replicate (length actors) false) (set_each_lem (wanted filter) actors [])
    ]

get-set :
    (f : ArrayFilter) (i j : ℕ) (b : Bool)
    → i < length f
    → get_elem? (set f i b) j ≡ (if i == j then some b else get_elem? f j)
get-set [] i j b h = absurd (omega arith)
get-set (c ∷ f) zero zero b h = refl
get-set (c ∷ f) zero (suc j) b h = ground arith
get-set (c ∷ f) (suc i) zero b h = ground arith
get-set (c ∷ f) (suc i) (suc j) b h = ground (arith, get-set f i j b (omega arith))

abbrev pub listed : ℕ → List ℕ → Bool
listed i [] = false
listed i (j ∷ js) = j == i || listed i js

set_fields_lem :
    (fields : List ℕ) (f : ArrayFilter)
    → All (λ i. i < length f) fields
    → (f' : ArrayFilter) × (set_fields f fields ≡ some f')
      × (length f' ≡ length f)
      × ((i : ℕ) → i ≢ 0 → get_elem? f' i ≡ (if listed i fields then some true else get_elem? f i))
unfolding set_fields
set_fields_lem [] f h = (f, refl, refl, λ i n. refl)
set_fields_lem (field ∷ fields) f h = elim (Bool-cases (field == 0)) [
  | inl z ↦
      let (f', e, l, at) = set_fields_lem fields f h.1 in
      (f', rw z e, l, λ i n. at i n ∙ ground arith)
  | inr z ↦
      let f1 = set f field true in
      let same = length-set f field true in
      let (f', e, l, at) =
        set_fields_lem fields f1 (subst (λ n. All (λ i. i < n) fields) (sym same) h.1) in
      let here : set_index f field true ≡ some f1 = unfold set_index in ground arith in
      (f', rw (z, here) e, l ∙ same, λ i n. at i n ∙ ground (arith, get-set f field i true h.0))
]

get-replicate : (n i : ℕ) (b : Bool) → i < n → get_elem? (replicate n b) i ≡ some b
get-replicate zero i b h = absurd (omega arith)
get-replicate (suc n) zero b h = refl
get-replicate (suc n) (suc i) b h = get-replicate n i b (omega arith)

get-out : (f : ArrayFilter) (i : ℕ) → length f ≤ i → get_elem? f i ≡ none
get-out [] i h = refl
get-out (b ∷ f) zero h = absurd (omega arith)
get-out (b ∷ f) (suc i) h = get-out f i (omega arith)

-- The filter of the fields is made, for fields of the API. It selects each of these fields, from the
-- first after the unknown one, if it is listed or if none is listed.
new_fields_filter_lem :
    (fields : List ℕ)
    → All (λ i. i < nb_fields) fields
    → (f : ArrayFilter) × (new_fields_filter fields ≡ some f)
      × (length f ≡ nb_fields)
      × ((i : ℕ)
          → get_elem? f (suc i)
            ≡ (if ltb i 7 then some (listed (suc i) fields || length fields == 0) else none))
unfolding new_fields_filter
new_fields_filter_lem [] h = (
  replicate 8 true,
  refl,
  refl,
  λ i. elim (Bool-cases (ltb i 7)) [
    | inl k ↦ rw k (get-replicate 8 (suc i) true (ground arith))
    | inr k ↦ rw k (get-out (replicate 8 true) (suc i) (ground arith))
  ],
)
new_fields_filter_lem (field ∷ fields) h =
    let (f, e, l, at) = set_fields_lem (field ∷ fields) (replicate 8 false) h in
    let z : (suc (length fields) == 0) ≡ false = ground arith in
    (
      f,
      rw z e,
      l,
      λ i. elim (Bool-cases (ltb i 7)) [
        | inl k ↦
            rw k (at (suc i) (λ q. absurd (cc q)) ∙ ground (arith, get-replicate 8 (suc i) false))
        | inr k ↦ rw k (get-out f (suc i) (ground (arith, l)))
      ],
    )
