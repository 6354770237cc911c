-- ===== src/Datastore/Observable/Reads.antt =====
-- What an observer of an observable list (observableList.go) receives, and reads of single items.
use cogment.Prelude.{
  ℕ, zero, suc, ◌≤◌, ◌<◌, ◌≡◌, refl, sym, ap, ◌∙◌, inl, inr, Bool, true, false, Option, none, some,
  List, [], ◌∷◌, ◌++◌, leb, ltb, ◌==◌, if◌then◌else◌, arith, length, get_elem?, take, drop,
  take_of_length-le, ◌-◌, drop_all, drop-append, Bool-cases,
}
use cogment.Datastore.Observable.{
  ObservableList, Read, found, missing, panics, item_count, item, items_from, observe_rounds,
  observe,
}

if_true : {B : Type 0} (b : Bool) (x y : B) → b ≡ true → (if b then x else y) ≡ x
if_true true x y e = refl
if_true false x y e = absurd (cc e)

if_false : {B : Type 0} (b : Bool) (x y : B) → b ≡ false → (if b then x else y) ≡ y
if_false true x y e = absurd (cc e)
if_false false x y e = refl

module _ {A : Type 0} where
  -- The later list has the items of the earlier one, and more.
  abbrev pub Extends : ObservableList A → ObservableList A → Type 0
  Extends l l' = (more : List A) × (l'.items ≡ l.items ++ more)

  abbrev pub Growing : ObservableList A → List (ObservableList A) → Type 0
  Growing l [] = Unit
  Growing l (l' ∷ later) = Extends l l' × Growing l' later

  -- The list that the observer reads last: the first that has ended, or the last one.
  abbrev pub last_read : ObservableList A → List (ObservableList A) → ObservableList A
  last_read l [] = l
  last_read l (l' ∷ later) = let rest = last_read l' later in if l.ended then l else rest

  drop_beyond : (n : ℕ) (xs : List A) → length xs ≤ n → drop n xs ≡ []
  drop_beyond zero [] h = refl
  drop_beyond zero (x ∷ xs) h = absurd (omega arith)
  drop_beyond (suc n) [] h = refl
  drop_beyond (suc n) (x ∷ xs) h = drop_beyond n xs (omega arith)

  append_none : (xs : List A) → xs ++ [] ≡ xs
  append_none [] = refl
  append_none (x ∷ xs) = ap (λ ys. x ∷ ys) (append_none xs)

  append_assoc : (xs ys zs : List A) → (xs ++ ys) ++ zs ≡ xs ++ (ys ++ zs)
  append_assoc [] ys zs = refl
  append_assoc (x ∷ xs) ys zs = ap (λ r. x ∷ r) (append_assoc xs ys zs)

  grown :
      (l : ObservableList A) (later : List (ObservableList A))
      → Growing l later
      → Extends l (last_read l later)
  grown l [] g = ([], sym (append_none l.items))
  grown l (l' ∷ later) ((more, e), g) = elim (Bool-cases l.ended) [
    | inl k ↦ rw k ([], sym (append_none l.items))
    | inr k ↦
        let (more', e') = grown l' later g in
        rw k (more ++ more', e' ∙ ap (λ xs. xs ++ more') e ∙ append_assoc l.items more more')
  ]

  grown_on :
      (l l' : ObservableList A) (later : List (ObservableList A))
      → Growing l (l' ∷ later)
      → Extends l (last_read l' later)
  grown_on l l' later ((more, e), g) =
      let (more', e') = grown l' later g in
      (more ++ more', e' ∙ ap (λ xs. xs ++ more') e ∙ append_assoc l.items more more')

  drop-split :
      (from : ℕ) (xs more : List A)
      → from ≤ length xs
      → drop from (xs ++ more) ≡ drop from xs ++ drop (length xs) (xs ++ more)
  drop-split from xs more h =
      drop-append from xs more h
      ∙ ap (λ r. drop from xs ++ r)
          (sym (drop-append (length xs) xs more (omega arith) ∙ ap (λ r. r ++ more) (drop_all xs)))

  take_nil : (n : ℕ) → take {A = A} n [] ≡ []
  take_nil zero = refl
  take_nil (suc n) = refl

  take-append : (n : ℕ) (xs ys : List A) → take n (xs ++ ys) ≡ take n xs ++ take (n - length xs) ys
  take-append n [] ys =
      let whole : n - 0 ≡ n = omega arith in ap (λ k. take k ys) (sym whole) ∙ rw (take_nil n) refl
  take-append zero (x ∷ xs) ys = ground arith
  take-append (suc n) (x ∷ xs) ys =
      let e : suc n - suc (length xs) ≡ n - length xs = omega arith in
      rw e (ap (◌∷◌ x) (take-append n xs ys))

  items_from-drop : (l : ObservableList A) (from : ℕ) → items_from l from ≡ drop from l.items
  items_from-drop l from = elim (Bool-cases (leb from (length l.items))) [
    | inl k ↦ rw k refl
    | inr k ↦ rw k (sym (drop_beyond from l.items (ground arith)))
  ]

  -- What a list and its later growth have from an index on.
  drop-grown :
      (l l' : ObservableList A) (from : ℕ)
      → Extends l l'
      → drop from l'.items
        ≡ items_from l from
          ++ drop (if leb from (item_count l) then item_count l else from) l'.items
  drop-grown l l' from (more, e) = elim (Bool-cases (leb from (length l.items))) [
    | inl k ↦ rw (k, e) (drop-split from l.items more (ground arith))
    | inr k ↦ rw k refl
  ]

  take_within : (n : ℕ) (xs ys : List A) → n < length xs → take n (xs ++ ys) ≡ take n xs
  take_within n xs ys h =
      let none_left : n - length xs ≡ 0 = omega arith in
      take-append n xs ys ∙ rw none_left (append_none (take n xs))

  rounds_lem :
      (sends : ℕ) (l : ObservableList A) (later : List (ObservableList A)) (from : ℕ)
      → Growing l later
      → observe_rounds sends l later from ≡ take sends (drop from (last_read l later).items)
  unfolding observe_rounds
  rounds_lem sends l [] from g = ap (take sends) (items_from-drop l from)
  rounds_lem sends l (l' ∷ later) from g =
      let current = items_from l from in
      let from' = if leb from (item_count l) then item_count l else from in
      elim (Bool-cases l.ended) [
        | inl e ↦ rw e (ap (take sends) (items_from-drop l from))
        | inr e ↦
            let whole = drop-grown l (last_read l' later) from (grown_on l l' later g) in
            let rest = drop from' (last_read l' later).items in
            elim (Bool-cases (ltb sends (length current))) [
              | inl few ↦
                  rw (e, few)
                    (sym (
                      ap (take sends) whole ∙ take_within sends current rest (ground (arith, few))))
              | inr all ↦
                  rw (e, all)
                    (ap (λ r. current ++ r) (rounds_lem (sends - length current) l' later from' g.1)
                      ∙ sym (
                          ap (take sends) whole
                          ∙ take-append sends current rest
                          ∙ ap (λ r. r ++ take (sends - length current) rest)
                              (take_of_length-le sends current (ground (arith, all)))))
            ]
      ]

  last_read-ended :
      (l : ObservableList A) (later : List (ObservableList A))
      → l.ended ≡ true
      → last_read l later ≡ l
  last_read-ended l [] e = refl
  last_read-ended l (l' ∷ later) e = if_true l.ended l (last_read l' later) e

  -- An observer that starts within the list receives exactly the items from its start on up to the end
  -- of the list that it reads last, each once and in order, however the list grows in the meantime; if
  -- its context is done after a number of sends, the first so many of them.
  pub observe_lem :
      (sends : ℕ) (l : ObservableList A) (later : List (ObservableList A)) (from : ℕ)
      → Growing l later
      → from ≤ item_count l
      → observe sends l later from ≡ some (take sends (drop from (last_read l later).items))
  unfolding observe
  observe_lem sends l later from g h = elim (Bool-cases l.ended) [
    | inl e ↦
        if_true l.ended _ _ e
        ∙ if_true (leb from (length l.items)) _ _ (ground arith)
        ∙ ap (λ x. some (take sends (drop from x.items))) (sym (last_read-ended l later e))
    | inr e ↦ if_false l.ended _ _ e ∙ ap some (rounds_lem sends l later from g)
  ]

  get-out : (xs : List A) (i : ℕ) → length xs ≤ i → get_elem? xs i ≡ none
  get-out [] i h = refl
  get-out (x ∷ xs) zero h = absurd (omega arith)
  get-out (x ∷ xs) (suc i) h = get-out xs i (omega arith)

  get-in : (xs : List A) (i : ℕ) → i < length xs → (a : A) × (get_elem? xs i ≡ some a)
  get-in [] i h = absurd (omega arith)
  get-in (x ∷ xs) zero h = (x, refl)
  get-in (x ∷ xs) (suc i) h = get-in xs i (omega arith)

  abbrev pub read_of : Option A → Read A
  read_of none = missing
  read_of (some a) = found a

  -- A read gives the item at its index, or tells that there is none, except at the index that is the
  -- length, where the process stops.
  item_lem :
      (l : ObservableList A) (index : ℕ)
      → item l index ≡ (if index == item_count l then panics else read_of (get_elem? l.items index))
  unfolding item
  item_lem l index = elim (Bool-cases (ltb index (item_count l))) [
    | inl h ↦ let (a, e) = get-in l.items index (ground arith) in rw e (ground arith)
    | inr h ↦ let e = get-out l.items index (ground arith) in rw e (ground arith)
  ]
