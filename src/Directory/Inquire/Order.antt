-- ===== src/Directory/Inquire/Order.antt =====
-- The order in which `Inquire` of directoryServer.go sends what it found: sorting and shuffling keep the
-- records.
use mathlib.Core.Path.{subst}
use cogment.Prelude.{
  ℕ, zero, suc, ◌+◌, ◌%◌, ◌≡◌, refl, ap, ◌∙◌, ◌↔◌, ◌⊎◌, inl, inr, Bool, true, false, none, some,
  List, [], ◌∷◌, ◌==◌, if◌then◌else◌, arith, All, In, Bool-cases, Option-cases, get_elem?, set,
  ==_iff,
}
use cogment.Directory.Db.{DbRecord}
use cogment.Directory.Inquire.{
  more_recent, less_loaded, insert_by, sort_by, swap, swap_found, shuffle,
}

-- No record is less than one before it.
abbrev pub Sorted : (DbRecord → DbRecord → Bool) → List DbRecord → Type 0
Sorted less [] = Unit
Sorted less (r ∷ rs) = All (λ s. less s r ≡ false) rs × Sorted less rs

In-insert_by :
    (less : DbRecord → DbRecord → Bool) (r x : DbRecord) (rs : List DbRecord)
    → In x (insert_by less r rs) ↔ ((r ≡ x) ⊎ In x rs)
unfolding insert_by
In-insert_by less r x [] = (λ i. i, λ i. i)
In-insert_by less r x (s ∷ rs) = elim (Bool-cases (less s r)) [
  | inl e ↦ rw e (ground (arith, In-insert_by less r x rs))
  | inr e ↦ rw e (λ i. i, λ i. i)
]

pub In-sort_by :
    (less : DbRecord → DbRecord → Bool) (x : DbRecord) (rs : List DbRecord)
    → In x (sort_by less rs) ↔ In x rs
unfolding sort_by
In-sort_by less x [] = (λ i. i, λ i. i)
In-sort_by less x (r ∷ rs) =
    ground (arith, In-insert_by less r x (sort_by less rs), In-sort_by less x rs)

pub All-In {ℓ} : {A : Type 0} {P : A → Type ℓ} (rs : List A) → ((x : A) → In x rs → P x) → All P rs
All-In [] h = tt
All-In (r ∷ rs) h = (h r (inl refl), All-In rs (λ x i. h x (inr i)))

pub In-All {ℓ} : {A : Type 0} (P : A → Type ℓ) (rs : List A) (x : A) → All P rs → In x rs → P x
In-All P [] x h i = absurd i
In-All P (r ∷ rs) x h (inl p) = subst P p h.0
In-All P (r ∷ rs) x h (inr i) = In-All P rs x h.1 i

module _ (less : DbRecord → DbRecord → Bool)
    (asymmetric : (r s : DbRecord) → less r s ≡ true → less s r ≡ false)
    (through : (r s t : DbRecord) → less t s ≡ false → less s r ≡ false → less t r ≡ false) where
  insert_by-Sorted :
      (r : DbRecord) (rs : List DbRecord) → Sorted less rs → Sorted less (insert_by less r rs)
  unfolding insert_by
  insert_by-Sorted r [] h = (tt, tt)
  insert_by-Sorted r (s ∷ rs) h = elim (Bool-cases (less s r)) [
    | inl e ↦ rw e (
      All-In (insert_by less r rs) (λ x i. elim ((In-insert_by less r x rs).0 i) [
        | inl p ↦ subst (λ y. less y s ≡ false) p (asymmetric s r e)
        | inr k ↦ In-All (λ y. less y s ≡ false) rs x h.0 k
      ]),
      insert_by-Sorted r rs h.1,
    )
    | inr e ↦
        rw e
          ((e, All-In rs (λ x i. through r s x (In-All (λ y. less y s ≡ false) rs x h.0 i) e)), h)
  ]

  sort_by-Sorted : (rs : List DbRecord) → Sorted less (sort_by less rs)
  unfolding sort_by
  sort_by-Sorted [] = tt
  sort_by-Sorted (r ∷ rs) = insert_by-Sorted r (sort_by less rs) (sort_by-Sorted rs)

pub by_time-Sorted : (rs : List DbRecord) → Sorted more_recent (sort_by more_recent rs)
by_time-Sorted rs =
    sort_by-Sorted more_recent (λ r s h. ground arith) (λ r s t h k. ground arith) rs

pub by_load-Sorted : (rs : List DbRecord) → Sorted less_loaded (sort_by less_loaded rs)
by_load-Sorted rs =
    sort_by-Sorted less_loaded (λ r s h. ground arith) (λ r s t h k. ground arith) rs

-- The record stands somewhere in the list.
abbrev pub At : DbRecord → List DbRecord → Type 0
At x rs = (i : ℕ) × (get_elem? rs i ≡ some x)

pub In-At : (x : DbRecord) (rs : List DbRecord) → In x rs → At x rs
In-At x [] i = absurd i
In-At x (r ∷ rs) (inl p) = (0, ap some p)
In-At x (r ∷ rs) (inr i) = let (k, e) = In-At x rs i in (suc k, e)

pub At-In : (x : DbRecord) (rs : List DbRecord) (i : ℕ) → get_elem? rs i ≡ some x → In x rs
At-In x [] i e = absurd (cc e)
At-In x (r ∷ rs) zero e = inl (ground arith)
At-In x (r ∷ rs) (suc i) e = inr (At-In x rs i e)

get-set :
    (rs : List DbRecord) (i j : ℕ) (v old : DbRecord)
    → get_elem? rs i ≡ some old
    → get_elem? (set rs i v) j ≡ (if i == j then some v else get_elem? rs j)
get-set [] i j v old e = absurd (cc e)
get-set (r ∷ rs) zero zero v old e = refl
get-set (r ∷ rs) zero (suc j) v old e = ground arith
get-set (r ∷ rs) (suc i) zero v old e = ground arith
get-set (r ∷ rs) (suc i) (suc j) v old e = ground (arith, get-set rs i j v old e)

get-swap :
    (rs : List DbRecord) (i j k : ℕ) (a b : DbRecord)
    → get_elem? rs i ≡ some a
    → get_elem? rs j ≡ some b
    → get_elem? (swap rs i j) k
      ≡ (if j == k then some a else if i == k then some b else get_elem? rs k)
unfolding swap
get-swap rs i j k a b e f =
    let there : (old : DbRecord) × (get_elem? (set rs i b) j ≡ some old) =
      elim (Bool-cases (i == j)) [
        | inl d ↦ (b, get-set rs i j b a e ∙ rw d refl)
        | inr d ↦ (b, get-set rs i j b a e ∙ rw (d, f) refl)
      ] in
    rw (e, f, swap_found)
      (get-set (set rs i b) j k a there.0 there.1 ∙ ground (arith, get-set rs i k b a e))

swap_out :
    (rs : List DbRecord) (i j : ℕ)
    → (get_elem? rs i ≡ none) ⊎ (get_elem? rs j ≡ none)
    → swap rs i j ≡ rs
unfolding swap
swap_out rs i j (inl e) = rw (e, swap_found) refl
swap_out rs i j (inr e) = elim (Option-cases (get_elem? rs i)) [
  | inl f ↦ rw (f, swap_found) refl
  | inr (a, f) ↦ rw (f, e, swap_found) refl
]

-- Swapping the elements at two indices takes each element to another place, and back.
At-swap :
    (rs : List DbRecord) (i j : ℕ) (a b x : DbRecord)
    → get_elem? rs i ≡ some a
    → get_elem? rs j ≡ some b
    → At x (swap rs i j) ↔ At x rs
At-swap rs i j a b x e f = (
  λ (k, g). elim (Bool-cases (j == k)) [
    | inl d ↦ (i, ground (arith, get-swap rs i j k a b e f))
    | inr d ↦ elim (Bool-cases (i == k)) [
      | inl d' ↦ (j, ground (arith, get-swap rs i j k a b e f))
      | inr d' ↦ (k, ground (arith, get-swap rs i j k a b e f))
    ]
  ],
  λ (k, g). elim (Bool-cases (j == k)) [
    | inl d ↦
        let p : j ≡ k = (==_iff j k).0 d in
        let q : b ≡ x = ground (arith, ap (get_elem? rs) p) in
        elim (Bool-cases (i == j)) [
          | inl d' ↦
              let p' : i ≡ j = (==_iff i j).0 d' in
              (j, ground (arith, get-swap rs i j j a b e f, ap (get_elem? rs) p'))
          | inr d' ↦ (i, ground (arith, get-swap rs i j i a b e f))
        ]
    | inr d ↦ elim (Bool-cases (i == k)) [
      | inl d' ↦
          let p : i ≡ k = (==_iff i k).0 d' in
          (j, ground (arith, get-swap rs i j j a b e f, ap (get_elem? rs) p))
      | inr d' ↦ (k, ground (arith, get-swap rs i j k a b e f))
    ]
  ],
)

In-swap : (rs : List DbRecord) (i j : ℕ) (x : DbRecord) → In x (swap rs i j) ↔ In x rs
In-swap rs i j x = elim (Option-cases (get_elem? rs i)) [
  | inl e ↦ rw (swap_out rs i j (inl e)) (λ k. k, λ k. k)
  | inr (a, e) ↦ elim (Option-cases (get_elem? rs j)) [
    | inl f ↦ rw (swap_out rs i j (inr f)) (λ k. k, λ k. k)
    | inr (b, f) ↦
        let s = At-swap rs i j a b x e f in
        (
          λ k. let (n, g) = s.0 (In-At x (swap rs i j) k) in At-In x rs n g,
          λ k. let (n, g) = s.1 (In-At x rs k) in At-In x (swap rs i j) n g,
        )
  ]
]

pub In-shuffle :
    (draw : ℕ → ℕ) (n : ℕ) (rs : List DbRecord) (x : DbRecord) → In x (shuffle draw n rs) ↔ In x rs
unfolding shuffle
In-shuffle draw zero rs x = (λ i. i, λ i. i)
In-shuffle draw (suc n) rs x = ground (
  arith,
  In-shuffle draw n (swap rs (suc n) (draw n % (n + 2))) x,
  In-swap rs (suc n) (draw n % (n + 2)) x,
)
