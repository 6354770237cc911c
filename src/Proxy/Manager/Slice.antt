-- ===== src/Proxy/Manager/Slice.antt =====
-- The slice of pointers of actor.go, counted: what a search finds, and what swapping the last entry
-- in and popping it takes away.
use cogment.Prelude.{
  ℕ, zero, suc, ◌+◌, ◌≤◌, ◌≡◌, refl, Bool, true, false, Option, none, some, List, [], ◌∷◌, ◌++◌,
  ◌==◌, set, ap, get_elem?, inl, inr, arith, Bool-cases,
}
use mathlib.Core.Option
use mathlib.Core.Option.{some-injective}
use cogment.Proxy.Manager.{find, find_index, drop_last, last, swap_remove}

abbrev pub one_if : Bool → ℕ
one_if true = 1
one_if false = 0

-- How many entries pass a test.
unfoldable pub count : (ℕ → Bool) → List ℕ → ℕ
count f [] = 0
count f (q ∷ qs) = one_if (f q) + count f qs

pub count-append_one :
    (f : ℕ → Bool) (qs : List ℕ) (q : ℕ) → count f (qs ++ (q ∷ [])) ≡ count f qs + one_if (f q)
unfolding count
count-append_one f [] q = omega arith
count-append_one f (r ∷ qs) q = omega (arith, count-append_one f qs q)

pub find-none-count : (f : ℕ → Bool) (qs : List ℕ) → find f qs ≡ none → count f qs ≡ 0
unfolding find count
find-none-count f [] h = refl
find-none-count f (q ∷ qs) h = ground (arith, find-none-count f qs)

pub count-zero-find : (f : ℕ → Bool) (qs : List ℕ) → count f qs ≡ 0 → find f qs ≡ none
unfolding find count
count-zero-find f [] h = refl
count-zero-find f (q ∷ qs) h = ground (arith, count-zero-find f qs)

pub find-passes : (f : ℕ → Bool) (qs : List ℕ) (q : ℕ) → find f qs ≡ some q → f q ≡ true
unfolding find
find-passes f [] q h = cc
find-passes f (r ∷ qs) q h = ground (arith, find-passes f qs q)

pub find-listed :
    (f : ℕ → Bool) (qs : List ℕ) (q : ℕ) → find f qs ≡ some q → 1 ≤ count (λ r. r == q) qs
unfolding find count
find-listed f [] q h = cc
find-listed f (r ∷ qs) q h = ground (arith, find-listed f qs q)

count-le : (f : ℕ → Bool) (qs : List ℕ) (q : ℕ) → f q ≡ true → count (λ r. r == q) qs ≤ count f qs
unfolding count
count-le f [] q p = omega arith
count-le f (r ∷ qs) q p = ground (arith, count-le f qs q)

-- Where at most one entry passes, the search finds every entry that passes.
pub find_unique :
    (f : ℕ → Bool) (qs : List ℕ) (q : ℕ)
    → count f qs ≤ 1
    → f q ≡ true
    → 1 ≤ count (λ r. r == q) qs
    → find f qs ≡ some q
unfolding find count
find_unique f [] q one p l = absurd (omega arith)
find_unique f (r ∷ qs) q one p l = ground (arith, find_unique f qs q, count-le f qs q)

find_index-suc :
    (f : ℕ → Bool) (qs : List ℕ) (i : ℕ)
    → Option.map suc (find_index f qs) ≡ some i
    → (j : ℕ) × (i ≡ suc j) × (find_index f qs ≡ some j)
find_index-suc f qs i h = go (find_index f qs) refl
  where
    go : (o : Option ℕ) → find_index f qs ≡ o → (j : ℕ) × (i ≡ suc j) × (find_index f qs ≡ some j)
    go none e = ground arith
    go (some j) e = (j, ground arith, e)

-- The two searches stop at one entry, or both find nothing.
pub get_elem?-find_index :
    (f : ℕ → Bool) (qs : List ℕ) (i : ℕ) → find_index f qs ≡ some i → get_elem? qs i ≡ find f qs
unfolding find find_index
get_elem?-find_index f [] i h = cc
get_elem?-find_index f (q ∷ qs) i h = elim (Bool-cases (f q)) [
  | inl p ↦ ground arith
  | inr p ↦
      let (j, e, k) = find_index-suc f qs i (rw p at h) in rw (p, e) (get_elem?-find_index f qs j k)
]

pub find_index-none : (f : ℕ → Bool) (qs : List ℕ) → find_index f qs ≡ none → find f qs ≡ none
unfolding find find_index
find_index-none f [] h = refl
find_index-none f (q ∷ qs) h = ground (arith, find_index-none f qs)

count-drop_last :
    (f : ℕ → Bool) (q : ℕ) (qs : List ℕ)
    → count f (drop_last (q ∷ qs)) + one_if (f (last q qs)) ≡ count f (q ∷ qs)
unfolding count drop_last last
count-drop_last f q [] = omega arith
count-drop_last f q (r ∷ qs) = omega (arith, count-drop_last f r qs)

count-set :
    (f : ℕ → Bool) (qs : List ℕ) (i v x : ℕ)
    → get_elem? qs i ≡ some x
    → count f (set qs i v) + one_if (f x) ≡ count f qs + one_if (f v)
unfolding count
count-set f [] i v x h = cc
count-set f (q ∷ qs) zero v x h = ground arith
count-set f (q ∷ qs) (suc i) v x h = omega (arith, count-set f qs i v x h)

last-skip : (q r : ℕ) (qs : List ℕ) → r ≡ last q qs → last r qs ≡ last q qs
unfolding last
last-skip q r [] h = h
last-skip q r (s ∷ qs) h = refl

last-set : (q : ℕ) (qs : List ℕ) (i : ℕ) → last q (set qs i (last q qs)) ≡ last q qs
unfolding last
last-set q [] i = refl
last-set q (r ∷ qs) zero = last-skip r (last r qs) qs refl
last-set q (r ∷ qs) (suc i) = last-set r qs i

count-drop_last-set :
    (f : ℕ → Bool) (q : ℕ) (qs : List ℕ) (i : ℕ)
    → let v = last q qs in
      count f (drop_last (set (q ∷ qs) i v)) + one_if (f v) ≡ count f (set (q ∷ qs) i v)
count-drop_last-set f q qs zero = omega (
  arith,
  count-drop_last f (last q qs) qs,
  ap (λ r. one_if (f r)) (last-skip q (last q qs) qs refl),
)
count-drop_last-set f q qs (suc i) =
    omega
      (arith, count-drop_last f q (set qs i (last q qs)), ap (λ r. one_if (f r)) (last-set q qs i))

-- Swap-and-pop takes away the entry at the index and nothing else, whatever is counted.
pub count-swap_remove :
    (f : ℕ → Bool) (qs : List ℕ) (i x : ℕ)
    → get_elem? qs i ≡ some x
    → count f (swap_remove qs i) + one_if (f x) ≡ count f qs
unfolding swap_remove
count-swap_remove f [] i x h = cc
count-swap_remove f (q ∷ qs) i x h =
    omega (arith, count-drop_last-set f q qs i, count-set f (q ∷ qs) i (last q qs) x h)

pub index_misses :
    (f : ℕ → Bool) (qs : List ℕ) (i : ℕ) → find_index f qs ≡ some i → get_elem? qs i ≡ none → ⊥
unfolding find_index
index_misses f [] i h e = cc
index_misses f (q ∷ qs) i h e = elim (Bool-cases (f q)) [
  | inl p ↦ ground arith
  | inr p ↦ let (j, e', k) = find_index-suc f qs i (rw p at h) in index_misses f qs j k (rw e' at e)
]
