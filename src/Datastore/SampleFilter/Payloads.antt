-- ===== src/Datastore/SampleFilter/Payloads.antt =====
-- The copies of payloads in trialSampleFilter.go.
use cogment.Prelude.{
  ℕ, zero, suc, ◌<◌, ◌≡◌, refl, ap, ◌∙◌, inl, inr, String, Option, some, List, [], ◌∷◌, ◌++◌, ◌==◌,
  ◌||◌, if◌then◌else◌, arith, length, get_elem?, set, length-set, All, Bool-cases, ==_iff,
}
use cogment.Datastore.SampleFilter.{Payloads, copy_payload, copy_each}
use cogment.Datastore.SampleFilter.Selection.{listed}

abbrev pub InRange : Payloads → List ℕ → Type 0
InRange source indices = All (λ i. i < length source) indices

get-in :
    (source : Payloads) (i : ℕ)
    → i < length source
    → (p : Option String) × (get_elem? source i ≡ some p)
get-in [] i h = absurd (omega arith)
get-in (p ∷ source) zero h = (p, refl)
get-in (p ∷ source) (suc i) h = get-in source i (omega arith)

get-set :
    (f : Payloads) (i j : ℕ) (p : Option String)
    → i < length f
    → get_elem? (set f i p) j ≡ (if i == j then some p else get_elem? f j)
get-set [] i j b h = absurd (omega arith)
get-set (c ∷ f) zero zero b h = refl
get-set (c ∷ f) zero (suc j) b h = ground arith
get-set (c ∷ f) (suc i) zero b h = ground arith
get-set (c ∷ f) (suc i) (suc j) b h = ground (arith, get-set f i j b (omega arith))

-- The target after the copies: of the source at the listed indices, as before elsewhere.
abbrev pub Copies : Payloads → Payloads → List ℕ → Payloads → Type 0
Copies source target indices target' =
    (length target' ≡ length target)
    × ((i : ℕ)
        → get_elem? target' i
          ≡ (if listed i indices then get_elem? source i else get_elem? target i))

pub copy_each_lem :
    (source target : Payloads) (indices : List ℕ)
    → length target ≡ length source
    → InRange source indices
    → (target' : Payloads) × (copy_each source target indices ≡ some target')
      × Copies source target indices target'
unfolding copy_each
copy_each_lem source target [] l h = (target, refl, (refl, λ i. refl))
copy_each_lem source target (j ∷ indices) l h =
    let (p, e) = get-in source j h.0 in
    let t1 = set target j p in
    let same = length-set target j p in
    let (t2, r, (l2, at)) = copy_each_lem source t1 indices (same ∙ l) h.1 in
    let here : copy_payload source target j ≡ some t1 =
      unfold copy_payload in rw e (ground (arith, h.0)) in
    (t2, rw here r, (l2 ∙ same, λ i. at i ∙ placed i p e))
  where
    placed :
        (i : ℕ) (p : Option String)
        → get_elem? source j ≡ some p
        → (if listed i indices then get_elem? source i else get_elem? (set target j p) i)
          ≡ (if listed i (j ∷ indices) then get_elem? source i else get_elem? target i)
    placed i p e = elim (Bool-cases (j == i)) [
      | inl q ↦
          let w : j ≡ i = (==_iff j i).0 q in
          ground (arith, get-set target j i p (omega (arith, l, h.0)), ap (get_elem? source) w)
      | inr q ↦ ground (arith, get-set target j i p (omega (arith, l, h.0)))
    ]

listed-append : (i : ℕ) (a b : List ℕ) → listed i (a ++ b) ≡ (listed i a || listed i b)
listed-append i [] b = refl
listed-append i (j ∷ a) b = ground (arith, listed-append i a b)

-- Copies one after the other are the copies of all.
pub Copies-append :
    (source t0 t1 t2 : Payloads) (a b : List ℕ)
    → Copies source t0 a t1
    → Copies source t1 b t2
    → Copies source t0 (a ++ b) t2
Copies-append source t0 t1 t2 a b (l1, at1) (l2, at2) =
    (l2 ∙ l1, λ i. at2 i ∙ ground (arith, at1 i, listed-append i a b))
