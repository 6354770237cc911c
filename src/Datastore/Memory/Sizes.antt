-- ===== src/Datastore/Memory/Sizes.antt =====
-- The sizes that memory.go adds up in uint32, as natural numbers.
use cogment.Prelude.{
  ℕ, ◌+◌, ◌^◌, ◌<◌, ◌≡◌, inl, inr, String, none, some, List, [], ◌∷◌, ◌++◌, arith, string_key,
  Bool-cases, str_eq,
}
use cogment.Prelude.Dict.{Dict, lookup, insert}
use cogment.Datastore.Memory.{u32, complement, StoredTrialSample, TrialData}

pub u32-small : (n : ℕ) → u32 n < 2 ^ 32
u32-small n = omega arith

pub u32_add : (a b : ℕ) → u32 (u32 a + u32 b) ≡ u32 (a + b)
u32_add a b = omega arith

-- A trial's share of the total changes from `s` to `s'`.
pub u32_replace :
    (rest s size : ℕ) → u32 (u32 (rest + s) + u32 size) ≡ u32 (rest + u32 (s + u32 size))
u32_replace rest s size = omega arith

pub u32-complement : (rest s : ℕ) → s < 2 ^ 32 → u32 (u32 (rest + s) + complement s) ≡ u32 rest
u32-complement rest s h = omega arith

unfoldable pub total : Dict String TrialData → ℕ
total [] = 0
total ((id, trial) ∷ m) = trial.stored_samples_size + total m

unfoldable pub sizes : List StoredTrialSample → ℕ
sizes [] = 0
sizes (s ∷ samples) = s.size + sizes samples

pub sizes-append :
    (samples : List StoredTrialSample) (s : StoredTrialSample)
    → sizes (samples ++ (s ∷ [])) ≡ sizes samples + s.size
unfolding sizes
sizes-append [] s = omega arith
sizes-append (t ∷ samples) s = omega (arith, sizes-append samples s)

pub total-insert-none :
    (id : String) (trial : TrialData) (m : Dict String TrialData)
    → lookup id m ≡ none
    → total (insert id trial m) ≡ total m + trial.stored_samples_size
unfolding total lookup insert
total-insert-none id trial [] e = omega arith
total-insert-none id trial ((j, old) ∷ m) e = elim (Bool-cases (str_eq j id)) [
  | inl k ↦ absurd (ground arith)
  | inr k ↦ rw k (omega (arith, total-insert-none id trial m (rw k at e)))
]

pub total-insert-some :
    (id : String) (trial old : TrialData) (m : Dict String TrialData)
    → lookup id m ≡ some old
    → (rest : ℕ) × (total m ≡ rest + old.stored_samples_size)
      × (total (insert id trial m) ≡ rest + trial.stored_samples_size)
unfolding total lookup insert
total-insert-some id trial old [] e = absurd (cc e)
total-insert-some id trial old ((j, t) ∷ m) e = elim (Bool-cases (str_eq j id)) [
  | inl k ↦
      let p : t.stored_samples_size ≡ old.stored_samples_size = ground arith in
      rw k (total m, omega (arith, p), omega arith)
  | inr k ↦
      let (rest, a, b) = total-insert-some id trial old m (rw k at e) in
      rw k (t.stored_samples_size + rest, omega (arith, a), omega (arith, b))
]
