-- ===== src/Registry/MemoryCache/Parts.antt =====
-- What the parts of the cache leave alone, and the steps of code that returns early.
use cogment.Prelude.{ℕ, ◌≡◌, ◌⊎◌, inl, inr, refl, String, Bool, arith}
use cogment.Registry.Types.{Error, Result, ok, err, M, proceed, Backend}
use cogment.Registry.MemoryCache.{LruCache, State, delete_latest, update_latest}

-- Code succeeds when each of its steps does.
pub proceed-eq-ok :
    {S A B : Type 0} (r : Result A × S) (f : A → M S B) {b : B} {s' : S}
    → proceed r f ≡ (ok b, s')
    → (a : A) × (s : S) × (r ≡ (ok a, s)) × (f a s ≡ (ok b, s'))
proceed-eq-ok (ok a, s) f h = (a, s, refl, h)
proceed-eq-ok (err e, s) f h = absurd (ground arith)

pub ok-eq :
    {S A : Type 0} {a b : A} {s t : S}
    → ◌≡◌ {A = Result A × S} (ok a, s) (ok b, t)
    → (a ≡ b) × (s ≡ t)
ok-eq h = ground arith

module _ {S C : Type 0} (ar : Backend S) (lru : LruCache C) (id : String) where
  pub update_latest_keeps :
      (n : ℕ) (st : State S C)
      → ((update_latest ar lru id n st).1.version_cache ≡ st.version_cache)
        × ((update_latest ar lru id n st).1.archive ≡ st.archive)
  unfolding update_latest
  update_latest_keeps n st = ground arith

  pub delete_latest_keeps :
      (test : ℕ → Bool) (st : State S C)
      → ((delete_latest ar lru id test st).version_cache ≡ st.version_cache)
        × ((delete_latest ar lru id test st).archive ≡ st.archive)
  unfolding delete_latest
  delete_latest_keeps test st = ground arith

pub proceed-eq-err :
    {S A B : Type 0} (r : Result A × S) (f : A → M S B) {e : Error} {s' : S}
    → proceed r f ≡ (err e, s')
    → (r ≡ (err e, s')) ⊎ ((a : A) × (s : S) × (r ≡ (ok a, s)) × (f a s ≡ (err e, s')))
proceed-eq-err (ok a, s) f h = inr (a, s, refl, h)
proceed-eq-err (err e, s) f h = inl (ground arith)
