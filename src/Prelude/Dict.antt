-- ===== src/Prelude/Dict.antt =====
-- A Go map: its entries as an association list. The order of the list stands for the order in which
-- `range` visits the entries, which Go leaves open.
use mathlib.Core.Path.{◌≡◌, refl, subst}
use mathlib.Core.Logic.{inl, inr}
use mathlib.Core.Bool.{true}
use mathlib.Core.Option.{Option, none, some}
use mathlib.Core.List.{List, [], ◌∷◌}
use native.Mathlib.Omega.{arith}
use cogment.Prelude.Tests.{Key, if◌then◌else◌, Bool-cases}

abbrev pub Dict {ℓ κ} : Type ℓ → Type κ → Type (ℓ ⊔ κ)
Dict K V = List (K × V)

module _ {ℓ κ} {K : Type ℓ} ⦃key : Key K⦄ {V : Type κ} where
  unfoldable pub lookup : K → Dict K V → Option V
  lookup k [] = none
  lookup k ((j, v) ∷ m) = if key.same j k then some v else lookup k m

  unfoldable pub insert : K → V → Dict K V → Dict K V
  insert k v [] = (k, v) ∷ []
  insert k v ((j, w) ∷ m) = if key.same j k then (k, v) ∷ m else (j, w) ∷ insert k v m

  unfoldable pub delete : K → Dict K V → Dict K V
  delete k [] = []
  delete k ((j, v) ∷ m) = let rest = delete k m in if key.same j k then rest else (j, v) ∷ rest

  pub lookup-insert :
      (k j : K) (v : V) (m : Dict K V)
      → lookup j (insert k v m) ≡ (if key.same k j then some v else lookup j m)
  unfolding lookup insert
  lookup-insert k j v [] = refl
  lookup-insert k j v ((i, w) ∷ m) =
      ground (arith, key.same_iff k j, key.same_iff i k, key.same_iff i j, lookup-insert k j v m)

  pub lookup-delete :
      (k j : K) (m : Dict K V) → lookup j (delete k m) ≡ (if key.same k j then none else lookup j m)
  unfolding lookup delete
  lookup-delete k j [] = ground arith
  lookup-delete k j ((i, w) ∷ m) =
      ground (arith, key.same_iff k j, key.same_iff i k, key.same_iff i j, lookup-delete k j m)

pub same_refl {ℓ} : {K : Type ℓ} ⦃key : Key K⦄ (k : K) → key.same k k ≡ true
same_refl ⦃key⦄ k = (key.same_iff k k).1 refl

pub ruleset dict_laws = (lookup-insert, lookup-delete, same_refl)

module _ {ℓ κ} {K : Type ℓ} ⦃key : Key K⦄ {V : Type κ} where
  -- A map has each key once.
  abbrev pub KeysOnce : Dict K V → Type κ
  KeysOnce [] = Unit
  KeysOnce ((k, v) ∷ m) = (lookup k m ≡ none) × KeysOnce m

  pub insert-KeysOnce : (k : K) (v : V) (m : Dict K V) → KeysOnce m → KeysOnce (insert k v m)
  unfolding insert
  insert-KeysOnce k v [] h = (unfold lookup in refl, tt)
  insert-KeysOnce k v ((j, w) ∷ m) h = elim (Bool-cases (key.same j k)) [
    | inl e ↦
        let p : j ≡ k = (key.same_iff j k).0 e in rw e (subst (λ i. lookup i m ≡ none) p h.0, h.1)
    | inr e ↦ rw e (
      ground (arith, lookup-insert k j v m, key.same_iff k j, key.same_iff j k, h.0),
      insert-KeysOnce k v m h.1,
    )
  ]

  pub delete-KeysOnce : (k : K) (m : Dict K V) → KeysOnce m → KeysOnce (delete k m)
  unfolding delete
  delete-KeysOnce k [] h = tt
  delete-KeysOnce k ((j, w) ∷ m) h = elim (Bool-cases (key.same j k)) [
    | inl e ↦ rw e (delete-KeysOnce k m h.1)
    | inr e ↦ rw e (
      ground (arith, lookup-delete k j m, key.same_iff k j, key.same_iff j k, h.0),
      delete-KeysOnce k m h.1,
    )
  ]

  unfoldable pub keys : Dict K V → List K
  keys [] = []
  keys ((k, v) ∷ m) = k ∷ keys m
