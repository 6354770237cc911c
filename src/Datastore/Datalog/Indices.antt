-- ===== src/Datastore/Datalog/Indices.antt =====
-- datalogServer.go: the indices of the actors by their names.
use cogment.Prelude.{
  ℕ, suc, ◌+◌, ◌≤◌, ◌<◌, ◌≡◌, ◌∙◌, refl, ap, inl, inr, String, false, none, List, [], ◌∷◌, arith,
  length, All, Bool-cases, str_eq, string_key,
}
use cogment.Prelude.Dict.{Dict, lookup, insert, lookup-insert}
use cogment.Datastore.Memory.{u32}
use cogment.Datastore.SampleFilter.{ActorParams}
use cogment.Datastore.Datalog.{index_actors}
use cogment.Datastore.Datalog.Converted.{Within}

-- No two actors have the same name.
abbrev pub NamesOnce : List ActorParams → Type 0
NamesOnce [] = Unit
NamesOnce (p ∷ actors) = All (λ q. str_eq p.name q.name ≡ false) actors × NamesOnce actors

abbrev pub AreNew : Dict String ℕ → List ActorParams → Type 0
AreNew m actors = All (λ p. lookup p.name m ≡ none) actors

AreNew-insert :
    (name : String) (index : ℕ) (m : Dict String ℕ) (actors : List ActorParams)
    → All (λ q. str_eq name q.name ≡ false) actors
    → AreNew m actors
    → AreNew (insert name index m) actors
AreNew-insert name index m [] h new = tt
AreNew-insert name index m (q ∷ actors) h new =
    (lookup-insert name q.name index m ∙ rw h.0 new.0, AreNew-insert name index m actors h.1 new.1)

length-insert :
    (name : String) (index : ℕ) (m : Dict String ℕ)
    → lookup name m ≡ none
    → length (insert name index m) ≡ suc (length m)
unfolding insert lookup
length-insert name index [] h = refl
length-insert name index ((j, w) ∷ m) h = elim (Bool-cases (str_eq j name)) [
  | inl same ↦ absurd (ground (arith, same, h))
  | inr other ↦ rw other (ap suc (length-insert name index m (ground (arith, other, h))))
]

insert-Within :
    (n index : ℕ) (name : String) (m : Dict String ℕ)
    → index < n
    → Within n m
    → Within n (insert name index m)
unfolding insert
insert-Within n index name [] lt h = (lt, tt)
insert-Within n index name ((j, w) ∷ m) lt h = elim (Bool-cases (str_eq j name)) [
  | inl same ↦ rw same (lt, h.1)
  | inr other ↦ rw other (h.0, insert-Within n index name m lt h.1)
]

pub index_actors-Within :
    (n k : ℕ) (actors : List ActorParams) (m : Dict String ℕ)
    → k + length actors ≤ n
    → Within n m
    → Within n (index_actors k actors m)
unfolding index_actors
index_actors-Within n k [] m le h = h
index_actors-Within n k (p ∷ actors) m le h =
    index_actors-Within n (k + 1) actors (insert p.name (u32 k) m) (omega arith)
      (insert-Within n (u32 k) p.name m (omega arith) h)

pub length-index_actors :
    (k : ℕ) (actors : List ActorParams) (m : Dict String ℕ)
    → NamesOnce actors
    → AreNew m actors
    → length (index_actors k actors m) ≡ length m + length actors
unfolding index_actors
length-index_actors k [] m once new = omega arith
length-index_actors k (p ∷ actors) m once new =
    length-index_actors (k + 1) actors (insert p.name (u32 k) m) once.1
      (AreNew-insert p.name (u32 k) m actors once.0 new.1)
    ∙ omega (arith, length-insert p.name (u32 k) m new.0)

pub all-AreNew : (actors : List ActorParams) → AreNew [] actors
unfolding lookup
all-AreNew [] = tt
all-AreNew (p ∷ actors) = (refl, all-AreNew actors)
