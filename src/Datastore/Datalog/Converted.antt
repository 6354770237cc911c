-- ===== src/Datastore/Datalog/Converted.antt =====
-- datalogServer.go: the steps of the conversion of a sample of the data log keep the payload indices
-- in range.
use cogment.Prelude.{
  ℤ, pos, negsuc, ℕ, zero, suc, ◌≤◌, ◌<◌, ◌≡◌, ◌∙◌, refl, sym, subst, inl, inr, String, Option,
  none, some, List, [], ◌∷◌, ◌==◌, arith, length, get_elem?, All, Bool-cases, Option-cases, str_eq,
  id_key, ltb, ◌^◌, string_key,
}
use cogment.Prelude.Dict.{Dict, lookup, insert}
use cogment.Datastore.SampleFilter.{ActorSample, index_of}
use cogment.Datastore.Datalog.{
  RewardSource, Draft, enumerate_from, with_payload, next_payload, store_observations,
  set_observation, set_action, accumulate, store_user_data, update_actor,
  actor_index_from_actor_name, convert_observations, convert_actions, Observations,
}
use cogment.Datastore.Datalog.Sound.{
  Below, Refers, IsSound, get_lem, each_lem, enumerate-All, update-IsSound, with_payload-IsSound,
  next_payload-le, store_observations-IsSound,
}

-- An observation of the list, at an index that is not negative.
abbrev pub Points : ℕ → ℤ → Type 0
Points count (negsuc n) = ⊥
Points count (pos index) = index < count

-- The actors of a map are among the first `n`.
abbrev pub Within : ℕ → Dict String ℕ → Type 0
Within n indices = All (λ e. e.1 < n) indices

Below-get :
    (m index p : ℕ) (indices : List ℕ) → Below m indices → get_elem? indices index ≡ some p → p < m
Below-get m index p [] h e = absurd (ground (arith, e))
Below-get m zero p (i ∷ indices) h e = ground (arith, h.0, e)
Below-get m (suc index) p (i ∷ indices) h e = Below-get m index p indices h.1 e

set_observation-IsSound :
    (n : ℕ) (indices : List ℕ) (e : ℕ × ℤ) (d : Draft)
    → (e.0 < n) × Points (length indices) e.1
    → IsSound n d × Below (length d.payloads) indices
    → (d' : Draft) × (set_observation indices e d ≡ some d')
      × (IsSound n d' × Below (length d'.payloads) indices)
set_observation-IsSound n indices (actor_index, negsuc i) d (lt, points) (sound, below) =
    elim points [ ]
set_observation-IsSound n indices (actor_index, pos i) d (lt, points) (sound, below) =
    let (p, e) = get_lem indices i points in
    let (d', f, s, same) =
      update-IsSound n actor_index (λ a. record a { observation = some p }) d lt sound
        (λ a (o, c, r, t, x, y).
          (refl, ((Below-get (length d.payloads) i p indices below e, tt), c, r, t, x, y))) in
    (d', rw e f, (s, subst (λ ps. Below (length ps) indices) (sym same) below))

-- Each of at most `n` actors has an observation of the list.
abbrev pub Observed : ℕ → Option Observations → Type 0
Observed n none = Unit
Observed n (some obs) =
    (length obs.actors_map ≤ n) × All (Points (length obs.observations)) obs.actors_map

pub convert_observations-IsSound :
    (n : ℕ) (obs : Option Observations) (d : Draft)
    → Observed n obs
    → IsSound n d
    → (d' : Draft) × (convert_observations obs d ≡ some d') × IsSound n d'
unfolding convert_observations
convert_observations-IsSound n none d h sound = (d, refl, sound)
convert_observations-IsSound n (some obs) d h sound =
    let (few, points) = h in
    let (s1, below, count) = store_observations-IsSound n obs.observations [] d sound tt in
    let indices = (store_observations obs.observations [] d).0 in
    let d1 = (store_observations obs.observations [] d).1 in
    let all : All (Points (length indices)) obs.actors_map =
      subst (λ k. All (Points k) obs.actors_map) (sym (count ∙ omega arith)) points in
    let (d2, e, (s2, below2)) =
      each_lem (λ d'. IsSound n d' × Below (length d'.payloads) indices)
        (λ e. (e.0 < n) × Points (length indices) e.1) (set_observation indices)
        (set_observation-IsSound n indices) (enumerate_from 0 obs.actors_map) d1
        (enumerate-All (Points (length indices)) n 0 obs.actors_map (omega arith) all)
        (s1, below) in
    (d2, e, s2)

set_action-IsSound :
    (n : ℕ) (e : ℕ × String) (d : Draft)
    → (e.0 < n) × Unit {0}
    → IsSound n d
    → (d' : Draft) × (set_action e d ≡ some d') × IsSound n d'
set_action-IsSound n (actor_index, content) d (lt, _) sound =
    let (d', f, s, same) =
      update-IsSound n actor_index (λ a. record a { action = some (next_payload d) })
        (with_payload content d) lt (with_payload-IsSound n content d sound)
        (λ a (o, c, r, t, x, y). (refl, (o, (next_payload-le content d, tt), r, t, x, y))) in
    (d', f, s)

pub All-Unit {ℓ} : {A : Type ℓ} (items : List A) → All (λ a. Unit {0}) items
All-Unit [] = tt
All-Unit (a ∷ items) = (tt, All-Unit items)

pub convert_actions-IsSound :
    (n : ℕ) (actions : List String) (d : Draft)
    → length actions ≤ n
    → IsSound n d
    → (d' : Draft) × (convert_actions actions d ≡ some d') × IsSound n d'
unfolding convert_actions
convert_actions-IsSound n actions d few sound =
    each_lem (IsSound n) (λ e. (e.0 < n) × Unit {0}) set_action (set_action-IsSound n)
      (enumerate_from 0 actions) d
      (enumerate-All (λ c. Unit {0}) n 0 actions (omega arith) (All-Unit actions)) sound

insert-Below :
    (n k : ℕ) (v : List RewardSource) (m : Dict ℕ (List RewardSource))
    → k < n
    → All (λ e. e.0 < n) m
    → All (λ e. e.0 < n) (insert k v m)
unfolding insert
insert-Below n k v [] lt h = (lt, tt)
insert-Below n k v ((j, w) ∷ m) lt h = elim (Bool-cases (j == k)) [
  | inl same ↦ rw same (lt, h.1)
  | inr other ↦ rw other (h.0, insert-Below n k v m lt h.1)
]

pub accumulate-IsSound :
    (n k : ℕ) (more : List RewardSource) (d : Draft)
    → k < n
    → IsSound n d
    → IsSound n (accumulate k more d)
accumulate-IsSound n k more d lt sound = record {
  count = sound.count;
  rewarded = insert-Below n k _ d.reward_accumulator lt sound.rewarded;
  at = sound.at;
}

-- The index of the user data, if there is one, is in range.
pub store_user_data-IsSound :
    (n : ℕ) (value : Option String) (d : Draft)
    → IsSound n d
    → IsSound n (store_user_data value d).1
      × Below (length (store_user_data value d).1.payloads) (index_of (store_user_data value d).0)
store_user_data-IsSound n none d sound = (sound, tt)
store_user_data-IsSound n (some value) d sound = elim (Bool-cases (str_eq value "")) [
  | inl empty ↦ rw empty (sound, tt)
  | inr more ↦ rw more (with_payload-IsSound n value d sound, (next_payload-le value d, tt))
]

-- An index of an actor is in range, or is not one.
abbrev pub Names : ℕ → ℤ → Type 0
Names n (negsuc k) = Unit
Names n (pos index) = index < n

pub lookup-Within :
    (n index : ℕ) (name : String) (indices : Dict String ℕ)
    → Within n indices
    → lookup name indices ≡ some index
    → index < n
unfolding lookup
lookup-Within n index name [] h e = absurd (ground (arith, e))
lookup-Within n index name ((j, i) ∷ indices) h e = elim (Bool-cases (str_eq j name)) [
  | inl same ↦ ground (arith, same, h.0, e)
  | inr other ↦ lookup-Within n index name indices h.1 (ground (arith, other, e))
]

pub actor_index-Names :
    (n : ℕ) (name : String) (indices : Dict String ℕ)
    → Within n indices
    → Names n (actor_index_from_actor_name name indices)
unfolding actor_index_from_actor_name
actor_index-Names n name indices h = elim (Option-cases (lookup name indices)) [
  | inl missing ↦ rw missing tt
  | inr (index, found) ↦ rw found (elim (Bool-cases (ltb index (2 ^ 31))) [
    | inl small ↦ rw small (lookup-Within n index name indices h found)
    | inr large ↦ rw large tt
  ])
]

pub update_actor-IsSound :
    (n : ℕ) (index : ℤ) (change : ActorSample → ActorSample) (d : Draft)
    → Names n index
    → IsSound n d
    → ((a : ActorSample)
        → Refers (length d.payloads) a
        → ((change a).actor ≡ a.actor) × Refers (length d.payloads) (change a))
    → (d' : Draft) × (update_actor index change d ≡ some d')
      × IsSound n d'
      × (d'.payloads ≡ d.payloads)
update_actor-IsSound n (negsuc k) change d names sound keeps = (d, refl, sound, refl)
update_actor-IsSound n (pos index) change d names sound keeps =
    update-IsSound n index change d names sound keeps
