-- ===== src/Datastore/Datalog/Drafts.antt =====
-- datalogServer.go: what is sent (common.proto and datalog.proto), and the sample under construction up
-- to its observations and actions.
use Prim.Native.Char.{Char, code}
use cogment.Prelude.{
  ℤ, pos, negsuc, ℕ, zero, suc, ◌+◌, ◌-◌, ◌^◌, String, Bool, Option, none, some, List, [], ◌∷◌,
  ◌++◌, ◌==◌, ltb, if◌then◌else◌, length, get_elem?, set, string_key, id_key,
}
use cogment.Prelude.Dict.{Dict, lookup, insert}
use cogment.Datastore.Memory.{u32}
use cogment.Datastore.SampleFilter.{ActorParams, ActorSample, Payloads, bind}

pub record Floats : Type 0 where
  pub nothing : String
  pub positive : String → Bool
  pub add : String → String → String
  pub times : String → String → String
  pub divided_by : String → String → String

pub record RewardSource : Type 0 where
  pub sender_name : String
  pub value : String
  pub confidence : String
  pub user_data : Option String

pub record Reward : Type 0 where
  pub receiver_name : String
  pub sources : List RewardSource

pub record Message : Type 0 where
  pub sender_name : String
  pub receiver_name : String
  pub payload : Option String

pub record Observations : Type 0 where
  pub observations : List String
  pub actors_map : List ℤ

pub record SampleInfo : Type 0 where
  pub tick_id : ℕ
  pub timestamp : ℕ
  pub state : ℕ

-- The content of an action stands for it.
pub record DatalogSample : Type 0 where
  pub info : Option SampleInfo
  pub observations : Option Observations
  pub actions : List String
  pub rewards : List Reward
  pub messages : List Message

-- `int32(n)` of a `uint32`.
abbrev pub to_int32 : ℕ → ℤ
to_int32 n = if ltb n (2 ^ 31) then pos n else negsuc (2 ^ 32 - 1 - n)

-- `strings.Split` by one character.
abbrev before_first : Char → List String → List String
before_first c [] = String.◌∷◌ c "" ∷ []
before_first c (part ∷ parts) = String.◌∷◌ c part ∷ parts

unfoldable pub split : ℕ → String → List String
split sep String.[] = "" ∷ []
split sep (String.◌∷◌ c s) =
    let rest = split sep s in if code c == sep then "" ∷ rest else before_first c rest

abbrev pub index_or_environment : Option ℕ → ℤ
index_or_environment none = negsuc 0
index_or_environment (some index) = to_int32 index

unfoldable pub actor_index_from_actor_name : String → Dict String ℕ → ℤ
actor_index_from_actor_name name indices = index_or_environment (lookup name indices)

-- The index of each actor by its name.
unfoldable pub index_actors : ℕ → List ActorParams → Dict String ℕ → Dict String ℕ
index_actors index [] indices = indices
index_actors index (p ∷ actors) indices =
    index_actors (index + 1) actors (insert p.name (u32 index) indices)

-- A loop whose body may stop the process.
unfoldable pub each {ℓ κ} : {A : Type ℓ} {S : Type κ} → (A → S → Option S) → List A → S → Option S
each body [] s = some s
each body (a ∷ rest) s = bind (body a s) (λ s'. each body rest s')

unfoldable pub enumerate_from {ℓ} : {A : Type ℓ} → ℕ → List A → List (ℕ × A)
enumerate_from i [] = []
enumerate_from i (a ∷ rest) = (i, a) ∷ enumerate_from (i + 1) rest

-- The sample under construction.
pub record Draft : Type 0 where
  pub actor_samples : List ActorSample
  pub payloads : Payloads
  pub reward_accumulator : Dict ℕ (List RewardSource)

abbrev pub blank : ℕ → ActorSample
blank index = record {
  actor = u32 index;
  observation = none;
  action = none;
  reward = none;
  received_rewards = [];
  sent_rewards = [];
  received_messages = [];
  sent_messages = [];
}

unfoldable pub blanks : ℕ → ℕ → List ActorSample
blanks index zero = []
blanks index (suc n) = blank index ∷ blanks (index + 1) n

-- `sample.ActorSamples[index]` changes.
unfoldable pub update : ℕ → (ActorSample → ActorSample) → Draft → Option Draft
update index change d =
    bind (get_elem? d.actor_samples index)
      (λ a. some (record d { actor_samples = set d.actor_samples index (change a) }))

abbrev pub with_payload : String → Draft → Draft
with_payload content d = record d { payloads = d.payloads ++ (some content ∷ []) }

abbrev pub next_payload : Draft → ℕ
next_payload d = u32 (length d.payloads)

unfoldable pub store_observations : List String → List ℕ → Draft → List ℕ × Draft
store_observations [] indices d = (indices, d)
store_observations (content ∷ rest) indices d =
    store_observations rest (indices ++ (next_payload d ∷ [])) (with_payload content d)

-- `&payloadIndexFromObsIndex[obsIndex]`.
abbrev pub payload_of : List ℕ → ℤ → Option ℕ
payload_of indices (negsuc n) = none
payload_of indices (pos index) = get_elem? indices index

abbrev pub set_observation : List ℕ → ℕ × ℤ → Draft → Option Draft
set_observation indices (actor_index, obs_index) d =
    bind (payload_of indices obs_index)
      (λ p. update actor_index (λ a. record a { observation = some p }) d)

unfoldable pub convert_observations : Option Observations → Draft → Option Draft
unfolding each enumerate_from store_observations update
convert_observations none d = some d
convert_observations (some obs) d =
    let (indices, d') = store_observations obs.observations [] d in
    each (set_observation indices) (enumerate_from 0 obs.actors_map) d'

abbrev pub set_action : ℕ × String → Draft → Option Draft
set_action (actor_index, content) d =
    update actor_index (λ a. record a { action = some (next_payload d) }) (with_payload content d)

unfoldable pub convert_actions : List String → Draft → Option Draft
unfolding each enumerate_from update
convert_actions actions d = each set_action (enumerate_from 0 actions) d
