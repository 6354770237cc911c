-- ===== src/Datastore/SampleFilter.antt =====
-- packages/cli/services/datastore/backend/trialSampleFilter.go. A slice index out of range stops the
-- process: `none`. An enum of the API is its number, which is not negative. A payload that was not
-- copied is `nil`.
pub mod Selection
pub mod Payloads
pub mod Filtered
use cogment.Prelude.{
  ℤ, ℕ, zero, suc, ◌+◌, String, Bool, true, false, Option, none, some, List, [], ◌∷◌, ◌++◌, ◌==◌,
  ltb, not, ◌&&◌, if◌then◌else◌, length, get_elem?, set, replicate,
}
use cogment.Utils.Filters.{IdFilter, new_id_filter, selects_all, selects}

pub record TrialSampleFilter : Type 0 where
  pub actor_names : List String
  pub actor_classes : List String
  pub actor_implementations : List String
  pub fields : List ℕ

pub record ActorParams : Type 0 where
  pub name : String
  pub actor_class : String
  pub implementation : String

pub record ActorSampleReward : Type 0 where
  pub sender : ℤ
  pub receiver : ℤ
  pub reward : String
  pub confidence : String
  pub user_data : Option ℕ

pub record ActorSampleMessage : Type 0 where
  pub sender : ℤ
  pub receiver : ℤ
  pub payload : ℕ

-- A float of the API is its text: the code only copies it.
pub record ActorSample : Type 0 where
  pub actor : ℕ
  pub observation : Option ℕ
  pub action : Option ℕ
  pub reward : Option String
  pub received_rewards : List ActorSampleReward
  pub sent_rewards : List ActorSampleReward
  pub received_messages : List ActorSampleMessage
  pub sent_messages : List ActorSampleMessage

abbrev pub Payloads : Type 0
Payloads = List (Option String)

pub record TrialSample : Type 0 where
  pub user_id : String
  pub trial_id : String
  pub tick_id : ℕ
  pub timestamp : ℕ
  pub state : ℕ
  pub actor_samples : List ActorSample
  pub payloads : Payloads

abbrev pub ArrayFilter : Type 0
ArrayFilter = List Bool

abbrev pub bind {ℓ κ} : {A : Type ℓ} {B : Type κ} → Option A → (A → Option B) → Option B
bind none f = none
bind (some a) f = f a

abbrev pub new_array_filter : ℕ → ArrayFilter
new_array_filter size = replicate size false

abbrev pub set_all : ArrayFilter → Bool → ArrayFilter
set_all [] b = []
set_all (c ∷ filter) b = b ∷ set_all filter b

unfoldable pub set_index : ArrayFilter → ℕ → Bool → Option ArrayFilter
set_index filter index b = if ltb index (length filter) then some (set filter index b) else none

abbrev pub array_selects_all : ArrayFilter → Bool
array_selects_all [] = true
array_selects_all (b ∷ filter) = if not b then false else array_selects_all filter

abbrev pub array_selects : ArrayFilter → ℕ → Option Bool
array_selects filter index = get_elem? filter index

-- The test of one of the three filters.
abbrev pub selects_one : IdFilter → String → Bool
selects_one filter id = if not (selects_all filter) then selects filter id else true

abbrev pub selects_actor : IdFilter → IdFilter → IdFilter → ActorParams → Bool
selects_actor names classes implementations p =
    selects_one names p.name
    && selects_one classes p.actor_class
    && selects_one implementations p.implementation

unfoldable pub set_each :
    (ActorParams → Bool) → ArrayFilter → ℕ → List ActorParams → Option ArrayFilter
unfolding set_index
set_each test filter index [] = some filter
set_each test filter index (p ∷ actors) =
    bind (set_index filter index (test p)) (λ filter'. set_each test filter' (index + 1) actors)

unfoldable pub new_actors_filter : TrialSampleFilter → List ActorParams → Option ArrayFilter
unfolding set_each
new_actors_filter filter actors =
    let names = new_id_filter filter.actor_names in
    let classes = new_id_filter filter.actor_classes in
    let implementations = new_id_filter filter.actor_implementations in
    let none_yet = new_array_filter (length actors) in
    if selects_all names && selects_all classes && selects_all implementations
    then some (set_all none_yet true)
    else set_each (selects_actor names classes implementations) (set_all none_yet false) 0 actors

abbrev pub nb_fields : ℕ
nb_fields = 8

unfoldable pub set_fields : ArrayFilter → List ℕ → Option ArrayFilter
unfolding set_index
set_fields filter [] = some filter
set_fields filter (field ∷ fields) =
    bind (if not (field == 0) then set_index filter field true else some filter)
      (λ filter'. set_fields filter' fields)

unfoldable pub new_fields_filter : List ℕ → Option ArrayFilter
unfolding set_fields
new_fields_filter fields =
    if length fields == 0
    then some (set_all (new_array_filter nb_fields) true)
    else set_fields (set_all (new_array_filter nb_fields) false) fields

-- `filteredSample.Payloads[i] = sample.Payloads[i]`.
unfoldable pub copy_payload : Payloads → Payloads → ℕ → Option Payloads
copy_payload source target i =
    bind (get_elem? source i) (λ p. if ltb i (length target) then some (set target i p) else none)

unfoldable pub copy_each : Payloads → Payloads → List ℕ → Option Payloads
unfolding copy_payload
copy_each source target [] = some target
copy_each source target (i ∷ is) = bind (copy_payload source target i) (λ t. copy_each source t is)

abbrev pub index_of : Option ℕ → List ℕ
index_of none = []
index_of (some i) = i ∷ []

abbrev pub rewards_data : List ActorSampleReward → List ℕ
rewards_data [] = []
rewards_data (r ∷ rewards) = index_of r.user_data ++ rewards_data rewards

abbrev pub messages_data : List ActorSampleMessage → List ℕ
messages_data [] = []
messages_data (m ∷ messages) = m.payload ∷ messages_data messages

-- A field with its payloads: kept and copied if the filter selects it.
module _ (fields : ArrayFilter) (source : Payloads) where
  unfoldable pub keep {ℓ} : {A : Type ℓ} → ℕ → A → A → List ℕ → Payloads → Option (A × Payloads)
  unfolding copy_each
  keep field value absent indices target = bind (array_selects fields field) (λ b.
      if b
      then bind (copy_each source target indices) (λ t. some (value, t))
      else some (absent, target))

  unfoldable pub filter_actor : ActorSample → Payloads → Option (ActorSample × Payloads)
  unfolding keep
  filter_actor a target =
      bind (keep 1 a.observation none (index_of a.observation) target) (λ (observation, t1).
        bind (keep 2 a.action none (index_of a.action) t1) (λ (action, t2).
          bind (keep 3 a.reward none [] t2) (λ (reward, t3).
            bind (keep 4 a.received_rewards [] (rewards_data a.received_rewards) t3)
              (λ (received_rewards, t4).
                bind (keep 5 a.sent_rewards [] (rewards_data a.sent_rewards) t4)
                  (λ (sent_rewards, t5).
                    bind (keep 6 a.received_messages [] (messages_data a.received_messages) t5)
                      (λ (received_messages, t6).
                        bind (keep 7 a.sent_messages [] (messages_data a.sent_messages) t6)
                          (λ (sent_messages, t7). some (
                            record {
                              actor = a.actor;
                              observation = observation;
                              action = action;
                              reward = reward;
                              received_rewards = received_rewards;
                              sent_rewards = sent_rewards;
                              received_messages = received_messages;
                              sent_messages = sent_messages;
                            },
                            t7,
                          ))))))))

  unfoldable pub filter_actors :
      ArrayFilter → List ActorSample → Payloads → Option (List ActorSample × Payloads)
  unfolding filter_actor
  filter_actors actors [] target = some ([], target)
  filter_actors actors (a ∷ samples) target = bind (array_selects actors a.actor) (λ b.
      if b
      then bind (filter_actor a target)
          (λ (a', t). bind (filter_actors actors samples t) (λ (rest, t'). some (a' ∷ rest, t')))
      else filter_actors actors samples target)

unfoldable pub filter_sample : ArrayFilter → ArrayFilter → TrialSample → Option TrialSample
unfolding filter_actors
filter_sample actors fields sample =
    if array_selects_all actors && array_selects_all fields
    then some sample
    else bind
        (filter_actors fields sample.payloads actors sample.actor_samples
          (replicate (length sample.payloads) none))
        (λ (kept, payloads). some (record sample { actor_samples = kept; payloads = payloads }))
