-- ===== src/Datastore/Datalog.antt =====
-- packages/cli/services/datastore/grpcservers/datalogServer.go: a sample of the data log becomes the
-- sample that the datastore keeps. What is sent is in common.proto and datalog.proto: a message that is
-- not set is `none`, and a use of it stops the process, as does an index out of range (`none`). The
-- arithmetic of float32 is an argument; a float is its text.
mod Drafts
pub mod Sound
pub mod Converted
pub mod Rewarded
pub mod Indices
pub mod Stored
unfoldable pub use Drafts.*
use Prim.Native.Char.{Char, code}
use cogment.Prelude.{
  ℤ, pos, negsuc, ℕ, zero, suc, ◌+◌, ◌-◌, ◌^◌, String, Bool, true, false, Option, none, some, List,
  [], ◌∷◌, ◌++◌, ◌==◌, ltb, not, ◌&&◌, ◌||◌, if◌then◌else◌, length, get_elem?, set, str_eq,
  string_key, id_key,
}
use cogment.Prelude.Dict.{Dict, lookup, insert}
use cogment.Datastore.Memory.{u32}
use cogment.Datastore.SampleFilter.{
  ActorParams, ActorSampleReward, ActorSampleMessage, ActorSample, Payloads, TrialSample, bind,
}

abbrev pub all_indices_of : Dict String ℕ → List ℕ
all_indices_of [] = []
all_indices_of ((name, index) ∷ rest) = index ∷ all_indices_of rest

abbrev pub class_matches : String → String → ActorParams → Bool
class_matches class_name actor_name p =
    str_eq p.actor_class class_name && (str_eq actor_name "*" || str_eq actor_name p.name)

unfoldable pub matching_indices : String → String → ℕ → List ActorParams → List ℕ
matching_indices class_name actor_name index [] = []
matching_indices class_name actor_name index (p ∷ rest) =
    let others = matching_indices class_name actor_name (index + 1) rest in
    if class_matches class_name actor_name p then u32 index ∷ others else others

abbrev pub sources_of : Option (List RewardSource) → List RewardSource
sources_of none = []
sources_of (some sources) = sources

abbrev pub accumulate : ℕ → List RewardSource → Draft → Draft
accumulate actor_index more d = record d {
  reward_accumulator =
      insert actor_index (sources_of (lookup actor_index d.reward_accumulator) ++ more)
        d.reward_accumulator;
}

-- The index of the user data's payload, with the draft that has it.
abbrev pub store_user_data : Option String → Draft → Option ℕ × Draft
store_user_data none d = (none, d)
store_user_data (some value) d =
    if str_eq value "" then (none, d) else (some (next_payload d), with_payload value d)

abbrev pub sent_reward : ℕ → RewardSource → Option ℕ → ActorSampleReward
sent_reward receiver source user_data = record {
  sender = pos 0;
  receiver = to_int32 receiver;
  reward = source.value;
  confidence = source.confidence;
  user_data = user_data;
}

-- If the index is not negative, a change of that actor's sample.
abbrev pub update_actor : ℤ → (ActorSample → ActorSample) → Draft → Option Draft
update_actor (negsuc n) change d = some d
update_actor (pos index) change d = update index change d

abbrev pub receive : ActorSampleReward → ActorSample → ActorSample
receive r a = record a { received_rewards = a.received_rewards ++ (r ∷ []) }

abbrev pub send : ActorSampleReward → ActorSample → ActorSample
send r a = record a { sent_rewards = a.sent_rewards ++ (r ∷ []) }

abbrev pub receive_message : ActorSampleMessage → ActorSample → ActorSample
receive_message m a = record a { received_messages = a.received_messages ++ (m ∷ []) }

abbrev pub send_message : ActorSampleMessage → ActorSample → ActorSample
send_message m a = record a { sent_messages = a.sent_messages ++ (m ∷ []) }

module _ (actor_indices : Dict String ℕ) where
  abbrev pub received_reward : RewardSource → Option ℕ → ActorSampleReward
  received_reward source user_data = record {
    sender = actor_index_from_actor_name source.sender_name actor_indices;
    receiver = pos 0;
    reward = source.value;
    confidence = source.confidence;
    user_data = user_data;
  }

  unfoldable pub add_source : ℕ → RewardSource → Draft → Option Draft
  unfolding update actor_index_from_actor_name
  add_source actor_index source d =
      let (user_data, d') =
        store_user_data source.user_data (accumulate actor_index (source ∷ []) d) in
      bind (update actor_index (receive (received_reward source user_data)) d') (
        update_actor (actor_index_from_actor_name source.sender_name actor_indices)
          (send (sent_reward actor_index source user_data)))

  unfoldable pub add_sources : List RewardSource → ℕ → Draft → Option Draft
  unfolding each add_source
  add_sources sources actor_index d =
      each (add_source actor_index) sources (accumulate actor_index [] d)

  unfoldable pub add_message : Message → Draft → Option Draft
  unfolding update actor_index_from_actor_name
  add_message m d = bind m.payload (λ value.
      let payload = next_payload d in
      let receiver = actor_index_from_actor_name m.receiver_name actor_indices in
      let sender = actor_index_from_actor_name m.sender_name actor_indices in
      bind
        (update_actor receiver
          (receive_message (record { sender = sender; receiver = pos 0; payload = payload }))
          (with_payload value d))
        (update_actor sender
          (send_message (record { sender = pos 0; receiver = receiver; payload = payload }))))

  unfoldable pub convert_messages : List Message → Draft → Option Draft
  unfolding each add_message
  convert_messages messages d = each add_message messages d

module _ (actor_indices : Dict String ℕ) (trial_actors : List ActorParams) where
  -- The parts of the receiver's name.
  abbrev pub named_indices : String → List String → List ℕ
  named_indices receiver_name (class_name ∷ actor_name ∷ rest) =
      matching_indices class_name actor_name 0 trial_actors
  named_indices receiver_name _ = elim (lookup receiver_name actor_indices) [
    | none ↦ []
    | some index ↦ index ∷ []
  ]

  unfoldable pub rewarded_actor_indices : String → List ℕ
  unfolding split matching_indices
  rewarded_actor_indices receiver_name =
      if str_eq receiver_name "*" || str_eq receiver_name "*.*"
      then all_indices_of actor_indices
      else named_indices receiver_name (split b'.' receiver_name)

  unfoldable pub add_reward : Reward → Draft → Option Draft
  unfolding each add_sources rewarded_actor_indices
  add_reward r d =
      each (add_sources actor_indices r.sources) (rewarded_actor_indices r.receiver_name) d

module _ (floats : Floats) where
  abbrev pub weigh : List RewardSource → String × String → String × String
  weigh [] accums = accums
  weigh (source ∷ rest) (value_accum, confidence_accum) =
      let more : String × String = (
        floats.add value_accum (floats.times source.value source.confidence),
        floats.add confidence_accum source.confidence,
      ) in
      weigh rest
        (if floats.positive source.confidence then more else (value_accum, confidence_accum))

  abbrev pub average : String × String → String
  average (value_accum, confidence_accum) =
      if floats.positive confidence_accum
      then floats.divided_by value_accum confidence_accum
      else value_accum

  unfoldable pub total_reward : List RewardSource → String
  total_reward sources = average (weigh sources (floats.nothing, floats.nothing))

  abbrev pub set_reward : ℕ × List RewardSource → Draft → Option Draft
  set_reward (actor_index, sources) d =
      update actor_index (λ a. record a { reward = some (total_reward sources) }) d

module _ (floats : Floats) (actor_indices : Dict String ℕ) (trial_actors : List ActorParams) where
  unfoldable pub convert_rewards : List Reward → Draft → Option Draft
  unfolding each add_reward total_reward update
  convert_rewards rewards d =
      bind (each (add_reward actor_indices trial_actors) rewards d)
        (λ d'. each (set_reward floats) d'.reward_accumulator d')

  abbrev pub first_draft : Draft
  first_draft = record {
    actor_samples = blanks 0 (length actor_indices);
    payloads = [];
    reward_accumulator = [];
  }

  unfoldable pub convert : DatalogSample → Option Draft
  unfolding convert_observations convert_actions convert_rewards convert_messages blanks
  convert s = bind (convert_observations s.observations first_draft) (λ d1.
      bind (convert_actions s.actions d1)
        (λ d2. bind (convert_rewards s.rewards d2) (convert_messages actor_indices s.messages)))

  unfoldable pub trial_sample_from_datalog_sample : String → DatalogSample → Option TrialSample
  unfolding convert
  trial_sample_from_datalog_sample trial_id s = bind s.info (λ info. bind (convert s) (λ d.
      some (record {
        user_id = "";
        trial_id = trial_id;
        tick_id = info.tick_id;
        timestamp = info.timestamp;
        state = info.state;
        actor_samples = d.actor_samples;
        payloads = d.payloads;
      })))
