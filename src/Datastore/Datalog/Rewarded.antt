-- ===== src/Datastore/Datalog/Rewarded.antt =====
-- datalogServer.go: the rewards and the messages of a sample of the data log keep the payload indices in
-- range.
use cogment.Prelude.{
  pos, ℕ, ◌+◌, ◌≤◌, ◌<◌, ◌≡◌, refl, sym, subst, inl, inr, String, none, some, List, [], ◌∷◌, arith,
  length, All, ◌||◌, Bool-cases, Option-cases, str_eq, id_key, string_key,
}
use cogment.Prelude.Dict.{Dict, lookup}
use cogment.Datastore.SampleFilter.{ActorParams, ActorSampleMessage, index_of}
use cogment.Datastore.Datalog.{
  RewardSource, Reward, Message, Draft, with_payload, next_payload, all_indices_of,
  matching_indices, accumulate, store_user_data, receive, send, received_reward, sent_reward,
  receive_message, send_message, add_source, add_sources, add_message, convert_messages,
  rewarded_actor_indices, add_reward, actor_index_from_actor_name, class_matches, Floats,
  set_reward, total_reward, convert_rewards, split, named_indices,
}
use cogment.Datastore.Datalog.Sound.{
  Below, IsSound, each_lem, update-IsSound, with_payload-IsSound, rewards_data-Below,
  messages_data-Below, next_payload-le,
}
use cogment.Datastore.Datalog.Converted.{
  Within, All-Unit, accumulate-IsSound, store_user_data-IsSound, lookup-Within, actor_index-Names,
  update_actor-IsSound,
}

add_source-IsSound :
    (n : ℕ) (actor_indices : Dict String ℕ)
    → Within n actor_indices
    → (k : ℕ) (source : RewardSource) (d : Draft) → k < n
    → IsSound n d
    → (d' : Draft) × (add_source actor_indices k source d ≡ some d') × IsSound n d'
unfolding add_source
add_source-IsSound n actor_indices within k source d lt sound =
    let start = accumulate k (source ∷ []) d in
    let stored = store_user_data source.user_data start in
    let (s1, below) =
      store_user_data-IsSound n source.user_data start
        (accumulate-IsSound n k (source ∷ []) d lt sound) in
    let (d2, e2, s2, same) =
      update-IsSound n k (receive (received_reward actor_indices source stored.0)) stored.1 lt s1
        (λ a (o, c, r, t, x, y).
          (refl, (o, c, rewards_data-Below _ a.received_rewards _ r below, t, x, y))) in
    let (d3, e3, s3, _) =
      update_actor-IsSound n (actor_index_from_actor_name source.sender_name actor_indices)
        (send (sent_reward k source stored.0)) d2
        (actor_index-Names n source.sender_name actor_indices within) s2
        (λ a (o, c, r, t, x, y). (
          refl,
          (
            o,
            c,
            r,
            rewards_data-Below _ a.sent_rewards _ t
                (subst (λ ps. Below (length ps) (index_of stored.0)) (sym same) below),
            x,
            y,
          ),
        )) in
    (d3, rw e2 e3, s3)

add_sources-IsSound :
    (n : ℕ) (actor_indices : Dict String ℕ)
    → Within n actor_indices
    → (sources : List RewardSource) (k : ℕ) (d : Draft) → k < n
    → IsSound n d
    → (d' : Draft) × (add_sources actor_indices sources k d ≡ some d') × IsSound n d'
unfolding add_sources
add_sources-IsSound n actor_indices within sources k d lt sound =
    each_lem (IsSound n) (λ source. Unit {0}) (add_source actor_indices k)
      (λ source d' _ s. add_source-IsSound n actor_indices within k source d' lt s) sources
      (accumulate k [] d) (All-Unit sources) (accumulate-IsSound n k [] d lt sound)

all_indices_of-Below :
    (n : ℕ) (indices : Dict String ℕ) → Within n indices → Below n (all_indices_of indices)
all_indices_of-Below n [] h = tt
all_indices_of-Below n ((name, index) ∷ rest) h = (h.0, all_indices_of-Below n rest h.1)

matching_indices-Below :
    (n : ℕ) (class_name actor_name : String) (k : ℕ) (actors : List ActorParams)
    → k + length actors ≤ n
    → Below n (matching_indices class_name actor_name k actors)
unfolding matching_indices
matching_indices-Below n class_name actor_name k [] few = tt
matching_indices-Below n class_name actor_name k (p ∷ rest) few =
    let others = matching_indices-Below n class_name actor_name (k + 1) rest (omega arith) in
    elim (Bool-cases (class_matches class_name actor_name p)) [
      | inl same ↦ rw same (omega arith, others)
      | inr other ↦ rw other others
    ]

module _ (n : ℕ) (actor_indices : Dict String ℕ) (trial_actors : List ActorParams)
    (within : Within n actor_indices) (few : length trial_actors ≤ n) where
  found_index-Below :
      (name : String)
      → Below n (elim (lookup name actor_indices) [ none ↦ [] | some index ↦ index ∷ [] ])
  found_index-Below name = elim (Option-cases (lookup name actor_indices)) [
    | inl missing ↦ rw missing tt
    | inr (index, found) ↦ rw found (lookup-Within n index name actor_indices within found, tt)
  ]

  named_indices-Below :
      (name : String) (parts : List String)
      → Below n (named_indices actor_indices trial_actors name parts)
  named_indices-Below name [] = found_index-Below name
  named_indices-Below name (part ∷ []) = found_index-Below name
  named_indices-Below name (class_name ∷ actor_name ∷ rest) =
      matching_indices-Below n class_name actor_name 0 trial_actors (omega arith)

  rewarded_actor_indices-Below :
      (name : String) → Below n (rewarded_actor_indices actor_indices trial_actors name)
  unfolding rewarded_actor_indices
  rewarded_actor_indices-Below name = elim (Bool-cases (str_eq name "*" || str_eq name "*.*")) [
    | inl all ↦ rw all (all_indices_of-Below n actor_indices within)
    | inr one ↦ rw one (named_indices-Below name (split b'.' name))
  ]

  add_reward-IsSound :
      (r : Reward) (d : Draft)
      → IsSound n d
      → (d' : Draft) × (add_reward actor_indices trial_actors r d ≡ some d') × IsSound n d'
  unfolding add_reward
  add_reward-IsSound r d sound =
      each_lem (IsSound n) (λ k. k < n) (add_sources actor_indices r.sources)
        (add_sources-IsSound n actor_indices within r.sources)
        (rewarded_actor_indices actor_indices trial_actors r.receiver_name) d
        (rewarded_actor_indices-Below r.receiver_name) sound

  pub convert_rewards-IsSound :
      (floats : Floats) (rewards : List Reward) (d : Draft)
      → IsSound n d
      → (d' : Draft) × (convert_rewards floats actor_indices trial_actors rewards d ≡ some d')
        × IsSound n d'
  unfolding convert_rewards
  convert_rewards-IsSound floats rewards d sound =
      let (d1, e1, s1) =
        each_lem (IsSound n) (λ r. Unit {0}) (add_reward actor_indices trial_actors)
          (λ r d' _ s. add_reward-IsSound r d' s) rewards d (All-Unit rewards) sound in
      let (d2, e2, s2) =
        each_lem (IsSound n) (λ e. e.0 < n) (set_reward floats) (set_reward-IsSound floats)
          d1.reward_accumulator d1 s1.rewarded s1 in
      (d2, rw e1 e2, s2)
    where
      set_reward-IsSound :
          (floats : Floats) (e : ℕ × List RewardSource) (d' : Draft)
          → e.0 < n
          → IsSound n d'
          → (d'' : Draft) × (set_reward floats e d' ≡ some d'') × IsSound n d''
      set_reward-IsSound floats (k, sources) d' lt s =
          let (d'', f, t, same) =
            update-IsSound n k (λ a. record a { reward = some (total_reward floats sources) }) d' lt
              s (λ a refers. (refl, refers)) in
          (d'', f, t)

abbrev pub HasPayload : Message → Type 0
HasPayload m = (value : String) × (m.payload ≡ some value)

add_message-IsSound :
    (n : ℕ) (actor_indices : Dict String ℕ)
    → Within n actor_indices
    → (m : Message) (d : Draft) → HasPayload m
    → IsSound n d
    → (d' : Draft) × (add_message actor_indices m d ≡ some d') × IsSound n d'
unfolding add_message
add_message-IsSound n actor_indices within m d (value, has) sound =
    let next = next_payload d in
    let receiver = actor_index_from_actor_name m.receiver_name actor_indices in
    let sender = actor_index_from_actor_name m.sender_name actor_indices in
    let received : ActorSampleMessage = record {
      sender = sender;
      receiver = pos 0;
      payload = next;
    } in
    let sent : ActorSampleMessage = record {
      sender = pos 0;
      receiver = receiver;
      payload = next;
    } in
    let d1 = with_payload value d in
    let (d2, e2, s2, more) =
      update_actor-IsSound n receiver (receive_message received) d1
        (actor_index-Names n m.receiver_name actor_indices within)
        (with_payload-IsSound n value d sound)
        (λ a (o, c, r, t, x, y). (
          refl,
          (
            o,
            c,
            r,
            t,
            messages_data-Below _ a.received_messages received x (next_payload-le value d),
            y,
          ),
        )) in
    let (d3, e3, s3, _) =
      update_actor-IsSound n sender (send_message sent) d2
        (actor_index-Names n m.sender_name actor_indices within) s2
        (λ a (o, c, r, t, x, y). (
          refl,
          (
            o,
            c,
            r,
            t,
            x,
            messages_data-Below _ a.sent_messages sent y
                (subst (λ ps. next < length ps) (sym more) (next_payload-le value d)),
          ),
        )) in
    (d3, rw has (rw e2 e3), s3)

pub convert_messages-IsSound :
    (n : ℕ) (actor_indices : Dict String ℕ)
    → Within n actor_indices
    → (messages : List Message) (d : Draft) → All HasPayload messages
    → IsSound n d
    → (d' : Draft) × (convert_messages actor_indices messages d ≡ some d') × IsSound n d'
unfolding convert_messages
convert_messages-IsSound n actor_indices within =
    each_lem (IsSound n) HasPayload (add_message actor_indices)
      (add_message-IsSound n actor_indices within)
