-- ===== src/Datastore/Datalog/Stored.antt =====
-- datalogServer.go with trialSampleFilter.go: the sample that is stored has the payloads that it
-- refers to, and can be filtered.
use cogment.Prelude.{
  ℕ, suc, ◌+◌, ◌≤◌, ◌<◌, ◌≡◌, ◌∙◌, refl, sym, subst, ap, inl, inr, String, Bool, true, false,
  Option, none, some, List, [], ◌∷◌, if◌then◌else◌, arith, length, get_elem?, All, All-append,
  Bool-cases, string_key,
}
use cogment.Prelude.Dict.{Dict}
use cogment.Datastore.Memory.{u32}
use cogment.Datastore.SampleFilter.{
  ActorParams, ActorSample, TrialSample, ArrayFilter, index_of, rewards_data, messages_data, bind,
  filter_sample, nb_fields,
}
use cogment.Datastore.SampleFilter.Payloads.{InRange}
use cogment.Datastore.SampleFilter.Filtered.{
  on, kept_actor, kept_actors, indices_of, all_indices, filter_sample_lem,
}
use cogment.Datastore.Datalog.{
  Floats, Draft, DatalogSample, SampleInfo, index_actors, enumerate_from,
  trial_sample_from_datalog_sample, convert,
}
use cogment.Datastore.Datalog.Sound.{Below, Refers, IsSound, blanks-IsSound}
use cogment.Datastore.Datalog.Indices.{
  NamesOnce, all-AreNew, index_actors-Within, length-index_actors,
}
use cogment.Datastore.Datalog.Rewarded.{
  HasPayload, convert_rewards-IsSound, convert_messages-IsSound,
}
use cogment.Datastore.Datalog.Converted.{
  Observed, Within, convert_observations-IsSound, convert_actions-IsSound,
}

-- A sample of the data log for `n` actors: its information is there, each actor of the map has an
-- observation of the list, there are no more actions than actors, and each message has a payload.
pub record IsComplete (n : ℕ) (s : DatalogSample) : Type 0 where
  pub informed : (info : SampleInfo) × (s.info ≡ some info)
  pub observed : Observed n s.observations
  pub acted : length s.actions ≤ n
  pub told : All HasPayload s.messages

Refers-InRange : (n : ℕ) (a : ActorSample) → Refers n a → Below n (indices_of a)
Refers-InRange n a (o, c, r, t, x, y) = All-append _ (index_of a.observation) _ o (
    All-append _ (index_of a.action) _ c (
      All-append _ (rewards_data a.received_rewards) _ r (
        All-append _ (rewards_data a.sent_rewards) _ t
          (All-append _ (messages_data a.received_messages) _ x y))))

enumerate-get {ℓ} :
    {A : Type ℓ} (P : ℕ → A → Type 0) (k : ℕ) (xs : List A)
    → ((i : ℕ) (a : A) → get_elem? xs i ≡ some a → P (k + i) a)
    → All (λ (i, a). P i a) (enumerate_from k xs)
unfolding enumerate_from
enumerate-get P k [] h = tt
enumerate-get P k (x ∷ xs) h = (
  (let e : k + 0 ≡ k = omega arith in subst (λ i. P i x) e (h 0 x refl)),
  enumerate-get P (k + 1) xs (λ i a g.
      let e : k + suc i ≡ k + 1 + i = omega arith in subst (λ j. P j a) e (h (suc i) a g)),
)

abbrev HasParts : TrialSample → Type 0
HasParts sample =
    (i : ℕ) (a : ActorSample)
    → get_elem? sample.actor_samples i ≡ some a
    → (a.actor ≡ u32 i) × Refers (length sample.payloads) a

abbrev made : String → SampleInfo → Draft → TrialSample
made trial_id info d = record {
  user_id = "";
  trial_id = trial_id;
  tick_id = info.tick_id;
  timestamp = info.timestamp;
  state = info.state;
  actor_samples = d.actor_samples;
  payloads = d.payloads;
}

module _ (floats : Floats) (actor_indices : Dict String ℕ) (trial_actors : List ActorParams)
    (within : Within (length actor_indices) actor_indices)
    (few : length trial_actors ≤ length actor_indices) where
  convert-IsSound :
      (s : DatalogSample)
      → IsComplete (length actor_indices) s
      → (d : Draft) × (convert floats actor_indices trial_actors s ≡ some d)
        × IsSound (length actor_indices) d
  unfolding convert
  convert-IsSound s complete =
      let n = length actor_indices in
      let (d1, e1, s1) =
        convert_observations-IsSound n s.observations _ complete.observed (blanks-IsSound n) in
      let (d2, e2, s2) = convert_actions-IsSound n s.actions d1 complete.acted s1 in
      let (d3, e3, s3) =
        convert_rewards-IsSound n actor_indices trial_actors within few floats s.rewards d2 s2 in
      let (d4, e4, s4) =
        convert_messages-IsSound n actor_indices within s.messages d3 complete.told s3 in
      (d4, rw e1 (rw e2 (rw e3 e4)), s4)

  trial_sample-HasParts :
      (trial_id : String) (s : DatalogSample)
      → IsComplete (length actor_indices) s
      → (sample : TrialSample) × (trial_sample_from_datalog_sample floats actor_indices trial_actors
            trial_id s
          ≡ some sample)
        × (length sample.actor_samples ≡ length actor_indices)
        × HasParts sample
  unfolding trial_sample_from_datalog_sample
  trial_sample-HasParts trial_id s complete =
      let (info, e) = complete.informed in
      let (d, f, sound) = convert-IsSound s complete in
      (made trial_id info d, rw e (rw f refl), sound.count, sound.at)

choose {ℓ} : {A : Type ℓ} (P : A → Type 0) (b : Bool) (x y : A) → P x → P y → P (if b then x else y)
choose P true x y h k = h
choose P false x y h k = k

kept-Refers :
    (n : ℕ) (fields : ArrayFilter) (a : ActorSample) → Refers n a → Refers n (kept_actor fields a)
kept-Refers n fields a (o, c, r, t, x, y) = (
  choose (λ v. Below n (index_of v)) (on fields 1) a.observation none o tt,
  choose (λ v. Below n (index_of v)) (on fields 2) a.action none c tt,
  choose (λ v. Below n (rewards_data v)) (on fields 4) a.received_rewards [] r tt,
  choose (λ v. Below n (rewards_data v)) (on fields 5) a.sent_rewards [] t tt,
  choose (λ v. Below n (messages_data v)) (on fields 6) a.received_messages [] x tt,
  choose (λ v. Below n (messages_data v)) (on fields 7) a.sent_messages [] y tt,
)

kept_actors-Below :
    (n : ℕ) (actors fields : ArrayFilter) (samples : List ActorSample)
    → All (Refers n) samples
    → Below n (all_indices (kept_actors actors fields samples))
kept_actors-Below n actors fields [] h = tt
kept_actors-Below n actors fields (a ∷ samples) h =
    let rest = kept_actors-Below n actors fields samples h.1 in
    let here = Refers-InRange n (kept_actor fields a) (kept-Refers n fields a h.0) in
    elim (Bool-cases (on actors a.actor)) [
      | inl kept ↦ rw kept (All-append _ (indices_of (kept_actor fields a)) _ here rest)
      | inr left ↦ rw left rest
    ]

All-get {ℓ} :
    {A : Type ℓ} (P : A → Type 0) (xs : List A)
    → ((i : ℕ) (a : A) → i < length xs → get_elem? xs i ≡ some a → P a)
    → All P xs
All-get P [] h = tt
All-get P (x ∷ xs) h =
    (h 0 x (omega arith) refl, All-get P xs (λ i a lt e. h (suc i) a (omega arith) e))

-- The sample that is stored for a sample of a trial's data log.
abbrev pub stored_sample : Floats → List ActorParams → String → DatalogSample → Option TrialSample
stored_sample floats actors =
    trial_sample_from_datalog_sample floats (index_actors 0 actors []) actors

stored_sample-HasParts :
    (floats : Floats) (actors : List ActorParams) (trial_id : String) (s : DatalogSample)
    → NamesOnce actors
    → IsComplete (length actors) s
    → (sample : TrialSample) × (stored_sample floats actors trial_id s ≡ some sample)
      × (length sample.actor_samples ≡ length actors)
      × HasParts sample
stored_sample-HasParts floats actors trial_id s once complete =
    let indices = index_actors 0 actors [] in
    let count : length indices ≡ length actors =
      length-index_actors 0 actors [] once (all-AreNew actors) ∙ omega arith in
    let (sample, e, l, parts) =
      trial_sample-HasParts floats indices actors
        (subst (λ n. Within n indices) (sym count)
          (index_actors-Within (length actors) 0 actors [] (omega arith) tt))
        (omega (arith, count)) trial_id s (subst (λ n. IsComplete n s) (sym count) complete) in
    (sample, e, l ∙ count, parts)

-- If the names of a trial's actors differ, a complete sample of the data log is converted: to a sample
-- with an entry for each actor, in order, in which each index of a payload is one of the sample's
-- payloads.
pub stored_sample_lem :
    (floats : Floats) (actors : List ActorParams) (trial_id : String) (s : DatalogSample)
    → NamesOnce actors
    → IsComplete (length actors) s
    → (sample : TrialSample) × (stored_sample floats actors trial_id s ≡ some sample)
      × (length sample.actor_samples ≡ length actors)
      × All
          (λ (i, a). (a.actor ≡ u32 i) × InRange sample.payloads (indices_of a))
          (enumerate_from 0 sample.actor_samples)
stored_sample_lem floats actors trial_id s once complete =
    let (sample, e, count, parts) = stored_sample-HasParts floats actors trial_id s once complete in
    (
      sample,
      e,
      count,
      enumerate-get (λ i a. (a.actor ≡ u32 i) × InRange sample.payloads (indices_of a)) 0
          sample.actor_samples
          (λ i a h.
            let (numbered, refers) = parts i a h in
            (numbered ∙ ap u32 (omega arith), Refers-InRange (length sample.payloads) a refers)),
    )

-- Such a sample is filtered without an index out of range, by a filter with an entry for each actor and
-- one for each field.
pub filter-stored_sample :
    (floats : Floats) (actors : List ActorParams) (trial_id : String) (s : DatalogSample)
    (by_actor by_field : ArrayFilter)
    → NamesOnce actors
    → IsComplete (length actors) s
    → length by_actor ≡ length actors
    → length by_field ≡ nb_fields
    → (filtered : TrialSample) × (bind
          (stored_sample floats actors trial_id s)
          (filter_sample by_actor by_field)
        ≡ some filtered)
filter-stored_sample floats actors trial_id s by_actor by_field once complete l f =
    let (sample, e, count, parts) = stored_sample-HasParts floats actors trial_id s once complete in
    let (payloads, r, _) =
      filter_sample_lem by_actor by_field sample f
        (All-get (λ a. a.actor < length by_actor) sample.actor_samples
          (λ i a lt h. let number = (parts i a h).0 in omega (arith, number, count, l)))
        (kept_actors-Below (length sample.payloads) by_actor by_field sample.actor_samples (
          All-get (Refers (length sample.payloads)) sample.actor_samples
            (λ i a lt h. (parts i a h).1))) in
    (
      record sample {
        actor_samples = kept_actors by_actor by_field sample.actor_samples;
        payloads = payloads;
      },
      rw e r,
    )
