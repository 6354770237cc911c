-- ===== src/Datastore/SampleFilter/Filtered.antt =====
-- What `Filter` of trialSampleFilter.go keeps of a sample.
use mathlib.Core.Path.{subst}
use cogment.Prelude.{
  ℕ, zero, suc, ◌<◌, ◌≡◌, refl, sym, ap, ◌∙◌, inl, inr, Bool, true, false, Option, none, some, List,
  [], ◌∷◌, ◌++◌, ltb, ◌&&◌, ◌||◌, if◌then◌else◌, arith, length, get_elem?, replicate, All,
  Bool-cases,
}
use cogment.Datastore.SampleFilter.{
  ActorSample, Payloads, TrialSample, ArrayFilter, bind, nb_fields, array_selects_all,
  array_selects, index_of, rewards_data, messages_data, keep, filter_actor, filter_actors,
  filter_sample,
}
use cogment.Datastore.SampleFilter.Selection.{listed}
use cogment.Datastore.SampleFilter.Payloads.{InRange, Copies, copy_each_lem, Copies-append}

abbrev value_of : Option Bool → Bool
value_of none = false
value_of (some b) = b

-- The filter selects the index.
abbrev pub on : ArrayFilter → ℕ → Bool
on filter i = value_of (get_elem? filter i)

-- The actor sample with the selected fields.
abbrev pub kept_actor : ArrayFilter → ActorSample → ActorSample
kept_actor fields a = record {
  actor = a.actor;
  observation = if on fields 1 then a.observation else none;
  action = if on fields 2 then a.action else none;
  reward = if on fields 3 then a.reward else none;
  received_rewards = if on fields 4 then a.received_rewards else [];
  sent_rewards = if on fields 5 then a.sent_rewards else [];
  received_messages = if on fields 6 then a.received_messages else [];
  sent_messages = if on fields 7 then a.sent_messages else [];
}

-- The selected fields of the selected actors.
abbrev pub kept_actors : ArrayFilter → ArrayFilter → List ActorSample → List ActorSample
kept_actors actors fields [] = []
kept_actors actors fields (a ∷ samples) =
    let rest = kept_actors actors fields samples in
    if on actors a.actor then kept_actor fields a ∷ rest else rest

-- The payloads that an actor sample refers to.
abbrev pub indices_of : ActorSample → List ℕ
indices_of a =
    index_of a.observation
    ++ (index_of a.action
        ++ (rewards_data a.received_rewards
            ++ (rewards_data a.sent_rewards
                ++ (messages_data a.received_messages ++ messages_data a.sent_messages))))

abbrev pub all_indices : List ActorSample → List ℕ
all_indices [] = []
all_indices (a ∷ samples) = indices_of a ++ all_indices samples

All-split : (P : ℕ → Type 0) (xs ys : List ℕ) → All P (xs ++ ys) → All P xs × All P ys
All-split P [] ys h = (tt, h)
All-split P (x ∷ xs) ys h = let (a, b) = All-split P xs ys h.1 in ((h.0, a), b)

selects-on :
    (filter : ArrayFilter) (i : ℕ) → i < length filter → array_selects filter i ≡ some (on filter i)
selects-on [] i h = absurd (omega arith)
selects-on (b ∷ filter) zero h = refl
selects-on (b ∷ filter) (suc i) h = selects-on filter i (omega arith)

bind-some : {A B : Type 0} (o : Option A) (a : A) (f : A → Option B) → o ≡ some a → bind o f ≡ f a
bind-some o a f e = rw e refl

module _ (fields : ArrayFilter) (source : Payloads) (eight : length fields ≡ nb_fields) where
  abbrev Within : ℕ → Type 0
  Within i = i < length source

  keep_lem :
      {A : Type 0} (field : ℕ) (value absent : A) (indices : A → List ℕ) (target : Payloads)
      → field < nb_fields
      → indices absent ≡ []
      → length target ≡ length source
      → InRange source (indices (if on fields field then value else absent))
      → (t : Payloads) × (keep fields source field value absent (indices value) target
          ≡ some (if on fields field then value else absent, t))
        × Copies source target (indices (if on fields field then value else absent)) t
        × (length t ≡ length source)
  unfolding keep
  keep_lem field value absent indices target k z l h =
      let s = selects-on fields field (omega (arith, eight, k)) in
      elim (Bool-cases (on fields field)) [
        | inl e ↦
            let (t, r, c) = copy_each_lem source target (indices value) l (rw e at h) in
            rw (s, e) (t, rw r refl, c, c.0 ∙ l)
        | inr e ↦
            rw (s, e)
              (
                target,
                refl,
                subst (λ is. Copies source target is target) (sym z) (refl, λ i. refl),
                l,
              )
      ]

  filter_actor_lem :
      (a : ActorSample) (target : Payloads)
      → length target ≡ length source
      → InRange source (indices_of (kept_actor fields a))
      → (t : Payloads) × (filter_actor fields source a target ≡ some (kept_actor fields a, t))
        × Copies source target (indices_of (kept_actor fields a)) t
        × (length t ≡ length source)
  unfolding filter_actor
  filter_actor_lem a target l h =
      let k = kept_actor fields a in
      let (h1, g1) = All-split Within (index_of k.observation) _ h in
      let (h2, g2) = All-split Within (index_of k.action) _ g1 in
      let (h4, g4) = All-split Within (rewards_data k.received_rewards) _ g2 in
      let (h5, g5) = All-split Within (rewards_data k.sent_rewards) _ g4 in
      let (h6, h7) = All-split Within (messages_data k.received_messages) _ g5 in
      let (t1, e1, c1, l1) =
        keep_lem 1 a.observation none index_of target (omega arith) refl l h1 in
      let (t2, e2, c2, l2) = keep_lem 2 a.action none index_of t1 (omega arith) refl l1 h2 in
      let (t3, e3, c3, l3) = keep_lem 3 a.reward none (λ x. []) t2 (omega arith) refl l2 tt in
      let (t4, e4, c4, l4) =
        keep_lem 4 a.received_rewards [] rewards_data t3 (omega arith) refl l3 h4 in
      let (t5, e5, c5, l5) =
        keep_lem 5 a.sent_rewards [] rewards_data t4 (omega arith) refl l4 h5 in
      let (t6, e6, c6, l6) =
        keep_lem 6 a.received_messages [] messages_data t5 (omega arith) refl l5 h6 in
      let (t7, e7, c7, l7) =
        keep_lem 7 a.sent_messages [] messages_data t6 (omega arith) refl l6 h7 in
      (
        t7,
        bind-some _ _ _ e1
            ∙ bind-some _ _ _ e2
            ∙ bind-some _ _ _ e3
            ∙ bind-some _ _ _ e4
            ∙ bind-some _ _ _ e5
            ∙ bind-some _ _ _ e6
            ∙ bind-some _ _ _ e7,
        Copies-append source target t1 t7 _ _ c1 (
            Copies-append source t1 t2 t7 _ _ c2 (
              Copies-append source t2 t3 t7 [] _ c3 (
                Copies-append source t3 t4 t7 _ _ c4 (
                  Copies-append source t4 t5 t7 _ _ c5
                    (Copies-append source t5 t6 t7 _ _ c6 c7))))),
        l7,
      )

  filter_actors_lem :
      (actors : ArrayFilter) (samples : List ActorSample) (target : Payloads)
      → All (λ a. a.actor < length actors) samples
      → length target ≡ length source
      → InRange source (all_indices (kept_actors actors fields samples))
      → (t : Payloads) × (filter_actors fields source actors samples target
          ≡ some (kept_actors actors fields samples, t))
        × Copies source target (all_indices (kept_actors actors fields samples)) t
  unfolding filter_actors
  filter_actors_lem actors [] target v l h = (target, refl, (refl, λ i. refl))
  filter_actors_lem actors (a ∷ samples) target v l h =
      let s = selects-on actors a.actor v.0 in
      elim (Bool-cases (on actors a.actor)) [
        | inr e ↦
            let (t, r, c) = filter_actors_lem actors samples target v.1 l (rw e at h) in
            rw (s, e) (t, r, c)
        | inl e ↦
            let (h1, h2) = All-split Within (indices_of (kept_actor fields a)) _ (rw e at h) in
            let (t1, r1, c1, l1) = filter_actor_lem a target l h1 in
            let (t2, r2, c2) = filter_actors_lem actors samples t1 v.1 l1 h2 in
            rw (s, e) (t2, rw (r1, r2) refl, Copies-append source target t1 t2 _ _ c1 c2)
      ]

all-on :
    (filter : ArrayFilter) (i : ℕ)
    → array_selects_all filter ≡ true
    → i < length filter
    → on filter i ≡ true
all-on [] i e h = absurd (omega arith)
all-on (b ∷ filter) zero e h = ground arith
all-on (b ∷ filter) (suc i) e h = all-on filter i (ground arith) (omega arith)

kept_actors-whole :
    (actors fields : ArrayFilter) (samples : List ActorSample)
    → array_selects_all actors ≡ true
    → array_selects_all fields ≡ true
    → length fields ≡ nb_fields
    → All (λ a. a.actor < length actors) samples
    → kept_actors actors fields samples ≡ samples
kept_actors-whole actors fields [] e f l h = refl
kept_actors-whole actors fields (a ∷ samples) e f l h =
    let on_field : (i : ℕ) → i < 8 → on fields i ≡ true =
      λ i k. all-on fields i f (omega (arith, l, k)) in
    rw
      (
        all-on actors a.actor e h.0,
        on_field 1 (omega arith),
        on_field 2 (omega arith),
        on_field 3 (omega arith),
        on_field 4 (omega arith),
        on_field 5 (omega arith),
        on_field 6 (omega arith),
        on_field 7 (omega arith),
      )
      (ap (λ r. a ∷ r) (kept_actors-whole actors fields samples e f l h.1))

abbrev nothing : ℕ → Payloads
nothing n = replicate n none

get-nothing : (n i : ℕ) → get_elem? (nothing n) i ≡ (if ltb i n then some none else none)
get-nothing zero i = ground arith
get-nothing (suc n) zero = ground arith
get-nothing (suc n) (suc i) = ground (arith, get-nothing n i)

length-nothing : (n : ℕ) → length (nothing n) ≡ n
length-nothing zero = refl
length-nothing (suc n) = ap suc (length-nothing n)

-- With an entry for each field of the API in the filter of the fields, a sample whose actors and kept
-- payload indices are in range is filtered: the result has the selected
-- fields of the selected actors, in their order, and the other data of the sample. Where something is
-- left out, its payloads are those that it refers to, each at its index, and the others are nil.
pub filter_sample_lem :
    (actors fields : ArrayFilter) (sample : TrialSample)
    → length fields ≡ nb_fields
    → All (λ a. a.actor < length actors) sample.actor_samples
    → InRange sample.payloads (all_indices (kept_actors actors fields sample.actor_samples))
    → (payloads : Payloads) × (filter_sample actors fields sample
        ≡ some (record sample {
          actor_samples = kept_actors actors fields sample.actor_samples;
          payloads = payloads;
        }))
      × ((i : ℕ)
          → get_elem? payloads i ≡ (
              if (array_selects_all actors && array_selects_all fields)
                || listed i (all_indices (kept_actors actors fields sample.actor_samples))
              then get_elem? sample.payloads i
              else if ltb i (length sample.payloads)
              then some none
              else none))
unfolding filter_sample
filter_sample_lem actors fields sample l v h =
    elim (Bool-cases (array_selects_all actors && array_selects_all fields)) [
      | inl e ↦
          let same =
            kept_actors-whole actors fields sample.actor_samples (ground arith) (ground arith) l
              v in
          rw (e, same) (sample.payloads, refl, λ i. refl)
      | inr e ↦
          let n = length sample.payloads in
          let (t, r, c) =
            filter_actors_lem fields sample.payloads l actors sample.actor_samples
              (replicate n none) v (length-nothing n) h in
          rw (e, r) (t, refl, λ i. c.1 i ∙ rw (get-nothing n i) refl)
    ]
