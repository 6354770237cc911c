-- ===== src/Datastore/Datalog/Sound.antt =====
-- The payload indices of the samples that datalogServer.go makes.
use mathlib.Core.List.{append-nil, append_assoc}
use cogment.Prelude.{
  ℕ, zero, suc, ◌+◌, ◌≤◌, ◌<◌, ◌≡◌, ◌∙◌, refl, sym, subst, ap, inl, inr, String, Option, some, List,
  [], ◌∷◌, ◌++◌, ◌==◌, if◌then◌else◌, arith, length, get_elem?, set, length-set, length-append, All,
  All-append, Bool-cases, ==_iff,
}
use cogment.Datastore.Memory.{u32}
use cogment.Datastore.SampleFilter.{
  ActorSampleReward, ActorSampleMessage, ActorSample, index_of, rewards_data, messages_data,
}
use cogment.Datastore.Datalog.{
  Draft, blank, blanks, each, enumerate_from, update, with_payload, next_payload,
  store_observations,
}

abbrev pub Below : ℕ → List ℕ → Type 0
Below n indices = All (λ i. i < n) indices

-- The payloads that an actor's sample refers to are among the first `n`.
abbrev pub Refers : ℕ → ActorSample → Type 0
Refers n a =
    Below n (index_of a.observation)
    × Below n (index_of a.action)
    × Below n (rewards_data a.received_rewards)
    × Below n (rewards_data a.sent_rewards)
    × Below n (messages_data a.received_messages)
    × Below n (messages_data a.sent_messages)

-- A draft for `n` actors.
pub record IsSound (n : ℕ) (d : Draft) : Type 0 where
  pub count : length d.actor_samples ≡ n
  pub rewarded : All (λ e. e.0 < n) d.reward_accumulator
  pub at :
      (i : ℕ) (a : ActorSample)
      → get_elem? d.actor_samples i ≡ some a
      → (a.actor ≡ u32 i) × Refers (length d.payloads) a

Below-le : (m n : ℕ) (indices : List ℕ) → m ≤ n → Below m indices → Below n indices
Below-le m n [] le h = tt
Below-le m n (i ∷ indices) le h = (omega (arith, h.0), Below-le m n indices le h.1)

Refers-le : (m n : ℕ) (a : ActorSample) → m ≤ n → Refers m a → Refers n a
Refers-le m n a le (o, c, r, t, x, y) = (
  Below-le m n _ le o,
  Below-le m n _ le c,
  Below-le m n _ le r,
  Below-le m n _ le t,
  Below-le m n _ le x,
  Below-le m n _ le y,
)

module _ {ℓ} {A : Type ℓ} where
  pub get_lem : (xs : List A) (i : ℕ) → i < length xs → (a : A) × (get_elem? xs i ≡ some a)
  get_lem [] i h = absurd (omega arith)
  get_lem (a ∷ xs) zero h = (a, refl)
  get_lem (a ∷ xs) (suc i) h = get_lem xs i (omega arith)

  pub get-set :
      (xs : List A) (i j : ℕ) (v : A)
      → i < length xs
      → get_elem? (set xs i v) j ≡ (if i == j then some v else get_elem? xs j)
  get-set [] i j v h = absurd (omega arith)
  get-set (x ∷ xs) zero zero v h = refl
  get-set (x ∷ xs) zero (suc j) v h = ground arith
  get-set (x ∷ xs) (suc i) zero v h = ground arith
  get-set (x ∷ xs) (suc i) (suc j) v h = ground (arith, get-set xs i j v (omega arith))

-- A loop over elements with `Q` whose body keeps `P`.
pub each_lem {ℓ κ} :
    {A : Type ℓ} {S : Type κ} (P : S → Type 0) (Q : A → Type 0) (body : A → S → Option S)
    → ((a : A) (s : S) → Q a → P s → (s' : S) × (body a s ≡ some s') × P s')
    → (items : List A) (s : S) → All Q items
    → P s
    → (s' : S) × (each body items s ≡ some s') × P s'
unfolding each
each_lem P Q body step [] s q p = (s, refl, p)
each_lem P Q body step (a ∷ rest) s q p =
    let (s1, e, p1) = step a s q.0 p in
    let (s2, f, p2) = each_lem P Q body step rest s1 q.1 p1 in (s2, rw e f, p2)

pub enumerate-All {ℓ} :
    {A : Type ℓ} (R : A → Type 0) (n k : ℕ) (items : List A)
    → k + length items ≤ n
    → All R items
    → All (λ e. (e.0 < n) × R e.1) (enumerate_from k items)
unfolding enumerate_from
enumerate-All R n k [] le h = tt
enumerate-All R n k (a ∷ rest) le h =
    ((omega arith, h.0), enumerate-All R n (k + 1) rest (omega arith) h.1)

-- A change of an actor's sample that keeps what it refers to among the payloads.
pub update-IsSound :
    (n index : ℕ) (change : ActorSample → ActorSample) (d : Draft)
    → index < n
    → IsSound n d
    → ((a : ActorSample)
        → Refers (length d.payloads) a
        → ((change a).actor ≡ a.actor) × Refers (length d.payloads) (change a))
    → (d' : Draft) × (update index change d ≡ some d') × IsSound n d' × (d'.payloads ≡ d.payloads)
unfolding update
update-IsSound n index change d lt sound keeps =
    let within : index < length d.actor_samples = omega (arith, sound.count) in
    let (a, e) = get_lem d.actor_samples index within in
    let kept = keeps a (sound.at index a e).1 in
    (
      record d { actor_samples = set d.actor_samples index (change a) },
      rw e refl,
      record {
        count = length-set d.actor_samples index (change a) ∙ sound.count;
        rewarded = sound.rewarded;
        at = λ j b g. elim (Bool-cases (index == j)) [
          | inl same ↦
              let here : some (change a) ≡ some b =
                sym (get-set d.actor_samples index j (change a) within ∙ rw same refl) ∙ g in
              let b_lem : change a ≡ b = ground (arith, here) in
              subst (λ x. (x.actor ≡ u32 j) × Refers (length d.payloads) x) b_lem
                (kept.0 ∙ (sound.at index a e).0 ∙ ap u32 ((==_iff index j).0 same), kept.1)
          | inr other ↦
              sound.at j b
                (sym (get-set d.actor_samples index j (change a) within ∙ rw other refl) ∙ g)
        ];
      },
      refl,
    )

pub with_payload-IsSound :
    (n : ℕ) (content : String) (d : Draft) → IsSound n d → IsSound n (with_payload content d)
with_payload-IsSound n content d sound = record {
  count = sound.count;
  rewarded = sound.rewarded;
  at = λ j b g.
      let (numbered, refers) = sound.at j b g in
      (
        numbered,
        Refers-le (length d.payloads) _ b
            (omega (arith, length-append d.payloads (some content ∷ []))) refers,
      );
}

blanks-blank : (n k i : ℕ) (a : ActorSample) → get_elem? (blanks k n) i ≡ some a → blank (k + i) ≡ a
unfolding blanks
blanks-blank zero k i a h = absurd (ground (arith, h))
blanks-blank (suc n) k zero a h = ground (arith, h)
blanks-blank (suc n) k (suc i) a h =
    let e : k + 1 + i ≡ k + suc i = omega arith in ap blank (sym e) ∙ blanks-blank n (k + 1) i a h

length-blanks : (n k : ℕ) → length (blanks k n) ≡ n
unfolding blanks
length-blanks zero k = refl
length-blanks (suc n) k = ap suc (length-blanks n (k + 1))

pub blanks-IsSound :
    (n : ℕ)
    → IsSound n (record { actor_samples = blanks 0 n; payloads = []; reward_accumulator = [] })
blanks-IsSound n = record {
  count = length-blanks n 0;
  rewarded = tt;
  at = λ i a h.
      let start : 0 + i ≡ i = omega arith in
      subst (λ x. (x.actor ≡ u32 i) × Refers 0 x) (blanks-blank n 0 i a h)
        (ap u32 start, (tt, tt, tt, tt, tt, tt));
}

rewards_data-append :
    (rs ts : List ActorSampleReward) → rewards_data (rs ++ ts) ≡ rewards_data rs ++ rewards_data ts
rewards_data-append [] ts = refl
rewards_data-append (r ∷ rs) ts =
    rw (rewards_data-append rs ts) (sym (append_assoc (index_of r.user_data) _ _))

messages_data-append :
    (rs ts : List ActorSampleMessage)
    → messages_data (rs ++ ts) ≡ messages_data rs ++ messages_data ts
messages_data-append [] ts = refl
messages_data-append (r ∷ rs) ts = ap (◌∷◌ r.payload) (messages_data-append rs ts)

pub rewards_data-Below :
    (n : ℕ) (rs : List ActorSampleReward) (r : ActorSampleReward)
    → Below n (rewards_data rs)
    → Below n (index_of r.user_data)
    → Below n (rewards_data (rs ++ (r ∷ [])))
rewards_data-Below n rs r h k = rw (rewards_data-append rs (r ∷ [])) (
    rw (append-nil (index_of r.user_data))
      (All-append _ (rewards_data rs) (index_of r.user_data) h k))

pub messages_data-Below :
    (n : ℕ) (rs : List ActorSampleMessage) (m : ActorSampleMessage)
    → Below n (messages_data rs)
    → m.payload < n
    → Below n (messages_data (rs ++ (m ∷ [])))
messages_data-Below n rs m h k =
    rw (messages_data-append rs (m ∷ []))
      (All-append _ (messages_data rs) (m.payload ∷ []) h (k, tt))

-- The payload that comes next is in range once it is there.
pub next_payload-le :
    (content : String) (d : Draft) → next_payload d < length (with_payload content d).payloads
next_payload-le content d = omega (arith, length-append d.payloads (some content ∷ []))

pub store_observations-IsSound :
    (n : ℕ) (contents : List String) (indices : List ℕ) (d : Draft)
    → IsSound n d
    → Below (length d.payloads) indices
    → IsSound n (store_observations contents indices d).1
      × Below
          (length (store_observations contents indices d).1.payloads)
          (store_observations contents indices d).0
      × (length (store_observations contents indices d).0 ≡ length indices + length contents)
unfolding store_observations
store_observations-IsSound n [] indices d sound h = (sound, h, omega arith)
store_observations-IsSound n (content ∷ rest) indices d sound h =
    let next = next_payload d in
    let d1 = with_payload content d in
    let grown = length-append d.payloads (some content ∷ []) in
    let (a, b, c) =
      store_observations-IsSound n rest (indices ++ (next ∷ [])) d1
        (with_payload-IsSound n content d sound)
        (All-append _ indices (next ∷ [])
          (Below-le (length d.payloads) (length d1.payloads) indices (omega (arith, grown)) h)
          (next_payload-le content d, tt)) in
    (a, b, c ∙ omega (arith, length-append indices (next ∷ [])))
