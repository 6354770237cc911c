-- ===== src/Proxy/Manager/Steps.antt =====
-- actor.go under concurrency: each constructor of `Step` is what one method does while it holds the
-- manager's lock or a trial's, and goroutines interleave such steps in any order. A pointer that a
-- goroutine keeps may be called also after its trial was removed.
use cogment.Prelude.{
  ℕ, ◌≤◌, ◌<◌, ◌≡◌, refl, ◌∙◌, String, true, ◌==◌, arith, Bool-cases, inl, inr, Option-cases, List,
  [], ◌∷◌,
}
use cogment.Proxy.Trial.{Payloads, ActorTrial, tick_id, Call, leave_call, call}
use cogment.Proxy.Trial.Graph.{Final, call-Final, call-names}
use cogment.Proxy.Trial.Ticks.{call-tick_id}
use cogment.Proxy.Manager.{
  Manager, new_manager, update, emit, get_trial, add_trial_if_needed, remove_trial, call_at,
  leave_all_trials, leave_each,
}
use cogment.Proxy.Manager.Unique.{
  IsConsistent, new_manager-IsConsistent, call_at-IsConsistent, leave_all_trials-IsConsistent,
  add_trial_if_needed-IsConsistent, remove_trial-IsConsistent,
}
use cogment.Proxy.Manager.Lookup.{add-found, add-new}

pub data Step {p : Payloads} (m : Manager p) : Manager p → Type 0 where
  adds :
      (trial_id actor_name : String) (t : ActorTrial p)
      → t.trial_id ≡ trial_id
      → t.actor_name ≡ actor_name
      → Step m (add_trial_if_needed m trial_id actor_name t).0
  removes : (trial_id actor_name : String) → Step m (remove_trial m trial_id actor_name)
  calls : (q : ℕ) (c : Call p) → q < m.next → Step m (call_at m q c).0
  leaves_all : Step m (leave_all_trials m)
  emits : Step m (emit m)

pub data Reach {p : Payloads} (m : Manager p) : Manager p → Type 0 where
  here : Reach m m
  and_then : {m' m'' : Manager p} → Reach m m' → Step m' m'' → Reach m m''

module _ {p : Payloads} where
  Step-IsConsistent : {m m' : Manager p} → Step m m' → IsConsistent m → IsConsistent m'
  Step-IsConsistent {m} (adds i a t e f) v = add_trial_if_needed-IsConsistent m i a t v e f
  Step-IsConsistent {m} (removes i a) v = remove_trial-IsConsistent m i a v
  Step-IsConsistent {m} (calls q c h) v = call_at-IsConsistent {m = m} q c v
  Step-IsConsistent {m} leaves_all v = leave_all_trials-IsConsistent {m = m} v
  Step-IsConsistent emits v = record { one = v.one; allocated = v.allocated }

  -- Whatever goroutines do from a new manager on, it lists at most one trial for an actor in a trial.
  pub Reach-IsConsistent : {m : Manager p} → Reach new_manager m → IsConsistent m
  Reach-IsConsistent here = new_manager-IsConsistent
  Reach-IsConsistent (and_then r s) = Step-IsConsistent s (Reach-IsConsistent r)

  -- How the trial behind a pointer may differ later: its names stay, its tick does not go back, and
  -- once it was left or has ended nothing of it changes.
  pub record Later (t t' : ActorTrial p) : Type 0 where
    pub trial_id : t'.trial_id ≡ t.trial_id
    pub actor_name : t'.actor_name ≡ t.actor_name
    pub tick : tick_id t ≤ tick_id t'
    pub final : Final t.status → t' ≡ t

  Later-refl : (t : ActorTrial p) → Later t t
  Later-refl t = record {
    trial_id = refl;
    actor_name = refl;
    tick = omega arith;
    final = λ h. refl;
  }

  Later-trans : {t t' t'' : ActorTrial p} → Later t t' → Later t' t'' → Later t t''
  Later-trans {t} {t'} a b = record {
    trial_id = b.trial_id ∙ a.trial_id;
    actor_name = b.actor_name ∙ a.actor_name;
    tick = omega arith;
    final = λ h. b.final (rw (a.final h) h) ∙ a.final h;
  }

  call-Later : (t : ActorTrial p) (c : Call p) → Later t (call t c).0
  call-Later t c = record {
    trial_id = (call-names t c).0;
    actor_name = (call-names t c).1;
    tick = call-tick_id t c;
    final = call-Final t c;
  }

  update-Later :
      (heap : ℕ → ActorTrial p) (r : ℕ) (t : ActorTrial p) (q : ℕ)
      → ((q == r) ≡ true → Later (heap q) t)
      → Later (heap q) (update heap r t q)
  update-Later heap r t q h = elim (Bool-cases (q == r)) [
    | inl e ↦ rw e (h e)
    | inr e ↦ rw e (Later-refl (heap q))
  ]

  call_at-Later :
      (heap : ℕ → ActorTrial p) (r : ℕ) (c : Call p) (q : ℕ)
      → Later (heap q) (update heap r (call (heap r) c).0 q)
  call_at-Later heap r c q =
      update-Later heap r (call (heap r) c).0 q
        (λ e. let same : r ≡ q = ground arith in rw same (call-Later (heap q) c))

  pub leave_each-Later :
      (heap : ℕ → ActorTrial p) (qs : List ℕ) (q : ℕ) → Later (heap q) (leave_each heap qs q)
  unfolding leave_each
  leave_each-Later heap [] q = Later-refl (heap q)
  leave_each-Later heap (r ∷ qs) q =
      Later-trans (call_at-Later heap r leave_call q)
        (leave_each-Later (update heap r (call (heap r) leave_call).0) qs q)

  heap-remove :
      (m : Manager p) (trial_id actor_name : String)
      → ((remove_trial m trial_id actor_name).heap ≡ m.heap)
        × ((remove_trial m trial_id actor_name).next ≡ m.next)
  unfolding remove_trial
  heap-remove m trial_id actor_name = ground arith

  Step-Later :
      {m m' : Manager p}
      → Step m m'
      → (q : ℕ) → q < m.next
      → Later (m.heap q) (m'.heap q) × (q < m'.next)
  Step-Later {m} (adds i a t e f) q h = elim (Option-cases (get_trial m i a)) [
    | inl g ↦
        rw (add-new m i a t g)
          (update-Later m.heap m.next t q (λ e. absurd (ground arith)), omega arith)
    | inr (r, g) ↦ rw (add-found m i a t r g) (Later-refl (m.heap q), h)
  ]
  Step-Later {m} (removes i a) q h =
      rw ((heap-remove m i a).0, (heap-remove m i a).1) (Later-refl (m.heap q), h)
  Step-Later {m} (calls r c k) q h = unfold call_at in (call_at-Later m.heap r c q, h)
  Step-Later {m} leaves_all q h = unfold leave_all_trials in (leave_each-Later m.heap m.trials q, h)
  Step-Later {m} emits q h = (Later-refl (m.heap q), h)

  Reach-held :
      {m m' : Manager p}
      → Reach m m'
      → (q : ℕ) → q < m.next
      → Later (m.heap q) (m'.heap q) × (q < m'.next)
  Reach-held {m} here q h = (Later-refl (m.heap q), h)
  Reach-held (and_then r s) q h =
      let (l, k) = Reach-held r q h in let (l', k') = Step-Later s q k in (Later-trans l l', k')

  -- Whatever goroutines do between two looks at a pointer, the trial behind it keeps its names, its
  -- tick does not go back, and a trial that was left or has ended is unchanged.
  Reach-Later :
      {m m' : Manager p} → Reach m m' → (q : ℕ) → q < m.next → Later (m.heap q) (m'.heap q)
  Reach-Later r q h = (Reach-held r q h).0
