-- ===== src/Proxy/Manager/Closing.antt =====
-- `Destroy` of actor.go: the actors leave all trials.
use cogment.Prelude.{ℕ, ◌≤◌, ◌≡◌, String, some, List, [], ◌∷◌, ◌==◌, arith, Bool-cases, inl, inr}
use cogment.Proxy.Trial.{Payloads, ActorTrial, leave_call, call}
use cogment.Proxy.Trial.Graph.{Final}
use cogment.Proxy.Manager.{Manager, update, matches_at, get_trial, leave_all_trials, leave_each}
use cogment.Proxy.Manager.Slice.{count, find-listed}
use cogment.Proxy.Manager.Steps.{leave_each-Later}

module _ {p : Payloads} where
  leave_Final : (t : ActorTrial p) → Final (call t leave_call).0.status
  unfolding call
  leave_Final t = ground arith

  leave_each-Final :
      (heap : ℕ → ActorTrial p) (qs : List ℕ) (q : ℕ)
      → 1 ≤ count (λ r. r == q) qs
      → Final (leave_each heap qs q).status
  unfolding leave_each count
  leave_each-Final heap [] q h = absurd (omega arith)
  leave_each-Final heap (r ∷ qs) q h = elim (Bool-cases (r == q)) [
    | inr e ↦ leave_each-Final (update heap r (call (heap r) leave_call).0) qs q (ground arith)
    | inl e ↦
        let t = (call (heap r) leave_call).0 in
        let now : update heap r t q ≡ t = ground arith in
        let final : Final (update heap r t q).status = rw now (leave_Final (heap r)) in
        rw ((leave_each-Later (update heap r t) qs q).final final) final
  ]

  -- After `Destroy` every trial that the manager lists was left or has ended.
  leave_all-Final :
      (m : Manager p) (trial_id actor_name : String) (q : ℕ)
      → get_trial (leave_all_trials m) trial_id actor_name ≡ some q
      → Final ((leave_all_trials m).heap q).status
  unfolding get_trial leave_all_trials
  leave_all-Final m trial_id actor_name q h =
      leave_each-Final m.heap m.trials q
        (find-listed (matches_at (leave_each m.heap m.trials) trial_id actor_name) m.trials q h)
