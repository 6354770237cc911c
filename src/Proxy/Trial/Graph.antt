-- ===== src/Proxy/Trial/Graph.antt =====
-- The life of an actor trial (trial.go) as a diagram: which call leads which status to which.
use cogment.Prelude.{◌≤◌, ◌≡◌, refl, ◌↔◌, ◌⊎◌, none, some, List, [], ◌∷◌, arith}
use cogment.Proxy.Trial.{
  Payloads, Status, joined, started, wait_for_recv_event, wait_for_sent_event, left, ended,
  ActorTrial, TransitionError, tick_id, Call, start_call, join_call, leave_call, send_call,
  receive_call, end_call, call,
}

-- The actor neither left nor saw the end.
abbrev pub Ongoing : Status → Type 0
Ongoing left = ⊥
Ongoing ended = ⊥
Ongoing _ = Unit

abbrev pub Final : Status → Type 0
Final s = (s ≡ left) ⊎ (s ≡ ended)

module _ {p : Payloads} where
  -- `Edge t c s`: the protocol lets call `c` take trial `t` to status `s`.
  abbrev pub Edge : ActorTrial p → Call p → Status → Type 0
  Edge t (start_call _ _ _) s = (t.status ≡ joined) × (s ≡ wait_for_recv_event)
  Edge t join_call s = (t.status ≡ started) × (s ≡ wait_for_recv_event)
  Edge t leave_call s = Ongoing t.status × (s ≡ left)
  Edge t (send_call e) s =
      (t.status ≡ wait_for_sent_event) × (e.tick_id ≡ tick_id t) × (s ≡ wait_for_recv_event)
  Edge t (receive_call e) s =
      (t.status ≡ wait_for_recv_event) × (tick_id t ≤ e.tick_id) × (s ≡ wait_for_sent_event)
  Edge t (end_call e) s = Ongoing t.status × (tick_id t ≤ e.tick_id) × (s ≡ ended)

  -- A call succeeds and leaves the trial in a status exactly when the diagram has that edge.
  pub call-Edge :
      (t : ActorTrial p) (c : Call p) (s : Status)
      → Edge t c s ↔ (((call t c).1 ≡ none) × ((call t c).0.status ≡ s))
  unfolding call
  call-Edge t (start_call _ _ _) s = ground arith
  call-Edge t join_call s = ground arith
  call-Edge t leave_call s = ground arith
  call-Edge t (send_call e) s = ground arith
  call-Edge t (receive_call e) s = ground arith
  call-Edge t (end_call e) s = ground arith

  -- A refused call leaves the trial as it was, and its error names the trial and its status.
  call-refused :
      (t : ActorTrial p) (c : Call p) {e : TransitionError}
      → (call t c).1 ≡ some e
      → ((call t c).0 ≡ t)
        × (e.trial_id ≡ t.trial_id)
        × (e.actor_name ≡ t.actor_name)
        × (e.status ≡ t.status)
  unfolding call
  call-refused t (start_call _ _ _) h = ground arith
  call-refused t join_call h = ground arith
  call-refused t leave_call h = ground arith
  call-refused t (send_call e) h = ground arith
  call-refused t (receive_call e) h = ground arith
  call-refused t (end_call e) h = ground arith

  -- No call renames a trial.
  pub call-names :
      (t : ActorTrial p) (c : Call p)
      → ((call t c).0.trial_id ≡ t.trial_id) × ((call t c).0.actor_name ≡ t.actor_name)
  unfolding call
  call-names t (start_call _ _ _) = ground arith
  call-names t join_call = ground arith
  call-names t leave_call = ground arith
  call-names t (send_call e) = ground arith
  call-names t (receive_call e) = ground arith
  call-names t (end_call e) = ground arith

  -- The calls that a trial receives, in the order in which they take its lock.
  unfoldable pub calls : ActorTrial p → List (Call p) → ActorTrial p
  calls t [] = t
  calls t (c ∷ cs) = calls (call t c).0 cs

  pub call-Final : (t : ActorTrial p) (c : Call p) → Final t.status → (call t c).0 ≡ t
  unfolding call
  call-Final t (start_call _ _ _) h = ground arith
  call-Final t join_call h = ground arith
  call-Final t leave_call h = ground arith
  call-Final t (send_call e) h = ground arith
  call-Final t (receive_call e) h = ground arith
  call-Final t (end_call e) h = ground arith

  -- A trial that was left or has ended stays exactly as it is, whatever calls come.
  pub calls-Final : (t : ActorTrial p) (cs : List (Call p)) → Final t.status → calls t cs ≡ t
  unfolding calls
  calls-Final t [] h = refl
  calls-Final t (c ∷ cs) h = rw (call-Final t c h) (calls-Final t cs h)
