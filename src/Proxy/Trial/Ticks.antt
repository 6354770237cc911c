-- ===== src/Proxy/Trial/Ticks.antt =====
-- The ticks of the events that an actor trial (trial.go) exchanges.
use cogment.Prelude.{◌≤◌, ◌≡◌, refl, ◌↔◌, String, Option, none, List, [], ◌∷◌, arith}
use cogment.Proxy.Trial.{
  Payloads, joined, started, wait_for_recv_event, wait_for_sent_event, SentEvent, ActorTrial,
  new_joined_actor_trial, new_started_actor_trial, tick_id, start, join, send_event, Call,
  start_call, join_call, leave_call, send_call, receive_call, end_call, call,
}
use cogment.Proxy.Trial.Graph.{calls}

module _ {p : Payloads} where
  pub call-tick_id : (t : ActorTrial p) (c : Call p) → tick_id t ≤ tick_id (call t c).0
  unfolding call
  call-tick_id t (start_call _ _ _) = ground arith
  call-tick_id t join_call = ground arith
  call-tick_id t leave_call = ground arith
  call-tick_id t (send_call e) = ground arith
  call-tick_id t (receive_call e) = ground arith
  call-tick_id t (end_call e) = ground arith

  -- Whatever calls a trial receives, accepted or refused, its tick never goes back.
  pub calls-tick_id : (t : ActorTrial p) (cs : List (Call p)) → tick_id t ≤ tick_id (calls t cs)
  unfolding calls
  calls-tick_id t [] = omega arith
  calls-tick_id t (c ∷ cs) = omega (arith, call-tick_id t c, calls-tick_id (call t c).0 cs)

  -- Between two calls: the actor never answers a tick that it has not received, has answered all
  -- that it received while it waits for the next event, and nothing was exchanged before the start.
  pub record InStep (t : ActorTrial p) : Type 0 where
    pub answered : t.last_sent_event.tick_id ≤ t.last_recv_event.tick_id
    pub caught_up :
        t.status ≡ wait_for_recv_event → t.last_sent_event.tick_id ≡ t.last_recv_event.tick_id
    pub unjoined : t.status ≡ started → t.last_recv_event.tick_id ≡ 0
    pub unstarted : t.status ≡ joined → t.last_recv_event.tick_id ≡ 0

  call-InStep : {t : ActorTrial p} (c : Call p) → InStep t → InStep (call t c).0
  unfolding call
  call-InStep (start_call _ _ _) h = ground arith
  call-InStep join_call h = ground arith
  call-InStep leave_call h = ground arith
  call-InStep (send_call e) h = ground arith
  call-InStep (receive_call e) h = ground arith
  call-InStep (end_call e) h = ground arith

  calls-InStep : {t : ActorTrial p} (cs : List (Call p)) → InStep t → InStep (calls t cs)
  unfolding calls
  calls-InStep [] h = h
  calls-InStep {t} (c ∷ cs) h = calls-InStep {t = (call t c).0} cs (call-InStep c h)

  -- A trial that began joined or started, after any calls, keeps received and sent ticks in step.
  joined-InStep :
      (trial_id actor_name : String) (cs : List (Call p))
      → InStep (calls (new_joined_actor_trial trial_id actor_name) cs)
  unfolding new_joined_actor_trial
  joined-InStep trial_id actor_name cs = calls-InStep cs (ground arith)

  pub started-InStep :
      (trial_id actor_name actor_class actor_implementation : String) (m : Option p.Message)
      (cs : List (Call p))
      → InStep (
          calls (new_started_actor_trial trial_id actor_name actor_class actor_implementation m) cs)
  unfolding new_started_actor_trial
  started-InStep trial_id actor_name actor_class actor_implementation m cs =
      calls-InStep cs (ground arith)

  -- After any calls, an actor's event is accepted exactly when one is awaited and it carries the
  -- tick of the last event that the actor received.
  send-accepted_iff :
      (trial_id actor_name : String) (cs : List (Call p)) (e : SentEvent p)
      → let t = calls (new_joined_actor_trial trial_id actor_name) cs in
        ((send_event t e).1 ≡ none)
        ↔ ((t.status ≡ wait_for_sent_event) × (e.tick_id ≡ t.last_recv_event.tick_id))
  unfolding send_event
  send-accepted_iff trial_id actor_name cs e = ground (arith, joined-InStep trial_id actor_name cs)

  -- The actor and the orchestrator may come in either order: joining and then starting gives the
  -- trial that starting and then joining gives.
  start-join_comm :
      (trial_id actor_name actor_class actor_implementation : String) (m : Option p.Message)
      → start {p = p}
          (new_joined_actor_trial trial_id actor_name)
          actor_class
          actor_implementation
          m
        ≡ join (new_started_actor_trial trial_id actor_name actor_class actor_implementation m)
  unfolding start join new_joined_actor_trial new_started_actor_trial
  start-join_comm trial_id actor_name actor_class actor_implementation m = refl
