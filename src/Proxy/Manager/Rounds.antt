-- ===== src/Proxy/Manager/Rounds.antt =====
-- What the requests of actor.go give each other: an orchestrator's call and an actor's call that meet
-- at one trial, each seeing the manager as the other leaves it.
use cogment.Prelude.{ℕ, ◌≤◌, ◌≡◌, refl, String, true, none, some, arith, [], ◌∷◌}
use cogment.Proxy.Trial.{
  Payloads, wait_for_recv_event, wait_for_sent_event, left, ended, SentEvent, RecvEvent, ActorTrial,
  trial_left, tick_id,
}
use cogment.Proxy.Manager.{ok, err, Manager, get_trial, observed, remove_trial}
use cogment.Proxy.Manager.Unique.{IsConsistent}
use cogment.Proxy.Manager.Lookup.{get-remove_self}
use cogment.Proxy.Manager.Requests.{
  waits, joined_before, join_begin, act_begin, act, request_act_begin, request_act, leave_trial,
  end_trial,
}
use cogment.Proxy.Manager.Waits.{
  advance, heap-advance, get-advance, observed-advance, request_act_begin_lem, act_begin_lem,
  end_trial_lem, leave_trial_lem, join_again_lem, advance-IsConsistent,
}

module _ {p : Payloads} (m : Manager p) (trial_id actor_name : String) (q : ℕ)
    (known : get_trial m trial_id actor_name ≡ some q) where
  -- `RequestAct` returns the event that the actor sends with `Act` while it waits, if the trial was
  -- waiting for an event, the event's tick is not below the trial's, and the actor answers that tick.
  pub request_act-act :
      (e : RecvEvent p) (s : SentEvent p)
      → (m.heap q).status ≡ wait_for_recv_event
      → tick_id (m.heap q) ≤ e.tick_id
      → s.tick_id ≡ e.tick_id
      → let m1 = (request_act_begin m trial_id actor_name e).0 in
        let m2 = (act_begin m1 trial_id actor_name s).0 in
        request_act m trial_id actor_name e (m2 ∷ []) ≡ (m2, ok s)
  unfolding request_act
  request_act-act e s st h k =
      let t1 : ActorTrial p = record (m.heap q) {
        status = wait_for_sent_event;
        last_recv_event = e;
      } in
      let m1 = advance m q t1 in
      let t2 : ActorTrial p = record t1 { status = wait_for_recv_event; last_sent_event = s } in
      let known1 = get-advance m trial_id actor_name q known t1 refl refl in
      rw
        (
          request_act_begin_lem m trial_id actor_name q known (m.heap q) e refl st h,
          act_begin_lem m1 trial_id actor_name q known1 t1 s (heap-advance m q t1) refl
              (ground arith),
          observed-advance m trial_id actor_name q known t1 refl refl,
          observed-advance m1 trial_id actor_name q known1 t2 (rw (heap-advance m q t1) refl)
              (rw (heap-advance m q t1) refl),
        )
        refl

  -- `Act` returns the event that the orchestrator sends with `RequestAct` while it waits, if the
  -- trial was waiting for the actor, the actor answers the trial's tick, and the new event's tick is
  -- not below it.
  act-request_act :
      (s : SentEvent p) (e : RecvEvent p)
      → (m.heap q).status ≡ wait_for_sent_event
      → s.tick_id ≡ tick_id (m.heap q)
      → tick_id (m.heap q) ≤ e.tick_id
      → let m1 = (act_begin m trial_id actor_name s).0 in
        let m2 = (request_act_begin m1 trial_id actor_name e).0 in
        act m trial_id actor_name s (m2 ∷ []) ≡ (m2, ok e)
  unfolding act
  act-request_act s e st h k =
      let t1 : ActorTrial p = record (m.heap q) {
        status = wait_for_recv_event;
        last_sent_event = s;
      } in
      let m1 = advance m q t1 in
      let t2 : ActorTrial p = record t1 { status = wait_for_sent_event; last_recv_event = e } in
      let known1 = get-advance m trial_id actor_name q known t1 refl refl in
      rw
        (
          act_begin_lem m trial_id actor_name q known (m.heap q) s refl st h,
          request_act_begin_lem m1 trial_id actor_name q known1 t1 e (heap-advance m q t1) refl
              (ground arith),
          observed-advance m trial_id actor_name q known t1 refl refl,
          observed-advance m1 trial_id actor_name q known1 t2 (rw (heap-advance m q t1) refl)
              (rw (heap-advance m q t1) refl),
        )
        refl

  -- If the trial ends while `Act` waits, `Act` returns the last event and forgets the trial.
  act-end_trial :
      (s : SentEvent p) (e : RecvEvent p)
      → IsConsistent m
      → (m.heap q).status ≡ wait_for_sent_event
      → s.tick_id ≡ tick_id (m.heap q)
      → tick_id (m.heap q) ≤ e.tick_id
      → let m1 = (act_begin m trial_id actor_name s).0 in
        let m2 = (end_trial m1 trial_id actor_name e).0 in
        (act m trial_id actor_name s (m2 ∷ []) ≡ (remove_trial m2 trial_id actor_name, ok e))
        × (get_trial (remove_trial m2 trial_id actor_name) trial_id actor_name ≡ none)
  unfolding act
  act-end_trial s e v st h k =
      let t1 : ActorTrial p = record (m.heap q) {
        status = wait_for_recv_event;
        last_sent_event = s;
      } in
      let m1 = advance m q t1 in
      let t2 : ActorTrial p = record t1 { status = ended; last_recv_event = e } in
      let known1 = get-advance m trial_id actor_name q known t1 refl refl in
      let v1 = advance-IsConsistent m q t1 refl refl v in
      let v2 =
        advance-IsConsistent m1 q t2 (rw (heap-advance m q t1) refl) (rw (heap-advance m q t1) refl)
          v1 in
      rw
        (
          act_begin_lem m trial_id actor_name q known (m.heap q) s refl st h,
          end_trial_lem m1 trial_id actor_name q known1 t1 e (heap-advance m q t1) tt
              (ground arith),
          observed-advance m trial_id actor_name q known t1 refl refl,
          observed-advance m1 trial_id actor_name q known1 t2 (rw (heap-advance m q t1) refl)
              (rw (heap-advance m q t1) refl),
        )
        (refl, get-remove_self (advance m1 q t2) trial_id actor_name v2)

  -- If the actor leaves while `RequestAct` waits, `RequestAct` fails and names the actor that left.
  request_act-leave_trial :
      (e : RecvEvent p)
      → (m.heap q).status ≡ wait_for_recv_event
      → tick_id (m.heap q) ≤ e.tick_id
      → let m1 = (request_act_begin m trial_id actor_name e).0 in
        let m2 = (leave_trial m1 trial_id actor_name).0 in
        request_act m trial_id actor_name e (m2 ∷ []) ≡ (m2, err (trial_left trial_id actor_name))
  unfolding request_act
  request_act-leave_trial e st h =
      let t1 : ActorTrial p = record (m.heap q) {
        status = wait_for_sent_event;
        last_recv_event = e;
      } in
      let m1 = advance m q t1 in
      let t2 : ActorTrial p = record t1 { status = left } in
      let known1 = get-advance m trial_id actor_name q known t1 refl refl in
      rw
        (
          request_act_begin_lem m trial_id actor_name q known (m.heap q) e refl st h,
          leave_trial_lem m1 trial_id actor_name q known1 t1 (heap-advance m q t1) tt,
          observed-advance m trial_id actor_name q known t1 refl refl,
          observed-advance m1 trial_id actor_name q known1 t2 (rw (heap-advance m q t1) refl)
              (rw (heap-advance m q t1) refl),
        )
        refl

  -- Joining again, before or during the trial, is no error and changes nothing that a look at the
  -- trial can show.
  join_again :
      joined_before (m.heap q).status ≡ true
      → ((join_begin m trial_id actor_name).1 ≡ waits)
        × (observed (join_begin m trial_id actor_name).0 trial_id actor_name
            ≡ observed m trial_id actor_name)
  join_again h =
      rw
        (
          join_again_lem m trial_id actor_name q known (m.heap q) refl h,
          observed-advance m trial_id actor_name q known (m.heap q) refl refl,
        )
        (refl, unfold observed in rw known)
