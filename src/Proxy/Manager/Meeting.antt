-- ===== src/Proxy/Manager/Meeting.antt =====
-- How an actor and the orchestrator meet at a trial that neither has opened (actor.go), and what the
-- requests answer about a trial that nobody has opened.
use cogment.Prelude.{◌+◌, ◌≡◌, refl, String, Option, none, some, arith, List, [], ◌∷◌, ◌++◌}
use cogment.Proxy.Trial.{
  Payloads, wait_for_recv_event, wait_for_sent_event, SentEvent, RecvEvent, ActorTrial,
  trial_not_found, new_joined_actor_trial, new_started_actor_trial,
}
use cogment.Proxy.Manager.{ok, err, Manager, update, get_trial, observed}
use cogment.Proxy.Manager.Unique.{IsConsistent}
use cogment.Proxy.Manager.Lookup.{add-new, get-add}
use cogment.Proxy.Manager.Requests.{
  waits, join_begin, join_trial, start_begin, start_trial, act_begin, act, request_act_begin,
  request_act, leave_trial, end_trial, get_trial_info,
}
use cogment.Proxy.Manager.Waits.{
  advance, heap-advance, get-advance, observed-advance, request_act_begin_lem, join_begin_lem,
  start_begin_lem,
}

module _ {p : Payloads} where
  -- The manager after `addTrialIfNeeded` made the trial.
  abbrev added : Manager p → ActorTrial p → Manager p
  added m t = record m {
    heap = update m.heap m.next t;
    next = m.next + 1;
    trials = m.trials ++ (m.next ∷ []);
    emits = m.emits + 1;
  }

  -- A manager in which a trial with the names that are asked for was just made.
  module _ (m : Manager p) (trial_id actor_name : String) (v : IsConsistent m)
      (new : get_trial m trial_id actor_name ≡ none) where
    get-added :
        (t : ActorTrial p)
        → t.trial_id ≡ trial_id
        → t.actor_name ≡ actor_name
        → get_trial (added m t) trial_id actor_name ≡ some m.next
    get-added t e f =
        rw (add-new m trial_id actor_name t new) at (get-add m trial_id actor_name t t v e f).0

    heap-added : (t : ActorTrial p) → (added m t).heap m.next ≡ t
    heap-added t = ground arith

    observed-added :
        (t : ActorTrial p)
        → t.trial_id ≡ trial_id
        → t.actor_name ≡ actor_name
        → observed (added m t) trial_id actor_name ≡ some t
    unfolding observed
    observed-added t e f = rw (get-added t e f) (ground arith)

    module _ (actor_class actor_implementation : String) (actor_config : Option p.Message) where
      start_begin_new :
          start_begin m trial_id actor_name actor_class actor_implementation actor_config ≡ (
            added m (
                new_started_actor_trial trial_id actor_name actor_class actor_implementation
                  actor_config),
            waits,
          )
      unfolding start_begin
      start_begin_new =
          rw
            (add-new m trial_id actor_name
              (new_started_actor_trial trial_id actor_name actor_class actor_implementation
                actor_config)
              new)
            refl

      -- `StartTrial` of a trial that nobody has opened returns without error when the actor joins.
      start_trial-join :
          let m1 =
            (start_begin m trial_id actor_name actor_class actor_implementation actor_config).0 in
          let m2 = (join_begin m1 trial_id actor_name).0 in
          start_trial m trial_id actor_name actor_class actor_implementation actor_config (m2 ∷ [])
          ≡ (m2, ok tt)
      unfolding start_trial new_started_actor_trial
      start_trial-join =
          let t0 : ActorTrial p =
            new_started_actor_trial trial_id actor_name actor_class actor_implementation
              actor_config in
          let m1 = added m t0 in
          let t1 : ActorTrial p = record t0 { status = wait_for_recv_event } in
          let known1 = get-added t0 refl refl in
          rw
            (
              start_begin_new,
              join_begin_lem m1 trial_id actor_name m.next known1 t0 (heap-added t0) refl,
              observed-added t0 refl refl,
              observed-advance m1 trial_id actor_name m.next known1 t1 (rw (heap-added t0) refl)
                  (rw (heap-added t0) refl),
            )
            refl

      join_begin_new :
          join_begin m trial_id actor_name
          ≡ (added m (new_joined_actor_trial trial_id actor_name), waits)
      unfolding join_begin
      join_begin_new =
          rw (add-new m trial_id actor_name (new_joined_actor_trial trial_id actor_name) new) refl

      -- An actor that joins a trial which nobody has opened waits until the orchestrator has started
      -- the trial and sent an event, and gets the class, implementation and configuration of the
      -- start together with that event.
      pub join_trial-start :
          (e : RecvEvent p)
          → let m1 = (join_begin m trial_id actor_name).0 in
            let m2 =
              (start_begin m1 trial_id actor_name actor_class actor_implementation
                actor_config).0 in
            let m3 = (request_act_begin m2 trial_id actor_name e).0 in
            join_trial m trial_id actor_name (m2 ∷ m3 ∷ []) ≡ (
              m3,
              ok (record {
                trial_info = record {
                  trial_id = trial_id;
                  actor_name = actor_name;
                  actor_class = actor_class;
                  actor_implementation = actor_implementation;
                };
                recv_event = e;
                actor_config = actor_config;
              }),
            )
      unfolding join_trial new_joined_actor_trial
      join_trial-start e =
          let t0 : ActorTrial p = new_joined_actor_trial trial_id actor_name in
          let m1 = added m t0 in
          let t1 : ActorTrial p = record t0 {
            status = wait_for_recv_event;
            actor_class = actor_class;
            actor_implementation = actor_implementation;
            actor_config = actor_config;
          } in
          let m2 = advance m1 m.next t1 in
          let t2 : ActorTrial p = record t1 { status = wait_for_sent_event; last_recv_event = e } in
          let known1 = get-added t0 refl refl in
          let known2 =
            get-advance m1 trial_id actor_name m.next known1 t1 (rw (heap-added t0) refl)
              (rw (heap-added t0) refl) in
          rw
            (
              join_begin_new,
              start_begin_lem m1 trial_id actor_name m.next known1 t0 actor_class
                  actor_implementation actor_config (heap-added t0) refl,
              request_act_begin_lem m2 trial_id actor_name m.next known2 t1 e
                  (heap-advance m1 m.next t1) refl (omega arith),
              observed-added t0 refl refl,
              observed-advance m1 trial_id actor_name m.next known1 t1 (rw (heap-added t0) refl)
                  (rw (heap-added t0) refl),
              observed-advance m2 trial_id actor_name m.next known2 t2
                  (rw (heap-advance m1 m.next t1) refl) (rw (heap-advance m1 m.next t1) refl),
            )
            refl

  -- Every request about a trial that nobody has opened fails, names the trial and the actor, and
  -- changes nothing; only joining and starting open one.
  unknown_trial :
      (m : Manager p) (trial_id actor_name : String)
      → get_trial m trial_id actor_name ≡ none
      → (s : SentEvent p) (e : RecvEvent p) (later : List (Manager p))
      → let lost = trial_not_found trial_id actor_name in
        (get_trial_info m trial_id actor_name ≡ err lost)
        × (act m trial_id actor_name s later ≡ (m, err lost))
        × (request_act m trial_id actor_name e later ≡ (m, err lost))
        × (leave_trial m trial_id actor_name ≡ (m, some lost))
        × (end_trial m trial_id actor_name e ≡ (m, some lost))
  unfolding get_trial_info act request_act leave_trial end_trial
  unknown_trial m trial_id actor_name new s e later = (
    rw (new, get_trial_info) refl,
    rw (new, act_begin) refl,
    rw (new, request_act_begin) refl,
    rw (new, leave_trial) refl,
    rw (new, end_trial) refl,
  )
