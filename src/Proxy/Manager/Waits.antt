-- ===== src/Proxy/Manager/Waits.antt =====
-- How the requests of actor.go begin and wait, at a trial whose pointer is known.
use cogment.Prelude.{ℕ, ◌+◌, ◌≤◌, ◌≡◌, String, true, Option, none, some, arith}
use cogment.Proxy.Trial.{
  Payloads, joined, started, wait_for_recv_event, wait_for_sent_event, left, ended, SentEvent,
  RecvEvent, ActorTrial, tick_id, call, new_joined_actor_trial, new_started_actor_trial,
}
use cogment.Proxy.Trial.Graph.{Ongoing}
use cogment.Proxy.Manager.{Manager, update, get_trial, observed}
use cogment.Proxy.Manager.Unique.{IsConsistent, matches_at-update}
use cogment.Proxy.Manager.Lookup.{add-found}
use cogment.Proxy.Manager.Requests.{
  waits, gives, joined_before, join_begin, start_begin, act_begin, request_act_begin, leave_trial,
  end_trial,
}

module _ {p : Payloads} where
  -- The manager after a method of the trial at `q` succeeded and was announced.
  abbrev pub advance : Manager p → ℕ → ActorTrial p → Manager p
  advance m q t = record m { heap = update m.heap q t; emits = m.emits + 1 }

  pub heap-advance : (m : Manager p) (q : ℕ) (t : ActorTrial p) → (advance m q t).heap q ≡ t
  heap-advance m q t = ground arith

  pub advance-IsConsistent :
      (m : Manager p) (q : ℕ) (t : ActorTrial p)
      → t.trial_id ≡ (m.heap q).trial_id
      → t.actor_name ≡ (m.heap q).actor_name
      → IsConsistent m
      → IsConsistent (advance m q t)
  advance-IsConsistent m q t e f v = record {
    one = λ i a. rw (matches_at-update m.heap q t i a e f) (v.one i a);
    allocated = v.allocated;
  }

  module _ (m : Manager p) (trial_id actor_name : String) (q : ℕ)
      (known : get_trial m trial_id actor_name ≡ some q) where
    pub get-advance :
        (t : ActorTrial p)
        → t.trial_id ≡ (m.heap q).trial_id
        → t.actor_name ≡ (m.heap q).actor_name
        → get_trial (advance m q t) trial_id actor_name ≡ some q
    unfolding get_trial
    get-advance t e f = rw (matches_at-update m.heap q t trial_id actor_name e f) known

    pub observed-advance :
        (t : ActorTrial p)
        → t.trial_id ≡ (m.heap q).trial_id
        → t.actor_name ≡ (m.heap q).actor_name
        → observed (advance m q t) trial_id actor_name ≡ some t
    unfolding observed
    observed-advance t e f = rw (get-advance t e f) (ground arith)

    pub request_act_begin_lem :
        (t : ActorTrial p) (e : RecvEvent p)
        → m.heap q ≡ t
        → t.status ≡ wait_for_recv_event
        → tick_id t ≤ e.tick_id
        → request_act_begin m trial_id actor_name e
          ≡ (advance m q (record t { status = wait_for_sent_event; last_recv_event = e }), waits)
    unfolding request_act_begin call
    request_act_begin_lem t e c s h = rw (known, request_act_begin, c) (ground arith)

    pub act_begin_lem :
        (t : ActorTrial p) (e : SentEvent p)
        → m.heap q ≡ t
        → t.status ≡ wait_for_sent_event
        → e.tick_id ≡ tick_id t
        → act_begin m trial_id actor_name e
          ≡ (advance m q (record t { status = wait_for_recv_event; last_sent_event = e }), waits)
    unfolding act_begin call
    act_begin_lem t e c s h = rw (known, act_begin, c) (ground arith)

    pub end_trial_lem :
        (t : ActorTrial p) (e : RecvEvent p)
        → m.heap q ≡ t
        → Ongoing t.status
        → tick_id t ≤ e.tick_id
        → end_trial m trial_id actor_name e
          ≡ (advance m q (record t { status = ended; last_recv_event = e }), none)
    unfolding end_trial call
    end_trial_lem t e c s h = rw (known, end_trial, c) (ground arith)

    pub leave_trial_lem :
        (t : ActorTrial p)
        → m.heap q ≡ t
        → Ongoing t.status
        → leave_trial m trial_id actor_name ≡ (advance m q (record t { status = left }), none)
    unfolding leave_trial call
    leave_trial_lem t c s = rw (known, leave_trial, c) (ground arith)

    pub join_begin_lem :
        (t : ActorTrial p)
        → m.heap q ≡ t
        → t.status ≡ started
        → join_begin m trial_id actor_name
          ≡ (advance m q (record t { status = wait_for_recv_event }), waits)
    unfolding join_begin call
    join_begin_lem t c s =
        rw (add-found m trial_id actor_name (new_joined_actor_trial trial_id actor_name) q known, c)
          (ground arith)

    pub start_begin_lem :
        (t : ActorTrial p) (actor_class actor_implementation : String)
        (actor_config : Option p.Message)
        → m.heap q ≡ t
        → t.status ≡ joined
        → start_begin m trial_id actor_name actor_class actor_implementation actor_config ≡ (
          advance m q (record t {
            status = wait_for_recv_event;
            actor_class = actor_class;
            actor_implementation = actor_implementation;
            actor_config = actor_config;
          }),
          gives tt,
        )
    unfolding start_begin call
    start_begin_lem t actor_class actor_implementation actor_config c s =
        rw
          (
            add-found m trial_id actor_name
                (new_started_actor_trial trial_id actor_name actor_class actor_implementation
                  actor_config)
                q known,
            c,
          )
          (ground arith)

    pub join_again_lem :
        (t : ActorTrial p)
        → m.heap q ≡ t
        → joined_before t.status ≡ true
        → join_begin m trial_id actor_name ≡ (advance m q t, waits)
    unfolding join_begin call
    join_again_lem t c s =
        rw (add-found m trial_id actor_name (new_joined_actor_trial trial_id actor_name) q known, c)
          (ground arith)
