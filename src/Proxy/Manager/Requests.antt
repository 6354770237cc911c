-- ===== src/Proxy/Manager/Requests.antt =====
-- The requests of actor.go. Each one acts on the manager, waits, and reads the trial again: its part
-- before the wait is a function of its own, and the test is the closure that it gives to the wait.
use cogment.Prelude.{ℕ, String, Bool, true, false, Option, none, some, List, ◌||◌, if◌then◌else◌}
use cogment.Proxy.Trial.{
  Payloads, Status, joined, started, wait_for_recv_event, wait_for_sent_event, left, ended, ◌is◌,
  SentEvent, RecvEvent, ActorTrial, TrialInfo, TransitionError, ProxyError, trial_left, trial_ended,
  trial_not_found, trial_transition, unexpected, info, Call, start_call, join_call, leave_call,
  send_call, receive_call, end_call, new_joined_actor_trial, new_started_actor_trial,
}
use cogment.Proxy.Manager.{
  Result, ok, err, Manager, emit, get_trial, add_trial_if_needed, remove_trial, call_at,
  wait_for_trial,
}

pub record JoinTrialResult (p : Payloads) : Type 0 where
  pub trial_info : TrialInfo
  pub recv_event : RecvEvent p
  pub actor_config : Option p.Message

-- What a request does next: it waits, it has failed, or it is done with a value.
pub data Next {ℓ} (A : Type ℓ) : Type ℓ where
  waits : Next A
  fails : ProxyError → Next A
  gives : A → Next A

-- A join is forgiven if the actor has joined before.
abbrev pub joined_before : Status → Bool
joined_before s = s is joined || s is wait_for_recv_event || s is wait_for_sent_event

module _ {p : Payloads} where
  unfoldable pub get_trial_info : Manager p → String → String → Result TrialInfo
  unfolding get_trial info
  get_trial_info m trial_id actor_name = elim (get_trial m trial_id actor_name) [
    | none ↦ err (trial_not_found trial_id actor_name)
    | some q ↦ ok (info (m.heap q))
  ]

  abbrev after_join : Manager p → Option TransitionError → Manager p × Next (JoinTrialResult p)
  after_join m none = (emit m, waits)
  after_join m (some e) =
      if joined_before e.status then (emit m, waits) else (m, fails (trial_transition e))

  join_existing : Manager p × ℕ × Bool → Manager p × Next (JoinTrialResult p)
  unfolding call_at
  join_existing (m, q, true) = (m, waits)
  join_existing (m, q, false) = let (m', e) = call_at m q join_call in after_join m' e

  unfoldable pub join_begin : Manager p → String → String → Manager p × Next (JoinTrialResult p)
  unfolding join_existing
  join_begin m trial_id actor_name =
      join_existing
        (add_trial_if_needed m trial_id actor_name (new_joined_actor_trial trial_id actor_name))

  unfoldable pub has_initial_observation : String → String → Option (ActorTrial p) → Result Bool
  has_initial_observation trial_id actor_name none = ok false
  has_initial_observation trial_id actor_name (some t) = elim t.status [
    | ended ↦ err (trial_ended trial_id)
    | left ↦ err (trial_left trial_id actor_name)
    | wait_for_sent_event ↦ ok true
    | wait_for_recv_event ↦ ok false
    | joined ↦ ok false
    | started ↦ err unexpected
  ]

  abbrev join_result : Result (Option (ActorTrial p)) → Result (JoinTrialResult p)
  join_result (err e) = err e
  join_result (ok none) = err unexpected
  join_result (ok (some t)) = ok (record {
    trial_info = info t;
    recv_event = t.last_recv_event;
    actor_config = t.actor_config;
  })

  abbrev join_wait :
      String
      → String
      → List (Manager p)
      → Manager p × Next (JoinTrialResult p)
      → Manager p × Result (JoinTrialResult p)
  join_wait trial_id actor_name later (m, gives r) = (m, ok r)
  join_wait trial_id actor_name later (m, fails e) = (m, err e)
  join_wait trial_id actor_name later (m, waits) =
      let (m', r) =
        wait_for_trial (has_initial_observation trial_id actor_name) trial_id actor_name m later in
      (m', join_result r)

  unfoldable pub join_trial :
      Manager p → String → String → List (Manager p) → Manager p × Result (JoinTrialResult p)
  unfolding join_begin wait_for_trial has_initial_observation info
  join_trial m trial_id actor_name later =
      join_wait trial_id actor_name later (join_begin m trial_id actor_name)

  abbrev after_start : Manager p → Option TransitionError → Manager p × Next (Unit {0})
  after_start m none = (emit m, gives tt)
  after_start m (some e) = (m, fails (trial_transition e))

  start_existing : Call p → Manager p × ℕ × Bool → Manager p × Next (Unit {0})
  unfolding call_at
  start_existing c (m, q, true) = (m, waits)
  start_existing c (m, q, false) = let (m', e) = call_at m q c in after_start m' e

  unfoldable pub start_begin :
      Manager p → String → String → String → String → Option p.Message → Manager p × Next (Unit {0})
  unfolding start_existing
  start_begin m trial_id actor_name actor_class actor_implementation actor_config =
      start_existing (start_call actor_class actor_implementation actor_config) (
        add_trial_if_needed m trial_id actor_name (
          new_started_actor_trial trial_id actor_name actor_class actor_implementation
            actor_config))

  unfoldable pub is_joined : String → String → Option (ActorTrial p) → Result Bool
  is_joined trial_id actor_name none = ok false
  is_joined trial_id actor_name (some t) = elim t.status [
    | ended ↦ err (trial_ended trial_id)
    | left ↦ err (trial_left trial_id actor_name)
    | wait_for_recv_event ↦ ok true
    | started ↦ ok false
    | joined ↦ err unexpected
    | wait_for_sent_event ↦ err unexpected
  ]

  abbrev start_result : Result (Option (ActorTrial p)) → Result (Unit {0})
  start_result (err e) = err e
  start_result (ok t) = ok tt

  abbrev start_wait :
      String
      → String
      → List (Manager p)
      → Manager p × Next (Unit {0})
      → Manager p × Result (Unit {0})
  start_wait trial_id actor_name later (m, gives r) = (m, ok r)
  start_wait trial_id actor_name later (m, fails e) = (m, err e)
  start_wait trial_id actor_name later (m, waits) =
      let (m', r) = wait_for_trial (is_joined trial_id actor_name) trial_id actor_name m later in
      (m', start_result r)

  unfoldable pub start_trial :
      Manager p
      → String
      → String
      → String
      → String
      → Option p.Message
      → List (Manager p)
      → Manager p × Result (Unit {0})
  unfolding start_begin wait_for_trial is_joined
  start_trial m trial_id actor_name actor_class actor_implementation actor_config later =
      start_wait trial_id actor_name later
        (start_begin m trial_id actor_name actor_class actor_implementation actor_config)

  abbrev after_call {ℓ} : {A : Type ℓ} → Manager p × Option TransitionError → Manager p × Next A
  after_call (m, none) = (emit m, waits)
  after_call (m, some e) = (m, fails (trial_transition e))

  act_existing :
      Manager p → String → String → SentEvent p → Option ℕ → Manager p × Next (RecvEvent p)
  unfolding call_at remove_trial
  act_existing m trial_id actor_name event none = (m, fails (trial_not_found trial_id actor_name))
  act_existing m trial_id actor_name event (some q) =
      if (m.heap q).status is ended
      then (remove_trial m trial_id actor_name, gives (m.heap q).last_recv_event)
      else if (m.heap q).status is left
      then (m, fails (trial_left trial_id actor_name))
      else after_call (call_at m q (send_call event))

  unfoldable pub act_begin :
      Manager p → String → String → SentEvent p → Manager p × Next (RecvEvent p)
  unfolding act_existing get_trial
  act_begin m trial_id actor_name event =
      act_existing m trial_id actor_name event (get_trial m trial_id actor_name)

  unfoldable pub has_next_observation : String → String → Option (ActorTrial p) → Result Bool
  has_next_observation trial_id actor_name none = err unexpected
  has_next_observation trial_id actor_name (some t) = elim t.status [
    | ended ↦ ok true
    | left ↦ err (trial_left trial_id actor_name)
    | wait_for_sent_event ↦ ok true
    | wait_for_recv_event ↦ ok false
    | joined ↦ err unexpected
    | started ↦ err unexpected
  ]

  unfoldable pub act_end :
      String
      → String
      → Manager p × Result (Option (ActorTrial p))
      → Manager p × Result (RecvEvent p)
  unfolding remove_trial
  act_end trial_id actor_name (m, err e) = (m, err e)
  act_end trial_id actor_name (m, ok none) = (m, err unexpected)
  act_end trial_id actor_name (m, ok (some t)) =
      (if t.status is ended then remove_trial m trial_id actor_name else m, ok t.last_recv_event)

  abbrev act_wait :
      String
      → String
      → List (Manager p)
      → Manager p × Next (RecvEvent p)
      → Manager p × Result (RecvEvent p)
  act_wait trial_id actor_name later (m, gives e) = (m, ok e)
  act_wait trial_id actor_name later (m, fails e) = (m, err e)
  act_wait trial_id actor_name later (m, waits) =
      act_end trial_id actor_name
        (wait_for_trial (has_next_observation trial_id actor_name) trial_id actor_name m later)

  unfoldable pub act :
      Manager p
      → String
      → String
      → SentEvent p
      → List (Manager p)
      → Manager p × Result (RecvEvent p)
  unfolding act_begin wait_for_trial has_next_observation act_end
  act m trial_id actor_name event later =
      act_wait trial_id actor_name later (act_begin m trial_id actor_name event)

  request_act_existing :
      Manager p → String → String → RecvEvent p → Option ℕ → Manager p × Next (SentEvent p)
  unfolding call_at
  request_act_existing m trial_id actor_name event none =
      (m, fails (trial_not_found trial_id actor_name))
  request_act_existing m trial_id actor_name event (some q) =
      after_call (call_at m q (receive_call event))

  unfoldable pub request_act_begin :
      Manager p → String → String → RecvEvent p → Manager p × Next (SentEvent p)
  unfolding request_act_existing get_trial
  request_act_begin m trial_id actor_name event =
      request_act_existing m trial_id actor_name event (get_trial m trial_id actor_name)

  unfoldable pub has_next_action : String → String → Option (ActorTrial p) → Result Bool
  has_next_action trial_id actor_name none = err unexpected
  has_next_action trial_id actor_name (some t) = elim t.status [
    | ended ↦ err (trial_ended trial_id)
    | left ↦ err (trial_left trial_id actor_name)
    | wait_for_sent_event ↦ ok false
    | wait_for_recv_event ↦ ok true
    | joined ↦ err unexpected
    | started ↦ err unexpected
  ]

  abbrev request_act_result : Result (Option (ActorTrial p)) → Result (SentEvent p)
  request_act_result (err e) = err e
  request_act_result (ok none) = err unexpected
  request_act_result (ok (some t)) = ok t.last_sent_event

  abbrev request_act_wait :
      String
      → String
      → List (Manager p)
      → Manager p × Next (SentEvent p)
      → Manager p × Result (SentEvent p)
  request_act_wait trial_id actor_name later (m, gives e) = (m, ok e)
  request_act_wait trial_id actor_name later (m, fails e) = (m, err e)
  request_act_wait trial_id actor_name later (m, waits) =
      let (m', r) =
        wait_for_trial (has_next_action trial_id actor_name) trial_id actor_name m later in
      (m', request_act_result r)

  unfoldable pub request_act :
      Manager p
      → String
      → String
      → RecvEvent p
      → List (Manager p)
      → Manager p × Result (SentEvent p)
  unfolding request_act_begin wait_for_trial has_next_action
  request_act m trial_id actor_name event later =
      request_act_wait trial_id actor_name later (request_act_begin m trial_id actor_name event)

  abbrev after_final : Manager p × Option TransitionError → Manager p × Option ProxyError
  after_final (m, none) = (emit m, none)
  after_final (m, some e) = (m, some (trial_transition e))

  final_existing : Manager p → String → String → Call p → Option ℕ → Manager p × Option ProxyError
  unfolding call_at
  final_existing m trial_id actor_name c none = (m, some (trial_not_found trial_id actor_name))
  final_existing m trial_id actor_name c (some q) = after_final (call_at m q c)

  unfoldable pub leave_trial : Manager p → String → String → Manager p × Option ProxyError
  unfolding final_existing get_trial
  leave_trial m trial_id actor_name =
      final_existing m trial_id actor_name leave_call (get_trial m trial_id actor_name)

  unfoldable pub end_trial :
      Manager p → String → String → RecvEvent p → Manager p × Option ProxyError
  unfolding final_existing get_trial
  end_trial m trial_id actor_name event =
      final_existing m trial_id actor_name (end_call event) (get_trial m trial_id actor_name)
