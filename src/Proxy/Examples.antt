-- ===== src/Proxy/Examples.antt =====
-- The theorems on the web proxy at concrete inputs, and runs of its requests.
use cogment.Prelude.{ℕ, ◌≤◌, ◌≡◌, refl, ◌↔◌, inl, String, none, some, List, [], ◌∷◌, arith}
use cogment.Proxy.Trial.{
  Payloads, Status, wait_for_recv_event, wait_for_sent_event, left, SentEvent, RecvEvent,
  ActorTrial, TransitionError, tick_id, Call, start_call, join_call, leave_call, send_call,
  receive_call, call, new_joined_actor_trial, new_trial_transition_error,
}
use cogment.Proxy.Trial.Graph.{Edge, call-Edge, calls, calls-Final}
use cogment.Proxy.Trial.Ticks.{calls-tick_id}
use cogment.Proxy.Manager.{
  Manager, new_manager, ok, get_trial, add_trial_if_needed, leave_all_trials,
}
use cogment.Proxy.Manager.Slice.{count}
use cogment.Proxy.Manager.Unique.{IsConsistent}
use cogment.Proxy.Manager.Lookup.{}
use cogment.Proxy.Manager.Steps.{Reach, here, and_then, adds, Reach-IsConsistent}
use cogment.Proxy.Manager.Requests.{
  join_begin, join_trial, start_begin, act_begin, request_act_begin, request_act,
}
use cogment.Proxy.Manager.Rounds.{request_act-act}
use cogment.Proxy.Manager.Meeting.{join_trial-start}
use cogment.Proxy.Manager.Closing.{}

abbrev plain : Payloads
plain = record { Message = String; Float = ℕ; UserData = String }

abbrev seen : ℕ → RecvEvent plain
seen n = record { tick_id = n; observation = some "seen"; rewards = [] }

abbrev done : ℕ → SentEvent plain
done n = record { tick_id = n; action = some "done"; rewards = [] }

abbrev fresh : ActorTrial plain
fresh = new_joined_actor_trial "t" "a"

abbrev script : List (Call plain)
script = start_call "c" "i" none ∷ receive_call (seen 4) ∷ send_call (done 3) ∷ []

call-Edge_example :
    Edge fresh join_call left
    ↔ (((call fresh join_call).1 ≡ none) × ((call fresh join_call).0.status ≡ left))
call-Edge_example = call-Edge fresh join_call left

refusal : TransitionError
refusal = new_trial_transition_error fresh wait_for_recv_event

abbrev over : ActorTrial plain
over = (call fresh leave_call).0

calls-Final_example : calls over script ≡ over
unfolding call new_joined_actor_trial
calls-Final_example = calls-Final over script (inl refl)

calls-tick_id_example : tick_id fresh ≤ tick_id (calls fresh script)
calls-tick_id_example = calls-tick_id fresh script

one_trial : Manager plain
one_trial = (add_trial_if_needed new_manager "t" "a" fresh).0

one_reached : Reach new_manager one_trial
unfolding one_trial new_joined_actor_trial
one_reached = and_then here (adds "t" "a" fresh refl refl)

Reach-IsConsistent_example : IsConsistent one_trial
Reach-IsConsistent_example = Reach-IsConsistent one_reached

abbrev held : Manager plain
held = record { heap = λ q. fresh; next = 1; trials = 0 ∷ []; emits = 0 }

-- A manager whose one trial waits for an event, and one whose trial waits for the actor.
abbrev trial_at : Status → ActorTrial plain
trial_at s = record {
  trial_id = "t";
  actor_name = "a";
  status = s;
  actor_class = "c";
  actor_implementation = "i";
  actor_config = none;
  last_recv_event = seen 2;
  last_sent_event = done 2;
}

abbrev manager_at : Status → Manager plain
manager_at s = record { heap = λ q. trial_at s; next = 1; trials = 0 ∷ []; emits = 0 }

manager_known : (s : Status) → get_trial (manager_at s) "t" "a" ≡ some 0
unfolding get_trial
manager_known s = refl

manager_IsConsistent : (s : Status) → IsConsistent (manager_at s)
unfolding count
manager_IsConsistent s = record { one = λ i a. ground arith; allocated = λ q h. ground arith }

abbrev receiving : Manager plain
receiving = manager_at wait_for_recv_event

abbrev sending : Manager plain
sending = manager_at wait_for_sent_event

request_act-act_example :
    let m1 = (request_act_begin receiving "t" "a" (seen 3)).0 in
    let m2 = (act_begin m1 "t" "a" (done 3)).0 in
    request_act receiving "t" "a" (seen 3) (m2 ∷ []) ≡ (m2, ok (done 3))
request_act-act_example =
    request_act-act receiving "t" "a" 0 (manager_known wait_for_recv_event) (seen 3) (done 3) refl
      (omega arith) refl

unopened : get_trial receiving "u" "b" ≡ none
unfolding get_trial
unopened = refl

join_trial-start_example :
    let m1 = (join_begin receiving "u" "b").0 in
    let m2 = (start_begin m1 "u" "b" "c" "i" none).0 in
    let m3 = (request_act_begin m2 "u" "b" (seen 1)).0 in
    join_trial receiving "u" "b" (m2 ∷ m3 ∷ []) ≡ (
      m3,
      ok (record {
        trial_info = record {
          trial_id = "u";
          actor_name = "b";
          actor_class = "c";
          actor_implementation = "i";
        };
        recv_event = seen 1;
        actor_config = none;
      }),
    )
join_trial-start_example =
    join_trial-start receiving "u" "b" (manager_IsConsistent wait_for_recv_event) unopened "c" "i"
      none (seen 1)

left_known : get_trial (leave_all_trials receiving) "t" "a" ≡ some 0
unfolding get_trial leave_all_trials call
left_known = refl
