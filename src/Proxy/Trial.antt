-- ===== src/Proxy/Trial.antt =====
-- packages/cli/services/proxy/actor: trial.go, events.go and errors.go. A method that mutates an
-- `*actorTrial` returns the new record and its error. Each runs under the trial's own lock, so each
-- is one atomic step. Tick ids are uint64 and are only compared.
pub mod Graph
pub mod Ticks
use cogment.Prelude.{
  ℕ, String, Bool, true, false, ◌&&◌, ◌||◌, not, Option, none, some, List, [], ◌==◌, ltb, str_eq,
  if◌then◌else◌,
}

-- What the proxy carries and never looks into: a `*trialspec.DynamicPbMessage`, a `float32`, and the
-- `map[string]interface{}` of a sent reward.
pub record Payloads : Type 1 where
  pub Message : Type 0
  pub Float : Type 0
  pub UserData : Type 0

pub record SentReward (p : Payloads) : Type 0 where
  pub tick_id : ℕ
  pub receiver : String
  pub value : p.Float
  pub confidence : p.Float
  pub user_data : p.UserData

pub record SentEvent (p : Payloads) : Type 0 where
  pub tick_id : ℕ
  pub action : Option p.Message
  pub rewards : List (SentReward p)

pub record RecvRewardSource (p : Payloads) : Type 0 where
  pub sender : String
  pub value : p.Float
  pub confidence : p.Float
  pub user_data : Option p.Message

pub record RecvReward (p : Payloads) : Type 0 where
  pub tick_id : ℕ
  pub value : p.Float
  pub sources : List (RecvRewardSource p)

pub record RecvEvent (p : Payloads) : Type 0 where
  pub tick_id : ℕ
  pub observation : Option p.Message
  pub rewards : List (RecvReward p)

-- `actorTrialStatus`, in the order of its iota.
pub data Status : Type 0 where
  joined started wait_for_recv_event wait_for_sent_event left ended : Status

abbrev pub code : Status → ℕ
code joined = 0
code started = 1
code wait_for_recv_event = 2
code wait_for_sent_event = 3
code left = 4
code ended = 5

infix 50 ◌is◌
abbrev pub ◌is◌ : Status → Status → Bool
s is t = code s == code t

pub record TransitionError : Type 0 where
  pub trial_id : String
  pub actor_name : String
  pub status : Status
  pub tick_id : ℕ
  pub requested_status : Status
  pub requested_tick_id : ℕ

-- The errors of errors.go, and the error of a context that is done.
pub data ProxyError : Type 0 where
  trial_left : String → String → ProxyError
  trial_ended : String → ProxyError
  trial_not_found : String → String → ProxyError
  trial_transition : TransitionError → ProxyError
  unexpected : ProxyError
  context_done : ProxyError

pub record TrialInfo : Type 0 where
  pub trial_id : String
  pub actor_name : String
  pub actor_class : String
  pub actor_implementation : String

pub record ActorTrial (p : Payloads) : Type 0 where
  pub trial_id : String
  pub actor_name : String
  pub status : Status
  pub actor_class : String
  pub actor_implementation : String
  pub actor_config : Option p.Message
  pub last_recv_event : RecvEvent p
  pub last_sent_event : SentEvent p

module _ {p : Payloads} where
  abbrev pub no_recv_event : RecvEvent p
  no_recv_event = record { tick_id = 0; observation = none; rewards = [] }

  abbrev pub no_sent_event : SentEvent p
  no_sent_event = record { tick_id = 0; action = none; rewards = [] }

  unfoldable pub new_joined_actor_trial : String → String → ActorTrial p
  new_joined_actor_trial trial_id actor_name = record {
    trial_id = trial_id;
    actor_name = actor_name;
    status = joined;
    actor_class = "";
    actor_implementation = "";
    actor_config = none;
    last_recv_event = no_recv_event;
    last_sent_event = no_sent_event;
  }

  unfoldable pub new_started_actor_trial :
      String → String → String → String → Option p.Message → ActorTrial p
  new_started_actor_trial trial_id actor_name actor_class actor_implementation actor_config =
      record {
        trial_id = trial_id;
        actor_name = actor_name;
        status = started;
        actor_class = actor_class;
        actor_implementation = actor_implementation;
        actor_config = actor_config;
        last_recv_event = no_recv_event;
        last_sent_event = no_sent_event;
      }

  abbrev pub matches : ActorTrial p → String → String → Bool
  matches t trial_id actor_name = str_eq t.trial_id trial_id && str_eq t.actor_name actor_name

  unfoldable pub info : ActorTrial p → TrialInfo
  info t = record {
    trial_id = t.trial_id;
    actor_name = t.actor_name;
    actor_class = t.actor_class;
    actor_implementation = t.actor_implementation;
  }

  abbrev pub tick_id : ActorTrial p → ℕ
  tick_id t =
      if ltb t.last_recv_event.tick_id t.last_sent_event.tick_id
      then t.last_sent_event.tick_id
      else t.last_recv_event.tick_id

  abbrev pub new_trial_transition_error : ActorTrial p → Status → TransitionError
  new_trial_transition_error t requested = record {
    trial_id = t.trial_id;
    actor_name = t.actor_name;
    status = t.status;
    tick_id = 0;
    requested_status = requested;
    requested_tick_id = 0;
  }

  abbrev pub new_running_trial_transition_error : ActorTrial p → Status → ℕ → TransitionError
  new_running_trial_transition_error t requested requested_tick_id = record {
    trial_id = t.trial_id;
    actor_name = t.actor_name;
    status = t.status;
    tick_id = tick_id t;
    requested_status = requested;
    requested_tick_id = requested_tick_id;
  }

  unfoldable pub start :
      ActorTrial p → String → String → Option p.Message → ActorTrial p × Option TransitionError
  start t actor_class actor_implementation actor_config =
      if not (t.status is joined)
      then (t, some (new_trial_transition_error t wait_for_recv_event))
      else (
        record t {
          status = wait_for_recv_event;
          actor_class = actor_class;
          actor_implementation = actor_implementation;
          actor_config = actor_config;
        },
        none,
      )

  unfoldable pub join : ActorTrial p → ActorTrial p × Option TransitionError
  join t =
      if not (t.status is started)
      then (t, some (new_trial_transition_error t wait_for_recv_event))
      else (record t { status = wait_for_recv_event }, none)

  unfoldable pub leave : ActorTrial p → ActorTrial p × Option TransitionError
  leave t =
      if t.status is left || t.status is ended
      then (t, some (new_trial_transition_error t left))
      else (record t { status = left }, none)

  unfoldable pub send_event : ActorTrial p → SentEvent p → ActorTrial p × Option TransitionError
  send_event t event =
      if not (t.status is wait_for_sent_event) || not (tick_id t == event.tick_id)
      then (t, some (new_running_trial_transition_error t wait_for_recv_event event.tick_id))
      else (record t { status = wait_for_recv_event; last_sent_event = event }, none)

  unfoldable pub receive_event : ActorTrial p → RecvEvent p → ActorTrial p × Option TransitionError
  receive_event t event =
      if not (t.status is wait_for_recv_event) || ltb event.tick_id (tick_id t)
      then (t, some (new_running_trial_transition_error t wait_for_sent_event event.tick_id))
      else (record t { status = wait_for_sent_event; last_recv_event = event }, none)

  unfoldable pub end : ActorTrial p → RecvEvent p → ActorTrial p × Option TransitionError
  end t event =
      if t.status is left || t.status is ended || ltb event.tick_id (tick_id t)
      then (t, some (new_running_trial_transition_error t ended event.tick_id))
      else (record t { status = ended; last_recv_event = event }, none)

-- A call of one of the methods that change a trial.
pub data Call (p : Payloads) : Type 0 where
  start_call : String → String → Option p.Message → Call p
  join_call : Call p
  leave_call : Call p
  send_call : SentEvent p → Call p
  receive_call : RecvEvent p → Call p
  end_call : RecvEvent p → Call p

module _ {p : Payloads} where
  unfoldable pub call : ActorTrial p → Call p → ActorTrial p × Option TransitionError
  unfolding start join leave send_event receive_event end
  call t (start_call c i m) = start t c i m
  call t join_call = join t
  call t leave_call = leave t
  call t (send_call e) = send_event t e
  call t (receive_call e) = receive_event t e
  call t (end_call e) = end t e
