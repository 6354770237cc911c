-- ===== src/Proxy/Manager.antt =====
-- packages/cli/services/proxy/actor/actor.go: the trials that the proxy knows. `trials` holds
-- pointers, and a caller keeps its pointer across a wait, so the trials stand on a heap. `emits`
-- counts the calls of `trialsObservable.Emit`.
pub mod Slice
pub mod Unique
pub mod Lookup
pub mod Requests
pub mod Steps
pub mod Waits
pub mod Rounds
pub mod Meeting
pub mod Closing
use cogment.Prelude.{
  ℕ, suc, ◌+◌, String, Bool, true, false, Option, none, some, List, [], ◌∷◌, ◌++◌, ◌==◌, ◌||◌,
  if◌then◌else◌, length, set,
}
use mathlib.Core.Option
use cogment.Proxy.Trial.{
  Payloads, Status, joined, started, wait_for_recv_event, wait_for_sent_event, left, ended, ◌is◌,
  SentEvent, RecvEvent, ActorTrial, TrialInfo, TransitionError, ProxyError, trial_left, trial_ended,
  trial_not_found, trial_transition, unexpected, context_done, matches, info, Call, start_call,
  join_call, leave_call, send_call, receive_call, end_call, call, new_joined_actor_trial,
  new_started_actor_trial,
}

pub data Result {ℓ} (A : Type ℓ) : Type ℓ where
  ok : A → Result A
  err : ProxyError → Result A

pub record Manager (p : Payloads) : Type 0 where
  pub heap : ℕ → ActorTrial p
  pub next : ℕ  -- the first free address
  pub trials : List ℕ
  pub emits : ℕ

-- The first entry of a slice that passes a test, and its index.
unfoldable pub find : (ℕ → Bool) → List ℕ → Option ℕ
find f [] = none
find f (q ∷ qs) = if f q then some q else find f qs

unfoldable pub find_index : (ℕ → Bool) → List ℕ → Option ℕ
find_index f [] = none
find_index f (q ∷ qs) = if f q then some 0 else Option.map suc (find_index f qs)

-- `s[:len(s)-1]`, and `s[len(s)-1]` of `q ∷ qs`.
unfoldable pub drop_last : List ℕ → List ℕ
drop_last [] = []
drop_last (q ∷ []) = []
drop_last (q ∷ r ∷ qs) = q ∷ drop_last (r ∷ qs)

unfoldable pub last : ℕ → List ℕ → ℕ
last q [] = q
last q (r ∷ qs) = last r qs

-- Puts the last entry in place of entry `i`, and pops the last one.
unfoldable pub swap_remove : List ℕ → ℕ → List ℕ
unfolding drop_last last
swap_remove [] i = []
swap_remove (q ∷ qs) i = drop_last (set (q ∷ qs) i (last q qs))

abbrev pub after_test {ℓ} : {A : Type ℓ} → Result Bool → (ProxyError → A) → A → A → A
after_test (err e) failed found waiting = failed e
after_test (ok true) failed found waiting = found
after_test (ok false) failed found waiting = waiting

module _ {p : Payloads} where
  abbrev pub update : (ℕ → ActorTrial p) → ℕ → ActorTrial p → ℕ → ActorTrial p
  update heap q t r = if r == q then t else heap r

  unfoldable pub new_manager : Manager p
  new_manager = record {
    heap = λ q. new_joined_actor_trial "" "";
    next = 0;
    trials = [];
    emits = 0;
  }

  abbrev pub emit : Manager p → Manager p
  emit m = record m { emits = m.emits + 1 }

  abbrev pub matches_at : (ℕ → ActorTrial p) → String → String → ℕ → Bool
  matches_at heap trial_id actor_name q = matches (heap q) trial_id actor_name

  unfoldable pub get_trial : Manager p → String → String → Option ℕ
  unfolding find
  get_trial m trial_id actor_name = find (matches_at m.heap trial_id actor_name) m.trials

  -- The manager, the pointer, and whether the trial is new.
  unfoldable pub add_trial_if_needed :
      Manager p → String → String → ActorTrial p → Manager p × ℕ × Bool
  unfolding get_trial
  add_trial_if_needed m trial_id actor_name factory = elim (get_trial m trial_id actor_name) [
    | some q ↦ (m, q, false)
    | none ↦ (
      record m {
        heap = update m.heap m.next factory;
        next = m.next + 1;
        trials = m.trials ++ (m.next ∷ []);
        emits = m.emits + 1;
      },
      m.next,
      true,
    )
  ]

  unfoldable pub remove_trial : Manager p → String → String → Manager p
  unfolding find_index swap_remove
  remove_trial m trial_id actor_name =
      elim (find_index (matches_at m.heap trial_id actor_name) m.trials) [
        | none ↦ m
        | some i ↦ record m { trials = swap_remove m.trials i; emits = m.emits + 1 }
      ]

  -- A method of the trial behind a pointer.
  unfoldable pub call_at : Manager p → ℕ → Call p → Manager p × Option TransitionError
  call_at m q c = let (t, e) = call (m.heap q) c in (record m { heap = update m.heap q t }, e)

  pub leave_each : (ℕ → ActorTrial p) → List ℕ → ℕ → ActorTrial p
  leave_each heap [] = heap
  leave_each heap (q ∷ qs) = leave_each (update heap q (call (heap q) leave_call).0) qs

  -- `Destroy` and `leaveAllTrials`.
  unfoldable pub leave_all_trials : Manager p → Manager p
  unfolding leave_each
  leave_all_trials m = record m { heap = leave_each m.heap m.trials; emits = m.emits + 1 }

  -- The trial that a wait tests: `nil` if there is none.
  unfoldable pub observed : Manager p → String → String → Option (ActorTrial p)
  unfolding get_trial
  observed m trial_id actor_name = Option.map m.heap (get_trial m trial_id actor_name)

  -- `waitForTrial`. The list has the manager as it is at each later notification; when it ends, the
  -- context is done. Gives back the manager that the last test saw.
  unfoldable pub wait_for_trial :
      (Option (ActorTrial p) → Result Bool)
      → String
      → String
      → Manager p
      → List (Manager p)
      → Manager p × Result (Option (ActorTrial p))
  unfolding observed
  wait_for_trial test trial_id actor_name m [] =
      after_test (test (observed m trial_id actor_name)) (λ e. (m, err e))
        (m, ok (observed m trial_id actor_name)) (m, err context_done)
  wait_for_trial test trial_id actor_name m (m' ∷ later) =
      let rest = wait_for_trial test trial_id actor_name m' later in
      after_test (test (observed m trial_id actor_name)) (λ e. (m, err e))
        (m, ok (observed m trial_id actor_name)) rest
