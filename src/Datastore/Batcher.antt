-- ===== src/Datastore/Batcher.antt =====
-- packages/cli/services/datastore/utils/sampleBatcher.go. What runs under the mutex is one step. A call
-- of AddSample that filled the batch and the timer's goroutine are due to call `flush`: they are
-- counted, and any number of other steps may come before. The backend is an argument: what AddSamples
-- does to its state. The channel of the errors has no buffer, and is closed when its reader returns.
pub mod Delivered
pub mod Ended
use cogment.Prelude.{
  ℕ, zero, suc, ◌+◌, ◌≡◌, Bool, true, false, Option, none, some, List, [], ◌∷◌, ◌++◌, ◌==◌, leb,
  if◌then◌else◌, length,
}

abbrev pub default_max_batch_size : ℕ
default_max_batch_size = 1000

-- `nil`, or a timer that runs or has stopped.
pub data Timer : Type 0 where
  no_timer : Timer
  running : Timer
  stopped : Timer

abbrev pub Adds : Type 0 → Type 0 → Type 0 → Type 0
Adds A E S = List A → S → Option E × S

-- `sending`: a flush has given the batch to the backend and sends its error on the channel `err`, with
-- the mutex; it empties the batch once the error is received. `closed`: the channel is closed.
pub record SampleBatcher (A E S : Type 0) : Type 0 where
  pub full_batch_size : ℕ
  pub batch : List A
  pub timer : Timer
  pub sending : Option E
  pub closed : Bool
  pub errors : List E
  pub backend : S
  pub due : ℕ

-- An empty batch is not given.
abbrev pub given : {A : Type 0} → List A → List (List A)
given [] = []
given (s ∷ batch) = (s ∷ batch) ∷ []

module _ {A E S : Type 0} where
  abbrev pub new_sample_batcher : S → SampleBatcher A E S
  new_sample_batcher backend = record {
    full_batch_size = default_max_batch_size;
    batch = [];
    timer = no_timer;
    sending = none;
    closed = false;
    errors = [];
    backend = backend;
    due = 0;
  }

  -- The timer starts, or starts again.
  abbrev pub reset_timer : SampleBatcher A E S → SampleBatcher A E S
  reset_timer sb = record sb { timer = running }

  -- A send on a closed channel stops the process: `none`.
  abbrev pub handed : SampleBatcher A E S → Option E × S → Option (SampleBatcher A E S)
  handed sb (none, backend) = some (record sb { batch = []; backend = backend })
  handed sb (some e, backend) =
      if sb.closed then none else some (record sb { sending = some e; backend = backend })

  abbrev pub flush_batch : Adds A E S → List A → SampleBatcher A E S → Option (SampleBatcher A E S)
  flush_batch add_samples [] sb = some sb
  flush_batch add_samples (s ∷ batch) sb = handed sb (add_samples (s ∷ batch) sb.backend)

  -- To stop the timer that is `nil` stops the process: `none`.
  abbrev pub flush_with : Adds A E S → Timer → SampleBatcher A E S → Option (SampleBatcher A E S)
  flush_with add_samples no_timer sb = none
  flush_with add_samples _ sb = flush_batch add_samples sb.batch (record sb { timer = stopped })

  -- With the mutex, up to the send of an error.
  unfoldable pub flush : Adds A E S → SampleBatcher A E S → Option (SampleBatcher A E S)
  flush add_samples sb = flush_with add_samples sb.timer sb

  -- The rest of `flush`, once its error is received.
  abbrev pub flush_rest : E → SampleBatcher A E S → SampleBatcher A E S
  flush_rest e sb = record sb { sending = none; errors = sb.errors ++ e ∷ []; batch = [] }

  -- The part of AddSample under the mutex; then the call is due to flush if the batch is full.
  unfoldable pub add_sample : A → SampleBatcher A E S → SampleBatcher A E S
  add_sample sample sb =
      let size = length sb.batch in
      let timed = if size == 0 then reset_timer sb else sb in
      record timed {
        batch = sb.batch ++ sample ∷ [];
        due = if leb sb.full_batch_size (size + 1) then suc sb.due else sb.due;
      }

  -- A call of AddSample with no other step before its flush.
  unfoldable pub add_alone : Adds A E S → A → SampleBatcher A E S → Option (SampleBatcher A E S)
  unfolding add_sample flush
  add_alone add_samples sample sb =
      let added = add_sample sample sb in
      if leb sb.full_batch_size (length sb.batch + 1)
      then flush add_samples (record added { due = sb.due })
      else some added

-- A step, with the samples that it puts and the batches that it gives to the backend. Where the mutex is
-- held while an error is sent, there is no other step with the mutex until the error is received, which
-- may be never.
pub data Step {A E S : Type 0} (add_samples : Adds A E S)
    : SampleBatcher A E S → List A → List (List A) → SampleBatcher A E S → Type 0 where
  put :
      (sample : A) (sb : SampleBatcher A E S)
      → sb.sending ≡ none
      → Step add_samples sb (sample ∷ []) [] (add_sample sample sb)
  fire :
      (sb : SampleBatcher A E S)
      → sb.timer ≡ running
      → Step add_samples sb [] [] (record sb { timer = stopped; due = suc sb.due })
  flushed :
      (sb sb' : SampleBatcher A E S) (due : ℕ)
      → sb.sending ≡ none
      → sb.due ≡ suc due
      → flush add_samples (record sb { due = due }) ≡ some sb'
      → Step add_samples sb [] (given sb.batch) sb'
  received :
      (sb : SampleBatcher A E S) (e : E)
      → sb.sending ≡ some e
      → Step add_samples sb [] [] (flush_rest e sb)
  closes :
      (sb : SampleBatcher A E S)
      → sb.sending ≡ none
      → Step add_samples sb [] [] (record sb { closed = true })

pub data Run {A E S : Type 0} (add_samples : Adds A E S) (start : SampleBatcher A E S)
    : List A → List (List A) → SampleBatcher A E S → Type 0 where
  begun : Run add_samples start [] [] start
  runs :
      (samples more : List A) (batches next : List (List A)) (sb sb' : SampleBatcher A E S)
      → Run add_samples start samples batches sb
      → Step add_samples sb more next sb'
      → Run add_samples start (samples ++ more) (batches ++ next) sb'
