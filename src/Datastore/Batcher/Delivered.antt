-- ===== src/Datastore/Batcher/Delivered.antt =====
-- sampleBatcher.go: every sample that is added is given to the backend, once and in order.
use mathlib.Core.List.{append-nil, append_assoc}
use cogment.Prelude.{
  Bool-cases, Option, none, some, true, false, List, ℕ, suc, ◌+◌, ◌<◌, ◌≡◌, ◌≢◌, ◌∙◌, ◌⊎◌, refl,
  sym, subst, ap, inl, inr, Bool, [], ◌∷◌, ◌++◌, ◌==◌, leb, if◌then◌else◌, arith, length, flatten,
}
use cogment.Datastore.Batcher.{
  handed, flush_rest, received, closes, Timer, no_timer, running, stopped, Adds, SampleBatcher,
  new_sample_batcher, flush, flush_with, flush_batch, add_sample, given, Step, Run, runs, begun,
  put, fire, flushed,
}

module _ {A E S : Type 0} (add_samples : Adds A E S) where
  -- The backend after calls of AddSamples with the batches.
  abbrev pub deliver : List (List A) → S → S
  deliver [] s = s
  deliver (batch ∷ batches) s = deliver batches (add_samples batch s).1

  deliver-append :
      (xs ys : List (List A)) (s : S) → deliver (xs ++ ys) s ≡ deliver ys (deliver xs s)
  deliver-append [] ys s = refl
  deliver-append (x ∷ xs) ys s = deliver-append xs ys (add_samples x s).1

flatten-append {ℓ} :
    {A : Type ℓ} (xss yss : List (List A)) → flatten (xss ++ yss) ≡ flatten xss ++ flatten yss
flatten-append [] yss = refl
flatten-append (xs ∷ xss) yss =
    ap (λ ys. xs ++ ys) (flatten-append xss yss) ∙ sym (append_assoc xs (flatten xss) (flatten yss))

-- A batch with samples has a timer that runs or a flush that is due; a flush is due only after a timer
-- was started.
abbrev pub Awaited : Timer → ℕ → Type 0
Awaited running due = Unit
Awaited _ due = 0 < due

abbrev pub IsAwaited : {A : Type 0} → List A → Timer → ℕ → Type 0
IsAwaited [] timer due = Unit
IsAwaited (s ∷ batch) timer due = Awaited timer due

abbrev pub IsStarted : Timer → ℕ → Type 0
IsStarted no_timer due = due ≡ 0
IsStarted _ due = Unit

-- The samples that were put and not given to the backend.
abbrev pub unsent : {A E : Type 0} → Option E → List A → List A
unsent none batch = batch
unsent (some e) batch = []

-- What holds in every state.
pub record IsKept {A E S : Type 0} (add_samples : Adds A E S) (start : S) (samples : List A)
    (batches : List (List A)) (sb : SampleBatcher A E S) : Type 0 where
  pub whole : flatten batches ++ unsent sb.sending sb.batch ≡ samples
  pub stored : sb.backend ≡ deliver add_samples batches start
  pub awaited : IsAwaited (unsent sb.sending sb.batch) sb.timer sb.due
  pub started : IsStarted sb.timer sb.due

flatten-given : {A : Type 0} (batch : List A) → flatten (given batch) ≡ batch
flatten-given [] = refl
flatten-given (s ∷ batch) = append-nil (s ∷ batch)

append-IsAwaited :
    {A : Type 0} (batch : List A) (sample : A) (timer : Timer) (due : ℕ)
    → Awaited timer due
    → IsAwaited (batch ++ (sample ∷ [])) timer due
append-IsAwaited [] sample timer due h = h
append-IsAwaited (s ∷ batch) sample timer due h = h

-- More flushes are due.
Awaited-more :
    (timer : Timer) (due : ℕ) (full : Bool)
    → Awaited timer due
    → Awaited timer (if full then suc due else due)
Awaited-more running due full h = tt
Awaited-more no_timer due true h = omega arith
Awaited-more no_timer due false h = h
Awaited-more stopped due true h = omega arith
Awaited-more stopped due false h = h

module _ {A E S : Type 0} (add_samples : Adds A E S) (start : S) where
  module _ (full : ℕ) (timer : Timer) (closed : Bool) (errors : List E) (backend : S) (due : ℕ)
      (samples : List A) (batches : List (List A)) where
    abbrev state : List A → Option E → SampleBatcher A E S
    state batch sending = record {
      full_batch_size = full;
      batch = batch;
      timer = timer;
      sending = sending;
      closed = closed;
      errors = errors;
      backend = backend;
      due = due;
    }

    put_fields :
        (sample : A) (batch : List A) (sending : Option E)
        → sending ≡ none
        → IsKept add_samples start samples batches (state batch sending)
        → IsKept add_samples start
            (samples ++ sample ∷ [])
            batches
            (add_sample sample (state batch sending))
    unfolding add_sample
    put_fields sample batch (some e) h kept = absurd (ground (arith, h))
    put_fields sample [] none h kept = record {
      whole =
          sym (append_assoc (flatten batches) [] (sample ∷ []))
          ∙ ap (λ xs. xs ++ sample ∷ []) kept.whole;
      stored = kept.stored;
      awaited = tt;
      started = tt;
    }
    put_fields sample (s ∷ batch) none h kept =
        let more : (length (s ∷ batch) == 0) ≡ false = ground arith in
        rw more (record {
          whole =
              sym (append_assoc (flatten batches) (s ∷ batch) (sample ∷ []))
              ∙ ap (λ xs. xs ++ sample ∷ []) kept.whole;
          stored = kept.stored;
          awaited = Awaited-more timer due (leb full (length (s ∷ batch) + 1)) kept.awaited;
          started = still timer kept.awaited kept.started;
        })
      where
        still :
            (timer : Timer)
            → Awaited timer due
            → IsStarted timer due
            → IsStarted timer (if leb full (length (s ∷ batch) + 1) then suc due else due)
        still no_timer h k = absurd (omega (arith, h, k))
        still running h k = tt
        still stopped h k = tt

  put-IsKept :
      (sample : A) (samples : List A) (batches : List (List A)) (sb : SampleBatcher A E S)
      → sb.sending ≡ none
      → IsKept add_samples start samples batches sb
      → IsKept add_samples start (samples ++ sample ∷ []) batches (add_sample sample sb)
  put-IsKept sample samples batches sb =
      put_fields sb.full_batch_size sb.timer sb.closed sb.errors sb.backend sb.due samples batches
        sample sb.batch sb.sending

  pub fire-IsKept :
      (samples : List A) (batches : List (List A)) (sb : SampleBatcher A E S)
      → IsKept add_samples start samples batches sb
      → IsKept add_samples start samples batches (record sb { timer = stopped; due = suc sb.due })
  fire-IsKept samples batches sb kept = record {
    whole = kept.whole;
    stored = kept.stored;
    awaited = elim (unsent sb.sending sb.batch) as (λ b. IsAwaited b stopped (suc sb.due)) [
      | [] ↦ tt
      | s ∷ batch ↦ omega arith
    ];
    started = tt;
  }

  flush_timer :
      (timer : Timer) (sb : SampleBatcher A E S)
      → IsStarted timer (suc sb.due)
      → flush_with add_samples timer sb
        ≡ flush_batch add_samples sb.batch (record sb { timer = stopped })
  flush_timer no_timer sb h = absurd (omega (arith, h))
  flush_timer running sb h = refl
  flush_timer stopped sb h = refl

  pub some_inj : (x y : SampleBatcher A E S) → some x ≡ some y → x ≡ y
  some_inj x y h = ground (arith, h)

  if_open :
      (closed : Bool) (sb : SampleBatcher A E S)
      → closed ≡ false
      → (if closed then none else some sb) ≡ some sb
  if_open true sb h = absurd (ground (arith, h))
  if_open false sb h = refl

  -- A batch that was given to the backend, with what the backend answered.
  handed-IsKept :
      (s : A) (batch samples : List A) (batches : List (List A)) (sb sb' : SampleBatcher A E S)
      (answer : Option E × S)
      → sb.sending ≡ none
      → sb.timer ≡ stopped
      → flatten batches ++ s ∷ batch ≡ samples
      → answer.1 ≡ deliver add_samples (batches ++ given (s ∷ batch)) start
      → handed sb answer ≡ some sb'
      → IsKept add_samples start samples (batches ++ given (s ∷ batch)) sb'
  handed-IsKept s batch samples batches sb sb' (error, backend) idle t whole stored e =
      let all : flatten (batches ++ given (s ∷ batch)) ++ [] ≡ samples =
        append-nil (flatten (batches ++ given (s ∷ batch)))
        ∙ flatten-append batches (given (s ∷ batch))
        ∙ ap (λ xs. flatten batches ++ xs) (flatten-given (s ∷ batch))
        ∙ whole in
      left error all e
    where
      left :
          (error : Option E)
          → flatten (batches ++ given (s ∷ batch)) ++ [] ≡ samples
          → handed sb (error, backend) ≡ some sb'
          → IsKept add_samples start samples (batches ++ given (s ∷ batch)) sb'
      left none all e =
          subst (IsKept add_samples start samples (batches ++ given (s ∷ batch)))
            (some_inj (record sb { batch = []; backend = backend }) sb' e)
            (record {
              whole = rw idle all;
              stored = stored;
              awaited = rw idle tt;
              started = rw t tt;
            })
      left (some x) all e = elim (Bool-cases sb.closed) [
        | inl shut ↦ let e' = rw shut at e in absurd (ground (arith, e'))
        | inr open_still ↦
            subst (IsKept add_samples start samples (batches ++ given (s ∷ batch)))
              (some_inj (record sb { sending = some x; backend = backend }) sb'
                (sym (
                    if_open sb.closed (record sb { sending = some x; backend = backend })
                      open_still)
                  ∙ e))
              (record { whole = all; stored = stored; awaited = tt; started = rw t tt })
      ]

  flush_batch-IsKept :
      (batch samples : List A) (batches : List (List A)) (sb sb' : SampleBatcher A E S)
      → sb.batch ≡ batch
      → sb.sending ≡ none
      → sb.timer ≡ stopped
      → flatten batches ++ batch ≡ samples
      → sb.backend ≡ deliver add_samples batches start
      → flush_batch add_samples batch sb ≡ some sb'
      → IsKept add_samples start samples (batches ++ given batch) sb'
  flush_batch-IsKept [] samples batches sb sb' e idle t whole stored f = rw (append-nil batches) (
      subst (IsKept add_samples start samples batches) (some_inj sb sb' f) (record {
        whole = rw (idle, e) whole;
        stored = stored;
        awaited = rw (idle, e) tt;
        started = rw t tt;
      }))
  flush_batch-IsKept (s ∷ batch) samples batches sb sb' e idle t whole stored f =
      handed-IsKept s batch samples batches sb sb' (add_samples (s ∷ batch) sb.backend) idle t whole
        (ap (λ b. (add_samples (s ∷ batch) b).1) stored
          ∙ sym (deliver-append add_samples batches (given (s ∷ batch)) start))
        f

  pub idle_unsent :
      (sb : SampleBatcher A E S) → sb.sending ≡ none → unsent sb.sending sb.batch ≡ sb.batch
  idle_unsent sb idle = rw idle refl

  -- What a flush that is due comes to.
  pub due_flush :
      (sb : SampleBatcher A E S) (due : ℕ)
      → sb.due ≡ suc due
      → IsStarted sb.timer sb.due
      → flush add_samples (record sb { due = due })
        ≡ flush_batch add_samples sb.batch (record sb { timer = stopped; due = due })
  unfolding flush
  due_flush sb due e started =
      flush_timer sb.timer (record sb { due = due }) (subst (IsStarted sb.timer) e started)

  pub flushed-IsKept :
      (samples : List A) (batches : List (List A)) (sb sb' : SampleBatcher A E S) (due : ℕ)
      → sb.sending ≡ none
      → sb.due ≡ suc due
      → flush add_samples (record sb { due = due }) ≡ some sb'
      → IsKept add_samples start samples batches sb
      → IsKept add_samples start samples (batches ++ given sb.batch) sb'
  flushed-IsKept samples batches sb sb' due idle e f kept =
      flush_batch-IsKept sb.batch samples batches (record sb { timer = stopped; due = due }) sb'
        refl idle refl (sym (ap (λ b. flatten batches ++ b) (idle_unsent sb idle)) ∙ kept.whole)
        kept.stored (sym (due_flush sb due e kept.started) ∙ f)

  received-IsKept :
      (samples : List A) (batches : List (List A)) (sb : SampleBatcher A E S) (e : E)
      → sb.sending ≡ some e
      → IsKept add_samples start samples batches sb
      → IsKept add_samples start samples batches (flush_rest e sb)
  received-IsKept samples batches sb e h kept =
      let gone : unsent sb.sending sb.batch ≡ [] = rw h refl in
      record {
        whole = sym (ap (λ b. flatten batches ++ b) gone) ∙ kept.whole;
        stored = kept.stored;
        awaited = tt;
        started = kept.started;
      }

  Step-IsKept :
      (samples more : List A) (batches next : List (List A)) (sb sb' : SampleBatcher A E S)
      → IsKept add_samples start samples batches sb
      → Step add_samples sb more next sb'
      → IsKept add_samples start (samples ++ more) (batches ++ next) sb'
  Step-IsKept samples _ batches _ _ _ kept (put sample sb idle) =
      rw (append-nil batches) (put-IsKept sample samples batches sb idle kept)
  Step-IsKept samples _ batches _ _ _ kept (fire sb on) =
      rw (append-nil batches, append-nil samples) (fire-IsKept samples batches sb kept)
  Step-IsKept samples _ batches _ _ _ kept (flushed sb sb' due idle e f) =
      rw (append-nil samples) (flushed-IsKept samples batches sb sb' due idle e f kept)
  Step-IsKept samples _ batches _ _ _ kept (received sb e h) =
      rw (append-nil batches, append-nil samples) (received-IsKept samples batches sb e h kept)
  Step-IsKept samples _ batches _ _ _ kept (closes sb h) =
      rw (append-nil batches, append-nil samples)
        (record {
          whole = kept.whole;
          stored = kept.stored;
          awaited = kept.awaited;
          started = kept.started;
        })

  pub Run-IsKept :
      (samples : List A) (batches : List (List A)) (sb : SampleBatcher A E S)
      → Run add_samples (new_sample_batcher start) samples batches sb
      → IsKept add_samples start samples batches sb
  Run-IsKept _ _ _ begun = record { whole = refl; stored = refl; awaited = tt; started = refl }
  Run-IsKept _ _ _ (runs samples more batches next sb sb' run step) =
      Step-IsKept samples more batches next sb sb' (Run-IsKept samples batches sb run) step

  start_cases : (timer : Timer) (due : ℕ) → IsStarted timer due → (due ≡ 0) ⊎ (timer ≢ no_timer)
  start_cases no_timer due h = inl h
  start_cases running due h = inr (λ e. ground (arith, e))
  start_cases stopped due h = inr (λ e. ground (arith, e))

  -- In every state that the steps reach, the batches that were given to the backend and what was not
  -- given are the samples that were put, in order; the backend's state is what AddSamples makes of these
  -- batches; and if a flush is due, the timer that it stops is not nil.
  pub Run-Delivers :
      (samples : List A) (batches : List (List A)) (sb : SampleBatcher A E S)
      → Run add_samples (new_sample_batcher start) samples batches sb
      → (flatten batches ++ unsent sb.sending sb.batch ≡ samples)
        × (sb.backend ≡ deliver add_samples batches start)
        × ((sb.due ≡ 0) ⊎ (sb.timer ≢ no_timer))
  Run-Delivers samples batches sb run =
      let kept = Run-IsKept samples batches sb run in
      (kept.whole, kept.stored, start_cases sb.timer sb.due kept.started)
