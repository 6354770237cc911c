-- ===== src/Datastore/Batcher/Ended.antt =====
-- sampleBatcher.go: with a backend that does not fail, every sample that is added is given to it in the
-- end.
use mathlib.Core.List.{append-nil}
use cogment.Prelude.{
  ℕ, zero, suc, ◌≡◌, ◌∙◌, ◌⊎◌, refl, sym, subst, inl, inr, Option, none, some, List, [], ◌∷◌, ◌++◌,
  ◌==◌, arith, length, flatten, Bool-cases,
}
use cogment.Datastore.Batcher.{
  Timer, no_timer, running, stopped, Adds, SampleBatcher, new_sample_batcher, handed, flush_batch,
  add_sample, given, Step, Run, runs, begun, put, fire, flushed, received, closes,
}
use cogment.Datastore.Batcher.Delivered.{
  deliver, IsAwaited, IsKept, some_inj, due_flush, fire-IsKept, flushed-IsKept, Run-IsKept,
  idle_unsent,
}

wait_cases :
    {A : Type 0} (batch : List A) (timer : Timer) (due : ℕ)
    → IsAwaited batch timer due
    → (batch ≡ []) ⊎ ((timer ≡ running) ⊎ ((d : ℕ) × (due ≡ suc d)))
wait_cases [] timer due h = inl refl
wait_cases (s ∷ batch) running due h = inr (inl refl)
wait_cases (s ∷ batch) no_timer (suc d) h = inr (inr (d, refl))
wait_cases (s ∷ batch) stopped (suc d) h = inr (inr (d, refl))
wait_cases (s ∷ batch) no_timer zero h = absurd (omega (arith, h))
wait_cases (s ∷ batch) stopped zero h = absurd (omega (arith, h))

module _ {A E S : Type 0} (add_samples : Adds A E S) (start : S)
    (never_fails : (samples : List A) (s : S) → (add_samples samples s).0 ≡ none) where
  -- A batch that is given is emptied.
  handed_lem :
      (sb : SampleBatcher A E S) (answer : Option E × S)
      → answer.0 ≡ none
      → handed sb answer ≡ some (record sb { batch = []; backend = answer.1 })
  handed_lem sb (none, backend) h = refl
  handed_lem sb (some e, backend) h = absurd (ground (arith, h))

  flush_batch_lem :
      (batch : List A) (sb : SampleBatcher A E S)
      → sb.batch ≡ batch
      → (sb' : SampleBatcher A E S) × (flush_batch add_samples batch sb ≡ some sb')
        × (sb'.batch ≡ [])
        × (sb'.sending ≡ sb.sending)
  flush_batch_lem [] sb e = (sb, refl, e, refl)
  flush_batch_lem (s ∷ batch) sb e =
      let answer = add_samples (s ∷ batch) sb.backend in
      (
        record sb { batch = []; backend = answer.1 },
        handed_lem sb answer (never_fails (s ∷ batch) sb.backend),
        refl,
        refl,
      )

  Step-idle :
      (more : List A) (next : List (List A)) (sb sb' : SampleBatcher A E S)
      → Step add_samples sb more next sb'
      → (batches : List (List A)) (samples : List A) → IsKept add_samples start samples batches sb
      → sb.sending ≡ none
      → sb'.sending ≡ none
  Step-idle _ _ _ _ (put sample sb h) batches samples kept idle =
      unfold add_sample in
      (elim (Bool-cases (length sb.batch == 0)) [ inl e ↦ rw e idle | inr e ↦ rw e idle ])
  Step-idle _ _ _ _ (fire sb on) batches samples kept idle = idle
  Step-idle _ _ _ _ (flushed sb sb' due h e f) batches samples kept idle =
      let ready : SampleBatcher A E S = record sb { timer = stopped; due = due } in
      let (sb'', g, _, still) = flush_batch_lem sb.batch ready refl in
      subst (λ (b : SampleBatcher A E S). b.sending ≡ none)
        (some_inj add_samples start sb'' sb'
          (sym g ∙ sym (due_flush add_samples start sb due e kept.started) ∙ f))
        (still ∙ idle)
  Step-idle _ _ _ _ (received sb e h) batches samples kept idle = refl
  Step-idle _ _ _ _ (closes sb h) batches samples kept idle = idle

  Run-idle :
      (samples : List A) (batches : List (List A)) (sb : SampleBatcher A E S)
      → Run add_samples (new_sample_batcher start) samples batches sb
      → sb.sending ≡ none
  Run-idle _ _ _ begun = refl
  Run-idle _ _ _ (runs samples more batches next sb sb' run step) =
      Step-idle more next sb sb' step batches samples
        (Run-IsKept add_samples start samples batches sb run) (Run-idle samples batches sb run)

  -- The run goes on without a sample until the backend has all of them.
  abbrev Ends : List A → List (List A) → SampleBatcher A E S → Type 0
  Ends samples batches sb =
      (next : List (List A)) × (sb' : SampleBatcher A E S) × Run add_samples sb [] next sb'
      × (sb'.batch ≡ [])
      × (flatten (batches ++ next) ≡ samples)
      × (sb'.backend ≡ deliver add_samples (batches ++ next) start)

  empty-flatten :
      (samples : List A) (batches : List (List A)) (sb : SampleBatcher A E S)
      → sb.batch ≡ []
      → sb.sending ≡ none
      → IsKept add_samples start samples batches sb
      → flatten batches ≡ samples
  empty-flatten samples batches sb empty idle kept =
      sym (append-nil (flatten batches))
      ∙ subst (λ b. flatten batches ++ b ≡ samples) (idle_unsent add_samples start sb idle ∙ empty)
          kept.whole

  end_flushed :
      (samples : List A) (batches : List (List A)) (sb0 sb : SampleBatcher A E S) (due : ℕ)
      → sb.sending ≡ none
      → sb.due ≡ suc due
      → IsKept add_samples start samples batches sb
      → Run add_samples sb0 [] [] sb
      → Ends samples batches sb0
  end_flushed samples batches sb0 sb due idle e kept run =
      let ready : SampleBatcher A E S = record sb { timer = stopped; due = due } in
      let (sb', g, empty, still) = flush_batch_lem sb.batch ready refl in
      let f = due_flush add_samples start sb due e kept.started ∙ g in
      let kept' = flushed-IsKept add_samples start samples batches sb sb' due idle e f kept in
      (
        given sb.batch,
        sb',
        runs [] [] [] (given sb.batch) sb sb' run (flushed sb sb' due idle e f),
        empty,
        empty-flatten samples (batches ++ given sb.batch) sb' empty (still ∙ idle) kept',
        kept'.stored,
      )

  -- If AddSamples of the backend never answers an error: from every state that the steps reach, steps
  -- that put no sample lead to a state with an empty batch in which the backend was given all the samples
  -- that were put, in order.
  pub Run-Ends :
      (samples : List A) (batches : List (List A)) (sb : SampleBatcher A E S)
      → Run add_samples (new_sample_batcher start) samples batches sb
      → (next : List (List A)) × (sb' : SampleBatcher A E S) × Run add_samples sb [] next sb'
        × (sb'.batch ≡ [])
        × (flatten (batches ++ next) ≡ samples)
        × (sb'.backend ≡ deliver add_samples (batches ++ next) start)
  Run-Ends samples batches sb run =
      let kept = Run-IsKept add_samples start samples batches sb run in
      let idle = Run-idle samples batches sb run in
      let waiting =
        subst (λ b. IsAwaited b sb.timer sb.due) (idle_unsent add_samples start sb idle)
          kept.awaited in
      elim (wait_cases sb.batch sb.timer sb.due waiting) [
        | inl empty ↦ (
          [],
          sb,
          begun,
          empty,
          rw (append-nil batches) (empty-flatten samples batches sb empty idle kept),
          rw (append-nil batches) kept.stored,
        )
        | inr (inl on) ↦
            let fired : SampleBatcher A E S = record sb { timer = stopped; due = suc sb.due } in
            end_flushed samples batches sb fired sb.due idle refl
              (fire-IsKept add_samples start samples batches sb kept)
              (runs [] [] [] [] sb fired begun (fire sb on))
        | inr (inr (due, e)) ↦ end_flushed samples batches sb sb due idle e kept begun
      ]
