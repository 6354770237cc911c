-- ===== src/Datastore/Memory/Steps/Reached.antt =====
-- What holds of the memory backend (memory.go) whatever was called.
use mathlib.Core.Path.{subst}
use cogment.Prelude.{
  ℕ, ◌≡◌, refl, ap, ◌∙◌, inl, inr, String, Option, none, some, List, [], ◌∷◌, arith, string_key,
  Option-cases, eq_iff,
}
use cogment.Prelude.Dict.{lookup, lookup-insert}
use cogment.Datastore.Memory.{
  StoredTrialSample, TrialData, MemoryBackend, BackendError, Outcome, gives, panics, touch,
  create_memory_backend, retrieve_trial_datas, delete_trial, deleted_data, added, add_to,
  add_sample, add_each, add_samples, trials_of, evict_lru_trials,
}
use cogment.Datastore.Memory.Sizes.{total}
use cogment.Datastore.Memory.Accounting.{
  IsCounted, Counted, Leaves, Outcome-cases, retrieve-Counted, add_each-Counted, evict_each-Counted,
  create_each-Counted, delete_each-Counted,
}
use cogment.Datastore.Memory.Eviction.{Listed, MayEvict, Settled, evict_each_lem}
use cogment.Datastore.Memory.Listing.{
  retrieve-Listed, create_each-Listed, delete_each-Listed, add_each-Listed,
}
use cogment.Datastore.Memory.Steps.{
  Step, creates, retrieves, deletes, adds, evicts, Reach, starts, steps,
}

abbrev Good : MemoryBackend → Type 0
Good b = Counted b × Listed b

-- What is left when samples were added, or refused.
abbrev Added : Outcome (MemoryBackend × Option BackendError) → Type 0
Added (gives (b, e)) = Good b
Added panics = Unit

added-Good :
    (samples : List StoredTrialSample) (x : MemoryBackend × Option BackendError)
    → Good x.0
    → Added (added samples x)
added-Good samples (b, some e) g = g
added-Good samples (b, none) g =
    let c = add_each-Counted b samples g.0 in
    let v = add_each-Listed b samples g.1 in
    elim (Outcome-cases (add_each b samples)) [
      | inl e ↦ rw (e, added) tt
      | inr (b', e) ↦ rw (e, added) (rw e at c, rw e at v)
    ]

add_samples-Good :
    (b : MemoryBackend) (samples : List StoredTrialSample) → Good b → Added (add_samples b samples)
unfolding add_samples
add_samples-Good b samples (c, v) =
    added-Good samples (retrieve_trial_datas b (trials_of samples))
      (retrieve-Counted b (trials_of samples) c, retrieve-Listed b (trials_of samples) v)

evict-Listed : (b b' : MemoryBackend) → Listed b → evict_lru_trials b ≡ gives b' → Listed b'
unfolding evict_lru_trials
evict-Listed b b' v e =
    let (b1, r, s, w, m) = evict_each_lem b b.trials_ev_list refl v in
    let p : b1 ≡ b' = ground arith in subst Listed p w

evict-Counted : (b : MemoryBackend) → Counted b → Leaves Counted (evict_lru_trials b)
unfolding evict_lru_trials
evict-Counted b c = evict_each-Counted b b.trials_ev_list c

step-Good : (b b' : MemoryBackend) → Step b b' → Good b → Good b'
step-Good b b' (creates _ params) (c, v) =
    (create_each-Counted b params c, create_each-Listed b params v)
step-Good b b' (retrieves _ ids) (c, v) = (retrieve-Counted b ids c, retrieve-Listed b ids v)
step-Good b b' (deletes _ ids) (c, v) = (delete_each-Counted b ids c, delete_each-Listed b ids v)
step-Good b b' (adds _ _ samples x e) g = subst Added e (add_samples-Good b samples g)
step-Good b b' (evicts _ _ e) (c, v) =
    (subst (Leaves Counted) e (evict-Counted b c), evict-Listed b b' v e)

create-Good : (n : ℕ) → Good (create_memory_backend n)
unfolding create_memory_backend lookup total
create-Good n = (
  record { once = tt; each = λ id t e. absurd (cc e); whole = refl },
  record { once = tt; listed = λ id i. absurd i; backed = λ id t e. absurd (cc e) },
)

Reach-Good : (n : ℕ) (b : MemoryBackend) → Reach (create_memory_backend n) b → Good b
Reach-Good n b starts = create-Good n
Reach-Good n b (steps b1 _ r s) = step-Good b1 b s (Reach-Good n b1 r)

-- Whatever is created, retrieved, added, deleted and evicted, in any order, `samplesSize` is, modulo
-- 2^32, the sum of the sizes of the trials, each of which is that of its stored samples.
pub Reach-IsCounted :
    (n : ℕ) (b : MemoryBackend)
    → Reach (create_memory_backend n) b
    → IsCounted b.trials b.samples_size
Reach-IsCounted n b r = (Reach-Good n b r).0

-- In every state that is reached, the eviction returns, and stops only when the samples fit, when no
-- trial is left to evict, or at a trial that has not ended; it drops the samples of trials that have
-- ended and changes nothing else of any trial.
pub Reach-Settled :
    (n : ℕ) (b : MemoryBackend)
    → Reach (create_memory_backend n) b
    → (b' : MemoryBackend) × (evict_lru_trials b ≡ gives b')
      × Settled b'
      × ((id : String) → MayEvict (lookup id b.trials) (lookup id b'.trials))
unfolding evict_lru_trials
Reach-Settled n b r =
    let (b', e, s, v, m) = evict_each_lem b b.trials_ev_list refl (Reach-Good n b r).1 in
    (b', e, s, m)

retrieve-trials :
    (b : MemoryBackend) (ids : List String)
    → let (b', e) = retrieve_trial_datas b ids in
      (b'.trials ≡ b.trials) × (b'.samples_size ≡ b.samples_size)
unfolding retrieve_trial_datas
retrieve-trials b [] = (refl, refl)
retrieve-trials b (id ∷ ids) = elim (Option-cases (lookup id b.trials)) [
  | inl e ↦ rw (e, retrieve_trial_datas) (refl, refl)
  | inr (trial, e) ↦ rw (e, retrieve_trial_datas) (retrieve-trials (touch b id trial) ids)
]

refused :
    (samples : List StoredTrialSample) (x : MemoryBackend × Option BackendError)
    (b' : MemoryBackend) (e : BackendError)
    → added samples x ≡ gives (b', some e)
    → x.0 ≡ b'
refused samples (b, some x) b' e h = ground arith
refused samples (b, none) b' e h = elim (Outcome-cases (add_each b samples)) [
  | inl k ↦ let h' = rw (k, added) at h in absurd (cc h')
  | inr (b1, k) ↦ let h' = rw (k, added) at h in absurd (ground (arith, h'))
]

-- A batch of samples that is refused, since one of its trials is unknown, stores nothing.
add_samples-refused :
    (b b' : MemoryBackend) (samples : List StoredTrialSample) (e : BackendError)
    → add_samples b samples ≡ gives (b', some e)
    → (b'.trials ≡ b.trials) × (b'.samples_size ≡ b.samples_size)
unfolding add_samples
add_samples-refused b b' samples e h =
    let p = refused samples (retrieve_trial_datas b (trials_of samples)) b' e h in
    subst (λ x. (x.trials ≡ b.trials) × (x.samples_size ≡ b.samples_size)) p
      (retrieve-trials b (trials_of samples))

lookup-delete_trial :
    (b : MemoryBackend) (id : String) (trial : TrialData)
    → lookup id b.trials ≡ some trial
    → lookup id (delete_trial b id).trials ≡ some deleted_data
unfolding delete_trial
lookup-delete_trial b id trial e =
    rw (e, delete_trial) (lookup-insert id id deleted_data b.trials ∙ ground (arith, eq_iff id id))

retrieve_one :
    (b : MemoryBackend) (id : String) (trial : TrialData)
    → lookup id b.trials ≡ some trial
    → retrieve_trial_datas b (id ∷ []) ≡ (touch b id trial, none)
unfolding retrieve_trial_datas
retrieve_one b id trial e = rw (e, retrieve_trial_datas) refl

add-to_deleted :
    (b : MemoryBackend) (s : StoredTrialSample)
    → lookup s.trial_id b.trials ≡ some deleted_data
    → add_each b (s ∷ []) ≡ panics
unfolding add_each add_sample add_to
add-to_deleted b s e = rw (e, add_each, add_sample, add_to) refl

-- A sample for a trial that was deleted stops the process: the trial is still known, and has no list.
pub delete-add_samples :
    (b : MemoryBackend) (s : StoredTrialSample) (trial : TrialData)
    → lookup s.trial_id b.trials ≡ some trial
    → add_samples (delete_trial b s.trial_id) (s ∷ []) ≡ panics
unfolding add_samples
delete-add_samples b s trial e =
    let b' = delete_trial b s.trial_id in
    let l : lookup s.trial_id b'.trials ≡ some deleted_data =
      lookup-delete_trial b s.trial_id trial e in
    let a = add-to_deleted (touch b' s.trial_id deleted_data) s l in
    let found = retrieve_one b' s.trial_id deleted_data l in
    ap (added (s ∷ [])) found ∙ rw (a, added) refl
