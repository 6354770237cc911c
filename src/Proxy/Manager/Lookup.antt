-- ===== src/Proxy/Manager/Lookup.antt =====
-- What `getTrial` of actor.go finds after a trial was added or removed.
use cogment.Prelude.{
  ℕ, ◌+◌, ◌≡◌, refl, sym, ap, ◌∙◌, String, Bool, true, false, none, some, List, [], ◌∷◌, ◌++◌, ◌==◌,
  arith, Bool-cases, inl, inr, Option-cases, eq_iff, str_eq, ◌&&◌,
}
use cogment.Proxy.Trial.{Payloads, ActorTrial}
use cogment.Proxy.Manager.{
  Manager, update, matches_at, get_trial, find, add_trial_if_needed, remove_trial, find_index,
  swap_remove,
}
use cogment.Proxy.Manager.Slice.{
  count, find-none-count, count-zero-find, find-passes, find-listed, find_unique, find_index-none,
}
use cogment.Proxy.Manager.Unique.{IsConsistent, removed, update_fresh}

find-append_one :
    (f : ℕ → Bool) (qs : List ℕ) (q : ℕ)
    → count f qs ≡ 0
    → f q ≡ true
    → find f (qs ++ (q ∷ [])) ≡ some q
unfolding find count
find-append_one f [] q z h = ground arith
find-append_one f (r ∷ qs) q z h = ground (arith, find-append_one f qs q)

module _ {p : Payloads} where
  -- A trial that was removed is not found any more.
  pub get-remove_self :
      (m : Manager p) (trial_id actor_name : String)
      → IsConsistent m
      → get_trial (remove_trial m trial_id actor_name) trial_id actor_name ≡ none
  unfolding remove_trial get_trial
  get-remove_self m trial_id actor_name v =
      elim (Option-cases (find_index (matches_at m.heap trial_id actor_name) m.trials)) [
        | inl g ↦
            rw (g, remove_trial)
              (find_index-none (matches_at m.heap trial_id actor_name) m.trials g)
        | inr (i, g) ↦
            let (x, passes, counts) = removed m trial_id actor_name i g in
            rw (g, remove_trial)
              (count-zero-find (matches_at m.heap trial_id actor_name) (swap_remove m.trials i) (
                ground (
                  arith,
                  counts (matches_at m.heap trial_id actor_name),
                  v.one trial_id actor_name,
                  passes,
                )))
      ]

  -- Two different names do not match one trial.
  apart :
      (heap : ℕ → ActorTrial p) (x q : ℕ) (trial_id actor_name i a : String)
      → (str_eq trial_id i && str_eq actor_name a) ≡ false
      → matches_at heap trial_id actor_name x ≡ true
      → matches_at heap i a q ≡ true
      → (x == q) ≡ false
  apart heap x q trial_id actor_name i a d f g = elim (Bool-cases (x == q)) [
    | inr e ↦ e
    | inl e ↦
        let same : x ≡ q = ground arith in
        ground (
          arith,
          ap (λ r. (heap r).trial_id) same,
          ap (λ r. (heap r).actor_name) same,
          eq_iff (heap x).trial_id trial_id,
          eq_iff (heap x).actor_name actor_name,
          eq_iff (heap q).trial_id i,
          eq_iff (heap q).actor_name a,
          eq_iff trial_id i,
          eq_iff actor_name a,
        )
  ]

  remaining :
      (m : Manager p) (trial_id actor_name i a : String) (k q : ℕ)
      → IsConsistent m
      → (str_eq trial_id i && str_eq actor_name a) ≡ false
      → find_index (matches_at m.heap trial_id actor_name) m.trials ≡ some k
      → find (matches_at m.heap i a) m.trials ≡ some q
      → find (matches_at m.heap i a) (swap_remove m.trials k) ≡ some q
  remaining m trial_id actor_name i a k q v d g e =
      let (x, passes, counts) = removed m trial_id actor_name k g in
      let found = find-passes (matches_at m.heap i a) m.trials q e in
      find_unique (matches_at m.heap i a) (swap_remove m.trials k) q
        (omega (arith, counts (matches_at m.heap i a), v.one i a)) found
        (ground (
          arith,
          counts (λ r. r == q),
          find-listed (matches_at m.heap i a) m.trials q e,
          apart m.heap x q trial_id actor_name i a d passes found,
        ))

  -- Removing a trial changes nothing for another actor or another trial: `getTrial` finds the same
  -- pointer as before, or none as before.
  get-remove_ne :
      (m : Manager p) (trial_id actor_name i a : String)
      → IsConsistent m
      → (str_eq trial_id i && str_eq actor_name a) ≡ false
      → get_trial (remove_trial m trial_id actor_name) i a ≡ get_trial m i a
  unfolding remove_trial get_trial
  get-remove_ne m trial_id actor_name i a v d =
      elim (Option-cases (find_index (matches_at m.heap trial_id actor_name) m.trials)) [
        | inl g ↦ rw (g, remove_trial) refl
        | inr (k, g) ↦ elim (Option-cases (find (matches_at m.heap i a) m.trials)) [
          | inr (q, e) ↦
              rw (g, remove_trial) (remaining m trial_id actor_name i a k q v d g e ∙ sym e)
          | inl e ↦
              let (x, passes, counts) = removed m trial_id actor_name k g in
              rw (g, remove_trial)
                (count-zero-find (matches_at m.heap i a) (swap_remove m.trials k) (
                    omega (
                      arith,
                      counts (matches_at m.heap i a),
                      find-none-count (matches_at m.heap i a) m.trials e,
                    ))
                  ∙ sym e)
        ]
      ]

  pub add-found :
      (m : Manager p) (trial_id actor_name : String) (t : ActorTrial p) (q : ℕ)
      → get_trial m trial_id actor_name ≡ some q
      → add_trial_if_needed m trial_id actor_name t ≡ (m, q, false)
  unfolding add_trial_if_needed
  add-found m trial_id actor_name t q g = rw (g, add_trial_if_needed) refl

  pub add-new :
      (m : Manager p) (trial_id actor_name : String) (t : ActorTrial p)
      → get_trial m trial_id actor_name ≡ none
      → add_trial_if_needed m trial_id actor_name t ≡ (
        record m {
          heap = update m.heap m.next t;
          next = m.next + 1;
          trials = m.trials ++ (m.next ∷ []);
          emits = m.emits + 1;
        },
        m.next,
        true,
      )
  unfolding add_trial_if_needed
  add-new m trial_id actor_name t g = rw (g, add_trial_if_needed) refl

  added_found :
      (m : Manager p) (trial_id actor_name : String) (t : ActorTrial p)
      → IsConsistent m
      → t.trial_id ≡ trial_id
      → t.actor_name ≡ actor_name
      → get_trial m trial_id actor_name ≡ none
      → find (matches_at (update m.heap m.next t) trial_id actor_name) (m.trials ++ (m.next ∷ []))
        ≡ some m.next
  unfolding get_trial
  added_found m trial_id actor_name t v e f g =
      find-append_one (matches_at (update m.heap m.next t) trial_id actor_name) m.trials m.next
        (update_fresh m.heap m.next t trial_id actor_name m.trials
            (v.allocated m.next (omega arith))
          ∙ find-none-count (matches_at m.heap trial_id actor_name) m.trials g)
        (ground (arith, eq_iff t.trial_id trial_id, eq_iff t.actor_name actor_name))

  get-add_self :
      (m : Manager p) (trial_id actor_name : String) (t : ActorTrial p)
      → IsConsistent m
      → t.trial_id ≡ trial_id
      → t.actor_name ≡ actor_name
      → get_trial (add_trial_if_needed m trial_id actor_name t).0 trial_id actor_name
        ≡ some (add_trial_if_needed m trial_id actor_name t).1
  get-add_self m trial_id actor_name t v e f =
      elim (Option-cases (get_trial m trial_id actor_name)) [
        | inl g ↦
            rw (add-new m trial_id actor_name t g)
              (unfold get_trial in added_found m trial_id actor_name t v e f g)
        | inr (q, g) ↦ rw (add-found m trial_id actor_name t q g) g
      ]

  -- The pointer that `addTrialIfNeeded` returns is the one that `getTrial` finds afterwards, and a
  -- second call finds it too and adds nothing.
  pub get-add :
      (m : Manager p) (trial_id actor_name : String) (t t' : ActorTrial p)
      → IsConsistent m
      → t.trial_id ≡ trial_id
      → t.actor_name ≡ actor_name
      → let (m', q, added) = add_trial_if_needed m trial_id actor_name t in
        (get_trial m' trial_id actor_name ≡ some q)
        × (add_trial_if_needed m' trial_id actor_name t' ≡ (m', q, false))
  get-add m trial_id actor_name t t' v e f =
      let found = get-add_self m trial_id actor_name t v e f in
      (
        found,
        add-found (add_trial_if_needed m trial_id actor_name t).0 trial_id actor_name t'
            (add_trial_if_needed m trial_id actor_name t).1 found,
      )
