-- ===== src/Proxy/Manager/Unique.antt =====
-- actor.go: the manager lists at most one trial for an actor in a trial, and each of its
-- methods keeps that so.
use mathlib.Core.Path.{fun_ext}
use cogment.Prelude.{
  ℕ, ◌+◌, ◌≤◌, ◌≡◌, refl, sym, ◌∙◌, String, Bool, true, false, Option, none, some, List, [], ◌∷◌,
  ◌++◌, ◌==◌, arith, inl, inr, Option-cases, eq_iff, get_elem?,
}
use cogment.Proxy.Trial.{Payloads, ActorTrial, Call, leave_call, call}
use cogment.Proxy.Trial.Graph.{call-names}
use cogment.Proxy.Manager.{
  Manager, new_manager, update, matches_at, get_trial, add_trial_if_needed, remove_trial,
  find_index, swap_remove, call_at, leave_all_trials, leave_each,
}
use cogment.Proxy.Manager.Slice.{
  count, one_if, count-append_one, find-none-count, find-passes, get_elem?-find_index,
  count-swap_remove, index_misses,
}

pub record IsConsistent {p : Payloads} (m : Manager p) : Type 0 where
  pub one :
      (trial_id actor_name : String) → count (matches_at m.heap trial_id actor_name) m.trials ≤ 1
  pub allocated : (q : ℕ) → m.next ≤ q → count (λ r. r == q) m.trials ≡ 0

count_congr :
    (f g : ℕ → Bool) (q : ℕ) (qs : List ℕ)
    → ((r : ℕ) → (r == q) ≡ false → f r ≡ g r)
    → count (λ r. r == q) qs ≡ 0
    → count f qs ≡ count g qs
unfolding count
count_congr f g q [] h z = refl
count_congr f g q (r ∷ qs) h z = ground (arith, h r, count_congr f g q qs h)

module _ {p : Payloads} where
  -- A trial that keeps its names matches as it did.
  pub matches_at-update :
      (heap : ℕ → ActorTrial p) (q : ℕ) (t : ActorTrial p) (trial_id actor_name : String)
      → t.trial_id ≡ (heap q).trial_id
      → t.actor_name ≡ (heap q).actor_name
      → matches_at (update heap q t) trial_id actor_name ≡ matches_at heap trial_id actor_name
  matches_at-update heap q t trial_id actor_name e f = fun_ext (λ r. at r)
    where
      at :
          (r : ℕ)
          → matches_at (update heap q t) trial_id actor_name r
            ≡ matches_at heap trial_id actor_name r
      at r = ground arith

  pub update_fresh :
      (heap : ℕ → ActorTrial p) (q : ℕ) (t : ActorTrial p) (trial_id actor_name : String)
      (qs : List ℕ)
      → count (λ r. r == q) qs ≡ 0
      → count (matches_at (update heap q t) trial_id actor_name) qs
        ≡ count (matches_at heap trial_id actor_name) qs
  update_fresh heap q t trial_id actor_name qs z =
      count_congr (matches_at (update heap q t) trial_id actor_name)
        (matches_at heap trial_id actor_name) q qs (λ r e. rw e) z

  pub new_manager-IsConsistent : IsConsistent (new_manager {p = p})
  unfolding new_manager count
  new_manager-IsConsistent = record { one = λ i a. omega arith; allocated = λ q h. refl }

  pub call_at-IsConsistent :
      {m : Manager p} (q : ℕ) (c : Call p) → IsConsistent m → IsConsistent (call_at m q c).0
  unfolding call_at
  call_at-IsConsistent {m} q c v = record {
    one = λ i a.
        rw
          (matches_at-update m.heap q (call (m.heap q) c).0 i a (call-names (m.heap q) c).0
            (call-names (m.heap q) c).1)
          (v.one i a);
    allocated = v.allocated;
  }

  leave_each_names :
      (heap : ℕ → ActorTrial p) (qs : List ℕ) (i a : String)
      → matches_at (leave_each heap qs) i a ≡ matches_at heap i a
  unfolding leave_each
  leave_each_names heap [] i a = refl
  leave_each_names heap (q ∷ qs) i a =
      let t = (call (heap q) leave_call).0 in
      leave_each_names (update heap q t) qs i a
      ∙ matches_at-update heap q t i a (call-names (heap q) leave_call).0
          (call-names (heap q) leave_call).1

  pub leave_all_trials-IsConsistent :
      {m : Manager p} → IsConsistent m → IsConsistent (leave_all_trials m)
  unfolding leave_all_trials
  leave_all_trials-IsConsistent {m} v = record {
    one = λ i a. rw (leave_each_names m.heap m.trials i a) (v.one i a);
    allocated = v.allocated;
  }

  -- Adding finds or creates the one trial with these names.
  added_one :
      (m : Manager p) (trial_id actor_name : String) (t : ActorTrial p)
      → IsConsistent m
      → t.trial_id ≡ trial_id
      → t.actor_name ≡ actor_name
      → get_trial m trial_id actor_name ≡ none
      → (i a : String)
      → count (matches_at (update m.heap m.next t) i a) (m.trials ++ (m.next ∷ [])) ≤ 1
  unfolding get_trial
  added_one m trial_id actor_name t v e f g i a = ground (
    arith,
    count-append_one (matches_at (update m.heap m.next t) i a) m.trials m.next,
    update_fresh m.heap m.next t i a m.trials (v.allocated m.next (omega arith)),
    find-none-count (matches_at m.heap trial_id actor_name) m.trials g,
    v.one i a,
    eq_iff trial_id i,
    eq_iff actor_name a,
  )

  added_allocated :
      (m : Manager p)
      → IsConsistent m
      → (q : ℕ) → m.next + 1 ≤ q
      → count (λ r. r == q) (m.trials ++ (m.next ∷ [])) ≡ 0
  added_allocated m v q h =
      ground (arith, count-append_one (λ r. r == q) m.trials m.next, v.allocated q (omega arith))

  pub add_trial_if_needed-IsConsistent :
      (m : Manager p) (trial_id actor_name : String) (t : ActorTrial p)
      → IsConsistent m
      → t.trial_id ≡ trial_id
      → t.actor_name ≡ actor_name
      → IsConsistent (add_trial_if_needed m trial_id actor_name t).0
  unfolding add_trial_if_needed
  add_trial_if_needed-IsConsistent m trial_id actor_name t v e f =
      elim (Option-cases (get_trial m trial_id actor_name)) [
        | inl g ↦
            rw (g, add_trial_if_needed)
              (record {
                one = added_one m trial_id actor_name t v e f g;
                allocated = added_allocated m v;
              })
        | inr (q, g) ↦ rw (g, add_trial_if_needed) v
      ]

  -- What the search for the removed trial's index and the search for the trial have in common.
  pub removed :
      (m : Manager p) (trial_id actor_name : String) (i : ℕ)
      → find_index (matches_at m.heap trial_id actor_name) m.trials ≡ some i
      → (x : ℕ) × (matches_at m.heap trial_id actor_name x ≡ true)
        × ((f : ℕ → Bool) → count f (swap_remove m.trials i) + one_if (f x) ≡ count f m.trials)
  removed m trial_id actor_name i h = go (get_elem? m.trials i) refl
    where
      f : ℕ → Bool
      f = matches_at m.heap trial_id actor_name

      go :
          (o : Option ℕ)
          → get_elem? m.trials i ≡ o
          → (x : ℕ) × (matches_at m.heap trial_id actor_name x ≡ true)
            × ((g : ℕ → Bool) → count g (swap_remove m.trials i) + one_if (g x) ≡ count g m.trials)
      go none e = absurd (index_misses f m.trials i h e)
      go (some x) e = (
        x,
        find-passes f m.trials x (sym (get_elem?-find_index f m.trials i h) ∙ e),
        λ g. count-swap_remove g m.trials i x e,
      )

  pub remove_trial-IsConsistent :
      (m : Manager p) (trial_id actor_name : String)
      → IsConsistent m
      → IsConsistent (remove_trial m trial_id actor_name)
  unfolding remove_trial
  remove_trial-IsConsistent m trial_id actor_name v =
      elim (Option-cases (find_index (matches_at m.heap trial_id actor_name) m.trials)) [
        | inl g ↦ rw (g, remove_trial) v
        | inr (i, g) ↦
            let (x, passes, counts) = removed m trial_id actor_name i g in
            rw (g, remove_trial)
              (record {
                one = λ i' a. omega (arith, counts (matches_at m.heap i' a), v.one i' a);
                allocated = λ q h. omega (arith, counts (λ r. r == q), v.allocated q h);
              })
      ]
