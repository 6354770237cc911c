-- ===== src/Directory/Inquire/Balance.antt =====
-- The load balancing of `Inquire` of directoryServer.go: which of the matches are sent.
use cogment.Prelude.{
  ℕ, zero, suc, ◌≤◌, ◌<◌, ◌≡◌, refl, ap, ◌↔◌, ◌⊎◌, inl, inr, false, some, List, [], ◌∷◌, ◌==◌, ltb,
  arith, In, Bool-cases, length, get_elem?, ==_iff,
}
use cogment.Directory.Db.{DbRecord}
use cogment.Directory.Health.{unserviceable_load}
use cogment.Directory.Inquire.{less_loaded, load_at, take, cut_unserviceable, cut_high}
use cogment.Directory.Inquire.Order.{Sorted, In-All, In-At, At-In}

abbrev pub Rising : List DbRecord → Type 0
Rising rs = Sorted less_loaded rs

pub In-take : (n : ℕ) (rs : List DbRecord) (x : DbRecord) → In x (take n rs) → In x rs
In-take zero rs x i = absurd i
In-take (suc n) [] x i = absurd i
In-take (suc n) (r ∷ rs) x (inl p) = inl p
In-take (suc n) (r ∷ rs) x (inr i) = inr (In-take n rs x i)

-- In a rising list, the elements up to an index are no more loaded than it, and the others no less.
take-below :
    (k : ℕ) (rs : List DbRecord) (x : DbRecord)
    → Rising rs
    → k < length rs
    → In x (take (suc k) rs)
    → x.machine_load ≤ load_at rs k
take-below k [] x h l i = absurd i
take-below zero (r ∷ rs) x h l (inl p) = ground (arith, ap (λ y. y.machine_load) p)
take-below zero (r ∷ rs) x h l (inr i) = absurd i
take-below (suc k) (r ∷ rs) x h l (inr i) = take-below k rs x h.1 (omega arith) i
take-below (suc k) (r ∷ []) x h l (inl p) = absurd (ground arith)
take-below (suc k) (r ∷ s ∷ rs) x h l (inl p) =
    let first : s.machine_load ≤ load_at (s ∷ rs) k =
      take-below k (s ∷ rs) s h.1 (omega arith) (inl refl) in
    ground (arith, h.0.0, ap (λ y. y.machine_load) p)

At-take :
    (k : ℕ) (rs : List DbRecord) (i : ℕ) (x : DbRecord)
    → get_elem? rs i ≡ some x
    → i < k
    → In x (take k rs)
At-take zero rs i x e l = absurd (omega arith)
At-take (suc k) [] i x e l = absurd (cc e)
At-take (suc k) (r ∷ rs) zero x e l = inl (ground arith)
At-take (suc k) (r ∷ rs) (suc i) x e l = inr (At-take k rs i x e (omega arith))

-- The loop cuts after the last serviceable index, if there is one.
pub cut_unserviceable-cases :
    (rs : List DbRecord) (n : ℕ)
    → ((k : ℕ) × (k < n)
        × (load_at rs k < unserviceable_load)
        × ((i : ℕ) → k < i → i < n → unserviceable_load ≤ load_at rs i)
        × (cut_unserviceable rs n ≡ take (suc k) rs))
      ⊎ (((i : ℕ) → i < n → unserviceable_load ≤ load_at rs i) × (cut_unserviceable rs n ≡ rs))
unfolding cut_unserviceable
cut_unserviceable-cases rs zero = inr (λ i h. absurd (omega arith), refl)
cut_unserviceable-cases rs (suc n) = elim (Bool-cases (ltb (load_at rs n) unserviceable_load)) [
  | inl e ↦ inl (n, omega arith, ground arith, λ i h k. absurd (omega arith), rw e refl)
  | inr e ↦ elim (cut_unserviceable-cases rs n) [
    | inl (k, l, s, u, c) ↦ inl (
      k,
      omega arith,
      s,
      λ i h m. elim (Bool-cases (i == n)) [
        | inl d ↦ ground (arith, ap (load_at rs) ((==_iff i n).0 d))
        | inr d ↦ u i h (ground arith)
      ],
      rw e c,
    )
    | inr (u, c) ↦ inr (
      λ i m. elim (Bool-cases (i == n)) [
        | inl d ↦ ground (arith, ap (load_at rs) ((==_iff i n).0 d))
        | inr d ↦ u i (ground arith)
      ],
      rw e c,
    )
  ]
]

index-length : (rs : List DbRecord) (i : ℕ) (x : DbRecord) → get_elem? rs i ≡ some x → i < length rs
index-length [] i x e = absurd (cc e)
index-length (r ∷ rs) zero x e = omega arith
index-length (r ∷ rs) (suc i) x e = omega (arith, index-length rs i x e)

abbrev pub Serviceable : List DbRecord → Type 0
Serviceable rs = (s : DbRecord) × In s rs × (s.machine_load < unserviceable_load)

pub In-cut :
    (rs : List DbRecord) (x : DbRecord)
    → Rising rs
    → In x (cut_unserviceable rs (length rs))
      ↔ (In x rs × (Serviceable rs → x.machine_load < unserviceable_load))
In-cut rs x h = elim (cut_unserviceable-cases rs (length rs)) [
  | inl (k, l, s, u, c) ↦ rw c (
    λ i. (In-take (suc k) rs x i, λ v. ground (arith, take-below k rs x h l i)),
    λ (i, v).
        let (n, e) = In-At x rs i in
        let (r, er) = at_length rs k l in
        let low : x.machine_load < unserviceable_load = v (r, At-In r rs k er, ground arith) in
        At-take (suc k) rs n x e (ground (arith, u n, index-length rs n x e)),
  )
  | inr (u, c) ↦ rw c (
    λ i. (
      i,
      λ (s, j, l).
          let (n, e) = In-At s rs j in absurd (ground (arith, u n (index-length rs n s e))),
    ),
    λ (i, v). i,
  )
]
  where
    at_length :
        (rs : List DbRecord) (k : ℕ) → k < length rs → (r : DbRecord) × (get_elem? rs k ≡ some r)
    at_length [] k l = absurd (omega arith)
    at_length (r ∷ rs) zero l = (r, refl)
    at_length (r ∷ rs) (suc k) l = at_length rs k (omega arith)

-- On a rising list, all the loads above the bound are cut.
pub In-cut_high :
    (m : ℕ) (rs : List DbRecord) (x : DbRecord)
    → Rising rs
    → In x (cut_high m rs) ↔ (In x rs × (x.machine_load ≤ m))
unfolding cut_high
In-cut_high m [] x h = (λ i. absurd i, λ i. i.0)
In-cut_high m (r ∷ rs) x h = elim (Bool-cases (ltb m r.machine_load)) [
  | inl e ↦ rw e (
    λ i. absurd i,
    λ (i, l). elim i [
      | inl p ↦ absurd (ground (arith, ap (λ y. y.machine_load) p))
      | inr k ↦ absurd (ground (arith, In-All (λ s. less_loaded s r ≡ false) rs x h.0 k))
    ],
  )
  | inr e ↦
      let ih = In-cut_high m rs x h.1 in
      rw e (
        λ i. elim i [
          | inl p ↦ (inl p, ground (arith, ap (λ y. y.machine_load) p))
          | inr k ↦ (inr (ih.0 k).0, (ih.0 k).1)
        ],
        λ (i, l). elim i [ inl p ↦ inl p | inr k ↦ inr (ih.1 (k, l)) ],
      )
]
