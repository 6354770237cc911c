-- ===== src/Directory/Inquire/Low.antt =====
-- What load balancing (directoryServer.go) sends, against the loads of the matches.
use cogment.Prelude.{
  ℕ, zero, suc, ◌+◌, ◌-◌, ◌≤◌, ◌<◌, ◌≡◌, refl, ap, ◌↔◌, ◌⊎◌, inl, inr, false, List, [], ◌∷◌, ltb,
  arith, In, Bool-cases, length,
}
use cogment.Directory.Db.{DbRecord}
use cogment.Directory.Health.{unserviceable_load}
use cogment.Directory.Inquire.{less_loaded, sort_by, take, cut_unserviceable, low_loads, balance}
use cogment.Directory.Inquire.Order.{In-sort_by, by_load-Sorted, In-shuffle, In-All, All-In}
use cogment.Directory.Inquire.Balance.{
  Rising, Serviceable, In-take, In-cut, In-cut_high, cut_unserviceable-cases,
}

take-Rising : (n : ℕ) (rs : List DbRecord) → Rising rs → Rising (take n rs)
take-Rising zero rs h = tt
take-Rising (suc n) [] h = tt
take-Rising (suc n) (r ∷ rs) h = (
  All-In (take n rs) (λ x i. In-All (λ s. less_loaded s r ≡ false) rs x h.0 (In-take n rs x i)),
  take-Rising n rs h.1,
)

cut-Rising : (rs : List DbRecord) (n : ℕ) → Rising rs → Rising (cut_unserviceable rs n)
cut-Rising rs n h = elim (cut_unserviceable-cases rs n) [
  | inl (k, l, s, u, c) ↦ rw c (take-Rising (suc k) rs h)
  | inr (u, c) ↦ rw c h
]

-- The load is within the acceptable range of every load of the list.
abbrev pub InRange : DbRecord → List DbRecord → Type 0
InRange x rs = (s : DbRecord) → In s rs → x.machine_load ≤ s.machine_load + 10

In-low_loads :
    (rs : List DbRecord) (x : DbRecord) → Rising rs → In x (low_loads rs) ↔ (In x rs × InRange x rs)
unfolding low_loads
In-low_loads [] x h = (λ i. absurd i, λ i. i.0)
In-low_loads (r ∷ rs) x h =
    let ih = In-cut_high (r.machine_load + 10) rs x h.1 in
    let above : (s : DbRecord) → In s rs → r.machine_load ≤ s.machine_load =
      λ s j. ground (arith, In-All (λ y. less_loaded y r ≡ false) rs s h.0 j) in
    (
      λ i. elim i [
        | inl p ↦ (inl p, λ s j. first (ap (λ y. y.machine_load) p) s j above)
        | inr k ↦ (
          inr (ih.0 k).0,
          λ s j. elim j [
            | inl p ↦ ground (arith, (ih.0 k).1, ap (λ y. y.machine_load) p)
            | inr m ↦ ground (arith, (ih.0 k).1, above s m)
          ],
        )
      ],
      λ (i, b). elim i [ inl p ↦ inl p | inr k ↦ inr (ih.1 (k, b r (inl refl))) ],
    )
  where
    first :
        r.machine_load ≡ x.machine_load
        → (s : DbRecord) → In s (r ∷ rs)
        → ((t : DbRecord) → In t rs → r.machine_load ≤ t.machine_load)
        → x.machine_load ≤ s.machine_load + 10
    first e s (inl p) a = ground (arith, ap (λ y. y.machine_load) p)
    first e s (inr m) a = ground (arith, a s m)

Serviceable-cases : (rs : List DbRecord) → Serviceable rs ⊎ ¬ Serviceable rs
Serviceable-cases [] = inr (λ (s, i, l). i)
Serviceable-cases (r ∷ rs) = elim (Bool-cases (ltb r.machine_load unserviceable_load)) [
  | inl e ↦ inl (r, inl refl, ground arith)
  | inr e ↦ elim (Serviceable-cases rs) [
    | inl (s, i, l) ↦ inl (s, inr i, l)
    | inr n ↦ inr (λ (s, i, l). elim i [
      | inl p ↦ absurd (ground (arith, ap (λ y. y.machine_load) p))
      | inr j ↦ n (s, j, l)
    ])
  ]
]

-- The range over the serviceable records, where there are some, is the range over all.
range-cut :
    (rs : List DbRecord) (x : DbRecord)
    → Rising rs
    → (Serviceable rs → x.machine_load < unserviceable_load)
    → InRange x (cut_unserviceable rs (length rs)) ↔ InRange x rs
range-cut rs x h v = (
  λ b s i. elim (Bool-cases (ltb s.machine_load unserviceable_load)) [
    | inl e ↦ b s ((In-cut rs s h).1 (i, λ w. ground arith))
    | inr e ↦ elim (Serviceable-cases rs) [
      | inl w ↦ ground (arith, v w)
      | inr n ↦ b s ((In-cut rs s h).1 (i, λ w. absurd (n w)))
    ]
  ],
  λ b s i. b s ((In-cut rs s h).0 i).0,
)

-- With load balancing, exactly those of the matches are sent whose load is at most 10 above the lowest
-- load and, if some match has a load below 255, is itself below 255; whatever is drawn.
pub balance_iff :
    (draw : ℕ → ℕ) (matches : List DbRecord) (x : DbRecord)
    → In x (balance draw matches) ↔ (
        In x matches
        × (Serviceable matches → x.machine_load < unserviceable_load)
        × InRange x matches)
unfolding balance
balance_iff draw matches x =
    let sorted = sort_by less_loaded matches in
    let rising = by_load-Sorted matches in
    let c = cut_unserviceable sorted (length sorted) in
    let low = low_loads c in
    let same : (y : DbRecord) → In y sorted ↔ In y matches =
      λ y. In-sort_by less_loaded y matches in
    let shuffled = In-shuffle draw (length low - 1) low x in
    let lowest = In-low_loads c x (cut-Rising sorted (length sorted) rising) in
    let cut = In-cut sorted x rising in
    (
      λ i.
          let (j, b) = lowest.0 (shuffled.0 i) in
          let (k, v) = cut.0 j in
          (
            (same x).0 k,
            λ (s, l, m). v (s, (same s).1 l, m),
            λ s l. (range-cut sorted x rising v).0 b s ((same s).1 l),
          ),
      λ (k, v, b).
          let v' : Serviceable sorted → x.machine_load < unserviceable_load =
            λ (s, l, m). v (s, (same s).0 l, m) in
          shuffled.1 (
            lowest.1 (
              cut.1 ((same x).1 k, v'),
              (range-cut sorted x rising v').1 (λ s l. b s ((same s).0 l)),
            )),
    )
