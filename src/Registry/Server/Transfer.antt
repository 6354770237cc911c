-- ===== src/Registry/Server/Transfer.antt =====
-- What is uploaded in chunks is what is downloaded in chunks.
use mathlib.Core.List.{append-nil}
use cogment.Prelude.{
  ℕ, zero, suc, ◌+◌, ◌-◌, ◌≤◌, ◌<◌, ◌≡◌, ◌∙◌, inl, inr, refl, sym, ap, List, [], ◌∷◌, ◌++◌, ltb,
  leb, length, take, drop, All, arith, Bool-cases, take-drop, length-take-le, length-drop,
  drop-drop, drop_of_length-le, take_of_length-le, flatten,
}
use cogment.Registry.Server.{Outcome, answers}
use cogment.Registry.Server.Stream.{send_from, send_data}

abbrev pub IsAtMost : ℕ → List ℕ → Type 0
IsAtMost size chunk = length chunk ≤ size

sends_nothing :
    (rounds size : ℕ) (bytes : List ℕ) (accepted i : ℕ)
    → length bytes ≤ i
    → send_from rounds size bytes accepted i ≡ ([], answers tt)
unfolding send_from
sends_nothing zero size bytes accepted i h = refl
sends_nothing (suc rounds) size bytes zero i h = ground arith
sends_nothing (suc rounds) size bytes (suc accepted) i h = ground arith

last_chunk :
    (size : ℕ) (bytes : List ℕ) (i : ℕ)
    → length bytes ≤ i + size
    → (take (length bytes - i) (drop i bytes) ++ [] ≡ drop i bytes)
      × (IsAtMost size (take (length bytes - i) (drop i bytes)) × Unit {0})
      × (◌≡◌ {A = Outcome (Unit {0})} (answers tt) (answers tt))
last_chunk size bytes i h =
    let all =
      take_of_length-le (length bytes - i) (drop i bytes) (omega (arith, length-drop i bytes)) in
    rw all (append-nil (drop i bytes), (omega (arith, length-drop i bytes), tt), refl)

whole :
    (size i : ℕ) (bytes : List ℕ)
    → take (i + size - i) (drop i bytes) ++ drop size (drop i bytes) ≡ drop i bytes
whole size i bytes =
    let e : i + size - i ≡ size = omega arith in rw e (take-drop size (drop i bytes))

send_from_lem :
    (rounds size : ℕ) (bytes : List ℕ) (accepted i : ℕ)
    → 0 < size
    → length bytes ≤ i + rounds
    → length bytes ≤ i + accepted
    → (flatten (send_from rounds size bytes accepted i).0 ≡ drop i bytes)
      × All (IsAtMost size) (send_from rounds size bytes accepted i).0
      × ((send_from rounds size bytes accepted i).1 ≡ answers tt)
unfolding send_from
send_from_lem zero size bytes accepted i positive h k =
    (rw (drop_of_length-le i bytes (omega arith)) refl, tt, refl)
send_from_lem (suc rounds) size bytes zero i positive h k =
    rw (drop_of_length-le i bytes (omega arith)) (refl, tt, ground arith)
send_from_lem (suc rounds) size bytes (suc accepted) i positive h k =
    elim (Bool-cases (ltb i (length bytes))) [
      | inr done ↦ rw (done, drop_of_length-le i bytes (ground (arith, done))) (refl, tt, refl)
      | inl more ↦ elim (Bool-cases (leb (length bytes) (i + size))) [
        | inl last ↦
            rw
              (
                more,
                last,
                sends_nothing rounds size bytes accepted (i + size) (ground (arith, last)),
              )
              (last_chunk size bytes i (ground (arith, last)))
        | inr inside ↦
            let later =
              send_from_lem rounds size bytes accepted (i + size) positive (omega arith)
                (omega arith) in
            rw (more, inside)
              (
                ap (◌++◌ (take (i + size - i) (drop i bytes)))
                      (later.0 ∙ sym (drop-drop size i bytes))
                    ∙ whole size i bytes,
                (omega (arith, length-take-le (i + size - i) (drop i bytes)), later.1),
                later.2,
              )
      ]
    ]

-- Over a stream that takes as many messages as there are bytes, and at least one, the chunks that are
-- sent put together are the data; none is longer than the positive size of the chunks, and the call
-- ends without an error.
pub send_data_lem :
    (size : ℕ) (bytes : List ℕ) (accepted : ℕ)
    → 0 < size
    → length bytes ≤ accepted
    → 0 < accepted
    → (flatten (send_data size bytes accepted).0 ≡ bytes)
      × All (IsAtMost size) (send_data size bytes accepted).0
      × ((send_data size bytes accepted).1 ≡ answers tt)
unfolding send_data
send_data_lem size [] zero positive h k = elim k [ ]
send_data_lem size [] (suc accepted) positive h k = (refl, (omega arith, tt), refl)
send_data_lem size (x ∷ xs) accepted positive h k =
    send_from_lem (length (x ∷ xs)) size (x ∷ xs) accepted 0 positive (omega arith) (omega arith)
