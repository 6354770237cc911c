-- ===== src/Utils/Decimal.antt =====
-- What the servers use of strconv: FormatUint, FormatInt, ParseUint and ParseInt in base 10 with 64
-- bits. A text is the list of its code points.
use cogment.Prelude.{
  ℤ, pos, negsuc, inl, inr, ℕ, zero, suc, ◌+◌, ◌-◌, ◌*◌, ◌/◌, ◌%◌, ◌^◌, ◌≤◌, ◌<◌, ◌≡◌, ◌∙◌, subst,
  refl, Option, none, some, List, [], ◌∷◌, ◌==◌, ltb, leb, ◌&&◌, if◌then◌else◌, arith, Bool-cases,
}

-- The digits of `n` before `text`; each round takes one digit.
unfoldable pub format_before : ℕ → ℕ → List ℕ → List ℕ
format_before zero n text = text
format_before (suc rounds) n text =
    let rest = format_before rounds (n / 10) ((b'0' + n % 10) ∷ text) in
    if ltb n 10 then (b'0' + n) ∷ text else rest

unfoldable pub format_uint : ℕ → List ℕ
unfolding format_before
format_uint n = format_before (suc n) n []

unfoldable pub format_int : ℤ → List ℕ
unfolding format_uint
format_int (pos n) = format_uint n
format_int (negsuc n) = b'-' ∷ format_uint (suc n)

-- The number that the digits give after `n`.
unfoldable pub parse_after : ℕ → List ℕ → Option ℕ
parse_after n [] = some n
parse_after n (c ∷ text) =
    let rest = parse_after (n * 10 + (c - b'0')) text in
    if leb b'0' c && leb c b'9' then rest else none

abbrev below : ℕ → Option ℕ → Option ℕ
below bound none = none
below bound (some n) = if ltb n bound then some n else none

unfoldable pub parse_uint : List ℕ → Option ℕ
unfolding parse_after
parse_uint [] = none
parse_uint (c ∷ text) = below (2 ^ 64) (parse_after 0 (c ∷ text))

abbrev positive : Option ℕ → Option ℤ
positive none = none
positive (some n) = if ltb n (2 ^ 63) then some (pos n) else none

abbrev negative : Option ℕ → Option ℤ
negative none = none
negative (some zero) = some (pos 0)
negative (some (suc n)) = if ltb n (2 ^ 63) then some (negsuc n) else none

unfoldable pub parse_int : List ℕ → Option ℤ
unfolding parse_uint
parse_int [] = none
parse_int (c ∷ text) =
    if c == b'+'
    then positive (parse_uint text)
    else if c == b'-'
    then negative (parse_uint text)
    else positive (parse_uint (c ∷ text))

parse-format_before :
    (rounds n : ℕ) (text : List ℕ)
    → n < rounds
    → parse_after 0 (format_before rounds n text) ≡ parse_after n text
unfolding format_before parse_after
parse-format_before zero n text h = elim h [ ]
parse-format_before (suc rounds) n text h = elim (Bool-cases (ltb n 10)) [
  | inl last ↦ rw last (ground (arith, last))
  | inr more ↦ rw more (
      parse-format_before rounds (n / 10) ((b'0' + n % 10) ∷ text) (ground (arith, more))
      ∙ ground arith)
]

-- A text that is put before a digit starts with a digit.
format_before_digit :
    (rounds n d : ℕ) (text : List ℕ)
    → b'0' ≤ d
    → (c : ℕ) × (rest : List ℕ) × (format_before rounds n (d ∷ text) ≡ c ∷ rest) × (b'0' ≤ c)
unfolding format_before
format_before_digit zero n d text h = (d, text, refl, h)
format_before_digit (suc rounds) n d text h = elim (Bool-cases (ltb n 10)) [
  | inl last ↦ (b'0' + n, d ∷ text, rw last refl, omega arith)
  | inr more ↦
      let (c, rest, e, digit) =
        format_before_digit rounds (n / 10) (b'0' + n % 10) (d ∷ text) (omega arith) in
      (c, rest, rw more e, digit)
]

format_uint_digit : (n : ℕ) → (c : ℕ) × (rest : List ℕ) × (format_uint n ≡ c ∷ rest) × (b'0' ≤ c)
unfolding format_uint format_before
format_uint_digit n = elim (Bool-cases (ltb n 10)) [
  | inl last ↦ (b'0' + n, [], rw last refl, omega arith)
  | inr more ↦
      let (c, rest, e, digit) = format_before_digit n (n / 10) (b'0' + n % 10) [] (omega arith) in
      (c, rest, rw more e, digit)
]

pub parse-format_uint : (n : ℕ) → n < 2 ^ 64 → parse_uint (format_uint n) ≡ some n
unfolding parse_uint
parse-format_uint n h =
    let (c, rest, e, digit) = format_uint_digit n in
    let value : parse_after 0 (c ∷ rest) ≡ some n =
      subst (λ text. parse_after 0 text ≡ some n) e
        (unfold format_uint in
          parse-format_before (suc n) n [] (omega arith) ∙ unfold parse_after in refl) in
    rw e (rw value (ground arith))

pub parse-format_int : (n : ℕ) → n < 2 ^ 63 → parse_int (format_int (pos n)) ≡ some (pos n)
unfolding parse_int format_int
parse-format_int n h =
    let (c, rest, e, digit) = format_uint_digit n in
    let value : parse_uint (c ∷ rest) ≡ some n =
      subst (λ text. parse_uint text ≡ some n) e (parse-format_uint n (omega arith)) in
    rw e (ground (arith, value, digit))

-- A formatted number is not the empty text.
pub format_uint_cons : (n : ℕ) → (c : ℕ) × (rest : List ℕ) × (format_uint n ≡ c ∷ rest)
format_uint_cons n = let (c, rest, e, digit) = format_uint_digit n in (c, rest, e)

pub format_int_cons : (n : ℕ) → (c : ℕ) × (rest : List ℕ) × (format_int (pos n) ≡ c ∷ rest)
unfolding format_int
format_int_cons n = format_uint_cons n
