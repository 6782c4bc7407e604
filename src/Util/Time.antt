-- ===== src/Util/Time.antt =====
-- util/time.go: durations with days and weeks. Parsing what is left, which is Go's own parser, is the
-- argument `parse`; an int has 64 bits.
pub mod Units
use gudgeon.Prelude.{
  ℕ, zero, suc, ◌+◌, ◌-◌, ◌*◌, ◌/◌, ◌%◌, ◌^◌, List, [], ◌∷◌, ◌++◌, Bool, true, false, ◌&&◌, Option,
  none, some, ltb, leb, ◌==◌, if◌then◌else◌,
}
use gudgeon.Prelude.Text.{Text}

-- time.Duration, in nanoseconds
pub data ℤ : Type 0 where
  pos negsuc : ℕ → ℤ

-- What Go's parser gives: a duration, or an error.
pub data Parsed : Type 0 where
  duration : ℤ → Parsed
  error : Text → Parsed

unfoldable pub is_digit : ℕ → Bool
is_digit c = leb b'0' c && leb c b'9'

-- Digits and the unit, at the start of a text; with what comes after the unit.
unfoldable pub digits_then : ℕ → Text → Option (Text × Text)
unfolding is_digit
digits_then unit [] = none
digits_then unit (c ∷ s) =
    let rest = digits_then unit s in
    if c == unit
    then some ([], s)
    else if is_digit c
    then elim rest [ none ↦ none | some r ↦ some (c ∷ r.0, r.1) ]
    else none

-- The first match of `([0-9]+?)` and the unit: what is before it, its digits and what is after it.
-- The first place where the text of the match stands is where it matched.
unfoldable pub find_token : ℕ → Text → Option (Text × Text × Text)
unfolding is_digit
find_token unit [] = none
find_token unit (c ∷ s) =
    let here = digits_then unit s in
    let later : Option (Text × Text × Text) = elim (find_token unit s) [
      | none ↦ none
      | some r ↦ some (c ∷ r.0, r.1, r.2)
    ] in
    if is_digit c then elim here [ none ↦ later | some r ↦ some ([], c ∷ r.0, r.1) ] else later

-- The number that digits are read as after the number `n`.
unfoldable pub scan : ℕ → Text → ℕ
scan n [] = n
scan n (c ∷ s) = scan (n * 10 + (c - b'0')) s

-- strconv.Atoi of digits, which fails beyond the range of an int.
unfoldable pub atoi : Text → Option ℕ
unfolding scan
atoi digits = if ltb (scan 0 digits) (2 ^ 63) then some (scan 0 digits) else none

-- The digits of a number before those of `out`, with as much fuel as there may be digits.
unfoldable pub emit : ℕ → ℕ → Text → Text
emit zero n out = out
emit (suc fuel) n out =
    let rest = emit fuel (n / 10) ((b'0' + n % 10) ∷ out) in
    if ltb n 10 then (b'0' + n % 10) ∷ out else rest

-- `%d` of a number that is not negative
unfoldable pub decimal : ℕ → Text
decimal n = emit (suc n) n []

-- One round of the loop: the hours of a unit are counted, and its text is taken out.
unfoldable pub take_unit : ℕ → ℕ → ℕ × Text → ℕ × Text
take_unit unit hours (count, input) = elim (find_token unit input) [
  | none ↦ (count, input)
  | some r ↦ elim (atoi r.1) [
    | none ↦ (count, input)
    | some value ↦ ((count + value * hours) % 2 ^ 64, r.0 ++ r.2)
  ]
]

-- ParseDuration; hours that wrapped around to a negative number are not positive.
unfoldable pub parse_duration : (Text → Parsed) → Text → Parsed
parse_duration parse input =
    let (count, rest) = take_unit b'w' 168 (take_unit b'd' 24 (take_unit b'h' 1 (0, input))) in
    if ltb 0 count && ltb count (2 ^ 63) then parse (decimal count ++ b'h' ∷ rest) else parse rest
