-- ===== src/Util/Time/Units.antt =====
-- Durations of one unit.
use gudgeon.Prelude.{
  ℕ, zero, suc, ◌+◌, ◌*◌, ◌/◌, ◌%◌, ◌^◌, ◌<◌, [], ◌∷◌, ◌++◌, true, false, none, some, ◌≡◌, ◌≢◌,
  refl, sym, ap, ◌∙◌, ltb, lt→ltb, All, arith, Bool-cases, inl, inr,
}
use gudgeon.Prelude.Text.{Text}
use gudgeon.Util.Time.{
  Parsed, is_digit, digits_then, find_token, scan, atoi, emit, decimal, take_unit, parse_duration,
}

abbrev pub IsDigits : Text → Type 0
IsDigits s = All (λ c. is_digit c ≡ true) s

digits_then-unit :
    (unit : ℕ) (s rest : Text)
    → is_digit unit ≡ false
    → IsDigits s
    → digits_then unit (s ++ unit ∷ rest) ≡ some (s, rest)
unfolding digits_then
digits_then-unit unit [] rest u h = ground arith
digits_then-unit unit (c ∷ s) rest u (d, h) = ground (arith, digits_then-unit unit s rest u h, d, u)

digits_then-other :
    (unit other : ℕ) (s : Text)
    → is_digit unit ≡ false
    → is_digit other ≡ false
    → other ≢ unit
    → IsDigits s
    → digits_then other (s ++ unit ∷ []) ≡ none
unfolding digits_then
digits_then-other unit other [] u v n h = ground (arith, n)
digits_then-other unit other (c ∷ s) u v n (d, h) =
    ground (arith, digits_then-other unit other s u v n h, d, v)

find_token-unit :
    (unit c : ℕ) (s : Text)
    → is_digit unit ≡ false
    → is_digit c ≡ true
    → IsDigits s
    → find_token unit (c ∷ s ++ unit ∷ []) ≡ some ([], c ∷ s, [])
unfolding find_token
find_token-unit unit c s u d h = rw (d, digits_then-unit unit s [] u h)

find_token-other :
    (unit other : ℕ) (s : Text)
    → is_digit unit ≡ false
    → is_digit other ≡ false
    → other ≢ unit
    → IsDigits s
    → find_token other (s ++ unit ∷ []) ≡ none
unfolding find_token
find_token-other unit other [] u v n h = rw u
find_token-other unit other (c ∷ s) u v n (d, h) =
    rw (d, digits_then-other unit other s u v n h, find_token-other unit other s u v n h)

-- What is emitted is read back.
pub scan-emit : (fuel n : ℕ) (out : Text) → n < fuel → scan 0 (emit fuel n out) ≡ scan n out
unfolding scan emit
scan-emit zero n out h = absurd (omega arith)
scan-emit (suc fuel) n out h = elim (Bool-cases (ltb n 10)) [
  | inl e ↦ rw (e, emit) (ap (λ (k : ℕ). scan k out) (ground (arith, e)))
  | inr e ↦
      rw (e, emit)
        (scan-emit fuel (n / 10) ((b'0' + n % 10) ∷ out) (ground (arith, e, h))
          ∙ ap (λ (k : ℕ). scan k out) (omega arith))
]

-- A digit at least is emitted, and nothing but digits.
abbrev pub IsNumber : Text → Type 0
IsNumber s = (c : ℕ) × (rest : Text) × (s ≡ c ∷ rest) × (is_digit c ≡ true) × IsDigits rest

last_digit : (n : ℕ) → is_digit (b'0' + n % 10) ≡ true
unfolding is_digit
last_digit n = ground arith

emit-IsNumber :
    (fuel n c : ℕ) (out : Text)
    → is_digit c ≡ true
    → IsDigits out
    → IsNumber (emit fuel n (c ∷ out))
unfolding emit
emit-IsNumber zero n c out d h = (c, out, refl, d, h)
emit-IsNumber (suc fuel) n c out d h = elim (Bool-cases (ltb n 10)) [
  | inl e ↦ rw (e, emit) (b'0' + n % 10, c ∷ out, refl, last_digit n, (d, h))
  | inr e ↦
      rw (e, emit) (emit-IsNumber fuel (n / 10) (b'0' + n % 10) (c ∷ out) (last_digit n) (d, h))
]

pub decimal-IsNumber : (n : ℕ) → IsNumber (decimal n)
unfolding decimal emit
decimal-IsNumber n = elim (Bool-cases (ltb n 10)) [
  | inl e ↦ rw (e, emit) (b'0' + n % 10, [], refl, last_digit n, tt)
  | inr e ↦ rw (e, emit) (emit-IsNumber n (n / 10) (b'0' + n % 10) [] (last_digit n) tt)
]

atoi-decimal : (n : ℕ) → n < 2 ^ 63 → atoi (decimal n) ≡ some n
unfolding atoi decimal
atoi-decimal n h = rw (scan-emit (suc n) n [] (omega arith)) (rw (lt→ltb n (2 ^ 63) h))

take_unit-decimal :
    (unit hours count n : ℕ)
    → is_digit unit ≡ false
    → n < 2 ^ 63
    → take_unit unit hours (count, decimal n ++ unit ∷ []) ≡ ((count + n * hours) % 2 ^ 64, [])
unfolding take_unit
take_unit-decimal unit hours count n u h =
    let (c, s, e, d, k) = decimal-IsNumber n in
    let found : find_token unit (decimal n ++ unit ∷ []) ≡ some ([], decimal n, []) =
      ap (λ (t : Text). find_token unit (t ++ unit ∷ [])) e
      ∙ (find_token-unit unit c s u d k ∙ ap (λ (t : Text). some ([], t, [])) (sym e)) in
    rw (take_unit, found, atoi-decimal n h)

take_unit-other :
    (unit other hours count n : ℕ)
    → is_digit unit ≡ false
    → is_digit other ≡ false
    → other ≢ unit
    → take_unit other hours (count, decimal n ++ unit ∷ []) ≡ (count, decimal n ++ unit ∷ [])
unfolding take_unit
take_unit-other unit other hours count n u v k =
    let (c, s, e, d, h) = decimal-IsNumber n in
    rw (
      take_unit,
      ap (λ (t : Text). find_token other (t ++ unit ∷ [])) e
          ∙ find_token-other unit other (c ∷ s) u v k (d, h),
    )

take_unit-nothing : (unit hours count : ℕ) → take_unit unit hours (count, []) ≡ (count, [])
unfolding take_unit find_token
take_unit-nothing unit hours count = refl

-- A count of hours, with nothing left of the text.
counted :
    (parse : Text → Parsed) (count : ℕ) (input : Text)
    → take_unit b'w' 168 (take_unit b'd' 24 (take_unit b'h' 1 (0, input))) ≡ (count, [])
    → 0 < count
    → count < 2 ^ 63
    → parse_duration parse input ≡ parse (decimal count ++ b'h' ∷ [])
unfolding parse_duration
counted parse count input e p h = rw (e, lt→ltb 0 count p, lt→ltb count (2 ^ 63) h)

-- The units that the code adds to Go's own, and hours.
pub data TimeUnit : Type 0 where
  hour day week : TimeUnit

unfoldable pub letter : TimeUnit → ℕ
letter hour = b'h'
letter day = b'd'
letter week = b'w'

unfoldable pub hours_in : TimeUnit → ℕ
hours_in hour = 1
hours_in day = 24
hours_in week = 168

-- A positive number of hours, days or weeks, in decimal and with the letter of its unit, is parsed as
-- the same time in hours is, if that is less than 2 to the power of 63 hours.
pub parse_duration-decimal :
    (parse : Text → Parsed) (unit : TimeUnit) (n : ℕ)
    → 0 < n
    → n * hours_in unit < 2 ^ 63
    → parse_duration parse (decimal n ++ letter unit ∷ [])
      ≡ parse (decimal (n * hours_in unit) ++ b'h' ∷ [])
unfolding is_digit letter hours_in
parse_duration-decimal parse hour n p h =
    counted parse (n * 1) (decimal n ++ b'h' ∷ [])
      (ap (λ (r : ℕ × Text). take_unit b'w' 168 (take_unit b'd' 24 r))
          (take_unit-decimal b'h' 1 0 n refl (omega (arith, h))
            ∙ ap (λ (k : ℕ). (k, [])) (omega (arith, h)))
        ∙ (ap (take_unit b'w' 168) (take_unit-nothing b'd' 24 (n * 1))
            ∙ take_unit-nothing b'w' 168 (n * 1)))
      (omega (arith, p)) (omega (arith, h))
parse_duration-decimal parse day n p h =
    counted parse (n * 24) (decimal n ++ b'd' ∷ [])
      (ap (λ (r : ℕ × Text). take_unit b'w' 168 (take_unit b'd' 24 r))
          (take_unit-other b'd' b'h' 1 0 n refl refl (λ e. absurd (omega (arith, e))))
        ∙ (ap (take_unit b'w' 168) (
              take_unit-decimal b'd' 24 0 n refl (omega (arith, h))
              ∙ ap (λ (k : ℕ). (k, [])) (omega (arith, h)))
            ∙ take_unit-nothing b'w' 168 (n * 24)))
      (omega (arith, p)) (omega (arith, h))
parse_duration-decimal parse week n p h =
    counted parse (n * 168) (decimal n ++ b'w' ∷ [])
      (ap (λ (r : ℕ × Text). take_unit b'w' 168 (take_unit b'd' 24 r))
          (take_unit-other b'w' b'h' 1 0 n refl refl (λ e. absurd (omega (arith, e))))
        ∙ (ap (take_unit b'w' 168)
              (take_unit-other b'w' b'd' 24 0 n refl refl (λ e. absurd (omega (arith, e))))
            ∙ (take_unit-decimal b'w' 168 0 n refl (omega (arith, h))
                ∙ ap (λ (k : ℕ). (k, [])) (omega (arith, h)))))
      (omega (arith, p)) (omega (arith, h))
