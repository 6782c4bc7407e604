-- ===== src/Engine/Consumers/Lookup.antt =====
-- What the lookup of a consumer finds, and what its ranges mean.
use gudgeon.Prelude.{
  ℕ, ◌+◌, ◌*◌, ◌^◌, ◌<◌, List, [], ◌∷◌, ◌++◌, true, false, Option, some, ◌≡◌, refl, ap, ◌⊎◌, inl,
  inr, leb, length, All, arith, Bool-cases,
}
use gudgeon.Engine.Consumers.{Consumer, Net, at_most, some_matches, get_consumer_for_ip}

module _ (net : Net) where
  -- An address belongs to the first consumer, in the order of the configuration, one of whose matches
  -- takes it, and to the default consumer where no match of any consumer does.
  pub get_consumer_for_ip_lem :
      (consumers : List Consumer) (default : Option Consumer) (address : List ℕ)
      → (All (λ c. some_matches net c.config.matches address ≡ false) consumers
          × (get_consumer_for_ip net consumers default address ≡ default))
        ⊎ ((before after : List Consumer) × (c : Consumer) × (consumers ≡ before ++ c ∷ after)
            × All (λ b. some_matches net b.config.matches address ≡ false) before
            × (some_matches net c.config.matches address ≡ true)
            × (get_consumer_for_ip net consumers default address ≡ some c))
  unfolding get_consumer_for_ip
  get_consumer_for_ip_lem [] default address = inl (tt, refl)
  get_consumer_for_ip_lem (c ∷ consumers) default address =
      elim (Bool-cases (some_matches net c.config.matches address)) [
        | inl e ↦ inr ([], consumers, c, refl, tt, e, rw e)
        | inr e ↦ elim (get_consumer_for_ip_lem consumers default address) [
          | inl (n, h) ↦ inl ((e, n), rw e h)
          | inr (before, after, b, p, n, m, h) ↦
              inr (c ∷ before, after, b, ap (◌∷◌ c) p, (e, n), m, rw e h)
        ]
      ]

-- The number that an address is, its first byte the highest.
abbrev pub value : List ℕ → ℕ
value [] = 0
value (b ∷ bytes) = b * 256 ^ length bytes + value bytes

abbrev pub IsBytes : List ℕ → Type 0
IsBytes bytes = All (λ b. b < 256) bytes

value_bound : (bytes : List ℕ) → IsBytes bytes → value bytes < 256 ^ length bytes
value_bound [] h = omega arith
value_bound (b ∷ bytes) h = grind (arith, value_bound bytes h.1)

higher_digit : (x y p v w : ℕ) → v < p → x < y → x * p + v < y * p + w
higher_digit x y p v w b h = grind arith

-- Of two addresses of as many bytes, one is at most the other exactly if its number is: a range of
-- addresses is a range of numbers with both its ends.
at_most-value :
    (xs ys : List ℕ)
    → length xs ≡ length ys
    → IsBytes xs
    → IsBytes ys
    → at_most xs ys ≡ leb (value xs) (value ys)
unfolding at_most
at_most-value [] [] l h k = refl
at_most-value [] (y ∷ ys) l h k = absurd (omega arith)
at_most-value (x ∷ xs) [] l h k = absurd (omega arith)
at_most-value (x ∷ xs) (y ∷ ys) l h k = ground (
  arith,
  at_most-value xs ys (omega (arith, l)) h.1 k.1,
  higher_digit x y (256 ^ length xs) (value xs) (value ys) (value_bound xs h.1),
  higher_digit y x (256 ^ length xs) (value ys) (value xs) (rw same_power (value_bound ys k.1)),
  same_power,
)
  where
    same_power : 256 ^ length xs ≡ 256 ^ length ys
    same_power = ap (λ (n : ℕ). 256 ^ n) (omega (arith, l))
