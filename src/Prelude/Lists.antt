-- ===== src/Prelude/Lists.antt =====
-- Lists measured by native numbers, and predicates over lists by recursion.
use Prim.Native.Nat.{ℕ, zero, suc, ◌+◌, ◌<◌}
use mathlib.Core.Path.{◌≡◌, refl}
use mathlib.Core.Bool.{Bool, true, false, ◌||◌}
use mathlib.Core.Logic.{inl, inr}
use mathlib.Core.List.{List, [], ◌∷◌, ◌++◌}
use mathlib.Core.Option.{Option, none, some}
use mathlib.Core.Bool.{false≢true}
use native.Mathlib.Omega.{arith}
use gudgeon.Prelude.Tests.{Bool-cases}

module _ {ℓ} {A : Type ℓ} where
  abbrev pub length : List A → ℕ
  length [] = 0
  length (x ∷ xs) = suc (length xs)

  abbrev pub get_elem? : List A → ℕ → Option A
  get_elem? [] i = none
  get_elem? (x ∷ xs) zero = some x
  get_elem? (x ∷ xs) (suc i) = get_elem? xs i

  abbrev pub get_or : List A → ℕ → A → A
  get_or [] i d = d
  get_or (x ∷ xs) zero d = x
  get_or (x ∷ xs) (suc i) d = get_or xs i d

  pub length-append : (xs ys : List A) → length (xs ++ ys) ≡ length xs + length ys
  length-append [] ys = omega arith
  length-append (x ∷ xs) ys = omega (arith, length-append xs ys)

  -- Some element passes the test.
  unfoldable pub any : (A → Bool) → List A → Bool
  any p [] = false
  any p (x ∷ xs) = p x || any p xs

  -- The elements that pass a Boolean test, in their order.
  unfoldable pub keep : (A → Bool) → List A → List A
  keep p [] = []
  keep p (x ∷ xs) = elim (p x) [ true ↦ x ∷ keep p xs | false ↦ keep p xs ]

module _ {ℓ} {A : Type ℓ} (p : A → Bool) where
  pub any-append : (xs ys : List A) → any p (xs ++ ys) ≡ (any p xs || any p ys)
  unfolding any
  any-append [] ys = refl
  any-append (x ∷ xs) ys = ground (arith, any-append xs ys)

  -- The index of an element that passes.
  pub any_index :
      (xs : List A) (d : A)
      → any p xs ≡ true
      → (k : ℕ) × (k < length xs) × (p (get_or xs k d) ≡ true)
  unfolding any
  any_index [] d h = absurd (false≢true h)
  any_index (x ∷ xs) d h = elim (Bool-cases (p x)) [
    | inl e ↦ (0, omega arith, e)
    | inr e ↦ next (any_index xs d (rw e at h))
  ]
    where
      next :
          ((k : ℕ) × (k < length xs) × (p (get_or xs k d) ≡ true))
          → (k : ℕ) × (k < length (x ∷ xs)) × (p (get_or (x ∷ xs) k d) ≡ true)
      next (k, lt, t) = (suc k, omega arith, t)

  pub any_at :
      (xs : List A) (d : A) (k : ℕ) → k < length xs → p (get_or xs k d) ≡ true → any p xs ≡ true
  unfolding any
  any_at [] d k h t = elim h [ ]
  any_at (x ∷ xs) d zero h t = rw t
  any_at (x ∷ xs) d (suc k) h t = ground (arith, any_at xs d k)

module _ {ℓ κ} {A : Type ℓ} where
  abbrev pub All : (A → Type κ) → List A → Type κ
  All P [] = Unit
  All P (x ∷ xs) = P x × All P xs

  pub All-append : (P : A → Type κ) (xs ys : List A) → All P xs → All P ys → All P (xs ++ ys)
  All-append P [] ys _ h = h
  All-append P (x ∷ xs) ys (p, hx) h = (p, All-append P xs ys hx h)
