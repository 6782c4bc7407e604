-- ===== src/Rule/Search.antt =====
-- sort.Search of the standard library, the binary search that store_memory.go runs on a sorted list
-- of rules, and what it finds.
use gudgeon.Prelude.{
  ℕ, zero, suc, ◌+◌, ◌/◌, ◌≤◌, ◌<◌, ◌≡◌, Bool, true, false, arith, ltb, if◌then◌else◌, Bool-cases,
  inl, inr, ltb→lt, sym, ◌∙◌,
}
use mathlib.Core.Bool.{false≢true}

-- The loop on fuel, as it stands: `for i < j { h := (i+j)/2; if !f(h) { i = h+1 } else { j = h } }`
unfoldable pub search_loop : ℕ → (ℕ → Bool) → ℕ → ℕ → ℕ
search_loop zero f i j = i
search_loop (suc fuel) f i j =
    let h = (i + j) / 2 in
    let right = search_loop fuel f (h + 1) j in
    let left = search_loop fuel f i h in if ltb i j then if f h then left else right else i

-- sort.Search(n, f); a round at least halves the interval, so `n` rounds are more than enough.
unfoldable pub search : ℕ → (ℕ → Bool) → ℕ
unfolding search_loop
search n f = search_loop n f 0 n

module _ (f : ℕ → Bool) where
  -- `f` is false below `i` and true from `j` to the end.
  abbrev Bracket : ℕ → ℕ → ℕ → Type 0
  Bracket n i j =
      (i ≤ j) × (j ≤ n) × ((k : ℕ) → k < i → f k ≡ false) × ((k : ℕ) → j ≤ k → k < n → f k ≡ true)

  search_loop-Bracket :
      (n fuel i j : ℕ)
      → ((k m : ℕ) → k ≤ m → m < n → f k ≡ true → f m ≡ true)
      → j ≤ i + fuel
      → Bracket n i j
      → Bracket n (search_loop fuel f i j) (search_loop fuel f i j)
  search_loop-Bracket n zero i j mono h (le, top, low, high) =
      unfold search_loop in (omega arith, omega arith, low, λ k a b. high k (omega arith) b)
  search_loop-Bracket n (suc fuel) i j mono h (le, top, low, high) = elim (Bool-cases (ltb i j)) [
    | inr e ↦ finished e
    | inl e ↦ elim (Bool-cases (f ((i + j) / 2))) [
      | inl t ↦ went_left e t (
          search_loop-Bracket n fuel i ((i + j) / 2) mono (ground arith) (
            omega (arith, ltb→lt i j e),
            omega (arith, ltb→lt i j e),
            low,
            λ k a b. mono ((i + j) / 2) k a b t,
          ))
      | inr t ↦ went_right e t (
          search_loop-Bracket n fuel ((i + j) / 2 + 1) j mono (ground arith)
            (omega (arith, ltb→lt i j e), top, λ k a. below k t e a, high))
    ]
  ]
    where
      finished :
          ltb i j ≡ false → Bracket n (search_loop (suc fuel) f i j) (search_loop (suc fuel) f i j)
      finished e =
          unfold search_loop in
          rw e (omega arith, omega arith, low, λ k a b. high k (ground arith) b)

      went_left :
          ltb i j ≡ true
          → f ((i + j) / 2) ≡ true
          → Bracket n (search_loop fuel f i ((i + j) / 2)) (search_loop fuel f i ((i + j) / 2))
          → Bracket n (search_loop (suc fuel) f i j) (search_loop (suc fuel) f i j)
      went_left e t b = unfold search_loop in rw (e, t) b

      went_right :
          ltb i j ≡ true
          → f ((i + j) / 2) ≡ false
          → Bracket n
              (search_loop fuel f ((i + j) / 2 + 1) j)
              (search_loop fuel f ((i + j) / 2 + 1) j)
          → Bracket n (search_loop (suc fuel) f i j) (search_loop (suc fuel) f i j)
      went_right e t b = unfold search_loop in rw (e, t) b

      below : (k : ℕ) → f ((i + j) / 2) ≡ false → ltb i j ≡ true → k < (i + j) / 2 + 1 → f k ≡ false
      below k t e a = elim (Bool-cases (f k)) [
        | inr no_hit ↦ no_hit
        | inl hit ↦ absurd (
            false≢true
              (sym t ∙ mono k ((i + j) / 2) (omega arith) (omega (arith, ltb→lt i j e)) hit))
      ]

  -- For a test that stays true once it is, the search gives the first index at which it holds, and
  -- the number of indices where it holds nowhere.
  pub search_lem :
      (n : ℕ)
      → ((k m : ℕ) → k ≤ m → m < n → f k ≡ true → f m ≡ true)
      → (search n f ≤ n)
        × ((k : ℕ) → k < search n f → f k ≡ false)
        × ((k : ℕ) → search n f ≤ k → k < n → f k ≡ true)
  unfolding search
  search_lem n mono =
      let (le, top, low, high) =
        search_loop-Bracket n n 0 n mono (omega arith)
          (omega arith, omega arith, λ k a. absurd (omega arith), λ k a b. absurd (omega arith)) in
      (top, low, high)
