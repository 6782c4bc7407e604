-- ===== src/Rule/Fold.antt =====
-- What store_memory.go relies on of its two comparisons: sortfold.CompareFold, which is not the
-- repository's, and strings.EqualFold.
use gudgeon.Prelude.{[], ◌∷◌, Bool, true, false, ◌&&◌, ◌||◌, ◌≡◌, refl, arith, ltb, ◌==◌}
use gudgeon.Prelude.Text.{Text, equal_fold, to_lower, same_iff}

-- `less a b` is `sortfold.CompareFold(a, b) < 0`: a case-insensitive comparison is a strict order of
-- the texts whose ties are the texts that are equal but for case.
pub record FoldOrder : Type 0 where
  pub less : Text → Text → Bool
  pub less_trans : (a b c : Text) → less a b ≡ true → less b c ≡ true → less a c ≡ true
  pub less_irrefl : (a b : Text) → equal_fold a b ≡ true → less a b ≡ false
  pub less_total : (a b : Text) → less a b ≡ false → less b a ≡ false → equal_fold a b ≡ true

-- The lexicographic order of the lowered texts.
unfoldable pub less_bytes : Text → Text → Bool
less_bytes [] [] = false
less_bytes [] (d ∷ t) = true
less_bytes (c ∷ s) [] = false
less_bytes (c ∷ s) (d ∷ t) = ltb c d || ((c == d) && less_bytes s t)

pub less_bytes_trans :
    (a b c : Text) → less_bytes a b ≡ true → less_bytes b c ≡ true → less_bytes a c ≡ true
unfolding less_bytes
less_bytes_trans [] [] c h k = cc
less_bytes_trans [] (x ∷ b) [] h k = cc
less_bytes_trans [] (x ∷ b) (y ∷ c) h k = refl
less_bytes_trans (x ∷ a) [] c h k = cc
less_bytes_trans (x ∷ a) (y ∷ b) [] h k = cc
less_bytes_trans (x ∷ a) (y ∷ b) (z ∷ c) h k = ground (arith, less_bytes_trans a b c)

less_bytes_irrefl : (a : Text) → less_bytes a a ≡ false
unfolding less_bytes
less_bytes_irrefl [] = refl
less_bytes_irrefl (x ∷ a) = ground (arith, less_bytes_irrefl a)

less_bytes_total : (a b : Text) → less_bytes a b ≡ false → less_bytes b a ≡ false → a ≡ b
unfolding less_bytes
less_bytes_total [] [] h k = refl
less_bytes_total [] (x ∷ b) h k = cc
less_bytes_total (x ∷ a) [] h k = cc
less_bytes_total (x ∷ a) (y ∷ b) h k = ground (arith, less_bytes_total a b)

pub lowered_irrefl :
    (a b : Text) → equal_fold a b ≡ true → less_bytes (to_lower a) (to_lower b) ≡ false
unfolding equal_fold
lowered_irrefl a b h =
    rw ((same_iff (to_lower a) (to_lower b)).0 h) (less_bytes_irrefl (to_lower b))

pub lowered_total :
    (a b : Text)
    → less_bytes (to_lower a) (to_lower b) ≡ false
    → less_bytes (to_lower b) (to_lower a) ≡ false
    → equal_fold a b ≡ true
unfolding equal_fold
lowered_total a b h k =
    (same_iff (to_lower a) (to_lower b)).1 (less_bytes_total (to_lower a) (to_lower b) h k)

-- A comparison that has these laws.
abbrev pub lowered_order : FoldOrder
lowered_order = record {
  less = λ a b. less_bytes (to_lower a) (to_lower b);
  less_trans = λ a b c. less_bytes_trans (to_lower a) (to_lower b) (to_lower c);
  less_irrefl = lowered_irrefl;
  less_total = lowered_total;
}
