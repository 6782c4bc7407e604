-- ===== src/Prelude/Text.antt =====
-- Texts as lists of bytes, and the functions of Go's `strings` package that the program calls.
-- Bytes are read as ASCII: `to_lower` and `is_space` know no other letters or spaces.
use Prim.Native.Nat.{ℕ, suc, ◌+◌, ◌≤◌, ◌<◌}
use Prim.Native.Char.{code}
use Prim.Native.String.{String}
use mathlib.Core.Path.{◌≡◌, refl, ◌∙◌}
use mathlib.Core.Bool.{Bool, true, false, ◌&&◌, ◌||◌}
use mathlib.Core.Logic.{◌↔◌, ◌⊎◌, inl, inr}
use mathlib.Core.List.{List, [], ◌∷◌, reverse}
use native.Mathlib.Omega.{arith}
use gudgeon.Prelude.Tests.{leb, ◌==◌, if◌then◌else◌, Bool-cases}
use gudgeon.Prelude.Lists.{length, All}

abbrev pub Text : Type 0
Text = List ℕ

-- The code points of a literal, which are its bytes when the text is ASCII.
abbrev pub codes : String → Text
codes String.[] = []
codes (String.◌∷◌ c s) = code c ∷ codes s

-- `a == b` on Go strings.
unfoldable pub same : Text → Text → Bool
same [] [] = true
same [] (d ∷ t) = false
same (c ∷ s) [] = false
same (c ∷ s) (d ∷ t) = (c == d) && same s t

pub same_iff : (s t : Text) → (same s t ≡ true) ↔ (s ≡ t)
unfolding same
same_iff [] [] = ground arith
same_iff [] (d ∷ t) = ground arith
same_iff (c ∷ s) [] = ground arith
same_iff (c ∷ s) (d ∷ t) = ground (arith, same_iff s t)

pub same_refl : (s : Text) → same s s ≡ true
same_refl s = (same_iff s s).1 refl

pub same_sym : (s t : Text) → same s t ≡ same t s
same_sym s t = ground (arith, same_iff s t, same_iff t s)

-- `"" == s`
unfoldable pub is_empty : Text → Bool
is_empty [] = true
is_empty (c ∷ s) = false

-- strings.HasPrefix(s, p)
unfoldable pub has_prefix : Text → Text → Bool
has_prefix s [] = true
has_prefix [] (d ∷ p) = false
has_prefix (c ∷ s) (d ∷ p) = (c == d) && has_prefix s p

-- strings.HasSuffix(s, p)
unfoldable pub has_suffix : Text → Text → Bool
unfolding has_prefix
has_suffix s p = has_prefix (reverse s) (reverse p)

-- strings.Contains(s, p)
unfoldable pub contains : Text → Text → Bool
unfolding has_prefix
contains [] p = has_prefix [] p
contains (c ∷ s) p = has_prefix (c ∷ s) p || contains s p

-- `s[0:strings.Index(s, p)]` where `p` is found, and `s` where it is not
unfoldable pub before : Text → Text → Text
unfolding has_prefix
before [] p = []
before (c ∷ s) p = let rest = before s p in if has_prefix (c ∷ s) p then [] else c ∷ rest

-- strings.Contains(s, p) for a `p` of one byte
unfoldable pub contains_byte : ℕ → Text → Bool
contains_byte b [] = false
contains_byte b (c ∷ s) = (c == b) || contains_byte b s

-- `s[strings.Index(s, p)+1:]` for a `p` of one byte that is found (the callers test that first)
unfoldable pub after_byte : ℕ → Text → Text
after_byte b [] = []
after_byte b (c ∷ s) = if c == b then s else after_byte b s

-- strings.HasSuffix(s, p) for a `p` of one byte
unfoldable pub ends_with : ℕ → Text → Bool
ends_with b [] = false
ends_with b (c ∷ []) = c == b
ends_with b (c ∷ d ∷ s) = ends_with b (d ∷ s)

unfoldable pub is_space : ℕ → Bool
is_space c = (c == 32) || (leb 9 c && leb c 13)

unfoldable pub trim_left : Text → Text
unfolding is_space
trim_left [] = []
trim_left (c ∷ s) = let rest = trim_left s in if is_space c then rest else c ∷ s

-- One byte in front of a text that is trimmed on the right.
unfoldable pub put_trimmed : ℕ → Text → Text
unfolding is_space
put_trimmed c [] = if is_space c then [] else c ∷ []
put_trimmed c (d ∷ s) = c ∷ d ∷ s

unfoldable pub trim_right : Text → Text
unfolding put_trimmed
trim_right [] = []
trim_right (c ∷ s) = put_trimmed c (trim_right s)

-- strings.TrimSpace(s)
unfoldable pub trim_space : Text → Text
unfolding trim_left trim_right
trim_space s = trim_right (trim_left s)

unfoldable pub lower_byte : ℕ → ℕ
lower_byte c = if leb b'A' c && leb c b'Z' then c + 32 else c

-- strings.ToLower(s)
unfoldable pub to_lower : Text → Text
unfolding lower_byte
to_lower [] = []
to_lower (c ∷ s) = lower_byte c ∷ to_lower s

pub to_lower_idem : (s : Text) → to_lower (to_lower s) ≡ to_lower s
unfolding to_lower
to_lower_idem [] = refl
to_lower_idem (c ∷ s) = ground (arith, to_lower_idem s)

-- strings.EqualFold(s, t)
unfoldable pub equal_fold : Text → Text → Bool
unfolding same to_lower
equal_fold s t = same (to_lower s) (to_lower t)

pub equal_fold_refl : (s : Text) → equal_fold s s ≡ true
unfolding equal_fold
equal_fold_refl s = same_refl (to_lower s)

pub equal_fold_sym : (s t : Text) → equal_fold s t ≡ true → equal_fold t s ≡ true
unfolding equal_fold
equal_fold_sym s t h = rw (same_sym (to_lower t) (to_lower s)) h

pub equal_fold_trans :
    (s t u : Text) → equal_fold s t ≡ true → equal_fold t u ≡ true → equal_fold s u ≡ true
unfolding equal_fold
equal_fold_trans s t u h k =
    (same_iff (to_lower s) (to_lower u)).1
      ((same_iff (to_lower s) (to_lower t)).0 h ∙ (same_iff (to_lower t) (to_lower u)).0 k)

-- Lowering a text changes nothing for the comparison without case.
pub equal_fold-to_lower : (s t : Text) → equal_fold (to_lower s) t ≡ equal_fold s t
unfolding equal_fold
equal_fold-to_lower s t = rw (to_lower_idem s)

-- No byte of the text is a space.
abbrev pub Spaceless : Text → Type 0
Spaceless = All (λ c. is_space c ≡ false)

trim_left-Spaceless : (s : Text) → Spaceless s → trim_left s ≡ s
unfolding trim_left
trim_left-Spaceless [] h = refl
trim_left-Spaceless (c ∷ s) h = rw h.0

trim_right-Spaceless : (s : Text) → Spaceless s → trim_right s ≡ s
unfolding trim_right
trim_right-Spaceless [] h = refl
trim_right-Spaceless (c ∷ s) h = rw (trim_right-Spaceless s h.1) (put s)
  where
    put : (t : Text) → put_trimmed c t ≡ c ∷ t
    put [] = rw h.0
    put (d ∷ t) = refl

pub trim_space-Spaceless : (s : Text) → Spaceless s → trim_space s ≡ s
unfolding trim_space
trim_space-Spaceless s h = rw (trim_left-Spaceless s h) (trim_right-Spaceless s h)

trim_left_shorter : (s : Text) → (length (trim_left s) < length s) ⊎ (trim_left s ≡ s)
unfolding trim_left
trim_left_shorter [] = inr refl
trim_left_shorter (c ∷ s) = ground (arith, trim_left_shorter s)

length-put_trimmed : (c : ℕ) (s : Text) → length (put_trimmed c s) ≤ suc (length s)
unfolding put_trimmed
length-put_trimmed c [] = ground arith
length-put_trimmed c (d ∷ s) = omega arith

trim_right_shorter : (s : Text) → (length (trim_right s) < length s) ⊎ (trim_right s ≡ s)
unfolding trim_right
trim_right_shorter [] = inr refl
trim_right_shorter (c ∷ s) = elim (trim_right_shorter s) [
  | inl h ↦ inl (omega (arith, length-put_trimmed c (trim_right s)))
  | inr e ↦ rw e (put s)
]
  where
    put : (t : Text) → (length (put_trimmed c t) < suc (length t)) ⊎ (put_trimmed c t ≡ c ∷ t)
    put [] = ground (arith, put_trimmed)
    put (d ∷ t) = inr (unfold put_trimmed in refl)

-- Trimming makes a text shorter or leaves it.
pub trim_space_shorter : (s : Text) → (length (trim_space s) < length s) ⊎ (trim_space s ≡ s)
unfolding trim_space
trim_space_shorter s = ground (arith, trim_left_shorter s, trim_right_shorter (trim_left s))

pub after_byte_shorter :
    (b : ℕ) (s : Text) → contains_byte b s ≡ true → length (after_byte b s) < length s
unfolding after_byte contains_byte
after_byte_shorter b [] h = cc
after_byte_shorter b (c ∷ s) h = ground (arith, after_byte_shorter b s)

pub after_byte-Spaceless : (b : ℕ) (s : Text) → Spaceless s → Spaceless (after_byte b s)
unfolding after_byte
after_byte-Spaceless b [] h = tt
after_byte-Spaceless b (c ∷ s) h = elim (Bool-cases (c == b)) [
  | inl e ↦ rw e h.1
  | inr e ↦ rw e (after_byte-Spaceless b s h.1)
]
