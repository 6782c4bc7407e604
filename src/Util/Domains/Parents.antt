-- ===== src/Util/Domains/Parents.antt =====
-- DomainList against a direct description: the name, and its suffixes behind a dot that still hold
-- a dot.
use gudgeon.Prelude.{
  ℕ, zero, suc, ◌<◌, List, [], ◌∷◌, ◌++◌, append_assoc, true, false, ◌≡◌, refl, ap, ◌∙◌, sym, ◌≢◌,
  ◌⊎◌, inl, inr, none, some, length, keep, arith, append-nil, ◌==◌, if◌then◌else◌, Bool-cases,
}
use gudgeon.Prelude.Text.{
  Text, codes, same, same_iff, same_refl, is_empty, contains_byte, after_byte, ends_with, Spaceless,
  trim_space-Spaceless, trim_space_shorter, after_byte_shorter, after_byte-Spaceless,
}
use gudgeon.Util.Domains.{dot, sub_domain, last_is, is_nil, domain_loop, domain_fuel, domain_list}

last_is-append : (e d : Text) (ds : List Text) → last_is e (ds ++ d ∷ []) ≡ same e d
unfolding last_is
last_is-append e d [] = refl
last_is-append e d (x ∷ []) = refl
last_is-append e d (x ∷ y ∷ ds) = last_is-append e d (y ∷ ds)

is_nil-append : (d : Text) (ds : List Text) → is_nil (ds ++ d ∷ []) ≡ false
unfolding is_nil
is_nil-append d [] = refl
is_nil-append d (x ∷ ds) = refl

sub_domain_shorter : (d : Text) → (length (sub_domain d) < length d) ⊎ (sub_domain d ≡ d)
unfolding sub_domain
sub_domain_shorter d =
    ground
      (arith, trim_space_shorter d, trim_space_shorter (after_byte dot d), after_byte_shorter dot d)

-- A domain that the last round added stops the loop.
domain_loop_again :
    (fuel : ℕ) (d : Text) (ds : List Text)
    → domain_loop (suc fuel) d (ds ++ d ∷ []) ≡ some (ds ++ d ∷ [])
unfolding domain_loop
domain_loop_again fuel d ds = ground (arith, last_is-append d d ds, same_refl d)

-- A round returns at once or returns what the rest of the loop does.
domain_loop_step :
    (fuel : ℕ) (d : Text) (ds : List Text)
    → domain_loop fuel (sub_domain d) (ds ++ d ∷ []) ≢ none
    → domain_loop (suc fuel) d ds ≢ none
unfolding domain_loop
domain_loop_step fuel d ds h = ground arith

domain_loop_total :
    (fuel : ℕ) (d : Text) (ds : List Text) → length d < fuel → domain_loop (suc fuel) d ds ≢ none
domain_loop_total zero d ds h = elim h [ ]
domain_loop_total (suc fuel) d ds h =
    domain_loop_step (suc fuel) d ds (elim (sub_domain_shorter d) [
      | inl s ↦ domain_loop_total fuel (sub_domain d) (ds ++ d ∷ []) (omega arith)
      | inr e ↦ rw e (rw (domain_loop_again fuel d ds) (λ q. cc))
    ])

-- The loop of DomainList ends within the fuel that it is given, whatever the name.
pub domain_loop-fuel_enough : (d : Text) → domain_loop (domain_fuel d) d [] ≢ none
domain_loop-fuel_enough d = domain_loop_total (suc (length d)) d [] (omega arith)

-- What stands behind each dot of a text, in order.
unfoldable pub dot_suffixes : Text → List Text
dot_suffixes [] = []
dot_suffixes (c ∷ s) = if c == dot then s ∷ dot_suffixes s else dot_suffixes s

-- The suffixes that still hold a dot.
unfoldable pub parents : Text → List Text
unfolding dot_suffixes
parents d = keep (contains_byte dot) (dot_suffixes d)

parents-none : (d : Text) → contains_byte dot d ≡ false → parents d ≡ []
unfolding parents contains_byte keep
parents-none [] h = refl
parents-none (c ∷ s) h = ground (arith, parents-none s)

-- A suffix without a dot ends the list.
from_suffix : Text → List Text
unfolding parents
from_suffix d = if contains_byte dot d then d ∷ parents d else []

parents-after : (d : Text) → contains_byte dot d ≡ true → parents d ≡ from_suffix (after_byte dot d)
unfolding parents from_suffix contains_byte after_byte keep
parents-after [] h = cc
parents-after (c ∷ s) h = ground (arith, parents-after s, parents-none s)

ends_with-after :
    (d : Text)
    → contains_byte dot d ≡ true
    → ends_with dot d ≡ false
    → ends_with dot (after_byte dot d) ≡ false
unfolding ends_with contains_byte after_byte
ends_with-after [] h e = refl
ends_with-after (c ∷ []) h e = ground arith
ends_with-after (c ∷ d ∷ s) h e = ground (arith, ends_with-after (d ∷ s))

dotted_length :
    (d : Text)
    → contains_byte dot d ≡ true
    → ends_with dot d ≡ false
    → (1 < length d) × (same (codes ".") d ≡ false)
unfolding contains_byte ends_with same
dotted_length [] h e = cc
dotted_length (c ∷ []) h e = ground arith
dotted_length (c ∷ d ∷ s) h e = ground arith

sub_domain-after :
    (d : Text)
    → Spaceless d
    → contains_byte dot d ≡ true
    → ends_with dot d ≡ false
    → sub_domain d ≡ after_byte dot d
unfolding sub_domain
sub_domain-after d s h e =
    rw (h, e) (trim_space-Spaceless (after_byte dot d) (after_byte-Spaceless dot d s))

same-shorter : (d e : Text) → length d < length e → same d e ≡ false
same-shorter d e h = elim (Bool-cases (same d e)) [
  | inl t ↦ absurd (omega (arith, ap (length {0}) ((same_iff d e).0 t)))
  | inr f ↦ f
]

-- A domain without a dot ends the loop, since something was added before.
domain_loop_stop :
    (fuel : ℕ) (d : Text) (ds : List Text)
    → is_nil ds ≡ false
    → contains_byte dot d ≡ false
    → domain_loop (suc fuel) d ds ≡ some (ds ++ from_suffix d)
unfolding domain_loop from_suffix
domain_loop_stop fuel d ds n c = ground (arith, append-nil ds)

-- A dotted domain is added, and the loop goes on with what stands behind its first dot.
domain_loop_more :
    (fuel : ℕ) (d : Text) (ds : List Text)
    → Spaceless d
    → contains_byte dot d ≡ true
    → ends_with dot d ≡ false
    → last_is d ds ≡ false
    → domain_loop (suc fuel) d ds ≡ domain_loop fuel (after_byte dot d) (ds ++ d ∷ [])
unfolding domain_loop
domain_loop_more fuel d ds s c e l = ground (arith, dotted_length d c e, sub_domain-after d s c e)

domain_loop-from_suffix :
    (fuel : ℕ) (d last : Text) (ds : List Text)
    → length d < fuel
    → length d < length last
    → Spaceless d
    → ends_with dot d ≡ false
    → domain_loop fuel d (ds ++ last ∷ []) ≡ some ((ds ++ last ∷ []) ++ from_suffix d)
domain_loop-from_suffix zero d last ds h l s e = elim h [ ]
domain_loop-from_suffix (suc fuel) d last ds h l s e = elim (Bool-cases (contains_byte dot d)) [
  | inl c ↦
      domain_loop_more fuel d (ds ++ last ∷ []) s c e
        (last_is-append d last ds ∙ same-shorter d last l)
      ∙ domain_loop-from_suffix fuel (after_byte dot d) d (ds ++ last ∷ [])
          (omega (arith, after_byte_shorter dot d c)) (after_byte_shorter dot d c)
          (after_byte-Spaceless dot d s) (ends_with-after d c e)
      ∙ ap some (regroup (ds ++ last ∷ []) d c)
  | inr c ↦ domain_loop_stop fuel d (ds ++ last ∷ []) (is_nil-append last ds) c
]
  where
    regroup :
        (pre : List Text) (d : Text)
        → contains_byte dot d ≡ true
        → (pre ++ d ∷ []) ++ from_suffix (after_byte dot d) ≡ pre ++ from_suffix d
    regroup pre d c =
        append_assoc pre (d ∷ []) (from_suffix (after_byte dot d))
        ∙ ap (◌++◌ pre) (unfold from_suffix in rw c (ap (◌∷◌ d) (sym (parents-after d c))))

is_empty-long : (d : Text) → 1 < length d → (is_empty d ≡ false) × (same (codes ".") d ≡ false)
unfolding is_empty same
is_empty-long [] h = elim h [ ]
is_empty-long (c ∷ []) h = absurd (omega arith)
is_empty-long (c ∷ e ∷ d) h = ground arith

-- The first round adds the name, whether or not it holds a dot.
domain_loop_first :
    (fuel : ℕ) (d : Text)
    → 1 < length d
    → domain_loop (suc fuel) d [] ≡ domain_loop fuel (sub_domain d) (d ∷ [])
unfolding domain_loop last_is is_nil
domain_loop_first fuel d h = ground (arith, is_empty-long d h)

first_rounds :
    (d : Text)
    → Spaceless d
    → ends_with dot d ≡ false
    → domain_loop (suc (length d)) (sub_domain d) (d ∷ []) ≡ some (d ∷ parents d)
first_rounds d s e = elim (Bool-cases (contains_byte dot d)) [
  | inl c ↦ rw (sub_domain-after d s c e) (
      domain_loop-from_suffix (suc (length d)) (after_byte dot d) d []
        (omega (arith, after_byte_shorter dot d c)) (after_byte_shorter dot d c)
        (after_byte-Spaceless dot d s) (ends_with-after d c e)
      ∙ ap (λ t. some (d ∷ t)) (sym (parents-after d c)))
  | inr c ↦ rw (unchanged c, parents-none d c) (domain_loop_again (length d) d [])
]
  where
    unchanged : contains_byte dot d ≡ false → sub_domain d ≡ d
    unchanged c = unfold sub_domain in rw c (trim_space-Spaceless d s)

-- For a name of at least two bytes that holds no space and does not end in a dot, DomainList is
-- the name itself followed by its suffixes behind a dot that still hold a dot, from the longest to
-- the shortest.
pub domain_list-eq-parents :
    (d : Text)
    → Spaceless d
    → ends_with dot d ≡ false
    → 1 < length d
    → domain_list d ≡ d ∷ parents d
unfolding domain_list
domain_list-eq-parents d s e h =
    rw (trim_space-Spaceless d s, (is_empty-long d h).0, domain_loop_first (suc (length d)) d h)
      (rw (first_rounds d s e))
