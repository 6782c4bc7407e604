-- ===== src/Engine/Counters/Totals.antt =====
-- The counter of all rules and the counters of the lists.
use gudgeon.Prelude.{
  ℕ, ◌+◌, ◌%◌, ◌^◌, ◌<◌, List, [], ◌∷◌, ◌++◌, Bool, true, false, some, ◌≡◌, refl, sym, ap, ◌∙◌,
  arith, Bool-cases, inl, inr, if◌then◌else◌,
}
use gudgeon.Prelude.Text.{Text, codes, same, same_iff, same_refl, is_empty}
use gudgeon.Prelude.Dict.{lookup, lookup-insert}
use gudgeon.Util.Strings.{string_in}
use gudgeon.Resolver.Visited.{IsDistinct}
use gudgeon.Engine.Counters.{
  Metrics, or_zero, value, set, inc, clear, negated, total_rules, rules_list, list_changed,
}

value-set :
    (name other : Text) (v : ℕ) (m : Metrics)
    → value other (set name v m) ≡ (if same name other then v else value other m)
unfolding value set same
value-set name other v m =
    rw (lookup-insert (codes "gudgeon-" ++ name) (codes "gudgeon-" ++ other) v m)
      (cases (same name other))
  where
    cases :
        (b : Bool)
        → or_zero (if b then some v else lookup (codes "gudgeon-" ++ other) m)
          ≡ (if b then v else or_zero (lookup (codes "gudgeon-" ++ other) m))
    cases true = unfold or_zero in refl
    cases false = refl

-- The rules of the lists, counted by their counters.
unfoldable pub rule_sum : List Text → Metrics → ℕ
rule_sum [] m = 0
rule_sum (n ∷ names) m = value (rules_list n) m + rule_sum names m

same_counter : (n k : Text) → same (rules_list n) (rules_list k) ≡ same n k
unfolding same
same_counter n k = refl

other_counter : (n : Text) → same total_rules (rules_list n) ≡ false
unfolding same
other_counter n = refl

other_total : (n : Text) → same (rules_list n) total_rules ≡ false
unfolding same
other_total n = refl

rule_sum-total :
    (names : List Text) (v : ℕ) (m : Metrics)
    → rule_sum names (set total_rules v m) ≡ rule_sum names m
unfolding rule_sum
rule_sum-total [] v m = refl
rule_sum-total (n ∷ names) v m =
    ground
      (arith, rule_sum-total names v m, value-set total_rules (rules_list n) v m, other_counter n)

rule_sum-other :
    (names : List Text) (k : Text) (v : ℕ) (m : Metrics)
    → string_in k names ≡ false
    → rule_sum names (set (rules_list k) v m) ≡ rule_sum names m
unfolding rule_sum string_in
rule_sum-other [] k v m n = refl
rule_sum-other (j ∷ names) k v m n = ground (
  arith,
  n,
  rule_sum-other names k v m,
  value-set (rules_list k) (rules_list j) v m,
  same_counter k j,
)

rule_sum-set :
    (names : List Text) (k : Text) (v : ℕ) (m : Metrics)
    → IsDistinct names
    → string_in k names ≡ true
    → rule_sum names (set (rules_list k) v m) + value (rules_list k) m ≡ rule_sum names m + v
unfolding rule_sum string_in
rule_sum-set [] k v m d n = cc
rule_sum-set (j ∷ names) k v m (i, d) n = elim (Bool-cases (same k j)) [
  | inl e ↦ here ((same_iff k j).0 e) e
  | inr e ↦ ground (
    arith,
    e,
    n,
    rule_sum-set names k v m d,
    value-set (rules_list k) (rules_list j) v m,
    same_counter k j,
  )
]
  where
    here :
        k ≡ j
        → same k j ≡ true
        → rule_sum (j ∷ names) (set (rules_list k) v m) + value (rules_list k) m
          ≡ rule_sum (j ∷ names) m + v
    here p e =
        unfold rule_sum in
        ground (
          arith,
          e,
          value-set (rules_list k) (rules_list j) v m,
          same_counter k j,
          rule_sum-other names k v m (ap (λ (x : Text). string_in x names) p ∙ i),
          ap (λ (x : Text). value (rules_list x) m) p,
        )

value-inc :
    (name other : Text) (v : ℕ) (m : Metrics)
    → value other (inc name v m)
      ≡ (if same name other then (value name m + v) % 2 ^ 64 else value other m)
unfolding inc
value-inc name other v m = value-set name other ((value name m + v) % 2 ^ 64) m

-- The counter of a list set to a count by the way of 0.
value-recount :
    (k : Text) (count : ℕ) (m : Metrics)
    → count < 2 ^ 64
    → inc (rules_list k) count (clear (rules_list k) m)
      ≡ set (rules_list k) count (set (rules_list k) 0 m)
unfolding inc clear
value-recount k count m h =
    ap (λ (x : ℕ). set (rules_list k) x (set (rules_list k) 0 m))
      (ground (arith, h, value-set (rules_list k) (rules_list k) 0 m, same_refl (rules_list k)))

-- If the counter of all rules is the sum of the counters of lists with distinct short names that are
-- not empty, modulo 2 to the power of 64, then it is so again after one of these lists, whose counter
-- is below that power, has changed to a count below it.
pub list_changed-rule_sum :
    (names : List Text) (k : Text) (count : ℕ) (m : Metrics)
    → IsDistinct names
    → string_in k names ≡ true
    → is_empty k ≡ false
    → value total_rules m ≡ rule_sum names m % 2 ^ 64
    → value (rules_list k) m < 2 ^ 64
    → count < 2 ^ 64
    → value total_rules (list_changed k count m) ≡ rule_sum names (list_changed k count m) % 2 ^ 64
unfolding list_changed
list_changed-rule_sum names k count m d n e h b c =
    shape
    ∙ (total_after ∙ (final ∙ sym (ap (λ (x : Metrics). rule_sum names x % 2 ^ 64) recounted)))
  where
    counted : Metrics
    counted = inc total_rules count (inc total_rules (negated (value (rules_list k) m)) m)

    recounted : list_changed k count m ≡ set (rules_list k) count (set (rules_list k) 0 counted)
    recounted = unfold list_changed in rw (e, list_changed) (value-recount k count counted c)

    shape :
        value total_rules (list_changed k count m)
        ≡ value total_rules (set (rules_list k) count (set (rules_list k) 0 counted))
    shape = ap (value total_rules) recounted

    total_after :
        value total_rules (set (rules_list k) count (set (rules_list k) 0 counted))
        ≡ ((value total_rules m + negated (value (rules_list k) m)) % 2 ^ 64 + count) % 2 ^ 64
    total_after = ground (
      arith,
      value-set (rules_list k) total_rules count (set (rules_list k) 0 counted),
      value-set (rules_list k) total_rules 0 counted,
      value-inc total_rules total_rules count
          (inc total_rules (negated (value (rules_list k) m)) m),
      value-inc total_rules total_rules (negated (value (rules_list k) m)) m,
      other_total k,
      same_refl total_rules,
    )

    kept_counter : value (rules_list k) counted ≡ value (rules_list k) m
    kept_counter = ground (
      arith,
      value-inc total_rules (rules_list k) count
          (inc total_rules (negated (value (rules_list k) m)) m),
      value-inc total_rules (rules_list k) (negated (value (rules_list k) m)) m,
      other_counter k,
    )

    kept_sum : rule_sum names counted ≡ rule_sum names m
    kept_sum =
        unfold inc in
        rule_sum-total names _ (inc total_rules (negated (value (rules_list k) m)) m)
        ∙ rule_sum-total names _ m

    sum_after :
        rule_sum names (set (rules_list k) count (set (rules_list k) 0 counted))
          + value (rules_list k) m
        ≡ rule_sum names m + count
    sum_after = ground (
      arith,
      rule_sum-set names k count (set (rules_list k) 0 counted) d n,
      value-set (rules_list k) (rules_list k) 0 counted,
      same_refl (rules_list k),
      rule_sum-set names k 0 counted d n,
      kept_counter,
      kept_sum,
    )

    final :
        ((value total_rules m + negated (value (rules_list k) m)) % 2 ^ 64 + count) % 2 ^ 64
        ≡ rule_sum names (set (rules_list k) count (set (rules_list k) 0 counted)) % 2 ^ 64
    final = unfold negated in omega (arith, h, b, sum_after)
