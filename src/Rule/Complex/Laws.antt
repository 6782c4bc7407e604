-- ===== src/Rule/Complex/Laws.antt =====
-- What the complex rules decide, in front of the backing store.
use gudgeon.Prelude.{[], ◌∷◌, Bool, true, false, Option, none, some, ◌≡◌, refl, ◌↔◌, any, arith}
use gudgeon.Prelude.Text.{Text, codes, has_prefix, has_suffix}
use gudgeon.Prelude.Dict.{lookup}
use gudgeon.Config.Lists.{GudgeonList, canonical_name}
use gudgeon.Rule.Line.{rule_regex}
use gudgeon.Rule.Base.{StoreOps}
use gudgeon.Rule.Spec.Agree.{Agree}
use gudgeon.Rule.Complex.{
  ComplexStore, panics, specify_regex_only_rule, create_regex_match_rule,
  create_wildcard_match_rule, create_complex_rule, rule_matches,
}

module _ (glob : Text → Text → Bool) (compile : Text → Option (Text → Bool)) where
  specify-not-panics : (rule : Text) → specify_regex_only_rule glob compile rule ≡ panics → ⊥
  unfolding specify_regex_only_rule
  specify-not-panics rule h = ground arith

  create_regex-panics :
      (rule : Text)
      → has_prefix rule rule_regex ≡ true
      → create_regex_match_rule glob compile rule ≡ panics
      → rule ≡ codes "/"
  unfolding create_regex_match_rule has_prefix
  create_regex-panics [] p h = cc
  create_regex-panics (c ∷ []) p h = ground arith
  create_regex-panics (c ∷ d ∷ s) p h = absurd (specify-not-panics _ h)

  create_complex-panics :
      (rule : Text) → create_complex_rule glob compile rule ≡ panics → rule ≡ codes "/"
  unfolding create_complex_rule create_wildcard_match_rule
  create_complex-panics rule h = ground (arith, create_regex-panics rule)

  -- Making a complex rule panics for the text of a single slash, and for no other text.
  pub create_complex_rule-panics :
      (rule : Text) → (create_complex_rule glob compile rule ≡ panics) ↔ (rule ≡ codes "/")
  create_complex_rule-panics rule = (create_complex-panics rule, λ e. rw e slash)
    where
      slash : create_complex_rule glob compile (codes "/") ≡ panics
      slash = unfold create_complex_rule create_regex_match_rule has_prefix has_suffix in refl

  module _ {D : Type 0} (inner : StoreOps D) where
    -- Some complex rule of the list matches the name.
    unfoldable pub holds : ComplexStore D → GudgeonList → Text → Bool
    holds s l d = elim (lookup (canonical_name l) s.complex_rules) [
      | none ↦ false
      | some rules ↦ any (λ rule. rule_matches glob compile rule d) rules
    ]
