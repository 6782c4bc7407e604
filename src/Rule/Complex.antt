-- ===== src/Rule/Complex.antt =====
-- rule/rule_complex.go and rule/store_complex.go: the rules with wildcards and expressions, and the
-- store that keeps them in front of the one that was chosen.
pub mod Laws
pub mod Plain
use gudgeon.Prelude.{
  List, [], ◌∷◌, ◌++◌, Bool, true, false, ◌&&◌, Option, none, some, if◌then◌else◌,
}
use gudgeon.Prelude.Text.{Text, contains, has_prefix, has_suffix}
use gudgeon.Prelude.Dict.{Dict, lookup, insert}
use gudgeon.Config.Lists.{GudgeonList, canonical_name}
use gudgeon.Rule.Line.{rule_regex, rule_glob, is_complex}
use gudgeon.Rule.Base.{
  Match, Found, no_match, found, is_match, BaseStore, add_list, remove_list, two_passes, StoreOps,
}

-- ComplexRule: its two implementations; a compiled expression is its MatchString.
pub data ComplexRule : Type 0 where
  wildcard_rule : Text → ComplexRule
  regex_rule : Text → (Text → Bool) → ComplexRule

-- What making a rule comes to: a panic, nil, or a rule.
pub data Made : Type 0 where
  panics no_rule : Made
  made : ComplexRule → Made

-- The text without its last byte.
unfoldable pub drop_last : Text → Text
drop_last [] = []
drop_last (c ∷ []) = []
drop_last (c ∷ d ∷ s) = c ∷ drop_last (d ∷ s)

-- complexStore; `none` is the nil backing store.
pub record ComplexStore (D : Type 0) : Type 0 where
  pub base : BaseStore
  pub backing : Option D
  pub complex_rules : Dict (List ComplexRule)

-- `glob` is go-glob's Glob, and `compile` the standard library's regexp.Compile with the MatchString
-- of its result.
module _ (glob : Text → Text → Bool) (compile : Text → Option (Text → Bool)) where
  -- specifyRegexOnlyRule
  unfoldable pub specify_regex_only_rule : Text → Made
  specify_regex_only_rule rule = elim (compile rule) [
    | none ↦ no_rule
    | some m ↦ made (regex_rule rule m)
  ]

  -- createRegexMatchRule: `rule[1 : len(rule)-1]` is out of range for a text of one byte.
  unfoldable pub create_regex_match_rule : Text → Made
  unfolding specify_regex_only_rule
  create_regex_match_rule [] = panics
  create_regex_match_rule (c ∷ []) = panics
  create_regex_match_rule (c ∷ d ∷ s) = specify_regex_only_rule (drop_last (d ∷ s))

  -- createWildcardMatchRule
  unfoldable pub create_wildcard_match_rule : Text → Made
  create_wildcard_match_rule rule = made (wildcard_rule rule)

  -- createComplexRule
  unfoldable pub create_complex_rule : Text → Made
  unfolding create_regex_match_rule create_wildcard_match_rule
  create_complex_rule rule =
      if has_prefix rule rule_regex && has_suffix rule rule_regex
      then create_regex_match_rule rule
      else if contains rule rule_glob
      then create_wildcard_match_rule rule
      else no_rule

  -- Text
  unfoldable pub rule_text : ComplexRule → Text
  rule_text (wildcard_rule t) = t
  rule_text (regex_rule t m) = t

  -- IsMatch of either implementation
  unfoldable pub rule_matches : ComplexRule → Text → Bool
  rule_matches (wildcard_rule t) sample = glob t sample
  rule_matches (regex_rule t m) sample = m sample

  module _ {D : Type 0} (inner : StoreOps D) where
    -- The loop of Init over the lists.
    unfoldable pub init_rules : List GudgeonList → Dict (List ComplexRule) → Dict (List ComplexRule)
    init_rules [] m = m
    init_rules (l ∷ lists) m =
        init_rules lists (elim (lookup (canonical_name l) m) [
          | none ↦ insert (canonical_name l) [] m
          | some rs ↦ m
        ])

    unfoldable pub on_backing : (D → D) → Option D → Option D
    on_backing f none = none
    on_backing f (some d) = some (f d)

    -- Init
    unfoldable pub init : List GudgeonList → ComplexStore D → ComplexStore D
    unfolding init_rules on_backing
    init lists s = record s {
      complex_rules = init_rules lists [];
      backing = on_backing (inner.init lists) s.backing;
    }

    -- Clear
    unfoldable pub clear : GudgeonList → ComplexStore D → ComplexStore D
    unfolding on_backing
    clear l s = record {
      base = remove_list (some l) s.base;
      complex_rules = insert (canonical_name l) [] s.complex_rules;
      backing = on_backing (inner.clear l) s.backing;
    }

    abbrev or_none : Option (List ComplexRule) → List ComplexRule
    or_none none = []
    or_none (some rs) = rs

    -- Appending what was made to the rules of the list, nothing for nil.
    unfoldable pub keep_rule : GudgeonList → Made → ComplexStore D → Option (ComplexStore D)
    keep_rule l panics s = none
    keep_rule l no_rule s = some s
    keep_rule l (made rule) s = some (record s {
      complex_rules =
          insert (canonical_name l)
            (or_none (lookup (canonical_name l) s.complex_rules) ++ rule ∷ []) s.complex_rules;
    })

    unfoldable pub load_backing : GudgeonList → Text → ComplexStore D → Option (ComplexStore D)
    load_backing l rule s = elim s.backing [
      | none ↦ some s
      | some d ↦ elim (inner.load l rule d) [
        | none ↦ none
        | some e ↦ some (record s { backing = some e })
      ]
    ]

    -- `list.Regex != nil && *list.Regex`
    unfoldable pub regex_only : GudgeonList → Bool
    regex_only l = elim l.regex [ none ↦ false | some b ↦ b ]

    -- The last line of Load.
    unfoldable pub register : GudgeonList → Option (ComplexStore D) → Option (ComplexStore D)
    register l none = none
    register l (some s) = some (record s { base = add_list (some l) s.base })

    -- Load
    unfoldable pub load : GudgeonList → Text → ComplexStore D → Option (ComplexStore D)
    unfolding keep_rule load_backing regex_only register
    load l rule s = register l (
        if regex_only l
        then keep_rule l (specify_regex_only_rule rule) s
        else if is_complex rule
        then keep_rule l (create_complex_rule rule) s
        else load_backing l rule s)

    -- Finalize
    unfoldable pub finalize : List GudgeonList → ComplexStore D → ComplexStore D
    unfolding on_backing
    finalize lists s = record s { backing = on_backing (inner.finalize lists) s.backing }

    -- The loop over the rules of a list.
    unfoldable pub first_match : List ComplexRule → Text → Match → GudgeonList → Found
    unfolding rule_matches rule_text
    first_match [] domain k l = no_match
    first_match (rule ∷ rules) domain k l =
        if rule_matches rule domain
        then found k l (rule_text rule)
        else first_match rules domain k l

    -- The action of FindMatch for one list; the two closures differ in the match that they return.
    unfoldable pub match_action : ComplexStore D → Text → Match → GudgeonList → Found
    unfolding first_match
    match_action s domain k l = elim (lookup (canonical_name l) s.complex_rules) [
      | none ↦ no_match
      | some rules ↦ first_match rules domain k l
    ]

    -- FindMatch
    unfoldable pub find_match : List GudgeonList → Text → ComplexStore D → Found
    unfolding match_action
    find_match lists domain s =
        let r = two_passes lists (match_action s domain) s.base in
        if is_match r.match
        then r
        else elim s.backing [ none ↦ no_match | some d ↦ inner.find_match lists domain d ]

    -- Close does nothing.
    unfoldable pub close : ComplexStore D → ComplexStore D
    close s = s

    unfoldable pub ops : StoreOps (ComplexStore D)
    unfolding init load clear finalize find_match close
    ops = record {
      init = init;
      load = load;
      clear = clear;
      finalize = finalize;
      find_match = find_match;
      close = close;
    }
