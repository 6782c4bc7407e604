-- ===== src/Rule/Bloom.antt =====
-- rule/store_bloom.go: a store that keeps a Bloom filter for each list, and may ask another store
-- about the lists whose filter answers yes.
pub mod Reload
pub mod Loaded
use gudgeon.Prelude.{
  ℕ, List, [], ◌∷◌, Bool, true, false, Option, none, some, ◌≡◌, ◌==◌, if◌then◌else◌,
}
use gudgeon.Prelude.Text.{Text}
use gudgeon.Prelude.Dict.{Dict, lookup, insert}
use gudgeon.Config.Lists.{GudgeonList, canonical_name}
use gudgeon.Util.Domains.{domain_list}
use gudgeon.Rule.Base.{
  Match, Found, no_match, found, BaseStore, add_list, remove_list, two_passes, StoreOps,
}

-- willf/bloom, which is not the repository's: a filter for an estimate of its size, adding a text,
-- and a test that never forgets what was added.
pub record BloomFilter : Type 1 where
  pub Filter : Type 0
  pub new_with_estimates : ℕ → Filter
  pub add_string : Filter → Text → Filter
  pub test_string : Filter → Text → Bool
  pub test-add_self : (f : Filter) (t : Text) → test_string (add_string f t) t ≡ true
  pub test-add_kept :
      (f : Filter) (s t : Text) → test_string f s ≡ true → test_string (add_string f t) s ≡ true

module _ (bloom : BloomFilter) where
  open bloom use {Filter, new_with_estimates, add_string, test_string}

  -- bloomStore; `none` is the nil backing store.
  pub record BloomStore (D : Type 0) : Type 0 where
    pub base : BaseStore
    pub blooms : Dict Filter
    pub backing : Option D
    pub default_rule_count : ℕ

abbrev pub default_rule_count : ℕ
default_rule_count = 1000

-- `lines` is util.LineCount on the file of a list, `none` for its error; `inner` are the methods of
-- the backing store.
module _ (bloom : BloomFilter) (lines : GudgeonList → Option ℕ) {D : Type 0}
    (inner : StoreOps D) where
  open bloom use {Filter, new_with_estimates, add_string, test_string}

  abbrev or_default : ℕ → Option ℕ → ℕ
  or_default n none = n
  or_default n (some count) = count

  -- createBloom: a filter is made only where there is none.
  unfoldable pub create_bloom : GudgeonList → ℕ → Dict Filter → Dict Filter
  create_bloom l n m = elim (lookup (canonical_name l) m) [
    | none ↦ insert (canonical_name l) (new_with_estimates (or_default n (lines l))) m
    | some f ↦ m
  ]

  unfoldable pub create_blooms : List GudgeonList → ℕ → Dict Filter → Dict Filter
  create_blooms [] n m = m
  create_blooms (l ∷ lists) n m = create_blooms lists n (create_bloom l n m)

  unfoldable pub on_backing : (D → D) → Option D → Option D
  on_backing f none = none
  on_backing f (some d) = some (f d)

  -- `if store.defaultRuleCount <= 0` of Init, on an unsigned number
  unfoldable pub rule_count : BloomStore bloom D → ℕ
  rule_count s = if s.default_rule_count == 0 then default_rule_count else s.default_rule_count

  -- Init
  unfoldable pub init : List GudgeonList → BloomStore bloom D → BloomStore bloom D
  unfolding create_blooms on_backing rule_count
  init lists s = record s {
    blooms = create_blooms lists (rule_count s) [];
    backing = on_backing (inner.init lists) s.backing;
    default_rule_count = rule_count s;
  }

  -- Clear: the filter of the list stays as it is.
  unfoldable pub clear : GudgeonList → BloomStore bloom D → BloomStore bloom D
  unfolding create_bloom on_backing
  clear l s = record s {
    base = remove_list (some l) s.base;
    blooms = create_bloom l s.default_rule_count s.blooms;
    backing = on_backing (inner.clear l) s.backing;
  }

  -- Load once the rule is in the filter and the list is registered.
  unfoldable pub load_backing :
      GudgeonList → Text → BloomStore bloom D → Option (BloomStore bloom D)
  load_backing l rule s = elim s.backing [
    | none ↦ some s
    | some d ↦ elim (inner.load l rule d) [
      | none ↦ none
      | some e ↦ some (record s { backing = some e })
    ]
  ]

  -- Load; the method of a missing filter is a call on a nil pointer, a panic.
  unfoldable pub load : GudgeonList → Text → BloomStore bloom D → Option (BloomStore bloom D)
  load l rule s = elim (lookup (canonical_name l) s.blooms) [
    | none ↦ none
    | some f ↦ load_backing l rule (record s {
      base = add_list (some l) s.base;
      blooms =
          if test_string f rule
          then s.blooms
          else insert (canonical_name l) (add_string f rule) s.blooms;
    })
  ]

  -- Finalize
  unfoldable pub finalize : List GudgeonList → BloomStore bloom D → BloomStore bloom D
  unfolding on_backing
  finalize lists s = record s { backing = on_backing (inner.finalize lists) s.backing }

  -- The loop over the domains: some domain that the filter tests.
  unfoldable pub tests_any : Filter → List Text → Bool
  tests_any f [] = false
  tests_any f (d ∷ domains) = if test_string f d then true else tests_any f domains

  -- The answer for a list whose filter answers yes; without a backing store no rule is shown.
  unfoldable pub hit_answer : Option D → Text → Match → GudgeonList → Found
  hit_answer none domain k l = found k l []
  hit_answer (some s) domain k l = inner.find_match (l ∷ []) domain s

  -- The action of FindMatch for one list; the two closures differ in the match that they return.
  unfoldable pub match_action : BloomStore bloom D → Text → Match → GudgeonList → Found
  unfolding tests_any hit_answer
  match_action s domain k l = elim (lookup (canonical_name l) s.blooms) [
    | none ↦ no_match
    | some f ↦
        if tests_any f (domain_list domain) then hit_answer s.backing domain k l else no_match
  ]

  -- FindMatch
  unfoldable pub find_match : List GudgeonList → Text → BloomStore bloom D → Found
  unfolding match_action
  find_match lists domain s = two_passes lists (match_action s domain) s.base

  -- Close
  unfoldable pub close : BloomStore bloom D → BloomStore bloom D
  unfolding on_backing
  close s = record s { blooms = []; backing = on_backing inner.close s.backing }

  unfoldable pub ops : StoreOps (BloomStore bloom D)
  unfolding init load clear finalize find_match close
  ops = record {
    init = init;
    load = load;
    clear = clear;
    finalize = finalize;
    find_match = find_match;
    close = close;
  }
