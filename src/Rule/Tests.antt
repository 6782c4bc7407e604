-- ===== src/Rule/Tests.antt =====
-- Runs of the stores on two small lists.
use gudgeon.Prelude.{All}
use gudgeon.Prelude.{
  ℕ, sym, subst, inl, ◌+◌, ◌*◌, List, [], ◌∷◌, map, Bool, true, false, Option, none, some, ◌≡◌,
  refl, length, any, arith, if◌then◌else◌, ◌↔◌,
}
use gudgeon.Prelude.Text.{
  Text, codes, same, same_refl, is_empty, has_prefix, contains, trim_space, contains_byte,
  ends_with, after_byte, equal_fold, to_lower,
}
use gudgeon.Util.Strings.{trim_comments}
use gudgeon.Rule.Line.{parse_line}
use gudgeon.Util.Domains.{domain_list, domain_loop, last_is, is_nil, sub_domain}
use gudgeon.Config.Lists.{allow, block, canonical_name, GudgeonList}
use gudgeon.Rule.Base.{no_match, empty_base, StoreOps, remove_list, add_list}
use gudgeon.Rule.Spec.{spec_find, Verdict, spec_find-Verdict}
use gudgeon.Rule.Spec.Agree.{Agree}
use gudgeon.Rule.Fold.{less_bytes, lowered_order}
use gudgeon.Rule.Load.{create_store, reload_list}
use gudgeon.Rule.Load.Laws.{rules_in, holds_some, add_all, add_each, same_name, named_in}
use gudgeon.Rule.Memory
use gudgeon.Rule.Memory.{MemoryStore, found_in_list}
use gudgeon.Rule.Memory.Sorted.{found_in_list-any}
use gudgeon.Rule.Memory.Content.{holds, IsReady, Ready}
use gudgeon.Prelude.Dict.{lookup, insert, insert-Entries}
use gudgeon.Rule.Memory.Session as MemorySession
use gudgeon.Rule.Memory.Session.{nothing-Ready, find_match-create_memory, find_match-reload_memory}
use gudgeon.Rule.Hash
use gudgeon.Rule.Hash.{HashStore}
use gudgeon.Rule.Hash.Session as HashSession
use gudgeon.Rule.Hash.Session.{find_match-create_hash, matches}
use gudgeon.Rule.Hash.Agreement.{NoCollision, hash_agrees-memory}
use gudgeon.Rule.Bloom
use gudgeon.Rule.Bloom.{BloomFilter, BloomStore}
use gudgeon.Rule.Bloom.Loaded.{load_list-All}
use gudgeon.Rule.Load.{load_list}
use gudgeon.Rule.Bloom.Reload.{tests, reload_list-keeps_old}
use gudgeon.Rule.Complex
use gudgeon.Rule.Complex.{ComplexStore, ComplexRule, create_complex_rule, panics, wildcard_rule}
use gudgeon.Rule.Complex.Laws
use gudgeon.Rule.Complex.Laws.{create_complex_rule-panics}

-- Two lists, one that blocks and one that allows, and the file that both have.
abbrev ads : GudgeonList
ads = record {
  name = codes "ads";
  short_name = codes "ads";
  type_name = codes "block";
  parsed_type = block;
  regex = some false;
  tags = none;
  source = codes "ads.txt";
}

abbrev safe : GudgeonList
safe = record {
  name = codes "safe";
  short_name = codes "safe";
  type_name = codes "allow";
  parsed_type = allow;
  regex = some false;
  tags = none;
  source = codes "safe.txt";
}

abbrev both : List GudgeonList
both = ads ∷ safe ∷ []

abbrev file : GudgeonList → Option (List Text)
file l = some (codes "AD.com" ∷ codes "# none" ∷ [])

abbrev other : Option (List Text)
other = some (codes "b.org" ∷ [])

find_match-create_memory_example :
    (t : MemoryStore) × (create_store
        (Memory.ops lowered_order)
        file
        both
        (MemorySession.fresh lowered_order)
      ≡ some (t, map (λ l. length (rules_in (file l))) both))
    × (Memory.find_match lowered_order both (codes "x.ad.com") t
        ≡ spec_find
            (holds_some equal_fold (λ l. rules_in (file l)) both)
            (domain_list (codes "x.ad.com"))
            to_lower
            both
            (add_all (λ l. rules_in (file l)) both empty_base))
find_match-create_memory_example =
    find_match-create_memory lowered_order file both both (codes "x.ad.com")

spec_find-Verdict_example :
    Verdict
      (λ l d. equal_fold d (codes "ad.com"))
      (codes "ad.com" ∷ [])
      to_lower
      both
      (add_list (some safe) empty_base)
      (spec_find
        (λ l d. equal_fold d (codes "ad.com"))
        (codes "ad.com" ∷ [])
        to_lower
        both
        (add_list (some safe) empty_base))
spec_find-Verdict_example =
    spec_find-Verdict (λ l d. equal_fold d (codes "ad.com")) (codes "ad.com" ∷ []) to_lower both
      (add_list (some safe) empty_base)

named : named_in both ads ≡ true
unfolding named_in same_name same canonical_name is_empty any
named = refl

-- A memory store that was created from the file, and reloaded from the other one.
abbrev loaded_store : MemoryStore
loaded_store = record {
  base = add_list (some ads) empty_base;
  rules = insert (codes "ads") (codes "ad.com" ∷ []) [];
}

loaded_store-Ready : Ready lowered_order [] loaded_store.rules
unfolding to_lower
loaded_store-Ready =
    insert-Entries (IsReady lowered_order []) (codes "ads") (codes "ad.com" ∷ []) []
      (λ j w n e. nothing-Ready lowered_order j w e) ((refl, tt), inl (tt, tt))

find_match-reload_memory_example :
    (t : MemoryStore) × (reload_list (Memory.ops lowered_order) ads other loaded_store
      ≡ some (t, length (rules_in other)))
    × (Memory.find_match lowered_order both (codes "x.b.org") t
        ≡ spec_find
            (λ k d.
              if same_name ads k
              then any (λ rule. equal_fold rule d) (rules_in other)
              else holds loaded_store k d)
            (domain_list (codes "x.b.org"))
            to_lower
            both
            (add_each ads (rules_in other) (remove_list (some ads) loaded_store.base)))
find_match-reload_memory_example =
    find_match-reload_memory lowered_order both both ads other (codes "x.b.org") loaded_store
      loaded_store-Ready named

found_in_list-any_example :
    found_in_list lowered_order (codes "ab" ∷ codes "b" ∷ codes "cd" ∷ []) (codes "B")
    ≡ some (codes "b")
unfolding less_bytes to_lower any equal_fold
found_in_list-any_example =
    found_in_list-any lowered_order (codes "ab" ∷ codes "b" ∷ codes "cd" ∷ []) (codes "B")
      ((refl, (refl, tt)), ((refl, tt), (tt, tt))) (refl, (refl, (refl, tt)))

-- A sum of the bytes by their places.
abbrev sum : Text → ℕ
sum [] = 0
sum (c ∷ s) = c + 257 * sum s

-- A delegate that does nothing.
abbrev idle : StoreOps (Unit {0})
idle = record {
  init = λ lists s. s;
  load = λ l rule s. some s;
  clear = λ l s. s;
  finalize = λ lists s. s;
  find_match = λ lists domain s. no_match;
  close = λ s. s;
}

find_match-create_hash_example :
    (t : HashStore (Unit {0})) × (create_store
        (Hash.ops sum idle)
        file
        both
        (HashSession.fresh sum idle)
      ≡ some (t, map (λ l. length (rules_in (file l))) both))
    × (Hash.find_match sum idle both (codes "x.ad.com") t
        ≡ spec_find
            (holds_some (matches sum idle) (λ l. rules_in (file l)) both)
            (domain_list (codes "x.ad.com"))
            (λ d. d)
            both
            (add_all (λ l. rules_in (file l)) both empty_base))
find_match-create_hash_example = find_match-create_hash sum idle file both both (codes "x.ad.com")

names : domain_list (codes "x.ad.com") ≡ codes "x.ad.com" ∷ codes "ad.com" ∷ []
unfolding domain_list is_empty trim_space domain_loop same last_is is_nil sub_domain contains_byte
    ends_with after_byte
names = refl

hash_agrees-memory_example :
    (m : MemoryStore) × (h : HashStore (Unit {0})) × (create_store
        (Memory.ops lowered_order)
        file
        both
        (MemorySession.fresh lowered_order)
      ≡ some (m, map (λ l. length (rules_in (file l))) both))
    × (create_store (Hash.ops sum idle) file both (HashSession.fresh sum idle)
        ≡ some (h, map (λ l. length (rules_in (file l))) both))
    × Agree
        (Hash.find_match sum idle both (codes "x.ad.com") h)
        (Memory.find_match lowered_order both (codes "x.ad.com") m)
unfolding rules_in domain_list matches equal_fold to_lower is_empty parse_line contains_byte
    trim_space trim_comments has_prefix contains
hash_agrees-memory_example =
    hash_agrees-memory sum idle lowered_order file both both (codes "x.ad.com") (
      subst (NoCollision sum idle (λ l. rules_in (file l)) both) (sym names)
        (((refl, tt), ((refl, tt), tt)), ((((refl, tt), ((refl, tt), tt))), tt)))

any_self : (t : Text) (f : List Text) → any (same t) (t ∷ f) ≡ true
unfolding any
any_self t f = rw (same_refl t)

any_kept : (s t : Text) (f : List Text) → any (same s) f ≡ true → any (same s) (t ∷ f) ≡ true
unfolding any
any_kept s t f h = ground (arith, h)

-- A filter that remembers the texts themselves.
abbrev exact : BloomFilter
exact = record {
  Filter = List Text;
  new_with_estimates = λ n. [];
  add_string = λ f t. t ∷ f;
  test_string = λ f t. any (same t) f;
  test-add_self = λ f t. any_self t f;
  test-add_kept = λ f s t h. any_kept s t f h;
}

abbrev bloomed : BloomStore exact (Unit {0})
bloomed = record {
  base = empty_base;
  blooms = (codes "ads", codes "ad.com" ∷ []) ∷ [];
  backing = none;
  default_rule_count = 1000;
}

reload_list-keeps_old_example :
    (t : BloomStore exact (Unit {0})) × (n : ℕ) × (reload_list
        (Bloom.ops exact (λ l. none) idle)
        ads
        other
        bloomed
      ≡ some (t, n))
    × (tests exact (λ l. none) idle t ads (codes "ad.com") ≡ true)
    × (t.base ≡ add_each ads (rules_in other) (remove_list (some ads) bloomed.base))
unfolding tests any same lookup canonical_name is_empty
reload_list-keeps_old_example =
    reload_list-keeps_old exact (λ l. none) idle bloomed ads (codes "ad.com") other refl refl

create_complex_rule-panics_example :
    (create_complex_rule (λ pattern text. false) (λ pattern. none) (codes "/x/") ≡ panics)
    ↔ (codes "/x/" ≡ codes "/")
create_complex_rule-panics_example =
    create_complex_rule-panics (λ pattern text. false) (λ pattern. none) (codes "/x/")

abbrev starred : ComplexStore (Unit {0})
starred = record {
  base = add_list (some ads) empty_base;
  backing = some tt;
  complex_rules = (codes "ads", wildcard_rule (codes "*") ∷ []) ∷ [];
}

-- A glob that matches everything, and no expressions.
abbrev all_globs : Text → Text → Bool
all_globs pattern text = true

abbrev no_regex : Text → Option (Text → Bool)
no_regex pattern = none

load_list-All_example :
    (t : BloomStore exact (Unit {0})) × (n : ℕ) × (load_list
        (Bloom.ops exact (λ l. none) idle)
        ads
        other
        bloomed
      ≡ some (t, n))
    × All (λ rule. tests exact (λ l. none) idle t ads rule ≡ true) (rules_in other)
unfolding lookup same canonical_name is_empty
load_list-All_example =
    load_list-All exact (λ l. none) idle bloomed ads other (codes "ad.com" ∷ []) refl refl
