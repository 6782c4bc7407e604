-- ===== src/Rule/Memory.antt =====
-- rule/store_memory.go: a store that keeps the rules of each list sorted and searches by halves.
pub mod Sorted
pub mod Content
pub mod Session
use gudgeon.Prelude.{
  ℕ, List, [], ◌∷◌, ◌++◌, Bool, true, false, not, ◌&&◌, Option, none, some, length, get_or, ltb,
  if◌then◌else◌,
}
use gudgeon.Prelude.Text.{Text, to_lower, equal_fold}
use gudgeon.Prelude.Dict.{Dict, lookup, insert}
use gudgeon.Config.Lists.{GudgeonList, canonical_name}
use gudgeon.Util.Domains.{domain_list}
use gudgeon.Rule.Base.{
  Match, Found, no_match, found, BaseStore, add_list, remove_list, two_passes, StoreOps,
}
use gudgeon.Rule.Fold.{FoldOrder}
use gudgeon.Rule.Search.{search}

pub record MemoryStore : Type 0 where
  pub base : BaseStore
  pub rules : Dict (List Text)

-- The loop of Init. The capacity that the source reserves from the line count of the list's file
-- has no effect on the contents.
unfoldable pub init_rules : List GudgeonList → Dict (List Text) → Dict (List Text)
init_rules [] m = m
init_rules (l ∷ lists) m =
    init_rules lists
      (elim (lookup (canonical_name l) m) [ none ↦ insert (canonical_name l) [] m | some rs ↦ m ])

-- Init
unfoldable pub init : List GudgeonList → MemoryStore → MemoryStore
init lists s = record s { rules = init_rules lists [] }

-- Clear
unfoldable pub clear : GudgeonList → MemoryStore → MemoryStore
clear l s = record {
  base = remove_list (some l) s.base;
  rules = insert (canonical_name l) [] s.rules;
}

-- A missing entry of a Go map of slices reads as the nil slice.
unfoldable pub or_empty : Option (List Text) → List Text
or_empty none = []
or_empty (some rs) = rs

-- Load
unfoldable pub load : GudgeonList → Text → MemoryStore → MemoryStore
unfolding or_empty
load l rule s = record {
  base = add_list (some l) s.base;
  rules =
      insert (canonical_name l) (or_empty (lookup (canonical_name l) s.rules) ++ to_lower rule ∷ [])
        s.rules;
}

module _ (order : FoldOrder) where
  open order use {less}

  -- sort.Slice by `less`, here by insertion. Ties are equal rules, since rules are loaded in lower
  -- case, so that the order in which they come out does not matter.
  unfoldable pub insert_sorted : Text → List Text → List Text
  insert_sorted r [] = r ∷ []
  insert_sorted r (t ∷ rs) = if less t r then t ∷ insert_sorted r rs else r ∷ t ∷ rs

  unfoldable pub sort_rules : List Text → List Text
  sort_rules [] = []
  sort_rules (r ∷ rs) = insert_sorted r (sort_rules rs)

  -- Finalize: the loop over the lists, each of whose entries is sorted in place. A missing entry is
  -- the nil slice, which there is nothing to sort in.
  unfoldable pub finalize_rules : List GudgeonList → Dict (List Text) → Dict (List Text)
  finalize_rules [] m = m
  finalize_rules (l ∷ lists) m = finalize_rules lists (elim (lookup (canonical_name l) m) [
    | none ↦ m
    | some rs ↦ insert (canonical_name l) (sort_rules rs) m
  ])

  unfoldable pub finalize : List GudgeonList → MemoryStore → MemoryStore
  finalize lists s = record s { rules = finalize_rules lists s.rules }

  -- foundInList; `none` is the pair of false and "".
  unfoldable pub found_in_list : List Text → Text → Option Text
  found_in_list rules domain =
      let idx = search (length rules) (λ i. not (less (get_or rules i []) domain)) in
      if ltb idx (length rules) && equal_fold (get_or rules idx []) domain
      then some (get_or rules idx [])
      else none

  -- The loop over the domains in FindMatch's two actions.
  unfoldable pub first_found : List Text → List Text → Option Text
  first_found rules [] = none
  first_found rules (d ∷ domains) = elim (found_in_list rules d) [
    | none ↦ first_found rules domains
    | some rule ↦ some rule
  ]

  -- The action of FindMatch for one list; the two closures differ in the match that they return.
  unfoldable pub match_action : Dict (List Text) → List Text → Match → GudgeonList → Found
  match_action m domains k l = elim (lookup (canonical_name l) m) [
    | none ↦ no_match
    | some rules ↦ elim (first_found rules domains) [ none ↦ no_match | some rule ↦ found k l rule ]
  ]

  -- FindMatch
  unfoldable pub find_match : List GudgeonList → Text → MemoryStore → Found
  find_match lists domain s = two_passes lists (match_action s.rules (domain_list domain)) s.base

  -- Close
  unfoldable pub close : MemoryStore → MemoryStore
  close s = record s { rules = [] }

  -- The methods as the interface has them; none of them panics.
  unfoldable pub ops : StoreOps MemoryStore
  unfolding init load clear finalize find_match close
  ops = record {
    init = init;
    load = λ l rule s. some (load l rule s);
    clear = clear;
    finalize = finalize;
    find_match = find_match;
    close = close;
  }
