-- ===== src/Rule/Hash.antt =====
-- rule/store_hash.go and rule/store_hash32.go: a store that keeps a set of hashes for each list, and
-- may ask another store about the lists in which it finds one. The two files are one program at two
-- widths of the hash.
pub mod Session
pub mod Agreement
use gudgeon.Prelude.{
  ℕ, List, [], ◌∷◌, Bool, true, false, Option, none, some, any, ◌==◌, if◌then◌else◌,
}
use gudgeon.Prelude.Text.{Text, to_lower}
use gudgeon.Prelude.Dict.{Dict, lookup, insert}
use gudgeon.Config.Lists.{GudgeonList, canonical_name}
use gudgeon.Util.Domains.{domain_list}
use gudgeon.Rule.Base.{
  Match, Found, no_match, found, BaseStore, add_list, remove_list, two_passes, StoreOps,
}

-- hashStore; `none` is the nil delegate.
pub record HashStore (D : Type 0) : Type 0 where
  pub base : BaseStore
  pub hashes : Dict (List ℕ)
  pub delegate : Option D

-- A member of a set of hashes.
unfoldable pub has_hash : List ℕ → ℕ → Bool
unfolding any
has_hash set h = any (λ x. x == h) set

unfoldable pub add_hash : ℕ → List ℕ → List ℕ
add_hash h set = if has_hash set h then set else h ∷ set

-- The loop of Init over the lists.
unfoldable pub init_hashes : List GudgeonList → Dict (List ℕ) → Dict (List ℕ)
init_hashes [] m = m
init_hashes (l ∷ lists) m =
    init_hashes lists
      (elim (lookup (canonical_name l) m) [ none ↦ insert (canonical_name l) [] m | some set ↦ m ])

-- `sum` is murmur3's StringSum64 or StringSum32, which is not the repository's; `inner` are the
-- methods of the delegate.
module _ (sum : Text → ℕ) {D : Type 0} (inner : StoreOps D) where
  -- A call of a method of the delegate, if there is one.
  unfoldable pub on_delegate : (D → D) → Option D → Option D
  on_delegate f none = none
  on_delegate f (some d) = some (f d)

  -- Init
  unfoldable pub init : List GudgeonList → HashStore D → HashStore D
  unfolding on_delegate
  init lists s = record s {
    hashes = init_hashes lists [];
    delegate = on_delegate (inner.init lists) s.delegate;
  }

  -- Clear
  unfoldable pub clear : GudgeonList → HashStore D → HashStore D
  unfolding on_delegate
  clear l s = record {
    base = remove_list (some l) s.base;
    hashes = insert (canonical_name l) [] s.hashes;
    delegate = on_delegate (inner.clear l) s.delegate;
  }

  -- Load once the hash is in its set and the list is registered.
  unfoldable pub load_delegate : GudgeonList → Text → HashStore D → Option (HashStore D)
  load_delegate l rule s = elim s.delegate [
    | none ↦ some s
    | some d ↦ elim (inner.load l rule d) [
      | none ↦ none
      | some e ↦ some (record s { delegate = some e })
    ]
  ]

  -- Load; a write to the set of a list that was not initialised is a write to a nil map, a panic.
  unfoldable pub load : GudgeonList → Text → HashStore D → Option (HashStore D)
  unfolding load_delegate add_hash
  load l rule s = elim (lookup (canonical_name l) s.hashes) [
    | none ↦ none
    | some set ↦ load_delegate l rule (record s {
      base = add_list (some l) s.base;
      hashes = insert (canonical_name l) (add_hash (sum (to_lower rule)) set) s.hashes;
    })
  ]

  -- Finalize
  unfoldable pub finalize : List GudgeonList → HashStore D → HashStore D
  unfolding on_delegate
  finalize lists s = record s { delegate = on_delegate (inner.finalize lists) s.delegate }

  -- The loop over the domain hashes: the first domain whose hash is in the set.
  unfoldable pub first_hash : List ℕ → List Text → Option Text
  unfolding has_hash
  first_hash set [] = none
  first_hash set (d ∷ domains) =
      if has_hash set (sum (to_lower d)) then some d else first_hash set domains

  -- The answer for a list with a hit: the delegate's about this list alone, if there is one.
  unfoldable pub hit_answer : Option D → Text → Match → GudgeonList → Text → Found
  hit_answer none domain k l d = found k l d
  hit_answer (some s) domain k l d = inner.find_match (l ∷ []) domain s

  -- The action of FindMatch for one list; the two closures differ in the match that they return.
  unfoldable pub match_action : HashStore D → Text → Match → GudgeonList → Found
  unfolding first_hash hit_answer
  match_action s domain k l = elim (lookup (canonical_name l) s.hashes) [
    | none ↦ no_match
    | some set ↦ elim (first_hash set (domain_list domain)) [
      | none ↦ no_match
      | some d ↦ hit_answer s.delegate domain k l d
    ]
  ]

  -- FindMatch
  unfoldable pub find_match : List GudgeonList → Text → HashStore D → Found
  unfolding match_action
  find_match lists domain s = two_passes lists (match_action s domain) s.base

  -- Close
  unfoldable pub close : HashStore D → HashStore D
  unfolding on_delegate
  close s = record s { hashes = []; delegate = on_delegate inner.close s.delegate }

  unfoldable pub ops : StoreOps (HashStore D)
  unfolding init load clear finalize find_match close
  ops = record {
    init = init;
    load = load;
    clear = clear;
    finalize = finalize;
    find_match = find_match;
    close = close;
  }
