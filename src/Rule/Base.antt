-- ===== src/Rule/Base.antt =====
-- rule/store.go: matches, the base of every store, and the interface of a store.
use gudgeon.Prelude.{List, [], ◌∷◌, Bool, true, false, Option, none, some, if◌then◌else◌}
use gudgeon.Prelude.Text.{Text, is_empty}
use gudgeon.Prelude.Dict.{Dict, lookup, insert, delete}
use gudgeon.Config.Lists.{ListType, allow, block, GudgeonList, short_name_of}

-- Match
pub data Match : Type 0 where
  match_none match_block match_allow : Match

-- The three results of FindMatch; `none` is the nil list.
pub record Found : Type 0 where
  pub match : Match
  pub list : Option GudgeonList
  pub rule : Text

abbrev pub no_match : Found
no_match = record { match = match_none; list = none; rule = [] }

abbrev pub found : Match → GudgeonList → Text → Found
found m l rule = record { match = m; list = some l; rule = rule }

-- `MatchNone != m`
unfoldable pub is_match : Match → Bool
is_match match_none = false
is_match match_block = true
is_match match_allow = true

-- baseStore: the map from types to maps from short names to lists. `none` is a type that the outer
-- map does not hold, so the nil outer map holds neither.
pub record BaseStore : Type 0 where
  pub allowed : Option (Dict GudgeonList)
  pub blocked : Option (Dict GudgeonList)

abbrev pub empty_base : BaseStore
empty_base = record { allowed = none; blocked = none }

-- `baseStore.lists[t]`
unfoldable pub of_type : ListType → BaseStore → Option (Dict GudgeonList)
of_type allow b = b.allowed
of_type block b = b.blocked

unfoldable pub set_type : ListType → Dict GudgeonList → BaseStore → BaseStore
set_type allow m b = record b { allowed = some m }
set_type block m b = record b { blocked = some m }

-- The inner map, made when it is missing.
unfoldable pub or_made : Option (Dict GudgeonList) → Dict GudgeonList
or_made none = []
or_made (some m) = m

-- addList
unfoldable pub add_list : Option GudgeonList → BaseStore → BaseStore
unfolding of_type set_type or_made
add_list none b = b
add_list (some l) b =
    set_type l.parsed_type (insert (short_name_of l) l (or_made (of_type l.parsed_type b))) b

-- removeList
unfoldable pub remove_list : Option GudgeonList → BaseStore → BaseStore
unfolding of_type set_type
remove_list none b = b
remove_list (some l) b = elim (of_type l.parsed_type b) [
  | none ↦ b
  | some m ↦ set_type l.parsed_type (delete (short_name_of l) m) b
]

-- The loop of matchForEachOfTypeIn over the given lists; `m` is the inner map.
unfoldable pub match_loop : Dict GudgeonList → List GudgeonList → (GudgeonList → Found) → Found
match_loop m [] action = no_match
match_loop m (v ∷ lists) action =
    let rest = match_loop m lists action in
    elim (lookup (short_name_of v) m) [
      | none ↦ rest
      | some l ↦ if is_match (action l).match then action l else rest
    ]

-- matchForEachOfTypeIn, with an action that is not nil. The list type that the source hands to the
-- action is left out, since no action reads it.
unfoldable pub match_for_each_of_type_in :
    ListType → List GudgeonList → (GudgeonList → Found) → BaseStore → Found
unfolding of_type match_loop
match_for_each_of_type_in t [] action b = no_match
match_for_each_of_type_in t (v ∷ lists) action b = elim (of_type t b) [
  | none ↦ no_match
  | some m ↦ match_loop m (v ∷ lists) action
]

-- The two passes that every FindMatch makes: first over the lists that allow, and, where that
-- finds nothing, over those that block.
unfoldable pub two_passes : List GudgeonList → (Match → GudgeonList → Found) → BaseStore → Found
two_passes lists action b =
    let first = match_for_each_of_type_in allow lists (action match_allow) b in
    if is_match first.match
    then first
    else match_for_each_of_type_in block lists (action match_block) b

-- Store: the methods of a store over its state `S`. A `load` of `none` is a panic.
pub record StoreOps (S : Type 0) : Type 0 where
  pub init : List GudgeonList → S → S
  pub load : GudgeonList → Text → S → Option S
  pub clear : GudgeonList → S → S
  pub finalize : List GudgeonList → S → S
  pub find_match : List GudgeonList → Text → S → Found
  pub close : S → S

unfoldable pub or_else : Option GudgeonList → Option GudgeonList → Option GudgeonList
or_else none o = o
or_else (some l) o = some l

-- getList: the name is looked for in both maps, in the order in which Go ranges over the outer map,
-- which is not fixed; `allow_first` says which order this is.
unfoldable pub get_list : Bool → Text → BaseStore → Option GudgeonList
unfolding or_made or_else
get_list allow_first name b =
    let allowed = lookup name (or_made b.allowed) in
    let blocked = lookup name (or_made b.blocked) in
    if is_empty name
    then none
    else if allow_first
    then or_else allowed blocked
    else or_else blocked allowed

-- The lists that forEachOfTypeIn hands to its action, in order; their number is what it returns.
unfoldable pub listed_in : Dict GudgeonList → List GudgeonList → List GudgeonList
listed_in m [] = []
listed_in m (v ∷ lists) =
    let rest = listed_in m lists in
    elim (lookup (short_name_of v) m) [ none ↦ rest | some l ↦ l ∷ rest ]

-- forEachOfTypeIn, as the lists of its calls
unfoldable pub for_each_of_type_in : ListType → List GudgeonList → BaseStore → List GudgeonList
unfolding of_type listed_in
for_each_of_type_in t lists b = elim (of_type t b) [ none ↦ [] | some m ↦ listed_in m lists ]

-- forEachIn, as the lists of its calls, where every range takes the same order
unfoldable pub for_each_in : Bool → List GudgeonList → BaseStore → List GudgeonList
unfolding get_list
for_each_in allow_first [] b = []
for_each_in allow_first (v ∷ lists) b =
    let rest = for_each_in allow_first lists b in
    elim (get_list allow_first (short_name_of v) b) [ none ↦ rest | some l ↦ l ∷ rest ]
