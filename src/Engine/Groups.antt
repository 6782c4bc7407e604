-- ===== src/Engine/Groups.antt =====
-- engine/engine.go: groups, the rules that apply to them and to a consumer, and what handling a request
-- returns.
use gudgeon.Prelude.{List, [], ◌∷◌, ◌++◌, Bool, false, Option, none, some, if◌then◌else◌}
use gudgeon.Prelude.Text.{Text, ends_with}
use gudgeon.Prelude.Dict.{Dict, lookup}
use gudgeon.Util.Domains.{dot, without_last}
use gudgeon.Config.Lists.{GudgeonList}
use gudgeon.Config.Groups.{GudgeonGroup}
use gudgeon.Rule.Base.{Match, match_none, Found, no_match}
use gudgeon.Engine.Consumers.{Consumer}

-- group, less its pointer to the engine
pub record Group : Type 0 where
  pub config : GudgeonGroup
  pub lists : List GudgeonList

-- ResolutionResult, less its message
pub record Result : Type 0 where
  pub cached : Bool
  pub consumer : Text
  pub source : Text
  pub resolver : Text
  pub blocked : Bool
  pub match : Match
  pub match_list : Option GudgeonList
  pub match_rule : Text

abbrev pub empty_result : Result
empty_result = record {
  cached = false;
  consumer = [];
  source = [];
  resolver = [];
  blocked = false;
  match = match_none;
  match_list = none;
  match_rule = [];
}

-- What handling comes to: an answer, a panic, or no end within the fuel.
pub data Handled (A : Type 0) : Type 0 where
  handled : A → Handled A
  panics : Handled A
  endless : Handled A

infixl 5 ◌>>=◌
abbrev pub ◌>>=◌ : {A B : Type 0} → Handled A → (A → Handled B) → Handled B
handled x >>= f = f x
panics >>= f = panics
endless >>= f = endless

-- The lists of the groups that are found, in the order of their names.
unfoldable pub lists_of : Dict Group → List Text → List GudgeonList
lists_of groups [] = []
lists_of groups (g ∷ names) =
    let rest = lists_of groups names in
    elim (lookup g groups) [ none ↦ rest | some group ↦ group.lists ++ rest ]

-- The resolvers of the groups that are found, in the order of their names.
unfoldable pub resolvers_of : Dict Group → List Text → List Text
resolvers_of groups [] = []
resolvers_of groups (g ∷ names) =
    let rest = resolvers_of groups names in
    elim (lookup g groups) [ none ↦ rest | some group ↦ group.config.resolvers ++ rest ]

-- domainRuleMatchForLists; `none` is the nil store, and FindMatch is that of the store as it is.
unfoldable pub match_lists :
    Option (List GudgeonList → Text → Found) → List GudgeonList → Text → Found
match_lists none lists name = no_match
match_lists (some find) [] name = no_match
match_lists (some find) (l ∷ lists) name =
    find (l ∷ lists) (if ends_with dot name then without_last name else name)

-- domainRuleMatchedForGroups
unfoldable pub match_groups :
    Option (List GudgeonList → Text → Found) → Dict Group → List Text → Text → Found
unfolding match_lists lists_of
match_groups find groups [] name = no_match
match_groups find groups (g ∷ names) name = match_lists find (lists_of groups (g ∷ names)) name

-- domainRuleMatchedForConsumer
unfoldable pub match_consumer :
    Option (List GudgeonList → Text → Found) → Option Consumer → Text → Found
unfolding match_lists
match_consumer find none name = no_match
match_consumer find (some c) name = match_lists find c.lists name
