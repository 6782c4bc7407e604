-- ===== src/Config/Names.antt =====
-- config/config_init.go: how groups, consumers, sources, resolvers and lists come to stand under
-- their names. A list of the configuration holds pointers, and `none` is nil.
pub mod Laws
use gudgeon.Prelude.{
  List, [], ◌∷◌, ◌++◌, Bool, true, false, ◌||◌, Option, none, some, if◌then◌else◌,
}
use gudgeon.Prelude.Text.{Text, codes, same, is_empty, to_lower}
use gudgeon.Prelude.Dict.{Dict, lookup, insert}
use gudgeon.Util.Dns.{is_none}
use gudgeon.Config.Lists.{GudgeonList, canonical_name, verify_and_init}
use gudgeon.Config.Groups.{GudgeonGroup, GudgeonConsumer, GudgeonSource, GudgeonResolver}

abbrev pub default_string : Text
default_string = codes "default"

abbrev pub system_string : Text
system_string = codes "system"

-- What verifying a part gives: the list with what was changed in it, the map and the warnings.
pub record Verified (A : Type 0) : Type 0 where
  pub items : List (Option A)
  pub by_name : Dict A
  pub warnings : List Text

-- An item and warnings put before the rest.
abbrev pub before_rest : {A : Type 0} → Option A → List Text → Verified A → Verified A
before_rest x warnings rest = record {
  items = x ∷ rest.items;
  by_name = rest.by_name;
  warnings = warnings ++ rest.warnings;
}

-- An item put after the others, and under its name.
abbrev pub with_item : {A : Type 0} → Text → A → Verified A → Verified A
with_item name x v = record {
  items = v.items ++ some x ∷ [];
  by_name = insert name x v.by_name;
  warnings = v.warnings;
}

-- The loop that groups and consumers share: an item without a name is left as it is, and the others
-- get their name in lower case and stand under it unless another one does. The format and the name
-- are appended as two warnings.
module _ {A : Type 0} (name : A → Text) (rename : Text → A → A) (unnamed twice : Text) where
  unfoldable pub collect : List (Option A) → Dict A → Verified A
  collect [] m = record { items = []; by_name = m; warnings = [] }
  collect (none ∷ items) m = before_rest none [] (collect items m)
  collect (some x ∷ items) m =
      let lowered = to_lower (name x) in
      let skipped = collect items m in
      let taken = collect items (insert lowered (rename lowered x) m) in
      if is_empty (name x)
      then before_rest (some x) (unnamed ∷ []) skipped
      else if is_none (lookup lowered m)
      then before_rest (some (rename lowered x)) [] taken
      else before_rest (some (rename lowered x)) (twice ∷ lowered ∷ []) skipped

abbrev pub group_name : GudgeonGroup → Text
group_name g = g.name

abbrev pub rename_group : Text → GudgeonGroup → GudgeonGroup
rename_group n g = record g { name = n }

abbrev group_without_name : Text
group_without_name =
    codes
      "A group with no name was found in the configuration, a group with no name will not be used."

abbrev group_twice : Text
group_twice =
    codes
      "More than one group was found with the name '%s', group names are case insensitive and must be unique."

abbrev pub default_group : GudgeonGroup
default_group = record {
  name = default_string;
  inherit = [];
  resolvers = default_string ∷ [];
  lists = [];
  tags = some (default_string ∷ []);
}

-- verifyAndInitGroups
unfoldable pub verify_and_init_groups : List (Option GudgeonGroup) → Verified GudgeonGroup
verify_and_init_groups groups =
    let v = collect group_name rename_group group_without_name group_twice groups [] in
    if is_none (lookup default_string v.by_name)
    then with_item default_string default_group v
    else v

abbrev pub consumer_name : GudgeonConsumer → Text
consumer_name c = c.name

abbrev pub rename_consumer : Text → GudgeonConsumer → GudgeonConsumer
rename_consumer n c = record c { name = n }

abbrev consumer_without_name : Text
consumer_without_name =
    codes
      "A consumer with no name was found in the configuration, a consumer with no name will not be used."

abbrev consumer_twice : Text
consumer_twice =
    codes
      "More than one consumer was found with the name '%s', consumer names are case insensitive and must be unique."

abbrev pub default_consumer : GudgeonConsumer
default_consumer = record {
  name = default_string;
  block = false;
  groups = default_string ∷ [];
  matches = [];
}

-- verifyAndInitConsumers
unfoldable pub verify_and_init_consumers : List (Option GudgeonConsumer) → Verified GudgeonConsumer
verify_and_init_consumers consumers =
    let v =
      collect consumer_name rename_consumer consumer_without_name consumer_twice consumers [] in
    if is_none (lookup default_string v.by_name)
    then with_item default_string default_consumer v
    else v

abbrev source_without_name : Text
source_without_name =
    codes
      "A source with no name was found in the configuration, a source with no name cannot be referenced and will not be used."

abbrev source_twice : Text
source_twice =
    codes
      "More than one source was found with the name '%s', source names are case insensitive and must be unique."

abbrev source_static : Text
source_static = codes "The 'system' source is static and cannot be overridden."

-- The loop of verifyAndInitSources, which goes on with a source that has no name.
unfoldable pub collect_sources :
    List (Option GudgeonSource) → Dict GudgeonSource → Verified GudgeonSource
collect_sources [] m = record { items = []; by_name = m; warnings = [] }
collect_sources (none ∷ items) m = before_rest none [] (collect_sources items m)
collect_sources (some s ∷ items) m =
    let lowered = to_lower s.name in
    let renamed = record s { name = lowered } in
    let skipped = collect_sources items m in
    let taken = collect_sources items (insert lowered renamed m) in
    let unnamed = if is_empty s.name then source_without_name ∷ [] else [] in
    let static = if same system_string lowered then source_static ∷ [] else [] in
    if is_none (lookup lowered m)
    then before_rest (some renamed) (unnamed ++ static) taken
    else before_rest (some renamed) (unnamed ++ source_twice ∷ lowered ∷ []) skipped

-- verifyAndInitSources
unfoldable pub verify_and_init_sources : List (Option GudgeonSource) → Verified GudgeonSource
verify_and_init_sources sources = collect_sources sources []

abbrev resolver_without_name : Text
resolver_without_name =
    codes
      "A resolver with no name was found in the configuration, a resolver with no name will not be used."

abbrev resolver_occluded : Text
resolver_occluded =
    codes
      "A resolver and a source share the name '%s'. Resolvers using '%s' as a spec will target the SOURCE and not the RESOLVER. Consider changing the name of the source to prevent this."

abbrev resolver_twice : Text
resolver_twice =
    codes
      "More than one resolver was found with the name '%s', resolver names are case insensitive and must be unique."

-- A default or system resolver without sources gets the system source.
unfoldable pub conditioned : GudgeonResolver → GudgeonResolver
conditioned r =
    if same system_string r.name || same default_string r.name
    then record r {
      sources = elim r.sources [ [] ↦ system_string ∷ [] | s ∷ sources ↦ s ∷ sources ];
    }
    else r

-- The loop of verifyAndInitResolvers
unfoldable pub collect_resolvers :
    Dict GudgeonSource
    → List (Option GudgeonResolver)
    → Dict GudgeonResolver
    → Verified GudgeonResolver
collect_resolvers sources [] m = record { items = []; by_name = m; warnings = [] }
collect_resolvers sources (none ∷ items) m = before_rest none [] (collect_resolvers sources items m)
collect_resolvers sources (some r ∷ items) m =
    let lowered = to_lower r.name in
    let renamed = record r { name = lowered } in
    let skipped = collect_resolvers sources items m in
    let taken = collect_resolvers sources items (insert lowered (conditioned renamed) m) in
    let occluded =
      if is_none (lookup lowered sources) then [] else resolver_occluded ∷ lowered ∷ lowered ∷ [] in
    if is_empty r.name
    then before_rest (some r) (resolver_without_name ∷ []) skipped
    else if is_none (lookup lowered m)
    then before_rest (some (conditioned renamed)) occluded taken
    else before_rest (some renamed) (occluded ++ resolver_twice ∷ lowered ∷ []) skipped

-- A resolver that the verification adds.
abbrev pub added_resolver : Text → GudgeonResolver
added_resolver name = record {
  name = name;
  domains = [];
  skip_domains = [];
  search = [];
  hosts = [];
  sources = system_string ∷ [];
}

unfoldable pub with_resolver : Text → Verified GudgeonResolver → Verified GudgeonResolver
with_resolver name v =
    if is_none (lookup name v.by_name) then with_item name (added_resolver name) v else v

-- verifyAndInitResolvers
unfoldable pub verify_and_init_resolvers :
    Dict GudgeonSource → List (Option GudgeonResolver) → Verified GudgeonResolver
verify_and_init_resolvers sources resolvers =
    with_resolver default_string
      (with_resolver system_string (collect_resolvers sources resolvers []))

abbrev list_without_source : Text
list_without_source =
    codes
      "A list named %s does not have a source in the configuration, a list with no source will not be used."

abbrev list_without_all : Text
list_without_all =
    codes
      "A list with no source was found in the configuration, a list with no source will not be used."

-- The loop of verifyAndInitLists
unfoldable pub collect_lists : List (Option GudgeonList) → Dict GudgeonList → Verified GudgeonList
unfolding canonical_name verify_and_init
collect_lists [] m = record { items = []; by_name = m; warnings = [] }
collect_lists (none ∷ items) m = before_rest none [] (collect_lists items m)
collect_lists (some l ∷ items) m =
    let ready = verify_and_init l in
    let skipped = collect_lists items m in
    let taken = collect_lists items (insert (canonical_name ready) ready m) in
    if is_empty l.source
    then before_rest (some l)
        (if is_empty (canonical_name l)
          then list_without_all ∷ []
          else list_without_source ∷ canonical_name l ∷ [])
        skipped
    else before_rest (some ready) [] taken

-- verifyAndInitLists
unfoldable pub verify_and_init_lists : List (Option GudgeonList) → Verified GudgeonList
unfolding collect_lists
verify_and_init_lists lists = collect_lists lists []
