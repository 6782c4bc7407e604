-- ===== src/Engine/Bootstrap.antt =====
-- engine/engine_init.go: the groups and consumers that the bootstrap makes of the configuration.
pub mod Links
pub mod Lookup
use gudgeon.Prelude.{List, [], ◌∷◌, ◌++◌, Bool, true, false, Option, none, some, if◌then◌else◌, any}
use gudgeon.Prelude.Text.{Text, codes, same, is_empty, equal_fold}
use gudgeon.Prelude.Dict.{Dict, insert}
use gudgeon.Util.Strings.{string_in}
use gudgeon.Config.Lists.{GudgeonList, canonical_name, safe_tags}
use gudgeon.Config.Groups.{GudgeonGroup, GudgeonConsumer}
use gudgeon.Engine.Groups.{Group}
use gudgeon.Engine.Consumers.{Consumer}

-- The loop over the tags of a list.
unfoldable pub some_tag : List Text → List Text → Bool
some_tag [] list_tags = false
some_tag (tag ∷ tags) list_tags = if string_in tag list_tags then true else some_tag tags list_tags

-- assignedLists
unfoldable pub assigned_lists : List Text → List Text → List GudgeonList → List GudgeonList
assigned_lists list_names list_tags [] = []
assigned_lists list_names list_tags (l ∷ lists) =
    let should = assigned_lists list_names list_tags lists in
    if string_in l.name list_names
    then l ∷ should
    else if some_tag (safe_tags l.tags) list_tags
    then l ∷ should
    else should

-- The group that the loop over the configured groups makes.
unfoldable pub make_group : List GudgeonList → GudgeonGroup → Group
make_group lists g = record { config = g; lists = assigned_lists g.lists (safe_tags g.tags) lists }

-- That loop: the groups in order, the map of the named ones, and the default group.
unfoldable pub make_groups : List GudgeonList → List GudgeonGroup → List Group
make_groups lists [] = []
make_groups lists (g ∷ groups) = make_group lists g ∷ make_groups lists groups

unfoldable pub group_map : Dict Group → List Group → Dict Group
group_map m [] = m
group_map m (g ∷ groups) =
    group_map (if is_empty g.config.name then m else insert g.config.name g m) groups

unfoldable pub default_group : Option Group → List Group → Option Group
default_group default [] = default
default_group default (g ∷ groups) =
    default_group (if same (codes "default") g.config.name then some g else default) groups

-- The test for a list whose canonical name is among a consumer's.
unfoldable pub list_found : GudgeonList → List GudgeonList → Bool
list_found new [] = false
list_found new (current ∷ lists) =
    if same (canonical_name current) (canonical_name new) then true else list_found new lists

-- The loop that adds the lists of a group to those of a consumer.
unfoldable pub add_lists : List GudgeonList → List GudgeonList → List GudgeonList
add_lists lists [] = lists
add_lists lists (new ∷ group_lists) =
    add_lists (if list_found new lists then lists else lists ++ (new ∷ [])) group_lists

-- A consumer linked to one group whose name it has.
unfoldable pub link : Group → Consumer → Consumer
link g c = record c {
  group_names = c.group_names ++ (g.config.name ∷ []);
  resolver_names = c.resolver_names ++ g.config.resolvers;
  lists = add_lists c.lists g.lists;
}

-- The loop that links a consumer to the groups.
unfoldable pub link_all : List Group → Consumer → Consumer
link_all [] c = c
link_all (g ∷ groups) c =
    link_all groups (if string_in g.config.name c.config.groups then link g c else c)

-- The consumer that the loop over the configured consumers makes.
unfoldable pub make_consumer : List Group → GudgeonConsumer → Consumer
make_consumer groups c =
    link_all groups (record { config = c; group_names = []; resolver_names = []; lists = [] })

-- That loop: the consumers in order, the map of the named ones, and the default consumer.
unfoldable pub make_consumers : List Group → List GudgeonConsumer → List Consumer
make_consumers groups [] = []
make_consumers groups (c ∷ consumers) = make_consumer groups c ∷ make_consumers groups consumers

unfoldable pub consumer_map : Dict Consumer → List Consumer → Dict Consumer
consumer_map m [] = m
consumer_map m (c ∷ consumers) =
    consumer_map (if is_empty c.config.name then m else insert c.config.name c m) consumers

unfoldable pub default_consumer : Option Consumer → List Consumer → Option Consumer
default_consumer default [] = default
default_consumer default (c ∷ consumers) =
    default_consumer (if equal_fold c.config.name (codes "default") then some c else default)
      consumers

-- What the bootstrap makes of the groups and consumers of a configuration.
pub record Engine : Type 0 where
  pub groups : Dict Group
  pub default_group_of : Option Group
  pub consumers : List Consumer
  pub consumers_by_name : Dict Consumer
  pub default_consumer_of : Option Consumer

unfoldable pub bootstrap : List GudgeonList → List GudgeonGroup → List GudgeonConsumer → Engine
bootstrap lists config_groups config_consumers =
    let groups = make_groups lists config_groups in
    let consumers = make_consumers groups config_consumers in
    record {
      groups = group_map [] groups;
      default_group_of = default_group none groups;
      consumers = consumers;
      consumers_by_name = consumer_map [] consumers;
      default_consumer_of = default_consumer none consumers;
    }
