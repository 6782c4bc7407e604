-- ===== src/Config/Init.antt =====
-- config/config.go and config/config_init.go: the configuration as a whole, its verification and its
-- loading.
use gudgeon.Prelude.{List, [], ◌∷◌, ◌++◌, true, Option, none, some, if◌then◌else◌}
use gudgeon.Prelude.Text.{Text, codes, is_empty}
use gudgeon.Prelude.Dict.{Dict, lookup}
use gudgeon.Util.Time.{pos, Parsed}
use gudgeon.Config.Lists.{GudgeonList}
use gudgeon.Config.Groups.{GudgeonGroup, GudgeonConsumer, GudgeonSource, GudgeonResolver}
use gudgeon.Config.Names.{
  verify_and_init_groups, verify_and_init_consumers, verify_and_init_sources,
  verify_and_init_resolvers, verify_and_init_lists,
}
use gudgeon.Config.Settings.{
  GudgeonStorage, GudgeonSystemd, GudgeonDatabase, GudgeonQueryLog, GudgeonMetrics, GudgeonNetwork,
  GudgeonWeb, verify_storage, verify_systemd, verify_network, verify_web, verify_database,
  verify_metrics, verify_query_log,
}

-- GudgeonConfig
pub record GudgeonConfig : Type 0 where
  pub home : Text
  pub systemd : Option GudgeonSystemd
  pub storage : Option GudgeonStorage
  pub database : Option GudgeonDatabase
  pub metrics : Option GudgeonMetrics
  pub query_log : Option GudgeonQueryLog
  pub network : Option GudgeonNetwork
  pub web : Option GudgeonWeb
  pub sources : List (Option GudgeonSource)
  pub resolvers : List (Option GudgeonResolver)
  pub lists : List (Option GudgeonList)
  pub groups : List (Option GudgeonGroup)
  pub consumers : List (Option GudgeonConsumer)
  pub source_map : Dict GudgeonSource
  pub resolver_map : Dict GudgeonResolver
  pub list_map : Dict GudgeonList
  pub group_map : Dict GudgeonGroup
  pub consumer_map : Dict GudgeonConsumer

-- A pointer's value, and another one where it is nil.
unfoldable pub or_value : {A : Type 0} → Option A → A → A
or_value none y = y
or_value (some x) y = x

-- The home that is configured, and otherwise the one of the user, if there is a user.
unfoldable pub home_or : Option Text → Text → Text
home_or user_home home =
    if is_empty home then elim user_home [ none ↦ codes "./.gudgeon" | some path ↦ path ] else home

abbrev home_warning : Text → Text
home_warning home =
    codes "No home directory configured, using '" ++ home ++ codes "' for Gudgeon home"

-- The parts that stand for those that are not configured.
abbrev default_storage : GudgeonStorage
default_storage = record { rule_storage = codes "memory"; cache_enabled = some true }

abbrev default_systemd : GudgeonSystemd
default_systemd = record { enabled = none; dns_ports = none; http_ports = none }

abbrev default_network : GudgeonNetwork
default_network = record {
  tls = none;
  tcp = none;
  udp = none;
  interfaces =
      record { ip = codes "127.0.0.1"; port = pos 5354; tcp = none; udp = none; tls = none } ∷ [];
}

abbrev default_web : GudgeonWeb
default_web = record { enabled = true; address = []; port = pos 0 }

abbrev default_database : GudgeonDatabase
default_database = record { flush = codes "1s" }

abbrev default_metrics : GudgeonMetrics
default_metrics = record {
  enabled = none;
  persist = none;
  detailed = none;
  duration = [];
  interval = [];
}

abbrev default_query_log : GudgeonQueryLog
default_query_log = record {
  enabled = none;
  persist = none;
  duration = [];
  stdout = none;
  file = [];
  reverse_lookup = none;
  mdns_lookup = none;
  netbios_lookup = none;
}

-- config.verifyAndInit, with the home of the user below which the program's own is, and with the
-- warnings. No part gives an error, and the warnings of the query log are not kept.
unfoldable pub verify_and_init :
    (Text → Parsed) → Option Text → GudgeonConfig → GudgeonConfig × List Text
verify_and_init parse user_home config =
    let home = home_or user_home config.home in
    let (database, flushed) = verify_database parse (or_value config.database default_database) in
    let (metrics, measured) = verify_metrics parse (or_value config.metrics default_metrics) in
    let (query_log, _) = verify_query_log parse (or_value config.query_log default_query_log) in
    let groups = verify_and_init_groups config.groups in
    let consumers = verify_and_init_consumers config.consumers in
    let sources = verify_and_init_sources config.sources in
    let resolvers = verify_and_init_resolvers sources.by_name config.resolvers in
    let lists = verify_and_init_lists config.lists in
    let homeless = if is_empty config.home then home_warning home ∷ [] else [] in
    (
      record {
        home = home;
        systemd = some (verify_systemd (or_value config.systemd default_systemd));
        storage = some (verify_storage (or_value config.storage default_storage));
        database = some database;
        metrics = some metrics;
        query_log = some query_log;
        network = some (verify_network (or_value config.network default_network));
        web = some (verify_web (or_value config.web default_web));
        sources = sources.items;
        resolvers = resolvers.items;
        lists = lists.items;
        groups = groups.items;
        consumers = consumers.items;
        source_map = sources.by_name;
        resolver_map = resolvers.by_name;
        list_map = lists.by_name;
        group_map = groups.by_name;
        consumer_map = consumers.by_name;
      },
      homeless ++ flushed ++ measured ++ groups.warnings ++ consumers.warnings ++ sources.warnings
          ++ resolvers.warnings ++ lists.warnings,
    )

-- GetResolver, GetList, GetGroup, GetConsumer
unfoldable pub get_resolver : Text → GudgeonConfig → Option GudgeonResolver
get_resolver name config = lookup name config.resolver_map

unfoldable pub get_list : Text → GudgeonConfig → Option GudgeonList
get_list name config = lookup name config.list_map

unfoldable pub get_group : Text → GudgeonConfig → Option GudgeonGroup
get_group name config = lookup name config.group_map

unfoldable pub get_consumer : Text → GudgeonConfig → Option GudgeonConsumer
get_consumer name config = lookup name config.consumer_map

abbrev pub empty_config : GudgeonConfig
empty_config = record {
  home = [];
  systemd = none;
  storage = none;
  database = none;
  metrics = none;
  query_log = none;
  network = none;
  web = none;
  sources = [];
  resolvers = [];
  lists = [];
  groups = [];
  consumers = [];
  source_map = [];
  resolver_map = [];
  list_map = [];
  group_map = [];
  consumer_map = [];
}

-- What reading and unmarshalling a file gives: an error, or the configuration of its root, which may
-- be nil.
pub data File : Type 0 where
  unreadable malformed : Text → File
  unmarshalled : Option GudgeonConfig → File

-- What Load returns: an error, or a configuration with warnings.
pub data Loaded : Type 0 where
  refused : Text → Loaded
  loaded : GudgeonConfig → List Text → Loaded

abbrev no_file : Text
no_file = codes "No file provided with '-c' flag, using configuration defaults..."

-- The end of Load
unfoldable pub finish_load :
    (Text → Parsed) → Option Text → List Text → Option GudgeonConfig → Loaded
finish_load parse user_home warnings none = refused (codes "Loaded a nil configuration")
finish_load parse user_home warnings (some config) =
    let (verified, more) = verify_and_init parse user_home config in
    loaded verified (warnings ++ more)

-- Load
unfoldable pub load : (Text → Parsed) → Option Text → (Text → File) → Text → Loaded
unfolding finish_load
load parse user_home read filename =
    if is_empty filename
    then finish_load parse user_home (no_file ∷ []) (some empty_config)
    else elim (read filename) [
      | unreadable e ↦ refused (codes "Load file '" ++ filename ++ codes "', error: " ++ e)
      | malformed e ↦ refused (codes "Unmarshaling file '" ++ filename ++ codes "', error: " ++ e)
      | unmarshalled config ↦ finish_load parse user_home [] config
    ]
