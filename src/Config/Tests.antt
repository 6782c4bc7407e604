-- ===== src/Config/Tests.antt =====
-- Runs of the verification on small configurations.
use gudgeon.Prelude.{◌*◌, List, [], ◌∷◌, Option, none, some, ◌≡◌, ◌≢◌, refl, arith, if◌then◌else◌}
use gudgeon.Prelude.Text.{Text, codes, same, is_empty, to_lower}
use gudgeon.Prelude.Dict.{lookup, insert}
use gudgeon.Util.Dns.{is_none}
use gudgeon.Util.Time
use gudgeon.Util.Time.{ℤ, pos, Parsed, duration, error, parse_duration}
use gudgeon.Config.Groups.{GudgeonGroup, GudgeonResolver}
use gudgeon.Config.Names
use gudgeon.Config.Names.{
  default_string, system_string, group_name, rename_group, default_group, verify_and_init_groups,
  consumer_name, rename_consumer, default_consumer, verify_and_init_consumers, added_resolver,
  verify_and_init_resolvers,
}
use gudgeon.Config.Names.Laws.{
  or_else, first_named, resolver_name, ready_resolver, verify_and_init-first_named,
  verify_and_init_resolvers-sources,
}
use gudgeon.Config.Settings.{
  GudgeonDatabase, GudgeonMetrics, GudgeonQueryLog, millisecond, second, hour, verify_database,
  verify_metrics, verify_query_log,
}
use gudgeon.Config.Settings.Bounds.{IsAtLeast, verify-IsAtLeast}

abbrev guests : GudgeonGroup
guests = record { name = codes "Guests"; inherit = []; resolvers = []; lists = []; tags = none }

abbrev guests_again : GudgeonGroup
guests_again = record guests { name = codes "guests"; resolvers = codes "home" ∷ [] }

abbrev groups : List (Option GudgeonGroup)
groups = some guests ∷ none ∷ some guests_again ∷ []

abbrev unserved : GudgeonResolver
unserved = record {
  name = codes "Default";
  domains = [];
  skip_domains = [];
  search = [];
  hosts = [];
  sources = [];
}

abbrev resolvers : List (Option GudgeonResolver)
resolvers = some unserved ∷ []

guests_first :
    lookup (codes "guests") (verify_and_init_groups groups).by_name
    ≡ some (record guests { name = codes "guests" })
unfolding verify_and_init_groups lookup is_none Names.collect is_empty insert same to_lower
guests_first = refl

verify_and_init-first_named_example :
    (lookup (codes "guests") (verify_and_init_groups groups).by_name
      ≡ or_else
          (first_named group_name rename_group (codes "guests") groups)
          (if same default_string (codes "guests") then some default_group else none))
    × (lookup (codes "guests") (verify_and_init_consumers []).by_name
        ≡ or_else
            (first_named consumer_name rename_consumer (codes "guests") [])
            (if same default_string (codes "guests") then some default_consumer else none))
    × (lookup (codes "guests") (verify_and_init_resolvers [] resolvers).by_name
        ≡ or_else
            (or_else (first_named resolver_name ready_resolver (codes "guests") resolvers) (
              if same system_string (codes "guests")
              then some (added_resolver system_string)
              else none))
            (if same default_string (codes "guests")
              then some (added_resolver default_string)
              else none))
verify_and_init-first_named_example =
    verify_and_init-first_named groups [] [] resolvers (codes "guests")

verify_and_init_resolvers-sources_example :
    (r : GudgeonResolver) × (lookup
        (codes "default")
        (verify_and_init_resolvers [] resolvers).by_name
      ≡ some r)
    × (r.sources ≢ [])
unfolding same
verify_and_init_resolvers-sources_example =
    verify_and_init_resolvers-sources [] resolvers (codes "default") refl

-- A parser that knows four texts.
abbrev parse : Text → Parsed
parse s =
    if same s (codes "1s")
    then duration (pos second)
    else if same s (codes "15s")
    then duration (pos (15 * second))
    else if same s (codes "1h")
    then duration (pos hour)
    else if same s (codes "168h")
    then duration (pos (168 * hour))
    else error (codes "unknown")

abbrev database : GudgeonDatabase
database = record { flush = codes "often" }

abbrev metrics : GudgeonMetrics
metrics = record {
  enabled = none;
  persist = none;
  detailed = none;
  duration = [];
  interval = codes "1s";
}

abbrev query_log : GudgeonQueryLog
query_log = record {
  enabled = none;
  persist = none;
  duration = codes "1s";
  stdout = none;
  file = [];
  reverse_lookup = none;
  mdns_lookup = none;
  netbios_lookup = none;
}

one_second : parse_duration parse (codes "1s") ≡ duration (pos second)
unfolding parse_duration Time.take_unit Time.find_token Time.digits_then same Time.atoi Time.decimal
    Time.emit
one_second = refl

verify-IsAtLeast_example :
    IsAtLeast parse (500 * millisecond) ((verify_database parse database).0).flush
    × IsAtLeast parse second ((verify_metrics parse metrics).0).interval
    × IsAtLeast parse hour ((verify_query_log parse query_log).0).duration
unfolding parse_duration Time.take_unit Time.find_token Time.digits_then same Time.atoi Time.decimal
    Time.emit
verify-IsAtLeast_example =
    verify-IsAtLeast parse database metrics query_log (second, one_second, omega arith)
      (15 * second, refl, omega arith) (hour, refl, omega arith) (168 * hour, refl, omega arith)
