-- ===== src/Config/Settings.antt =====
-- config/config.go and config/config_init.go: the settings of the parts of the program, with their
-- defaults. A pointer that may be nil is an Option. The error that a duration is refused with is the
-- text that `parse` gives, in the place of %s.
pub mod Bounds
use gudgeon.Prelude.{
  ℕ, ◌+◌, ◌*◌, List, [], ◌∷◌, ◌++◌, map, Bool, true, false, Option, none, some, ltb, if◌then◌else◌,
}
use gudgeon.Prelude.Text.{Text, codes, is_empty}
use gudgeon.Util.Time.{ℤ, pos, negsuc, Parsed, duration, error, parse_duration}

-- GudgeonStorage
pub record GudgeonStorage : Type 0 where
  pub rule_storage : Text
  pub cache_enabled : Option Bool

-- GudgeonSystemd
pub record GudgeonSystemd : Type 0 where
  pub enabled : Option Bool
  pub dns_ports : Option (List ℕ)
  pub http_ports : Option (List ℕ)

-- GudgeonDatabase
pub record GudgeonDatabase : Type 0 where
  pub flush : Text

-- GudgeonQueryLog
pub record GudgeonQueryLog : Type 0 where
  pub enabled : Option Bool
  pub persist : Option Bool
  pub duration : Text
  pub stdout : Option Bool
  pub file : Text
  pub reverse_lookup : Option Bool
  pub mdns_lookup : Option Bool
  pub netbios_lookup : Option Bool

-- GudgeonMetrics
pub record GudgeonMetrics : Type 0 where
  pub enabled : Option Bool
  pub persist : Option Bool
  pub detailed : Option Bool
  pub duration : Text
  pub interval : Text

-- GudgeonTLS
pub record GudgeonTls : Type 0 where
  pub enabled : Bool

-- GudgeonInterface
pub record GudgeonInterface : Type 0 where
  pub ip : Text
  pub port : ℤ
  pub tcp : Option Bool
  pub udp : Option Bool
  pub tls : Option GudgeonTls

-- GudgeonNetwork, with interfaces that are not nil
pub record GudgeonNetwork : Type 0 where
  pub tls : Option GudgeonTls
  pub tcp : Option Bool
  pub udp : Option Bool
  pub interfaces : List GudgeonInterface

-- GudgeonWeb
pub record GudgeonWeb : Type 0 where
  pub enabled : Bool
  pub address : Text
  pub port : ℤ

-- The value of a pointer, and another one where it is nil.
unfoldable pub or_pointer : {A : Type 0} → Option A → Option A → Option A
or_pointer none y = y
or_pointer (some x) y = some x

unfoldable pub or_text : Text → Text → Text
or_text s t = if is_empty s then t else s

-- `d < n` and `d > n` for a number that is not negative
unfoldable pub below : ℤ → ℕ → Bool
below (pos d) n = ltb d n
below (negsuc d) n = true

unfoldable pub above : ℤ → ℕ → Bool
above (pos d) n = ltb n d
above (negsuc d) n = false

-- storage.verifyAndInit
unfoldable pub verify_storage : GudgeonStorage → GudgeonStorage
verify_storage storage = record storage {
  cache_enabled = or_pointer storage.cache_enabled (some true);
}

-- web.verifyAndInit
unfoldable pub verify_web : GudgeonWeb → GudgeonWeb
verify_web web =
    if web.enabled
    then record web {
      address = or_text web.address (codes "127.0.0.1");
      port = if below web.port 1 then pos 9009 else web.port;
    }
    else web

unfoldable pub verify_interface : Option Bool → Option Bool → GudgeonInterface → GudgeonInterface
verify_interface tcp udp i = record i { tcp = or_pointer i.tcp tcp; udp = or_pointer i.udp udp }

-- network.verifyAndInit
unfoldable pub verify_network : GudgeonNetwork → GudgeonNetwork
verify_network network =
    let tcp = or_pointer network.tcp (some true) in
    let udp = or_pointer network.udp (some true) in
    record network {
      tcp = tcp;
      udp = udp;
      interfaces = map (verify_interface tcp udp) network.interfaces;
    }

-- systemd.verifyAndInit
unfoldable pub verify_systemd : GudgeonSystemd → GudgeonSystemd
verify_systemd systemd = record {
  enabled = or_pointer systemd.enabled (some true);
  dns_ports = or_pointer systemd.dns_ports (some (53 ∷ []));
  http_ports = or_pointer systemd.http_ports (some (80 ∷ 8080 ∷ []));
}

-- Go's units of time, in nanoseconds
abbrev pub millisecond : ℕ
millisecond = 1000000

abbrev pub second : ℕ
second = 1000000000

abbrev pub minute : ℕ
minute = 60000000000

abbrev pub hour : ℕ
hour = 3600000000000

abbrev flush_error : Text → Text
flush_error e =
    codes "Could not parse database flush interval: " ++ e ++ codes ", using default (1s)"

abbrev flush_long : Text → Text
flush_long s =
    codes "A flush interval greater than 1m is probably too long, consider changing this value ("
    ++ s
    ++ codes ")"

abbrev flush_short : Text
flush_short =
    codes "A flush interval less than 500ms is probably too short, using default value (1s)"

abbrev metrics_duration_error : Text → Text
metrics_duration_error e =
    codes "Could not parse metrics duration: " ++ e ++ codes ", using default (7d)"

abbrev interval_error : Text → Text
interval_error e = codes "Could not parse metrics interval: " ++ e ++ codes ", using default (15s)"

abbrev interval_short : Text
interval_short =
    codes "A metrics interval less than 1s is probably too short, using default value (15s)"

abbrev interval_long : Text
interval_long =
    codes
      "A metrics interval more than 30 minutes (30m) is fairly low resolution, consider changing this value"

abbrev query_log_error : Text → Text
query_log_error e =
    codes "Could not parse query log duration: " ++ e ++ codes ", using default (7d)"

abbrev query_log_short : Text
query_log_short = codes "A query log duration less than 1 hour (1h) is probably too short, using 1h"

module _ (parse : Text → Parsed) where
  -- The checks of one duration, with the warnings.
  unfoldable pub check_flush : Text → Text × List Text
  check_flush s = elim (parse_duration parse s) [
    | error e ↦ (codes "1s", flush_error e ∷ [])
    | duration d ↦
        if above d minute
        then (s, flush_long s ∷ [])
        else if below d (500 * millisecond)
        then (codes "1s", flush_short ∷ [])
        else (s, [])
  ]

  unfoldable pub check_metrics_duration : Text → Text × List Text
  check_metrics_duration s = elim (parse_duration parse s) [
    | error e ↦ (codes "7d", metrics_duration_error e ∷ [])
    | duration d ↦ (s, [])
  ]

  unfoldable pub check_interval : Text → Text × List Text
  check_interval s = elim (parse_duration parse s) [
    | error e ↦ (codes "15s", interval_error e ∷ [])
    | duration d ↦
        if below d second
        then (codes "15s", interval_short ∷ [])
        else if above d (30 * minute)
        then (s, interval_long ∷ [])
        else (s, [])
  ]

  unfoldable pub check_query_log_duration : Text → Text × List Text
  check_query_log_duration s = elim (parse_duration parse s) [
    | error e ↦ (codes "7d", query_log_error e ∷ [])
    | duration d ↦ if below d hour then (codes "1h", query_log_short ∷ []) else (s, [])
  ]

  -- database.verifyAndInit
  unfoldable pub verify_database : GudgeonDatabase → GudgeonDatabase × List Text
  verify_database database =
      let (flush, warnings) = check_flush (or_text database.flush (codes "1s")) in
      (record { flush = flush }, warnings)

  -- metrics.verifyAndInit
  unfoldable pub verify_metrics : GudgeonMetrics → GudgeonMetrics × List Text
  verify_metrics metrics =
      let enabled = or_pointer metrics.enabled (some true) in
      let (long, warnings) = check_metrics_duration (or_text metrics.duration (codes "7d")) in
      let (interval, more) = check_interval (or_text metrics.interval (codes "15s")) in
      (
        record {
          enabled = enabled;
          persist = or_pointer metrics.persist enabled;
          detailed = or_pointer metrics.detailed enabled;
          duration = long;
          interval = interval;
        },
        warnings ++ more,
      )

  -- ql.verifyAndInit
  unfoldable pub verify_query_log : GudgeonQueryLog → GudgeonQueryLog × List Text
  verify_query_log ql =
      let enabled = or_pointer ql.enabled (some true) in
      let (long, warnings) = check_query_log_duration (or_text ql.duration (codes "7d")) in
      (
        record {
          enabled = enabled;
          persist = or_pointer ql.persist enabled;
          duration = long;
          stdout = or_pointer ql.stdout enabled;
          file = ql.file;
          reverse_lookup = or_pointer ql.reverse_lookup enabled;
          mdns_lookup = or_pointer ql.mdns_lookup enabled;
          netbios_lookup = or_pointer ql.netbios_lookup enabled;
        },
        warnings,
      )
