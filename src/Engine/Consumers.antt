-- ===== src/Engine/Consumers.antt =====
-- engine/engine.go: which consumer an address belongs to, and the groups and resolvers of a consumer.
pub mod Lookup
use gudgeon.Prelude.{
  ℕ, List, [], ◌∷◌, Bool, true, false, not, ◌&&◌, ◌||◌, Option, none, some, if◌then◌else◌, ltb,
  ◌==◌, length,
}
use gudgeon.Prelude.Text.{Text, codes, is_empty}
use gudgeon.Config.Lists.{GudgeonList}
use gudgeon.Config.Groups.{GudgeonMatchRange, GudgeonMatch, GudgeonConsumer}

-- consumer, less its pointer to the engine
pub record Consumer : Type 0 where
  pub config : GudgeonConsumer
  pub group_names : List Text
  pub resolver_names : List Text
  pub lists : List GudgeonList

-- net.ParseIP, whose addresses have sixteen bytes; net.IP.To16, which is empty for an address that is
-- neither of four nor of sixteen bytes; whether net.ParseCIDR reads a network that holds an address; and
-- whether net.IP.To4 is not nil.
pub record Net : Type 0 where
  pub parse_ip : Text → Option (List ℕ)
  pub to16 : List ℕ → List ℕ
  pub in_cidr : Text → List ℕ → Bool
  pub is_v4 : List ℕ → Bool

-- `bytes.Compare(a, b) <= 0`
unfoldable pub at_most : List ℕ → List ℕ → Bool
at_most [] ys = true
at_most (x ∷ xs) [] = false
at_most (x ∷ xs) (y ∷ ys) = ltb x y || ((x == y) && at_most xs ys)

-- `bytes.Compare(a, b) == 0`
unfoldable pub same_bytes : List ℕ → List ℕ → Bool
unfolding at_most
same_bytes xs ys = at_most xs ys && at_most ys xs

module _ (net : Net) where
  open net use {parse_ip, to16, in_cidr}

  -- The test of an address.
  unfoldable pub ip_matches : Text → List ℕ → Bool
  unfolding same_bytes
  ip_matches ip address =
      not (is_empty ip)
      && (elim (parse_ip ip) [ none ↦ false | some b ↦ same_bytes (to16 b) (to16 address) ])

  -- The test between the parsed ends of a range.
  unfoldable pub between : Option (List ℕ) → Option (List ℕ) → List ℕ → Bool
  unfolding at_most
  between none end address = false
  between (some s) none address = false
  between (some s) (some e) address =
      at_most (to16 s) (to16 address) && at_most (to16 address) (to16 e)

  -- The test of a range.
  unfoldable pub range_matches : Option GudgeonMatchRange → List ℕ → Bool
  unfolding between
  range_matches none address = false
  range_matches (some r) address =
      not (is_empty r.start)
      && (not (is_empty r.end) && between (parse_ip r.start) (parse_ip r.end) address)

  -- The body of the loop over the matches of a consumer.
  unfoldable pub matches : GudgeonMatch → List ℕ → Bool
  unfolding ip_matches range_matches
  matches m address =
      ip_matches m.ip address
      || (range_matches m.range address || (not (is_empty m.net) && in_cidr m.net address))

  unfoldable pub some_matches : List GudgeonMatch → List ℕ → Bool
  unfolding matches
  some_matches [] address = false
  some_matches (m ∷ ms) address = matches m address || some_matches ms address

  -- getConsumerForIP; the default consumer may be nil.
  unfoldable pub get_consumer_for_ip : List Consumer → Option Consumer → List ℕ → Option Consumer
  unfolding some_matches
  get_consumer_for_ip [] default address = default
  get_consumer_for_ip (c ∷ consumers) default address =
      if some_matches c.config.matches address
      then some c
      else get_consumer_for_ip consumers default address

-- getGroups
unfoldable pub get_groups : Option Consumer → List Text
get_groups none = codes "default" ∷ []
get_groups (some c) = if ltb 0 (length c.group_names) then c.group_names else codes "default" ∷ []

-- getResolvers
unfoldable pub get_resolvers : Option Consumer → List Text
get_resolvers none = codes "default" ∷ []
get_resolvers (some c) =
    if ltb 0 (length c.resolver_names) then c.resolver_names else codes "default" ∷ []

-- getConsumerGroups and getConsumerResolvers
unfoldable pub get_consumer_groups : Net → List Consumer → Option Consumer → List ℕ → List Text
unfolding get_consumer_for_ip get_groups
get_consumer_groups net consumers default address =
    get_groups (get_consumer_for_ip net consumers default address)

unfoldable pub get_consumer_resolvers : Net → List Consumer → Option Consumer → List ℕ → List Text
unfolding get_consumer_for_ip get_resolvers
get_consumer_resolvers net consumers default address =
    get_resolvers (get_consumer_for_ip net consumers default address)
