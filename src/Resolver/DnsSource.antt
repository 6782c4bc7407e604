-- ===== src/Resolver/DnsSource.antt =====
-- resolver/dns_source.go: how a specification of an upstream server is read.
pub mod Specification
pub mod Printing
use gudgeon.Prelude.{
  ℕ, ◌+◌, ◌^◌, List, [], ◌∷◌, ◌++◌, Bool, true, false, not, ◌&&◌, ◌||◌, Option, none, some, ltb,
  ◌==◌, if◌then◌else◌,
}
use gudgeon.Prelude.Text.{Text, codes, same, is_empty, contains_byte, to_lower}
use gudgeon.Util.Strings.{string_in}
use gudgeon.Util.Time.{is_digit, scan, decimal}
use gudgeon.Util.Dns.{is_none}
use gudgeon.Resolver.HostFile.{split_on}

abbrev pub valid_protocols : List Text
valid_protocols = codes "udp" ∷ codes "tcp" ∷ codes "tcp-tls" ∷ []

-- dnsSource, less its pool
pub record DnsSource : Type 0 where
  pub dns_server : Text
  pub port : ℕ
  pub remote_address : Text
  pub protocol : Text
  pub network : Text

unfoldable pub all_digits : Text → Bool
all_digits [] = true
all_digits (c ∷ s) = is_digit c && all_digits s

-- strconv.ParseUint in base 10 to 32 bits, and 0 where it fails
unfoldable pub parse_port : Text → ℕ
parse_port s = if is_empty s || not (all_digits s && ltb (scan 0 s) (2 ^ 32)) then 0 else scan 0 s

-- The address and the protocol of a specification; the empty protocol is that there is none.
unfoldable pub split_protocol : Text → List Text → Text × Text
split_protocol specification [] = (specification, [])
split_protocol specification (s ∷ []) = (specification, [])
split_protocol specification (s ∷ p ∷ parts) =
    if string_in (to_lower p) valid_protocols then (s, to_lower p) else (specification, [])

-- The server and the port of an address; 0 is that there is none.
unfoldable pub split_port : List Text → Text × ℕ
split_port [] = ([], 0)
split_port (s ∷ []) = ([], 0)
split_port (s ∷ p ∷ parts) = (s, parse_port p)

-- What Load splits off a specification, and off its address.
unfoldable pub split_specification : Text → Text × Text
split_specification s =
    if contains_byte b'/' s then split_protocol s (split_on b'/' [] s) else (s, [])

unfoldable pub split_address : Text → Text × ℕ
split_address s = if contains_byte b':' s then split_port (split_on b':' [] s) else (s, 0)

-- The rest of Load, on what was split, with net.ParseIP.
unfoldable pub with_defaults : (Text → Option (List ℕ)) → Text → ℕ → Text → DnsSource
with_defaults parse_ip server port protocol =
    let chosen = if is_empty protocol then codes "udp" else protocol in
    let secure = same (codes "tcp-tls") chosen in
    let used = if port == 0 then (if secure then 853 else 53) else port in
    record {
      dns_server = server;
      port = used;
      remote_address = if is_none (parse_ip server) then [] else server ++ b':' ∷ decimal used;
      protocol = chosen;
      network = if secure then codes "tcp" else chosen;
    }

-- Load
unfoldable pub load : (Text → Option (List ℕ)) → Text → DnsSource
load parse_ip specification =
    let (address, protocol) = split_specification specification in
    let (server, port) = split_address address in with_defaults parse_ip server port protocol

-- Name
unfoldable pub name : DnsSource → Text
name source = source.remote_address ++ b'/' ∷ source.protocol
