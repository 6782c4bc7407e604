-- ===== src/Resolver/DnsSource/Specification.antt =====
-- resolver/dns_source.go: the port and the protocol that a source ends with.
use gudgeon.Prelude.{
  ℕ, zero, suc, ◌^◌, List, [], ◌∷◌, Bool, true, false, not, ◌&&◌, ◌||◌, Option, ltb, ◌==◌, ◌≡◌,
  refl, Bool-cases, inl, inr, ◌⊎◌, arith, if◌then◌else◌,
}
use gudgeon.Prelude.Text.{Text, codes, is_empty, same, contains_byte, to_lower}
use gudgeon.Util.Strings.{string_in}
use gudgeon.Util.Time.{scan}
use gudgeon.Resolver.HostFile.{split_on}
use gudgeon.Resolver.DnsSource.{
  valid_protocols, DnsSource, all_digits, parse_port, split_protocol, split_port,
  split_specification, split_address, with_defaults, load,
}

-- A port of 32 bits that is not 0, and a protocol that the sources know.
abbrev pub IsUsable : DnsSource → Type 0
IsUsable source =
    (ltb 0 source.port ≡ true)
    × (ltb source.port (2 ^ 32) ≡ true)
    × (string_in source.protocol valid_protocols ≡ true)

parse_port-IsLess : (s : Text) → ltb (parse_port s) (2 ^ 32) ≡ true
unfolding parse_port
parse_port-IsLess s =
    elim (Bool-cases (is_empty s || not (all_digits s && ltb (scan 0 s) (2 ^ 32)))) [
      | inl h ↦ rw (h) refl
      | inr h ↦ rw (h) (kept (is_empty s) (all_digits s) (ltb (scan 0 s) (2 ^ 32)) h)
    ]
  where
    kept : (a b c : Bool) → (a || not (b && c)) ≡ false → c ≡ true
    kept a b c h = ground arith

split_port-IsLess : (parts : List Text) → ltb (split_port parts).1 (2 ^ 32) ≡ true
unfolding split_port
split_port-IsLess [] = refl
split_port-IsLess (s ∷ []) = refl
split_port-IsLess (s ∷ p ∷ parts) = parse_port-IsLess p

default_port-bounds :
    (secure : Bool) (n : ℕ)
    → ltb n (2 ^ 32) ≡ true
    → (ltb 0 (if n == 0 then (if secure then 853 else 53) else n) ≡ true)
      × (ltb (if n == 0 then (if secure then 853 else 53) else n) (2 ^ 32) ≡ true)
default_port-bounds true zero h = (refl, refl)
default_port-bounds false zero h = (refl, refl)
default_port-bounds b (suc n) h = (ground (arith, h), ground (arith, h))

split_protocol-IsKnown :
    (s : Text) (parts : List Text)
    → (is_empty (split_protocol s parts).1 ≡ true)
      ⊎ (string_in (split_protocol s parts).1 valid_protocols ≡ true)
unfolding split_protocol is_empty
split_protocol-IsKnown s [] = inl refl
split_protocol-IsKnown s (a ∷ []) = inl refl
split_protocol-IsKnown s (a ∷ p ∷ parts) =
    elim (Bool-cases (string_in (to_lower p) valid_protocols)) [
      | inl h ↦ rw (h) (inr h)
      | inr h ↦ rw (h) (inl refl)
    ]

split_specification-IsKnown :
    (s : Text)
    → (is_empty (split_specification s).1 ≡ true)
      ⊎ (string_in (split_specification s).1 valid_protocols ≡ true)
unfolding split_specification is_empty
split_specification-IsKnown s = elim (Bool-cases (contains_byte b'/' s)) [
  | inl h ↦ rw (h) (split_protocol-IsKnown s (split_on b'/' [] s))
  | inr h ↦ rw (h) (inl refl)
]

split_address-IsLess : (s : Text) → ltb (split_address s).1 (2 ^ 32) ≡ true
unfolding split_address
split_address-IsLess s = elim (Bool-cases (contains_byte b':' s)) [
  | inl h ↦ rw (h) (split_port-IsLess (split_on b':' [] s))
  | inr h ↦ rw (h) refl
]

-- The protocol that is used, of the one that is given.
chosen-IsKnown :
    (p : Text)
    → ((is_empty p ≡ true) ⊎ (string_in p valid_protocols ≡ true))
    → string_in (if is_empty p then codes "udp" else p) valid_protocols ≡ true
unfolding string_in same is_empty
chosen-IsKnown [] k = refl
chosen-IsKnown (c ∷ p) (inl h) = absurd (false-ne-true h)
  where
    false-ne-true : false ≡ true → ⊥
    false-ne-true e = cc
chosen-IsKnown (c ∷ p) (inr h) = h

with_defaults-IsUsable :
    (parse_ip : Text → Option (List ℕ)) (server : Text) (port : ℕ) (protocol : Text)
    → ltb port (2 ^ 32) ≡ true
    → ((is_empty protocol ≡ true) ⊎ (string_in protocol valid_protocols ≡ true))
    → IsUsable (with_defaults parse_ip server port protocol)
unfolding with_defaults
with_defaults-IsUsable parse_ip server port protocol b k =
    let chosen = if is_empty protocol then codes "udp" else protocol in
    let ports = default_port-bounds (same (codes "tcp-tls") chosen) port b in
    (ports.0, ports.1, chosen-IsKnown protocol k)

-- Whatever the specification, the source that is loaded has a port that is not 0 and fits 32 bits,
-- and one of the protocols udp, tcp and tcp-tls.
pub load-IsUsable : (parse_ip : Text → Option (List ℕ)) (s : Text) → IsUsable (load parse_ip s)
unfolding load
load-IsUsable parse_ip s =
    with_defaults-IsUsable parse_ip (split_address (split_specification s).0).0
      (split_address (split_specification s).0).1 (split_specification s).1
      (split_address-IsLess (split_specification s).0) (split_specification-IsKnown s)
