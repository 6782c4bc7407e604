-- ===== src/Resolver/DnsSource/Printing.antt =====
-- resolver/dns_source.go: the name of a source read back as a specification.
use gudgeon.Prelude.{
  ℕ, suc, ◌<◌, ◌^◌, List, [], ◌∷◌, ◌++◌, append_assoc, append-nil, true, false, Option, some, ltb,
  ◌==◌, ◌≡◌, refl, sym, ap, ◌∙◌, lt→ltb, ltb→lt, inl, inr, arith, Bool-cases,
}
use gudgeon.Prelude.Text.{Text, codes, is_empty, same, same_iff, contains_byte, to_lower}
use gudgeon.Util.Strings.{string_in}
use gudgeon.Util.Time.{is_digit, scan, decimal}
use gudgeon.Util.Time.Units.{scan-emit, IsDigits, decimal-IsNumber}
use gudgeon.Util.Dns.{is_none}
use gudgeon.Resolver.HostFile.{split_on}
use gudgeon.Resolver.DnsSource.Specification.{IsUsable, load-IsUsable}
use gudgeon.Resolver.DnsSource.{
  valid_protocols, all_digits, parse_port, split_protocol, split_port, split_specification,
  split_address, with_defaults, load, name,
}

split_on-rest :
    (b : ℕ) (part s rest : Text)
    → contains_byte b s ≡ false
    → split_on b part (s ++ b ∷ rest) ≡ (part ++ s) ∷ split_on b [] rest
unfolding split_on contains_byte
split_on-rest b part [] rest h = ground (arith, append-nil part)
split_on-rest b part (c ∷ s) rest h =
    ground (arith, split_on-rest b (part ++ c ∷ []) s rest, append_assoc part (c ∷ []) s)

split_on-free :
    (b : ℕ) (part s : Text) → contains_byte b s ≡ false → split_on b part s ≡ (part ++ s) ∷ []
unfolding split_on contains_byte
split_on-free b part [] h = ground (arith, append-nil part)
split_on-free b part (c ∷ s) h =
    ground (arith, split_on-free b (part ++ c ∷ []) s, append_assoc part (c ∷ []) s)

contains_byte-append : (b : ℕ) (s rest : Text) → contains_byte b (s ++ b ∷ rest) ≡ true
unfolding contains_byte
contains_byte-append b [] rest = ground arith
contains_byte-append b (c ∷ s) rest = ground (arith, contains_byte-append b s rest)

contains_byte-join :
    (b : ℕ) (s t : Text)
    → contains_byte b s ≡ false
    → contains_byte b t ≡ false
    → contains_byte b (s ++ t) ≡ false
unfolding contains_byte
contains_byte-join b [] t h k = k
contains_byte-join b (c ∷ s) t h k = ground (arith, contains_byte-join b s t, h, k)

contains_byte-digits :
    (b : ℕ) (s : Text) → is_digit b ≡ false → IsDigits s → contains_byte b s ≡ false
unfolding contains_byte
contains_byte-digits b [] n h = refl
contains_byte-digits b (c ∷ s) n (d, h) = ground (arith, contains_byte-digits b s n h, d, n)

all_digits-IsDigits : (s : Text) → IsDigits s → all_digits s ≡ true
unfolding all_digits
all_digits-IsDigits [] h = refl
all_digits-IsDigits (c ∷ s) (d, h) = rw (d, all_digits-IsDigits s h)

scan-decimal : (n : ℕ) → scan 0 (decimal n) ≡ n
unfolding decimal scan
scan-decimal n = scan-emit (suc n) n [] (omega arith)

parse_port-number :
    (c : ℕ) (s : Text)
    → IsDigits (c ∷ s)
    → ltb (scan 0 (c ∷ s)) (2 ^ 32) ≡ true
    → parse_port (c ∷ s) ≡ scan 0 (c ∷ s)
unfolding parse_port is_empty
parse_port-number c s h b = rw (all_digits-IsDigits (c ∷ s) h, b)

parse_port-decimal : (n : ℕ) → n < 2 ^ 32 → parse_port (decimal n) ≡ n
parse_port-decimal n h =
    let (c, s, e, d, k) = decimal-IsNumber n in
    let value : scan 0 (c ∷ s) ≡ n = ap (λ (t : Text). scan 0 t) (sym e) ∙ scan-decimal n in
    ap parse_port e
    ∙ (parse_port-number c s (d, k) (ap (λ (m : ℕ). ltb m (2 ^ 32)) value ∙ lt→ltb n (2 ^ 32) h)
        ∙ value)

decimal-free : (b n : ℕ) → is_digit b ≡ false → contains_byte b (decimal n) ≡ false
decimal-free b n u =
    let (c, s, e, d, k) = decimal-IsNumber n in
    ap (contains_byte b) e ∙ contains_byte-digits b (c ∷ s) u (d, k)

split_address-printed :
    (server : Text) (n : ℕ)
    → contains_byte b':' server ≡ false
    → n < 2 ^ 32
    → split_address (server ++ b':' ∷ decimal n) ≡ (server, n)
unfolding split_address split_port is_digit
split_address-printed server n free h = rw (
  contains_byte-append b':' server (decimal n),
  split_on-rest b':' [] server (decimal n) free,
  split_on-free b':' [] (decimal n) (decimal-free b':' n refl),
  parse_port-decimal n h,
)

-- What is known of a protocol in the list of the code.
valid_protocol :
    (p : Text)
    → string_in p valid_protocols ≡ true
    → (to_lower p ≡ p) × (contains_byte b'/' p ≡ false) × (is_empty p ≡ false)
unfolding string_in to_lower contains_byte is_empty
valid_protocol p h = elim (Bool-cases (same p (codes "udp"))) [
  | inl e ↦ rw ((same_iff p (codes "udp")).0 e) (refl, refl, refl)
  | inr n ↦ elim (Bool-cases (same p (codes "tcp"))) [
    | inl e ↦ rw ((same_iff p (codes "tcp")).0 e) (refl, refl, refl)
    | inr m ↦ elim (Bool-cases (same p (codes "tcp-tls"))) [
      | inl e ↦ rw ((same_iff p (codes "tcp-tls")).0 e) (refl, refl, refl)
      | inr k ↦ absurd (false-ne-true (sym (rw (n, m, k)) ∙ h))
    ]
  ]
]
  where
    false-ne-true : false ≡ true → ⊥
    false-ne-true e = cc

split_specification-printed :
    (address p : Text)
    → contains_byte b'/' address ≡ false
    → string_in p valid_protocols ≡ true
    → split_specification (address ++ b'/' ∷ p) ≡ (address, p)
unfolding split_specification split_protocol
split_specification-printed address p free known =
    let (lower, slash, empty) = valid_protocol p known in
    rw (
      contains_byte-append b'/' address p,
      split_on-rest b'/' [] address p free,
      split_on-free b'/' [] p slash,
      lower,
      known,
    )

-- What has defaults already is left as it is.
with_defaults-again :
    (parse_ip : Text → Option (List ℕ)) (server : Text) (port : ℕ) (protocol : Text)
    → is_empty (with_defaults parse_ip server port protocol).protocol ≡ false
    → ((with_defaults parse_ip server port protocol).port == 0) ≡ false
    → with_defaults parse_ip server
        (with_defaults parse_ip server port protocol).port
        (with_defaults parse_ip server port protocol).protocol
      ≡ with_defaults parse_ip server port protocol
unfolding with_defaults
with_defaults-again parse_ip server port protocol e n = rw (e, n)

name-with_defaults :
    (parse_ip : Text → Option (List ℕ)) (server : Text) (port : ℕ) (protocol : Text)
    (address : List ℕ)
    → parse_ip server ≡ some address
    → name (with_defaults parse_ip server port protocol)
      ≡ (server ++ b':' ∷ decimal (with_defaults parse_ip server port protocol).port)
        ++ b'/' ∷ (with_defaults parse_ip server port protocol).protocol
unfolding name with_defaults is_none
name-with_defaults parse_ip server port protocol address e = rw e

tail_free : (n : ℕ) → contains_byte b'/' (b':' ∷ decimal n) ≡ false
unfolding contains_byte is_digit
tail_free n = decimal-free b'/' n refl

-- The name of a source is a specification of the same server, port and protocol.
load-printed :
    (parse_ip : Text → Option (List ℕ)) (server : Text) (n : ℕ) (p : Text)
    → contains_byte b':' server ≡ false
    → contains_byte b'/' server ≡ false
    → n < 2 ^ 32
    → string_in p valid_protocols ≡ true
    → load parse_ip ((server ++ b':' ∷ decimal n) ++ b'/' ∷ p) ≡ with_defaults parse_ip server n p
unfolding load
load-printed parse_ip server n p colon slash h known = rw (
  split_specification-printed (server ++ b':' ∷ decimal n) p
      (contains_byte-join b'/' server (b':' ∷ decimal n) slash (tail_free n)) known,
  split_address-printed server n colon h,
)

not_zero : (n : ℕ) → ltb 0 n ≡ true → (n == 0) ≡ false
not_zero n h = ground (arith, h)

load-name_defaults :
    (parse_ip : Text → Option (List ℕ)) (server : Text) (port : ℕ) (protocol : Text)
    (address : List ℕ)
    → IsUsable (with_defaults parse_ip server port protocol)
    → parse_ip server ≡ some address
    → contains_byte b':' server ≡ false
    → contains_byte b'/' server ≡ false
    → load parse_ip (name (with_defaults parse_ip server port protocol))
      ≡ with_defaults parse_ip server port protocol
load-name_defaults parse_ip server port protocol address (positive, small, known) e colon slash =
    let source = with_defaults parse_ip server port protocol in
    let (lower, free, empty) = valid_protocol source.protocol known in
    ap (load parse_ip) (name-with_defaults parse_ip server port protocol address e)
    ∙ load-printed parse_ip server source.port source.protocol colon slash
        (ltb→lt source.port (2 ^ 32) small) known
    ∙ with_defaults-again parse_ip server port protocol empty (not_zero source.port positive)

split_port-first :
    (b : ℕ) (part : Text) (parts : List Text)
    → contains_byte b part ≡ false
    → contains_byte b (split_port (part ∷ parts)).0 ≡ false
unfolding split_port contains_byte
split_port-first b part [] h = refl
split_port-first b part (p ∷ parts) h = h

contains_byte-single : (b c : ℕ) → (c == b) ≡ false → contains_byte b (c ∷ []) ≡ false
unfolding contains_byte
contains_byte-single b c n = rw n

split_port-free :
    (b : ℕ) (part s : Text)
    → contains_byte b part ≡ false
    → contains_byte b (split_port (split_on b part s)).0 ≡ false
unfolding split_on
split_port-free b part [] h = split_port-first b part [] h
split_port-free b part (c ∷ s) h = elim (Bool-cases (c == b)) [
  | inl e ↦ rw (split_on, e) (split_port-first b part (split_on b [] s) h)
  | inr n ↦
      rw (split_on, n)
        (split_port-free b (part ++ c ∷ []) s
          (contains_byte-join b part (c ∷ []) h (contains_byte-single b c n)))
]

split_address-free : (s : Text) → contains_byte b':' (split_address s).0 ≡ false
unfolding split_address contains_byte
split_address-free s = elim (Bool-cases (contains_byte b':' s)) [
  | inl h ↦ rw (h) (split_port-free b':' [] s refl)
  | inr h ↦ rw (h) h
]

-- If the server of the source that is loaded is an address that is read, without a slash, then the
-- name of that source, loaded as a specification, gives the same source.
pub load-name :
    (parse_ip : Text → Option (List ℕ)) (specification : Text) (address : List ℕ)
    → parse_ip (load parse_ip specification).dns_server ≡ some address
    → contains_byte b'/' (load parse_ip specification).dns_server ≡ false
    → load parse_ip (name (load parse_ip specification)) ≡ load parse_ip specification
unfolding load with_defaults
load-name parse_ip specification address e slash =
    let (server, protocol) = split_specification specification in
    load-name_defaults parse_ip (split_address server).0 (split_address server).1 protocol address
      (load-IsUsable parse_ip specification) e (split_address-free server) slash
