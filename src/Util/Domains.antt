-- ===== src/Util/Domains.antt =====
-- util/domains.go: the domains against which a name is matched.
pub mod Parents
use gudgeon.Prelude.{
  ℕ, zero, suc, ◌+◌, ◌-◌, ◌/◌, ◌%◌, ◌==◌, ◌||◌, map, List, [], ◌∷◌, ◌++◌, Bool, true, false, not,
  ◌&&◌, Option, none, some, ltb, length, if◌then◌else◌,
}
use gudgeon.Prelude.Text.{
  Text, codes, same, is_empty, contains_byte, after_byte, ends_with, trim_space,
}

abbrev pub dot : ℕ
dot = b'.'

-- SubDomain
unfoldable pub sub_domain : Text → Text
sub_domain domain =
    if contains_byte dot domain && not (ends_with dot domain)
    then trim_space (after_byte dot domain)
    else trim_space domain

-- `len(domains) > 0 && domain == domains[len(domains)-1]`
unfoldable pub last_is : Text → List Text → Bool
last_is domain [] = false
last_is domain (d ∷ []) = same domain d
last_is domain (d ∷ e ∷ domains) = last_is domain (e ∷ domains)

-- `len(domains) < 1`
unfoldable pub is_nil : List Text → Bool
is_nil [] = true
is_nil (d ∷ domains) = false

-- The `for` loop of DomainList on fuel; `none` means that the fuel ran out.
unfoldable pub domain_loop : ℕ → Text → List Text → Option (List Text)
domain_loop zero domain domains = none
domain_loop (suc fuel) domain domains =
    let rest = domain_loop fuel (sub_domain domain) (domains ++ domain ∷ []) in
    if ltb 1 (length domain) && (not (same (codes ".") domain) && not (last_is domain domains))
    then if not (is_nil domains) && not (contains_byte dot domain) then some domains else rest
    else some domains

abbrev or_nil : Option (List Text) → List Text
or_nil none = []
or_nil (some domains) = domains

-- Each round but the last shortens the domain.
abbrev pub domain_fuel : Text → ℕ
domain_fuel domain = suc (suc (length domain))

-- DomainList
unfoldable pub domain_list : Text → List Text
domain_list name =
    let domain = trim_space name in
    if is_empty domain then [] else or_nil (domain_loop (domain_fuel domain) domain [])

-- strings.Split(s, ".") with the part that is being read
unfoldable pub split_dots : Text → Text → List Text
split_dots part [] = part ∷ []
split_dots part (c ∷ s) =
    let apart = part ∷ split_dots [] s in
    let longer = split_dots (part ++ c ∷ []) s in if c == dot then apart else longer

-- The loop of ReverseDomainTree from the last part to the first, with dots between.
unfoldable pub join_dots : List Text → Text
join_dots [] = []
join_dots (p ∷ []) = p
join_dots (p ∷ q ∷ parts) = p ++ dot ∷ join_dots (q ∷ parts)

unfoldable pub reversed {ℓ} : {A : Type ℓ} → List A → List A
reversed [] = []
reversed (x ∷ xs) = reversed xs ++ x ∷ []

unfoldable pub without_last : Text → Text
without_last [] = []
without_last (c ∷ []) = []
without_last (c ∷ d ∷ s) = c ∷ without_last (d ∷ s)

-- ReverseDomainTree
unfoldable pub reverse_domain_tree : Text → Text
unfolding split_dots join_dots reversed without_last
reverse_domain_tree name =
    let domain = trim_space name in
    let bare = if ends_with dot domain then without_last domain else domain in
    let parts = split_dots [] bare in
    if is_empty domain || not (contains_byte dot domain)
    then domain
    else if ltb (length parts) 2
    then bare
    else join_dots (reversed parts)

-- One digit of the base, as hex.EncodeToString and strconv.Itoa write it.
unfoldable pub digit : ℕ → ℕ
digit n = if ltb n 10 then b'0' + n else b'a' + (n - 10)

-- hex.EncodeToString
unfoldable pub hex : List ℕ → Text
unfolding digit
hex [] = []
hex (b ∷ bytes) = digit (b / 16) ∷ digit (b % 16) ∷ hex bytes

-- strconv.Itoa of a byte
unfoldable pub itoa : ℕ → Text
unfolding digit
itoa b =
    if ltb b 10
    then digit b ∷ []
    else if ltb b 100
    then digit (b / 10) ∷ digit (b % 10) ∷ []
    else digit (b / 100) ∷ digit (b / 10 % 10) ∷ digit (b % 10) ∷ []

abbrev pub ipv4_arpa : Text
ipv4_arpa = codes ".in-addr.arpa."

abbrev pub ipv6_arpa : Text
ipv6_arpa = codes ".ip6.arpa."

-- Each byte of a text as a text of its own.
unfoldable pub letters : Text → List Text
letters [] = []
letters (c ∷ s) = (c ∷ []) ∷ letters s

unfoldable pub take_first {ℓ} : {A : Type ℓ} → ℕ → List A → List A
take_first zero xs = []
take_first (suc n) [] = []
take_first (suc n) (x ∷ xs) = x ∷ take_first n xs

-- ReverseLookupDomain; `none` is the nil pointer, and `is_v4` tells that net.IP.To4 is not nil. The
-- last four bytes of such an address are the address.
unfoldable pub reverse_lookup_domain : (List ℕ → Bool) → Option (List ℕ) → Text
unfolding join_dots reversed hex itoa letters take_first
reverse_lookup_domain is_v4 none = []
reverse_lookup_domain is_v4 (some bytes) =
    if is_v4 bytes
    then join_dots (map itoa (take_first 4 (reversed bytes))) ++ ipv4_arpa
    else join_dots (reversed (letters (hex bytes))) ++ ipv6_arpa

-- ReverseLookupDomainString; `parse_ip` is net.ParseIP.
unfoldable pub reverse_lookup_domain_string :
    (List ℕ → Bool) → (Text → Option (List ℕ)) → Text → Text
unfolding reverse_lookup_domain
reverse_lookup_domain_string is_v4 parse_ip ip_string = elim (parse_ip ip_string) [
  | none ↦ []
  | some ip ↦ reverse_lookup_domain is_v4 (some ip)
]
