-- ===== src/Resolver/HostFile.antt =====
-- resolver/hostfile_source.go: a source that answers from the lines of a hosts file. The maps of
-- wildcards is gone through in the order in which its names were first put.
pub mod Targets
use gudgeon.Prelude.{
  ℕ, zero, suc, List, [], ◌∷◌, ◌++◌, Bool, true, false, not, ◌&&◌, ◌||◌, Option, none, some, ltb,
  ◌==◌, length, if◌then◌else◌,
}
use gudgeon.Prelude.Text.{
  Text, codes, same, is_empty, has_prefix, contains, before, contains_byte, after_byte, trim_space,
  to_lower,
}
use gudgeon.Prelude.Dict.{Dict, lookup, insert}
use gudgeon.Util.Strings.{trim_comments}
use gudgeon.Util.Domains.{reverse_lookup_domain}
use gudgeon.Util.Dns.{
  a, aaaa, ptr, cname, Record, Question, Message, Printing, is_none, is_empty_response,
}
use gudgeon.Cache.{Backer}
use gudgeon.Resolver.{Reply, responded, Outside, Context, rename_all}

-- hostFileSource
pub record HostFile : Type 0 where
  pub file_path : Text
  pub host_entries : Dict (List (List ℕ))
  pub cname_entries : Dict Text
  pub reverse_lookup : Dict (List Text)
  pub dns_wildcards : Dict (List (List ℕ))

-- net.ParseIP, and net.IP.To4 and To16, where `none` is nil
pub record Addresses : Type 0 where
  pub parse_ip : Text → Option (List ℕ)
  pub to4 : List ℕ → Option (List ℕ)
  pub to16 : List ℕ → Option (List ℕ)

-- The value under a key, and an empty one where there is none.
unfoldable pub or_none : {A : Type 0} → Option (List A) → List A
or_none none = []
or_none (some xs) = xs

-- strings.Replace of a byte by another one
unfoldable pub replace_byte : ℕ → ℕ → Text → Text
replace_byte b c [] = []
replace_byte b c (x ∷ s) = (if x == b then c else x) ∷ replace_byte b c s

-- strings.Replace of two spaces by one, where the flag says that a space is yet to be written.
unfoldable pub halve : Bool → Text → Text
halve false [] = []
halve true [] = b' ' ∷ []
halve false (c ∷ s) =
    let open_space = halve true s in
    let plain = halve false s in if c == b' ' then open_space else c ∷ plain
halve true (c ∷ s) =
    let plain = halve false s in if c == b' ' then b' ' ∷ plain else b' ' ∷ c ∷ plain

-- The loop that removes adjacent spaces until nothing changes.
unfoldable pub collapse : ℕ → Text → Text
collapse zero d = d
collapse (suc fuel) d =
    let rest = collapse fuel (halve false d) in if same d (halve false d) then d else rest

-- strings.Split after a byte, with the part that is being read
unfoldable pub split_on : ℕ → Text → Text → List Text
split_on b part [] = part ∷ []
split_on b part (c ∷ s) =
    let next = split_on b [] s in
    let longer = split_on b (part ++ c ∷ []) s in if c == b then part ∷ next else longer

-- The line without its comment and with single spaces.
unfoldable pub condition_line : Text → Text
condition_line line =
    let d =
      replace_byte b',' b' '
        (replace_byte b'\t' b' ' (trim_comments (to_lower (trim_space line)))) in
    collapse (length d) d

module _ (addresses : Addresses) (outside : Outside) where
  open addresses use {parse_ip, to4, to16}
  open outside use {fqdn, glob}

  -- The body of the loop over the domains of an address.
  unfoldable pub add_host : List ℕ → Text → HostFile → HostFile
  add_host address domain source =
      let name = fqdn domain in
      if not (contains domain (codes "*"))
      then record source {
        host_entries =
            insert name (or_none (lookup name source.host_entries) ++ address ∷ [])
              source.host_entries;
      }
      else record source {
        dns_wildcards =
            insert name (or_none (lookup name source.dns_wildcards) ++ address ∷ [])
              source.dns_wildcards;
      }

  unfoldable pub add_hosts : List ℕ → List Text → HostFile → HostFile
  add_hosts address [] source = source
  add_hosts address (d ∷ domains) source = add_hosts address domains (add_host address d source)

  -- The body of the loop over the aliases of a target.
  unfoldable pub add_alias : Text → Text → Dict Text → Dict Text
  add_alias target alias entries =
      if is_empty (or_none (lookup alias entries))
      then insert (fqdn alias) (fqdn target) entries
      else entries

  unfoldable pub add_aliases : Text → List Text → Dict Text → Dict Text
  add_aliases target [] entries = entries
  add_aliases target (alias ∷ aliases) entries =
      add_aliases target aliases (add_alias target alias entries)

  -- What a line with an address or a target and with domains adds.
  unfoldable pub add_domains : Text → List Text → HostFile → HostFile
  add_domains address domains source = elim (parse_ip address) [
    | none ↦ record source { cname_entries = add_aliases address domains source.cname_entries }
    | some ip ↦ add_hosts ip domains (record source {
      reverse_lookup =
          insert (reverse_lookup_domain (λ i. not (is_none (to4 i))) (some ip)) domains
            source.reverse_lookup;
    })
  ]

  -- The body of the loop over the lines.
  unfoldable pub load_line : Text → HostFile → HostFile
  load_line line source =
      let stripped = trim_comments (to_lower (trim_space line)) in
      let d = condition_line line in
      if is_empty stripped || has_prefix stripped (codes "*")
      then source
      else if contains_byte b' ' d
      then add_domains (trim_space (before d (codes " "))) (split_on b' ' [] (after_byte b' ' d))
          source
      else source

  unfoldable pub load_lines : List Text → HostFile → HostFile
  load_lines [] source = source
  load_lines (line ∷ lines) source = load_lines lines (load_line line source)

  -- LoadArray
  unfoldable pub load_array : List Text → HostFile
  load_array lines = load_lines lines (record {
    file_path = codes "hosts";
    host_entries = [];
    cname_entries = [];
    reverse_lookup = [];
    dns_wildcards = [];
  })

  -- Load; `none` is that the file cannot be read.
  unfoldable pub load : Text → Option (List Text) → HostFile → HostFile
  load file none source = source
  load file (some lines) source = record (load_array lines) { file_path = file }

  -- The record for an address, if it is one of the type that is asked for.
  unfoldable pub address_record : Text → ℕ → List ℕ → List Record
  address_record name qtype ip =
      (if (qtype == 1) && not (is_none (to4 ip))
        then record { name = name; rrtype = 1; ttl = 60; body = a (to4 ip) } ∷ []
        else [])
      ++ (if (qtype == 28) && (is_none (to4 ip) && not (is_none (to16 ip)))
          then record { name = name; rrtype = 28; ttl = 60; body = aaaa (to16 ip) } ∷ []
          else [])

  unfoldable pub address_records : Text → ℕ → List (List ℕ) → List Record
  address_records name qtype [] = []
  address_records name qtype (ip ∷ ips) =
      address_record name qtype ip ++ address_records name qtype ips

  -- respondToAWildcards
  unfoldable pub respond_to_a_wildcards : Text → ℕ → Dict (List (List ℕ)) → List Record
  respond_to_a_wildcards name qtype [] = []
  respond_to_a_wildcards name qtype ((wild, ips) ∷ wildcards) =
      let rest = respond_to_a_wildcards name qtype wildcards in
      if glob wild name then address_records name qtype ips ++ rest else rest

  -- respondToA
  unfoldable pub respond_to_a : Text → ℕ → HostFile → List Record
  respond_to_a name qtype source =
      respond_to_a_wildcards name qtype source.dns_wildcards
      ++ address_records name qtype (or_none (lookup name source.host_entries))

  -- respondToPTR
  unfoldable pub ptr_records : Text → List Text → List Record
  ptr_records name [] = []
  ptr_records name (p ∷ ptrs) =
      let rest = ptr_records name ptrs in
      if is_empty p
      then rest
      else record { name = name; rrtype = 12; ttl = 60; body = ptr (fqdn p) } ∷ rest

  unfoldable pub respond_to_ptr : Text → HostFile → List Record
  respond_to_ptr name source = ptr_records name (or_none (lookup name source.reverse_lookup))

  -- respondToCNAME on a response without answers; `none` is an answer that is nil, which the loop over
  -- the answers later takes the header of, a panic.
  unfoldable pub respond_to_cname : Text → HostFile → Option (List Record)
  respond_to_cname name source = elim (lookup name source.cname_entries) [
    | none ↦ some []
    | some target ↦
        if is_empty target
        then none
        else some (record { name = name; rrtype = 5; ttl = 60; body = cname (fqdn target) } ∷ [])
  ]

  -- What follows the aliases, by the type that is asked for: 1, 28, 12 and 255 are A, AAAA, PTR, ANY.
  unfoldable pub after_cname : Text → ℕ → HostFile → List Record → List Record
  after_cname name qtype source answers =
      answers
      ++ (if (qtype == 255) || (((qtype == 1) || (qtype == 28)) && ltb (length answers) 1)
          then respond_to_a name qtype source
          else [])
      ++ (if (qtype == 255) || (qtype == 12) then respond_to_ptr name source else [])

  -- The answers before their names are set.
  unfoldable pub answers_for : Text → ℕ → HostFile → Option (List Record)
  answers_for name qtype source =
      elim (if qtype == 12 then some [] else respond_to_cname name source) [
        | none ↦ none
        | some answers ↦ some (after_cname name qtype source answers)
      ]

  module _ (printing : Printing) (backer : Backer) where
    -- The end of Answer, with the response and its answers.
    unfoldable pub finish_answer :
        Question
        → HostFile
        → Message
        → Context printing backer
        → Option (List Record)
        → Option (Reply × Context printing backer)
    finish_answer q source response c none = none
    finish_answer q source response c (some answers) =
        let m = record response { answer = rename_all q.name answers } in
        let used = record c {
          stored = true;
          source_used = codes "hostfile:" ++ source.file_path;
        } in
        some (responded (some m), if is_empty_response printing (some m) then c else used)

    -- Answer, on a context that is not nil. A panic is `none`.
    unfoldable pub answer :
        HostFile → Message → Context printing backer → Option (Reply × Context printing backer)
    answer source request c = elim request.question [
      | [] ↦ some (responded none, c)
      | q ∷ questions ↦
          if (q.qtype == 255)
            || ((q.qtype == 1) || ((q.qtype == 28) || ((q.qtype == 12) || (q.qtype == 5))))
          then finish_answer q source
              (outside.set_reply
                (record {
                  id = 0;
                  rcode = 0;
                  truncated = false;
                  question = [];
                  answer = [];
                  ns = [];
                  extra = [];
                })
                request)
              c (answers_for (to_lower q.name) q.qtype source)
          else some (responded none, c)
    ]
