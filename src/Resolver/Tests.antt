-- ===== src/Resolver/Tests.antt =====
-- Runs of resolvers on small inputs.
use gudgeon.Prelude.{
  ℕ, ◌==◌, ◌≢◌, ◌++◌, List, if◌then◌else◌, ◌*◌, [], ◌∷◌, Bool, true, false, Option, none, some, ◌≡◌,
  refl, arith, any, ◌||◌,
}
use gudgeon.Prelude.Text.{
  contains_byte, Text, codes, is_empty, same, to_lower, has_suffix, contains, ends_with,
}
use gudgeon.Prelude.Dict.{Dict, lookup, insert, insert-Entries, Entries}
use gudgeon.Util.Domains.{dot, without_last}
use gudgeon.Util.Strings.{string_in}
use gudgeon.Util.Time.{decimal, emit}
use gudgeon.Util.Dns.{is_none, Message, is_empty_response}
use gudgeon.Cache.{second, lifetime, key, Cache, store, aged}
use gudgeon.Cache.Samples.{plain, backer, asked, answered, again}
use gudgeon.Resolver.{
  Resolver, Reply, failed, responded, Outside, Context, use_resolver, turned_away, answer,
  answer_multi_resolvers, domain_matches,
}
use gudgeon.Resolver.HostFile
use gudgeon.Resolver.HostFile.{Addresses, load_array, halve, collapse}
use gudgeon.Resolver.HostFile.Targets.{answer-load_array}
use gudgeon.Resolver.DnsSource
use gudgeon.Resolver.DnsSource.Printing.{load-name}
use gudgeon.Resolver.Sources.{is_answer, balanced_loop, balanced_answer}
use gudgeon.Resolver.Sources.Turns.{IsAnswered, balanced_answer-IsAnswered}
use gudgeon.Resolver.Visited.{IsDistinct, answer_multi_resolvers-IsDistinct}
use gudgeon.Resolver.Answers.{answer-store, domain_matches-any}

abbrev outside : Outside
outside = record { fqdn = λ name. name; set_reply = λ m request. m; glob = λ pattern name. false }

-- A source that fails, and one that answers.
abbrev ask : Bool → Message → Context plain backer → Reply × Context plain backer
ask false m c = (failed, c)
ask true m c = (responded (some answered), c)

abbrev home : Resolver Bool
home = record {
  name = codes "home";
  domains = [];
  skip = [];
  search = [];
  sources = false ∷ true ∷ [];
}

abbrev empty_context : Context plain backer
empty_context = record {
  visited = [];
  stored = false;
  cached = false;
  resolver_used = [];
  source_used = [];
  responses = some [];
}

abbrev resolvers : Dict (Resolver Bool)
resolvers = insert (codes "home") home []

abbrev UnderName : Text → Resolver Bool → Type 0
UnderName k r = r.name ≡ k

nothing_held : Entries UnderName []
unfolding lookup
nothing_held k r e = cc

named : Entries UnderName resolvers
named = insert-Entries UnderName (codes "home") home [] (λ j w n e. nothing_held j w e) refl

keeps_visited :
    (s : Bool) (m : Message) (c : Context plain backer)
    → IsDistinct c.visited
    → IsDistinct ((ask s m c).1).visited
keeps_visited false m c d = d
keeps_visited true m c d = d

answer_multi_resolvers-IsDistinct_example :
    IsDistinct
      ((answer_multi_resolvers plain backer outside ask 0 1 resolvers
          (codes "home" ∷ codes "home" ∷ [])
          asked
          empty_context).1
        ).visited
answer_multi_resolvers-IsDistinct_example =
    answer_multi_resolvers-IsDistinct plain backer outside ask 0 1 resolvers
      (codes "home" ∷ codes "home" ∷ []) asked empty_context keeps_visited named tt

answer-store_example :
    (stored : Cache plain backer) × (store plain backer 0 1 (codes "home") asked (some answered) []
      ≡ (true, stored))
    × (answer plain backer outside ask
          (5 * second)
          9
          home
          again
          (record empty_context { responses = some stored })
        ≡ (
          some (aged plain backer (5 * second) 9 (record { message = answered; time = 0 })),
          record (use_resolver plain backer
              (codes "home")
              (record empty_context { responses = some stored; visited = codes "home" ∷ [] })) {
                stored = true;
                cached = true;
              },
        ))
unfolding is_empty_response lifetime is_empty key to_lower turned_away aged
answer-store_example =
    answer-store plain backer outside ask 0 1 (5 * second) 9 home asked again answered []
      empty_context refl refl (omega arith) refl refl (omega arith) (omega arith) refl refl

domain_matches-any_example :
    domain_matches (λ pattern name. false) (codes "x.b.org.") (codes "A.org" ∷ codes "b.org" ∷ [])
    ≡ any
        (λ e.
          same (to_lower e) (codes "x.b.org") || has_suffix (codes "x.b.org") (dot ∷ to_lower e))
        (codes "A.org" ∷ codes "b.org" ∷ [])
unfolding contains to_lower ends_with without_last
domain_matches-any_example =
    domain_matches-any (λ pattern name. false) (codes "x.b.org.") (codes "A.org")
      (codes "b.org" ∷ []) (refl, (refl, tt))

abbrev addresses : Addresses
addresses = record {
  parse_ip = λ s. if same s (codes "1.2.3.4") then some (1 ∷ 2 ∷ 3 ∷ 4 ∷ []) else none;
  to4 = λ ip. some ip;
  to16 = λ ip. some ip;
}

abbrev dotted : Outside
dotted = record outside { fqdn = λ name. name ++ codes "." }

never_empty : (s : Text) → is_empty (s ++ codes ".") ≡ false
unfolding is_empty
never_empty [] = refl
never_empty (c ∷ s) = refl

abbrev host_lines : List Text
host_lines = codes "1.2.3.4 a.org" ∷ codes "a.org  b.org # alias" ∷ []

answer-load_array_example :
    HostFile.answer addresses dotted plain backer
      (load_array addresses dotted host_lines)
      asked
      empty_context
    ≢ none
answer-load_array_example =
    answer-load_array addresses dotted never_empty plain backer host_lines asked empty_context

-- The source that answers is the second one, and the index is at the first one.
balanced_answer-IsAnswered_example :
    IsAnswered plain backer
      (λ s. codes "source")
      ask
      (false ∷ true ∷ [])
      (balanced_answer plain backer
        (λ s. codes "source")
        ask
        (codes "both")
        (false ∷ true ∷ [])
        (λ _. 0)
        0
        asked
        empty_context)
unfolding is_answer is_empty_response
balanced_answer-IsAnswered_example =
    balanced_answer-IsAnswered plain backer (λ s. codes "source") ask (codes "both")
      (false ∷ true ∷ []) (λ _. 0) 0 1 true asked empty_context refl (omega arith) (λ d. refl)
      (λ k. refl) (omega arith)

-- If another request takes each second turn, this one only meets the source that fails.
balanced_answer_starved :
    balanced_answer plain backer
      (λ s. codes "source")
      ask
      (codes "both")
      (false ∷ true ∷ [])
      (λ k. if k == 2 then 0 else 1)
      0
      asked
      empty_context
    ≡ some (failed, empty_context, 1)
unfolding balanced_answer balanced_loop is_answer is_empty_response
balanced_answer_starved = refl

-- A source without a port, and the name that it has.
read_ip : Text → Option (List ℕ)
read_ip s = if same s (codes "1.2.3.4") then some (1 ∷ 2 ∷ 3 ∷ 4 ∷ []) else none

name_tls :
    DnsSource.name (DnsSource.load read_ip (codes "1.2.3.4/TCP-TLS")) ≡ codes "1.2.3.4:853/tcp-tls"
unfolding DnsSource.name DnsSource.load DnsSource.split_specification DnsSource.split_address
    DnsSource.split_protocol DnsSource.with_defaults is_none read_ip same contains_byte
    HostFile.split_on string_in to_lower decimal emit is_empty
name_tls = refl

load-name_example :
    DnsSource.load read_ip (DnsSource.name (DnsSource.load read_ip (codes "1.2.3.4/TCP-TLS")))
    ≡ DnsSource.load read_ip (codes "1.2.3.4/TCP-TLS")
unfolding read_ip same DnsSource.load DnsSource.with_defaults DnsSource.split_address contains_byte
    DnsSource.split_specification DnsSource.split_protocol HostFile.split_on string_in to_lower
load-name_example = load-name read_ip (codes "1.2.3.4/TCP-TLS") (1 ∷ 2 ∷ 3 ∷ 4 ∷ []) refl refl
