-- ===== src/Resolver.antt =====
-- resolver/resolver.go and resolver/resolver_map.go: how a resolver answers from its cache, its
-- sources and its search domains, and how the map asks resolvers in order. What a source answers is
-- the argument `ask`.
pub mod HostFile
pub mod Sources
pub mod DnsSource
pub mod Visited
pub mod Answers
mod Tests
use gudgeon.Prelude.{
  ℕ, List, [], ◌∷◌, ◌++◌, map, Bool, true, false, not, ◌&&◌, ◌||◌, Option, none, some,
  if◌then◌else◌, ltb, length,
}
use gudgeon.Prelude.Text.{Text, codes, is_empty, same, has_suffix, contains, ends_with, to_lower}
use gudgeon.Prelude.Dict.{Dict, lookup}
use gudgeon.Util.Strings.{string_in}
use gudgeon.Util.Domains.{dot, split_dots, without_last}
use gudgeon.Util.Dns.{Record, Question, Message, Printing, is_empty_response}
use gudgeon.Cache.{Backer, Cache, store, query}

-- resolver
pub record Resolver (S : Type 0) : Type 0 where
  pub name : Text
  pub domains : List Text
  pub skip : List Text
  pub search : List Text
  pub sources : List S

-- What a source gives: an error, or a response that may be nil.
pub data Reply : Type 0 where
  failed : Reply
  responded : Option Message → Reply

-- What the code takes from elsewhere: dns.Fqdn, SetReply of a response to a request, and go-glob.
pub record Outside : Type 0 where
  pub fqdn : Text → Text
  pub set_reply : Message → Message → Message
  pub glob : Text → Text → Bool

-- The loop of domainMatches; a domain with a wildcard decides alone.
unfoldable pub matches_loop : (Text → Text → Bool) → Text → List Text → Bool
matches_loop glob question [] = false
matches_loop glob question (d ∷ domains) =
    let domain = to_lower d in
    let rest = matches_loop glob question domains in
    if contains domain (codes "*")
    then glob domain question
    else if same domain question || has_suffix question (dot ∷ domain)
    then true
    else rest

-- domainMatches
unfoldable pub domain_matches : (Text → Text → Bool) → Text → List Text → Bool
unfolding matches_loop
domain_matches glob question [] = true
domain_matches glob question (d ∷ domains) =
    matches_loop glob (if ends_with dot question then without_last question else question)
      (d ∷ domains)

-- The name of the first question, and a request with another one.
unfoldable pub first_name : List Question → Text
first_name [] = []
first_name (q ∷ questions) = q.name

unfoldable pub rename_first : Text → List Question → List Question
rename_first name [] = []
rename_first name (q ∷ questions) = record q { name = name } ∷ questions

-- The guard of searchDomains: the name is empty, a dot, or has a second part.
unfoldable pub second_part : List Text → Text
second_part [] = []
second_part (p ∷ []) = []
second_part (p ∷ q ∷ parts) = q

unfoldable pub not_searched : Text → Bool
unfolding second_part
not_searched name =
    is_empty name || (same (codes ".") name || not (is_empty (second_part (split_dots [] name))))

unfoldable pub rename_all : Text → List Record → List Record
rename_all name [] = []
rename_all name (r ∷ records) = record r { name = name } ∷ rename_all name records

module _ (printing : Printing) (backer : Backer) where
  -- ResolutionContext, with the cache of its resolver map; `none` is that there is no cache.
  pub record Context : Type 0 where
    pub visited : List Text
    pub stored : Bool
    pub cached : Bool
    pub resolver_used : Text
    pub source_used : Text
    pub responses : Option (Cache printing backer)

  -- `if "" == context.ResolverUsed`
  unfoldable pub use_resolver : Text → Context → Context
  use_resolver name c = record c {
    resolver_used = if is_empty c.resolver_used then name else c.resolver_used;
  }

  module _ (outside : Outside) {S : Type 0} (ask : S → Message → Context → Reply × Context) where
    open outside use {fqdn, set_reply, glob}

    -- The loop of the resolver's answer over its sources.
    unfoldable pub ask_sources : Text → List S → Message → Context → Option Message × Context
    unfolding is_empty_response use_resolver
    ask_sources name [] request c = (none, c)
    ask_sources name (s ∷ sources) request c =
        let after = (ask s request c).1 in
        let rest = ask_sources name sources request after in
        elim (ask s request c).0 [
          | failed ↦ rest
          | responded m ↦
              if is_empty_response printing m then rest else (m, use_resolver name after)
        ]

    -- The answers of a search under the name that was asked for, as a reply to that request.
    unfoldable pub restore : Message → Message → Message
    restore m request =
        set_reply (record m { answer = rename_all (first_name request.question) m.answer }) request

    -- The loop of searchDomains over the search domains.
    unfoldable pub search_loop :
        Resolver S → List Text → Message → Context → Option Message × Context
    unfolding ask_sources rename_first first_name restore
    search_loop r [] request c = (none, c)
    search_loop r (d ∷ domains) request c =
        let asked = record request {
          question = rename_first (fqdn (fqdn (first_name request.question) ++ d)) request.question;
        } in
        let skipped = search_loop r domains request c in
        let result = ask_sources r.name r.sources asked c in
        let rest = search_loop r domains request result.1 in
        if is_empty d then skipped else elim result.0 [
          | none ↦ rest
          | some m ↦
              if is_empty_response printing (some m)
              then rest
              else (some (restore m request), result.1)
        ]

    -- searchDomains
    unfoldable pub search_domains : Resolver S → Message → Context → Option Message × Context
    unfolding search_loop not_searched
    search_domains r request c =
        if not_searched (first_name request.question)
        then (none, c)
        else search_loop r r.search request c

    -- Answer behind the cache, up to the storing of its response.
    unfoldable pub resolve : Resolver S → Message → Context → Option Message × Context
    unfolding ask_sources search_domains
    resolve r request c =
        let first = ask_sources r.name r.sources request c in
        let searched = search_domains r request first.1 in
        if is_empty_response printing first.0 && ltb 0 (length r.search)
        then (if is_empty_response printing searched.0 then (first.0, searched.1) else searched)
        else first

    -- The storing; `now` and `set_at` are the clocks of the cache.
    unfoldable pub keep :
        ℕ → ℕ → Text → Message → Option Message × Context → Option Message × Context
    keep now set_at name request (none, c) = (none, c)
    keep now set_at name request (some m, c) = elim c.responses [
      | none ↦ (some m, c)
      | some responses ↦
          let result = store printing backer now set_at name request (some m) responses in
          if not c.stored && not m.truncated
          then (some m, record c { stored = result.0; responses = some result.1 })
          else (some m, c)
    ]

    -- The look into the cache.
    unfoldable pub look_up : ℕ → ℕ → Text → Message → Context → Option Message
    look_up get_at read name request c = elim c.responses [
      | none ↦ none
      | some responses ↦ query printing backer get_at read name request responses
    ]

    -- The domains of the resolver turn the request away.
    unfoldable pub turned_away : Resolver S → Text → Bool
    unfolding domain_matches
    turned_away r name =
        (ltb 0 (length r.domains) && not (domain_matches glob name r.domains))
        || (ltb 0 (length r.skip) && domain_matches glob name r.skip)

    -- Answer of a resolver, for a request and a context that are not nil; `read` and `now` are the
    -- clocks of the cache before and after the sources are asked. It never gives an error.
    unfoldable pub answer : ℕ → ℕ → Resolver S → Message → Context → Option Message × Context
    unfolding resolve keep look_up turned_away is_empty_response use_resolver
    answer read now r request c =
        let visiting = record c { visited = c.visited ++ r.name ∷ [] } in
        let resolved = keep now now r.name request (resolve r request visiting) in
        if ltb (length request.question) 1 || turned_away r (to_lower (first_name request.question))
        then (none, c)
        else elim (look_up read read r.name request visiting) [
          | none ↦ resolved
          | some m ↦
              if is_empty_response printing (some m)
              then resolved
              else (some m, record (use_resolver r.name visiting) { stored = true; cached = true })
        ]

    -- answerWithContext of the map, less the result that it reads off the context
    unfoldable pub answer_with_context :
        ℕ → ℕ → Dict (Resolver S) → Text → Message → Context → Option Message × Context
    unfolding answer
    answer_with_context read now resolvers name request c = elim (lookup name resolvers) [
      | none ↦ (none, c)
      | some r ↦ if string_in name c.visited then (none, c) else answer read now r request c
    ]

    -- AnswerMultiResolvers on its context; no resolver gives an error.
    unfoldable pub answer_multi_resolvers :
        ℕ → ℕ → Dict (Resolver S) → List Text → Message → Context → Option Message × Context
    unfolding answer_with_context
    answer_multi_resolvers read now resolvers [] request c = (none, c)
    answer_multi_resolvers read now resolvers (name ∷ names) request c =
        let result = answer_with_context read now resolvers name request c in
        let rest = answer_multi_resolvers read now resolvers names request result.1 in
        if is_empty_response printing result.0 then rest else result
