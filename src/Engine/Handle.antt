-- ===== src/Engine/Handle.antt =====
-- engine/engine.go: how a request is matched against the rules of its groups, resolved, and followed
-- along aliases. Asking the resolvers is the argument `resolve` over their state `W`.
pub mod Steps
pub mod Aliases
pub mod Blocking
pub mod Outcomes
use gudgeon.Prelude.{
  ℕ, zero, suc, List, [], ◌∷◌, ◌++◌, Bool, true, false, not, ◌&&◌, ◌||◌, Option, none, some,
  if◌then◌else◌, ltb, ◌==◌, length,
}
use gudgeon.Prelude.Text.{Text, codes, ends_with}
use gudgeon.Prelude.Dict.{Dict, lookup}
use gudgeon.Util.Domains.{dot, without_last}
use gudgeon.Util.Dns.{
  Record, a, aaaa, ptr, txt, cname, soa, generic, Question, Message, Printing, is_empty_response,
}
use gudgeon.Config.Lists.{GudgeonList}
use gudgeon.Config.Groups.{GudgeonGroup, GudgeonConsumer}
use gudgeon.Rule.Base.{Match, match_none, match_block, match_allow, Found, no_match, is_match}
use gudgeon.Resolver.{Outside, first_name, rename_first, rename_all}
use gudgeon.Engine.Consumers.{Consumer, get_groups}
use gudgeon.Engine.Groups.{
  Group, Result, empty_result, Handled, handled, panics, endless, ◌>>=◌, lists_of, resolvers_of,
  match_lists, match_groups, match_consumer,
}

-- `new(dns.Msg)`
abbrev pub new_message : Message
new_message = record {
  id = 0;
  rcode = 0;
  truncated = false;
  question = [];
  answer = [];
  ns = [];
  extra = [];
}

-- The codes of miekg/dns.
abbrev pub rcode_refused : ℕ
rcode_refused = 5

abbrev pub rcode_not_implemented : ℕ
rcode_not_implemented = 4

abbrev pub rcode_bad_name : ℕ
rcode_bad_name = 20

abbrev pub rcode_name_error : ℕ
rcode_name_error = 3

abbrev pub type_cname : ℕ
type_cname = 5

-- The map notImplemented: the types NONE, NULL, IXFR and AXFR.
unfoldable pub not_implemented : ℕ → Bool
not_implemented t = (t == 0) || ((t == 10) || ((t == 251) || (t == 252)))

-- `request.Question[0].Qtype`
unfoldable pub first_type : List Question → ℕ
first_type [] = 0
first_type (q ∷ questions) = q.qtype

module _ (printing : Printing) (outside : Outside) where
  open outside use {set_reply}

  -- A new reply with a code.
  unfoldable pub reply_with : ℕ → Message → Message
  reply_with rcode request = record (set_reply new_message request) { rcode = rcode }

  -- invalidRequestHandler on a request that is not nil: the reply to one that is not valid.
  unfoldable pub invalid_reply : Message → Option Message
  unfolding reply_with not_implemented first_type first_name
  invalid_reply request =
      if ltb (length request.question) 1
      then some (reply_with rcode_refused request)
      else if not_implemented (first_type request.question)
      then some (reply_with rcode_not_implemented request)
      else if ltb (length (first_name request.question)) 1
          || ltb 255 (length (first_name request.question))
      then some (reply_with rcode_bad_name request)
      else none

  -- What handleCnameResolution asks again: nothing, a request for the target of the first answer, or
  -- a panic where that answer is of the type CNAME and of another make.
  unfoldable pub alias_request : Message → Option Message → Handled (Option Message)
  unfolding first_type rename_first
  alias_request request none = handled none
  alias_request request (some m) = elim m.answer [
    | [] ↦ handled none
    | r ∷ records ↦
        if ltb (length request.question) 1
          || (not (r.rrtype == type_cname) || (first_type request.question == type_cname))
        then handled none
        else elim r.body [
          | a ip ↦ panics
          | aaaa ip ↦ panics
          | ptr t ↦ panics
          | txt ts ↦ panics
          | cname target ↦
              handled (some (record request { question = rename_first target request.question }))
          | soa t ↦ panics
          | generic ↦ panics
        ]
  ]

  -- The rest of handleCnameResolution: the response for the target under the name that was asked for.
  unfoldable pub alias_response : Message → Message → Option Message
  unfolding first_name rename_all
  alias_response request m =
      if is_empty_response printing (some m)
      then none
      else some (
          set_reply (record m { answer = rename_all (first_name request.question) m.answer })
            request)

  -- The end of HandleWithResolvers: an empty response becomes a reply that the name does not exist.
  unfoldable pub finish : Message → Option Message → Message
  finish request none = record (set_reply new_message request) { rcode = rcode_name_error }
  finish request (some m) =
      if is_empty_response printing (some m)
      then record (set_reply m request) { rcode = rcode_name_error }
      else m

  unfoldable pub or_result : Option Result → Result
  or_result none = empty_result
  or_result (some r) = r

  -- The response for the target, if it holds something, and else the one for the alias.
  unfoldable pub prefer : Option Message → Option Message → Option Message
  prefer m none = m
  prefer m (some n) = if is_empty_response printing (some n) then m else some n

  module _ (find : Option (List GudgeonList → Text → Found)) (groups : Dict Group) {W : Type 0}
      (resolve : List Text → Message → W → Option Message × Option Result × W) where
    abbrev pub Answer : Type 0
    Answer = Handled (Message × Result × W)

    -- HandleWithGroups, with HandleWithResolvers on the groups' names as the argument `go_on`.
    unfoldable pub with_groups :
        (List Text → Message → W → Answer) → List Text → Message → W → Answer
    with_groups go_on names request w =
        let found = match_groups find groups names (first_name request.question) in
        let resolved = go_on (resolvers_of groups names) request w in
        let blocked : Answer = handled (
          reply_with rcode_name_error request,
          record empty_result {
            match = found.match;
            match_list = found.list;
            match_rule = found.rule;
          },
          w,
        ) in
        elim (invalid_reply request) [
          | some m ↦ handled (m, empty_result, w)
          | none ↦ elim found.match [
            | match_block ↦ blocked
            | match_none ↦ resolved
            | match_allow ↦ resolved
          ]
        ]

    -- The second question of handleCnameResolution: to the groups of the context, if it has any, and
    -- else to the same resolvers.
    unfoldable pub ask_again :
        (List Text → List Text → Message → W → Answer)
        → List Text
        → List Text
        → Message
        → W
        → Answer
    ask_again handle names [] request w = handle names [] request w
    ask_again handle names (g ∷ context) request w =
        with_groups (λ rs. handle rs (g ∷ context)) (g ∷ context) request w

    -- HandleWithResolvers on the names of the resolvers and the groups of the context, with fuel for
    -- the aliases that are followed. The call of recover is no part of a deferred function, so that it
    -- gives nil and changes nothing.
    unfoldable pub handle_with_resolvers : ℕ → List Text → List Text → Message → W → Answer
    handle_with_resolvers zero names context request w = endless
    handle_with_resolvers (suc fuel) names context request w =
        let answered = resolve names request w in
        let followed : Answer = alias_request request answered.0 >>= λ asked. elim asked [
          | none ↦ handled (finish request answered.0, or_result answered.1, answered.2)
          | some again ↦
              ask_again (handle_with_resolvers fuel) names context again answered.2 >>= λ r.
              handled (
                finish request (prefer answered.0 (alias_response request r.0)),
                or_result answered.1,
                r.2,
              )
        ] in
        elim (invalid_reply request) [
          | some m ↦ handled (m, empty_result, w)
          | none ↦
              if ltb 0 (length names)
              then followed
              else handled (finish request none, empty_result, w)
        ]

    -- HandleWithGroups
    unfoldable pub handle_with_groups : ℕ → List Text → Message → W → Answer
    handle_with_groups fuel names request w =
        with_groups (λ rs. handle_with_resolvers fuel rs names) names request w

    -- HandleWithConsumer on a consumer that is not nil
    unfoldable pub handle_with_consumer : ℕ → Consumer → Message → W → Answer
    handle_with_consumer fuel c request w =
        let answered : Answer = handle_with_groups fuel (get_groups (some c)) request w >>= λ r.
        handled (r.0, record (r.1) { consumer = c.config.name }, r.2) in
        if c.config.block
        then handled (
          set_reply (record new_message { rcode = rcode_refused }) request,
          record empty_result { consumer = c.config.name; blocked = true },
          w,
        )
        else answered

    -- HandleWithConsumerName; a nil consumer is dereferenced, a panic.
    unfoldable pub handle_with_consumer_name :
        ℕ → Dict Consumer → Option Consumer → Text → Message → W → Answer
    handle_with_consumer_name fuel consumers default name request w = elim (lookup name consumers) [
      | some c ↦ handle_with_consumer fuel c request w
      | none ↦ elim default [ none ↦ panics | some c ↦ handle_with_consumer fuel c request w ]
    ]
