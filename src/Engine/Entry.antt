-- ===== src/Engine/Entry.antt =====
-- engine/engine.go: the entries to the engine, for a request of an address and for a name or an
-- address that the program itself asks for. The recorder is left out.
pub mod Defaults
use gudgeon.Prelude.{
  ℕ, List, [], ◌∷◌, map, Bool, true, false, not, ◌||◌, Option, none, some, if◌then◌else◌,
}
use gudgeon.Prelude.Text.{Text, is_empty, trim_space}
use gudgeon.Prelude.Dict.{Dict}
use gudgeon.Util.Domains.{reverse_lookup_domain}
use gudgeon.Util.Dns.{
  RecordData, a, aaaa, ptr, txt, cname, soa, generic, Record, Message, Printing,
  get_first_ip_response,
}
use gudgeon.Config.Lists.{GudgeonList}
use gudgeon.Rule.Base.{Found}
use gudgeon.Resolver.{Outside}
use gudgeon.Engine.Groups.{Group, Result, Handled, handled, panics, endless, ◌>>=◌, match_consumer}
use gudgeon.Engine.Handle.{new_message, Answer, handle_with_consumer, handle_with_groups}
use gudgeon.Engine.Consumers.{Consumer, Net, get_consumer_for_ip}
use gudgeon.Engine.Bootstrap.{Engine}

abbrev pub type_a : ℕ
type_a = 1

abbrev pub type_ptr : ℕ
type_ptr = 12

abbrev pub class_internet : ℕ
class_internet = 1

-- A request of one question.
unfoldable pub question_for : Text → ℕ → Message
question_for name qtype = record new_message {
  question = record { name = name; qtype = qtype; qclass = class_internet } ∷ [];
}

-- The loop of Reverse over the answers.
unfoldable pub first_pointer : List Record → Text
first_pointer [] = []
first_pointer (r ∷ records) =
    let rest = first_pointer records in
    elim r.body [
      | ptr t ↦ if is_empty t then rest else trim_space t
      | a ip ↦ rest
      | aaaa ip ↦ rest
      | txt ts ↦ rest
      | cname t ↦ rest
      | soa t ↦ rest
      | generic ↦ rest
    ]

module _ (printing : Printing) (outside : Outside) (net : Net)
    (find : Option (List GudgeonList → Text → Found)) (engine : Engine) {W : Type 0}
    (resolve : List Text → Message → W → Option Message × Option Result × W) where
  open engine use {groups, consumers, default_consumer_of}

  -- IsDomainRuleMatched
  unfoldable pub is_domain_rule_matched : List ℕ → Text → Found
  is_domain_rule_matched address domain =
      match_consumer find (get_consumer_for_ip net consumers default_consumer_of address) domain

  -- HandleWithConsumer on the consumer of an address, a panic where that is nil.
  unfoldable pub handle_for :
      ℕ → Option Consumer → Message → W → Answer printing outside find groups resolve
  handle_for fuel none request w = panics
  handle_for fuel (some c) request w =
      handle_with_consumer printing outside find groups resolve fuel c request w

  -- Handle
  unfoldable pub handle : ℕ → List ℕ → Message → W → Answer printing outside find groups resolve
  unfolding handle_for
  handle fuel address request w =
      handle_for fuel (get_consumer_for_ip net consumers default_consumer_of address) request w

  -- Resolve; `none` is the error for an empty name.
  unfoldable pub resolve_name : ℕ → Text → W → Handled (Option Text × W)
  unfolding handle_for question_for
  resolve_name fuel name w =
      let asked : Handled (Option Text × W) =
        handle_for fuel default_consumer_of (question_for (outside.fqdn name) type_a) w >>= λ r.
        handled (some (get_first_ip_response printing (some r.0)), r.2) in
      if is_empty name then handled (none, w) else asked

  -- Reverse, where the map of groups is gone through in the order `all_groups` of their names.
  unfoldable pub reverse_name : ℕ → List Text → Text → W → Handled (Text × W)
  unfolding question_for first_pointer
  reverse_name fuel all_groups address w =
      let asked : List ℕ → Handled (Text × W) = λ ip.
        handle_with_groups printing outside find groups resolve fuel all_groups
          (question_for (reverse_lookup_domain net.is_v4 (some ip)) type_ptr) w
        >>= λ r. handled (first_pointer (r.0).answer, r.2) in
      if is_empty address
      then handled ([], w)
      else elim (net.parse_ip address) [ none ↦ handled ([], w) | some ip ↦ asked ip ]
