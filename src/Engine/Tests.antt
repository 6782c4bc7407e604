-- ===== src/Engine/Tests.antt =====
-- Runs of the engine on a small configuration.
use gudgeon.Prelude.{
  ◌%◌, ◌^◌, ℕ, Bool, suc, ◌<◌, List, [], ◌∷◌, ◌++◌, map, true, false, Option, none, some, ◌≡◌, ◌≢◌,
  refl, sym, subst, ◌⊎◌, inl, inr, any, All, length, ap, ◌==◌, arith, Bool-cases, ltb,
  if◌then◌else◌,
}
use gudgeon.Prelude.Text.{Text, codes, is_empty, same, equal_fold}
use gudgeon.Prelude.Dict.{Dict, lookup}
use gudgeon.Util.Strings.{string_in}
use gudgeon.Util.Dns.{cname, Question, Record, Message, is_empty_response}
use gudgeon.Cache.Samples.{plain, asked}
use gudgeon.Config.Lists.{GudgeonList, block, canonical_name}
use gudgeon.Config.Groups.{GudgeonGroup, GudgeonConsumer}
use gudgeon.Rule.Base.{match_block, match_allow}
use gudgeon.Rule.Fold.{lowered_order}
use gudgeon.Rule.Load.Laws.{rules_in}
use gudgeon.Rule.Memory
use gudgeon.Rule.Memory.Session as MemorySession
use gudgeon.Rule.Complex.Plain.{IsPlain}
use gudgeon.Resolver.{Outside, first_name, rename_first}
use gudgeon.Resolver.Visited.{IsDistinct}
use gudgeon.Engine.Consumers.{Consumer, Net, some_matches, get_consumer_for_ip}
use gudgeon.Engine.Consumers.Lookup.{get_consumer_for_ip_lem}
use gudgeon.Engine.Bootstrap.{Engine, make_groups, make_consumer, bootstrap}
use gudgeon.Engine.Bootstrap.Links.{own_groups, gathered, make_consumer-own_groups}
use gudgeon.Engine.Bootstrap.Lookup.{make_consumer-lookup}
use gudgeon.Engine.Handle
use gudgeon.Engine.Groups.{
  Group, Result, empty_result, Handled, handled, panics, endless, match_groups, lists_of,
  resolvers_of,
}
use gudgeon.Engine.Handle.{
  invalid_reply, not_implemented, first_type, alias_request, rcode_name_error, with_groups,
  handle_with_resolvers, handle_with_groups, handle_with_consumer, or_result,
}
use gudgeon.Engine.Handle.Aliases.{
  IsEnded, IsMalformed, handle_with_resolvers-ends, handle_with_groups-endless,
}
use gudgeon.Engine.Handle.Outcomes.{handle_with_groups-no_answer, handle_with_groups-no_allow}
use gudgeon.Engine.Counters.{Metrics, total_rules, value, or_zero, list_changed}
use gudgeon.Engine.Counters.Totals.{rule_sum, list_changed-rule_sum}
use gudgeon.Engine.Entry.{handle}
use gudgeon.Engine.Entry.Defaults.{handle-default}

abbrev outside : Outside
outside = record {
  fqdn = λ name. name;
  set_reply = λ m request. record m { id = request.id; rcode = 0; question = request.question };
  glob = λ pattern name. false;
}

abbrev net : Net
net = record {
  parse_ip = λ s. some s;
  to16 = λ ip. ip;
  in_cidr = λ cidr ip. false;
  is_v4 = λ ip. true;
}

abbrev ads : GudgeonList
ads = record {
  name = codes "ads";
  short_name = codes "ads";
  type_name = codes "block";
  parsed_type = block;
  regex = some false;
  tags = none;
  source = codes "ads.txt";
}

abbrev home_group : GudgeonGroup
home_group = record {
  name = codes "default";
  inherit = [];
  resolvers = codes "home" ∷ [];
  lists = codes "ads" ∷ [];
  tags = none;
}

abbrev guest_group : GudgeonGroup
guest_group = record home_group { name = codes "guests" }

abbrev home_consumer : GudgeonConsumer
home_consumer = record {
  name = codes "Default";
  block = false;
  groups = codes "default" ∷ codes "guests" ∷ [];
  matches = record { ip = codes "me"; range = none; net = [] } ∷ [];
}

abbrev both_groups : List GudgeonGroup
both_groups = home_group ∷ guest_group ∷ []

abbrev made : Engine
made = bootstrap (ads ∷ []) both_groups (home_consumer ∷ [])

abbrev file : GudgeonList → Option (List Text)
file l = some (codes "a.ORG" ∷ [])

abbrev made_groups : List Group
made_groups = record { config = home_group; lists = ads ∷ [] } ∷ []

abbrev group_map : Dict Group
group_map = (codes "default", record { config = home_group; lists = ads ∷ [] }) ∷ []

-- Resolvers that answer every request with one alias, and count the requests.
abbrev alias : Record
alias = record { name = codes "A.org."; rrtype = 5; ttl = 60; body = cname (codes "A.org.") }

abbrev loop : List Text → Message → ℕ → Option Message × Option Result × ℕ
loop names request w = (some (record request { answer = alias ∷ [] }), none, suc w)

-- Resolvers that never answer.
abbrev silent : List Text → Message → ℕ → Option Message × Option Result × ℕ
silent names request w = (none, none, suc w)

abbrev LoopStep : ℕ → Message → Type 0
LoopStep v q =
    (invalid_reply plain outside q ≡ none)
    × ((match_groups none group_map (codes "default" ∷ []) (first_name q.question)).match
        ≢ match_block)
    × ((again : Message) × (alias_request plain outside q
            (loop (resolvers_of group_map (codes "default" ∷ [])) q v).0
          ≡ handled (some again))
        × (again ≡ asked))

valid : invalid_reply plain outside asked ≡ none
unfolding invalid_reply
valid = refl

asked_again : (v : ℕ) → LoopStep v asked
unfolding match_groups alias_request
asked_again v = (valid, (λ e. cc), (asked, refl, refl))

loop_steps : (q : Message) (v : ℕ) → q ≡ asked → LoopStep v q
loop_steps q v p = subst (LoopStep v) (sym p) (asked_again v)

handle_with_groups-endless_example :
    handle_with_groups plain outside none group_map loop 100 (codes "default" ∷ []) asked 0
    ≡ endless
unfolding resolvers_of lookup same
handle_with_groups-endless_example =
    handle_with_groups-endless plain outside none group_map loop (λ q. q ≡ asked) 100
      (codes "default" ∷ []) asked 0 loop_steps (omega arith) (omega arith) refl

-- Resolvers that answer a request for a name in the first domain by an alias in the second, which
-- they do not know.
abbrev onward : Record
onward = record { name = codes "A.org."; rrtype = 5; ttl = 60; body = cname (codes "b.org.") }

abbrev chain : List Text → Message → ℕ → Option Message × Option Result × ℕ
chain names request w = (
  if same (first_name request.question) (codes "A.org.")
      then some (record request { answer = onward ∷ [] })
      else none,
  none,
  suc w,
)

abbrev rank : Message → ℕ
rank q = if same (first_name q.question) (codes "A.org.") then 1 else 0

none-ne-some : {A : Type 0} {x : A} → handled none ≢ handled (some x)
none-ne-some e = cc

-- The name that a handled request asks for.
abbrev name_in : Handled (Option Message) → Text
name_in (handled (some m)) = first_name m.question
name_in (handled none) = []
name_in panics = []
name_in endless = []

onward_name :
    (q : Message) (questions : List Question) (again : Message)
    → alias_request plain outside
        (record q { question = questions })
        (some (record q { question = questions; answer = onward ∷ [] }))
      ≡ handled (some again)
    → same (first_name again.question) (codes "A.org.") ≡ false
unfolding alias_request first_name rename_first same
onward_name q [] again e = absurd (none-ne-some e)
onward_name q (x ∷ questions) again e = elim (Bool-cases (x.qtype == 5)) [
  | inl k ↦ absurd (none-ne-some (rw (small, k) at e))
  | inr k ↦ ap (λ (n : Text). same n (codes "A.org.")) (sym (ap name_in (rw (small, k) at e)))
]
  where
    small : ltb (length (x ∷ questions)) 1 ≡ false
    small = ground arith

falls :
    (rs : List Text) (q again : Message) (v : ℕ)
    → alias_request plain outside q (chain rs q v).0 ≡ handled (some again)
    → rank again < rank q
unfolding alias_request first_name rename_first same
falls rs q again v e = elim (Bool-cases (same (first_name q.question) (codes "A.org."))) [
  | inl k ↦ ground (arith, k, onward_name q q.question again (rw k at e))
  | inr k ↦ absurd (none-ne-some (rw k at e))
]

handle_with_resolvers-ends_example : IsEnded (IsMalformed plain outside none group_map chain) (
    handle_with_resolvers plain outside none group_map chain 2
      (codes "home" ∷ [])
      (codes "default" ∷ [])
      asked
      0)
unfolding first_name same
handle_with_resolvers-ends_example =
    handle_with_resolvers-ends plain outside none group_map chain rank 2 (codes "home" ∷ [])
      (codes "default" ∷ []) asked 0 falls (omega arith)

abbrev silence : Message × Result × ℕ
silence = (record asked { rcode = 3 }, empty_result, 1)

silent_run :
    handle_with_groups plain outside none group_map silent 1 (codes "default" ∷ []) asked 0
    ≡ handled silence
unfolding handle_with_groups with_groups invalid_reply match_groups handle_with_resolvers
    resolvers_of lookup same alias_request Handle.finish or_result
silent_run = refl

handle_with_groups-no_answer_example : (silence.0).rcode ≡ rcode_name_error
unfolding is_empty_response
handle_with_groups-no_answer_example =
    handle_with_groups-no_answer plain outside group_map silent none 1 (codes "default" ∷ []) asked
      0 silence valid silent_run refl

handle_with_groups-no_allow_example : (silence.1).match ≢ match_allow
unfolding or_result
handle_with_groups-no_allow_example =
    handle_with_groups-no_allow plain outside group_map silent none 1 (codes "default" ∷ []) asked 0
      silence (λ rs q v. refl) valid silent_run

get_consumer_for_ip_lem_example :
    (All (λ (c : Consumer). some_matches net c.config.matches (codes "me") ≡ false) (made.consumers)
      × (get_consumer_for_ip net made.consumers none (codes "me") ≡ none))
    ⊎ ((before after : List Consumer) × (c : Consumer) × (made.consumers ≡ before ++ c ∷ after)
        × All (λ (b : Consumer). some_matches net b.config.matches (codes "me") ≡ false) before
        × (some_matches net c.config.matches (codes "me") ≡ true)
        × (get_consumer_for_ip net made.consumers none (codes "me") ≡ some c))
get_consumer_for_ip_lem_example = get_consumer_for_ip_lem net made.consumers none (codes "me")

make_consumer-own_groups_example :
    ((make_consumer made_groups home_consumer).group_names
      ≡ map (λ (g : Group). g.config.name) (own_groups made_groups home_consumer))
    × ((make_consumer made_groups home_consumer).resolver_names
        ≡ gathered (λ g. g.config.resolvers) (own_groups made_groups home_consumer))
    × IsDistinct (map canonical_name (make_consumer made_groups home_consumer).lists)
    × ((n : Text)
        → string_in n (map canonical_name (make_consumer made_groups home_consumer).lists)
          ≡ string_in n
              (map canonical_name (gathered (λ g. g.lists) (own_groups made_groups home_consumer))))
make_consumer-own_groups_example = make_consumer-own_groups made_groups home_consumer

make_consumer-lookup_example :
    (resolvers_of made.groups
        (make_consumer (make_groups (ads ∷ []) both_groups) home_consumer).group_names
      ≡ (make_consumer (make_groups (ads ∷ []) both_groups) home_consumer).resolver_names)
    × ((n : Text)
        → string_in n (
            map canonical_name (
              lists_of made.groups
                (make_consumer (make_groups (ads ∷ []) both_groups) home_consumer).group_names))
          ≡ string_in n (
              map canonical_name
                (make_consumer (make_groups (ads ∷ []) both_groups) home_consumer).lists))
unfolding string_in same is_empty
make_consumer-lookup_example =
    make_consumer-lookup (ads ∷ []) both_groups (home_consumer ∷ []) home_consumer
      (refl, (refl, tt)) (refl, (refl, tt))

handle-default_example :
    (c : Consumer) × ((All
          (λ (b : Consumer). some_matches net b.config.matches (codes "you") ≡ false)
          made.consumers
        × (made.default_consumer_of ≡ some c))
      ⊎ ((before after : List Consumer) × (made.consumers ≡ before ++ c ∷ after)
          × All (λ (b : Consumer). some_matches net b.config.matches (codes "you") ≡ false) before
          × (some_matches net c.config.matches (codes "you") ≡ true)))
    × (handle plain outside net none made silent 1 (codes "you") asked 0
        ≡ handle_with_consumer plain outside none made.groups silent 1 c asked 0)
unfolding any equal_fold
handle-default_example =
    handle-default plain outside net none (ads ∷ []) both_groups (home_consumer ∷ []) silent 1
      (codes "you") asked 0 refl

-- go-glob and expressions that match nothing, which the files do not use.
abbrev no_glob : Text → Text → Bool
no_glob pattern name = false

abbrev no_compile : Text → Option (Text → Bool)
no_compile rule = none

abbrev PlainFiles : GudgeonList → Type 0
PlainFiles l = IsPlain no_glob no_compile (Memory.ops lowered_order) l (rules_in (file l))

-- Two lists with one rule and two rules.
abbrev counters : Metrics
counters =
    (codes "gudgeon-active-rules", 3)
    ∷ (codes "gudgeon-rules-list-ads", 1)
    ∷ (codes "gudgeon-rules-list-safe", 2)
    ∷ []

list_changed-rule_sum_example :
    value total_rules (list_changed (codes "ads") 5 counters)
    ≡ rule_sum (codes "ads" ∷ codes "safe" ∷ []) (list_changed (codes "ads") 5 counters) % 2 ^ 64
unfolding string_in same is_empty value lookup or_zero rule_sum
list_changed-rule_sum_example =
    list_changed-rule_sum (codes "ads" ∷ codes "safe" ∷ []) (codes "ads") 5 counters
      (refl, (refl, tt)) refl refl refl (omega arith) (omega arith)
