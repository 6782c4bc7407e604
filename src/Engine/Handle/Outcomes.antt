-- ===== src/Engine/Handle/Outcomes.antt =====
-- The reply and the result of a request for groups that is valid.
use gudgeon.Prelude.{
  ℕ, zero, suc, List, true, Option, none, some, ◌≡◌, ◌≢◌, refl, sym, ap, ◌∙◌, ◌⊎◌, inl, inr, length,
  ltb, Bool-cases,
}
use gudgeon.Prelude.Text.{Text}
use gudgeon.Prelude.Dict.{Dict}
use gudgeon.Util.Dns.{Message, Printing, is_empty_response}
use gudgeon.Config.Lists.{GudgeonList}
use gudgeon.Rule.Base.{match_none, match_block, match_allow, Found}
use gudgeon.Resolver.{Outside, first_name}
use gudgeon.Engine.Groups.{
  Group, Result, empty_result, Handled, handled, endless, match_groups, resolvers_of,
}
use gudgeon.Engine.Handle.{
  rcode_name_error, invalid_reply, alias_request, finish, or_result, reply_with, with_groups,
  handle_with_resolvers, handle_with_groups,
}
use gudgeon.Engine.Handle.Steps.{
  Handled-cases, Match-cases, allow-ne-block, none-ne-block, none-ne-allow, block-ne-allow,
  true-ne-false, panics-ne-handled, endless-ne-handled, handled-injective, >>=-handled,
  with_groups-go_on, alias-ne-endless, alias_step, no_resolver_step, no_alias_step, panic_step,
}

module _ (printing : Printing) (outside : Outside) (groups : Dict Group) {W : Type 0}
    (resolve : List Text → Message → W → Option Message × Option Result × W) where
  module _ (find : Option (List GudgeonList → Text → Found)) where
    -- The reply and the result of a request that is valid: both from the resolvers' answer.
    abbrev Outcome : List Text → Message → W → Message × Result × W → Type 0
    Outcome names request w r =
        ((o : Option Message) × (r.0 ≡ finish printing outside request o))
        × ((r.1 ≡ empty_result) ⊎ (r.1 ≡ or_result printing outside (resolve names request w).1))

    no_fuel :
        (names context : List Text) (request : Message) (w : W)
        → handle_with_resolvers printing outside find groups resolve zero names context request w
          ≡ endless
    unfolding handle_with_resolvers
    no_fuel names context request w = refl

    handle_with_resolvers-Outcome :
        (fuel : ℕ) (names context : List Text) (request : Message) (w : W)
        (r : Message × Result × W)
        → invalid_reply printing outside request ≡ none
        → handle_with_resolvers printing outside find groups resolve fuel names context request w
          ≡ handled r
        → Outcome names request w r
    handle_with_resolvers-Outcome zero names context request w r n e =
        absurd (endless-ne-handled (sym (no_fuel names context request w) ∙ e))
    handle_with_resolvers-Outcome (suc fuel) names context request w r n e =
        elim (Bool-cases (ltb 0 (length names))) [
          | inr l ↦
              let k = handled-injective _ _ (
                sym (
                  no_resolver_step printing outside find groups resolve fuel names context request w
                    n l)
                ∙ e) in
              (
                (none, sym (ap (λ (x : Message × Result × W). x.0) k)),
                inl (sym (ap (λ (x : Message × Result × W). x.1) k)),
              )
          | inl l ↦
              elim (Handled-cases
                (alias_request printing outside request (resolve names request w).0)) [
                  | inl k ↦ absurd (alias-ne-endless printing outside find groups resolve _ _ k)
                  | inr (inl k) ↦ absurd (
                      panics-ne-handled (
                        sym (
                          panic_step printing outside find groups resolve fuel names context request
                            w n l k)
                        ∙ e))
                  | inr (inr (none, k)) ↦
                      let j = handled-injective _ _ (
                        sym (
                          no_alias_step printing outside find groups resolve fuel names context
                            request w n l k)
                        ∙ e) in
                      (
                        (
                          (resolve names request w).0,
                          sym (ap (λ (x : Message × Result × W). x.0) j),
                        ),
                        inr (sym (ap (λ (x : Message × Result × W). x.1) j)),
                      )
                  | inr (inr (some again, k)) ↦
                      let (x, j) = >>=-handled _ _ _ (
                        sym (
                          alias_step printing outside find groups resolve fuel names context request
                            again w n l k)
                        ∙ e) in
                      (
                        (_, sym (ap (λ (x : Message × Result × W). x.0) j)),
                        inr (sym (ap (λ (x : Message × Result × W). x.1) j)),
                      )
                ]
        ]

    -- The ways a valid request for groups is handled: it is blocked, or the resolvers are asked.
    handle_with_groups_cases :
        (fuel : ℕ) (names : List Text) (request : Message) (w : W) (r : Message × Result × W)
        → invalid_reply printing outside request ≡ none
        → handle_with_groups printing outside find groups resolve fuel names request w ≡ handled r
        → ((r.0 ≡ reply_with printing outside rcode_name_error request)
            × ((r.1).match ≡ match_block))
          ⊎ Outcome (resolvers_of groups names) request w r
    unfolding handle_with_groups
    handle_with_groups_cases fuel names request w r n e = elim (Match-cases found.match) [
      | inl b ↦
          let k = handled-injective _ _ (sym (stopped b) ∙ e) in
          inl (
            sym (ap (λ (x : Message × Result × W). x.0) k),
            sym (ap (λ (x : Message × Result × W). x.1.match) k),
          )
      | inr (inl b) ↦ inr (asked (λ k. none-ne-block (sym b ∙ k)))
      | inr (inr b) ↦ inr (asked (λ k. allow-ne-block (sym b ∙ k)))
    ]
      where
        found : Found
        found = match_groups find groups names (first_name request.question)

        go_on : List Text → Message → W → Handled (Message × Result × W)
        go_on rs = handle_with_resolvers printing outside find groups resolve fuel rs names

        stopped :
            found.match ≡ match_block
            → with_groups printing outside find groups resolve go_on names request w
              ≡ handled (
                reply_with printing outside rcode_name_error request,
                record empty_result {
                  match = match_block;
                  match_list = found.list;
                  match_rule = found.rule;
                },
                w,
              )
        stopped b = unfold with_groups in rw (n, with_groups, b, b)

        asked : found.match ≢ match_block → Outcome (resolvers_of groups names) request w r
        asked b =
            handle_with_resolvers-Outcome fuel (resolvers_of groups names) names request w r n (
              sym (with_groups-go_on printing outside find groups resolve go_on names request w n b)
              ∙ e)

    finish-no_answer :
        (request : Message) (o : Option Message)
        → is_empty_response printing (some (finish printing outside request o)) ≡ true
        → (finish printing outside request o).rcode ≡ rcode_name_error
    unfolding finish
    finish-no_answer request none h = refl
    finish-no_answer request (some m) h = elim (Bool-cases (is_empty_response printing (some m))) [
      | inl k ↦ rw (k, finish)
      | inr k ↦ absurd (true-ne-false (sym h ∙ (rw (k, finish) k)))
    ]

    -- An empty answer that a valid request for groups is given says that the name does not exist.
    pub handle_with_groups-no_answer :
        (fuel : ℕ) (names : List Text) (request : Message) (w : W) (r : Message × Result × W)
        → invalid_reply printing outside request ≡ none
        → handle_with_groups printing outside find groups resolve fuel names request w ≡ handled r
        → is_empty_response printing (some r.0) ≡ true
        → (r.0).rcode ≡ rcode_name_error
    handle_with_groups-no_answer fuel names request w r n e h =
        elim (handle_with_groups_cases fuel names request w r n e) [
          | inl (m, _) ↦ ap (λ (x : Message). x.rcode) m ∙ unfold reply_with in refl
          | inr ((o, m), _) ↦
              ap (λ (x : Message). x.rcode) m
              ∙ finish-no_answer request o
                  (ap (λ (x : Message). is_empty_response printing (some x)) (sym m) ∙ h)
        ]

    -- If the results that the resolvers give tell of no match, then no valid request for groups is
    -- given a result that tells of a match that allows.
    pub handle_with_groups-no_allow :
        (fuel : ℕ) (names : List Text) (request : Message) (w : W) (r : Message × Result × W)
        → ((rs : List Text) (q : Message) (v : W)
            → (or_result printing outside (resolve rs q v).1).match ≡ match_none)
        → invalid_reply printing outside request ≡ none
        → handle_with_groups printing outside find groups resolve fuel names request w ≡ handled r
        → (r.1).match ≢ match_allow
    handle_with_groups-no_allow fuel names request w r h n e k =
        elim (handle_with_groups_cases fuel names request w r n e) [
          | inl (_, m) ↦ block-ne-allow (sym m ∙ k)
          | inr (_, inl m) ↦ none-ne-allow (sym (ap (λ (x : Result). x.match) m) ∙ k)
          | inr (_, inr m) ↦ none-ne-allow (
              sym (h (resolvers_of groups names) request w)
              ∙ (sym (ap (λ (x : Result). x.match) m) ∙ k))
        ]
