-- ===== src/Engine/Handle/Aliases.antt =====
-- How far a request is followed along aliases.
use gudgeon.Prelude.{
  true, ℕ, zero, suc, ◌<◌, List, [], ◌∷◌, Option, none, some, ◌≡◌, ◌≢◌, refl, sym, subst, ◌∙◌, ltb,
  length, lt→ltb, arith, Bool-cases, Option-cases, inl, inr, ◌⊎◌,
}
use gudgeon.Prelude.Text.{Text}
use gudgeon.Prelude.Dict.{Dict}
use gudgeon.Util.Dns.{Message, Printing}
use gudgeon.Config.Lists.{GudgeonList}
use gudgeon.Rule.Base.{match_block, Found}
use gudgeon.Resolver.{Outside, first_name}
use gudgeon.Engine.Groups.{
  Group, Result, Handled, handled, panics, endless, ◌>>=◌, match_groups, resolvers_of,
}
use gudgeon.Engine.Handle.{
  invalid_reply, with_groups, alias_request, ask_again, handle_with_resolvers, handle_with_groups,
}
use gudgeon.Engine.Handle.Steps.{
  Handled-cases, Match-cases, with_groups-go_on, alias-ne-endless, alias_step, invalid_step,
  no_resolver_step, no_alias_step, panic_step,
}

-- What was handled gave an answer, or it panics and that has a cause.
abbrev pub IsEnded : {A : Type 0} → Type 0 → Handled A → Type 0
IsEnded {A} Cause h = (Cause × (h ≡ panics)) ⊎ ((x : A) × (h ≡ handled x))

>>=-IsEnded :
    {A B Cause : Type 0} (h : Handled A) (f : A → B)
    → IsEnded Cause h
    → IsEnded Cause (h >>= λ x. handled (f x))
>>=-IsEnded h f (inl (c, e)) = inl (c, rw e)
>>=-IsEnded h f (inr (x, e)) = inr (f x, rw e)

module _ (printing : Printing) (outside : Outside) (find : Option (List GudgeonList → Text → Found))
    (groups : Dict Group) {W : Type 0}
    (resolve : List Text → Message → W → Option Message × Option Result × W) where
  -- Some answer of the resolvers makes asking for its alias panic.
  abbrev pub IsMalformed : Type 0
  IsMalformed =
      (rs : List Text) × (q : Message) × (v : W) × (alias_request printing outside q
          (resolve rs q v).0
        ≡ panics)

  with_groups-IsEnded :
      (go_on : List Text → Message → W → Handled (Message × Result × W)) (names : List Text)
      (request : Message) (w : W)
      → IsEnded IsMalformed (go_on (resolvers_of groups names) request w)
      → IsEnded IsMalformed (with_groups printing outside find groups resolve go_on names request w)
  unfolding with_groups
  with_groups-IsEnded go_on names request w h =
      elim (Option-cases (invalid_reply printing outside request)) [
        | inr (m, n) ↦ rw (n, with_groups) (inr (_, refl))
        | inl n ↦
            elim (Match-cases
              (match_groups find groups names (first_name request.question)).match) [
                | inl e ↦ rw (n, with_groups, e) (inr (_, refl))
                | inr (inl e) ↦ rw (n, with_groups, e) h
                | inr (inr e) ↦ rw (n, with_groups, e) h
              ]
      ]

  ask_again-IsEnded :
      (handle : List Text → List Text → Message → W → Handled (Message × Result × W))
      (names context : List Text) (request : Message) (w : W)
      → ((rs : List Text) → IsEnded IsMalformed (handle rs context request w))
      → IsEnded IsMalformed
          (ask_again printing outside find groups resolve handle names context request w)
  unfolding ask_again
  ask_again-IsEnded handle names [] request w h = h names
  ask_again-IsEnded handle names (g ∷ context) request w h =
      with_groups-IsEnded (λ rs. handle rs (g ∷ context)) (g ∷ context) request w
        (h (resolvers_of groups (g ∷ context)))

  -- The step along an alias ends if every request for its target does.
  alias_step-IsEnded :
      (fuel : ℕ) (names context : List Text) (request again : Message) (w : W)
      → invalid_reply printing outside request ≡ none
      → ltb 0 (length names) ≡ true
      → alias_request printing outside request (resolve names request w).0 ≡ handled (some again)
      → ((rs : List Text)
          → IsEnded IsMalformed (
              handle_with_resolvers printing outside find groups resolve fuel rs context again
                (resolve names request w).2))
      → IsEnded IsMalformed (
          handle_with_resolvers printing outside find groups resolve
            (suc fuel)
            names
            context
            request
            w)
  alias_step-IsEnded fuel names context request again w n l k ended =
      subst (IsEnded IsMalformed)
        (sym (
          alias_step printing outside find groups resolve fuel names context request again w n l k))
        (>>=-IsEnded _ _ (
          ask_again-IsEnded (handle_with_resolvers printing outside find groups resolve fuel) names
            context again (resolve names request w).2 ended))

  -- If every alias that the resolvers answer leads to a request of a lower rank, for some rank of
  -- requests, then the handling of a request by resolvers comes to an end within as much fuel as
  -- exceeds its rank: it gives a reply with its result, or it panics, and then some answer of the
  -- resolvers makes the asking for its alias panic.
  pub handle_with_resolvers-ends :
      (rank : Message → ℕ) (fuel : ℕ) (names context : List Text) (request : Message) (w : W)
      → ((rs : List Text) (q again : Message) (v : W)
          → alias_request printing outside q (resolve rs q v).0 ≡ handled (some again)
          → rank again < rank q)
      → rank request < fuel
      → IsEnded IsMalformed
          (handle_with_resolvers printing outside find groups resolve fuel names context request w)
  handle_with_resolvers-ends rank zero names context request w falls h = absurd (omega arith)
  handle_with_resolvers-ends rank (suc fuel) names context request w falls h =
      elim (Option-cases (invalid_reply printing outside request)) [
        | inr (m, n) ↦
            inr (
              _,
              invalid_step printing outside find groups resolve fuel names context request m w n,
            )
        | inl n ↦ elim (Bool-cases (ltb 0 (length names))) [
          | inr l ↦ inr (
            _,
            no_resolver_step printing outside find groups resolve fuel names context request w n l,
          )
          | inl l ↦
              elim (Handled-cases
                (alias_request printing outside request (resolve names request w).0)) [
                  | inl k ↦ absurd (alias-ne-endless printing outside find groups resolve _ _ k)
                  | inr (inl k) ↦ inl (
                    (names, request, w, k),
                    panic_step printing outside find groups resolve fuel names context request w n l
                        k,
                  )
                  | inr (inr (none, k)) ↦ inr (
                    _,
                    no_alias_step printing outside find groups resolve fuel names context request w
                        n l k,
                  )
                  | inr (inr (some again, k)) ↦
                      alias_step-IsEnded fuel names context request again w n l k (λ rs.
                        handle_with_resolvers-ends rank fuel rs context again
                          (resolve names request w).2 falls
                          (omega (falls names request again w k, h, arith)))
                ]
        ]
      ]

  -- If every request of a class is valid, blocked by no rule of the groups, and answered by an alias
  -- to another request of the class, and the groups name a resolver, then handling a request of the
  -- class for the groups comes to no end, whatever the fuel: the code follows aliases without a bound.
  pub handle_with_groups-endless :
      (P : Message → Type 0) (fuel : ℕ) (context : List Text) (request : Message) (w : W)
      → ((q : Message) (v : W)
          → P q
          → (invalid_reply printing outside q ≡ none)
            × ((match_groups find groups context (first_name q.question)).match ≢ match_block)
            × ((again : Message) × (alias_request printing outside q
                    (resolve (resolvers_of groups context) q v).0
                  ≡ handled (some again))
                × P again))
      → 0 < length (resolvers_of groups context)
      → 0 < length context
      → P request
      → handle_with_groups printing outside find groups resolve fuel context request w ≡ endless
  unfolding handle_with_groups ask_again
  handle_with_groups-endless P zero context request w steps l k p =
      let (n, b, _) = steps request w p in
      with_groups-go_on printing outside find groups resolve _ context request w n b
      ∙ unfold handle_with_resolvers in refl
  handle_with_groups-endless P (suc fuel) [] request w steps l k p = absurd (omega arith)
  handle_with_groups-endless P (suc fuel) (g ∷ context) request w steps l k p =
      let (n, b, (again, e, q)) = steps request w p in
      let ended =
        handle_with_groups-endless P fuel (g ∷ context) again
          (resolve (resolvers_of groups (g ∷ context)) request w).2 steps l k q in
      with_groups-go_on printing outside find groups resolve _ (g ∷ context) request w n b
      ∙ (alias_step printing outside find groups resolve fuel (resolvers_of groups (g ∷ context))
            (g ∷ context) request again w n (lt→ltb _ _ l) e
          ∙ rw ended)
