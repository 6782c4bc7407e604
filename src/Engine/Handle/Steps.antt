-- ===== src/Engine/Handle/Steps.antt =====
-- What each branch of the handling of a request comes to.
use gudgeon.Prelude.{
  ℕ, suc, List, true, false, Option, none, some, ◌≡◌, ◌≢◌, refl, ltb, length, arith, inl, inr, ◌⊎◌,
}
use gudgeon.Prelude.Text.{Text}
use gudgeon.Prelude.Dict.{Dict}
use gudgeon.Util.Dns.{Message, Printing}
use gudgeon.Config.Lists.{GudgeonList}
use gudgeon.Rule.Base.{Match, match_none, match_block, match_allow, Found}
use gudgeon.Resolver.{Outside, first_name}
use gudgeon.Engine.Groups.{
  Group, Result, Handled, handled, panics, endless, ◌>>=◌, match_groups, resolvers_of, empty_result,
}
use gudgeon.Engine.Handle.{
  invalid_reply, alias_request, finish, prefer, alias_response, or_result, with_groups, ask_again,
  handle_with_resolvers,
}

pub Handled-cases :
    {A : Type 0} (h : Handled A) → (h ≡ endless) ⊎ (h ≡ panics) ⊎ ((x : A) × (h ≡ handled x))
Handled-cases (handled x) = inr (inr (x, refl))
Handled-cases panics = inr (inl refl)
Handled-cases endless = inl refl

pub Match-cases : (m : Match) → (m ≡ match_block) ⊎ (m ≡ match_none) ⊎ (m ≡ match_allow)
Match-cases match_block = inl refl
Match-cases match_none = inr (inl refl)
Match-cases match_allow = inr (inr refl)

pub allow-ne-block : match_allow ≢ match_block
allow-ne-block e = cc

pub none-ne-block : match_none ≢ match_block
none-ne-block e = cc

pub none-ne-allow : match_none ≢ match_allow
none-ne-allow e = cc

pub block-ne-allow : match_block ≢ match_allow
block-ne-allow e = cc

pub true-ne-false : true ≢ false
true-ne-false e = cc

pub panics-ne-handled : {A : Type 0} {x : A} → panics ≢ handled x
panics-ne-handled e = cc

pub endless-ne-handled : {A : Type 0} {x : A} → endless ≢ handled x
endless-ne-handled e = cc

pub handled-injective : {A : Type 0} (x y : A) → handled x ≡ handled y → x ≡ y
handled-injective x y e = cc

pub >>=-handled :
    {A B : Type 0} (h : Handled A) (f : A → B) (y : B)
    → (h >>= λ x. handled (f x)) ≡ handled y
    → (x : A) × (f x ≡ y)
>>=-handled (handled x) f y e = (x, handled-injective _ _ e)
>>=-handled panics f y e = absurd (panics-ne-handled e)
>>=-handled endless f y e = absurd (endless-ne-handled e)

module _ (printing : Printing) (outside : Outside) (find : Option (List GudgeonList → Text → Found))
    (groups : Dict Group) {W : Type 0}
    (resolve : List Text → Message → W → Option Message × Option Result × W) where
  pub with_groups-go_on :
      (go_on : List Text → Message → W → Handled (Message × Result × W)) (names : List Text)
      (request : Message) (w : W)
      → invalid_reply printing outside request ≡ none
      → (match_groups find groups names (first_name request.question)).match ≢ match_block
      → with_groups printing outside find groups resolve go_on names request w
        ≡ go_on (resolvers_of groups names) request w
  unfolding with_groups
  with_groups-go_on go_on names request w n b =
      elim (Match-cases (match_groups find groups names (first_name request.question)).match) [
        | inl e ↦ absurd (b e)
        | inr (inl e) ↦ rw (n, with_groups, e)
        | inr (inr e) ↦ rw (n, with_groups, e)
      ]

  pub alias-ne-endless :
      (request : Message) (o : Option Message) → alias_request printing outside request o ≢ endless
  unfolding alias_request
  alias-ne-endless request o e = ground (arith, e)

  -- What follows once an alias leads to another request.
  pub alias_step :
      (fuel : ℕ) (names context : List Text) (request again : Message) (w : W)
      → invalid_reply printing outside request ≡ none
      → ltb 0 (length names) ≡ true
      → alias_request printing outside request (resolve names request w).0 ≡ handled (some again)
      → handle_with_resolvers printing outside find groups resolve
          (suc fuel)
          names
          context
          request
          w
        ≡ (ask_again printing outside find groups resolve
              (handle_with_resolvers printing outside find groups resolve fuel)
              names
              context
              again
              (resolve names request w).2
            >>= λ r. handled (
              finish printing outside request (
                  prefer printing outside
                    (resolve names request w).0
                    (alias_response printing outside request r.0)),
              or_result printing outside (resolve names request w).1,
              r.2,
            ))
  unfolding handle_with_resolvers
  alias_step fuel names context request again w n l e = rw (n, handle_with_resolvers, l, e)

  -- The other ways a request is handled: it is not valid, no resolver is named, nothing is asked
  -- again, or the first answer is of another make.
  pub invalid_step :
      (fuel : ℕ) (names context : List Text) (request m : Message) (w : W)
      → invalid_reply printing outside request ≡ some m
      → handle_with_resolvers printing outside find groups resolve
          (suc fuel)
          names
          context
          request
          w
        ≡ handled (m, empty_result, w)
  unfolding handle_with_resolvers
  invalid_step fuel names context request m w n = rw (n, handle_with_resolvers)

  pub no_resolver_step :
      (fuel : ℕ) (names context : List Text) (request : Message) (w : W)
      → invalid_reply printing outside request ≡ none
      → ltb 0 (length names) ≡ false
      → handle_with_resolvers printing outside find groups resolve
          (suc fuel)
          names
          context
          request
          w
        ≡ handled (finish printing outside request none, empty_result, w)
  unfolding handle_with_resolvers
  no_resolver_step fuel names context request w n l = rw (n, handle_with_resolvers, l)

  pub no_alias_step :
      (fuel : ℕ) (names context : List Text) (request : Message) (w : W)
      → invalid_reply printing outside request ≡ none
      → ltb 0 (length names) ≡ true
      → alias_request printing outside request (resolve names request w).0 ≡ handled none
      → handle_with_resolvers printing outside find groups resolve
          (suc fuel)
          names
          context
          request
          w
        ≡ handled (
          finish printing outside request (resolve names request w).0,
          or_result printing outside (resolve names request w).1,
          (resolve names request w).2,
        )
  unfolding handle_with_resolvers
  no_alias_step fuel names context request w n l k = rw (n, handle_with_resolvers, l, k)

  pub panic_step :
      (fuel : ℕ) (names context : List Text) (request : Message) (w : W)
      → invalid_reply printing outside request ≡ none
      → ltb 0 (length names) ≡ true
      → alias_request printing outside request (resolve names request w).0 ≡ panics
      → handle_with_resolvers printing outside find groups resolve
          (suc fuel)
          names
          context
          request
          w
        ≡ panics
  unfolding handle_with_resolvers
  panic_step fuel names context request w n l k = rw (n, handle_with_resolvers, l, k)
