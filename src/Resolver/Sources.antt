-- ===== src/Resolver/Sources.antt =====
-- resolver/multi_source.go, resolver/loadbalancing_source.go and resolver/resolver_source.go: sources
-- that ask other ones.
pub mod Turns
use gudgeon.Prelude.{
  ℕ, zero, suc, ◌+◌, ◌%◌, List, [], ◌∷◌, ◌++◌, Bool, true, false, Option, none, some, length,
  get_elem?, if◌then◌else◌,
}
use gudgeon.Prelude.Text.{Text, codes}
use gudgeon.Util.Strings.{string_in}
use gudgeon.Util.Dns.{Message, Printing, is_empty_response}
use gudgeon.Cache.{Backer}
use gudgeon.Resolver.{Reply, failed, responded, Context}

-- The index of the router after other requests took so many turns.
unfoldable pub after_turns : ℕ → ℕ → ℕ → ℕ
after_turns count zero idx = idx
after_turns count (suc turns) idx = (after_turns count turns idx + 1) % count

module _ (printing : Printing) (backer : Backer) where
  -- `err == nil && !util.IsEmptyResponse(response)`
  unfoldable pub is_answer : Reply → Bool
  is_answer failed = false
  is_answer (responded m) = if is_empty_response printing m then false else true

  module _ {S : Type 0} (name_of : S → Text)
      (ask : S → Message → Context printing backer → Reply × Context printing backer) where
    -- A source named in the context, in the brackets of the one that asked it.
    unfoldable pub use_source : Text → S → Context printing backer → Context printing backer
    use_source name s c = record c { source_used = name ++ codes "(" ++ name_of s ++ codes ")" }

    -- Answer of a multiSource, on a context that is not nil
    unfoldable pub multi_answer :
        Text → List S → Message → Context printing backer → Reply × Context printing backer
    unfolding is_answer use_source
    multi_answer name [] request c = (failed, c)
    multi_answer name (s ∷ sources) request c =
        let result = ask s request c in
        let rest = multi_answer name sources request result.1 in
        if is_answer result.0 then (result.0, use_source (codes "ms:" ++ name) s result.1) else rest

    -- The loop of an lbSource: the router gives the source at its index and moves on, and `none` is that
    -- the index is out of range, a panic; `tries` counts the rounds that are left. All requests share
    -- the router: `others` says how many turns other requests take since the last round of this one,
    -- before the round with so many left.
    unfoldable pub balanced_loop :
        Text
        → List S
        → (ℕ → ℕ)
        → ℕ
        → ℕ
        → Message
        → Context printing backer
        → Option (Reply × Context printing backer × ℕ)
    unfolding after_turns
    balanced_loop name sources others zero idx request c = some (failed, c, idx)
    balanced_loop name sources others (suc tries) idx request c =
        let turn = after_turns (length sources) (others tries) idx in
        elim (get_elem? sources turn) [
          | none ↦ none
          | some s ↦
              let result = ask s request c in
              let next = (turn + 1) % length sources in
              let rest = balanced_loop name sources others tries next request result.1 in
              if is_answer result.0
              then some (result.0, use_source (codes "lb:" ++ name) s result.1, next)
              else rest
        ]

    -- Answer of an lbSource with its index, on a context that is not nil: one round more than there
    -- are sources.
    unfoldable pub balanced_answer :
        Text
        → List S
        → (ℕ → ℕ)
        → ℕ
        → Message
        → Context printing backer
        → Option (Reply × Context printing backer × ℕ)
    balanced_answer name sources others idx request c =
        balanced_loop name sources others (suc (length sources)) idx request c

  -- Answer of a resolverSource, with the map's answerWithContext as the argument `answer`, on a context
  -- that has a map.
  unfoldable pub resolver_answer :
      (Text → Message → Context printing backer → Option Message × Context printing backer)
      → Text
      → Message
      → Context printing backer
      → Reply × Context printing backer
  resolver_answer answer name request c =
      let result = answer name request c in
      if string_in name c.visited then (responded none, c) else (responded result.0, result.1)
