-- ===== src/Engine/Handle/Blocking.antt =====
-- How the rules of the groups block a request, over a memory store.
use gudgeon.Prelude.{ℕ, List, Bool, true, false, Option, some, ◌≡◌, ◌⊎◌, if◌then◌else◌}
use gudgeon.Prelude.Text.{Text, to_lower, equal_fold, ends_with}
use gudgeon.Prelude.Dict.{Dict}
use gudgeon.Util.Domains.{dot, without_last, domain_list}
use gudgeon.Util.Dns.{Message, Printing}
use gudgeon.Config.Lists.{ListType, GudgeonList, allow, block}
use gudgeon.Rule.Base.{match_block, BaseStore, StoreOps, Found, found, empty_base}
use gudgeon.Rule.Spec.{hits, IsHit}
use gudgeon.Rule.Fold.{FoldOrder}
use gudgeon.Rule.Load.Laws.{rules_in, holds_some, add_all}
use gudgeon.Rule.Memory
use gudgeon.Rule.Memory.{MemoryStore}
use gudgeon.Rule.Memory.Session as MemorySession
use gudgeon.Rule.Complex
use gudgeon.Rule.Complex.{ComplexStore}
use gudgeon.Rule.Reloading
use gudgeon.Rule.Reloading.{ReloadingStore}
use gudgeon.Resolver.{Outside, first_name}
use gudgeon.Engine.Groups.{Group, Result, empty_result, Handled, handled, lists_of, resolvers_of}
use gudgeon.Engine.Handle.{rcode_name_error, reply_with, handle_with_resolvers, handle_with_groups}

-- A name without the dot at its end, if it has one.
abbrev pub undotted : Text → Text
undotted name = if ends_with dot name then without_last name else name

module _ (printing : Printing) (outside : Outside) (groups : Dict Group) {W : Type 0}
    (resolve : List Text → Message → W → Option Message × Option Result × W) where
  module _ (order : FoldOrder) (glob : Text → Text → Bool) (compile : Text → Option (Text → Bool))
      (file : GudgeonList → Option (List Text)) (lists : List GudgeonList) where
    -- The rules that a name of a list has, the names that a request is looked up by, and the lists
    -- that have a rule, registered.
    abbrev pub held : GudgeonList → Text → Bool
    held = holds_some equal_fold (λ l. rules_in (file l)) lists

    abbrev pub asked_names : Message → List Text
    asked_names request = domain_list (undotted (first_name request.question))

    abbrev pub registered : BaseStore
    registered = add_all (λ l. rules_in (file l)) lists empty_base

    -- Some list of a type that the groups have and the store has registered holds a rule of the files
    -- for the name or one of its parents.
    abbrev pub groups_hit : ListType → List Text → Message → Bool
    groups_hit t names request =
        hits held (asked_names request) t (lists_of groups names) registered

    -- No list of the groups that allows holds a rule for the name or one of its parents, one that
    -- blocks does, and the answer is the reply that the name does not exist, with a result that names
    -- such a list and rule.
    abbrev pub IsBlocked : List Text → Message → W → Handled (Message × Result × W) → Type 0
    IsBlocked names request w answered =
        (groups_hit allow names request ≡ false)
        × (groups_hit block names request ≡ true)
        × ((l : GudgeonList) × (rule : Text) × IsHit held (asked_names request) to_lower match_block
              block (lists_of groups names) registered (found match_block l rule)
            × (answered
                ≡ handled (
                  reply_with printing outside rcode_name_error request,
                  record empty_result {
                    match = match_block;
                    match_list = some l;
                    match_rule = rule;
                  },
                  w,
                )))

    abbrev pub stack : StoreOps (ComplexStore MemoryStore)
    stack = Complex.ops glob compile (Memory.ops order)

    -- FindMatch of the store that the engine has.
    abbrev pub finder : ReloadingStore (ComplexStore MemoryStore) → List GudgeonList → Text → Found
    finder t given domain = Reloading.find_match stack given domain t

    -- The two ways in which a request is handled.
    abbrev pub IsBlockedOrResolved :
        ℕ → List Text → Message → W → ReloadingStore (ComplexStore MemoryStore) → Type 0
    IsBlockedOrResolved fuel names request w t =
        IsBlocked names request w (
          handle_with_groups printing outside (some (finder t)) groups resolve fuel names request w)
        ⊎ (((groups_hit allow names request ≡ true) ⊎ (groups_hit block names request ≡ false))
            × (handle_with_groups printing outside (some (finder t)) groups resolve fuel names
                  request w
                ≡ handle_with_resolvers printing outside (some (finder t)) groups resolve fuel
                    (resolvers_of groups names) names request w))
