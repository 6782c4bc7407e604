-- ===== src/Rule/Assembled.antt =====
-- rule/store.go: the store that CreateStore puts together, a reloading store over a complex store over
-- the chosen one.
use gudgeon.Prelude.{
  List, [], map, Bool, Option, some, ◌≡◌, refl, ap, ◌∙◌, All, length, Option-cases, inl, inr,
}
use gudgeon.Prelude.Text.{Text, to_lower, equal_fold}
use gudgeon.Config.Lists.{GudgeonList}
use gudgeon.Util.Domains.{domain_list}
use gudgeon.Rule.Base.{
  no_match, empty_base, two_passes, match_for_each_of_type_in, is_match, StoreOps,
}
use gudgeon.Rule.Spec.{spec_find}
use gudgeon.Rule.Fold.{FoldOrder}
use gudgeon.Rule.Load.{create_store}
use gudgeon.Rule.Load.Laws.{rules_in, holds_some, add_all}
use gudgeon.Rule.Memory
use gudgeon.Rule.Memory.Session as MemorySession
use gudgeon.Rule.Memory.Session.{find_match-create_memory}
use gudgeon.Rule.Complex
use gudgeon.Rule.Complex.{ComplexStore}
use gudgeon.Rule.Complex.Plain.{IsPlain, create_store-plain}
use gudgeon.Rule.Reloading
use gudgeon.Rule.Reloading.{ReloadingStore, over, over_result, created}

-- `&complexStore{backingStore: delegate}`
abbrev pub complex_over : {D : Type 0} → D → ComplexStore D
complex_over d = record { base = empty_base; backing = some d; complex_rules = [] }

-- `store.delegate = &complexStore{backingStore: delegate}`
abbrev pub assembled : {D : Type 0} → D → ReloadingStore (ComplexStore D)
assembled d = record { delegate = some (complex_over d) }

module _ (glob : Text → Text → Bool) (compile : Text → Option (Text → Bool)) {D : Type 0}
    (inner : StoreOps D) where
  -- The methods of the store, over those of the chosen one.
  abbrev pub assembled_ops : StoreOps (ReloadingStore (ComplexStore D))
  assembled_ops = Reloading.ops (Complex.ops glob compile inner)

  -- Without a list the assembled store finds nothing, if the chosen one does not.
  pub find_match-no_list :
      (s : ReloadingStore (ComplexStore D)) (domain : Text)
      → ((d : D) → inner.find_match [] domain d ≡ no_match)
      → assembled_ops.find_match [] domain s ≡ no_match
  unfolding Reloading.ops Reloading.find_match Complex.ops Complex.find_match two_passes
      match_for_each_of_type_in is_match
  find_match-no_list s domain h = elim (Option-cases s.delegate) [
    | inl n ↦ rw n
    | inr (c, n) ↦ elim (Option-cases c.backing) [
      | inl m ↦ rw (n, m)
      | inr (d, m) ↦ rw (n, m) (h d)
    ]
  ]

module _ (order : FoldOrder) (glob : Text → Text → Bool)
    (compile : Text → Option (Text → Bool)) where
  -- The store that CreateStore makes of a memory store, from files without complex rules for lists that
  -- are not for expressions only, never panics, reports how many rules each file holds, and answers
  -- FindMatch as a search through those rules.
  pub find_match-assembled_memory :
      (file : GudgeonList → Option (List Text)) (lists given : List GudgeonList) (domain : Text)
      → All (λ l. IsPlain glob compile (Memory.ops order) l (rules_in (file l))) lists
      → (t : ReloadingStore (ComplexStore Memory.MemoryStore)) × (create_store
            (assembled_ops glob compile (Memory.ops order))
            file
            lists
            (assembled (MemorySession.fresh order))
          ≡ some (t, map (λ l. length (rules_in (file l))) lists))
        × (Reloading.find_match (Complex.ops glob compile (Memory.ops order)) given domain t
            ≡ spec_find
                (holds_some equal_fold (λ l. rules_in (file l)) lists)
                (domain_list domain)
                to_lower
                given
                (add_all (λ l. rules_in (file l)) lists empty_base))
  unfolding Reloading.find_match Complex.ops Memory.ops
  find_match-assembled_memory file lists given domain plain =
      let (m, e, f) = find_match-create_memory order file lists given domain in
      let stack = Complex.ops glob compile (Memory.ops order) in
      let start = complex_over (MemorySession.fresh order) in
      let (c, g, same) =
        create_store-plain glob compile (Memory.ops order) file lists start
          (MemorySession.fresh order) m (map (λ l. length (rules_in (file l))) lists) refl plain
          e in
      (
        over stack c,
        created stack file lists start ∙ ap (over_result stack) g,
        same given domain ∙ f,
      )
