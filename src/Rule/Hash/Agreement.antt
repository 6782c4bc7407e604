-- ===== src/Rule/Hash/Agreement.antt =====
-- The hash store against the memory store.
use gudgeon.Prelude.{ℕ, List, [], ◌∷◌, map, ◌≡◌, refl, Option, some, any, All, length}
use gudgeon.Prelude.Text.{Text, to_lower, equal_fold}
use gudgeon.Config.Lists.{GudgeonList}
use gudgeon.Util.Domains.{domain_list}
use gudgeon.Rule.Base.{empty_base, StoreOps}
use gudgeon.Rule.Spec.Agree.{Agree, spec_find-Agree}
use gudgeon.Rule.Fold.{FoldOrder}
use gudgeon.Rule.Load.{create_store}
use gudgeon.Rule.Load.Laws.{rules_in, add_all, holds_some}
use gudgeon.Rule.Memory
use gudgeon.Rule.Memory.{MemoryStore}
use gudgeon.Rule.Memory.Session.{find_match-create_memory}
use gudgeon.Rule.Hash.{HashStore, find_match, ops}
use gudgeon.Rule.Hash.Session.{matches, find_match-create_hash}
use gudgeon.Rule.Memory.Session as MemorySession
use gudgeon.Rule.Hash.Session as HashSession

module _ (sum : Text → ℕ) {D : Type 0} (inner : StoreOps D) where
  -- No rule of the files has the hash of one of the domains without being that domain but for case.
  abbrev pub NoCollision : (GudgeonList → List Text) → List GudgeonList → List Text → Type 0
  NoCollision rules lists domains =
      All
        (λ d. All (λ l. All (λ rule. matches sum inner rule d ≡ equal_fold rule d) (rules l)) lists)
        domains

  any-agree :
      (rules : List Text) (d : Text)
      → All (λ rule. matches sum inner rule d ≡ equal_fold rule d) rules
      → any (λ rule. matches sum inner rule d) rules ≡ any (λ rule. equal_fold rule d) rules
  unfolding any
  any-agree [] d a = refl
  any-agree (rule ∷ rules) d a = rw (a.0, any-agree rules d a.1)

  holds_some-agree :
      (rules : GudgeonList → List Text) (lists : List GudgeonList) (k : GudgeonList) (d : Text)
      → All (λ l. All (λ rule. matches sum inner rule d ≡ equal_fold rule d) (rules l)) lists
      → holds_some (matches sum inner) rules lists k d ≡ holds_some equal_fold rules lists k d
  unfolding holds_some
  holds_some-agree rules [] k d a = refl
  holds_some-agree rules (l ∷ lists) k d a =
      rw (any-agree (rules l) d a.0, holds_some-agree rules lists k d a.1)

  tests_agree :
      (rules : GudgeonList → List Text) (lists : List GudgeonList) (ds : List Text)
      (k : GudgeonList)
      → NoCollision rules lists ds
      → All
          (λ d.
            holds_some (matches sum inner) rules lists k d ≡ holds_some equal_fold rules lists k d)
          ds
  tests_agree rules lists [] k a = tt
  tests_agree rules lists (d ∷ ds) k a =
      (holds_some-agree rules lists k d a.0, tests_agree rules lists ds k a.1)

  -- Where no rule of the files collides with one of the domains of the name, the memory store and
  -- the hash store that are created from the files give the same match and the same list.
  pub hash_agrees-memory :
      (order : FoldOrder) (file : GudgeonList → Option (List Text)) (lists given : List GudgeonList)
      (domain : Text)
      → NoCollision (λ l. rules_in (file l)) lists (domain_list domain)
      → (m : MemoryStore) × (h : HashStore D) × (create_store
            (Memory.ops order)
            file
            lists
            (MemorySession.fresh order)
          ≡ some (m, map (λ l. length (rules_in (file l))) lists))
        × (create_store (ops sum inner) file lists (HashSession.fresh sum inner)
            ≡ some (h, map (λ l. length (rules_in (file l))) lists))
        × Agree (find_match sum inner given domain h) (Memory.find_match order given domain m)
  hash_agrees-memory order file lists given domain free =
      let (m, e, f) = find_match-create_memory order file lists given domain in
      let (h, e', f') = find_match-create_hash sum inner file lists given domain in
      (
        m,
        h,
        e,
        e',
        rw (f, f')
            (spec_find-Agree _ _ (domain_list domain) (λ d. d) to_lower given
              (add_all (λ l. rules_in (file l)) lists empty_base)
              (λ l. tests_agree (λ l. rules_in (file l)) lists (domain_list domain) l free)),
      )
