-- ===== src/Rule/Memory/Session.antt =====
-- The memory store fills the interface of the stores: FindMatch is the search that Rule.Spec
-- describes, on a store that was created and reloaded in any way.
use gudgeon.Prelude.{
  List, [], ◌∷◌, map, true, false, ◌≡◌, refl, ap, ◌∙◌, Option, none, some, any, All, length, arith,
  if◌then◌else◌, Option-cases, inl, inr,
}
use mathlib.Core.Path.{fun_ext}
use mathlib.Core.Bool.{false≢true}
use gudgeon.Prelude.Text.{Text, to_lower, equal_fold}
use gudgeon.Prelude.Dict.{lookup}
use gudgeon.Config.Lists.{GudgeonList, canonical_name}
use gudgeon.Util.Domains.{domain_list}
use gudgeon.Rule.Base.{Match, Found, no_match, found, empty_base, remove_list, two_passes}
use gudgeon.Rule.Spec.{first_hit, hit_action, spec_find}
use gudgeon.Rule.Fold.{FoldOrder}
use gudgeon.Rule.Load.{create_store, reload_list}
use gudgeon.Rule.Load.Laws.{
  same_name, named_in, StoreLaws, rules_in, add_each, add_all, holds_some, find_match-create_store,
  find_match-reload_list,
}
use gudgeon.Rule.Memory.{
  MemoryStore, init, clear, load, finalize, first_found, match_action, find_match, ops,
}
use gudgeon.Rule.Memory.Sorted.{IsSorted, IsLower, found_in_list-any}
use gudgeon.Rule.Memory.Content.{
  entry_holds, holds, holds-init, holds-load, holds-clear, IsReady, Ready, init_rules-Ready,
  load-Ready, clear-Ready, finalize_rules-Ready, finalize_rules-entry_holds,
}

module _ (order : FoldOrder) where
  -- What both the action and its description make of a rule that was found.
  abbrev answer : Match → GudgeonList → Option Text → Found
  answer k l none = no_match
  answer k l (some rule) = found k l rule

  -- Without an entry no domain is a hit.
  first_hit-missing :
      (s : MemoryStore) (domains : List Text) (l : GudgeonList) (ds : List Text)
      → lookup (canonical_name l) s.rules ≡ none
      → first_hit (holds s) domains l ds ≡ none
  unfolding first_hit
  first_hit-missing s domains l [] e = refl
  first_hit-missing s domains l (d ∷ ds) e =
      rw (unheld, first_hit) (first_hit-missing s domains l ds e)
    where
      unheld : holds s l d ≡ false
      unheld = unfold holds in rw (e, entry_holds)

  first_found-first_hit :
      (s : MemoryStore) (domains : List Text) (l : GudgeonList) (rs : List Text) (ds : List Text)
      (k : Match)
      → lookup (canonical_name l) s.rules ≡ some rs
      → IsSorted order rs
      → All IsLower rs
      → answer k l (first_found order rs ds) ≡ (elim (first_hit (holds s) domains l ds) [
        | none ↦ no_match
        | some d ↦ found k l (to_lower d)
      ])
  unfolding first_hit first_found
  first_found-first_hit s domains l rs [] k e h a = refl
  first_found-first_hit s domains l rs (d ∷ ds) k e h a = ground (
    arith,
    held,
    found_in_list-any order rs d h a,
    first_found-first_hit s domains l rs ds k e h a,
  )
    where
      held : holds s l d ≡ any (λ r. equal_fold r d) rs
      held = unfold holds in rw (e, entry_holds)

  match_action-hit_action :
      (s : MemoryStore) (domains : List Text) (k : Match) (l : GudgeonList)
      → Ready order [] s.rules
      → match_action order s.rules domains k l ≡ hit_action (holds s) domains to_lower k l
  unfolding match_action hit_action
  match_action-hit_action s domains k l r =
      elim (Option-cases (lookup (canonical_name l) s.rules)) [
        | inl n ↦ rw (n, match_action) (rw (first_hit-missing s domains l domains n, hit_action))
        | inr (rs, e) ↦
            rw (e, match_action)
              (same_answer (first_found order rs domains)
                ∙ first_found-first_hit s domains l rs domains k e (sorted rs e)
                    (r (canonical_name l) rs e).0)
      ]
    where
      sorted : (rs : List Text) → lookup (canonical_name l) s.rules ≡ some rs → IsSorted order rs
      sorted rs e =
          unfold any in
          elim (r (canonical_name l) rs e).1 [ inl h ↦ h | inr w ↦ absurd (false≢true w) ]

      same_answer :
          (o : Option Text)
          → (elim o [ none ↦ no_match | some rule ↦ found k l rule ]) ≡ answer k l o
      same_answer none = refl
      same_answer (some rule) = refl

  -- On a store whose entries are sorted FindMatch is the search that goes by what the store holds.
  find_match-spec_find :
      (given : List GudgeonList) (s : MemoryStore) (domain : Text)
      → Ready order [] s.rules
      → find_match order given domain s
        ≡ spec_find (holds s) (domain_list domain) to_lower given s.base
  unfolding find_match spec_find
  find_match-spec_find given s domain r =
      ap (λ (act : Match → GudgeonList → Found). two_passes given act s.base)
        (fun_ext λ k. fun_ext λ l. match_action-hit_action s (domain_list domain) k l r)

  pub nothing-Ready : Ready order [] []
  unfolding lookup
  nothing-Ready k rs e = absurd (none≢some e)
    where
      none≢some : none ≡ some rs → ⊥
      none≢some e = cc

  still :
      (pending : List GudgeonList) (k : Text) (rs : List Text)
      → IsReady order [] k rs
      → IsReady order pending k rs
  unfolding any
  still pending k rs (a, inl h) = (a, inl h)
  still pending k rs (a, inr w) = absurd (false≢true w)

  kept :
      (given : List GudgeonList) (s : MemoryStore) (l : GudgeonList) (d : Text)
      → holds (finalize order given s) l d ≡ holds s l d
  unfolding holds finalize
  kept given s l d = finalize_rules-entry_holds order given s.rules (canonical_name l) d

  -- The memory store as an implementation of the interface: a rule matches the domain that it equals
  -- but for case, and the rule that is shown is the domain in lower case.
  laws : StoreLaws (ops order) equal_fold to_lower
  unfolding ops init load clear finalize
  laws = record {
    base_of = λ s. s.base;
    holds = holds;
    Plain = λ _. Unit {0};
    Ready = λ _ pending s. Ready order pending s.rules;
    init-Ready = λ lists s _. init_rules-Ready order lists [] nothing-Ready;
    holds-init = holds-init;
    base_of-init = λ lists s. refl;
    pending-Ready = λ _ pending s r k rs e. still pending k rs (r k rs e);
    loaded = λ _ pending s l rule r _ n. (
      load l rule s,
      refl,
      load-Ready order pending s l rule r n,
      refl,
      λ k d. holds-load s l rule k d,
    );
    clear-Ready = λ _ pending s l r. clear-Ready order pending s l r;
    holds-clear = holds-clear;
    base_of-clear = λ s l. refl;
    finalize-Ready = λ _ given s r. finalize_rules-Ready order given s.rules r;
    holds-finalize = λ given s l d. kept given s l d;
    base_of-finalize = λ given s. refl;
    find_match-spec_find = λ _ given s domain r. find_match-spec_find given s domain r;
  }

  -- A new store.
  abbrev pub fresh : MemoryStore
  fresh = record { base = empty_base; rules = [] }

  -- A memory store that is created from any files never panics, reports how many rules each file
  -- holds, and answers FindMatch as a search through those rules, where a list holds the domain if
  -- some rule in a file of a list of its name equals the domain but for case.
  pub find_match-create_memory :
      (file : GudgeonList → Option (List Text)) (lists given : List GudgeonList) (domain : Text)
      → (t : MemoryStore) × (create_store (ops order) file lists fresh
          ≡ some (t, map (λ l. length (rules_in (file l))) lists))
        × (find_match order given domain t
            ≡ spec_find
                (holds_some equal_fold (λ l. rules_in (file l)) lists)
                (domain_list domain)
                to_lower
                given
                (add_all (λ l. rules_in (file l)) lists empty_base))
  unfolding ops find_match laws
  find_match-create_memory file lists given domain =
      let (t, e, _, f) = find_match-create_store laws file lists given domain fresh tt in (t, e, f)

  -- Reloading a list of a ready memory store, whose canonical name is that of a list that the store was
  -- initialised with, never panics and reports how many rules the new file holds. Afterwards FindMatch
  -- is a search by these rules: a list with the canonical name of the reloaded one holds what the new
  -- file has, and no other rule; every other list holds what it held. The registered lists that are
  -- searched are those of before, less the one of the type and short name of the reloaded list, which
  -- is registered again only if the new file has a rule.
  pub find_match-reload_memory :
      (lists given : List GudgeonList) (l : GudgeonList) (file : Option (List Text)) (domain : Text)
      (s : MemoryStore)
      → Ready order [] s.rules
      → named_in lists l ≡ true
      → (t : MemoryStore) × (reload_list (ops order) l file s ≡ some (t, length (rules_in file)))
        × (find_match order given domain t
            ≡ spec_find
                (λ k d.
                  if same_name l k
                  then any (λ rule. equal_fold rule d) (rules_in file)
                  else holds s k d)
                (domain_list domain)
                to_lower
                given
                (add_each l (rules_in file) (remove_list (some l) s.base)))
  unfolding ops find_match laws
  find_match-reload_memory lists given l file domain s r n =
      let (t, e, _, f) = find_match-reload_list laws lists given l file domain s r n in (t, e, f)
