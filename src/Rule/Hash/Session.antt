-- ===== src/Rule/Hash/Session.antt =====
-- The hash store without a delegate fills the interface of the stores, where a rule matches the
-- domains that have its hash.
use mathlib.Core.Path.{fun_ext}
use mathlib.Core.Bool.{false≢true}
use gudgeon.Prelude.{
  ℕ, List, [], ◌∷◌, map, Bool, true, false, not, ◌&&◌, ◌||◌, ◌≡◌, refl, sym, ap, Option, none, some,
  any, length, arith, ◌==◌, ==_iff, if◌then◌else◌, Bool-cases, Option-cases, ◌⊎◌, inl, inr, subst,
}
use gudgeon.Prelude.Text.{Text, same, same_iff, to_lower}
use gudgeon.Prelude.Dict.{Dict, lookup, insert, lookup-insert}
use gudgeon.Config.Lists.{GudgeonList, canonical_name}
use gudgeon.Util.Domains.{domain_list}
use gudgeon.Rule.Base.{Match, Found, no_match, empty_base, add_list, two_passes, StoreOps}
use gudgeon.Rule.Spec.{first_hit, hit_action, spec_find}
use gudgeon.Rule.Load.{create_store}
use gudgeon.Rule.Load.Laws.{
  same_name, named_in, StoreLaws, rules_in, add_all, holds_some, find_match-create_store,
}
use gudgeon.Rule.Hash.{
  HashStore, has_hash, add_hash, init_hashes, init, clear, load_delegate, load, finalize,
  first_hash, hit_answer, match_action, find_match, on_delegate, ops,
}

unfoldable pub entry_holds : Option (List ℕ) → ℕ → Bool
entry_holds none h = false
entry_holds (some set) h = has_hash set h

entry_holds-insert :
    (j k : Text) (set : List ℕ) (m : Dict (List ℕ)) (h : ℕ)
    → entry_holds (lookup k (insert j set m)) h
      ≡ (if same j k then has_hash set h else entry_holds (lookup k m) h)
unfolding entry_holds
entry_holds-insert j k set m h = ground (arith, lookup-insert j k set m)

entry_holds-same :
    (j k : Text) (m : Dict (List ℕ)) (h : ℕ)
    → same j k ≡ true
    → entry_holds (lookup k m) h ≡ entry_holds (lookup j m) h
entry_holds-same j k m h e =
    ap (λ (i : Text). entry_holds (lookup i m) h) (sym ((same_iff j k).0 e))

has_hash-add_hash :
    (x h : ℕ) (set : List ℕ) → has_hash (add_hash x set) h ≡ (has_hash set h || (x == h))
has_hash-add_hash x h set = elim (Bool-cases (has_hash set x)) [
  | inl t ↦ present t
  | inr f ↦ unfold add_hash in rw f (unfold has_hash any in ground arith)
]
  where
    present : has_hash set x ≡ true → has_hash (add_hash x set) h ≡ (has_hash set h || (x == h))
    present t = elim (Bool-cases (x == h)) [
      | inl e ↦ unfold add_hash in rw t (ground (arith, ap (has_hash set) ((==_iff x h).0 e)))
      | inr e ↦ unfold add_hash in rw (t, e) (ground arith)
    ]

has_hash-nil : (h : ℕ) → has_hash [] h ≡ false
unfolding has_hash any
has_hash-nil h = refl

init_hashes-none :
    (lists : List GudgeonList) (m : Dict (List ℕ)) (k : Text) (h : ℕ)
    → entry_holds (lookup k m) h ≡ false
    → entry_holds (lookup k (init_hashes lists m)) h ≡ false
unfolding init_hashes
init_hashes-none [] m k h e = e
init_hashes-none (l ∷ lists) m k h e = elim (Option-cases (lookup (canonical_name l) m)) [
  | inl n ↦
      rw (n, init_hashes)
        (init_hashes-none lists (insert (canonical_name l) [] m) k h
          (ground (arith, entry_holds-insert (canonical_name l) k [] m h, has_hash-nil h)))
  | inr (set, f) ↦ rw (f, init_hashes) (init_hashes-none lists m k h e)
]

-- The entry under the key is there.
abbrev pub HasEntry : Text → Dict (List ℕ) → Type 0
HasEntry k m = (set : List ℕ) × (lookup k m ≡ some set)

insert-HasEntry :
    (j k : Text) (set : List ℕ) (m : Dict (List ℕ))
    → (same j k ≡ true) ⊎ HasEntry k m
    → HasEntry k (insert j set m)
insert-HasEntry j k set m (inl e) = (set, rw (lookup-insert j k set m, e))
insert-HasEntry j k set m (inr (old, e)) = elim (Bool-cases (same j k)) [
  | inl t ↦ (set, rw (lookup-insert j k set m, t))
  | inr f ↦ (old, rw (lookup-insert j k set m, f) e)
]

init_hashes-HasEntry :
    (lists : List GudgeonList) (m : Dict (List ℕ)) (k : Text)
    → (any (λ l. same (canonical_name l) k) lists ≡ true) ⊎ HasEntry k m
    → HasEntry k (init_hashes lists m)
unfolding init_hashes any
init_hashes-HasEntry [] m k (inl w) = absurd (false≢true w)
init_hashes-HasEntry [] m k (inr h) = h
init_hashes-HasEntry (l ∷ lists) m k w = elim (Option-cases (lookup (canonical_name l) m)) [
  | inl n ↦
      rw (n, init_hashes)
        (init_hashes-HasEntry lists (insert (canonical_name l) [] m) k
          (made w (Bool-cases (same (canonical_name l) k))))
  | inr (set, e) ↦
      rw (e, init_hashes)
        (init_hashes-HasEntry lists m k
          (found_before set e w (Bool-cases (same (canonical_name l) k))))
]
  where
    made :
        ((same (canonical_name l) k || any (λ l. same (canonical_name l) k) lists) ≡ true)
          ⊎ HasEntry k m
        → (same (canonical_name l) k ≡ true) ⊎ (same (canonical_name l) k ≡ false)
        → (any (λ l. same (canonical_name l) k) lists ≡ true)
          ⊎ HasEntry k (insert (canonical_name l) [] m)
    made w (inl t) = inr (insert-HasEntry (canonical_name l) k [] m (inl t))
    made (inl w) (inr f) = inl (rw f at w)
    made (inr h) (inr f) = inr (insert-HasEntry (canonical_name l) k [] m (inr h))

    found_before :
        (set : List ℕ)
        → lookup (canonical_name l) m ≡ some set
        → ((same (canonical_name l) k || any (λ l. same (canonical_name l) k) lists) ≡ true)
          ⊎ HasEntry k m
        → (same (canonical_name l) k ≡ true) ⊎ (same (canonical_name l) k ≡ false)
        → (any (λ l. same (canonical_name l) k) lists ≡ true) ⊎ HasEntry k m
    found_before set e w (inl t) =
        inr
          (set, subst (λ (i : Text). lookup i m ≡ some set) ((same_iff (canonical_name l) k).0 t) e)
    found_before set e (inl w) (inr f) = inl (rw f at w)
    found_before set e (inr h) (inr f) = inr h

module _ (sum : Text → ℕ) {D : Type 0} (inner : StoreOps D) where
  -- A rule matches a domain that has its hash.
  unfoldable pub matches : Text → Text → Bool
  matches rule d = sum (to_lower rule) == sum (to_lower d)

  unfoldable pub holds : HashStore D → GudgeonList → Text → Bool
  unfolding entry_holds
  holds s l d = entry_holds (lookup (canonical_name l) s.hashes) (sum (to_lower d))

  -- The store has no delegate, and a set for each list that it was initialised with.
  abbrev pub Ready : List GudgeonList → HashStore D → Type 0
  Ready lists s =
      (s.delegate ≡ none)
      × ((k : Text) → any (λ l. same (canonical_name l) k) lists ≡ true → HasEntry k s.hashes)

  init-Ready :
      (lists : List GudgeonList) (s : HashStore D)
      → s.delegate ≡ none
      → Ready lists (init sum inner lists s)
  unfolding init on_delegate
  init-Ready lists s e = (rw e, λ k w. init_hashes-HasEntry lists [] k (inl w))

  holds-init :
      (lists : List GudgeonList) (s : HashStore D) (l : GudgeonList) (d : Text)
      → holds (init sum inner lists s) l d ≡ false
  unfolding holds init lookup
  holds-init lists s l d = init_hashes-none lists [] (canonical_name l) (sum (to_lower d)) refl

  load_lem :
      (s : HashStore D) (l : GudgeonList) (rule : Text) (set : List ℕ)
      → lookup (canonical_name l) s.hashes ≡ some set
      → s.delegate ≡ none
      → load sum inner l rule s
        ≡ some (record s {
          base = add_list (some l) s.base;
          hashes = insert (canonical_name l) (add_hash (sum (to_lower rule)) set) s.hashes;
        })
  unfolding load load_delegate
  load_lem s l rule set e n = ground (arith, e, n)

  loaded :
      (lists : List GudgeonList) (s : HashStore D) (l : GudgeonList) (rule : Text)
      → Ready lists s
      → named_in lists l ≡ true
      → (t : HashStore D) × (load sum inner l rule s ≡ some t)
        × Ready lists t
        × (t.base ≡ add_list (some l) s.base)
        × ((k : GudgeonList) (d : Text)
            → holds t k d ≡ (holds s k d || (same_name l k && matches rule d)))
  unfolding named_in same_name holds matches
  loaded lists s l rule (no_delegate, entries) n =
      let (set, e) = entries (canonical_name l) n in
      (
        record s {
          base = add_list (some l) s.base;
          hashes = insert (canonical_name l) (add_hash (sum (to_lower rule)) set) s.hashes;
        },
        load_lem s l rule set e no_delegate,
        (no_delegate, λ k w. insert-HasEntry (canonical_name l) k _ s.hashes (inr (entries k w))),
        refl,
        λ k d.
            unfold entry_holds in
            ground (
              arith,
              entry_holds-insert (canonical_name l) (canonical_name k)
                  (add_hash (sum (to_lower rule)) set) s.hashes (sum (to_lower d)),
              has_hash-add_hash (sum (to_lower rule)) (sum (to_lower d)) set,
              entry_holds-same (canonical_name l) (canonical_name k) s.hashes (sum (to_lower d)),
              e,
            ),
      )

  clear-Ready :
      (lists : List GudgeonList) (s : HashStore D) (l : GudgeonList)
      → Ready lists s
      → Ready lists (clear sum inner l s)
  unfolding clear on_delegate
  clear-Ready lists s l (no_delegate, entries) =
      (rw no_delegate, λ k w. insert-HasEntry (canonical_name l) k [] s.hashes (inr (entries k w)))

  holds-clear :
      (s : HashStore D) (l k : GudgeonList) (d : Text)
      → holds (clear sum inner l s) k d ≡ (not (same_name l k) && holds s k d)
  unfolding holds clear same_name
  holds-clear s l k d = ground (
    arith,
    entry_holds-insert (canonical_name l) (canonical_name k) [] s.hashes (sum (to_lower d)),
    has_hash-nil (sum (to_lower d)),
  )

  finalize-Ready :
      (lists given : List GudgeonList) (s : HashStore D)
      → Ready lists s
      → Ready lists (finalize sum inner given s)
  unfolding finalize on_delegate
  finalize-Ready lists given s (no_delegate, entries) = (rw no_delegate, entries)

  first_hash-first_hit :
      (s : HashStore D) (l : GudgeonList) (set : List ℕ) (domains ds : List Text)
      → lookup (canonical_name l) s.hashes ≡ some set
      → first_hash sum inner set ds ≡ first_hit (holds s) domains l ds
  unfolding first_hash first_hit
  first_hash-first_hit s l set domains [] e = refl
  first_hash-first_hit s l set domains (d ∷ ds) e =
      ground (arith, held, first_hash-first_hit s l set domains ds e)
    where
      held : holds s l d ≡ has_hash set (sum (to_lower d))
      held = unfold holds in rw (e, entry_holds)

  first_hit-missing :
      (s : HashStore D) (domains : List Text) (l : GudgeonList) (ds : List Text)
      → lookup (canonical_name l) s.hashes ≡ none
      → first_hit (holds s) domains l ds ≡ none
  unfolding first_hit
  first_hit-missing s domains l [] e = refl
  first_hit-missing s domains l (d ∷ ds) e =
      rw (unheld, first_hit) (first_hit-missing s domains l ds e)
    where
      unheld : holds s l d ≡ false
      unheld = unfold holds in rw (e, entry_holds)

  match_action-hit_action :
      (s : HashStore D) (domain : Text) (k : Match) (l : GudgeonList)
      → s.delegate ≡ none
      → match_action sum inner s domain k l ≡ hit_action (holds s) (domain_list domain) (λ d. d) k l
  unfolding match_action hit_action hit_answer
  match_action-hit_action s domain k l n =
      elim (Option-cases (lookup (canonical_name l) s.hashes)) [
        | inl e ↦
            rw (e, match_action)
              (rw (first_hit-missing s (domain_list domain) l (domain_list domain) e, hit_action))
        | inr (set, e) ↦
            rw
              (
                e,
                match_action,
                first_hash-first_hit s l set (domain_list domain) (domain_list domain) e,
              )
              (ap
                (λ (o : Option D).
                  answer (first_hit (holds s) (domain_list domain) l (domain_list domain)) o)
                n)
      ]
    where
      answer : Option Text → Option D → Found
      answer hit o = elim hit [ none ↦ no_match | some d ↦ hit_answer sum inner o domain k l d ]

  laws : StoreLaws (ops sum inner) matches (λ d. d)
  unfolding ops init clear finalize find_match spec_find
  laws = record {
    base_of = λ s. s.base;
    holds = holds;
    Plain = λ s. s.delegate ≡ none;
    Ready = λ lists _ s. Ready lists s;
    init-Ready = init-Ready;
    holds-init = holds-init;
    base_of-init = λ lists s. refl;
    pending-Ready = λ lists pending s r. r;
    loaded = λ lists _ s l rule r n _. loaded lists s l rule r n;
    clear-Ready = λ lists _ s l r. clear-Ready lists s l r;
    holds-clear = holds-clear;
    base_of-clear = λ s l. refl;
    finalize-Ready = λ lists given s r. finalize-Ready lists given s r;
    holds-finalize = λ given s l d. unfold holds in refl;
    base_of-finalize = λ given s. refl;
    find_match-spec_find = λ lists given s domain r.
        ap (λ (act : Match → GudgeonList → Found). two_passes given act s.base)
          (fun_ext λ k. fun_ext λ l. match_action-hit_action s domain k l r.0);
  }

  abbrev pub fresh : HashStore D
  fresh = record { base = empty_base; hashes = []; delegate = none }

  -- A hash store without a delegate that is created from any files never panics, reports how many
  -- rules each file holds, and answers FindMatch as a search through those rules, where a list holds
  -- the domain if some rule in a file of a list of its name has the domain's hash in lower case.
  pub find_match-create_hash :
      (file : GudgeonList → Option (List Text)) (lists given : List GudgeonList) (domain : Text)
      → (t : HashStore D) × (create_store (ops sum inner) file lists fresh
          ≡ some (t, map (λ l. length (rules_in (file l))) lists))
        × (find_match sum inner given domain t
            ≡ spec_find
                (holds_some matches (λ l. rules_in (file l)) lists)
                (domain_list domain)
                (λ d. d)
                given
                (add_all (λ l. rules_in (file l)) lists empty_base))
  unfolding ops laws
  find_match-create_hash file lists given domain =
      let (t, e, _, f) = find_match-create_store laws file lists given domain fresh refl in
      (t, e, f)
