-- ===== src/Rule/Memory/Content.antt =====
-- What the memory store holds after each operation, and that its entries stay sorted.
use gudgeon.Prelude.{
  List, [], ◌∷◌, ◌++◌, Bool, true, false, not, ◌&&◌, ◌||◌, ◌≡◌, refl, sym, ap, ◌∙◌, subst, ◌⊎◌, inl,
  inr, Option, none, some, any, any-append, All, All-append, arith, if◌then◌else◌, Bool-cases,
  Option-cases,
}
use gudgeon.Prelude.Text.{
  Text, same, same_iff, to_lower, to_lower_idem, equal_fold, equal_fold-to_lower,
}
use gudgeon.Prelude.Dict.{Dict, lookup, insert, lookup-insert, Entries, insert-Entries}
use gudgeon.Config.Lists.{GudgeonList, canonical_name}
use gudgeon.Rule.Fold.{FoldOrder}
use gudgeon.Rule.Load.Laws.{same_name, named_in}
use gudgeon.Rule.Memory.{
  MemoryStore, init_rules, init, clear, or_empty, load, sort_rules, finalize_rules,
}
use gudgeon.Rule.Memory.Sorted.{
  IsSorted, IsLower, sort_rules-IsSorted, any-sort_rules, All-sort_rules,
}

-- A rule of the entry is the domain but for case.
unfoldable pub entry_holds : Option (List Text) → Text → Bool
entry_holds none d = false
entry_holds (some rs) d = any (λ r. equal_fold r d) rs

-- Some rule that the store keeps under the list's name is the domain but for case.
unfoldable pub holds : MemoryStore → GudgeonList → Text → Bool
unfolding entry_holds
holds s l d = entry_holds (lookup (canonical_name l) s.rules) d

entry_holds-insert :
    (j k : Text) (rs : List Text) (m : Dict (List Text)) (d : Text)
    → entry_holds (lookup k (insert j rs m)) d
      ≡ (if same j k then any (λ r. equal_fold r d) rs else entry_holds (lookup k m) d)
unfolding entry_holds
entry_holds-insert j k rs m d = ground (arith, lookup-insert j k rs m)

-- An entry is told by its key alone.
entry_holds-same :
    (j k : Text) (m : Dict (List Text)) (d : Text)
    → same j k ≡ true
    → entry_holds (lookup k m) d ≡ entry_holds (lookup j m) d
entry_holds-same j k m d e =
    ap (λ (i : Text). entry_holds (lookup i m) d) (sym ((same_iff j k).0 e))

none-entry_holds :
    (j k : Text) (m : Dict (List Text)) (d : Text)
    → entry_holds (lookup k m) d ≡ false
    → entry_holds (lookup k (insert j [] m)) d ≡ false
unfolding any
none-entry_holds j k m d h = ground (arith, entry_holds-insert j k [] m d)

init_rules-none :
    (lists : List GudgeonList) (m : Dict (List Text)) (k d : Text)
    → entry_holds (lookup k m) d ≡ false
    → entry_holds (lookup k (init_rules lists m)) d ≡ false
unfolding init_rules
init_rules-none [] m k d h = h
init_rules-none (l ∷ lists) m k d h = elim (Option-cases (lookup (canonical_name l) m)) [
  | inl n ↦
      rw (n, init_rules)
        (init_rules-none lists (insert (canonical_name l) [] m) k d
          (none-entry_holds (canonical_name l) k m d h))
  | inr (rs, e) ↦ rw (e, init_rules) (init_rules-none lists m k d h)
]

pub holds-init :
    (lists : List GudgeonList) (s : MemoryStore) (l : GudgeonList) (d : Text)
    → holds (init lists s) l d ≡ false
unfolding holds init lookup
holds-init lists s l d = init_rules-none lists [] (canonical_name l) d refl

any-or_empty :
    (o : Option (List Text)) (d : Text) → any (λ r. equal_fold r d) (or_empty o) ≡ entry_holds o d
unfolding or_empty entry_holds any
any-or_empty none d = refl
any-or_empty (some rs) d = refl

any-one : (rule d : Text) → any (λ r. equal_fold r d) (to_lower rule ∷ []) ≡ equal_fold rule d
unfolding any
any-one rule d = ground (arith, equal_fold-to_lower rule d)

pub holds-load :
    (s : MemoryStore) (l : GudgeonList) (rule : Text) (k : GudgeonList) (d : Text)
    → holds (load l rule s) k d ≡ (holds s k d || (same_name l k && equal_fold rule d))
unfolding holds load same_name
holds-load s l rule k d = ground (
  arith,
  entry_holds-insert (canonical_name l) (canonical_name k)
      (or_empty (lookup (canonical_name l) s.rules) ++ to_lower rule ∷ []) s.rules d,
  any-append (λ r. equal_fold r d) (or_empty (lookup (canonical_name l) s.rules))
      (to_lower rule ∷ []),
  any-or_empty (lookup (canonical_name l) s.rules) d,
  any-one rule d,
  entry_holds-same (canonical_name l) (canonical_name k) s.rules d,
)

pub holds-clear :
    (s : MemoryStore) (l k : GudgeonList) (d : Text)
    → holds (clear l s) k d ≡ (not (same_name l k) && holds s k d)
unfolding holds clear same_name any
holds-clear s l k d =
    ground (arith, entry_holds-insert (canonical_name l) (canonical_name k) [] s.rules d)

module _ (order : FoldOrder) where
  -- An entry is in lower case, and sorted unless one of the pending lists has its name.
  abbrev pub IsReady : List GudgeonList → Text → List Text → Type 0
  IsReady pending k rs =
      All IsLower rs × ((IsSorted order rs) ⊎ (any (λ l. same (canonical_name l) k) pending ≡ true))

  abbrev pub Ready : List GudgeonList → Dict (List Text) → Type 0
  Ready pending m = Entries (IsReady pending) m

  pub init_rules-Ready :
      (lists : List GudgeonList) (m : Dict (List Text)) → Ready [] m → Ready [] (init_rules lists m)
  unfolding init_rules
  init_rules-Ready [] m r = r
  init_rules-Ready (l ∷ lists) m r = elim (Option-cases (lookup (canonical_name l) m)) [
    | inl n ↦
        rw (n, init_rules)
          (init_rules-Ready lists (insert (canonical_name l) [] m)
            (insert-Entries (IsReady []) (canonical_name l) [] m (λ j w _ e. r j w e) (tt, inl tt)))
    | inr (rs, e) ↦ rw (e, init_rules) (init_rules-Ready lists m r)
  ]

  or_empty-IsLower :
      (pending : List GudgeonList) (m : Dict (List Text)) (k : Text)
      → Ready pending m
      → All IsLower (or_empty (lookup k m))
  unfolding or_empty
  or_empty-IsLower pending m k r = elim (Option-cases (lookup k m)) [
    | inl n ↦ rw n tt
    | inr (rs, e) ↦ rw e (r k rs e).0
  ]

  pub load-Ready :
      (pending : List GudgeonList) (s : MemoryStore) (l : GudgeonList) (rule : Text)
      → Ready pending s.rules
      → named_in pending l ≡ true
      → Ready pending (load l rule s).rules
  unfolding load named_in same_name
  load-Ready pending s l rule r n =
      insert-Entries (IsReady pending) (canonical_name l)
        (or_empty (lookup (canonical_name l) s.rules) ++ to_lower rule ∷ []) s.rules
        (λ j w _ e. r j w e)
        (
          All-append IsLower (or_empty (lookup (canonical_name l) s.rules)) (to_lower rule ∷ [])
              (or_empty-IsLower pending s.rules (canonical_name l) r) (to_lower_idem rule, tt),
          inr n,
        )

  pub clear-Ready :
      (pending : List GudgeonList) (s : MemoryStore) (l : GudgeonList)
      → Ready pending s.rules
      → Ready pending (clear l s).rules
  unfolding clear
  clear-Ready pending s l r =
      insert-Entries (IsReady pending) (canonical_name l) [] s.rules (λ j w _ e. r j w e)
        (tt, inl tt)

  -- What one round of Finalize leaves waiting.
  settle :
      (l : GudgeonList) (pending : List GudgeonList) (k : Text) (rs : List Text)
      → same (canonical_name l) k ≡ false
      → IsReady (l ∷ pending) k rs
      → IsReady pending k rs
  unfolding any
  settle l pending k rs e (a, inl s) = (a, inl s)
  settle l pending k rs e (a, inr w) = (a, inr (rw e at w))

  pub finalize_rules-Ready :
      (pending : List GudgeonList) (m : Dict (List Text))
      → Ready pending m
      → Ready [] (finalize_rules order pending m)
  unfolding finalize_rules
  finalize_rules-Ready [] m r = r
  finalize_rules-Ready (l ∷ pending) m r = elim (Option-cases (lookup (canonical_name l) m)) [
    | inl n ↦ rw (n, finalize_rules) (finalize_rules-Ready pending m (absent n))
    | inr (rs, e) ↦
        rw (e, finalize_rules)
          (finalize_rules-Ready pending (insert (canonical_name l) (sort_rules order rs) m) (
            insert-Entries (IsReady pending) (canonical_name l) (sort_rules order rs) m
              (λ k ts f h. settle l pending k ts f (r k ts h))
              (
                All-sort_rules order IsLower rs (r (canonical_name l) rs e).0,
                inl (sort_rules-IsSorted order rs),
              )))
  ]
    where
      absent : lookup (canonical_name l) m ≡ none → Ready pending m
      absent n k rs e = elim (Bool-cases (same (canonical_name l) k)) [
        | inr f ↦ settle l pending k rs f (r k rs e)
        | inl t ↦ absurd (
            clash (subst (λ (i : Text). lookup i m ≡ none) ((same_iff (canonical_name l) k).0 t) n)
              e)
      ]
        where
          clash : lookup k m ≡ none → lookup k m ≡ some rs → ⊥
          clash a b = cc

  pub finalize_rules-entry_holds :
      (given : List GudgeonList) (m : Dict (List Text)) (k d : Text)
      → entry_holds (lookup k (finalize_rules order given m)) d ≡ entry_holds (lookup k m) d
  unfolding finalize_rules
  finalize_rules-entry_holds [] m k d = refl
  finalize_rules-entry_holds (l ∷ given) m k d = elim (Option-cases (lookup (canonical_name l) m)) [
    | inl n ↦ rw (n, finalize_rules) (finalize_rules-entry_holds given m k d)
    | inr (rs, e) ↦
        rw (e, finalize_rules)
          (finalize_rules-entry_holds given (insert (canonical_name l) (sort_rules order rs) m) k d
            ∙ entry_holds-insert (canonical_name l) k (sort_rules order rs) m d
            ∙ unchanged rs e)
  ]
    where
      unchanged :
          (rs : List Text)
          → lookup (canonical_name l) m ≡ some rs
          → (if same (canonical_name l) k
              then any (λ r. equal_fold r d) (sort_rules order rs)
              else entry_holds (lookup k m) d)
            ≡ entry_holds (lookup k m) d
      unchanged rs e =
          unfold entry_holds in
          ground (
            arith,
            any-sort_rules order (λ r. equal_fold r d) rs,
            entry_holds-same (canonical_name l) k m d,
            e,
          )
