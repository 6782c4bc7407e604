-- ===== src/Rule/Bloom/Reload.antt =====
-- What the filters of a Bloom store remember.
use gudgeon.Prelude.{
  ℕ, ◌+◌, List, [], ◌∷◌, Bool, true, false, Option, none, some, ◌≡◌, refl, sym, ap, ◌∙◌, arith,
  Bool-cases, Option-cases, inl, inr,
}
use mathlib.Core.Bool.{false≢true}
use gudgeon.Prelude.Text.{Text, is_empty, same_refl}
use gudgeon.Prelude.Dict.{Dict, lookup, insert, lookup-insert}
use gudgeon.Config.Lists.{GudgeonList, canonical_name}
use gudgeon.Rule.Line.{parse_line}
use gudgeon.Rule.Base.{StoreOps, add_list, remove_list}
use gudgeon.Rule.Load.{load_lines, load_list, reload_list}
use gudgeon.Rule.Load.Laws.{rules_of, rules_in, add_each}
use gudgeon.Rule.Bloom.{
  BloomFilter, BloomStore, create_bloom, on_backing, clear, load_backing, load, finalize, ops,
}

module _ (bloom : BloomFilter) (lines : GudgeonList → Option ℕ) {D : Type 0}
    (inner : StoreOps D) where
  open bloom use {Filter, add_string, test_string, test-add_self, test-add_kept}

  -- The filter of the list, if it has one, tests the rule.
  unfoldable pub tests : BloomStore bloom D → GudgeonList → Text → Bool
  tests s l rule = elim (lookup (canonical_name l) s.blooms) [
    | none ↦ false
    | some f ↦ test_string f rule
  ]

  pub tests_at :
      (s : BloomStore bloom D) (l : GudgeonList) (rule : Text) (f : Filter)
      → lookup (canonical_name l) s.blooms ≡ some f
      → tests s l rule ≡ test_string f rule
  unfolding tests
  tests_at s l rule f e = rw (e, tests)

  tests_missing :
      (s : BloomStore bloom D) (l : GudgeonList) (rule : Text)
      → lookup (canonical_name l) s.blooms ≡ none
      → tests s l rule ≡ false
  unfolding tests
  tests_missing s l rule e = rw (e, tests)

  pub tests_entry :
      (s : BloomStore bloom D) (l : GudgeonList) (rule : Text)
      → tests s l rule ≡ true
      → (f : Filter) × (lookup (canonical_name l) s.blooms ≡ some f) × (test_string f rule ≡ true)
  tests_entry s l rule h = elim (Option-cases (lookup (canonical_name l) s.blooms)) [
    | inl n ↦ absurd (false≢true (sym (tests_missing s l rule n) ∙ h))
    | inr (f, e) ↦ (f, e, sym (tests_at s l rule f e) ∙ h)
  ]

  create_bloom-present :
      (l : GudgeonList) (n : ℕ) (m : Dict Filter) (f : Filter)
      → lookup (canonical_name l) m ≡ some f
      → create_bloom bloom lines inner l n m ≡ m
  unfolding create_bloom
  create_bloom-present l n m f e = rw (e, create_bloom)

  -- One load without a backing store: it succeeds, the rule is tested and so is what was before.
  pub load-tests :
      (s : BloomStore bloom D) (l : GudgeonList) (old rule : Text)
      → s.backing ≡ none
      → tests s l old ≡ true
      → (t : BloomStore bloom D) × (load bloom lines inner l rule s ≡ some t)
        × (t.backing ≡ none)
        × (tests t l old ≡ true)
        × (tests t l rule ≡ true)
        × (t.base ≡ add_list (some l) s.base)
  unfolding load load_backing
  load-tests s l old rule n h =
      let (f, e, k) = tests_entry s l old h in
      elim (Bool-cases (test_string f rule)) [
        | inl y ↦ (
          record s { base = add_list (some l) s.base },
          ground (arith, e, n, y),
          n,
          tests_at (record s { base = add_list (some l) s.base }) l old f e ∙ k,
          tests_at (record s { base = add_list (some l) s.base }) l rule f e ∙ y,
          refl,
        )
        | inr m ↦ (
          record s {
            base = add_list (some l) s.base;
            blooms = insert (canonical_name l) (add_string f rule) s.blooms;
          },
          ground (arith, e, n, m),
          n,
          written f old (test-add_kept f old rule k),
          written f rule (test-add_self f rule),
          refl,
        )
      ]
    where
      written :
          (f : Filter) (r : Text)
          → test_string (add_string f rule) r ≡ true
          → tests
              (record s {
                base = add_list (some l) s.base;
                blooms = insert (canonical_name l) (add_string f rule) s.blooms;
              })
              l
              r
            ≡ true
      written f r y =
          tests_at _ l r (add_string f rule) (
            rw (
              lookup-insert (canonical_name l) (canonical_name l) (add_string f rule) s.blooms,
              same_refl (canonical_name l),
            ))
          ∙ y

  pub load_lines-tests :
      (s : BloomStore bloom D) (l : GudgeonList) (old : Text) (file : List Text) (count : ℕ)
      → s.backing ≡ none
      → tests s l old ≡ true
      → (t : BloomStore bloom D) × (n : ℕ) × (load_lines (ops bloom lines inner) l file s count
          ≡ some (t, n))
        × (t.backing ≡ none)
        × (tests t l old ≡ true)
        × (t.base ≡ add_each l (rules_of file) s.base)
  unfolding load_lines ops rules_of add_each
  load_lines-tests s l old [] count n h = (s, count, refl, n, h, refl)
  load_lines-tests s l old (line ∷ file) count n h =
      elim (Bool-cases (is_empty (parse_line line))) [
        | inl e ↦ rw (e, load_lines, rules_of) (load_lines-tests s l old file count n h)
        | inr e ↦
            let (t, e1, n1, h1, _, b1) = load-tests s l old (parse_line line) n h in
            let (u, m, e2, n2, h2, b2) = load_lines-tests t l old file (count + 1) n1 h1 in
            (
              u,
              m,
              rw (e, load_lines) (rw (e1, load_lines) e2),
              n2,
              h2,
              rw (e, rules_of) (b2 ∙ ap (add_each l (rules_of file)) b1),
            )
      ]

  clear-tests :
      (s : BloomStore bloom D) (l : GudgeonList) (old : Text)
      → tests s l old ≡ true
      → tests (clear bloom lines inner l s) l old ≡ true
  unfolding clear
  clear-tests s l old h =
      let (f, e, k) = tests_entry s l old h in
      tests_at (clear bloom lines inner l s) l old f
        (rw (create_bloom-present l s.default_rule_count s.blooms f e) e)
      ∙ k

  -- Reloading a list of a Bloom store without a backing store never panics, and whatever the new file
  -- holds, the filter of the list still tests every rule that it tested before, also one that was
  -- taken out of the file. The list itself is unregistered, and registered again for each rule of the
  -- new file, hence not at all if it has none.
  pub reload_list-keeps_old :
      (s : BloomStore bloom D) (l : GudgeonList) (old : Text) (file : Option (List Text))
      → s.backing ≡ none
      → tests s l old ≡ true
      → (t : BloomStore bloom D) × (n : ℕ) × (reload_list (ops bloom lines inner) l file s
          ≡ some (t, n))
        × (tests t l old ≡ true)
        × (t.base ≡ add_each l (rules_in file) (remove_list (some l) s.base))
  unfolding reload_list load_list ops rules_in add_each
  reload_list-keeps_old s l old none n h = (
    finalize bloom lines inner (l ∷ []) (clear bloom lines inner l s),
    0,
    refl,
    unfold finalize tests in clear-tests s l old h,
    unfold finalize clear in refl,
  )
  reload_list-keeps_old s l old (some file) n h =
      let (t, m, e, n1, h1, b) =
        load_lines-tests (clear bloom lines inner l s) l old file 0 cleared
          (clear-tests s l old h) in
      (
        finalize bloom lines inner (l ∷ []) t,
        m,
        rw (e, reload_list),
        unfold finalize tests in h1,
        unfold finalize in b ∙ unfold clear in refl,
      )
    where
      cleared : (clear bloom lines inner l s).backing ≡ none
      cleared = unfold clear on_backing in rw n
