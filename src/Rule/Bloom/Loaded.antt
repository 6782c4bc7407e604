-- ===== src/Rule/Bloom/Loaded.antt =====
-- What the filters of a Bloom store answer for the rules of a file.
use gudgeon.Prelude.{
  ℕ, ◌+◌, List, [], ◌∷◌, true, Option, none, some, ◌≡◌, refl, sym, ◌∙◌, subst, arith, All,
  Bool-cases, inl, inr,
}
use mathlib.Core.Option.{some-injective}
use gudgeon.Prelude.Text.{Text, is_empty, same_refl}
use gudgeon.Prelude.Dict.{lookup, insert, lookup-insert}
use gudgeon.Config.Lists.{GudgeonList, canonical_name}
use gudgeon.Rule.Line.{parse_line}
use gudgeon.Rule.Base.{StoreOps, add_list}
use gudgeon.Rule.Load.{load_lines, load_list}
use gudgeon.Rule.Load.Laws.{rules_of, rules_in}
use gudgeon.Rule.Bloom.{BloomFilter, BloomStore, load_backing, load, ops}
use gudgeon.Rule.Bloom.Reload.{tests, tests_at, tests_entry, load_lines-tests}

module _ (bloom : BloomFilter) (lines : GudgeonList → Option ℕ) {D : Type 0}
    (inner : StoreOps D) where
  open bloom use {Filter, add_string, test_string, test-add_self}

  load-tested :
      (s : BloomStore bloom D) (l : GudgeonList) (rule : Text) (f : Filter)
      → s.backing ≡ none
      → lookup (canonical_name l) s.blooms ≡ some f
      → (t : BloomStore bloom D) × (load bloom lines inner l rule s ≡ some t)
        × (t.backing ≡ none)
        × (tests bloom lines inner t l rule ≡ true)
  unfolding load load_backing
  load-tested s l rule f n e = elim (Bool-cases (test_string f rule)) [
    | inl y ↦ (
      record s { base = add_list (some l) s.base },
      ground (arith, e, n, y),
      n,
      tests_at bloom lines inner (record s { base = add_list (some l) s.base }) l rule f e ∙ y,
    )
    | inr m ↦ (
      record s {
        base = add_list (some l) s.base;
        blooms = insert (canonical_name l) (add_string f rule) s.blooms;
      },
      ground (arith, e, n, m),
      n,
      tests_at bloom lines inner
            (record s {
              base = add_list (some l) s.base;
              blooms = insert (canonical_name l) (add_string f rule) s.blooms;
            })
            l rule (add_string f rule)
            (rw (
              lookup-insert (canonical_name l) (canonical_name l) (add_string f rule) s.blooms,
              same_refl (canonical_name l),
            ))
          ∙ test-add_self f rule,
    )
  ]

  load_lines-All :
      (s : BloomStore bloom D) (l : GudgeonList) (file : List Text) (count : ℕ) (f : Filter)
      → s.backing ≡ none
      → lookup (canonical_name l) s.blooms ≡ some f
      → (t : BloomStore bloom D) × (n : ℕ) × (load_lines (ops bloom lines inner) l file s count
          ≡ some (t, n))
        × All (λ rule. tests bloom lines inner t l rule ≡ true) (rules_of file)
  unfolding load_lines ops rules_of
  load_lines-All s l [] count f n e = (s, count, refl, tt)
  load_lines-All s l (line ∷ file) count f n e = elim (Bool-cases (is_empty (parse_line line))) [
    | inl h ↦ rw (h, load_lines, rules_of) (load_lines-All s l file count f n e)
    | inr h ↦
        let (t, e1, n1, h1) = load-tested s l (parse_line line) f n e in
        let (g, e2, _) = tests_entry bloom lines inner t l (parse_line line) h1 in
        let (u, m, e3, all) = load_lines-All t l file (count + 1) g n1 e2 in
        let (v, k, e4, _, h4, _) =
          load_lines-tests bloom lines inner t l (parse_line line) file (count + 1) n1 h1 in
        let held : tests bloom lines inner u l (parse_line line) ≡ true =
          subst
            (λ (x : BloomStore bloom D × ℕ). tests bloom lines inner x.0 l (parse_line line) ≡ true)
            (some-injective (v, k) (u, m) (sym e4 ∙ e3)) h4 in
        (u, m, rw (h, load_lines) (rw (e1, load_lines) e3), rw (h, rules_of) (held, all))
  ]

  -- Loading the file of a list that has a filter into a Bloom store without a backing store never
  -- panics, and afterwards the filter of the list tests every rule of the file.
  pub load_list-All :
      (s : BloomStore bloom D) (l : GudgeonList) (file : Option (List Text)) (f : Filter)
      → s.backing ≡ none
      → lookup (canonical_name l) s.blooms ≡ some f
      → (t : BloomStore bloom D) × (n : ℕ) × (load_list (ops bloom lines inner) l file s
          ≡ some (t, n))
        × All (λ rule. tests bloom lines inner t l rule ≡ true) (rules_in file)
  unfolding load_list rules_in
  load_list-All s l none f n e = (s, 0, refl, tt)
  load_list-All s l (some file) f n e = load_lines-All s l file 0 f n e
