-- ===== src/Rule/Complex/Plain.antt =====
-- The complex store over files without complex rules, which it leaves to its backing store.
use gudgeon.Prelude.{
  ℕ, ◌+◌, List, [], ◌∷◌, Bool, false, Option, none, some, ◌≡◌, ◌≢◌, refl, sym, ap, ◌∙◌, All,
  Bool-cases, Option-cases, inl, inr,
}
use mathlib.Core.Path.{fun_ext}
use mathlib.Core.Option.{some-injective}
use gudgeon.Prelude.Text.{Text, is_empty}
use gudgeon.Prelude.Dict.{Dict, lookup, insert, Entries, insert-Entries}
use gudgeon.Config.Lists.{ListType, allow, block, GudgeonList, canonical_name, short_name_of}
use gudgeon.Rule.Line.{parse_line, is_complex}
use gudgeon.Rule.Base.{
  Match, match_allow, match_block, Found, no_match, is_match, BaseStore, of_type, add_list,
  match_loop, match_for_each_of_type_in, two_passes, StoreOps,
}
use gudgeon.Rule.Load.{load_lines, load_list, load_lists, create_store}
use gudgeon.Rule.Load.Laws.{rules_of, rules_in}
use gudgeon.Rule.Complex.{
  ComplexRule, ComplexStore, init, finalize, on_backing, load_backing, register, init_rules,
  regex_only, load, match_action, first_match, find_match, ops,
}

-- An action that finds nothing makes both passes find nothing.
abbrev nothing : Match → GudgeonList → Found
nothing k l = no_match

match_loop-nothing :
    (m : Dict GudgeonList) (lists : List GudgeonList) (k : Match)
    → match_loop m lists (nothing k) ≡ no_match
unfolding match_loop is_match
match_loop-nothing m [] k = refl
match_loop-nothing m (v ∷ lists) k = elim (Option-cases (lookup (short_name_of v) m)) [
  | inl n ↦ rw (n, match_loop) (match_loop-nothing m lists k)
  | inr (l, e) ↦ rw (e, match_loop) (match_loop-nothing m lists k)
]

pass-nothing :
    (t : ListType) (lists : List GudgeonList) (k : Match) (b : BaseStore)
    → match_for_each_of_type_in t lists (nothing k) b ≡ no_match
unfolding match_for_each_of_type_in
pass-nothing t [] k b = refl
pass-nothing t (v ∷ lists) k b = elim (Option-cases (of_type t b)) [
  | inl n ↦ rw (n, match_for_each_of_type_in)
  | inr (m, e) ↦ rw (e, match_for_each_of_type_in) (match_loop-nothing m (v ∷ lists) k)
]

two_passes-nothing :
    (lists : List GudgeonList) (b : BaseStore) → two_passes lists nothing b ≡ no_match
unfolding two_passes is_match
two_passes-nothing lists b =
    rw (pass-nothing allow lists match_allow b, pass-nothing block lists match_block b)

none-ne-some : {A : Type 0} {x : A} → none ≢ some x
none-ne-some e = cc

module _ (glob : Text → Text → Bool) (compile : Text → Option (Text → Bool)) {D : Type 0}
    (inner : StoreOps D) where
  -- The rules of a list that are left to the backing store.
  abbrev pub IsPlain : GudgeonList → List Text → Type 0
  IsPlain l rules =
      (regex_only glob compile inner l ≡ false) × All (λ rule. is_complex rule ≡ false) rules

  -- No list has a complex rule.
  abbrev NoRules : Dict (List ComplexRule) → Type 0
  NoRules = Entries (λ _ rs. rs ≡ [])

  -- What a load leaves: the backing store that is given, and the complex rules that there were.
  abbrev Backed : ComplexStore D → D → ComplexStore D → Type 0
  Backed s e t = (t.backing ≡ some e) × (t.complex_rules ≡ s.complex_rules)

  load-Backed :
      (l : GudgeonList) (rule : Text) (s : ComplexStore D) (d e : D)
      → s.backing ≡ some d
      → regex_only glob compile inner l ≡ false
      → is_complex rule ≡ false
      → inner.load l rule d ≡ some e
      → (t : ComplexStore D) × (load glob compile inner l rule s ≡ some t) × Backed s e t
  unfolding load load_backing register
  load-Backed l rule s d e b r c i = (
    record s { backing = some e; base = add_list (some l) s.base },
    rw (r, c, b, load_backing, i, load),
    (refl, refl),
  )

  load_lines-Backed :
      (l : GudgeonList) (lines : List Text) (s : ComplexStore D) (d : D) (count : ℕ) (e : D) (n : ℕ)
      → s.backing ≡ some d
      → IsPlain l (rules_of lines)
      → load_lines inner l lines d count ≡ some (e, n)
      → (t : ComplexStore D) × (load_lines (ops glob compile inner) l lines s count ≡ some (t, n))
        × Backed s e t
  unfolding load_lines rules_of ops
  load_lines-Backed l [] s d count e n b p i =
      let same : (d, count) ≡ (e, n) = some-injective _ _ i in
      (
        s,
        ap (λ (m : ℕ). some (s, m)) (ap (λ (r : D × ℕ). r.1) same),
        (b ∙ ap (λ (r : D × ℕ). some r.0) same, refl),
      )
  load_lines-Backed l (line ∷ lines) s d count e n b (r, p) i =
      elim (Bool-cases (is_empty (parse_line line))) [
        | inl y ↦
            rw (y, load_lines)
              (load_lines-Backed l lines s d count e n b (r, rw y at p) (rw (y, load_lines) at i))
        | inr y ↦ elim (Option-cases (inner.load l (parse_line line) d)) [
          | inl f ↦ absurd (none-ne-some (rw (y, f, load_lines) at i))
          | inr (c, f) ↦
              let plain : (is_complex (parse_line line) ≡ false)
                  × All (λ rule. is_complex rule ≡ false) (rules_of lines) =
                rw y at p in
              let (t, g, (k, u)) = load-Backed l (parse_line line) s d c b r plain.0 f in
              let (v, h, (m, w)) =
                load_lines-Backed l lines t c (count + 1) e n k (r, plain.1)
                  (rw (y, f, load_lines) at i) in
              (v, rw (y, g, load_lines) h, (m, w ∙ u))
        ]
      ]

  load_list-Backed :
      (l : GudgeonList) (file : Option (List Text)) (s : ComplexStore D) (d e : D) (n : ℕ)
      → s.backing ≡ some d
      → IsPlain l (rules_in file)
      → load_list inner l file d ≡ some (e, n)
      → (t : ComplexStore D) × (load_list (ops glob compile inner) l file s ≡ some (t, n))
        × Backed s e t
  unfolding load_list rules_in
  load_list-Backed l none s d e n b p i =
      let same : (d, 0) ≡ (e, n) = some-injective _ _ i in
      (
        s,
        ap (λ (m : ℕ). some (s, m)) (ap (λ (r : D × ℕ). r.1) same),
        (b ∙ ap (λ (r : D × ℕ). some r.0) same, refl),
      )
  load_list-Backed l (some lines) s d e n b p i = load_lines-Backed l lines s d 0 e n b p i

  load_lists-Backed :
      (file : GudgeonList → Option (List Text)) (lists : List GudgeonList) (s : ComplexStore D)
      (d e : D) (counts : List ℕ)
      → s.backing ≡ some d
      → All (λ l. IsPlain l (rules_in (file l))) lists
      → load_lists inner file lists d ≡ some (e, counts)
      → (t : ComplexStore D) × (load_lists (ops glob compile inner) file lists s ≡ some (t, counts))
        × Backed s e t
  unfolding load_lists
  load_lists-Backed file [] s d e counts b p i =
      let same : (d, []) ≡ (e, counts) = some-injective _ _ i in
      (
        s,
        ap (λ (r : D × List ℕ). some (s, r.1)) same,
        (b ∙ ap (λ (r : D × List ℕ). some r.0) same, refl),
      )
  load_lists-Backed file (l ∷ lists) s d e counts b p i =
      elim (Option-cases (load_list inner l (file l) d)) [
        | inl f ↦ absurd (none-ne-some (rw (f, load_lists) at i))
        | inr ((c, n), f) ↦ elim (Option-cases (load_lists inner file lists c)) [
          | inl g ↦ absurd (none-ne-some (rw (f, load_lists, g) at i))
          | inr ((a, ns), g) ↦
              let (t, h, (k, u)) = load_list-Backed l (file l) s d c n b p.0 f in
              let (v, j, (m, w)) = load_lists-Backed file lists t c a ns k p.1 g in
              let same : (a, n ∷ ns) ≡ (e, counts) =
                some-injective _ _ (rw (f, load_lists, g) at i) in
              (
                v,
                rw (h, load_lists)
                    (rw (j, load_lists) (ap (λ (r : D × List ℕ). some (v, r.1)) same)),
                (m ∙ ap (λ (r : D × List ℕ). some r.0) same, w ∙ u),
              )
        ]
      ]

  init_rules-NoRules :
      (lists : List GudgeonList) (m : Dict (List ComplexRule))
      → NoRules m
      → NoRules (init_rules glob compile inner lists m)
  unfolding init_rules
  init_rules-NoRules [] m h = h
  init_rules-NoRules (l ∷ lists) m h = elim (Option-cases (lookup (canonical_name l) m)) [
    | inl n ↦
        rw (n, init_rules)
          (init_rules-NoRules lists (insert (canonical_name l) [] m)
            (insert-Entries (λ _ rs. rs ≡ []) (canonical_name l) [] m (λ j w _ e. h j w e) refl))
    | inr (rs, n) ↦ rw (n, init_rules) (init_rules-NoRules lists m h)
  ]

  match_action-nothing :
      (s : ComplexStore D) (domain : Text) (k : Match) (l : GudgeonList)
      → NoRules s.complex_rules
      → match_action glob compile inner s domain k l ≡ no_match
  unfolding match_action first_match
  match_action-nothing s domain k l h =
      elim (Option-cases (lookup (canonical_name l) s.complex_rules)) [
        | inl n ↦ rw (n, match_action)
        | inr (rs, n) ↦ rw (n, match_action) (rw (h (canonical_name l) rs n))
      ]

  -- Without complex rules the backing store answers.
  find_match-nothing :
      (given : List GudgeonList) (domain : Text) (s : ComplexStore D) (d : D)
      → s.backing ≡ some d
      → NoRules s.complex_rules
      → find_match glob compile inner given domain s ≡ inner.find_match given domain d
  unfolding find_match is_match
  find_match-nothing given domain s d b h = rw (passes, b)
    where
      passes : two_passes given (match_action glob compile inner s domain) s.base ≡ no_match
      passes =
          ap (λ (a : Match → GudgeonList → Found). two_passes given a s.base)
            (fun_ext λ k. fun_ext λ l. match_action-nothing s domain k l h)
          ∙ two_passes-nothing given s.base

  -- If no list of the configuration is for expressions only and no rule of its file is complex, then
  -- the complex store is created as its backing store is, with the same counts, and answers FindMatch
  -- as the backing store does.
  pub create_store-plain :
      (file : GudgeonList → Option (List Text)) (lists : List GudgeonList) (s : ComplexStore D)
      (d e : D) (counts : List ℕ)
      → s.backing ≡ some d
      → All (λ l. IsPlain l (rules_in (file l))) lists
      → create_store inner file lists d ≡ some (e, counts)
      → (t : ComplexStore D) × (create_store (ops glob compile inner) file lists s
          ≡ some (t, counts))
        × ((given : List GudgeonList) (domain : Text)
            → find_match glob compile inner given domain t ≡ inner.find_match given domain e)
  unfolding create_store ops init finalize on_backing lookup
  create_store-plain file lists s d e counts b p i =
      elim (Option-cases (load_lists inner file lists (inner.init lists d))) [
        | inl f ↦ absurd (none-ne-some (rw (f, create_store) at i))
        | inr ((c, ns), f) ↦
            let (t, g, (k, u)) =
              load_lists-Backed file lists (init glob compile inner lists s) (inner.init lists d) c
                ns (rw b) p f in
            let same : (inner.finalize lists c, ns) ≡ (e, counts) =
              some-injective _ _ (rw (f, create_store) at i) in
            (
              finalize glob compile inner lists t,
              rw (g, create_store)
                  (ap (λ (r : D × List ℕ). some (finalize glob compile inner lists t, r.1)) same),
              λ given domain.
                  find_match-nothing given domain (finalize glob compile inner lists t) e
                    (rw k (ap (λ (r : D × List ℕ). some r.0) same))
                    (λ j rs h.
                      init_rules-NoRules lists [] (λ x y z. absurd (none-ne-some z)) j rs
                        (sym (ap (lookup j) u) ∙ h)),
            )
      ]
