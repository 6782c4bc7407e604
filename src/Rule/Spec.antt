-- ===== src/Rule/Spec.antt =====
-- What a store promises: FindMatch, told from the lists that are registered and from a test that
-- says which rules a list holds.
pub mod Agree
use gudgeon.Prelude.{
  List, [], ◌∷◌, Bool, true, false, ◌||◌, Option, none, some, ◌≡◌, refl, any, arith, if◌then◌else◌,
  Bool-cases, Option-cases, ◌⊎◌, inl, inr,
}
use mathlib.Core.List.{Memᴰ}
use mathlib.Core.List.Memᴰ
use gudgeon.Prelude.Text.{Text}
use gudgeon.Prelude.Dict.{Dict, lookup}
use gudgeon.Config.Lists.{ListType, allow, block, GudgeonList, short_name_of}
use gudgeon.Rule.Base.{
  Match, match_none, match_block, match_allow, Found, no_match, found, is_match, BaseStore, of_type,
  match_loop, match_for_each_of_type_in, two_passes,
}

module _ (holds : GudgeonList → Text → Bool) (domains : List Text) where
  -- The first of the domains for which the list holds a rule.
  unfoldable pub first_hit : GudgeonList → List Text → Option Text
  first_hit l [] = none
  first_hit l (d ∷ ds) = if holds l d then some d else first_hit l ds

  -- Some list of the type that is registered under the short name of a given one holds a rule for
  -- one of the domains.
  unfoldable pub hit_in : Dict GudgeonList → GudgeonList → Bool
  unfolding any
  hit_in m v = elim (lookup (short_name_of v) m) [ none ↦ false | some l ↦ any (holds l) domains ]

  unfoldable pub hits : ListType → List GudgeonList → BaseStore → Bool
  unfolding hit_in
  hits t lists b = elim (of_type t b) [ none ↦ false | some m ↦ any (hit_in m) lists ]

  module _ (shown : Text → Text) where
    -- What a pass answers for one list.
    unfoldable pub hit_action : Match → GudgeonList → Found
    unfolding first_hit
    hit_action m l = elim (first_hit l domains) [ none ↦ no_match | some d ↦ found m l (shown d) ]

    unfoldable pub spec_find : List GudgeonList → BaseStore → Found
    unfolding hit_action
    spec_find lists b = two_passes lists hit_action b

module _ (holds : GudgeonList → Text → Bool) (domains : List Text) (shown : Text → Text) where
  first_hit-any :
      (l : GudgeonList) (ds : List Text)
      → ((first_hit holds domains l ds ≡ none) × (any (holds l) ds ≡ false))
        ⊎ ((d : Text) × (first_hit holds domains l ds ≡ some d)
            × (any (holds l) ds ≡ true)
            × Memᴰ d ds
            × (holds l d ≡ true))
  unfolding first_hit any
  first_hit-any l [] = inl (refl, refl)
  first_hit-any l (d ∷ ds) = elim (Bool-cases (holds l d)) [
    | inl e ↦ inr (d, rw e, rw e, Memᴰ.head refl, e)
    | inr e ↦ elim (first_hit-any l ds) [
      | inl (n, a) ↦ rw (e, first_hit, any) (inl (n, a))
      | inr (c, f, a, m, h) ↦ rw (e, first_hit, any) (inr (c, f, a, Memᴰ.tail m, h))
    ]
  ]

  -- What one list answers: nothing where it holds no rule for a domain, and otherwise the list with a
  -- domain for which it does.
  hit_action_cases :
      (m : Match) (l : GudgeonList)
      → ((hit_action holds domains shown m l ≡ no_match) × (any (holds l) domains ≡ false))
        ⊎ ((d : Text) × (hit_action holds domains shown m l ≡ found m l (shown d))
            × (any (holds l) domains ≡ true)
            × Memᴰ d domains
            × (holds l d ≡ true))
  unfolding hit_action
  hit_action_cases m l = elim (first_hit-any l domains) [
    | inl (e, h) ↦ inl (rw (e, hit_action), h)
    | inr (d, e, h, i, k) ↦ inr (d, rw (e, hit_action), h, i, k)
  ]

  -- The list is registered in the map under the short name of a given one.
  abbrev pub IsListed : Dict GudgeonList → List GudgeonList → GudgeonList → Type 0
  IsListed m lists l = (v : GudgeonList) × Memᴰ v lists × (lookup (short_name_of v) m ≡ some l)

  -- The answer names a list of the map and one of the domains, for which the list holds a rule.
  abbrev pub IsHitIn : Match → Dict GudgeonList → List GudgeonList → Found → Type 0
  IsHitIn k m lists r =
      (l : GudgeonList) × (d : Text) × (r ≡ found k l (shown d))
      × IsListed m lists l
      × Memᴰ d domains
      × (holds l d ≡ true)

  -- The map is that of the lists of the type.
  abbrev pub IsHit : Match → ListType → List GudgeonList → BaseStore → Found → Type 0
  IsHit k t lists b r = (m : Dict GudgeonList) × (of_type t b ≡ some m) × IsHitIn k m lists r

  abbrev Pass : Bool → (Found → Type 0) → Found → Type 0
  Pass h P r = ((h ≡ false) × (r ≡ no_match)) ⊎ ((h ≡ true) × P r)

  match_loop-more :
      (k : Match) (m : Dict GudgeonList) (v : GudgeonList) (lists : List GudgeonList) (h : Bool)
      (r : Found)
      → Pass h (IsHitIn k m lists) r
      → Pass h (IsHitIn k m (v ∷ lists)) r
  match_loop-more k m v lists h r (inl n) = inl n
  match_loop-more k m v lists h r (inr (e, (l, d, q, (u, w, s), i, x))) =
      inr (e, (l, d, q, (u, Memᴰ.tail w, s), i, x))

  match_loop-Pass :
      (k : Match) (m : Dict GudgeonList) (lists : List GudgeonList)
      → is_match k ≡ true
      → Pass
          (any (hit_in holds domains m) lists)
          (IsHitIn k m lists)
          (match_loop m lists (hit_action holds domains shown k))
  unfolding match_loop any hit_in is_match
  match_loop-Pass k m [] e = inl (refl, refl)
  match_loop-Pass k m (v ∷ lists) e =
      let rest = match_loop-more k m v lists _ _ (match_loop-Pass k m lists e) in
      elim (Option-cases (lookup (short_name_of v) m)) [
        | inl n ↦ rw (n, match_loop, any, hit_in) rest
        | inr (l, s) ↦ elim (hit_action_cases k l) [
          | inl (h, a) ↦ rw (s, match_loop, any, hit_in) (rw (h, a) rest)
          | inr (d, h, a, i, t) ↦
              rw (s, match_loop, any, hit_in)
                (rw (h, a, e) (inr (refl, (l, d, refl, (v, Memᴰ.head refl, s), i, t))))
        ]
      ]

  match_for_each-Pass :
      (k : Match) (t : ListType) (lists : List GudgeonList) (b : BaseStore)
      → is_match k ≡ true
      → Pass
          (hits holds domains t lists b)
          (IsHit k t lists b)
          (match_for_each_of_type_in t lists (hit_action holds domains shown k) b)
  unfolding match_for_each_of_type_in hits any
  match_for_each-Pass k t lists b e = elim (Option-cases (of_type t b)) [
    | inl n ↦ missing lists n
    | inr (m, s) ↦ present m lists s
  ]
    where
      missing :
          (lists : List GudgeonList)
          → of_type t b ≡ none
          → Pass
              (hits holds domains t lists b)
              (IsHit k t lists b)
              (match_for_each_of_type_in t lists (hit_action holds domains shown k) b)
      missing [] n = rw (n, hits) (inl (refl, refl))
      missing (v ∷ lists) n = rw (n, hits, match_for_each_of_type_in) (inl (refl, refl))

      named :
          {h : Bool} {r : Found} (m : Dict GudgeonList) (lists : List GudgeonList)
          → Pass h (IsHitIn k m lists) r
          → Pass h (λ q. (n : Dict GudgeonList) × (some m ≡ some n) × IsHitIn k n lists q) r
      named m lists (inl n) = inl n
      named m lists (inr (h, x)) = inr (h, (m, refl, x))

      present :
          (m : Dict GudgeonList) (lists : List GudgeonList)
          → of_type t b ≡ some m
          → Pass
              (hits holds domains t lists b)
              (IsHit k t lists b)
              (match_for_each_of_type_in t lists (hit_action holds domains shown k) b)
      present m [] s = rw (s, hits) (inl (refl, refl))
      present m (v ∷ lists) s =
          rw (s, hits, match_for_each_of_type_in)
            (named m (v ∷ lists) (match_loop-Pass k m (v ∷ lists) e))

  -- The three cases of an answer: a registered list that allows holds a rule for one of the domains,
  -- and the answer allows and names such a list and domain; none does, one that blocks holds such a
  -- rule, and the answer blocks and names such a list and domain; neither does, and there is no match.
  abbrev pub Verdict : List GudgeonList → BaseStore → Found → Type 0
  Verdict lists b r =
      ((hits holds domains allow lists b ≡ true) × IsHit match_allow allow lists b r)
      ⊎ ((hits holds domains allow lists b ≡ false)
          × (hits holds domains block lists b ≡ true)
          × IsHit match_block block lists b r)
      ⊎ ((hits holds domains allow lists b ≡ false)
          × (hits holds domains block lists b ≡ false)
          × (r ≡ no_match))

  -- The two passes over the given lists answer in one of three ways: if a list that is registered as
  -- one that allows, under the short name of a given one, holds a rule for one of the domains, the
  -- answer allows and names such a list and domain; if none does and one that is registered as one
  -- that blocks holds such a rule, the answer blocks and names such a list and domain; if neither
  -- holds one, there is no match.
  pub spec_find-Verdict :
      (lists : List GudgeonList) (b : BaseStore)
      → Verdict lists b (spec_find holds domains shown lists b)
  unfolding spec_find two_passes is_match
  spec_find-Verdict lists b = elim (match_for_each-Pass match_allow allow lists b refl) [
    | inl (n, e) ↦ elim (match_for_each-Pass match_block block lists b refl) [
      | inl (n', e') ↦ inr (inr (n, n', rw e e'))
      | inr (h', x) ↦ inr (inl (n, h', rw e x))
    ]
    | inr (h, (m, o, (l, d, e, g, i, x))) ↦ inl (h, (m, o, (l, d, rw e, g, i, x)))
  ]
