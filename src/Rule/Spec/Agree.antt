-- ===== src/Rule/Spec/Agree.antt =====
-- When two searches give the same match and the same list, though they may show another rule.
use gudgeon.Prelude.{
  List, [], ◌∷◌, Bool, ◌≡◌, refl, ap, sym, ◌∙◌, All, arith, if◌then◌else◌, Bool-cases, Option-cases,
  inl, inr,
}
use gudgeon.Prelude.Text.{Text}
use gudgeon.Prelude.Dict.{Dict, lookup}
use gudgeon.Config.Lists.{ListType, allow, block, GudgeonList, short_name_of}
use gudgeon.Rule.Base.{
  Match, match_block, match_allow, Found, is_match, BaseStore, of_type, match_loop,
  match_for_each_of_type_in, two_passes,
}
use gudgeon.Rule.Spec.{first_hit, hit_action, spec_find}

abbrev pub Agree : Found → Found → Type 0
Agree r q = (r.match ≡ q.match) × (r.list ≡ q.list)

module _ (act other : Match → GudgeonList → Found)
    (same_act : (k : Match) (l : GudgeonList) → Agree (act k l) (other k l)) where
  choose-Agree :
      (r q r' q' : Found)
      → Agree r q
      → Agree r' q'
      → Agree (if is_match r.match then r else r') (if is_match q.match then q else q')
  choose-Agree r q r' q' (m, l) a = elim (Bool-cases (is_match r.match)) [
    | inl t ↦ rw (t, sym (ap is_match m) ∙ t) (m, l)
    | inr f ↦ rw (f, sym (ap is_match m) ∙ f) a
  ]

  match_loop-Agree :
      (k : Match) (m : Dict GudgeonList) (lists : List GudgeonList)
      → Agree (match_loop m lists (act k)) (match_loop m lists (other k))
  unfolding match_loop
  match_loop-Agree k m [] = (refl, refl)
  match_loop-Agree k m (v ∷ lists) = elim (Option-cases (lookup (short_name_of v) m)) [
    | inl n ↦ rw (n, match_loop) (match_loop-Agree k m lists)
    | inr (l, e) ↦
        rw (e, match_loop)
          (choose-Agree (act k l) (other k l) _ _ (same_act k l) (match_loop-Agree k m lists))
  ]

  pass-Agree :
      (k : Match) (t : ListType) (lists : List GudgeonList) (b : BaseStore)
      → Agree
          (match_for_each_of_type_in t lists (act k) b)
          (match_for_each_of_type_in t lists (other k) b)
  unfolding match_for_each_of_type_in
  pass-Agree k t [] b = (refl, refl)
  pass-Agree k t (v ∷ lists) b = elim (Option-cases (of_type t b)) [
    | inl n ↦ rw (n, match_for_each_of_type_in) (refl, refl)
    | inr (m, e) ↦ rw (e, match_for_each_of_type_in) (match_loop-Agree k m (v ∷ lists))
  ]

  pub two_passes-Agree :
      (lists : List GudgeonList) (b : BaseStore)
      → Agree (two_passes lists act b) (two_passes lists other b)
  unfolding two_passes
  two_passes-Agree lists b =
      choose-Agree _ _ _ _ (pass-Agree match_allow allow lists b)
        (pass-Agree match_block block lists b)

module _ (test other : GudgeonList → Text → Bool) (domains : List Text)
    (shown shown' : Text → Text) where
  first_hit-agree :
      (l : GudgeonList) (ds : List Text)
      → All (λ d. test l d ≡ other l d) ds
      → first_hit test domains l ds ≡ first_hit other domains l ds
  unfolding first_hit
  first_hit-agree l [] a = refl
  first_hit-agree l (d ∷ ds) a = ground (arith, a.0, first_hit-agree l ds a.1)

  hit_action-Agree :
      (k : Match) (l : GudgeonList)
      → All (λ d. test l d ≡ other l d) domains
      → Agree (hit_action test domains shown k l) (hit_action other domains shown' k l)
  unfolding hit_action
  hit_action-Agree k l a = ground (arith, first_hit-agree l domains a)

  -- Two tests that agree on the domains that are asked about give the same match and list.
  pub spec_find-Agree :
      (lists : List GudgeonList) (b : BaseStore)
      → ((l : GudgeonList) → All (λ d. test l d ≡ other l d) domains)
      → Agree (spec_find test domains shown lists b) (spec_find other domains shown' lists b)
  unfolding spec_find
  spec_find-Agree lists b a = two_passes-Agree _ _ (λ k l. hit_action-Agree k l (a l)) lists b
