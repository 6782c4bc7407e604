-- ===== src/Rule/Memory/Sorted.antt =====
-- The binary search of foundInList against a scan of all rules.
use mathlib.Core.Bool.{false≢true}
use gudgeon.Prelude.{
  ℕ, zero, suc, ◌≤◌, ◌<◌, List, [], ◌∷◌, Bool, true, false, not, ◌||◌, ◌≡◌, refl, sym, ◌∙◌, ap, ◌⊎◌,
  inl, inr, none, some, length, get_or, any, any_index, any_at, All, ltb, ltb→lt, lt→ltb, arith,
  if◌then◌else◌, Bool-cases,
}
use gudgeon.Prelude.Text.{
  Text, to_lower, equal_fold, equal_fold_refl, equal_fold_sym, equal_fold_trans, same_iff,
}
use gudgeon.Rule.Fold.{FoldOrder}
use gudgeon.Rule.Search.{search, search_lem}
use gudgeon.Rule.Memory.{insert_sorted, sort_rules, found_in_list}

-- A rule in lower case.
abbrev pub IsLower : Text → Type 0
IsLower r = to_lower r ≡ r

module _ (order : FoldOrder) where
  open order use {less, less_trans, less_irrefl, less_total}

  -- No rule is less than one before it.
  abbrev pub IsSorted : List Text → Type 0
  IsSorted [] = Unit
  IsSorted (r ∷ rs) = All (λ t. less t r ≡ false) rs × IsSorted rs

  less_fold_right : (a b c : Text) → less a b ≡ true → equal_fold b c ≡ true → less a c ≡ true
  less_fold_right a b c h e = elim (Bool-cases (less a c)) [
    | inl t ↦ t
    | inr n ↦ elim (Bool-cases (less c a)) [
      | inl t ↦
          absurd (false≢true (sym (less_irrefl c b (equal_fold_sym b c e)) ∙ less_trans c a b t h))
      | inr n' ↦ absurd (
          false≢true (
            sym (
              less_irrefl a b (equal_fold_trans a c b (less_total a c n n') (equal_fold_sym b c e)))
            ∙ h))
    ]
  ]

  -- What is not less than `b` is not less than anything that `b` is not above.
  not_less_trans : (a b c : Text) → less b a ≡ false → less c b ≡ false → less c a ≡ false
  not_less_trans a b c h k = elim (Bool-cases (less c a)) [
    | inr n ↦ n
    | inl t ↦ elim (Bool-cases (less a b)) [
      | inl u ↦ absurd (false≢true (sym k ∙ less_trans c a b t u))
      | inr u ↦ absurd (false≢true (sym k ∙ less_fold_right c a b t (less_total a b u h)))
    ]
  ]

  insert_sorted-All :
      (b r : Text) (rs : List Text)
      → less r b ≡ false
      → All (λ t. less t b ≡ false) rs
      → All (λ t. less t b ≡ false) (insert_sorted order r rs)
  unfolding insert_sorted
  insert_sorted-All b r [] h a = (h, tt)
  insert_sorted-All b r (t ∷ rs) h a = elim (Bool-cases (less t r)) [
    | inl e ↦ rw e (a.0, insert_sorted-All b r rs h a.1)
    | inr e ↦ rw e (h, a)
  ]

  All-above :
      (b r : Text) (rs : List Text)
      → less r b ≡ false
      → All (λ t. less t r ≡ false) rs
      → All (λ t. less t b ≡ false) rs
  All-above b r [] h a = tt
  All-above b r (t ∷ rs) h a = (not_less_trans b r t h a.0, All-above b r rs h a.1)

  less_asym : (a b : Text) → less a b ≡ true → less b a ≡ false
  less_asym a b h = elim (Bool-cases (less b a)) [
    | inl t ↦ absurd (false≢true (sym (less_irrefl a a (equal_fold_refl a)) ∙ less_trans a b a h t))
    | inr n ↦ n
  ]

  insert_sorted-IsSorted :
      (r : Text) (rs : List Text) → IsSorted rs → IsSorted (insert_sorted order r rs)
  unfolding insert_sorted
  insert_sorted-IsSorted r [] s = (tt, tt)
  insert_sorted-IsSorted r (t ∷ rs) s = elim (Bool-cases (less t r)) [
    | inl e ↦ rw e (insert_sorted-All t r rs (less_asym t r e) s.0, insert_sorted-IsSorted r rs s.1)
    | inr e ↦ rw e ((e, All-above r t rs e s.0), s)
  ]

  pub sort_rules-IsSorted : (rs : List Text) → IsSorted (sort_rules order rs)
  unfolding sort_rules
  sort_rules-IsSorted [] = tt
  sort_rules-IsSorted (r ∷ rs) =
      insert_sorted-IsSorted r (sort_rules order rs) (sort_rules-IsSorted rs)

  any-insert_sorted :
      (p : Text → Bool) (r : Text) (rs : List Text)
      → any p (insert_sorted order r rs) ≡ (p r || any p rs)
  unfolding insert_sorted any
  any-insert_sorted p r [] = refl
  any-insert_sorted p r (t ∷ rs) = ground (arith, any-insert_sorted p r rs)

  -- Sorting neither loses nor makes up a rule.
  pub any-sort_rules : (p : Text → Bool) (rs : List Text) → any p (sort_rules order rs) ≡ any p rs
  unfolding sort_rules any
  any-sort_rules p [] = refl
  any-sort_rules p (r ∷ rs) =
      ground (arith, any-insert_sorted p r (sort_rules order rs), any-sort_rules p rs)

  All-insert_sorted :
      (P : Text → Type 0) (r : Text) (rs : List Text)
      → P r
      → All P rs
      → All P (insert_sorted order r rs)
  unfolding insert_sorted
  All-insert_sorted P r [] h a = (h, tt)
  All-insert_sorted P r (t ∷ rs) h a = elim (Bool-cases (less t r)) [
    | inl e ↦ rw e (a.0, All-insert_sorted P r rs h a.1)
    | inr e ↦ rw e (h, a)
  ]

  pub All-sort_rules : (P : Text → Type 0) (rs : List Text) → All P rs → All P (sort_rules order rs)
  unfolding sort_rules
  All-sort_rules P [] a = tt
  All-sort_rules P (r ∷ rs) a =
      All-insert_sorted P r (sort_rules order rs) a.0 (All-sort_rules P rs a.1)

  All_at :
      (P : Text → Type 0) (rs : List Text) (k : ℕ) → All P rs → k < length rs → P (get_or rs k [])
  All_at P [] k a h = elim h [ ]
  All_at P (r ∷ rs) zero a h = a.0
  All_at P (r ∷ rs) (suc k) a h = All_at P rs k a.1 (omega arith)

  sorted_at :
      (rs : List Text) (k m : ℕ)
      → IsSorted rs
      → k ≤ m
      → m < length rs
      → less (get_or rs m []) (get_or rs k []) ≡ false
  sorted_at [] k m s h lt = elim lt [ ]
  sorted_at (r ∷ rs) zero zero s h lt = less_irrefl r r (equal_fold_refl r)
  sorted_at (r ∷ rs) zero (suc m) s h lt = All_at (λ t. less t r ≡ false) rs m s.0 (omega arith)
  sorted_at (r ∷ rs) (suc k) zero s h lt = absurd (omega arith)
  sorted_at (r ∷ rs) (suc k) (suc m) s h lt = sorted_at rs k m s.1 (omega arith) (omega arith)

  not_less_self : (b : Bool) → not b ≡ true → b ≡ false
  not_less_self true h = absurd (false≢true h)
  not_less_self false h = refl

  -- A rule at `k` that is equal but for case makes that at `i` so, if the test holds from `i` on and
  -- not before.
  hit_at :
      (rs : List Text) (d : Text) (i k : ℕ)
      → IsSorted rs
      → k < length rs
      → equal_fold (get_or rs k []) d ≡ true
      → ((j : ℕ) → j < i → not (less (get_or rs j []) d) ≡ false)
      → ((j : ℕ) → i ≤ j → j < length rs → not (less (get_or rs j []) d) ≡ true)
      → (i < length rs) × (equal_fold (get_or rs i []) d ≡ true)
  hit_at rs d i k s lt e low high = elim (Bool-cases (ltb k i)) [
    | inl t ↦
        absurd (false≢true (sym (low k (ltb→lt k i t)) ∙ ap not (less_irrefl (get_or rs k []) d e)))
    | inr t ↦ at_index (ground arith)
  ]
    where
      at_index : i ≤ k → (i < length rs) × (equal_fold (get_or rs i []) d ≡ true)
      at_index le = (
        omega arith,
        less_total (get_or rs i []) d (not_less_self _ (high i (omega arith) (omega arith))) (
            not_less_trans (get_or rs i []) (get_or rs k []) d (sorted_at rs i k s le lt)
              (less_irrefl d (get_or rs k []) (equal_fold_sym (get_or rs k []) d e))),
      )

  module _ (rs : List Text) (d : Text) (s : IsSorted rs) where
    abbrev reached : ℕ → Bool
    reached i = not (less (get_or rs i []) d)

    abbrev index : ℕ
    index = search (length rs) reached

    reached_mono : (k m : ℕ) → k ≤ m → m < length rs → reached k ≡ true → reached m ≡ true
    reached_mono k m h lt t =
        ground (arith, not_less_trans d (get_or rs k []) (get_or rs m []), sorted_at rs k m s h lt)

    -- A rule that is equal but for case stands at the index that the search gives.
    index_hit :
        any (λ r. equal_fold r d) rs ≡ true
        → (index < length rs) × (equal_fold (get_or rs index []) d ≡ true)
    index_hit h =
        let (k, lt, e) = any_index (λ r. equal_fold r d) rs [] h in
        let (top, low, high) = search_lem reached (length rs) reached_mono in
        hit_at rs d index k s lt e low high

    -- foundInList finds a rule exactly where a scan of all rules would, and returns one that is
    -- equal to the domain but for case.
    pub found_in_list_lem :
        ((any (λ r. equal_fold r d) rs ≡ false) × (found_in_list order rs d ≡ none))
        ⊎ ((any (λ r. equal_fold r d) rs ≡ true)
            × ((k : ℕ) × (k < length rs)
                × (found_in_list order rs d ≡ some (get_or rs k []))
                × (equal_fold (get_or rs k []) d ≡ true)))
    unfolding found_in_list
    found_in_list_lem = elim (Bool-cases (any (λ r. equal_fold r d) rs)) [
      | inl t ↦ inr (
        t,
        (index, (index_hit t).0, rw (lt→ltb _ _ (index_hit t).0, (index_hit t).1), (index_hit t).1),
      )
      | inr f ↦ inl (f, miss f)
    ]
      where
        miss : any (λ r. equal_fold r d) rs ≡ false → found_in_list order rs d ≡ none
        miss f = elim (Bool-cases (ltb index (length rs))) [
          | inr e ↦ rw e
          | inl e ↦ elim (Bool-cases (equal_fold (get_or rs index []) d)) [
            | inr e' ↦ rw (e, e')
            | inl e' ↦
                absurd
                  (false≢true (sym f ∙ any_at (λ r. equal_fold r d) rs [] index (ltb→lt _ _ e) e'))
          ]
        ]

  -- On sorted rules in lower case foundInList is a scan, and returns the domain in lower case.
  pub found_in_list-any :
      (rs : List Text) (d : Text)
      → IsSorted rs
      → All IsLower rs
      → found_in_list order rs d
        ≡ (if any (λ r. equal_fold r d) rs then some (to_lower d) else none)
  found_in_list-any rs d s a = elim (found_in_list_lem rs d s) [
    | inl (e, f) ↦ rw e f
    | inr (e, (k, lt, f, q)) ↦ rw e (f ∙ ap some (lowered k lt q))
  ]
    where
      lowered :
          (k : ℕ)
          → k < length rs
          → equal_fold (get_or rs k []) d ≡ true
          → get_or rs k [] ≡ to_lower d
      lowered k lt q =
          sym (All_at IsLower rs k a lt)
          ∙ (same_iff (to_lower (get_or rs k [])) (to_lower d)).0 (unfold equal_fold in q)
