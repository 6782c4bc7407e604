-- ===== src/Rule/Reloading.antt =====
-- rule/reloading_store.go: the outermost store, which puts a lock around each call of its delegate,
-- and the ladder of stores that CreateStore puts together from it.
use gudgeon.Prelude.{
  ℕ, ◌+◌, List, [], ◌∷◌, Option, none, some, ◌≡◌, refl, Bool-cases, Option-cases, inl, inr,
}
use gudgeon.Prelude.Text.{Text, is_empty}
use gudgeon.Config.Lists.{GudgeonList}
use gudgeon.Rule.Line.{parse_line}
use gudgeon.Rule.Base.{Found, no_match, StoreOps}
use gudgeon.Rule.Load.{load_lines, load_list, load_lists, create_store, reload_list}

-- reloadingStore, less its lock and its event handles; `none` is the nil delegate.
pub record ReloadingStore (D : Type 0) : Type 0 where
  pub delegate : Option D

module _ {D : Type 0} (inner : StoreOps D) where
  -- A call of the delegate that returns nothing, if there is a delegate.
  unfoldable pub locked : (D → D) → ReloadingStore D → ReloadingStore D
  locked f s = elim s.delegate [ none ↦ s | some d ↦ record { delegate = some (f d) } ]

  -- Load
  unfoldable pub load : GudgeonList → Text → ReloadingStore D → Option (ReloadingStore D)
  load l rule s = elim s.delegate [
    | none ↦ some s
    | some d ↦ elim (inner.load l rule d) [
      | none ↦ none
      | some e ↦ some (record { delegate = some e })
    ]
  ]

  -- FindMatch
  unfoldable pub find_match : List GudgeonList → Text → ReloadingStore D → Found
  find_match lists domain s = elim s.delegate [
    | none ↦ no_match
    | some d ↦ inner.find_match lists domain d
  ]

  -- Init, Load, Clear, Finalize, FindMatch and Close
  unfoldable pub ops : StoreOps (ReloadingStore D)
  unfolding locked load find_match
  ops = record {
    init = λ lists s. locked (inner.init lists) s;
    load = load;
    clear = λ l s. locked (inner.clear l) s;
    finalize = λ lists s. locked (inner.finalize lists) s;
    find_match = find_match;
    close = λ s. locked inner.close s;
  }

  -- A store over the delegate.
  abbrev pub over : D → ReloadingStore D
  over d = record { delegate = some d }

  abbrev pub over_result : {R : Type 0} → Option (D × R) → Option (ReloadingStore D × R)
  over_result none = none
  over_result (some (d, r)) = some (over d, r)

  load_lines-over :
      (l : GudgeonList) (lines : List Text) (d : D) (count : ℕ)
      → load_lines ops l lines (over d) count ≡ over_result (load_lines inner l lines d count)
  unfolding load_lines ops load
  load_lines-over l [] d count = refl
  load_lines-over l (line ∷ lines) d count = elim (Bool-cases (is_empty (parse_line line))) [
    | inl e ↦ rw (e, load_lines) (load_lines-over l lines d count)
    | inr e ↦ elim (Option-cases (inner.load l (parse_line line) d)) [
      | inl n ↦ rw (e, n, load_lines)
      | inr (t, n) ↦ rw (e, n, load_lines) (load_lines-over l lines t (count + 1))
    ]
  ]

  load_list-over :
      (l : GudgeonList) (file : Option (List Text)) (d : D)
      → load_list ops l file (over d) ≡ over_result (load_list inner l file d)
  unfolding load_list
  load_list-over l none d = refl
  load_list-over l (some lines) d = load_lines-over l lines d 0

  load_lists-over :
      (file : GudgeonList → Option (List Text)) (lists : List GudgeonList) (d : D)
      → load_lists ops file lists (over d) ≡ over_result (load_lists inner file lists d)
  unfolding load_lists
  load_lists-over file [] d = refl
  load_lists-over file (l ∷ lists) d = elim (Option-cases (load_list inner l (file l) d)) [
    | inl n ↦ rw (load_list-over l (file l) d, n, load_lists)
    | inr ((t, count), n) ↦ elim (Option-cases (load_lists inner file lists t)) [
      | inl m ↦ rw (load_list-over l (file l) d, n, load_lists, load_lists-over file lists t, m)
      | inr ((u, counts), m) ↦
          rw (load_list-over l (file l) d, n, load_lists, load_lists-over file lists t, m)
    ]
  ]

  -- Creating the store is creating its delegate.
  pub created :
      (file : GudgeonList → Option (List Text)) (lists : List GudgeonList) (d : D)
      → create_store ops file lists (over d) ≡ over_result (create_store inner file lists d)
  unfolding create_store ops locked
  created file lists d = elim (Option-cases (load_lists inner file lists (inner.init lists d))) [
    | inl n ↦ rw (load_lists-over file lists (inner.init lists d), n, create_store)
    | inr ((t, counts), n) ↦ rw (load_lists-over file lists (inner.init lists d), n, create_store)
  ]

  reloaded :
      (changed : Option (List Text)) (l : GudgeonList) (d : D)
      → reload_list ops l changed (over d) ≡ over_result (reload_list inner l changed d)
  unfolding reload_list ops locked
  reloaded changed l d = elim (Option-cases (load_list inner l changed (inner.clear l d))) [
    | inl n ↦ rw (load_list-over l changed (inner.clear l d), n, reload_list)
    | inr ((t, count), n) ↦ rw (load_list-over l changed (inner.clear l d), n, reload_list)
  ]

  -- The lock changes nothing that the delegate does: creating the store, reloading a list and asking
  -- for a match all give what the delegate gives.
  pub reloading-delegate :
      (file : GudgeonList → Option (List Text)) (changed : Option (List Text))
      (lists : List GudgeonList) (l : GudgeonList) (domain : Text) (d : D)
      → (create_store ops file lists (over d) ≡ over_result (create_store inner file lists d))
        × (reload_list ops l changed (over d) ≡ over_result (reload_list inner l changed d))
        × (find_match lists domain (over d) ≡ inner.find_match lists domain d)
  unfolding find_match
  reloading-delegate file changed lists l domain d =
      (created file lists d, reloaded changed l d, refl)
