-- ===== src/Prelude/Dict.antt =====
-- A Go map with string keys, as an association list that holds each key at most once.
use mathlib.Core.Path.{◌≡◌, refl, sym, ◌∙◌, subst}
use mathlib.Core.Logic.{inl, inr}
use mathlib.Core.Bool.{true, false}
use mathlib.Core.List.{List, [], ◌∷◌}
use mathlib.Core.Option.{Option, none, some, some-injective}
use native.Mathlib.Omega.{arith}
use gudgeon.Prelude.Tests.{if◌then◌else◌, Bool-cases}
use gudgeon.Prelude.Text.{Text, same, same_iff}

abbrev pub Dict {ℓ} : Type ℓ → Type ℓ
Dict V = List (Text × V)

module _ {ℓ} {V : Type ℓ} where
  -- `v, found := m[k]`
  unfoldable pub lookup : Text → Dict V → Option V
  lookup k [] = none
  lookup k ((j, v) ∷ m) = if same j k then some v else lookup k m

  -- `m[k] = v`
  unfoldable pub insert : Text → V → Dict V → Dict V
  insert k v [] = (k, v) ∷ []
  insert k v ((j, w) ∷ m) = if same j k then (k, v) ∷ m else (j, w) ∷ insert k v m

  -- `delete(m, k)`
  unfoldable pub delete : Text → Dict V → Dict V
  delete k [] = []
  delete k ((j, w) ∷ m) = if same j k then delete k m else (j, w) ∷ delete k m

  pub lookup-insert :
      (k j : Text) (v : V) (m : Dict V)
      → lookup j (insert k v m) ≡ (if same k j then some v else lookup j m)
  unfolding lookup insert
  lookup-insert k j v [] = refl
  lookup-insert k j v ((i, w) ∷ m) =
      ground (arith, same_iff k j, same_iff i k, same_iff i j, lookup-insert k j v m)

  pub lookup-delete :
      (k j : Text) (m : Dict V) → lookup j (delete k m) ≡ (if same k j then none else lookup j m)
  unfolding lookup delete
  lookup-delete k j [] = ground arith
  lookup-delete k j ((i, w) ∷ m) =
      ground (arith, same_iff k j, same_iff i k, same_iff i j, lookup-delete k j m)

module _ {ℓ κ} {V : Type ℓ} where
  -- Every entry has the property.
  abbrev pub Entries : (Text → V → Type κ) → Dict V → Type (ℓ ⊔ κ)
  Entries P m = (k : Text) (v : V) → lookup k m ≡ some v → P k v

  -- A write keeps the property if the other entries have it, and the new one.
  pub insert-Entries :
      (P : Text → V → Type κ) (k : Text) (v : V) (m : Dict V)
      → ((j : Text) (w : V) → same k j ≡ false → lookup j m ≡ some w → P j w)
      → P k v
      → Entries P (insert k v m)
  insert-Entries P k v m h p j w e = elim (Bool-cases (same k j)) [
    | inl s ↦
        subst (λ (i : Text). P i w) ((same_iff k j).0 s)
          (subst (P k) (some-injective v w (here s)) p)
    | inr s ↦ h j w s (there s)
  ]
    where
      here : same k j ≡ true → some v ≡ some w
      here s = sym (rw s at (lookup-insert k j v m)) ∙ e

      there : same k j ≡ false → lookup j m ≡ some w
      there s = sym (rw s at (lookup-insert k j v m)) ∙ e
