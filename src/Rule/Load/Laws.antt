-- ===== src/Rule/Load/Laws.antt =====
-- The interface through which a store's theorems serve its clients, and what creating and reloading
-- do to any store that fills it.
use gudgeon.Prelude.{
  ℕ, ◌+◌, List, [], ◌∷◌, map, Bool, true, false, not, ◌&&◌, ◌||◌, Option, none, some, ◌≡◌, refl, ap,
  ◌∙◌, any, length, arith, if◌then◌else◌, Bool-cases, inl, inr, All,
}
use mathlib.Core.Path.{fun_ext}
use native.Mathlib.Nat.{add-zero}
use gudgeon.Prelude.Text.{Text, same, same_refl, is_empty}
use gudgeon.Config.Lists.{GudgeonList, canonical_name}
use gudgeon.Util.Domains.{domain_list}
use gudgeon.Rule.Line.{parse_line}
use gudgeon.Rule.Base.{BaseStore, add_list, remove_list, StoreOps}
use gudgeon.Rule.Spec.{spec_find}
use gudgeon.Rule.Load.{load_lines, load_list, load_lists, create_store, reload_list}

-- The two lists have one canonical name, by which stores keep their rules.
unfoldable pub same_name : GudgeonList → GudgeonList → Bool
same_name l k = same (canonical_name l) (canonical_name k)

-- Some of the lists has the name of the given one.
unfoldable pub named_in : List GudgeonList → GudgeonList → Bool
unfolding same_name
named_in lists l = any (λ k. same_name k l) lists

named_in_more :
    (k : GudgeonList) (lists ls : List GudgeonList)
    → All (λ l. named_in lists l ≡ true) ls
    → All (λ l. named_in (k ∷ lists) l ≡ true) ls
unfolding named_in any
named_in_more k lists [] a = tt
named_in_more k lists (l ∷ ls) a = (ground (arith, a.0), named_in_more k lists ls a.1)

pub named_in-All : (lists : List GudgeonList) → All (λ l. named_in lists l ≡ true) lists
unfolding named_in any
named_in-All [] = tt
named_in-All (l ∷ lists) =
    (ground (arith, same_refl (canonical_name l)), named_in_more l lists lists (named_in-All lists))

-- What a store over `S` promises, for a test of a rule against a domain and a text that it shows for
-- a domain that it found. `Ready lists pending s` is the store's own invariant: it was initialised
-- with `lists`, and at most those of `pending` were loaded since they were last finalized.
-- `Plain` holds of the stores that may be initialised.
pub record StoreLaws {S : Type 0} (ops : StoreOps S) (matches : Text → Text → Bool)
    (shown : Text → Text) : Type 1 where
  pub base_of : S → BaseStore
  pub holds : S → GudgeonList → Text → Bool
  pub Plain : S → Type 0
  pub Ready : List GudgeonList → List GudgeonList → S → Type 0
  pub init-Ready : (lists : List GudgeonList) (s : S) → Plain s → Ready lists [] (ops.init lists s)
  pub holds-init :
      (lists : List GudgeonList) (s : S) (l : GudgeonList) (d : Text)
      → holds (ops.init lists s) l d ≡ false
  pub base_of-init : (lists : List GudgeonList) (s : S) → base_of (ops.init lists s) ≡ base_of s
  pub pending-Ready :
      (lists pending : List GudgeonList) (s : S) → Ready lists [] s → Ready lists pending s
  pub loaded :
      (lists pending : List GudgeonList) (s : S) (l : GudgeonList) (rule : Text)
      → Ready lists pending s
      → named_in lists l ≡ true
      → named_in pending l ≡ true
      → (t : S) × (ops.load l rule s ≡ some t)
        × Ready lists pending t
        × (base_of t ≡ add_list (some l) (base_of s))
        × ((k : GudgeonList) (d : Text)
            → holds t k d ≡ (holds s k d || (same_name l k && matches rule d)))
  pub clear-Ready :
      (lists pending : List GudgeonList) (s : S) (l : GudgeonList)
      → Ready lists pending s
      → Ready lists pending (ops.clear l s)
  pub holds-clear :
      (s : S) (l k : GudgeonList) (d : Text)
      → holds (ops.clear l s) k d ≡ (not (same_name l k) && holds s k d)
  pub base_of-clear :
      (s : S) (l : GudgeonList) → base_of (ops.clear l s) ≡ remove_list (some l) (base_of s)
  pub finalize-Ready :
      (lists given : List GudgeonList) (s : S)
      → Ready lists given s
      → Ready lists [] (ops.finalize given s)
  pub holds-finalize :
      (given : List GudgeonList) (s : S) (l : GudgeonList) (d : Text)
      → holds (ops.finalize given s) l d ≡ holds s l d
  pub base_of-finalize :
      (given : List GudgeonList) (s : S) → base_of (ops.finalize given s) ≡ base_of s
  pub find_match-spec_find :
      (lists given : List GudgeonList) (s : S) (domain : Text)
      → Ready lists [] s
      → ops.find_match given domain s
        ≡ spec_find (holds s) (domain_list domain) shown given (base_of s)

-- The rules of a file: what ParseLine makes of its lines, less the empty ones.
unfoldable pub rules_of : List Text → List Text
rules_of [] = []
rules_of (line ∷ lines) =
    if is_empty (parse_line line) then rules_of lines else parse_line line ∷ rules_of lines

unfoldable pub rules_in : Option (List Text) → List Text
unfolding rules_of
rules_in none = []
rules_in (some lines) = rules_of lines

-- The list is registered once for each of the rules.
unfoldable pub add_each : GudgeonList → List Text → BaseStore → BaseStore
add_each l [] b = b
add_each l (rule ∷ rules) b = add_each l rules (add_list (some l) b)

unfoldable pub add_all : (GudgeonList → List Text) → List GudgeonList → BaseStore → BaseStore
unfolding add_each
add_all rules [] b = b
add_all rules (l ∷ lists) b = add_all rules lists (add_each l (rules l) b)

-- A list of the given ones that has the name of `k` holds a rule that matches.
unfoldable pub holds_some :
    (Text → Text → Bool) → (GudgeonList → List Text) → List GudgeonList → GudgeonList → Text → Bool
holds_some matches rules [] k d = false
holds_some matches rules (l ∷ lists) k d =
    (same_name l k && any (λ rule. matches rule d) (rules l)) || holds_some matches rules lists k d

module _ {S : Type 0} {ops : StoreOps S} {matches : Text → Text → Bool} {shown : Text → Text}
    (laws : StoreLaws ops matches shown) where
  open laws use {base_of, holds, Plain, Ready, loaded}

  -- What it takes to go from `s` to `t` by loading: the base is `b` and the new content is `more`.
  abbrev pub Adds :
      List GudgeonList → List GudgeonList → (GudgeonList → Text → Bool) → BaseStore → S → S → Type 0
  Adds lists pending more b s t =
      Ready lists pending t
      × (base_of t ≡ b)
      × ((k : GudgeonList) (d : Text) → holds t k d ≡ (holds s k d || more k d))

  abbrev has_rule : GudgeonList → List Text → GudgeonList → Text → Bool
  has_rule l rules k d = same_name l k && any (λ rule. matches rule d) rules

  load_lines-Adds :
      (lists pending : List GudgeonList) (l : GudgeonList) (lines : List Text) (s : S) (count : ℕ)
      → Ready lists pending s
      → named_in lists l ≡ true
      → named_in pending l ≡ true
      → (t : S) × (load_lines ops l lines s count ≡ some (t, count + length (rules_of lines)))
        × Adds lists pending
            (has_rule l (rules_of lines))
            (add_each l (rules_of lines) (base_of s))
            s
            t
  unfolding load_lines rules_of add_each any
  load_lines-Adds lists pending l [] s count r n p =
      (s, rw add-zero, (r, refl, λ k d. ground arith))
  load_lines-Adds lists pending l (line ∷ lines) s count r n p =
      elim (Bool-cases (is_empty (parse_line line))) [
        | inl e ↦ rw (e, load_lines, rules_of) (load_lines-Adds lists pending l lines s count r n p)
        | inr e ↦
            let (t, e1, r1, b1, h1) = loaded lists pending s l (parse_line line) r n p in
            let (u, e2, (r2, b2, h2)) =
              load_lines-Adds lists pending l lines t (count + 1) r1 n p in
            rw (e, load_lines, rules_of)
              (
                u,
                rw (e1, load_lines) (e2 ∙ ap some (ap (λ i. (u, i)) (omega arith))),
                (
                  r2,
                  b2 ∙ ap (add_each l (rules_of lines)) b1,
                  λ k d. ground (arith, h1 k d, h2 k d),
                ),
              )
      ]

  load_list-Adds :
      (lists pending : List GudgeonList) (l : GudgeonList) (file : Option (List Text)) (s : S)
      → Ready lists pending s
      → named_in lists l ≡ true
      → named_in pending l ≡ true
      → (t : S) × (load_list ops l file s ≡ some (t, length (rules_in file)))
        × Adds lists pending
            (has_rule l (rules_in file))
            (add_each l (rules_in file) (base_of s))
            s
            t
  unfolding load_list rules_in add_each any
  load_list-Adds lists pending l none s r n p = (s, refl, (r, refl, λ k d. ground arith))
  load_list-Adds lists pending l (some lines) s r n p =
      let (t, e, a) = load_lines-Adds lists pending l lines s 0 r n p in
      (t, e ∙ ap some (ap (λ i. (t, i)) (omega arith)), a)

  load_lists-Adds :
      (file : GudgeonList → Option (List Text)) (lists pending some_lists : List GudgeonList)
      (s : S)
      → Ready lists pending s
      → All (λ l. named_in lists l ≡ true) some_lists
      → All (λ l. named_in pending l ≡ true) some_lists
      → (t : S) × (load_lists ops file some_lists s
          ≡ some (t, map (λ l. length (rules_in (file l))) some_lists))
        × Adds lists pending
            (holds_some matches (λ l. rules_in (file l)) some_lists)
            (add_all (λ l. rules_in (file l)) some_lists (base_of s))
            s
            t
  unfolding load_lists holds_some add_all
  load_lists-Adds file lists pending [] s r n p = (s, refl, (r, refl, λ k d. ground arith))
  load_lists-Adds file lists pending (l ∷ ls) s r n p =
      let (t, e1, (r1, b1, h1)) = load_list-Adds lists pending l (file l) s r n.0 p.0 in
      let (u, e2, (r2, b2, h2)) = load_lists-Adds file lists pending ls t r1 n.1 p.1 in
      (
        u,
        rw (e1, load_lists) (rw (e2, load_lists)),
        (
          r2,
          b2 ∙ ap (add_all (λ k. rules_in (file k)) ls) b1,
          λ k d. ground (arith, h1 k d, h2 k d),
        ),
      )

  -- A store made from the files of the lists holds, under each name, the rules of the files of the
  -- lists that have it; it reports how many each file holds, and no load panics.
  pub create_store_lem :
      (file : GudgeonList → Option (List Text)) (lists : List GudgeonList) (s : S)
      → Plain s
      → (t : S) × (create_store ops file lists s
          ≡ some (t, map (λ l. length (rules_in (file l))) lists))
        × Ready lists [] t
        × (base_of t ≡ add_all (λ l. rules_in (file l)) lists (base_of s))
        × ((k : GudgeonList) (d : Text)
            → holds t k d ≡ holds_some matches (λ l. rules_in (file l)) lists k d)
  unfolding create_store
  create_store_lem file lists s p =
      let (t, e, (r, b, h)) =
        load_lists-Adds file lists lists lists (ops.init lists s)
          (laws.pending-Ready lists lists _ (laws.init-Ready lists s p)) (named_in-All lists)
          (named_in-All lists) in
      (
        ops.finalize lists t,
        rw (e, create_store),
        laws.finalize-Ready lists lists t r,
        laws.base_of-finalize lists t
            ∙ b
            ∙ ap (add_all (λ l. rules_in (file l)) lists) (laws.base_of-init lists s),
        λ k d.
            laws.holds-finalize lists t k d
            ∙ h k d
            ∙ ap (λ x. x || holds_some matches (λ l. rules_in (file l)) lists k d)
                (laws.holds-init lists s k d),
      )

  -- Loading a list again replaces the rules that its name had by those of the file, and leaves those
  -- of other names.
  pub reload_list_lem :
      (lists : List GudgeonList) (l : GudgeonList) (file : Option (List Text)) (s : S)
      → Ready lists [] s
      → named_in lists l ≡ true
      → (t : S) × (reload_list ops l file s ≡ some (t, length (rules_in file)))
        × Ready lists [] t
        × (base_of t ≡ add_each l (rules_in file) (remove_list (some l) (base_of s)))
        × ((k : GudgeonList) (d : Text)
            → holds t k d ≡ (
                if same_name l k
                then any (λ rule. matches rule d) (rules_in file)
                else holds s k d))
  unfolding reload_list
  reload_list_lem lists l file s r n =
      let (t, e, (r1, b, h)) =
        load_list-Adds lists (l ∷ []) l file (ops.clear l s)
          (laws.pending-Ready lists (l ∷ []) _ (laws.clear-Ready lists [] s l r)) n
          (named_in-All (l ∷ [])).0 in
      (
        ops.finalize (l ∷ []) t,
        rw (e, reload_list),
        laws.finalize-Ready lists (l ∷ []) t r1,
        laws.base_of-finalize (l ∷ []) t
            ∙ b
            ∙ ap (add_each l (rules_in file)) (laws.base_of-clear s l),
        λ k d.
            laws.holds-finalize (l ∷ []) t k d ∙ h k d ∙ ground (arith, laws.holds-clear s l k d),
      )

  -- FindMatch on a store that is ready, told from a test that agrees with what the store holds.
  find_match_by :
      (lists given : List GudgeonList) (s : S) (domain : Text) (test : GudgeonList → Text → Bool)
      (b : BaseStore)
      → Ready lists [] s
      → base_of s ≡ b
      → ((k : GudgeonList) (d : Text) → holds s k d ≡ test k d)
      → ops.find_match given domain s ≡ spec_find test (domain_list domain) shown given b
  find_match_by lists given s domain test b r e h =
      laws.find_match-spec_find lists given s domain r
      ∙ ap (λ (x : BaseStore). spec_find (holds s) (domain_list domain) shown given x) e
      ∙ ap (λ (t : GudgeonList → Text → Bool). spec_find t (domain_list domain) shown given b)
          (fun_ext λ k. fun_ext λ d. h k d)

  pub find_match-create_store :
      (file : GudgeonList → Option (List Text)) (lists given : List GudgeonList) (domain : Text)
      (s : S)
      → Plain s
      → (t : S) × (create_store ops file lists s
          ≡ some (t, map (λ l. length (rules_in (file l))) lists))
        × Ready lists [] t
        × (ops.find_match given domain t
            ≡ spec_find
                (holds_some matches (λ l. rules_in (file l)) lists)
                (domain_list domain)
                shown
                given
                (add_all (λ l. rules_in (file l)) lists (base_of s)))
  find_match-create_store file lists given domain s p =
      let (t, e, r, b, h) = create_store_lem file lists s p in
      (t, e, r, find_match_by lists given t domain _ _ r b h)

  pub find_match-reload_list :
      (lists given : List GudgeonList) (l : GudgeonList) (file : Option (List Text)) (domain : Text)
      (s : S)
      → Ready lists [] s
      → named_in lists l ≡ true
      → (t : S) × (reload_list ops l file s ≡ some (t, length (rules_in file)))
        × Ready lists [] t
        × (ops.find_match given domain t
            ≡ spec_find
                (λ k d.
                  if same_name l k
                  then any (λ rule. matches rule d) (rules_in file)
                  else holds s k d)
                (domain_list domain)
                shown
                given
                (add_each l (rules_in file) (remove_list (some l) (base_of s))))
  find_match-reload_list lists given l file domain s r n =
      let (t, e, r1, b, h) = reload_list_lem lists l file s r n in
      (t, e, r1, find_match_by lists given t domain _ _ r1 b h)
