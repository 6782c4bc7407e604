-- ===== src/Rule/Load.antt =====
-- rule/store.go: how a store is created from the files of the lists, and how a list is loaded again
-- when its file changes.
pub mod Laws
use gudgeon.Prelude.{
  ℕ, ◌+◌, List, [], ◌∷◌, Bool, true, false, Option, none, some, ◌||◌, if◌then◌else◌,
}
use gudgeon.Prelude.Text.{Text, codes, is_empty, same, to_lower}
use gudgeon.Config.Lists.{GudgeonList}
use gudgeon.Rule.Line.{parse_line}
use gudgeon.Rule.Base.{StoreOps}

-- The stores among which CreateStore chooses.
pub data Backing : Type 0 where
  bloom_hash hash hash_sqlite hash32 hash32_sqlite sqlite bloom bloom_sqlite memory : Backing

-- The ladder of CreateStore on `conf.Storage.RuleStorage`; an unknown name falls back to memory.
unfoldable pub backing_of : Text → Backing
backing_of rule_storage =
    let t = to_lower rule_storage in
    if same (codes "bloom+hash") t
    then bloom_hash
    else if same (codes "hash") t || same (codes "hash64") t
    then hash
    else if same (codes "hash+sqlite") t
    then hash_sqlite
    else if same (codes "hash32") t
    then hash32
    else if same (codes "hash32+sqlite") t
    then hash32_sqlite
    else if same (codes "sqlite") t || same (codes "sql") t
    then sqlite
    else if same (codes "bloom") t
    then bloom
    else if same (codes "bloom+sqlite") t || same (codes "bloom+sql") t
    then bloom_sqlite
    else memory

module _ {S : Type 0} (ops : StoreOps S) where
  open ops use {init, load, clear, finalize}

  -- The scan loop of loadList over the lines that the scanner gives, which ends early at a line longer
  -- than its buffer, with its counter. `none` is a panic.
  unfoldable pub load_lines : GudgeonList → List Text → S → ℕ → Option (S × ℕ)
  load_lines l [] s count = some (s, count)
  load_lines l (line ∷ lines) s count =
      let skipped = load_lines l lines s count in
      let loaded : Option (S × ℕ) = elim (load l (parse_line line) s) [
        | none ↦ none
        | some t ↦ load_lines l lines t (count + 1)
      ] in
      if is_empty (parse_line line) then skipped else loaded

  -- loadList; `none` for the file is that it cannot be opened.
  unfoldable pub load_list : GudgeonList → Option (List Text) → S → Option (S × ℕ)
  unfolding load_lines
  load_list l none s = some (s, 0)
  load_list l (some lines) s = load_lines l lines s 0

  -- The loop of CreateStore over the configured lists, which gathers the counts.
  unfoldable pub load_lists :
      (GudgeonList → Option (List Text)) → List GudgeonList → S → Option (S × List ℕ)
  load_lists file [] s = some (s, [])
  load_lists file (l ∷ lists) s = elim (load_list l (file l) s) [
    | none ↦ none
    | some (t, count) ↦ elim (load_lists file lists t) [
      | none ↦ none
      | some (u, counts) ↦ some (u, count ∷ counts)
    ]
  ]

  -- CreateStore on a new store `s`: initialise, load every list, finalize.
  unfoldable pub create_store :
      (GudgeonList → Option (List Text)) → List GudgeonList → S → Option (S × List ℕ)
  unfolding load_lists
  create_store file lists s = elim (load_lists file lists (init lists s)) [
    | none ↦ none
    | some (t, counts) ↦ some (finalize lists t, counts)
  ]

  -- The listener of CreateStore for a change of the list's file.
  unfoldable pub reload_list : GudgeonList → Option (List Text) → S → Option (S × ℕ)
  reload_list l file s = elim (load_list l file (clear l s)) [
    | none ↦ none
    | some (t, count) ↦ some (finalize (l ∷ []) t, count)
  ]
