-- ===== src/Config/Names/Laws.antt =====
-- What stands under a name after the configuration is verified.
use gudgeon.Prelude.{
  List, [], ◌∷◌, true, false, ◌||◌, Option, none, some, ◌≡◌, ◌≢◌, refl, sym, ap, ◌∙◌, arith,
  Bool-cases, Option-cases, inl, inr, if◌then◌else◌,
}
use mathlib.Core.Option.{some-injective}
use gudgeon.Prelude.Text.{Text, same, same_iff, is_empty, to_lower}
use gudgeon.Prelude.Dict.{Dict, lookup, insert, lookup-insert}
use gudgeon.Util.Dns.{is_none}
use gudgeon.Config.Groups.{GudgeonGroup, GudgeonConsumer, GudgeonSource, GudgeonResolver}
use gudgeon.Config.Names.{
  default_string, system_string, Verified, collect, group_name, rename_group, group_without_name,
  group_twice, default_group, verify_and_init_groups, consumer_name, rename_consumer,
  consumer_without_name, consumer_twice, default_consumer, verify_and_init_consumers, conditioned,
  collect_resolvers, with_resolver, added_resolver, verify_and_init_resolvers, with_item,
}

-- The first value, if there is one.
unfoldable pub or_else : {A : Type 0} → Option A → Option A → Option A
or_else none y = y
or_else (some x) y = some x

or_else-none : {A : Type 0} (o : Option A) → o ≡ or_else o none
unfolding or_else
or_else-none none = refl
or_else-none (some x) = refl

module _ {A : Type 0} (name : A → Text) (rename : Text → A → A) where
  -- The first item with a name that is the given one in lower case, under that name.
  unfoldable pub first_named : Text → List (Option A) → Option A
  first_named k [] = none
  first_named k (none ∷ items) = first_named k items
  first_named k (some x ∷ items) =
      let rest = first_named k items in
      if is_empty (name x)
      then rest
      else if same (to_lower (name x)) k
      then some (rename (to_lower (name x)) x)
      else rest

  module _ (unnamed twice : Text) where
    collect-first_named :
        (k : Text) (items : List (Option A)) (m : Dict A)
        → lookup k (collect name rename unnamed twice items m).by_name
          ≡ or_else (lookup k m) (first_named k items)
    unfolding collect first_named is_none
    collect-first_named k [] m = or_else-none (lookup k m)
    collect-first_named k (none ∷ items) m = collect-first_named k items m
    collect-first_named k (some x ∷ items) m = elim (Bool-cases (is_empty (name x))) [
      | inl e ↦ rw (e, collect, first_named) (collect-first_named k items m)
      | inr e ↦ elim (Option-cases (lookup (to_lower (name x)) m)) [
        | inl n ↦
            rw (e, collect, first_named, ap is_none n)
              (collect-first_named k items (insert lowered (rename lowered x) m) ∙ taken n)
        | inr (z, n) ↦
            rw (e, collect, first_named, ap is_none n) (collect-first_named k items m ∙ skipped z n)
      ]
    ]
      where
        lowered : Text
        lowered = to_lower (name x)

        held : {o : Option A} → same lowered k ≡ true → lookup lowered m ≡ o → lookup k m ≡ o
        held h n = ap (λ (j : Text). lookup j m) (sym ((same_iff lowered k).0 h)) ∙ n

        taken :
            lookup lowered m ≡ none
            → or_else (lookup k (insert lowered (rename lowered x) m)) (first_named k items)
              ≡ or_else
                  (lookup k m)
                  (if same lowered k then some (rename lowered x) else first_named k items)
        taken n = elim (Bool-cases (same lowered k)) [
          | inl h ↦ unfold or_else in rw (lookup-insert lowered k (rename lowered x) m, h, held h n)
          | inr h ↦ rw (lookup-insert lowered k (rename lowered x) m, h)
        ]

        skipped :
            (z : A)
            → lookup lowered m ≡ some z
            → or_else (lookup k m) (first_named k items)
              ≡ or_else
                  (lookup k m)
                  (if same lowered k then some (rename lowered x) else first_named k items)
        skipped z n = elim (Bool-cases (same lowered k)) [
          | inl h ↦ unfold or_else in rw (held h n)
          | inr h ↦ rw h
        ]

-- With an item put under a name that nothing stands under.
lookup-default :
    {A : Type 0} (k d : Text) (x : A) (v : Verified A)
    → lookup k ((if is_none (lookup d v.by_name) then with_item d x v else v).by_name)
      ≡ or_else (lookup k v.by_name) (if same d k then some x else none)
unfolding is_none
lookup-default {A} k d x v = elim (Option-cases (lookup d v.by_name)) [
  | inl n ↦ rw (ap is_none n) (lookup-insert d k x v.by_name ∙ added n)
  | inr (z, n) ↦ rw (ap is_none n) (kept n)
]
  where
    held : {o : Option A} → same d k ≡ true → lookup d v.by_name ≡ o → lookup k v.by_name ≡ o
    held h n = ap (λ (j : Text). lookup j v.by_name) (sym ((same_iff d k).0 h)) ∙ n

    added :
        lookup d v.by_name ≡ none
        → (if same d k then some x else lookup k v.by_name)
          ≡ or_else (lookup k v.by_name) (if same d k then some x else none)
    added n = elim (Bool-cases (same d k)) [
      | inl h ↦ unfold or_else in rw (h, held h n)
      | inr h ↦ rw h (or_else-none (lookup k v.by_name))
    ]

    kept :
        {z : A}
        → lookup d v.by_name ≡ some z
        → lookup k v.by_name ≡ or_else (lookup k v.by_name) (if same d k then some x else none)
    kept n = elim (Bool-cases (same d k)) [
      | inl h ↦ unfold or_else in rw (held h n)
      | inr h ↦ rw h (or_else-none (lookup k v.by_name))
    ]

module _ {A : Type 0} (name : A → Text) (rename : Text → A → A) (unnamed twice : Text) where
  collect-from_empty :
      (k : Text) (items : List (Option A))
      → lookup k (collect name rename unnamed twice items []).by_name
        ≡ first_named name rename k items
  collect-from_empty k items =
      collect-first_named name rename unnamed twice k items [] ∙ unfold lookup or_else in refl

  lookup-collected :
      (k d : Text) (x : A) (items : List (Option A))
      → lookup k (
          (if is_none (lookup d (collect name rename unnamed twice items []).by_name)
            then with_item d x (collect name rename unnamed twice items [])
            else collect name rename unnamed twice items []).by_name)
        ≡ or_else (first_named name rename k items) (if same d k then some x else none)
  lookup-collected k d x items =
      lookup-default k d x (collect name rename unnamed twice items [])
      ∙ ap (λ (o : Option A). or_else o (if same d k then some x else none))
          (collect-from_empty k items)

abbrev pub resolver_name : GudgeonResolver → Text
resolver_name r = r.name

-- A resolver under a name in lower case, with the source that it needs.
abbrev pub ready_resolver : Text → GudgeonResolver → GudgeonResolver
ready_resolver n r = conditioned (record r { name = n })

-- The loop over resolvers fills the map as the one over groups does.
collect_resolvers-collect :
    (sources : Dict GudgeonSource) (items : List (Option GudgeonResolver))
    (m : Dict GudgeonResolver)
    → (collect_resolvers sources items m).by_name
      ≡ (collect resolver_name ready_resolver [] [] items m).by_name
unfolding collect_resolvers collect is_none
collect_resolvers-collect sources [] m = refl
collect_resolvers-collect sources (none ∷ items) m = collect_resolvers-collect sources items m
collect_resolvers-collect sources (some r ∷ items) m = elim (Bool-cases (is_empty r.name)) [
  | inl e ↦ rw (e, collect_resolvers, collect) (collect_resolvers-collect sources items m)
  | inr e ↦ elim (Bool-cases (is_none (lookup (to_lower r.name) m))) [
    | inl n ↦
        rw (e, collect_resolvers, collect, n)
          (collect_resolvers-collect sources items
            (insert (to_lower r.name) (ready_resolver (to_lower r.name) r) m))
    | inr n ↦ rw (e, collect_resolvers, collect, n) (collect_resolvers-collect sources items m)
  ]
]

-- Under each name stands, after the configuration is verified, the first group, consumer or resolver
-- that has the name but for case, under the name in lower case; where none has it, a default group, a
-- default consumer and system and default resolvers stand under their names, and nothing else does.
pub verify_and_init-first_named :
    (groups : List (Option GudgeonGroup)) (consumers : List (Option GudgeonConsumer))
    (sources : Dict GudgeonSource) (resolvers : List (Option GudgeonResolver)) (k : Text)
    → (lookup k (verify_and_init_groups groups).by_name
        ≡ or_else
            (first_named group_name rename_group k groups)
            (if same default_string k then some default_group else none))
      × (lookup k (verify_and_init_consumers consumers).by_name
          ≡ or_else
              (first_named consumer_name rename_consumer k consumers)
              (if same default_string k then some default_consumer else none))
      × (lookup k (verify_and_init_resolvers sources resolvers).by_name
          ≡ or_else
              (or_else
                (first_named resolver_name ready_resolver k resolvers)
                (if same system_string k then some (added_resolver system_string) else none))
              (if same default_string k then some (added_resolver default_string) else none))
unfolding verify_and_init_groups verify_and_init_consumers verify_and_init_resolvers with_resolver
verify_and_init-first_named groups consumers sources resolvers k = (
  lookup-collected group_name rename_group group_without_name group_twice k default_string
      default_group groups,
  lookup-collected consumer_name rename_consumer consumer_without_name consumer_twice k
      default_string default_consumer consumers,
  lookup-default k default_string (added_resolver default_string)
        (with_resolver system_string (collect_resolvers sources resolvers []))
      ∙ ap
          (λ (o : Option GudgeonResolver).
            or_else o
              (if same default_string k then some (added_resolver default_string) else none))
          (lookup-default k system_string (added_resolver system_string)
              (collect_resolvers sources resolvers [])
            ∙ ap
                (λ (o : Option GudgeonResolver).
                  or_else o
                    (if same system_string k then some (added_resolver system_string) else none))
                (ap (lookup k) (collect_resolvers-collect sources resolvers [])
                  ∙ collect-from_empty resolver_name ready_resolver [] [] k resolvers)),
)

conditioned-sources :
    (r : GudgeonResolver)
    → (same system_string r.name || same default_string r.name) ≡ true
    → (conditioned r).sources ≢ []
unfolding conditioned
conditioned-sources r d = rw (d, conditioned) (given r.sources)
  where
    given :
        (sources : List Text)
        → (elim sources as (λ _. List Text) [ [] ↦ system_string ∷ [] | s ∷ rest ↦ s ∷ rest ]) ≢ []
    given [] e = cc
    given (s ∷ rest) e = cc

first_named-conditioned :
    (k : Text) (resolvers : List (Option GudgeonResolver)) (r : GudgeonResolver)
    → (same system_string k || same default_string k) ≡ true
    → first_named resolver_name ready_resolver k resolvers ≡ some r
    → r.sources ≢ []
unfolding first_named
first_named-conditioned k [] r d e s = cc
first_named-conditioned k (none ∷ resolvers) r d e s = first_named-conditioned k resolvers r d e s
first_named-conditioned k (some x ∷ resolvers) r d e s = elim (Bool-cases (is_empty x.name)) [
  | inl n ↦ first_named-conditioned k resolvers r d (rw (n, first_named) at e) s
  | inr n ↦ elim (Bool-cases (same (to_lower x.name) k)) [
    | inl h ↦
        conditioned-sources (record x { name = to_lower x.name })
          (ap (λ (j : Text). same system_string j || same default_string j)
              ((same_iff (to_lower x.name) k).0 h)
            ∙ d)
          (ap (λ (y : GudgeonResolver). y.sources)
              (some-injective _ _ (rw (n, first_named, h) at e))
            ∙ s)
    | inr h ↦ first_named-conditioned k resolvers r d (rw (n, first_named, h) at e) s
  ]
]

-- After the configuration is verified there are a system resolver and a default resolver, each with a
-- source at least, whatever was configured under these names.
pub verify_and_init_resolvers-sources :
    (sources : Dict GudgeonSource) (resolvers : List (Option GudgeonResolver)) (k : Text)
    → (same system_string k || same default_string k) ≡ true
    → (r : GudgeonResolver) × (lookup k (verify_and_init_resolvers sources resolvers).by_name
        ≡ some r)
      × (r.sources ≢ [])
verify_and_init_resolvers-sources sources resolvers k d =
    let (_, _, e) = verify_and_init-first_named [] [] sources resolvers k in
    elim (Option-cases (first_named resolver_name ready_resolver k resolvers)) [
      | inr (r, n) ↦ (r, e ∙ unfold or_else in rw n, first_named-conditioned k resolvers r d n)
      | inl n ↦ elim (Bool-cases (same system_string k)) [
        | inl h ↦ (added_resolver system_string, e ∙ unfold or_else in rw (n, h), λ s. cc)
        | inr h ↦ (
          added_resolver default_string,
          e ∙ unfold or_else in rw (n, h) (rw (default_named h)),
          λ s. cc,
        )
      ]
    ]
  where
    default_named : same system_string k ≡ false → same default_string k ≡ true
    default_named h = ground (arith, h, d)
