-- ===== src/Engine/Bootstrap/Links.antt =====
-- How groups come to their lists, and consumers to their groups, resolvers and lists.
use gudgeon.Prelude.{
  List, [], ◌∷◌, ◌++◌, map, Bool, true, false, ◌||◌, ◌≡◌, refl, sym, ap, ◌∙◌, any, keep, arith,
  Bool-cases, inl, inr, append_assoc, append-nil,
}
use gudgeon.Prelude.Text.{Text, same, same_iff, same_sym}
use gudgeon.Util.Strings.{string_in}
use gudgeon.Config.Lists.{GudgeonList, canonical_name, safe_tags}
use gudgeon.Config.Groups.{GudgeonConsumer}
use gudgeon.Resolver.Visited.{IsDistinct, IsDistinct-snoc, string_in-snoc}
use gudgeon.Engine.Groups.{Group}
use gudgeon.Engine.Consumers.{Consumer}
use gudgeon.Engine.Bootstrap.{
  some_tag, assigned_lists, list_found, add_lists, link, link_all, make_consumer,
}

some_tag-any :
    (tags list_tags : List Text)
    → some_tag tags list_tags ≡ any (λ tag. string_in tag list_tags) tags
unfolding some_tag any
some_tag-any [] list_tags = refl
some_tag-any (tag ∷ tags) list_tags = ground (arith, some_tag-any tags list_tags)

-- The lists assigned to a group are those of the configuration that it names or that have one of its
-- tags, in the order of the configuration.
pub assigned_lists-keep :
    (list_names list_tags : List Text) (lists : List GudgeonList)
    → assigned_lists list_names list_tags lists
      ≡ keep
          (λ l.
            string_in l.name list_names || any (λ tag. string_in tag list_tags) (safe_tags l.tags))
          lists
unfolding assigned_lists keep
assigned_lists-keep list_names list_tags [] = refl
assigned_lists-keep list_names list_tags (l ∷ lists) =
    elim (Bool-cases (string_in l.name list_names)) [
      | inl e ↦ rw (e, assigned_lists, keep) (rw (assigned_lists-keep list_names list_tags lists))
      | inr e ↦ elim (Bool-cases (some_tag (safe_tags l.tags) list_tags)) [
        | inl h ↦
            rw (e, assigned_lists, keep, h, tagged h)
              (rw (assigned_lists-keep list_names list_tags lists))
        | inr h ↦
            rw (e, assigned_lists, keep, h, tagged h)
              (assigned_lists-keep list_names list_tags lists)
      ]
    ]
  where
    tagged :
        {b : Bool}
        → some_tag (safe_tags l.tags) list_tags ≡ b
        → any (λ tag. string_in tag list_tags) (safe_tags l.tags) ≡ b
    tagged h = sym (some_tag-any (safe_tags l.tags) list_tags) ∙ h

-- What the groups give, one after the other.
unfoldable pub gathered {ℓ} : {A : Type ℓ} → (Group → List A) → List Group → List A
gathered f [] = []
gathered f (g ∷ groups) = f g ++ gathered f groups

list_found-string_in :
    (new : GudgeonList) (lists : List GudgeonList)
    → list_found new lists ≡ string_in (canonical_name new) (map canonical_name lists)
unfolding list_found string_in
list_found-string_in new [] = refl
list_found-string_in new (l ∷ lists) =
    ground (arith, same_sym (canonical_name l) (canonical_name new), list_found-string_in new lists)

pub map-append :
    {A B : Type 0} (f : A → B) (xs ys : List A) → map f (xs ++ ys) ≡ map f xs ++ map f ys
map-append f [] ys = refl
map-append f (x ∷ xs) ys = rw (map-append f xs ys)

pub string_in-append :
    (n : Text) (xs ys : List Text) → string_in n (xs ++ ys) ≡ (string_in n xs || string_in n ys)
unfolding string_in
string_in-append n [] ys = refl
string_in-append n (x ∷ xs) ys = ground (arith, string_in-append n xs ys)

-- The names of the lists that a consumer has stay distinct.
add_lists-IsDistinct :
    (lists group_lists : List GudgeonList)
    → IsDistinct (map canonical_name lists)
    → IsDistinct (map canonical_name (add_lists lists group_lists))
unfolding add_lists
add_lists-IsDistinct lists [] d = d
add_lists-IsDistinct lists (new ∷ group_lists) d = elim (Bool-cases (list_found new lists)) [
  | inl e ↦ rw (e, add_lists) (add_lists-IsDistinct lists group_lists d)
  | inr e ↦ rw (e, add_lists) (add_lists-IsDistinct (lists ++ new ∷ []) group_lists (snoc e))
]
  where
    snoc : list_found new lists ≡ false → IsDistinct (map canonical_name (lists ++ new ∷ []))
    snoc e = rw (map-append canonical_name lists (new ∷ [])) (
        IsDistinct-snoc (canonical_name new) (map canonical_name lists)
          (sym (list_found-string_in new lists) ∙ e) d)

-- They are the names of the lists that it had, and of those that are added.
add_lists-string_in :
    (n : Text) (lists group_lists : List GudgeonList)
    → string_in n (map canonical_name (add_lists lists group_lists))
      ≡ (string_in n (map canonical_name lists) || string_in n (map canonical_name group_lists))
unfolding add_lists
add_lists-string_in n lists [] = unfold string_in in ground arith
add_lists-string_in n lists (new ∷ group_lists) = elim (Bool-cases (list_found new lists)) [
  | inl e ↦ rw (e, add_lists) (add_lists-string_in n lists group_lists ∙ held e)
  | inr e ↦ rw (e, add_lists) (add_lists-string_in n (lists ++ new ∷ []) group_lists ∙ added)
]
  where
    added :
        (string_in n (map canonical_name (lists ++ new ∷ []))
          || string_in n (map canonical_name group_lists))
        ≡ (string_in n (map canonical_name lists)
            || string_in n (map canonical_name (new ∷ group_lists)))
    added =
        unfold string_in in
        ground (
          arith,
          ap (string_in n) (map-append canonical_name lists (new ∷ [])),
          string_in-snoc n (canonical_name new) (map canonical_name lists),
        )

    held :
        list_found new lists ≡ true
        → (string_in n (map canonical_name lists) || string_in n (map canonical_name group_lists))
          ≡ (string_in n (map canonical_name lists)
              || string_in n (map canonical_name (new ∷ group_lists)))
    held e = elim (Bool-cases (same n (canonical_name new))) [
      | inl k ↦
          let has : string_in n (map canonical_name lists) ≡ true =
            ap (λ (x : Text). string_in x (map canonical_name lists))
              ((same_iff n (canonical_name new)).0 k)
            ∙ (sym (list_found-string_in new lists) ∙ e) in
          rw has
      | inr k ↦ unfold string_in in ground (arith, k)
    ]

-- A consumer linked to groups: its groups are those whose name it has, and its resolvers and lists
-- are theirs, no two lists under one name.
abbrev IsLinked : List Group → Consumer → Consumer → Type 0
IsLinked own c d =
    (d.group_names ≡ c.group_names ++ map (λ (g : Group). g.config.name) own)
    × (d.resolver_names ≡ c.resolver_names ++ gathered (λ g. g.config.resolvers) own)
    × (IsDistinct (map canonical_name c.lists) → IsDistinct (map canonical_name d.lists))
    × ((n : Text)
        → string_in n (map canonical_name d.lists) ≡ (
            string_in n (map canonical_name c.lists)
            || string_in n (map canonical_name (gathered (λ g. g.lists) own))))

abbrev pub own_groups : List Group → GudgeonConsumer → List Group
own_groups groups c = keep (λ (g : Group). string_in g.config.name c.groups) groups

IsLinked-none : (c : Consumer) → IsLinked [] c c
unfolding gathered string_in
IsLinked-none c =
    (sym (append-nil c.group_names), sym (append-nil c.resolver_names), λ d. d, λ n. ground arith)

IsLinked-link :
    (g : Group) (own : List Group) (c d : Consumer)
    → IsLinked own (link g c) d
    → IsLinked (g ∷ own) c d
unfolding gathered link
IsLinked-link g own c d (a, b, distinct, h) = (
  a ∙ append_assoc c.group_names (g.config.name ∷ []) (map (λ (x : Group). x.config.name) own),
  b ∙ append_assoc c.resolver_names g.config.resolvers (gathered (λ x. x.config.resolvers) own),
  λ k. distinct (add_lists-IsDistinct c.lists g.lists k),
  λ n. ground (
    arith,
    h n,
    add_lists-string_in n c.lists g.lists,
    ap (string_in n) (map-append canonical_name g.lists (gathered (λ x. x.lists) own)),
    string_in-append n (map canonical_name g.lists)
        (map canonical_name (gathered (λ x. x.lists) own)),
  ),
)

link_all-IsLinked :
    (groups : List Group) (c : Consumer)
    → IsLinked (own_groups groups c.config) c (link_all groups c)
unfolding link_all keep link
link_all-IsLinked [] c = IsLinked-none c
link_all-IsLinked (g ∷ groups) c = elim (Bool-cases (string_in g.config.name c.config.groups)) [
  | inl e ↦
      rw (e, link_all, keep)
        (IsLinked-link g (own_groups groups c.config) c (link_all groups (link g c))
          (link_all-IsLinked groups (link g c)))
  | inr e ↦ rw (e, link_all, keep) (link_all-IsLinked groups c)
]

-- A configured consumer becomes one whose groups are those whose names it has, in their order, whose
-- resolvers are theirs, one group after the other, and whose lists have distinct canonical names,
-- which are the canonical names of the groups' lists.
pub make_consumer-own_groups :
    (groups : List Group) (c : GudgeonConsumer)
    → ((make_consumer groups c).group_names
        ≡ map (λ (g : Group). g.config.name) (own_groups groups c))
      × ((make_consumer groups c).resolver_names
          ≡ gathered (λ g. g.config.resolvers) (own_groups groups c))
      × IsDistinct (map canonical_name (make_consumer groups c).lists)
      × ((n : Text)
          → string_in n (map canonical_name (make_consumer groups c).lists)
            ≡ string_in n (map canonical_name (gathered (λ g. g.lists) (own_groups groups c))))
unfolding make_consumer string_in
make_consumer-own_groups groups c =
    let (a, b, d, h) =
      link_all-IsLinked groups
        (record { config = c; group_names = []; resolver_names = []; lists = [] }) in
    (a, b, d tt, h)
