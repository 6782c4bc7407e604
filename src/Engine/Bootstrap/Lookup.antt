-- ===== src/Engine/Bootstrap/Lookup.antt =====
-- The groups of a consumer as the map of groups has them.
use gudgeon.Prelude.{
  List, [], ◌∷◌, map, Bool, false, some, ◌≡◌, refl, sym, ap, ◌∙◌, subst, keep, All, arith,
  Bool-cases, inl, inr,
}
use gudgeon.Prelude.Text.{Text, same_sym, same_refl, is_empty}
use gudgeon.Prelude.Dict.{Dict, lookup, insert, lookup-insert}
use gudgeon.Util.Strings.{string_in}
use gudgeon.Config.Lists.{GudgeonList, canonical_name}
use gudgeon.Config.Groups.{GudgeonGroup, GudgeonConsumer}
use gudgeon.Resolver.Visited.{IsDistinct}
use gudgeon.Engine.Groups.{Group, lists_of, resolvers_of}
use gudgeon.Engine.Bootstrap.{make_group, make_groups, group_map, make_consumer, bootstrap}
use gudgeon.Engine.Bootstrap.Links.{gathered, make_consumer-own_groups}

abbrev names : List Group → List Text
names groups = map (λ (g : Group). g.config.name) groups

-- A name that no later group has keeps what the map holds for it.
lookup-group_map :
    (k : Text) (m : Dict Group) (groups : List Group)
    → string_in k (names groups) ≡ false
    → lookup k (group_map m groups) ≡ lookup k m
unfolding group_map string_in
lookup-group_map k m [] n = refl
lookup-group_map k m (g ∷ groups) n = elim (Bool-cases (is_empty g.config.name)) [
  | inl e ↦ rw (e, group_map) (lookup-group_map k m groups (ground (arith, n)))
  | inr e ↦
      rw (e, group_map)
        (lookup-group_map k (insert g.config.name g m) groups (ground (arith, n)) ∙ kept)
]
  where
    kept : lookup k (insert g.config.name g m) ≡ lookup k m
    kept = ground (arith, lookup-insert g.config.name k g m, same_sym k g.config.name, n)

abbrev IsHeld : Dict Group → Group → Type 0
IsHeld m g = lookup g.config.name m ≡ some g

-- Groups with distinct names that are not empty stand in their map.
group_map-All :
    (m : Dict Group) (groups : List Group)
    → IsDistinct (names groups)
    → All (λ (g : Group). is_empty g.config.name ≡ false) groups
    → All (IsHeld (group_map m groups)) groups
unfolding group_map
group_map-All m [] d h = tt
group_map-All m (g ∷ groups) (n, d) (e, h) =
    subst (λ (t : Dict Group). IsHeld t g × All (IsHeld t) groups) (sym step)
      (
        lookup-group_map g.config.name (insert g.config.name g m) groups n ∙ here,
        group_map-All (insert g.config.name g m) groups d h,
      )
  where
    step : group_map m (g ∷ groups) ≡ group_map (insert g.config.name g m) groups
    step = unfold group_map in rw (e, group_map)

    here : lookup g.config.name (insert g.config.name g m) ≡ some g
    here = lookup-insert g.config.name g.config.name g m ∙ rw (same_refl g.config.name)

lists_of-keep :
    (m : Dict Group) (p : Group → Bool) (groups : List Group)
    → All (IsHeld m) groups
    → lists_of m (names (keep p groups)) ≡ gathered (λ g. g.lists) (keep p groups)
unfolding lists_of gathered keep
lists_of-keep m p [] h = refl
lists_of-keep m p (g ∷ groups) (e, h) = elim (Bool-cases (p g)) [
  | inl k ↦ rw (k, keep, lists_of, e) (rw (lists_of-keep m p groups h))
  | inr k ↦ rw (k, keep, lists_of) (lists_of-keep m p groups h)
]

resolvers_of-keep :
    (m : Dict Group) (p : Group → Bool) (groups : List Group)
    → All (IsHeld m) groups
    → resolvers_of m (names (keep p groups)) ≡ gathered (λ g. g.config.resolvers) (keep p groups)
unfolding resolvers_of gathered keep
resolvers_of-keep m p [] h = refl
resolvers_of-keep m p (g ∷ groups) (e, h) = elim (Bool-cases (p g)) [
  | inl k ↦ rw (k, keep, resolvers_of, e) (rw (resolvers_of-keep m p groups h))
  | inr k ↦ rw (k, keep, resolvers_of) (resolvers_of-keep m p groups h)
]

names-make_groups :
    (lists : List GudgeonList) (groups : List GudgeonGroup)
    → names (make_groups lists groups) ≡ map (λ (g : GudgeonGroup). g.name) groups
unfolding make_groups make_group
names-make_groups lists [] = refl
names-make_groups lists (g ∷ groups) = rw (names-make_groups lists groups)

make_groups-All :
    (lists : List GudgeonList) (groups : List GudgeonGroup)
    → All (λ (g : GudgeonGroup). is_empty g.name ≡ false) groups
    → All (λ (g : Group). is_empty g.config.name ≡ false) (make_groups lists groups)
unfolding make_groups make_group
make_groups-All lists [] h = tt
make_groups-All lists (g ∷ groups) (e, h) = (e, make_groups-All lists groups h)

-- If the configured groups have distinct names, none of them empty, then the groups of a configured
-- consumer lead through the map of groups to the resolvers that the consumer has, in their order, and
-- to lists of the same canonical names as the consumer's.
pub make_consumer-lookup :
    (lists : List GudgeonList) (groups : List GudgeonGroup) (consumers : List GudgeonConsumer)
    (c : GudgeonConsumer)
    → IsDistinct (map (λ (g : GudgeonGroup). g.name) groups)
    → All (λ (g : GudgeonGroup). is_empty g.name ≡ false) groups
    → (resolvers_of
          (bootstrap lists groups consumers).groups
          (make_consumer (make_groups lists groups) c).group_names
        ≡ (make_consumer (make_groups lists groups) c).resolver_names)
      × ((n : Text)
          → string_in n (
              map canonical_name (
                lists_of
                  (bootstrap lists groups consumers).groups
                  (make_consumer (make_groups lists groups) c).group_names))
            ≡ string_in n (map canonical_name (make_consumer (make_groups lists groups) c).lists))
unfolding bootstrap
make_consumer-lookup lists groups consumers c d h =
    let made = make_groups lists groups in
    let held : All (IsHeld (group_map [] made)) made =
      group_map-All [] made (subst IsDistinct (sym (names-make_groups lists groups)) d)
        (make_groups-All lists groups h) in
    let (a, b, _, l) = make_consumer-own_groups made c in
    (
      ap (resolvers_of (group_map [] made)) a
          ∙ (resolvers_of-keep (group_map [] made) (λ g. string_in g.config.name c.groups) made held
              ∙ sym b),
      λ n.
          ap (λ (x : List Text). string_in n (map canonical_name (lists_of (group_map [] made) x)))
            a
          ∙ (ap (λ (x : List GudgeonList). string_in n (map canonical_name x))
                (lists_of-keep (group_map [] made) (λ g. string_in g.config.name c.groups) made
                  held)
              ∙ sym (l n)),
    )
