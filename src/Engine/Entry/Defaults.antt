-- ===== src/Engine/Entry/Defaults.antt =====
-- The consumer that a request is handled for.
use gudgeon.Prelude.{
  ℕ, List, [], ◌∷◌, ◌++◌, true, false, Option, none, some, ◌≡◌, refl, ap, ◌∙◌, any, All, ◌⊎◌, arith,
  inl, inr, Bool-cases,
}
use mathlib.Core.Bool.{false≢true}
use gudgeon.Prelude.Text.{Text, codes, equal_fold}
use gudgeon.Util.Strings.{string_in}
use gudgeon.Util.Dns.{Message, Printing}
use gudgeon.Config.Lists.{GudgeonList}
use gudgeon.Config.Groups.{GudgeonGroup, GudgeonConsumer}
use gudgeon.Rule.Base.{Found}
use gudgeon.Resolver.{Outside}
use gudgeon.Engine.Consumers.{Consumer, Net, some_matches}
use gudgeon.Engine.Consumers.Lookup.{get_consumer_for_ip_lem}
use gudgeon.Engine.Bootstrap.{
  default_consumer, link, link_all, make_consumer, make_consumers, make_groups, bootstrap,
}
use gudgeon.Engine.Groups.{Group, Result}
use gudgeon.Engine.Handle.{handle_with_consumer}
use gudgeon.Engine.Entry.{handle, handle_for}

kept_default :
    (d : Consumer) (consumers : List Consumer)
    → (c : Consumer) × (default_consumer (some d) consumers ≡ some c)
unfolding default_consumer
kept_default d [] = (d, refl)
kept_default d (c ∷ consumers) = elim (Bool-cases (equal_fold c.config.name (codes "default"))) [
  | inl e ↦ let (b, h) = kept_default c consumers in (b, rw (e, default_consumer) h)
  | inr e ↦ let (b, h) = kept_default d consumers in (b, rw (e, default_consumer) h)
]

found_default :
    (consumers : List Consumer)
    → any (λ c. equal_fold c.config.name (codes "default")) consumers ≡ true
    → (c : Consumer) × (default_consumer none consumers ≡ some c)
unfolding default_consumer any
found_default [] h = absurd (false≢true h)
found_default (c ∷ consumers) h = elim (Bool-cases (equal_fold c.config.name (codes "default"))) [
  | inl e ↦ let (b, k) = kept_default c consumers in (b, rw (e, default_consumer) k)
  | inr e ↦
      let (b, k) = found_default consumers (ground (arith, e, h)) in (b, rw (e, default_consumer) k)
]

link_all-config : (groups : List Group) (c : Consumer) → (link_all groups c).config ≡ c.config
unfolding link_all link
link_all-config [] c = refl
link_all-config (g ∷ groups) c = elim (Bool-cases (string_in g.config.name c.config.groups)) [
  | inl e ↦ rw (e, link_all) (link_all-config groups (link g c))
  | inr e ↦ rw (e, link_all) (link_all-config groups c)
]

any_default :
    (groups : List Group) (consumers : List GudgeonConsumer)
    → any
        (λ (c : Consumer). equal_fold c.config.name (codes "default"))
        (make_consumers groups consumers)
      ≡ any (λ (c : GudgeonConsumer). equal_fold c.name (codes "default")) consumers
unfolding make_consumers make_consumer any
any_default groups [] = refl
any_default groups (c ∷ consumers) = ground (
  arith,
  ap (λ (x : GudgeonConsumer). equal_fold x.name (codes "default"))
      (link_all-config groups
        (record { config = c; group_names = []; resolver_names = []; lists = [] })),
  any_default groups consumers,
)

-- If the configuration has a consumer that is named default but for case, then the engine that is
-- bootstrapped from it handles a request of any address as one of a consumer: one that is configured
-- and has a match that takes the address, none before it having one, or the default one, where no
-- consumer has such a match.
pub handle-default :
    (printing : Printing) (outside : Outside) (net : Net)
    (find : Option (List GudgeonList → Text → Found)) (lists : List GudgeonList)
    (groups : List GudgeonGroup) (consumers : List GudgeonConsumer) {W : Type 0}
    (resolve : List Text → Message → W → Option Message × Option Result × W) (fuel : ℕ)
    (address : List ℕ) (request : Message) (w : W)
    → any (λ (c : GudgeonConsumer). equal_fold c.name (codes "default")) consumers ≡ true
    → (c : Consumer) × ((All
            (λ b. some_matches net b.config.matches address ≡ false)
            (bootstrap lists groups consumers).consumers
          × ((bootstrap lists groups consumers).default_consumer_of ≡ some c))
        ⊎ ((before after : List Consumer) × ((bootstrap lists groups consumers).consumers
              ≡ before ++ c ∷ after)
            × All (λ b. some_matches net b.config.matches address ≡ false) before
            × (some_matches net c.config.matches address ≡ true)))
      × (handle printing outside net find
            (bootstrap lists groups consumers)
            resolve
            fuel
            address
            request
            w
          ≡ handle_with_consumer printing outside find
              (bootstrap lists groups consumers).groups
              resolve
              fuel
              c
              request
              w)
unfolding handle handle_for bootstrap
handle-default printing outside net find lists groups consumers resolve fuel address request w h =
    let made = make_consumers (make_groups lists groups) consumers in
    let (d, k) = found_default made (any_default (make_groups lists groups) consumers ∙ h) in
    elim (get_consumer_for_ip_lem net made (default_consumer none made) address) [
      | inl (n, e) ↦ (d, inl (n, k), rw (e ∙ k))
      | inr (before, after, c, p, n, m, e) ↦ (c, inr (before, after, p, n, m), rw e)
    ]
