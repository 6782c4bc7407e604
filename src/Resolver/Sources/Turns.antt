-- ===== src/Resolver/Sources/Turns.antt =====
-- How a load balancing source takes turns.
use gudgeon.Prelude.{
  ℕ, zero, suc, ◌+◌, ◌-◌, ◌%◌, ◌<◌, List, [], ◌∷◌, true, false, Option, some, ◌≡◌, ◌≢◌, refl, sym,
  subst, ap, ◌∙◌, length, get_elem?, ltb, ltb→lt, arith, Bool-cases, inl, inr, ◌⊎◌, if◌then◌else◌,
  leb,
}
use mathlib.Core.Option.{some-injective}
use native.Mathlib.Nat.{mod_self, mod-lt, mod-eq_of_lt}
use gudgeon.Prelude.Text.{Text}
use gudgeon.Util.Dns.{Message, Printing}
use gudgeon.Cache.{Backer}
use gudgeon.Resolver.{Reply, Context}
use gudgeon.Resolver.Sources.{after_turns, is_answer, balanced_loop, balanced_answer}

-- The rounds until it is the turn of a place.
distance : ℕ → ℕ → ℕ → ℕ
distance idx i n = if leb idx i then i - idx else n - idx + i

-- The place after another one, which is the first one after the last.
next_place :
    (idx n : ℕ)
    → idx < n
    → (((idx + 1) % n ≡ idx + 1) × (idx + 1 < n)) ⊎ (((idx + 1) % n ≡ 0) × (idx + 1 ≡ n))
next_place idx n h = elim (Bool-cases (ltb (idx + 1) n)) [
  | inl e ↦ inl (mod-eq_of_lt (ltb→lt (idx + 1) n e), ltb→lt (idx + 1) n e)
  | inr e ↦ inr (ap (λ (m : ℕ). m % n) (last e) ∙ mod_self n, last e)
]
  where
    last : ltb (idx + 1) n ≡ false → idx + 1 ≡ n
    last e = ground (arith, e, h)

distance-next :
    (idx i n : ℕ)
    → idx < n
    → i < n
    → idx ≢ i
    → ((idx + 1) % n < n) × (distance ((idx + 1) % n) i n < distance idx i n)
unfolding distance
distance-next idx i n h j e = elim (next_place idx n h) [
  | inl (m, l) ↦ rw m (l, ground (arith, h, j, e))
  | inr (m, l) ↦ rw m (omega (arith, h), ground (arith, h, j, e, l))
]

distance_bound : (idx i n : ℕ) → idx < n → i < n → distance idx i n < suc n
unfolding distance
distance_bound idx i n h j = ground (arith, h, j)

true-ne-false : true ≢ false
true-ne-false e = cc

get_elem?-some :
    {A : Type 0} (xs : List A) (i : ℕ) → i < length xs → (x : A) × (get_elem? xs i ≡ some x)
get_elem?-some [] i h = absurd (omega (arith, h))
get_elem?-some (x ∷ xs) zero h = (x, refl)
get_elem?-some (x ∷ xs) (suc i) h = get_elem?-some xs i (omega (arith, h))

no_turns : (count turns idx : ℕ) → turns ≡ 0 → after_turns count turns idx ≡ idx
unfolding after_turns
no_turns count turns idx e = rw e

module _ (printing : Printing) (backer : Backer) {S : Type 0} (name_of : S → Text)
    (ask : S → Message → Context printing backer → Reply × Context printing backer) where
  -- The request is answered, and the index is in range.
  abbrev pub IsAnswered : List S → Option (Reply × Context printing backer × ℕ) → Type 0
  IsAnswered sources o =
      (r : Reply) × (c : Context printing backer) × (next : ℕ) × (o ≡ some (r, c, next))
      × (is_answer printing backer r ≡ true)
      × (next < length sources)

  balanced_loop-IsAnswered :
      (name : Text) (sources : List S) (others : ℕ → ℕ) (tries idx i : ℕ) (s : S)
      (request : Message) (c : Context printing backer)
      → get_elem? sources i ≡ some s
      → i < length sources
      → ((d : Context printing backer) → is_answer printing backer (ask s request d).0 ≡ true)
      → ((k : ℕ) → others k ≡ 0)
      → idx < length sources
      → distance idx i (length sources) < tries
      → IsAnswered sources
          (balanced_loop printing backer name_of ask name sources others tries idx request c)
  unfolding balanced_loop
  balanced_loop-IsAnswered name sources others zero idx i s request c g j a alone h t =
      absurd (omega (arith, t))
  balanced_loop-IsAnswered name sources others (suc tries) idx i s request c g j a alone h t =
      let n = length sources in
      let turn = after_turns n (others tries) idx in
      let same_turn : turn ≡ idx = no_turns n (others tries) idx (alone tries) in
      let inside : turn < n = subst (λ (x : ℕ). x < n) (sym same_turn) h in
      let near : distance turn i n < suc tries =
        subst (λ (x : ℕ). distance x i n < suc tries) (sym same_turn) t in
      let (u, e) = get_elem?-some sources turn inside in
      let other : is_answer printing backer (ask u request c).0 ≡ false → turn ≢ i = λ k p.
        let same_source : u ≡ s = some-injective u s (sym e ∙ (ap (get_elem? sources) p ∙ g)) in
        true-ne-false (
          sym (a c)
          ∙ (ap (λ (v : S). is_answer printing backer (ask v request c).0) (sym same_source)
              ∙ k)) in
      elim (Bool-cases (is_answer printing backer (ask u request c).0)) [
        | inl k ↦
            rw (e, balanced_loop, k)
              (
                (ask u request c).0,
                _,
                (turn + 1) % n,
                refl,
                k,
                mod-lt (turn + 1) (omega (arith, inside)),
              )
        | inr k ↦
            let (b, d) = distance-next turn i n inside j (other k) in
            rw (e, balanced_loop, k)
              (balanced_loop-IsAnswered name sources others tries ((turn + 1) % n) i s request
                (ask u request c).1 g j a alone b (omega (arith, d, near)))
      ]

  -- If no other request takes a turn at the router of a load balancing source meanwhile, one of the
  -- sources answers the request in every context, and the index is in range, then the request is
  -- answered, without a panic, and the index stays in range.
  pub balanced_answer-IsAnswered :
      (name : Text) (sources : List S) (others : ℕ → ℕ) (idx i : ℕ) (s : S) (request : Message)
      (c : Context printing backer)
      → get_elem? sources i ≡ some s
      → i < length sources
      → ((d : Context printing backer) → is_answer printing backer (ask s request d).0 ≡ true)
      → ((k : ℕ) → others k ≡ 0)
      → idx < length sources
      → IsAnswered sources
          (balanced_answer printing backer name_of ask name sources others idx request c)
  unfolding balanced_answer
  balanced_answer-IsAnswered name sources others idx i s request c g j a alone h =
      balanced_loop-IsAnswered name sources others (suc (length sources)) idx i s request c g j a
        alone h (distance_bound idx i (length sources) h j)
