-- ===== src/Pool/Bounds.antt =====
-- The pool before Shutdown: how many slots its channel holds.
use gudgeon.Prelude.{
  ℕ, zero, suc, ◌+◌, ◌≤◌, ◌<◌, List, [], ◌∷◌, ◌++◌, true, false, Option, none, some, ◌≡◌, ◌∙◌, refl,
  ap, ◌⊎◌, length, length-append, arith, if◌then◌else◌, Bool-cases, inl, inr,
}
use gudgeon.Pool.{
  Slot, DnsPool, Outcome, returns, blocks, ◌>>=◌, send, receive, get, get_slot, release, discard,
  is_full, failed, fill,
}

pub data Call : Type 0 where
  gets : Option ℕ → Call
  releases : ℕ → Call
  discards : Call

-- A call with its result left out.
unfoldable pub step : Call → DnsPool → Outcome (Unit {0})
step (gets dialed) p = get dialed p >>= λ _ q. returns tt q
step (releases con) p = release con p
step discards p = discard p

-- The channel is open and holds no more than its capacity, and the pool is not shut down.
abbrev pub IsOpen : DnsPool → Type 0
IsOpen p = (p.closed ≡ false) × (p.shutdown ≡ false) × (length p.cons ≤ p.capacity)

length-snoc : (xs : List Slot) (x : Slot) → length (xs ++ x ∷ []) ≡ length xs + 1
length-snoc xs x = length-append xs (x ∷ [])

-- A call that returns leaves the pool open, of its capacity.
abbrev Stays : DnsPool → Outcome (Unit {0}) → Type 0
Stays p r = (q : DnsPool) × (r ≡ returns tt q) × IsOpen q × (q.capacity ≡ p.capacity)

step-gets :
    (dialed : Option ℕ) (p : DnsPool) (xs : List Slot)
    → p.cons ≡ xs
    → IsOpen p
    → Stays p (step (gets dialed) p) ⊎ ((step (gets dialed) p ≡ blocks) × (p.cons ≡ []))
step-gets dialed p [] e (o, s, l) = inr (unfold step get receive in ground (arith, e, s, o), e)
step-gets dialed p (some con ∷ rest) e (o, s, l) = inl (
  record p { cons = rest },
  unfold step get receive get_slot in ground (arith, e, s),
  (o, s, omega (arith, ap (length {0}) e)),
  refl,
)
step-gets (some con) p (none ∷ rest) e (o, s, l) = inl (
  record p { cons = rest },
  unfold step get receive get_slot in ground (arith, e, s),
  (o, s, omega (arith, ap (length {0}) e)),
  refl,
)
step-gets none p (none ∷ rest) e (o, s, l) = inl (
  record p { cons = rest ++ none ∷ [] },
  unfold step get receive get_slot send in ground (arith, e, s, o, ap (length {0}) e),
  (o, s, omega (arith, ap (length {0}) e, length-snoc rest none)),
  refl,
)

step-puts : (slot : Slot) (p : DnsPool) → IsOpen p → is_full p ≡ false → Stays p (send slot p)
unfolding send is_full
step-puts slot p (o, s, l) f = (
  record p { cons = p.cons ++ slot ∷ [] },
  ground (arith, o, f),
  (o, s, ground (arith, length-snoc p.cons slot)),
  refl,
)

release-send :
    (con : ℕ) (p : DnsPool)
    → p.shutdown ≡ false
    → is_full p ≡ false
    → release con p ≡ send (if p.is_udp then none else some con) p
unfolding release
release-send con p s f = ground (arith, s, f)

discard-send : (p : DnsPool) → p.shutdown ≡ false → is_full p ≡ false → discard p ≡ send none p
unfolding discard
discard-send p s f = ground (arith, s, f)

full_keeps :
    (con : ℕ) (p : DnsPool)
    → p.shutdown ≡ false
    → is_full p ≡ true
    → (release con p ≡ returns tt p) × (discard p ≡ returns tt p)
unfolding release discard
full_keeps con p s f = ground (arith, s, f)

-- Before Shutdown every call of Get, Release and Discard keeps the channel open and within its
-- capacity, and none of them panics; only Get waits, and only while no slot is free.
pub step-IsOpen :
    (c : Call) (p : DnsPool)
    → IsOpen p
    → ((q : DnsPool) × (step c p ≡ returns tt q) × IsOpen q × (q.capacity ≡ p.capacity))
      ⊎ ((dialed : Option ℕ) × (c ≡ gets dialed) × (step c p ≡ blocks) × (p.cons ≡ []))
step-IsOpen (gets dialed) p w = elim (step-gets dialed p p.cons refl w) [
  | inl x ↦ inl x
  | inr (b, e) ↦ inr (dialed, refl, b, e)
]
step-IsOpen (releases con) p (o, s, l) = elim (Bool-cases (is_full p)) [
  | inl f ↦ inl (p, unfold step in (full_keeps con p s f).0, (o, s, l), refl)
  | inr f ↦
      let (q, e, w, k) = step-puts (if p.is_udp then none else some con) p (o, s, l) f in
      inl (q, unfold step in release-send con p s f ∙ e, w, k)
]
step-IsOpen discards p (o, s, l) = elim (Bool-cases (is_full p)) [
  | inl f ↦ inl (p, unfold step in (full_keeps 0 p s f).1, (o, s, l), refl)
  | inr f ↦
      let (q, e, w, k) = step-puts none p (o, s, l) f in
      inl (q, unfold step in discard-send p s f ∙ e, w, k)
]

length-fill : (n : ℕ) → length (fill n) ≡ n
unfolding fill
length-fill zero = refl
length-fill (suc n) = ap suc (length-fill n)

-- A failed dial gives its slot back, and the Discard that its caller makes afterwards gives back
-- another one if the channel has room: an open pool with a free slot and at least one connection
-- handed out then has one more free slot than before, with as many handed out.
pub discard-failed_get :
    (p : DnsPool) (rest : List Slot)
    → p.closed ≡ false
    → p.shutdown ≡ false
    → p.cons ≡ none ∷ rest
    → length p.cons < p.capacity
    → (q r : DnsPool) × (get none p ≡ returns failed q)
      × (discard q ≡ returns tt r)
      × (length r.cons ≡ length p.cons + 1)
discard-failed_get p rest o s e l = (
  record p { cons = rest ++ none ∷ [] },
  record p { cons = (rest ++ none ∷ []) ++ none ∷ [] },
  unfold get receive get_slot send in ground (arith, e, s, o, ap (length {0}) e),
  unfold discard is_full send in ground (arith, e, s, o, ap (length {0}) e, length-snoc rest none),
  omega (arith, ap (length {0}) e, length-snoc rest none, length-snoc (rest ++ none ∷ []) none),
)
