-- ===== src/Pool/Shutdown.antt =====
-- What is left of a pool after Shutdown.
use gudgeon.Prelude.{
  ℕ, zero, suc, ◌+◌, ◌-◌, ◌*◌, ◌≤◌, ◌<◌, List, [], ◌∷◌, ◌++◌, true, false, Option, none, some, ◌≡◌,
  refl, ◌∙◌, length, length-append, arith, ltb, ltb→lt, lt→ltb, ◌⊎◌, Bool-cases, inl, inr,
}
use gudgeon.Pool.{
  Slot, DnsPool, returns, panics, ◌>>=◌, send, receive, get, get_slot, release, is_full, connection,
  shutdown_loop, close_channel, shut_down,
}

abbrev nil_slot : Slot
nil_slot = none

send_room :
    (slot : Slot) (p : DnsPool)
    → p.closed ≡ false
    → length p.cons < p.capacity
    → send slot p ≡ returns tt (record p { cons = p.cons ++ slot ∷ [] })
unfolding send
send_room slot p o l = rw (o, lt→ltb _ _ l)

-- The loop ends on an open pool that is not overfull: it sends until the counter meets the room that
-- is left, so about half of the room stays empty.
shutdown_loop_lem :
    (fuel c : ℕ) (p : DnsPool)
    → p.closed ≡ false
    → length p.cons ≤ p.capacity
    → p.capacity < fuel + length p.cons
    → (q : DnsPool) × (shutdown_loop fuel c p ≡ returns tt q)
      × (q.closed ≡ false)
      × (q.capacity ≡ p.capacity)
      × (length p.cons ≤ length q.cons)
      × (length q.cons ≤ q.capacity)
      × ((2 * length q.cons + c ≤ p.capacity + length p.cons + 1) ⊎ (length q.cons ≡ length p.cons))
unfolding shutdown_loop
shutdown_loop_lem zero c p o l h = absurd (omega arith)
shutdown_loop_lem (suc fuel) c p o l h = elim (Bool-cases (ltb c (p.capacity - length p.cons))) [
  | inr e ↦ (p, rw e, o, refl, omega arith, l, inr refl)
  | inl e ↦
      let room : c < p.capacity - length p.cons = ltb→lt _ _ e in
      let longer : length (p.cons ++ nil_slot ∷ []) ≡ length p.cons + 1 =
        length-append p.cons (nil_slot ∷ []) in
      let (q, r, o', k, m, n, b) =
        shutdown_loop_lem fuel (suc c) (record p { cons = p.cons ++ nil_slot ∷ [] }) o (omega arith)
          (omega arith) in
      (
        q,
        rw e (rw (send_room nil_slot p o (omega arith)) r),
        o',
        k,
        omega arith,
        n,
        elim b [ inl x ↦ inl (omega arith) | inr x ↦ inl (omega arith) ],
      )
]

-- What Shutdown leaves of an open pool that is not overfull: it returns, with the channel closed,
-- the flag that callers read as it was, and at most half of the free room filled.
shut_down_lem :
    (p : DnsPool)
    → p.closed ≡ false
    → length p.cons ≤ p.capacity
    → (q : DnsPool) × (shut_down p ≡ returns tt q)
      × (q.closed ≡ true)
      × (q.shutdown ≡ p.shutdown)
      × (q.capacity ≡ p.capacity)
      × ((2 * length q.cons ≤ p.capacity + length p.cons + 1) ⊎ (length q.cons ≡ length p.cons))
unfolding shut_down close_channel
shut_down_lem p o l =
    let (q, r, o', k, _, _, b) =
      shutdown_loop_lem (suc p.capacity) 0 (record p { shutdown = true }) o l (omega arith) in
    (
      record q { closed = true; shutdown = p.shutdown },
      rw r (rw o'),
      refl,
      refl,
      k,
      elim b [ inl x ↦ inl (omega arith) | inr x ↦ inr x ],
    )

get_receive :
    (dialed : Option ℕ) (p : DnsPool)
    → p.shutdown ≡ false
    → get dialed p ≡ (receive p >>= get_slot dialed)
unfolding get
get_receive dialed p s = ground (arith, s)

receive-nil : (p : DnsPool) → p.cons ≡ [] → p.closed ≡ true → receive p ≡ returns none p
unfolding receive
receive-nil p e c = ground (arith, e, c)

receive-cons :
    (p : DnsPool) (slot : Slot) (rest : List Slot)
    → p.cons ≡ slot ∷ rest
    → receive p ≡ returns slot (record p { cons = rest })
unfolding receive
receive-cons p slot rest e = ground (arith, e)

-- On a closed channel a receive never waits, and with a working dialer Get yields a connection.
get_closed :
    (q : DnsPool) (dialed : ℕ)
    → q.closed ≡ true
    → q.shutdown ≡ false
    → (con : ℕ) × (q' : DnsPool) × (get (some dialed) q ≡ returns (connection con) q')
get_closed q dialed c s = by_slots q.cons refl
  where
    by_slot :
        (slot : Slot) (r : DnsPool)
        → (con : ℕ) × (q' : DnsPool) × (get_slot (some dialed) slot r ≡ returns (connection con) q')
    by_slot none r = (dialed, r, unfold get_slot in refl)
    by_slot (some con) r = (con, r, unfold get_slot in refl)

    by_slots :
        (xs : List Slot)
        → q.cons ≡ xs
        → (con : ℕ) × (q' : DnsPool) × (get (some dialed) q ≡ returns (connection con) q')
    by_slots [] e =
        let (con, q', h) = by_slot none q in
        (con, q', get_receive (some dialed) q s ∙ rw (receive-nil q e c) h)
    by_slots (slot ∷ rest) e =
        let (con, q', h) = by_slot slot (record q { cons = rest }) in
        (con, q', get_receive (some dialed) q s ∙ rw (receive-cons q slot rest e) h)

-- Shutdown of an open pool that was not shut down returns, and afterwards Get still hands out a
-- connection whenever the dialer gives one.
pub get-shut_down :
    (p : DnsPool) (dialed : ℕ)
    → p.closed ≡ false
    → p.shutdown ≡ false
    → length p.cons ≤ p.capacity
    → (q : DnsPool) × (con : ℕ) × (q' : DnsPool) × (shut_down p ≡ returns tt q)
      × (get (some dialed) q ≡ returns (connection con) q')
get-shut_down p dialed o s l =
    let (q, r, c, s', _, _) = shut_down_lem p o l in
    let (con, q', g) = get_closed q dialed c (s' ∙ s) in (q, con, q', r, g)

-- If at least two connections of an open pool that was not shut down are handed out, then Shutdown
-- returns, and releasing a connection afterwards is a send on a closed channel, a panic.
pub release-shut_down :
    (p : DnsPool) (con : ℕ)
    → p.closed ≡ false
    → p.shutdown ≡ false
    → length p.cons + 2 ≤ p.capacity
    → (q : DnsPool) × (shut_down p ≡ returns tt q) × (release con q ≡ panics)
unfolding release send is_full
release-shut_down p con o s l =
    let (q, r, c, s', k, b) = shut_down_lem p o (omega arith) in
    (q, r, ground (arith, s', s, c, k, b))
