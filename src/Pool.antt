-- ===== src/Pool.antt =====
-- pool/dns_pool.go: a pool that hands out at most so many connections. Every method has a value
-- receiver, so it works on a copy of the struct: the channel `cons` is shared by the copies, the flag
-- `shutdown` and the mutex are not.
pub mod Shutdown
pub mod Bounds
mod Tests
use gudgeon.Prelude.{
  ℕ, zero, suc, ◌-◌, List, [], ◌∷◌, ◌++◌, Bool, true, false, not, ◌&&◌, ◌||◌, Option, none, some,
  length, ltb, ◌==◌, if◌then◌else◌,
}

-- A connection, told by a number; a slot of the channel holds one or nil.
abbrev pub Slot : Type 0
Slot = Option ℕ

-- The part of the struct that matters: the flag, whether the network is udp, and the channel with
-- its capacity. `closed` is the state of the channel.
pub record DnsPool : Type 0 where
  pub shutdown : Bool
  pub is_udp : Bool
  pub capacity : ℕ
  pub cons : List Slot
  pub closed : Bool

-- What a call comes to: a result with the pool as its callers see it, a wait that only another
-- goroutine can end, or a panic.
pub data Outcome {ℓ} (A : Type ℓ) : Type ℓ where
  returns : A → DnsPool → Outcome A
  blocks : Outcome A
  panics : Outcome A

-- `ch <- slot`: a panic on a closed channel, and a wait on a full one.
unfoldable pub send : Slot → DnsPool → Outcome (Unit {0})
send slot p =
    if p.closed
    then panics
    else if ltb (length p.cons) p.capacity
    then returns tt (record p { cons = p.cons ++ slot ∷ [] })
    else blocks

-- `<-ch`: the first slot; nil from a closed channel that is empty, and a wait on an open one.
unfoldable pub receive : DnsPool → Outcome Slot
receive p = elim p.cons [
  | [] ↦ if p.closed then returns none p else blocks
  | slot ∷ rest ↦ returns slot (record p { cons = rest })
]

infixl 5 ◌>>=◌
abbrev pub ◌>>=◌ {ℓ κ} :
    {A : Type ℓ} {B : Type κ} → Outcome A → (A → DnsPool → Outcome B) → Outcome B
returns a p >>= f = f a p
blocks >>= f = blocks
panics >>= f = panics

-- `cap(pool.cons) == len(pool.cons)`
unfoldable pub is_full : DnsPool → Bool
is_full p = p.capacity == length p.cons

-- The loop of NewDnsPool that fills the channel with nil.
unfoldable pub fill : ℕ → List Slot
fill zero = []
fill (suc n) = none ∷ fill n

-- NewDnsPool; the dialer and the TLS settings are left out.
unfoldable pub new_dns_pool : Bool → ℕ → DnsPool
unfolding fill
new_dns_pool is_udp max_connections = record {
  shutdown = false;
  is_udp = is_udp;
  capacity = max_connections;
  cons = fill max_connections;
  closed = false;
}

-- The results of Get: a connection, the pair of nil and nil, or an error of the dialer.
pub data Got : Type 0 where
  connection : ℕ → Got
  nothing failed : Got

-- Get behind the receive. `dialed` is what dialer.Dial gives, `none` an error.
unfoldable pub get_slot : Option ℕ → Slot → DnsPool → Outcome Got
unfolding send is_full
get_slot dialed (some con) p = returns (connection con) p
get_slot (some con) none p = returns (connection con) p
get_slot none none p =
    if not p.shutdown && ltb (length p.cons) p.capacity
    then (send none p >>= λ _ q. returns failed q)
    else returns failed p

-- Get
unfoldable pub get : Option ℕ → DnsPool → Outcome Got
unfolding receive get_slot
get dialed p = if p.shutdown then returns nothing p else (receive p >>= get_slot dialed)

-- Release of a connection that is not nil; closing it has no effect on the pool.
unfoldable pub release : ℕ → DnsPool → Outcome (Unit {0})
unfolding send is_full
release con p =
    if p.shutdown
    then returns tt p
    else if p.shutdown || is_full p
    then returns tt p
    else send (if p.is_udp then none else some con) p

-- Discard, of a connection or of nil
unfoldable pub discard : DnsPool → Outcome (Unit {0})
unfolding send is_full
discard p = if not p.shutdown && not (is_full p) then send none p else returns tt p

-- The loop of Shutdown: `for c := 0; c < cap(pool.cons)-len(pool.cons); c++ { pool.cons <- nil }`,
-- on fuel; the length grows as the counter does.
unfoldable pub shutdown_loop : ℕ → ℕ → DnsPool → Outcome (Unit {0})
unfolding send
shutdown_loop zero c p = blocks
shutdown_loop (suc fuel) c p =
    let rest = send none p >>= λ _ q. shutdown_loop fuel (suc c) q in
    if ltb c (p.capacity - length p.cons) then rest else returns tt p

-- close(ch)
unfoldable pub close_channel : DnsPool → Outcome (Unit {0})
close_channel p = if p.closed then panics else returns tt (record p { closed = true })

-- The flag of the pool that the callers hold is what it was, since the method sets that of its copy.
abbrev pub keep_flag : Bool → Outcome (Unit {0}) → Outcome (Unit {0})
keep_flag flag r = r >>= λ _ q. returns tt (record q { shutdown = flag })

-- Shutdown
unfoldable pub shut_down : DnsPool → Outcome (Unit {0})
unfolding shutdown_loop close_channel
shut_down p =
    keep_flag p.shutdown
      (shutdown_loop (suc p.capacity) 0 (record p { shutdown = true }) >>= λ _ q. close_channel q)
