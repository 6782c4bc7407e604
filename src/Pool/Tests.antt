-- ===== src/Pool/Tests.antt =====
-- Runs of the pool on small inputs.
use gudgeon.Prelude.{ℕ, [], ◌∷◌, false, none, some, Option, ◌≡◌, refl, ◌⊎◌, length, arith}
use gudgeon.Pool.{
  DnsPool, returns, blocks, panics, get, release, discard, connection, failed, shut_down,
}
use gudgeon.Pool.Bounds.{gets, releases, step, IsOpen, step-IsOpen, discard-failed_get}
use gudgeon.Pool.Shutdown.{get-shut_down, release-shut_down}

-- A pool of five connections, one of which was given back and three of which are handed out.
abbrev used : DnsPool
used = record {
  shutdown = false;
  is_udp = false;
  capacity = 5;
  cons = none ∷ some 7 ∷ [];
  closed = false;
}

step-IsOpen_example :
    ((q : DnsPool) × (step (releases 9) used ≡ returns tt q) × IsOpen q × (q.capacity ≡ 5))
    ⊎ ((dialed : Option ℕ) × (releases 9 ≡ gets dialed)
        × (step (releases 9) used ≡ blocks)
        × (used.cons ≡ []))
step-IsOpen_example = step-IsOpen (releases 9) used (refl, refl, omega arith)

discard-failed_get_example :
    (q r : DnsPool) × (get none used ≡ returns failed q)
    × (discard q ≡ returns tt r)
    × (length r.cons ≡ 3)
discard-failed_get_example = discard-failed_get used (some 7 ∷ []) refl refl refl (omega arith)

get-shut_down_example :
    (q : DnsPool) × (con : ℕ) × (q' : DnsPool) × (shut_down used ≡ returns tt q)
    × (get (some 11) q ≡ returns (connection con) q')
get-shut_down_example = get-shut_down used 11 refl refl (omega arith)

release-shut_down_example : (q : DnsPool) × (shut_down used ≡ returns tt q) × (release 9 q ≡ panics)
release-shut_down_example = release-shut_down used 9 refl refl (omega arith)
