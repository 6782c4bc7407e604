-- ===== src/Cache/Tests.antt =====
-- Runs of the cache on small inputs.
use gudgeon.Prelude.{◌+◌, ◌*◌, ◌/◌, [], ◌∷◌, map, true, none, some, ◌≡◌, refl, arith, inr}
use gudgeon.Prelude.Text.{codes, is_empty, to_lower, same}
use gudgeon.Util.Dns.{is_empty_response}
use gudgeon.Cache.{second, lifetime, key, Cache, store, aged, query}
use gudgeon.Cache.Samples.{plain, backer, asked, answered, again, elsewhere}
use gudgeon.Cache.Laws.{aged-answer, query-store, query-store_expired, query-store_other}

aged-answer_example :
    map
      (λ r. r.ttl + (5 * second) / second)
      (aged plain backer (5 * second) 9 (record { message = answered; time = 0 })).answer
    ≡ 60 ∷ []
unfolding lifetime
aged-answer_example =
    aged-answer plain backer (5 * second) 9 (record { message = answered; time = 0 }) (omega arith)
      (omega arith)

query-store_example :
    (stored : Cache plain backer) × (store plain backer 0 1 (codes "home") asked (some answered) []
      ≡ (true, stored))
    × (query plain backer (5 * second) (5 * second) (codes "home") again stored
        ≡ some (aged plain backer (5 * second) 9 (record { message = answered; time = 0 })))
unfolding is_empty_response lifetime is_empty key to_lower
query-store_example =
    query-store plain backer 0 1 (5 * second) (5 * second) (codes "home") asked again answered []
      refl refl (omega arith) refl refl (omega arith)

query-store_expired_example :
    query plain backer
      (61 * second)
      (61 * second)
      (codes "home")
      again
      (store plain backer 0 1 (codes "home") asked (some answered) []).1
    ≡ none
unfolding is_empty_response lifetime is_empty key to_lower
query-store_expired_example =
    query-store_expired plain backer 0 1 (61 * second) (61 * second) (codes "home") asked again
      answered [] refl refl (omega arith) refl refl (omega arith)

query-store_other_example :
    query plain backer 5 5
      (codes "home")
      elsewhere
      (store plain backer 0 1 (codes "home") asked (some answered) []).1
    ≡ query plain backer 5 5 (codes "home") elsewhere []
unfolding same key to_lower
query-store_other_example =
    query-store_other plain backer 0 1 5 5 (codes "home") (codes "home") asked elsewhere
      (some answered) [] (inr refl)
