-- ===== src/Cache/Laws.antt =====
-- What the cache serves: the response that was stored, aged, until its lifetime has passed.
use gudgeon.Prelude.{
  ℕ, ◌+◌, ◌-◌, ◌*◌, ◌/◌, ◌%◌, ◌≤◌, ◌<◌, List, [], ◌∷◌, map, Bool, true, false, Option, none, some,
  ◌≡◌, refl, sym, ap, subst, ◌||◌, ◌∙◌, length, arith, ltb, leb, lt→ltb, Bool-cases, Option-cases,
  ◌⊎◌, inl, inr, if◌then◌else◌,
}
use gudgeon.Prelude.Text.{Text, is_empty, same, same_iff, same_refl}
use mathlib.Core.Bool.{false≢true}
use gudgeon.Prelude.Dict.{lookup, lookup-insert}
use gudgeon.Util.Dns.{Record, Message, Printing, is_empty_response}
use gudgeon.Cache.{
  Envelope, second, Backer, dns_max_ttl, min, min_ttl, adjust_ttl, adjust_ttls, lifetime, key,
  Cache, or_new, put, store, aged, served, query, clear,
}

min_ttl-le : (n : ℕ) (records : List Record) → min_ttl n records ≤ n
unfolding min_ttl min
min_ttl-le n [] = omega arith
min_ttl-le n (r ∷ records) = ground (arith, min_ttl-le (if leb n r.ttl then n else r.ttl) records)

lowered : (d : ℕ) (r : Record) → d ≤ r.ttl → (adjust_ttl d r).ttl + d ≡ r.ttl
unfolding adjust_ttl
lowered d r b = ground arith

min-both : (d m n : ℕ) → d ≤ min m n → (d ≤ m) × (d ≤ n)
unfolding min
min-both d m n h = ground arith

-- Counting down by no more than the lowest time to live reaches zero early for no record.
min_ttl-adjust :
    (d n : ℕ) (records : List Record)
    → d ≤ min_ttl n records
    → map (λ r. r.ttl + d) (adjust_ttls d records) ≡ map (λ r. r.ttl) records
unfolding adjust_ttls min_ttl
min_ttl-adjust d n [] h = refl
min_ttl-adjust d n (r ∷ records) h =
    let below : d ≤ r.ttl =
      (min-both d n r.ttl (omega (arith, h, min_ttl-le (min n r.ttl) records))).1 in
    cc (lowered d r below, min_ttl-adjust d (min n r.ttl) records h)

lifetime-answer : (m : Message) → 0 < length m.answer → lifetime m ≡ min_ttl dns_max_ttl m.answer
unfolding lifetime
lifetime-answer m h = ground (arith, h)

elapsed : (d n : ℕ) → d ≤ n * second → d / second ≤ n
elapsed d n h = omega (arith, h)

if-same : {A : Type 0} (b : Bool) (x : A) → (if b then x else x) ≡ x
if-same true x = refl
if-same false x = refl

module _ (printing : Printing) (backer : Backer) where
  open backer use {
    Items, new, set, get, get-set_live, get-set_expired, get-set_other, get-new, get-flush,
  }

  -- Within the lifetime of a response the times to live of its answers are never cut off at zero:
  -- what is served is what was stored less the whole seconds that have passed.
  pub aged-answer :
      (read id : ℕ) (e : Envelope)
      → 0 < length e.message.answer
      → read ≤ e.time + lifetime e.message * second
      → map (λ r. r.ttl + (read - e.time) / second) (aged printing backer read id e).answer
        ≡ map (λ r. r.ttl) e.message.answer
  unfolding aged
  aged-answer read id e n h =
      rw small (min_ttl-adjust ((read - e.time) / second) dns_max_ttl e.message.answer low)
    where
      low : (read - e.time) / second ≤ min_ttl dns_max_ttl e.message.answer
      low =
          elapsed (read - e.time) (min_ttl dns_max_ttl e.message.answer)
            (omega (arith, h, lifetime-answer e.message n))

      small : (read - e.time) / second % 4294967296 ≡ (read - e.time) / second
      small = omega (arith, low, min_ttl-le dns_max_ttl e.message.answer)

  store-put :
      (now set_at : ℕ) (partition : Text) (request response : Message) (c : Cache printing backer)
      → is_empty_response printing (some response) ≡ false
      → response.truncated ≡ false
      → 0 < lifetime response
      → is_empty (key printing request.question) ≡ false
      → store printing backer now set_at partition request (some response) c
        ≡ put printing backer now set_at partition (key printing request.question) response c
  unfolding store
  store-put now set_at partition request response c e t l k = rw (e, t, lt→ltb _ _ l, k)

  -- What a request finds after a write to its partition.
  query-put :
      (now set_at get_at read : ℕ) (partition k : Text) (asking response : Message)
      (c : Cache printing backer)
      → is_empty (key printing asking.question) ≡ false
      → query printing backer get_at read partition asking
          (put printing backer now set_at partition k response c).1
        ≡ served printing backer read asking.id (
            get get_at (key printing asking.question) (
              set set_at k
                (record { message = response; time = now })
                (lifetime response * second)
                (or_new printing backer (lookup partition c))))
  unfolding put query
  query-put now set_at get_at read partition k asking response c e =
      rw (e, lookup-insert partition partition, same_refl partition)

  served-some :
      (read id : ℕ) (e : Envelope)
      → is_empty_response printing (some e.message) ≡ false
      → served printing backer read id (some e) ≡ some (aged printing backer read id e)
  unfolding served
  served-some read id e h = rw h

  served-none : (read id : ℕ) → served printing backer read id none ≡ none
  unfolding served
  served-none read id = refl

  put-stored :
      (now set_at : ℕ) (partition k : Text) (response : Message) (c : Cache printing backer)
      → put printing backer now set_at partition k response c
        ≡ (true, (put printing backer now set_at partition k response c).1)
  unfolding put
  put-stored now set_at partition k response c = refl

  -- A response that holds something, is not truncated and lives for at least a second is stored, and
  -- a request with the same key in the same partition is then served it, with its own id and the
  -- times to live counted down, at every moment up to the end of the lifetime.
  pub query-store :
      (now set_at get_at read : ℕ) (partition : Text) (request asking response : Message)
      (c : Cache printing backer)
      → is_empty_response printing (some response) ≡ false
      → response.truncated ≡ false
      → 0 < lifetime response
      → is_empty (key printing request.question) ≡ false
      → key printing asking.question ≡ key printing request.question
      → get_at ≤ set_at + lifetime response * second
      → (stored : Cache printing backer) × (store printing backer now set_at partition request
            (some response)
            c
          ≡ (true, stored))
        × (query printing backer get_at read partition asking stored
            ≡ some
                (aged printing backer read asking.id (record { message = response; time = now })))
  query-store now set_at get_at read partition request asking response c e t l k same_key live = (
    (put printing backer now set_at partition (key printing request.question) response c).1,
    store-put now set_at partition request response c e t l k
        ∙ put-stored now set_at partition (key printing request.question) response c,
    query-put now set_at get_at read partition (key printing request.question) asking response c
          (ap (λ q. is_empty q) same_key ∙ k)
        ∙ rw
            (
              same_key,
              get-set_live set_at get_at (key printing request.question)
                  (record { message = response; time = now }) (lifetime response * second)
                  (or_new printing backer (lookup partition c)) live,
            )
            (served-some read asking.id (record { message = response; time = now }) e),
  )

  -- Past the end of its lifetime a stored response is served to no request with its key.
  pub query-store_expired :
      (now set_at get_at read : ℕ) (partition : Text) (request asking response : Message)
      (c : Cache printing backer)
      → is_empty_response printing (some response) ≡ false
      → response.truncated ≡ false
      → 0 < lifetime response
      → is_empty (key printing request.question) ≡ false
      → key printing asking.question ≡ key printing request.question
      → set_at + lifetime response * second < get_at
      → query printing backer get_at read partition asking
          (store printing backer now set_at partition request (some response) c).1
        ≡ none
  query-store_expired now set_at get_at read partition request asking response c e t l k same_key
        late =
      ap
        (λ (r : Bool × Cache printing backer).
          query printing backer get_at read partition asking r.1)
        (store-put now set_at partition request response c e t l k)
      ∙ (query-put now set_at get_at read partition (key printing request.question) asking response
            c (ap (λ q. is_empty q) same_key ∙ k)
          ∙ rw
              (
                same_key,
                get-set_expired set_at get_at (key printing request.question)
                    (record { message = response; time = now }) (lifetime response * second)
                    (or_new printing backer (lookup partition c)) late,
              )
              (served-none read asking.id))

  -- Store either leaves the cache as it is or puts a response under the key of the request.
  store-cases :
      (now set_at : ℕ) (partition : Text) (request : Message) (response : Option Message)
      (c : Cache printing backer)
      → ((store printing backer now set_at partition request response c).1 ≡ c)
        ⊎ ((m : Message) × (response ≡ some m)
            × (store printing backer now set_at partition request response c
                ≡ put printing backer now set_at partition (key printing request.question) m c))
  unfolding store
  store-cases now set_at partition request none c = inl refl
  store-cases now set_at partition request (some m) c =
      elim (Bool-cases (is_empty_response printing (some m) || m.truncated)) [
        | inl e ↦ inl (rw e)
        | inr e ↦ elim (Bool-cases (ltb 0 (lifetime m))) [
          | inr l ↦ inl (rw (e, l))
          | inl l ↦ elim (Bool-cases (is_empty (key printing request.question))) [
            | inl k ↦ inl (rw (e, l, k))
            | inr k ↦ inr (m, refl, rw (e, l, k))
          ]
        ]
      ]

  put-key :
      (now set_at get_at read : ℕ) (partition k : Text) (asking m : Message)
      (c : Cache printing backer)
      → same k (key printing asking.question) ≡ false
      → query printing backer get_at read partition asking
          (put printing backer now set_at partition k m c).1
        ≡ query printing backer get_at read partition asking c
  unfolding put query served
  put-key now set_at get_at read partition k asking m c e =
      elim (Option-cases (lookup partition c)) [
        | inl n ↦
            rw
              (
                lookup-insert partition partition,
                same_refl partition,
                n,
                get-set_other set_at get_at k (key printing asking.question)
                    (record { message = m; time = now }) (lifetime m * second) new e,
                get-new get_at (key printing asking.question),
              )
              refl
        | inr (s, n) ↦ rw (
          lookup-insert partition partition,
          same_refl partition,
          n,
          get-set_other set_at get_at k (key printing asking.question)
              (record { message = m; time = now }) (lifetime m * second) s e,
        )
      ]

  put-partition :
      (now set_at get_at read : ℕ) (partition other k : Text) (asking m : Message)
      (c : Cache printing backer)
      → same partition other ≡ false
      → query printing backer get_at read other asking
          (put printing backer now set_at partition k m c).1
        ≡ query printing backer get_at read other asking c
  unfolding put query
  put-partition now set_at get_at read partition other k asking m c e =
      rw (lookup-insert partition other, e)

  put-other :
      (now set_at get_at read : ℕ) (partition other k : Text) (asking m : Message)
      (c : Cache printing backer)
      → (same partition other ≡ false) ⊎ (same k (key printing asking.question) ≡ false)
      → query printing backer get_at read other asking
          (put printing backer now set_at partition k m c).1
        ≡ query printing backer get_at read other asking c
  put-other now set_at get_at read partition other k asking m c apart =
      elim (Bool-cases (same partition other)) [
        | inr e ↦ put-partition now set_at get_at read partition other k asking m c e
        | inl e ↦ elim apart [
          | inl h ↦ absurd (false≢true (sym h ∙ e))
          | inr h ↦
              subst
                (λ (p : Text).
                  query printing backer get_at read p asking
                    (put printing backer now set_at partition k m c).1
                  ≡ query printing backer get_at read p asking c)
                ((same_iff partition other).0 e)
                (put-key now set_at get_at read partition k asking m c h)
        ]
      ]

  -- A store changes nothing that a request reads in another partition or under another key, whatever
  -- becomes of the response.
  pub query-store_other :
      (now set_at get_at read : ℕ) (partition other : Text) (request asking : Message)
      (response : Option Message) (c : Cache printing backer)
      → (same partition other ≡ false)
        ⊎ (same (key printing request.question) (key printing asking.question) ≡ false)
      → query printing backer get_at read other asking
          (store printing backer now set_at partition request response c).1
        ≡ query printing backer get_at read other asking c
  query-store_other now set_at get_at read partition other request asking response c apart =
      elim (store-cases now set_at partition request response c) [
        | inl e ↦ ap (query printing backer get_at read other asking) e
        | inr (m, _, e) ↦
            ap
              (λ (r : Bool × Cache printing backer).
                query printing backer get_at read other asking r.1)
              e
            ∙ put-other now set_at get_at read partition other (key printing request.question)
                asking m c apart
      ]

  lookup-clear :
      (partition : Text) (c : Cache printing backer)
      → lookup partition (clear printing backer c)
        ≡ (elim (lookup partition c) [ none ↦ none | some s ↦ some (backer.flush s) ])
  unfolding clear lookup
  lookup-clear partition [] = refl
  lookup-clear partition ((k, s) ∷ c) = ground (arith, lookup-clear partition c)

  -- After Clear no request is served anything.
  pub query-clear :
      (get_at read : ℕ) (partition : Text) (asking : Message) (c : Cache printing backer)
      → query printing backer get_at read partition asking (clear printing backer c) ≡ none
  unfolding query served
  query-clear get_at read partition asking c = elim (Option-cases (lookup partition c)) [
    | inl n ↦
        rw (lookup-clear partition c, n) (if-same (is_empty (key printing asking.question)) none)
    | inr (s, n) ↦
        rw (lookup-clear partition c, n, get-flush get_at (key printing asking.question) s)
          (if-same (is_empty (key printing asking.question)) none)
  ]
