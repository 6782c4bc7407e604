-- ===== src/Resolver/Answers.antt =====
-- What resolvers answer: from the cache, from the resolvers of the map, and for which domains.
use gudgeon.Prelude.{
  ℕ, ◌+◌, ◌*◌, ◌≤◌, ◌<◌, List, [], ◌∷◌, ◌++◌, Bool, true, false, ◌||◌, none, some, ◌≡◌, refl, ◌⊎◌,
  inl, inr, arith, if◌then◌else◌, ltb, length, Bool-cases, All, any,
}
use gudgeon.Prelude.Text.{Text, codes, is_empty, same, to_lower, contains, has_suffix, ends_with}
use gudgeon.Prelude.Dict.{Dict}
use gudgeon.Util.Domains.{dot, without_last}
use gudgeon.Util.Dns.{Message, Printing, is_empty_response}
use gudgeon.Cache.{Backer, Cache, second, lifetime, key, store, aged}
use gudgeon.Cache.Laws.{query-store}
use gudgeon.Resolver.{
  matches_loop, domain_matches, Resolver, Reply, Outside, first_name, Context, use_resolver,
  look_up, turned_away, answer, answer_with_context, answer_multi_resolvers,
}

matches_loop-any :
    (glob : Text → Text → Bool) (question : Text) (domains : List Text)
    → All (λ e. contains (to_lower e) (codes "*") ≡ false) domains
    → matches_loop glob question domains
      ≡ any (λ e. same (to_lower e) question || has_suffix question (dot ∷ to_lower e)) domains
unfolding matches_loop any
matches_loop-any glob question [] plain = refl
matches_loop-any glob question (d ∷ domains) plain =
    rw (plain.0, matches_loop-any glob question domains plain.1) (ground arith)

-- For a resolver without wildcards among its domains, a name matches if it is one of them but for case
-- of the configured one, or ends in a dot and one of them; a dot at the end of the name is dropped.
pub domain_matches-any :
    (glob : Text → Text → Bool) (question d : Text) (domains : List Text)
    → All (λ e. contains (to_lower e) (codes "*") ≡ false) (d ∷ domains)
    → domain_matches glob question (d ∷ domains)
      ≡ any
          (λ e.
            same (to_lower e) (if ends_with dot question then without_last question else question)
            || has_suffix
                (if ends_with dot question then without_last question else question)
                (dot ∷ to_lower e))
          (d ∷ domains)
unfolding domain_matches
domain_matches-any glob question d domains plain =
    matches_loop-any glob (if ends_with dot question then without_last question else question)
      (d ∷ domains) plain

module _ (printing : Printing) (backer : Backer) (outside : Outside) {S : Type 0}
    (ask : S → Message → Context printing backer → Reply × Context printing backer) where
  answer-look_up :
      (read now : ℕ) (r : Resolver S) (request m : Message) (c : Context printing backer)
      → 0 < length request.question
      → turned_away printing backer outside ask r (to_lower (first_name request.question)) ≡ false
      → look_up printing backer outside ask read read r.name request
          (record c { visited = c.visited ++ r.name ∷ [] })
        ≡ some m
      → is_empty_response printing (some m) ≡ false
      → answer printing backer outside ask read now r request c ≡ (
        some m,
        record (use_resolver printing backer r.name
            (record c { visited = c.visited ++ r.name ∷ [] })) { stored = true; cached = true },
      )
  unfolding answer
  answer-look_up read now r request m c l t h e = rw (few, t, h, answer, e)
    where
      few : ltb (length request.question) 1 ≡ false
      few = ground (arith, l)

  -- What the cache holds is answered without asking any source: once a response that the cache takes
  -- is stored for a resolver, that resolver answers a request with the same key, which its domains do
  -- not turn away, with the stored response, aged, up to the end of the lifetime, and marks the
  -- context as cached.
  pub answer-store :
      (now set_at read later : ℕ) (r : Resolver S) (request asking response : Message)
      (responses : Cache printing backer) (c : Context printing backer)
      → is_empty_response printing (some response) ≡ false
      → response.truncated ≡ false
      → 0 < lifetime response
      → is_empty (key printing request.question) ≡ false
      → key printing asking.question ≡ key printing request.question
      → read ≤ set_at + lifetime response * second
      → 0 < length asking.question
      → turned_away printing backer outside ask r (to_lower (first_name asking.question)) ≡ false
      → is_empty_response printing
          (some (aged printing backer read asking.id (record { message = response; time = now })))
        ≡ false
      → (stored : Cache printing backer) × (store printing backer now set_at r.name request
            (some response)
            responses
          ≡ (true, stored))
        × (answer printing backer outside ask read later r asking
              (record c { responses = some stored })
            ≡ (
              some
                  (aged printing backer read asking.id (record { message = response; time = now })),
              record (use_resolver printing backer r.name
                  (record c { responses = some stored; visited = c.visited ++ r.name ∷ [] })) {
                    stored = true;
                    cached = true;
                  },
            ))
  answer-store now set_at read later r request asking response responses c e t l k same_key live few
        turned full =
      let (stored, put, served) =
        query-store printing backer now set_at read read r.name request asking response responses e
          t l k same_key live in
      (
        stored,
        put,
        answer-look_up read later r asking
            (aged printing backer read asking.id (record { message = response; time = now }))
            (record c { responses = some stored }) few turned (unfold look_up in served) full,
      )

  -- Asking resolvers in order gives nil or a response that holds something.
  pub answer_multi_resolvers-content :
      (read now : ℕ) (resolvers : Dict (Resolver S)) (names : List Text) (request : Message)
      (c : Context printing backer)
      → ((answer_multi_resolvers printing backer outside ask read now resolvers names request c).0
          ≡ none)
        ⊎ (is_empty_response printing
              (answer_multi_resolvers printing backer outside ask read now resolvers names request
                c).0
            ≡ false)
  unfolding answer_multi_resolvers
  answer_multi_resolvers-content read now resolvers [] request c = inl refl
  answer_multi_resolvers-content read now resolvers (name ∷ names) request c =
      elim (Bool-cases (
        is_empty_response printing
          (answer_with_context printing backer outside ask read now resolvers name request c).0)) [
            | inl e ↦ rw e (
                answer_multi_resolvers-content read now resolvers names request
                  (answer_with_context printing backer outside ask read now resolvers name request
                    c).1)
            | inr e ↦ rw e (inr e)
          ]
