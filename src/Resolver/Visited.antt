-- ===== src/Resolver/Visited.antt =====
-- The names of the resolvers that a resolution has visited.
use gudgeon.Prelude.{
  ℕ, List, [], ◌∷◌, ◌++◌, false, not, ◌&&◌, ◌||◌, Option, none, some, ◌≡◌, refl, sym, ap, ◌∙◌,
  subst, ◌⊎◌, inl, inr, arith, ltb, length, Bool-cases, Option-cases,
}
use gudgeon.Prelude.Text.{Text, is_empty, same, same_sym, to_lower}
use gudgeon.Prelude.Dict.{Dict, lookup, Entries}
use gudgeon.Util.Strings.{string_in}
use gudgeon.Util.Dns.{Message, Printing, is_empty_response}
use gudgeon.Cache.{Backer}
use gudgeon.Resolver.{
  Resolver, Reply, failed, responded, Outside, first_name, Context, use_resolver, ask_sources,
  search_loop, search_domains, resolve, keep, look_up, turned_away, answer, answer_with_context,
  answer_multi_resolvers, not_searched, rename_first,
}

-- No name stands in the list twice.
abbrev pub IsDistinct : List Text → Type 0
IsDistinct [] = Unit
IsDistinct (n ∷ names) = (string_in n names ≡ false) × IsDistinct names

pub string_in-snoc :
    (n m : Text) (names : List Text)
    → string_in n (names ++ m ∷ []) ≡ (string_in n names || same n m)
unfolding string_in
string_in-snoc n m [] = ground arith
string_in-snoc n m (x ∷ names) = ground (arith, string_in-snoc n m names)

pub IsDistinct-snoc :
    (n : Text) (names : List Text)
    → string_in n names ≡ false
    → IsDistinct names
    → IsDistinct (names ++ n ∷ [])
unfolding string_in
IsDistinct-snoc n [] h d = (refl, tt)
IsDistinct-snoc n (x ∷ names) h d = (
  string_in-snoc x n names ∙ ground (arith, h, d.0, same_sym n x),
  IsDistinct-snoc n names (ground (arith, h)) d.1,
)

Reply-cases : (r : Reply) → (r ≡ failed) ⊎ ((m : Option Message) × (r ≡ responded m))
Reply-cases failed = inl refl
Reply-cases (responded m) = inr (m, refl)

module _ (printing : Printing) (backer : Backer) (outside : Outside) {S : Type 0}
    (ask : S → Message → Context printing backer → Reply × Context printing backer) where
  -- What each source keeps true of the names that were visited, a resolver keeps too.
  module _ (P : List Text → Type 0)
      (kept : (s : S) (m : Message) (c : Context printing backer)
        → P c.visited
        → P ((ask s m c).1).visited) where
    ask_sources-kept :
        (name : Text) (sources : List S) (request : Message) (c : Context printing backer)
        → P c.visited
        → P ((ask_sources printing backer outside ask name sources request c).1).visited
    unfolding ask_sources use_resolver
    ask_sources-kept name [] request c p = p
    ask_sources-kept name (s ∷ sources) request c p = elim (Reply-cases (ask s request c).0) [
      | inl e ↦
          rw (e, ask_sources)
            (ask_sources-kept name sources request (ask s request c).1 (kept s request c p))
      | inr (m, e) ↦ elim (Bool-cases (is_empty_response printing m)) [
        | inl h ↦
            rw (e, ask_sources, h)
              (ask_sources-kept name sources request (ask s request c).1 (kept s request c p))
        | inr h ↦ rw (e, ask_sources, h) (kept s request c p)
      ]
    ]

    search_loop-kept :
        (r : Resolver S) (domains : List Text) (request : Message) (c : Context printing backer)
        → P c.visited
        → P ((search_loop printing backer outside ask r domains request c).1).visited
    unfolding search_loop
    search_loop-kept r [] request c p = p
    search_loop-kept r (d ∷ domains) request c p = elim (Bool-cases (is_empty d)) [
      | inl e ↦ rw e (search_loop-kept r domains request c p)
      | inr e ↦ elim (Option-cases result.0) [
        | inl n ↦ rw (e, n) (search_loop-kept r domains request result.1 asked_kept)
        | inr (m, n) ↦ elim (Bool-cases (is_empty_response printing (some m))) [
          | inl h ↦ rw (e, n, h) (search_loop-kept r domains request result.1 asked_kept)
          | inr h ↦ rw (e, n, h) asked_kept
        ]
      ]
    ]
      where
        asked : Message
        asked = record request {
          question =
              rename_first (outside.fqdn (outside.fqdn (first_name request.question) ++ d))
                request.question;
        }

        result : Option Message × Context printing backer
        result = ask_sources printing backer outside ask r.name r.sources asked c

        asked_kept : P result.1.visited
        asked_kept = ask_sources-kept r.name r.sources asked c p

    search_domains-kept :
        (r : Resolver S) (request : Message) (c : Context printing backer)
        → P c.visited
        → P ((search_domains printing backer outside ask r request c).1).visited
    unfolding search_domains
    search_domains-kept r request c p =
        elim (Bool-cases (not_searched (first_name request.question))) [
          | inl e ↦ rw e p
          | inr e ↦ rw e (search_loop-kept r r.search request c p)
        ]

    resolve-kept :
        (r : Resolver S) (request : Message) (c : Context printing backer)
        → P c.visited
        → P ((resolve printing backer outside ask r request c).1).visited
    unfolding resolve
    resolve-kept r request c p =
        elim (Bool-cases (is_empty_response printing first.0 && ltb 0 (length r.search))) [
          | inr e ↦ rw e first_kept
          | inl e ↦ elim (Bool-cases (is_empty_response printing searched.0)) [
            | inl h ↦ rw (e, h) (search_domains-kept r request first.1 first_kept)
            | inr h ↦ rw (e, h) (search_domains-kept r request first.1 first_kept)
          ]
        ]
      where
        first : Option Message × Context printing backer
        first = ask_sources printing backer outside ask r.name r.sources request c

        first_kept : P first.1.visited
        first_kept = ask_sources-kept r.name r.sources request c p

        searched : Option Message × Context printing backer
        searched = search_domains printing backer outside ask r request first.1

    keep-kept :
        (now set_at : ℕ) (name : Text) (request : Message)
        (result : Option Message × Context printing backer)
        → P result.1.visited
        → P ((keep printing backer outside ask now set_at name request result).1).visited
    unfolding keep
    keep-kept now set_at name request (none, c) p = p
    keep-kept now set_at name request (some m, c) p = elim (Option-cases c.responses) [
      | inl n ↦ rw n p
      | inr (responses, n) ↦ elim (Bool-cases (not c.stored && not m.truncated)) [
        | inl e ↦ rw (n, e) p
        | inr e ↦ rw (n, e) p
      ]
    ]

    answer-kept :
        (read now : ℕ) (r : Resolver S) (request : Message) (c : Context printing backer)
        → P c.visited
        → P (c.visited ++ r.name ∷ [])
        → P ((answer printing backer outside ask read now r request c).1).visited
    unfolding answer use_resolver
    answer-kept read now r request c p q =
        elim (Bool-cases (
          ltb (length request.question) 1
          || turned_away printing backer outside ask r (to_lower (first_name request.question)))) [
            | inl e ↦ rw e p
            | inr e ↦
                elim (Option-cases
                  (look_up printing backer outside ask read read r.name request visiting)) [
                    | inl n ↦ rw (e, n) resolved_kept
                    | inr (m, n) ↦ elim (Bool-cases (is_empty_response printing (some m))) [
                      | inl h ↦ rw (e, n, h) resolved_kept
                      | inr h ↦ rw (e, n, h) q
                    ]
                  ]
          ]
      where
        visiting : Context printing backer
        visiting = record c { visited = c.visited ++ r.name ∷ [] }

        resolved_kept :
            P
              ((keep printing backer outside ask now now r.name request
                  (resolve printing backer outside ask r request visiting)).1
                ).visited
        resolved_kept =
            keep-kept now now r.name request
              (resolve printing backer outside ask r request visiting)
              (resolve-kept r request visiting q)

  -- The context after a resolver of the map was asked is that of its answer, or as it was.
  answer_with_context-cases :
      (read now : ℕ) (resolvers : Dict (Resolver S)) (name : Text) (request : Message)
      (c : Context printing backer)
      → ((answer_with_context printing backer outside ask read now resolvers name request c).1 ≡ c)
        ⊎ ((r : Resolver S) × (lookup name resolvers ≡ some r)
            × (string_in name c.visited ≡ false)
            × ((answer_with_context printing backer outside ask read now resolvers name request c).1
                ≡ (answer printing backer outside ask read now r request c).1))
  unfolding answer_with_context
  answer_with_context-cases read now resolvers name request c =
      elim (Option-cases (lookup name resolvers)) [
        | inl n ↦ inl (rw (n, answer_with_context))
        | inr (r, n) ↦ elim (Bool-cases (string_in name c.visited)) [
          | inl e ↦ inl (rw (n, answer_with_context, e))
          | inr e ↦ inr (r, n, e, rw (n, answer_with_context, e))
        ]
      ]

  answer_with_context-IsDistinct :
      (read now : ℕ) (resolvers : Dict (Resolver S)) (name : Text) (request : Message)
      (c : Context printing backer)
      → ((s : S) (m : Message) (d : Context printing backer)
          → IsDistinct d.visited
          → IsDistinct ((ask s m d).1).visited)
      → Entries (λ k r. r.name ≡ k) resolvers
      → IsDistinct c.visited
      → IsDistinct
          ((answer_with_context printing backer outside ask read now resolvers name request c).1
            ).visited
  answer_with_context-IsDistinct read now resolvers name request c kept named d =
      elim (answer_with_context-cases read now resolvers name request c) [
        | inl e ↦ subst (λ (x : Context printing backer). IsDistinct x.visited) (sym e) d
        | inr (r, n, e, h) ↦
            subst (λ (x : Context printing backer). IsDistinct x.visited) (sym h)
              (answer-kept IsDistinct kept read now r request c d (
                IsDistinct-snoc r.name c.visited
                  (ap (λ k. string_in k c.visited) (named name r n) ∙ e) d))
      ]

  -- No resolver is visited twice in one resolution: if no source makes the visited names repeat, and
  -- each resolver stands in the map under its own name, then asking any resolvers in order does not.
  pub answer_multi_resolvers-IsDistinct :
      (read now : ℕ) (resolvers : Dict (Resolver S)) (names : List Text) (request : Message)
      (c : Context printing backer)
      → ((s : S) (m : Message) (d : Context printing backer)
          → IsDistinct d.visited
          → IsDistinct ((ask s m d).1).visited)
      → Entries (λ k r. r.name ≡ k) resolvers
      → IsDistinct c.visited
      → IsDistinct
          ((answer_multi_resolvers printing backer outside ask read now resolvers names request c).1
            ).visited
  unfolding answer_multi_resolvers
  answer_multi_resolvers-IsDistinct read now resolvers [] request c kept named d = d
  answer_multi_resolvers-IsDistinct read now resolvers (name ∷ names) request c kept named d =
      elim (Bool-cases (is_empty_response printing result.0)) [
        | inl e ↦ rw e (
            answer_multi_resolvers-IsDistinct read now resolvers names request result.1 kept named
              result_distinct)
        | inr e ↦ rw e result_distinct
      ]
    where
      result : Option Message × Context printing backer
      result = answer_with_context printing backer outside ask read now resolvers name request c

      result_distinct : IsDistinct result.1.visited
      result_distinct =
          answer_with_context-IsDistinct read now resolvers name request c kept named d
