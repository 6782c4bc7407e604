-- ===== src/Resolver/HostFile/Targets.antt =====
-- What aliases lead to, and how lines are conditioned.
use gudgeon.Prelude.{
  ℕ, zero, suc, ◌≤◌, ◌<◌, List, [], ◌∷◌, true, false, ◌||◌, Option, none, some, ◌≡◌, ◌≢◌, refl, sym,
  ap, ◌∙◌, subst, ==_iff, ◌⊎◌, inl, inr, ◌==◌, length, arith, Bool-cases, Option-cases,
}
use gudgeon.Prelude.Text.{
  Text, codes, same, same_iff, same_refl, is_empty, has_prefix, contains, contains_byte, trim_space,
  to_lower,
}
use gudgeon.Prelude.Dict.{Dict, lookup, Entries, insert-Entries}
use gudgeon.Util.Strings.{trim_comments}
use gudgeon.Util.Dns.{Question, Record, Message, Printing}
use gudgeon.Cache.{Backer}
use gudgeon.Resolver.{Outside, Context}
use gudgeon.Resolver.HostFile.{
  HostFile, Addresses, halve, collapse, condition_line, add_host, add_hosts, add_alias, add_aliases,
  add_domains, or_none, load_line, load_lines, load_array, respond_to_cname, answers_for,
  finish_answer, answer,
}

some-ne-none : {A : Type 0} {x : A} → some x ≢ none
some-ne-none e = cc

true-ne-false : true ≢ false
true-ne-false e = cc

-- A text that is shorter than another one, or the same.
IsShorter : Text → Text → Type 0
IsShorter t s = (length t < length s) ⊎ (t ≡ s)

IsShorter-cons : (c : ℕ) (t s : Text) → IsShorter t s → IsShorter (c ∷ t) (c ∷ s)
unfolding IsShorter
IsShorter-cons c t s (inl h) = inl (omega (arith, h))
IsShorter-cons c t s (inr e) = inr (ap (◌∷◌ c) e)

IsShorter-length : (t s : Text) → IsShorter t s → length t ≤ length s
unfolding IsShorter
IsShorter-length t s (inl h) = omega (arith, h)
IsShorter-length t s (inr e) = omega (arith, ap (λ (x : Text). length x) e)

-- Removing adjacent spaces makes a text shorter or leaves it as it is.
halve-IsShorter : (s : Text) → IsShorter (halve false s) s × IsShorter (halve true s) (b' ' ∷ s)
unfolding halve IsShorter
halve-IsShorter [] = (inr refl, inr refl)
halve-IsShorter (c ∷ s) =
    let (plain, open_space) = halve-IsShorter s in
    elim (Bool-cases (c == b' ')) [
      | inl e ↦
          rw (e, halve)
            (
              subst (λ (x : ℕ). IsShorter (halve true s) (x ∷ s)) (sym ((==_iff c b' ').0 e))
                  open_space,
              inl (omega (arith, IsShorter-length (halve false s) s plain)),
            )
      | inr e ↦
          rw (e, halve)
            (
              IsShorter-cons c (halve false s) s plain,
              IsShorter-cons b' ' (c ∷ halve false s) (c ∷ s)
                  (IsShorter-cons c (halve false s) s plain),
            )
    ]

-- The loop that removes adjacent spaces ends within fuel for the length of its text: a further round
-- changes nothing.
pub collapse-fuel_enough :
    (s : Text) (fuel : ℕ) → length s ≤ fuel → halve false (collapse fuel s) ≡ collapse fuel s
unfolding collapse IsShorter
collapse-fuel_enough [] zero h = unfold halve in refl
collapse-fuel_enough (c ∷ s) zero h = absurd (omega (arith, h))
collapse-fuel_enough s (suc fuel) h = elim (Bool-cases (same s (halve false s))) [
  | inl e ↦ rw (e, collapse) (sym ((same_iff s (halve false s)).0 e))
  | inr e ↦ elim (halve-IsShorter s).0 [
    | inl k ↦ rw (e, collapse) (collapse-fuel_enough (halve false s) fuel (omega (arith, k, h)))
    | inr k ↦ absurd (true-ne-false (sym (rw k (same_refl s)) ∙ e))
  ]
]

abbrev HasTarget : Text → Text → Type 0
HasTarget alias target = is_empty target ≡ false

nothing_held : Entries HasTarget []
unfolding lookup
nothing_held k v n = absurd (some-ne-none (sym n))

module _ (addresses : Addresses) (outside : Outside)
    (named : (s : Text) → is_empty (outside.fqdn s) ≡ false) where
  add_aliases-Entries :
      (target : Text) (aliases : List Text) (entries : Dict Text)
      → Entries HasTarget entries
      → Entries HasTarget (add_aliases addresses outside target aliases entries)
  unfolding add_aliases
  add_aliases-Entries target [] entries h = h
  add_aliases-Entries target (alias ∷ aliases) entries h =
      add_aliases-Entries target aliases (add_alias addresses outside target alias entries) added
    where
      added : Entries HasTarget (add_alias addresses outside target alias entries)
      added =
          unfold add_alias in
          elim (Bool-cases (is_empty (or_none (lookup alias entries)))) [
            | inl e ↦
                rw (e, add_alias)
                  (insert-Entries HasTarget (outside.fqdn alias) (outside.fqdn target) entries
                    (λ j w _ k. h j w k) (named target))
            | inr e ↦ rw (e, add_alias) h
          ]

  add_hosts-cname_entries :
      (ip : List ℕ) (domains : List Text) (source : HostFile)
      → (add_hosts addresses outside ip domains source).cname_entries ≡ source.cname_entries
  unfolding add_hosts
  add_hosts-cname_entries ip [] source = refl
  add_hosts-cname_entries ip (d ∷ domains) source =
      add_hosts-cname_entries ip domains (add_host addresses outside ip d source) ∙ kept
    where
      kept : (add_host addresses outside ip d source).cname_entries ≡ source.cname_entries
      kept =
          unfold add_host in
          elim (Bool-cases (contains d (codes "*"))) [
            | inl e ↦ rw (e, add_host)
            | inr e ↦ rw (e, add_host)
          ]

  add_domains-Entries :
      (address : Text) (domains : List Text) (source : HostFile)
      → Entries HasTarget source.cname_entries
      → Entries HasTarget (add_domains addresses outside address domains source).cname_entries
  unfolding add_domains
  add_domains-Entries address domains source h = elim (Option-cases (addresses.parse_ip address)) [
    | inl n ↦ rw (n, add_domains) (add_aliases-Entries address domains source.cname_entries h)
    | inr (ip, n) ↦
        rw (n, add_domains)
          (subst (Entries HasTarget) (sym (add_hosts-cname_entries ip domains _)) h)
  ]

  load_line-Entries :
      (line : Text) (source : HostFile)
      → Entries HasTarget source.cname_entries
      → Entries HasTarget (load_line addresses outside line source).cname_entries
  unfolding load_line
  load_line-Entries line source h =
      elim (Bool-cases (
        is_empty (trim_comments (to_lower (trim_space line)))
        || has_prefix (trim_comments (to_lower (trim_space line))) (codes "*"))) [
          | inl e ↦ rw (e, load_line) h
          | inr e ↦ elim (Bool-cases (contains_byte b' ' (condition_line line))) [
            | inl k ↦ rw (e, load_line, k) (add_domains-Entries _ _ source h)
            | inr k ↦ rw (e, load_line, k) h
          ]
        ]

  load_lines-Entries :
      (lines : List Text) (source : HostFile)
      → Entries HasTarget source.cname_entries
      → Entries HasTarget (load_lines addresses outside lines source).cname_entries
  unfolding load_lines
  load_lines-Entries [] source h = h
  load_lines-Entries (line ∷ lines) source h =
      load_lines-Entries lines (load_line addresses outside line source)
        (load_line-Entries line source h)

  respond_to_cname-ne-none :
      (name : Text) (source : HostFile)
      → Entries HasTarget source.cname_entries
      → respond_to_cname addresses outside name source ≢ none
  unfolding respond_to_cname
  respond_to_cname-ne-none name source h e =
      elim (Option-cases (lookup name source.cname_entries)) [
        | inl n ↦ some-ne-none (rw (respond_to_cname, n) at e)
        | inr (t, n) ↦ some-ne-none (rw (respond_to_cname, n, h name t n) at e)
      ]

  answers_for-ne-none :
      (name : Text) (qtype : ℕ) (source : HostFile)
      → Entries HasTarget source.cname_entries
      → answers_for addresses outside name qtype source ≢ none
  unfolding answers_for
  answers_for-ne-none name qtype source h e = elim (Bool-cases (qtype == 12)) [
    | inl k ↦ some-ne-none (rw (answers_for, k) at e)
    | inr k ↦ elim (Option-cases (respond_to_cname addresses outside name source)) [
      | inl n ↦ respond_to_cname-ne-none name source h n
      | inr (r, n) ↦ some-ne-none (rw (answers_for, k, n) at e)
    ]
  ]

  finish_answer-ne-none :
      (printing : Printing) (backer : Backer) (q : Question) (source : HostFile) (m : Message)
      (c : Context printing backer) (answers : Option (List Record))
      → answers ≢ none
      → finish_answer addresses outside printing backer q source m c answers ≢ none
  unfolding finish_answer
  finish_answer-ne-none printing backer q source m c none h e = h refl
  finish_answer-ne-none printing backer q source m c (some answers) h e = some-ne-none e

  answer-ne-none :
      (printing : Printing) (backer : Backer) (source : HostFile) (request : Message)
      (c : Context printing backer) (questions : List Question)
      → Entries HasTarget source.cname_entries
      → request.question ≡ questions
      → answer addresses outside printing backer source request c ≢ none
  unfolding answer
  answer-ne-none printing backer source request c [] h p e = some-ne-none (rw (answer, p) at e)
  answer-ne-none printing backer source request c (q ∷ questions) h p e =
      elim (Bool-cases (
        (q.qtype == 255)
        || ((q.qtype == 1) || ((q.qtype == 28) || ((q.qtype == 12) || (q.qtype == 5)))))) [
          | inl k ↦
              finish_answer-ne-none printing backer q source _ c
                (answers_for addresses outside (to_lower q.name) q.qtype source)
                (answers_for-ne-none (to_lower q.name) q.qtype source h) (rw (answer, p, k) at e)
          | inr k ↦ some-ne-none (rw (answer, p, k) at e)
        ]

  -- If a fully qualified name is never empty, then a source that is loaded from any lines answers
  -- every request without a panic.
  pub answer-load_array :
      (printing : Printing) (backer : Backer) (lines : List Text) (request : Message)
      (c : Context printing backer)
      → answer addresses outside printing backer (load_array addresses outside lines) request c
        ≢ none
  answer-load_array printing backer lines request c =
      answer-ne-none printing backer (load_array addresses outside lines) request c request.question
        targets refl
    where
      targets : Entries HasTarget (load_array addresses outside lines).cname_entries
      targets =
          unfold load_array in
          load_lines-Entries lines
            (record {
              file_path = codes "hosts";
              host_entries = [];
              cname_entries = [];
              reverse_lookup = [];
              dns_wildcards = [];
            })
            nothing_held
