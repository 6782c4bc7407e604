-- ===== src/Config/Settings/Bounds.antt =====
-- The durations that the program runs with.
use gudgeon.Prelude.{ℕ, ◌*◌, ◌≤◌, true, false, ◌≡◌, refl, ap, ◌∙◌, arith, Bool-cases, inl, inr, ◌⊎◌}
use gudgeon.Prelude.Text.{Text, codes}
use gudgeon.Util.Time.{ℤ, pos, negsuc, Parsed, duration, error, parse_duration}
use gudgeon.Config.Settings.{
  GudgeonDatabase, GudgeonMetrics, GudgeonQueryLog, millisecond, second, minute, hour, below, above,
  or_text, check_flush, check_interval, check_query_log_duration, verify_database, verify_metrics,
  verify_query_log,
}

-- The text is parsed as a duration of at least so many nanoseconds.
abbrev pub IsAtLeast : (Text → Parsed) → ℕ → Text → Type 0
IsAtLeast parse n s = (d : ℕ) × (parse_duration parse s ≡ duration (pos d)) × (n ≤ d)

Parsed-cases : (p : Parsed) → ((e : Text) × (p ≡ error e)) ⊎ ((d : ℤ) × (p ≡ duration d))
Parsed-cases (error e) = inl (e, refl)
Parsed-cases (duration d) = inr (d, refl)

not_below : (d : ℤ) (n : ℕ) → below d n ≡ false → (k : ℕ) × (d ≡ pos k) × (n ≤ k)
unfolding below
not_below (pos k) n h = (k, refl, ground (arith, h))
not_below (negsuc k) n h = absurd (true-ne-false h)
  where
    true-ne-false : true ≡ false → ⊥
    true-ne-false e = cc

above_bound : (d : ℤ) (n : ℕ) → above d n ≡ true → (k : ℕ) × (d ≡ pos k) × (n ≤ k)
unfolding above
above_bound (pos k) n h = (k, refl, ground (arith, h))
above_bound (negsuc k) n h = absurd (false-ne-true h)
  where
    false-ne-true : false ≡ true → ⊥
    false-ne-true e = cc

module _ (parse : Text → Parsed) where
  IsAtLeast-kept :
      (s : Text) (n m : ℕ) (d : ℤ)
      → parse_duration parse s ≡ duration d
      → ((k : ℕ) × (d ≡ pos k) × (m ≤ k))
      → n ≤ m
      → IsAtLeast parse n s
  IsAtLeast-kept s n m d q (k, e, h) b = (k, q ∙ ap duration e, omega (arith, h, b))

  check_flush-IsAtLeast :
      (s : Text)
      → IsAtLeast parse second (codes "1s")
      → IsAtLeast parse (500 * millisecond) (check_flush parse s).0
  unfolding check_flush
  check_flush-IsAtLeast s (k, p, h) = elim (Parsed-cases (parse_duration parse s)) [
    | inl (e, q) ↦ rw (check_flush, q) (k, p, omega (arith, h))
    | inr (d, q) ↦ elim (Bool-cases (above d minute)) [
      | inl a ↦
          rw (check_flush, q, a)
            (IsAtLeast-kept s (500 * millisecond) minute d q (above_bound d minute a) (omega arith))
      | inr a ↦ elim (Bool-cases (below d (500 * millisecond))) [
        | inl b ↦ rw (check_flush, q, a, b) (k, p, omega (arith, h))
        | inr b ↦
            rw (check_flush, q, a, b)
              (IsAtLeast-kept s (500 * millisecond) (500 * millisecond) d q
                (not_below d (500 * millisecond) b) (omega arith))
      ]
    ]
  ]

  check_interval-IsAtLeast :
      (s : Text)
      → IsAtLeast parse (15 * second) (codes "15s")
      → IsAtLeast parse second (check_interval parse s).0
  unfolding check_interval
  check_interval-IsAtLeast s (k, p, h) = elim (Parsed-cases (parse_duration parse s)) [
    | inl (e, q) ↦ rw (check_interval, q) (k, p, omega (arith, h))
    | inr (d, q) ↦ elim (Bool-cases (below d second)) [
      | inl b ↦ rw (check_interval, q, b) (k, p, omega (arith, h))
      | inr b ↦ elim (Bool-cases (above d (30 * minute))) [
        | inl a ↦
            rw (check_interval, q, b, a)
              (IsAtLeast-kept s second second d q (not_below d second b) (omega arith))
        | inr a ↦
            rw (check_interval, q, b, a)
              (IsAtLeast-kept s second second d q (not_below d second b) (omega arith))
      ]
    ]
  ]

  check_query_log_duration-IsAtLeast :
      (s : Text)
      → IsAtLeast parse (168 * hour) (codes "7d")
      → IsAtLeast parse hour (codes "1h")
      → IsAtLeast parse hour (check_query_log_duration parse s).0
  unfolding check_query_log_duration
  check_query_log_duration-IsAtLeast s (k, p, h) one =
      elim (Parsed-cases (parse_duration parse s)) [
        | inl (e, q) ↦ rw (check_query_log_duration, q) (k, p, omega (arith, h))
        | inr (d, q) ↦ elim (Bool-cases (below d hour)) [
          | inl b ↦ rw (check_query_log_duration, q, b) one
          | inr b ↦
              rw (check_query_log_duration, q, b)
                (IsAtLeast-kept s hour hour d q (not_below d hour b) (omega arith))
        ]
      ]

  -- If the default durations are parsed as what they say, then after the verification, whatever was
  -- configured, the database is flushed at intervals of 500 milliseconds or more, which is less than
  -- the default of one second, the metrics are recorded at intervals of a second or more, and the
  -- query log is kept for an hour or more.
  pub verify-IsAtLeast :
      (database : GudgeonDatabase) (metrics : GudgeonMetrics) (ql : GudgeonQueryLog)
      → IsAtLeast parse second (codes "1s")
      → IsAtLeast parse (15 * second) (codes "15s")
      → IsAtLeast parse hour (codes "1h")
      → IsAtLeast parse (168 * hour) (codes "7d")
      → IsAtLeast parse (500 * millisecond) ((verify_database parse database).0).flush
        × IsAtLeast parse second ((verify_metrics parse metrics).0).interval
        × IsAtLeast parse hour ((verify_query_log parse ql).0).duration
  unfolding verify_database verify_metrics verify_query_log
  verify-IsAtLeast database metrics ql flush interval one week = (
    check_flush-IsAtLeast (or_text database.flush (codes "1s")) flush,
    check_interval-IsAtLeast (or_text metrics.interval (codes "15s")) interval,
    check_query_log_duration-IsAtLeast (or_text ql.duration (codes "7d")) week one,
  )
