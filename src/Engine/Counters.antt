-- ===== src/Engine/Counters.antt =====
-- engine/metrics.go and engine/engine_init.go: the counters of the metrics, and the counters of rules
-- that the bootstrap fills and a changed list updates. An int64 is its remainder modulo 2 to the power
-- of 64; a counter that is not there yet is made with 0 by the first Get, and reads as one that is 0.
pub mod Totals
use gudgeon.Prelude.{
  ℕ, ◌+◌, ◌-◌, ◌%◌, ◌^◌, List, [], ◌∷◌, ◌++◌, Bool, true, false, ◌||◌, Option, none, some,
  if◌then◌else◌,
}
use gudgeon.Prelude.Text.{Text, codes, is_empty}
use gudgeon.Prelude.Dict.{Dict, lookup, insert}
use gudgeon.Config.Lists.{GudgeonList, short_name_of}
use gudgeon.Rule.Base.{Match, match_none, match_block, match_allow}
use gudgeon.Engine.Groups.{Result}

abbrev pub metrics_prefix : Text
metrics_prefix = codes "gudgeon-"

abbrev pub total_rules : Text
total_rules = codes "active-rules"

-- The counters, by their names with the prefix.
abbrev pub Metrics : Type 0
Metrics = Dict ℕ

unfoldable pub or_zero : Option ℕ → ℕ
or_zero none = 0
or_zero (some n) = n

-- `Get(name).Value()`, `Get(name).Set(v)`, `Get(name).Inc(v)` and `Get(name).Clear()`
unfoldable pub value : Text → Metrics → ℕ
value name m = or_zero (lookup (metrics_prefix ++ name) m)

unfoldable pub set : Text → ℕ → Metrics → Metrics
set name v m = insert (metrics_prefix ++ name) v m

unfoldable pub inc : Text → ℕ → Metrics → Metrics
inc name v m = set name ((value name m + v) % 2 ^ 64) m

unfoldable pub clear : Text → Metrics → Metrics
clear name m = set name 0 m

-- `-1 * n`
unfoldable pub negated : ℕ → ℕ
negated n = (2 ^ 64 - n) % 2 ^ 64

abbrev pub rules_list : Text → Text
rules_list short_name = codes "rules-list-" ++ short_name

-- The loop of the bootstrap over the lists and the counts of CreateStore, with the total; there is a
-- count for each list.
unfoldable pub count_lists : List (GudgeonList × ℕ) → ℕ → Metrics → ℕ × Metrics
count_lists [] total m = (total, m)
count_lists ((l, count) ∷ lists) total m =
    count_lists lists ((total + count) % 2 ^ 64)
      (inc (rules_list (short_name_of l)) count (clear (rules_list (short_name_of l)) m))

-- The counters of the bootstrap.
unfoldable pub count_rules : List (GudgeonList × ℕ) → Metrics → Metrics
count_rules lists m = let (total, counted) = count_lists lists 0 m in inc total_rules total counted

-- The listener for a changed list, on the short name and the count that the message has.
unfoldable pub list_changed : Text → ℕ → Metrics → Metrics
list_changed short_name count m =
    let name = rules_list short_name in
    let old = value name m in
    if is_empty short_name
    then m
    else inc name count (clear name (inc total_rules count (inc total_rules (negated old) m)))

-- `info.Result.Blocked || info.Result.Match == rule.MatchBlock`
unfoldable pub is_blocked : Result → Bool
is_blocked r =
    r.blocked || (elim r.match [ match_none ↦ false | match_block ↦ true | match_allow ↦ false ])

-- metrics.record, on the result, which may be nil, and the time that serving took.
unfoldable pub record_matched : Option GudgeonList → Metrics → Metrics
record_matched none m = m
record_matched (some l) m =
    inc (codes "rules-lifetime-matched-" ++ short_name_of l) 1
      (inc (codes "rules-session-matched-" ++ short_name_of l) 1 m)

unfoldable pub record_result : Option Result → Metrics → Metrics
unfolding is_blocked record_matched
record_result none m = m
record_result (some r) m =
    let hit = if r.cached then inc (codes "cached-queries") 1 m else m in
    if is_blocked r
    then record_matched r.match_list (
        inc (codes "blocked-interval-queries") 1
          (inc (codes "blocked-lifetime-queries") 1 (inc (codes "blocked-session-queries") 1 hit)))
    else hit

unfoldable pub record_info : Option Result → ℕ → Metrics → Metrics
unfolding record_result
record_info result milliseconds m = record_result result (
    inc (codes "query-time") milliseconds (
      inc (codes "total-interval-queries") 1
        (inc (codes "total-lifetime-queries") 1 (inc (codes "total-session-queries") 1 m))))
