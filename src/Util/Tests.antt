-- ===== src/Util/Tests.antt =====
-- Runs of the helpers on small inputs.
use gudgeon.Prelude.{◌++◌, ◌*◌, ◌≢◌, [], ◌∷◌, none, ◌≡◌, refl, arith}
use gudgeon.Prelude.Text.{Text, codes, is_space, ends_with}
use gudgeon.Util.Domains.{domain_list, domain_loop, domain_fuel}
use gudgeon.Util.Time.{Parsed, error, decimal, parse_duration}
use gudgeon.Util.Time.Units.{week, letter, hours_in, parse_duration-decimal}
use gudgeon.Util.Domains.Parents.{parents, domain_list-eq-parents, domain_loop-fuel_enough}

abbrev name : Text
name = codes "a.bc.de"

domain_list-eq-parents_example :
    domain_list (codes "a.bc.de") ≡ codes "a.bc.de" ∷ parents (codes "a.bc.de")
unfolding is_space ends_with
domain_list-eq-parents_example =
    domain_list-eq-parents name (refl, (refl, (refl, (refl, (refl, (refl, (refl, tt))))))) refl
      (omega arith)

domain_loop-fuel_enough_example : domain_loop (domain_fuel name) name [] ≢ none
domain_loop-fuel_enough_example = domain_loop-fuel_enough name

-- A parser that knows no text.
abbrev unknown : Text → Parsed
unknown s = error s

parse_duration-decimal_example :
    parse_duration unknown (decimal 14 ++ b'w' ∷ []) ≡ unknown (decimal (14 * 168) ++ b'h' ∷ [])
unfolding letter hours_in
parse_duration-decimal_example =
    parse_duration-decimal unknown week 14 (omega arith) (unfold hours_in in omega arith)
