-- ===== src/Rule/Line.antt =====
-- rule/rule.go: the rule text of a line.
use gudgeon.Prelude.{Bool, ◌&&◌, ◌||◌, if◌then◌else◌}
use gudgeon.Prelude.Text.{
  Text, codes, contains, has_prefix, has_suffix, contains_byte, after_byte, trim_space,
}
use gudgeon.Util.Strings.{trim_comments}

abbrev pub rule_regex : Text
rule_regex = codes "/"

abbrev pub rule_glob : Text
rule_glob = codes "*"

-- ParseLine
unfoldable pub parse_line : Text → Text
parse_line line =
    let text = trim_space (trim_comments line) in
    if contains_byte b' ' text then after_byte b' ' text else text

-- IsComplex
unfoldable pub is_complex : Text → Bool
is_complex text =
    contains text rule_glob || (has_prefix text rule_regex && has_suffix text rule_regex)
