-- ===== src/Util/Strings.antt =====
-- util/strings.go: membership, prefixes, comments.
use gudgeon.Prelude.{List, [], ◌∷◌, Bool, false, ◌||◌, if◌then◌else◌}
use gudgeon.Prelude.Text.{Text, codes, same, has_prefix, contains, before}

-- StringIn
unfoldable pub string_in : Text → List Text → Bool
string_in value [] = false
string_in value (test ∷ rest) = same value test || string_in value rest

-- StartsWithAny
unfoldable pub starts_with_any : Text → List Text → Bool
starts_with_any value [] = false
starts_with_any value (test ∷ rest) = has_prefix value test || starts_with_any value rest

abbrev pub default_comment_prefixes : List Text
default_comment_prefixes = codes "#" ∷ codes "//" ∷ []

-- The loop that chops the line at each prefix in turn.
unfoldable pub chop_comments : Text → List Text → Text
chop_comments line [] = line
chop_comments line (prefix ∷ rest) =
    chop_comments (if contains line prefix then before line prefix else line) rest

-- TrimComments with the default prefixes, which is how every caller calls it.
unfoldable pub trim_comments : Text → Text
unfolding starts_with_any chop_comments
trim_comments line =
    if starts_with_any line default_comment_prefixes
    then []
    else chop_comments line default_comment_prefixes
