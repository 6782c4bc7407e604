-- ===== src/Config/Lists.antt =====
-- config/config.go and config/config_init.go: the record of a rule list, its names and its
-- completion.
use gudgeon.Prelude.{
  ℕ, List, [], ◌∷◌, Bool, true, false, ◌&&◌, ◌||◌, Option, none, some, leb, if◌then◌else◌,
}
use gudgeon.Prelude.Text.{Text, codes, is_empty, to_lower, equal_fold}

-- ListType: BLOCK is the zero value.
pub data ListType : Type 0 where
  allow block : ListType

-- GudgeonList; `regex` and `tags` are pointers, `none` is nil.
pub record GudgeonList : Type 0 where
  pub name : Text
  pub short_name : Text
  pub type_name : Text
  pub parsed_type : ListType
  pub regex : Option Bool
  pub tags : Option (List Text)
  pub source : Text

-- CanonicalName
unfoldable pub canonical_name : GudgeonList → Text
canonical_name list = if is_empty list.name then list.source else list.name

-- ShortName
unfoldable pub short_name_of : GudgeonList → Text
short_name_of list = if is_empty list.short_name then list.name else list.short_name

-- SafeTags; the empty list is returned as it is.
unfoldable pub safe_tags : Option (List Text) → List Text
safe_tags none = codes "default" ∷ []
safe_tags (some tags) = tags

-- A byte that the expression [^a-zA-Z0-9] does not match.
unfoldable pub is_alphanumeric : ℕ → Bool
is_alphanumeric c =
    (leb b'a' c && leb c b'z') || ((leb b'A' c && leb c b'Z') || (leb b'0' c && leb c b'9'))

-- alphaRegex.ReplaceAllString(s, "_"): each longest run of other bytes becomes one "_". The flag
-- says whether the byte before belonged to such a run.
unfoldable pub replace_runs : Bool → Text → Text
unfolding is_alphanumeric
replace_runs inside [] = []
replace_runs inside (c ∷ s) =
    let run = replace_runs true s in
    let plain = replace_runs false s in
    if is_alphanumeric c then c ∷ plain else if inside then run else b'_' ∷ run

-- GudgeonList.VerifyAndInit, on a list that is not nil
unfoldable pub verify_and_init : GudgeonList → GudgeonList
unfolding canonical_name replace_runs
verify_and_init list = record list {
  short_name = replace_runs false (canonical_name list);
  regex = elim list.regex [ none ↦ some false | some b ↦ some b ];
  type_name = if equal_fold (codes "allow") list.type_name then list.type_name else codes "block";
  parsed_type = if equal_fold (codes "allow") list.type_name then allow else block;
  name = to_lower list.name;
}
