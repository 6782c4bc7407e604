-- ===== src/Config/Groups.antt =====
-- config/config.go: groups, consumers, resolvers and sources as the configuration holds them.
use gudgeon.Prelude.{List, Bool, Option}
use gudgeon.Prelude.Text.{Text}

-- GudgeonGroup; `none` is the nil pointer to tags.
pub record GudgeonGroup : Type 0 where
  pub name : Text
  pub inherit : List Text
  pub resolvers : List Text
  pub lists : List Text
  pub tags : Option (List Text)

-- GudgeonMatchRange
pub record GudgeonMatchRange : Type 0 where
  pub start : Text
  pub end : Text

-- GudgeonMatch; `none` is the nil range.
pub record GudgeonMatch : Type 0 where
  pub ip : Text
  pub range : Option GudgeonMatchRange
  pub net : Text

-- GudgeonConsumer, with matches that are not nil
pub record GudgeonConsumer : Type 0 where
  pub name : Text
  pub block : Bool
  pub groups : List Text
  pub matches : List GudgeonMatch

-- GudgeonSource, less its options
pub record GudgeonSource : Type 0 where
  pub name : Text
  pub specs : List Text
  pub load_balance : Bool

-- GudgeonResolver
pub record GudgeonResolver : Type 0 where
  pub name : Text
  pub domains : List Text
  pub skip_domains : List Text
  pub search : List Text
  pub hosts : List Text
  pub sources : List Text
