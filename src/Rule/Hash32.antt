-- ===== src/Rule/Hash32.antt =====
-- rule/store_hash32.go: the hash store at a hash of 32 bits. The file is store_hash.go with another
-- width, and the widths differ in nothing but the hash function.
use gudgeon.Prelude.{ℕ, ◌%◌}
use gudgeon.Prelude.Text.{Text}
use gudgeon.Rule.Base.{StoreOps}
use gudgeon.Rule.Hash
use gudgeon.Rule.Hash.{HashStore}

-- `sum` is murmur3's StringSum32, which is not the repository's.
module _ (sum : Text → ℕ) {D : Type 0} (inner : StoreOps D) where
  -- A hash as the keys of the sets hold it.
  unfoldable pub sum32 : Text → ℕ
  sum32 t = sum t % 4294967296

  -- The methods of hashStore32.
  unfoldable pub hash32_ops : StoreOps (HashStore D)
  unfolding sum32
  hash32_ops = Hash.ops sum32 inner
