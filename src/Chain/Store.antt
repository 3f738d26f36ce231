-- ===== src/Chain/Store.antt =====
-- `MemoryBlockStore`: include/amarian/chain/block_store.hpp and src/chain/block_store.cpp.
use amarian_amr.Base.{Bool, Option, List, [], nat_eq, list_eq, is_some, if◌then◌else◌}
use amarian_amr.Base.Table.{find, insert}
use amarian_amr.Primitives.Hash.{Hash256}
use amarian_amr.Primitives.Block.{Block}
use amarian_amr.Utxo.Undo.{BlockUndo}

pub record BlockStore : Type 0 where
  pub bodies : List (Hash256 × Block)
  pub undos : List (Hash256 × BlockUndo)

abbrev pub empty_store : BlockStore
empty_store = record { bodies = []; undos = [] }

unfoldable pub get_block : Hash256 → BlockStore → Option Block
unfolding find
get_block hash store = find hash store.bodies

unfoldable pub have_block : Hash256 → BlockStore → Bool
unfolding find
have_block hash store = is_some (find hash store.bodies)

unfoldable pub get_undo : Hash256 → BlockStore → Option BlockUndo
unfolding find
get_undo hash store = find hash store.undos

-- `emplace`: a body that is there stays.
unfoldable pub put_block : Hash256 → Block → BlockStore → BlockStore
unfolding find insert
put_block hash block store =
    if is_some (find hash store.bodies)
    then store
    else record store { bodies = insert hash block store.bodies }

-- `insert_or_assign`.
unfoldable pub put_undo : Hash256 → BlockUndo → BlockStore → BlockStore
unfolding insert
put_undo hash undo store = record store { undos = insert hash undo store.undos }
