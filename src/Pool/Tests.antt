-- ===== src/Pool/Tests.antt =====
-- A pool of two blocks of eight cells, with one block out.
use ctrlr_fx.Prelude.{ℕ, ◌≤◌, ◌≡◌, refl, List, [], ◌∷◌, some, true, replicate, count, arith}
use ctrlr_fx.Memory.{store}
use ctrlr_fx.MsgQueue
use ctrlr_fx.MsgQueue.{MsgQueue}
use ctrlr_fx.Pool.{MemPool, new_pool}
use ctrlr_fx.Pool.Blocks.{blocks}
use ctrlr_fx.Pool.Clients.{Users, begin, gets, Reach, here, next, exclusive_lem}

abbrev new_cells : ℕ → List ℕ
new_cells n = replicate n 0

abbrev two_blocks : MemPool
two_blocks = record {
  arr = 100;
  que = record {
    buf = 100 ∷ 108 ∷ [];
    cap = 2;
    put_ = 0;
    get_ = 0;
    sz = 2;
    own = true;
    slots = 0;
    items = 2;
  };
}

two_blocks-made : new_pool new_cells 100 2 8 ≡ some two_blocks
unfolding new_pool MsgQueue.tryput MsgQueue.resize store
two_blocks-made = refl

abbrev one_out : Users
one_out = record {
  que = record two_blocks.que { get_ = 1; sz = 1; slots = 1; items = 1 };
  held = 100 ∷ [];
}

one_out-Reach : Reach (begin two_blocks) one_out
unfolding MsgQueue.tryget
one_out-Reach = next here (gets (begin two_blocks) 100 one_out.que refl)

exclusive_lem_example :
    (count 100 one_out.held ≤ 1) × (count 100 one_out.held ≤ count 100 (blocks 100 8 2))
exclusive_lem_example =
    exclusive_lem new_cells 100 2 8 (omega arith) (omega arith) refl two_blocks two_blocks-made
      one_out one_out-Reach 100 (omega arith)
