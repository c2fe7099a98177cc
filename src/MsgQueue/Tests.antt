-- ===== src/MsgQueue/Tests.antt =====
-- CtrlrFx/MsgQueue.h on queues of two cells.
use ctrlr_fx.Prelude.{ℕ, ◌≤◌, ◌<◌, ◌≡◌, refl, List, [], ◌∷◌, ◌++◌, some, false, length, arith}
use ctrlr_fx.Memory.{store}
use ctrlr_fx.MsgQueue.{MsgQueue, destroy, set_buffer, write_cell, read_cell}
use ctrlr_fx.MsgQueue.Holds.{Holds, Idle}
use ctrlr_fx.MsgQueue.Threads.{
  System, put_acquires, put_writes, put_posts, get_acquires, Reach, here, next, start, written_lem,
  put_runs, get_runs,
}

-- The value 7 sits in the second cell.
abbrev one_held : MsgQueue ℕ
one_held = record {
  buf = 3 ∷ 7 ∷ [];
  cap = 2;
  put_ = 0;
  get_ = 1;
  sz = 1;
  own = false;
  slots = 1;
  items = 1;
}

one_held-Holds : Holds one_held (7 ∷ [])
one_held-Holds = record {
  storage = refl;
  small = omega arith;
  get_in = omega arith;
  counted = refl;
  room = omega arith;
  put_at = refl;
  cells = λ i k. ground (arith, k);
}

one_held-Idle : Idle one_held (7 ∷ [])
one_held-Idle = record { holds = one_held-Holds; free = refl; stored = refl }

abbrev idle : System ℕ
unfolding start set_buffer destroy
idle = start (0 ∷ 0 ∷ []) false

-- A thread with 5 and one with 6 hold a free cell each; the one with 6 has written.
abbrev cells_taken : System ℕ
unfolding start set_buffer destroy
cells_taken =
    let s = idle in record s { queue = record s.queue { slots = 0 }; putting = 6 ∷ 5 ∷ [] }

abbrev one_written : System ℕ
unfolding start set_buffer destroy
one_written =
    let s = cells_taken in
    record s {
      queue = record s.queue { buf = 6 ∷ 0 ∷ []; put_ = 1; sz = 1 };
      putting = 5 ∷ [];
      written = 6 ∷ [];
      to_post_item = 1;
    }

abbrev item_taken : System ℕ
unfolding start set_buffer destroy
item_taken = let s = one_written in record s { to_post_item = 0; getting = 1 }

cells_taken-Reach : Reach idle cells_taken
unfolding start set_buffer destroy
cells_taken-Reach = next (next here (put_acquires idle 5 (omega arith))) (
    put_acquires (record idle { queue = record idle.queue { slots = 1 }; putting = 5 ∷ [] }) 6
      (omega arith))

one_written-Reach : Reach idle one_written
unfolding start set_buffer destroy write_cell store
one_written-Reach =
    next cells_taken-Reach (put_writes cells_taken [] 6 (5 ∷ []) one_written.queue refl refl)

item_taken-Reach : Reach idle item_taken
unfolding start set_buffer destroy
item_taken-Reach = next (next one_written-Reach (put_posts one_written (omega arith))) (
    get_acquires
      (record one_written { queue = record one_written.queue { items = 1 }; to_post_item = 0 })
      (omega arith))

written_lem_example :
    (held : List ℕ) × (6 ∷ [] ≡ [] ++ held) × (length held ≤ 2) × (1 ≡ length held)
unfolding start set_buffer destroy
written_lem_example =
    written_lem (0 ∷ 0 ∷ []) false (omega arith) (omega arith) one_written one_written-Reach

put_runs_example : (q : MsgQueue ℕ) × (write_cell one_written.queue 5 ≡ some q) × (1 < 2)
unfolding start set_buffer destroy
put_runs_example =
    put_runs (0 ∷ 0 ∷ []) false (omega arith) (omega arith) one_written one_written-Reach [] [] 5
      refl

get_runs_example :
    (x : ℕ) × (held : List ℕ) × (q : MsgQueue ℕ) × (read_cell item_taken.queue ≡ some (x, q))
    × (6 ∷ [] ≡ [] ++ (x ∷ held))
unfolding start set_buffer destroy
get_runs_example =
    get_runs (0 ∷ 0 ∷ []) false (omega arith) (omega arith) item_taken item_taken-Reach
      (omega arith)
