-- ===== src/BinStream/MemStream/Areas.antt =====
-- The unread part of the get area and the free part of the put area.
use ctrlr_fx.Prelude.{
  ℕ, ◌+◌, ◌-◌, ◌≤◌, ◌<◌, ◌≡◌, sym, ap, ◌∙◌, List, [], ◌++◌, length, take, drop, take-append-drop,
  drop-take-append, take_prefix, append_assoc, length-append, length-take, length-drop, arith,
}
use ctrlr_fx.BinStream.StreamBuf.{StreamBuf}

pub record IsReadable (b : StreamBuf) : Type 0 where
  pub non_null : 0 < b.gbegin_
  pub begun : b.gbegin_ ≤ b.gnext_
  pub within : b.gnext_ ≤ b.gend_
  pub stored : b.gend_ ≤ length b.mem

pub record IsWritable (b : StreamBuf) : Type 0 where
  pub non_null : 0 < b.pbegin_
  pub begun : b.pbegin_ ≤ b.pnext_
  pub within : b.pnext_ ≤ b.pend_
  pub stored : b.pend_ ≤ length b.mem

-- The bytes between two addresses.
abbrev pub between : List ℕ → ℕ → ℕ → List ℕ
between mem a z = take (z - a) (drop a mem)

abbrev pub unread : StreamBuf → List ℕ
unread b = between b.mem b.gnext_ b.gend_

abbrev pub written : StreamBuf → List ℕ
written b = between b.mem b.pbegin_ b.pnext_

abbrev pub room : StreamBuf → ℕ
room b = b.pend_ - b.pnext_

-- A memory with a block put at an address.
abbrev pub put_at : List ℕ → ℕ → List ℕ → List ℕ
put_at mem a block = take a mem ++ (block ++ drop (a + length block) mem)

pub put_at_nil : (mem : List ℕ) (a : ℕ) → put_at mem a [] ≡ mem
put_at_nil mem a = ap (λ m. take a mem ++ drop m mem) (omega arith) ∙ take-append-drop a mem

pub length-put_at :
    (mem : List ℕ) (a : ℕ) (block : List ℕ)
    → a + length block ≤ length mem
    → length (put_at mem a block) ≡ length mem
length-put_at mem a block h = omega (
  arith,
  length-append (take a mem) (block ++ drop (a + length block) mem),
  length-append block (drop (a + length block) mem),
  length-take a mem,
  length-drop (a + length block) mem,
)

-- What was written before the block, and the block.
pub between-put_at :
    (mem : List ℕ) (a p z : ℕ) (block : List ℕ)
    → a ≤ p
    → p ≤ length mem
    → z ≡ p + length block
    → between (put_at mem p block) a z ≡ between mem a p ++ block
between-put_at mem a p z block h k e =
    ap (take (z - a)) (
      drop-take-append a p mem (block ++ drop (p + length block) mem) h k
      ∙ sym (append_assoc (between mem a p) block (drop (p + length block) mem)))
    ∙ take_prefix (z - a) (between mem a p ++ block) (drop (p + length block) mem) (
        omega (
          arith,
          length-append (between mem a p) block,
          length-take (p - a) (drop a mem),
          length-drop a mem,
        ))
