-- ===== src/Buffer/Inv.antt =====
-- CtrlrFx/Buffer.h: position and mark below the limit, the limit inside the array, and the calls
-- that keep them there.
use ctrlr_fx.Prelude.{
  ℕ, zero, suc, ◌+◌, ◌-◌, ◌^◌, ◌≤◌, ◌<◌, ◌≡◌, refl, List, [], ◌∷◌, Option, some, ◌>>=◌, ltb, leb,
  if◌then◌else◌, length, length-set, set, get_elem?, get_elem?-set_self, get_elem?-set_ne, ◌∙◌,
  ◌&&◌, arith,
}
use ctrlr_fx.Memory.{store_lem}
use ctrlr_fx.Buffer.{
  Buffer, fill_loop, fill, put_n, get_n, get_next, flip, clear, clear_to, rewind, mark, reset,
}

pub record IsValid {A : Type 0} (b : Buffer A) : Type 0 where
  pub storage : length b.buf ≡ b.end_
  pub within : b.pos ≤ b.lim
  pub limited : b.lim ≤ b.end_
  pub small : b.end_ < 2 ^ 31
  pub marked : b.mark_ ≤ b.lim

-- The calls that keep the position at the limit or below it. A block is transferred whole: `n` is the array's length.
pub data Call (A : Type 0) : Type 0 where
  puts_n gets_n : List A → Call A
  fills : A → Call A
  gets flips clears rewinds marks resets : Call A
  clears_to : ℕ → Call A

module _ {A : Type 0} where
  unfoldable pub call : Buffer A → Call A → Option (Buffer A)
  call b (puts_n arr) = put_n b arr (length arr) >>= λ r. some r.1
  call b (gets_n arr) = get_n b arr (length arr) >>= λ r. some r.2
  call b (fills v) = fill b v
  call b gets = get_next b >>= λ r. some r.1
  call b flips = some (flip b)
  call b clears = some (clear b)
  call b rewinds = some (rewind b)
  call b marks = some (mark b)
  call b resets = some (reset b)
  call b (clears_to n) = some (clear_to b n)

  unfoldable pub calls : Buffer A → List (Call A) → Option (Buffer A)
  calls b [] = some b
  calls b (c ∷ cs) = call b c >>= λ b'. calls b' cs

  -- `fill` ends with the position at the limit.
  fill_loop_lem :
      (rounds : ℕ) (b : Buffer A) (v : A)
      → IsValid b
      → rounds ≡ b.lim - b.pos
      → (buf' : List A) × (fill_loop rounds b v ≡ some (record b { buf = buf'; pos = b.lim }))
        × (length buf' ≡ length b.buf)
        × ((j : ℕ)
            → get_elem? buf' j ≡ (if leb b.pos j && ltb j b.lim then some v else get_elem? b.buf j))
  unfolding fill_loop
  fill_loop_lem zero b v w e = (b.buf, ground (arith, w), refl, λ j. ground (arith, w))
  fill_loop_lem (suc n) b v w e =
      let w' : IsValid (record b { buf = set b.buf b.pos v; pos = b.pos + 1 }) =
        omega (arith, w, length-set b.buf b.pos v) in
      let (buf', run, l, c) =
        fill_loop_lem n (record b { buf = set b.buf b.pos v; pos = b.pos + 1 }) v w'
          (omega arith) in
      (
        buf',
        ground (arith, w, store_lem b.buf b.pos v, run),
        l ∙ length-set b.buf b.pos v,
        λ j.
            ground
              (arith, w, c j, get_elem?-set_self b.buf b.pos v, get_elem?-set_ne b.buf b.pos j v),
      )

  -- `fill` puts the element into every cell from the position to the limit and nowhere else, and
  -- leaves the position at the limit.
  pub fill_lem :
      (b : Buffer A) (v : A)
      → IsValid b
      → (buf' : List A) × (fill b v ≡ some (record b { buf = buf'; pos = b.lim }))
        × (length buf' ≡ length b.buf)
        × ((j : ℕ)
            → get_elem? buf' j ≡ (if leb b.pos j && ltb j b.lim then some v else get_elem? b.buf j))
  unfolding fill
  fill_lem b v w = fill_loop_lem (b.lim - b.pos) b v w refl
