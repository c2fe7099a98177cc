-- ===== src/Pool/Clients.antt =====
-- The clients of a pool, who get blocks and put back blocks that they have, in any order. Each call
-- runs alone; the threads within one are those of MsgQueue/Threads.
use ctrlr_fx.Prelude.{
  ℕ, ◌+◌, ◌^◌, ◌≤◌, ◌<◌, ◌≡◌, refl, sym, ap, subst, ◌∙◌, List, [], ◌∷◌, ◌++◌, Option, none, some,
  Bool, true, false, ◌==◌, if◌then◌else◌, length, length-append, count, remove, count-remove,
  count-append, length-remove, count-le-length, some_injective, ◌⊎◌, inl, inr, arith,
}
use ctrlr_fx.MsgQueue
use ctrlr_fx.MsgQueue.{MsgQueue}
use ctrlr_fx.MsgQueue.Holds.{Idle, tryput_lem, tryget_lem, tryget-none}
use ctrlr_fx.Pool.{MemPool, new_pool}
use ctrlr_fx.Pool.Blocks.{blocks, length-blocks, count-blocks, new_pool_lem}

count_first : (x : ℕ) (xs : List ℕ) → 0 < count x (x ∷ xs)
unfolding count
count_first x xs = ground arith

-- The queue of a pool, and the blocks that clients have.
pub record Users : Type 0 where
  pub que : MsgQueue ℕ
  pub held : List ℕ

abbrev pub begin : MemPool → Users
begin p = record { que = p.que; held = [] }

pub data Step : Users → Users → Type 0 where
  -- `tryget`, and `get` where it need not wait.
  gets :
      (s : Users) (k : ℕ) (q : MsgQueue ℕ)
      → MsgQueue.tryget s.que ≡ some (some k, q)
      → Step s (record { que = q; held = k ∷ s.held })
  misses :
      (s : Users) (q : MsgQueue ℕ)
      → MsgQueue.tryget s.que ≡ some (none, q)
      → Step s (record s { que = q })
  -- `put` of a block that a client has.
  puts :
      (s : Users) (k : ℕ) (q : MsgQueue ℕ)
      → 0 < count k s.held
      → MsgQueue.tryput s.que k ≡ some (true, q)
      → Step s (record { que = q; held = remove k s.held })

pub data Reach : Users → Users → Type 0 where
  here : {s : Users} → Reach s s
  next : {s t u : Users} → Reach s t → Step t u → Reach s u

-- The blocks `all` are in the pool or with a client.
record Shared (all : List ℕ) (s : Users) : Type 0 where
  free : List ℕ
  idle : Idle s.que free
  capacity : s.que.cap ≡ length all
  whole : length free + length s.held ≡ length all
  each : (a : ℕ) → count a free + count a s.held ≡ count a all

abbrev with_block : Option ℕ → List ℕ → List ℕ
with_block none held = held
with_block (some k) held = k ∷ held

module _ (all : List ℕ) where
  -- What `tryget` does when those blocks are in the pool.
  got :
      (s : Users) (v : Shared all s) (free : List ℕ)
      → v.free ≡ free
      → (r : Option ℕ × MsgQueue ℕ) → MsgQueue.tryget s.que ≡ some r
      → Shared all (record { que = r.1; held = with_block r.0 s.held })
  unfolding count
  got s v [] f r e =
      subst
        (λ (p : Option ℕ × MsgQueue ℕ).
          Shared all (record { que = p.1; held = with_block p.0 s.held }))
        (some_injective (sym (tryget-none s.que (subst (Idle s.que) f v.idle)) ∙ e)) v
  got s v (x ∷ xs) f r e =
      let (q', _, run, i, c) = tryget_lem s.que x xs (subst (Idle s.que) f v.idle) in
      subst
        (λ (p : Option ℕ × MsgQueue ℕ).
          Shared all (record { que = p.1; held = with_block p.0 s.held }))
        (some_injective (sym run ∙ e))
        (record {
          free = xs;
          idle = i;
          capacity = c ∙ v.capacity;
          whole = omega (arith, v.whole, ap length f);
          each = λ (a : ℕ). ground (arith, v.each a, ap (count a) f);
        })

  -- While a client has a block, the pool has room for it.
  room_lem :
      (s : Users) (v : Shared all s) (k : ℕ)
      → 0 < count k s.held
      → length v.free == s.que.cap ≡ false
  room_lem s v k h = ground (arith, h, v.whole, v.capacity, count-le-length k s.held)

  put_back :
      (s : Users) (v : Shared all s) (k : ℕ)
      → 0 < count k s.held
      → (q : MsgQueue ℕ) × (MsgQueue.tryput s.que k ≡ some (true, q))
        × Shared all (record { que = q; held = remove k s.held })
  unfolding count
  put_back s v k h =
      let (q, run, i, c) = tryput_lem s.que v.free k v.idle in
      let room = room_lem s v k h in
      (
        q,
        ground (arith, run, room),
        record {
          free = v.free ++ k ∷ [];
          idle = subst (λ b. Idle q (if b then v.free else v.free ++ k ∷ [])) room i;
          capacity = c ∙ v.capacity;
          whole = omega (arith, v.whole, length-append v.free (k ∷ []), length-remove k s.held h);
          each = λ (a : ℕ).
              ground (arith, v.each a, count-append a v.free (k ∷ []), count-remove a k s.held h);
        },
      )

  Step-Shared : {s t : Users} → Step s t → Shared all s → Shared all t
  Step-Shared (gets s k q e) v = got s v v.free refl (some k, q) e
  Step-Shared (misses s q e) v = got s v v.free refl (none, q) e
  Step-Shared (puts s k q h e) v =
      let (q', run, v') = put_back s v k h in
      subst (λ r. Shared all (record { que = r; held = remove k s.held }))
        (ap (λ (r : Bool × MsgQueue ℕ). r.1) (some_injective (sym run ∙ e))) v'

  Reach-Shared : {s t : Users} → Reach s t → Shared all s → Shared all t
  Reach-Shared here v = v
  Reach-Shared (next r st) v = Step-Shared st (Reach-Shared r v)

-- A pool as its constructor makes it, and what its clients can reach.
module _ (new_array : ℕ → List ℕ) (found n sz : ℕ) (some_ : 0 < n) (small : n < 2 ^ 64)
    (stored : length (new_array n) ≡ n) (p : MemPool)
    (made : new_pool new_array found n sz ≡ some p) (s : Users) (run : Reach (begin p) s) where
  shared : Shared (blocks found sz n) s
  unfolding count
  shared =
      let (q, run', i, c) = new_pool_lem new_array found n sz some_ small stored in
      Reach-Shared (blocks found sz n)
        (subst (λ (m : MemPool). Reach (begin m) s) (some_injective (sym made ∙ run')) run)
        (record {
          free = blocks found sz n;
          idle = i;
          capacity = c ∙ sym (length-blocks found sz n);
          whole = omega arith;
          each = λ (a : ℕ). omega arith;
        })

  -- In any order of calls by clients who put back only blocks that they have, on a memory pool of
  -- n blocks of at least a cell, no block is with two clients, and what a client has is a block of
  -- the pool.
  pub exclusive_lem :
      (k : ℕ) → 0 < sz → (count k s.held ≤ 1) × (count k s.held ≤ count k (blocks found sz n))
  exclusive_lem k pos = omega (arith, shared.each k, count-blocks k found sz n pos)

  -- In the same way, tryget hands out a block of the pool that no client has, or nothing when all
  -- n are out, and does not fault.
  pub get_lem :
      0 < sz
      → ((k : ℕ) × (q : MsgQueue ℕ) × (MsgQueue.tryget s.que ≡ some (some k, q))
          × (count k s.held ≡ 0)
          × (count k (blocks found sz n) ≡ 1))
        ⊎ ((MsgQueue.tryget s.que ≡ some (none, s.que)) × (length s.held ≡ n))
  get_lem pos = from shared.free refl
    where
      from :
          (free : List ℕ)
          → shared.free ≡ free
          → ((k : ℕ) × (q : MsgQueue ℕ) × (MsgQueue.tryget s.que ≡ some (some k, q))
              × (count k s.held ≡ 0)
              × (count k (blocks found sz n) ≡ 1))
            ⊎ ((MsgQueue.tryget s.que ≡ some (none, s.que)) × (length s.held ≡ n))
      from [] f = inr (
        tryget-none s.que (subst (Idle s.que) f shared.idle),
        omega (arith, shared.whole, ap length f, length-blocks found sz n),
      )
      from (x ∷ xs) f =
          let (q, _, got_, i, c) = tryget_lem s.que x xs (subst (Idle s.que) f shared.idle) in
          let here_ : 0 < count x (x ∷ xs) = count_first x xs in
          inl (
            x,
            q,
            got_,
            omega (arith, shared.each x, count-blocks x found sz n pos, ap (count x) f, here_),
            omega (arith, shared.each x, count-blocks x found sz n pos, ap (count x) f, here_),
          )

  -- A client that has a block can put it back at once.
  pub put_lem :
      (k : ℕ) → 0 < count k s.held → (q : MsgQueue ℕ) × (MsgQueue.tryput s.que k ≡ some (true, q))
  put_lem k h = let (q, run', _) = put_back (blocks found sz n) s shared k h in (q, run')
