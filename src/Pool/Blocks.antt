-- ===== src/Pool/Blocks.antt =====
-- What a new pool holds: its blocks, one after the other.
use ctrlr_fx.Prelude.{
  ℕ, zero, suc, ◌+◌, ◌*◌, ◌^◌, ◌≤◌, ◌<◌, ◌≡◌, refl, sym, ap, subst, ◌∙◌, List, [], ◌∷◌, ◌++◌,
  append-nil, append_assoc, some, Bool, true, false, ◌==◌, if◌then◌else◌, length, length-append,
  count, arith,
}
use ctrlr_fx.MsgQueue.{MsgQueue}
use ctrlr_fx.MsgQueue.Holds.{Idle, tryput_lem, tryget_lem, tryget-none, resize-Idle}
use ctrlr_fx.Pool.{MemPool, empty_queue, fill, new_queue, new_pool, new_pool_over, assign, dealloc}

-- The addresses from one on.
pub blocks : ℕ → ℕ → ℕ → List ℕ
blocks a sz zero = []
blocks a sz (suc n) = a ∷ blocks (a + sz) sz n

pub length-blocks : (a sz n : ℕ) → length (blocks a sz n) ≡ n
unfolding blocks
length-blocks a sz zero = refl
length-blocks a sz (suc n) = ap suc (length-blocks (a + sz) sz n)

blocks_above : (k a sz n : ℕ) → k < a → count k (blocks a sz n) ≡ 0
unfolding blocks count
blocks_above k a sz zero h = refl
blocks_above k a sz (suc n) h = ground (arith, blocks_above k (a + sz) sz n)

-- Blocks of at least a cell have different addresses.
pub count-blocks : (k a sz n : ℕ) → 0 < sz → count k (blocks a sz n) ≤ 1
unfolding blocks count
count-blocks k a sz zero h = omega arith
count-blocks k a sz (suc n) h =
    ground (arith, count-blocks k (a + sz) sz n h, blocks_above k (a + sz) sz n)

pub fill_lem :
    (arr sz : ℕ) (q : MsgQueue ℕ) (xs : List ℕ) (i rounds : ℕ)
    → Idle q xs
    → length xs + rounds ≤ q.cap
    → (q' : MsgQueue ℕ) × (fill arr sz q i rounds ≡ some q')
      × Idle q' (xs ++ blocks (arr + i * sz) sz rounds)
      × (q'.cap ≡ q.cap)
unfolding fill blocks
fill_lem arr sz q xs i zero h room = (q, refl, subst (Idle q) (sym (append-nil xs)) h, refl)
fill_lem arr sz q xs i (suc rounds) h room =
    let (q1, run, h1, c) = tryput_lem q xs (arr + i * sz) h in
    let free : length xs == q.cap ≡ false = ground (arith, room) in
    let h1' : Idle q1 (xs ++ (arr + i * sz) ∷ []) =
      subst (λ b. Idle q1 (if b then xs else xs ++ (arr + i * sz) ∷ [])) free h1 in
    let (q', runs, h', c') =
      fill_lem arr sz q1 (xs ++ (arr + i * sz) ∷ []) (i + 1) rounds h1'
        (omega (arith, room, c, length-append xs ((arr + i * sz) ∷ []))) in
    (
      q',
      ground (arith, run, free, runs),
      subst (Idle q')
          (append_assoc xs ((arr + i * sz) ∷ []) (blocks (arr + (i + 1) * sz) sz rounds)
            ∙ ap (λ a. xs ++ (arr + i * sz) ∷ blocks a sz rounds) (grind arith))
          h',
      c' ∙ c,
    )

pub new_pool_lem :
    (new_array : ℕ → List ℕ) (found n sz : ℕ)
    → 0 < n
    → n < 2 ^ 64
    → length (new_array n) ≡ n
    → (q : MsgQueue ℕ) × (new_pool new_array found n sz ≡ some (record { arr = found; que = q }))
      × Idle q (blocks found sz n)
      × (q.cap ≡ n)
unfolding new_pool
new_pool_lem new_array found n sz pos small e =
    let (idle, c) = resize-Idle new_array (empty_queue) n pos small e in
    let (q, run, h, c') =
      fill_lem found sz (new_queue new_array n) [] 0 n idle (omega (arith, c)) in
    (q, ground (arith, run), subst (λ a. Idle q (blocks a sz n)) (omega arith) h, c' ∙ c)

-- A pool over memory that is there hands out the blocks of that memory where it is to own it, and
-- otherwise blocks from the null pointer on.
pub new_pool_over_lem :
    (new_array : ℕ → List ℕ) (arr n sz : ℕ) (own : Bool)
    → 0 < n
    → n < 2 ^ 64
    → length (new_array n) ≡ n
    → (p : MemPool) × (new_pool_over new_array arr n sz own ≡ some p)
      × Idle p.que (blocks (if own then arr else 0) sz n)
unfolding new_pool_over assign
new_pool_over_lem new_array arr n sz own pos small e =
    let (idle, c) = resize-Idle new_array empty_queue n pos small e in
    let a = (if own then arr else 0) in
    let (q, run, h, c') = fill_lem a sz (new_queue new_array n) [] 0 n idle (omega (arith, c)) in
    (
      record { arr = a; que = q },
      ground (arith, run),
      subst (λ b. Idle q (blocks b sz n)) (omega arith) h,
    )

-- `dealloc` of a pool that owns its objects deletes those that are in it, each once, and none that
-- a client has.
pub dealloc_lem :
    (q : MsgQueue ℕ) (xs : List ℕ)
    → Idle q xs
    → (q' : MsgQueue ℕ) × (dealloc (suc (length xs)) q true ≡ some (xs, q')) × Idle q' []
unfolding dealloc
dealloc_lem q [] h = (q, ground (arith, tryget-none q h), h)
dealloc_lem q (x ∷ xs) h =
    let (q1, _, run, h1, c) = tryget_lem q x xs h in
    let (q', runs, h') = dealloc_lem q1 xs h1 in (q', ground (arith, run, runs), h')
