-- ===== src/BinStream/MemStream/Transfers.antt =====
-- Blocks of bytes out of and into a memory stream.
use ctrlr_fx.Prelude.{
  ℕ, zero, suc, ◌+◌, ◌-◌, ◌≤◌, ◌≡◌, refl, sym, ap, ◌∙◌, min, List, [], ◌∷◌, ◌++◌, Option, some, inl,
  inr, length, take, drop, take-take, append-nil, length_zero, length-take, length-drop, take_all,
  take_nil, drop_all, arith, ℕ-cases,
}
use ctrlr_fx.Memory.{load_block, store_block}
use ctrlr_fx.BinStream.StreamBuf.{StreamBuf, get_rounds, put_rounds, sgetn, sputn, uflow}
use ctrlr_fx.BinStream.MemStream.{underflow, overflow}
use ctrlr_fx.BinStream.MemStream.Areas.{
  IsReadable, IsWritable, unread, written, room, put_at, put_at_nil, length-put_at, between-put_at,
}

get_none : (fuel : ℕ) (b : StreamBuf) → get_rounds underflow fuel b tt 0 ≡ some ([], b, tt)
unfolding get_rounds
get_none zero b = refl
get_none (suc fuel) b = ground arith

-- At the end of the area the loop gets nothing.
get_end :
    (fuel : ℕ) (b : StreamBuf) (n : ℕ)
    → b.gend_ ≤ b.gnext_
    → get_rounds underflow fuel b tt n ≡ some ([], b, tt)
unfolding get_rounds uflow
get_end zero b n h = refl
get_end (suc fuel) b n h = ground arith

take-nothing : (n m : ℕ) (xs : List ℕ) → m ≡ 0 → take n (take m xs) ≡ []
take-nothing n m xs e =
    length_zero (take n (take m xs)) (omega (arith, length-take n (take m xs), length-take m xs))

got :
    (b : StreamBuf) {xs ys : List ℕ} {g h : ℕ}
    → xs ≡ ys
    → g ≡ h
    → ◌≡◌ {A = Option (List ℕ × StreamBuf × Unit {0})}
        (some (xs, record b { gnext_ = g }, tt))
        (some (ys, record b { gnext_ = h }, tt))
got b p q = λ i. some (p i, record b { gnext_ = q i }, tt)

get_rounds_lem :
    (fuel : ℕ) (b : StreamBuf) (n : ℕ)
    → IsReadable b
    → n ≤ fuel
    → get_rounds underflow fuel b tt n
      ≡ some (take n (unread b), record b { gnext_ = b.gnext_ + min n (b.gend_ - b.gnext_) }, tt)
unfolding get_rounds uflow load_block
get_rounds_lem zero b n w h =
    got b (ap (λ m. take m (unread b)) {x = 0} (omega arith)) (omega arith)
get_rounds_lem (suc fuel) b n w h = elim (ℕ-cases b.gnext_ b.gend_) [
  | inr stop ↦
      get_end (suc fuel) b n stop
      ∙ got b (sym (take-nothing n (b.gend_ - b.gnext_) (drop b.gnext_ b.mem) (omega arith)))
          (omega arith)
  | inl data_ ↦ elim (ℕ-cases 0 n) [
    | inr none_ ↦
        ground (arith, none_)
        ∙ got b {xs = []} {g = b.gnext_} (ap (λ m. take m (unread b)) {x = 0} (omega arith))
            (omega arith)
    | inl some_ ↦ elim (ℕ-cases (b.gend_ - b.gnext_) n) [
      | inl short ↦ ground (
        arith,
        data_,
        some_,
        short,
        get_end fuel (record b { gnext_ = b.gend_ }) (n - (b.gend_ - b.gnext_)) (omega arith),
        append-nil (take (b.gend_ - b.gnext_) (drop b.gnext_ b.mem)),
        take_all n (unread b)
            (omega (arith, length-take (b.gend_ - b.gnext_) (drop b.gnext_ b.mem))),
      )
      | inr full ↦ ground (
        arith,
        data_,
        some_,
        full,
        get_none fuel (record b { gnext_ = b.gnext_ + n }),
        append-nil (take n (drop b.gnext_ b.mem)),
        take-take n (b.gend_ - b.gnext_) (drop b.gnext_ b.mem) (omega arith),
      )
    ]
  ]
]

-- sgetn of n bytes from a memory stream gives the next unread ones, in order, and no more than
-- there are; the get pointer is behind them and nothing else changes.
pub sgetn_lem :
    (b : StreamBuf) (n : ℕ)
    → IsReadable b
    → sgetn underflow b tt n
      ≡ some (take n (unread b), record b { gnext_ = b.gnext_ + min n (b.gend_ - b.gnext_) }, tt)
unfolding sgetn
sgetn_lem b n w = get_rounds_lem n b n w (omega arith)

stored :
    (b : StreamBuf) {left rest : ℕ} {m n : List ℕ} {p q : ℕ}
    → left ≡ rest
    → m ≡ n
    → p ≡ q
    → ◌≡◌ {A = Option (ℕ × StreamBuf × Unit {0})}
        (some (left, record b { mem = m; pnext_ = p }, tt))
        (some (rest, record b { mem = n; pnext_ = q }, tt))
stored b l e f = λ i. some (l i, record b { mem = e i; pnext_ = f i }, tt)

put_end :
    (fuel : ℕ) (b : StreamBuf) (bytes : List ℕ)
    → b.pend_ ≤ b.pnext_
    → put_rounds overflow fuel b tt bytes ≡ some (length bytes, b, tt)
unfolding put_rounds
put_end zero b bytes h = refl
put_end (suc fuel) b [] h = refl
put_end (suc fuel) b (x ∷ bytes) h = ground arith

put_nil : (fuel : ℕ) (b : StreamBuf) → put_rounds overflow fuel b tt [] ≡ some (0, b, tt)
unfolding put_rounds
put_nil zero b = refl
put_nil (suc fuel) b = refl

put_rounds_lem :
    (fuel : ℕ) (b : StreamBuf) (bytes : List ℕ)
    → IsWritable b
    → length bytes ≤ fuel
    → put_rounds overflow fuel b tt bytes
      ≡ some (
        length bytes - room b,
        record b {
          mem = put_at b.mem b.pnext_ (take (room b) bytes);
          pnext_ = b.pnext_ + min (length bytes) (room b);
        },
        tt,
      )
unfolding put_rounds store_block
put_rounds_lem fuel b [] w h =
    put_nil fuel b
    ∙ stored b (omega arith)
        (sym (ap (put_at b.mem b.pnext_) (take_nil (room b)) ∙ put_at_nil b.mem b.pnext_))
        (omega arith)
put_rounds_lem zero b (x ∷ bytes) w h = absurd (omega arith)
put_rounds_lem (suc fuel) b (x ∷ bytes) w h = elim (ℕ-cases b.pnext_ b.pend_) [
  | inr stop ↦
      put_end (suc fuel) b (x ∷ bytes) stop
      ∙ stored b (omega arith)
          (sym (
            ap (λ m. put_at b.mem b.pnext_ (take m (x ∷ bytes))) {y = 0} (omega arith)
            ∙ put_at_nil b.mem b.pnext_))
          (omega arith)
  | inl free ↦ elim (ℕ-cases (room b) (suc (length bytes))) [
    | inl short ↦
        let e : min (suc (length bytes)) (room b) ≡ room b = omega (arith, short) in
        ground (
          arith,
          free,
          short,
          e,
          length-take (room b) (x ∷ bytes),
          length-drop (room b) (x ∷ bytes),
          put_end fuel
              (record b {
                mem = put_at b.mem b.pnext_ (take (room b) (x ∷ bytes));
                pnext_ = b.pnext_ + room b;
              })
              (drop (room b) (x ∷ bytes)) (omega arith),
        )
    | inr fits ↦
        let e : min (suc (length bytes)) (room b) ≡ suc (length bytes) = omega (arith, fits) in
        ground (
          arith,
          free,
          fits,
          e,
          take_all (suc (length bytes)) (x ∷ bytes) (omega arith),
          take_all (room b) (x ∷ bytes) (omega (arith, fits)),
          drop_all (suc (length bytes)) (x ∷ bytes) (omega arith),
          put_nil fuel (record b {
            mem = put_at b.mem b.pnext_ (x ∷ bytes);
            pnext_ = b.pnext_ + suc (length bytes);
          }),
        )
  ]
]

-- The put area has taken the bytes, as far as there was room, behind what it had; the rest of the
-- memory, and the get area's pointers, are as before.
pub record Appended (b : StreamBuf) (bytes : List ℕ) (b' : StreamBuf) : Type 0 where
  pub kept : b' ≡ record b { mem = b'.mem; pnext_ = b.pnext_ + min (length bytes) (room b) }
  pub data_ : b'.mem ≡ put_at b.mem b.pnext_ (take (room b) bytes)
  pub valid : IsWritable b'
  pub out : written b' ≡ written b ++ take (room b) bytes

-- sputn of a block into a memory stream appends what fits of it to the put area and returns how
-- much that is; the rest of the memory and the get pointers are as before.
pub sputn_lem :
    (b : StreamBuf) (bytes : List ℕ)
    → IsWritable b
    → (b' : StreamBuf) × (sputn overflow b tt bytes ≡ some (min (length bytes) (room b), b', tt))
      × Appended b bytes b'
unfolding sputn
sputn_lem b bytes w =
    let block = take (room b) bytes in
    let b' : StreamBuf = record b {
      mem = put_at b.mem b.pnext_ block;
      pnext_ = b.pnext_ + min (length bytes) (room b);
    } in
    (
      b',
      rw (put_rounds_lem (length bytes) b bytes w (omega arith))
          (stored b' (omega arith) refl refl),
      record {
        kept = refl;
        data_ = refl;
        valid = omega (
          arith,
          w,
          length-put_at b.mem b.pnext_ block (omega (arith, w, length-take (room b) bytes)),
        );
        out =
            between-put_at b.mem b.pbegin_ b.pnext_ b'.pnext_ block w.begun (omega (arith, w))
              (omega (arith, length-take (room b) bytes));
      },
    )
