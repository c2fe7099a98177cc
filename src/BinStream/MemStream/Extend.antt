-- ===== src/BinStream/MemStream/Extend.antt =====
-- Bytes that fit: what a memory stream's put area holds after blocks, single bytes and padding.
use ctrlr_fx.Prelude.{
  ℕ, zero, suc, ◌+◌, ◌≤◌, ◌<◌, ◌≡◌, refl, sym, ap, ◌∙◌, List, [], ◌∷◌, ◌++◌, append-nil,
  append_assoc, some, length, length-append, take, take_all, replicate, arith,
}
use ctrlr_fx.Memory.{store}
use ctrlr_fx.BinStream.StreamBuf.{StreamBuf, sputc, sputn, pad}
use ctrlr_fx.BinStream.MemStream.{overflow}
use ctrlr_fx.BinStream.MemStream.Areas.{
  IsWritable, written, room, put_at, length-put_at, between-put_at,
}
use ctrlr_fx.BinStream.MemStream.Transfers.{sputn_lem}

-- The put area has the bytes behind what it had.
pub record Extended (b : StreamBuf) (bytes : List ℕ) (b' : StreamBuf) : Type 0 where
  pub begin : b'.pbegin_ ≡ b.pbegin_
  pub next : b'.pnext_ ≡ b.pnext_ + length bytes
  pub end_ : b'.pend_ ≡ b.pend_
  pub size : length b'.mem ≡ length b.mem
  pub valid : IsWritable b'
  pub out : written b' ≡ written b ++ bytes

pub Extended-refl : (b : StreamBuf) → IsWritable b → Extended b [] b
Extended-refl b w = record {
  begin = refl;
  next = omega arith;
  end_ = refl;
  size = refl;
  valid = w;
  out = sym (append-nil (written b));
}

pub Extended-trans :
    (b m b' : StreamBuf) (xs ys : List ℕ)
    → Extended b xs m
    → Extended m ys b'
    → Extended b (xs ++ ys) b'
Extended-trans b m b' xs ys e f = record {
  begin = f.begin ∙ e.begin;
  next = omega (arith, e.next, f.next, length-append xs ys);
  end_ = f.end_ ∙ e.end_;
  size = f.size ∙ e.size;
  valid = f.valid;
  out = f.out ∙ ap (λ t. t ++ ys) e.out ∙ append_assoc (written b) xs ys;
}

pub sputn_fits :
    (b : StreamBuf) (bytes : List ℕ)
    → IsWritable b
    → length bytes ≤ room b
    → (b' : StreamBuf) × (sputn overflow b tt bytes ≡ some (length bytes, b', tt))
      × Extended b bytes b'
sputn_fits b bytes w h =
    let (b', run, a) = sputn_lem b bytes w in
    let all = take_all (room b) bytes h in
    (
      b',
      run ∙ ap (λ m. some (m, b', tt)) {y = length bytes} (omega arith),
      record {
        begin = ap (λ t. t.pbegin_) a.kept;
        next = ap (λ t. t.pnext_) a.kept ∙ omega arith;
        end_ = ap (λ t. t.pend_) a.kept;
        size =
            ap length a.data_
            ∙ length-put_at b.mem b.pnext_ (take (room b) bytes) (omega (arith, w, ap length all));
        valid = a.valid;
        out = a.out ∙ ap (λ t. written b ++ t) all;
      },
    )

store_put_at :
    (mem : List ℕ) (a x : ℕ) → a < length mem → store mem a x ≡ some (put_at mem a (x ∷ []))
unfolding store
store_put_at [] a x h = absurd (omega arith)
store_put_at (y ∷ mem) zero x h = refl
store_put_at (y ∷ mem) (suc a) x h = ground (arith, store_put_at mem a x)

sputc_fits :
    (b : StreamBuf) (x : ℕ)
    → IsWritable b
    → 0 < room b
    → (b' : StreamBuf) × (sputc overflow b tt x ≡ some (some x, b', tt)) × Extended b (x ∷ []) b'
unfolding sputc
sputc_fits b x w h = (
  record b { mem = put_at b.mem b.pnext_ (x ∷ []); pnext_ = b.pnext_ + 1 },
  ground (arith, w.non_null, w.begun, w.within, w.stored, store_put_at b.mem b.pnext_ x),
  record {
    begin = refl;
    next = refl;
    end_ = refl;
    size = length-put_at b.mem b.pnext_ (x ∷ []) (omega (arith, w));
    valid = omega (arith, w, length-put_at b.mem b.pnext_ (x ∷ []));
    out =
        between-put_at b.mem b.pbegin_ b.pnext_ (b.pnext_ + 1) (x ∷ []) w.begun (omega (arith, w))
          refl;
  },
)

pub pad_fits :
    (n : ℕ) (b : StreamBuf)
    → IsWritable b
    → n ≤ room b
    → (b' : StreamBuf) × (pad overflow n b tt ≡ some (b', tt)) × Extended b (replicate n 0) b'
unfolding pad
pad_fits zero b w h = (b, refl, Extended-refl b w)
pad_fits (suc n) b w h =
    let (m, run, e) = sputc_fits b 0 w (omega arith) in
    let (b', runs, f) = pad_fits n m e.valid (omega (arith, e.next, e.end_)) in
    (b', rw run runs, Extended-trans b m b' (0 ∷ []) (replicate n 0) e f)
