-- ===== src/BinStream/Stream/ReadBack.antt =====
-- Typed values in from a memory stream that holds their bytes, and the round trip.
use mathlib.Core.List.{reverse, reverse-reverse}
use ctrlr_fx.Prelude.{
  ℕ, zero, suc, ◌+◌, ◌-◌, ◌%◌, ◌≤◌, ◌<◌, ◌≡◌, refl, sym, ap, ◌∙◌, subst, List, [], ◌∷◌, ◌++◌,
  append_assoc, append-nil, Option, some, ◌>>=◌, Bool, true, false, ◌==◌, if◌then◌else◌, length,
  length-append, length-take, length-drop, take, drop, drop_all, drop_add, drop-take, drop-append,
  take_prefix, take-take, take-append-drop, replicate, length-replicate, ge→ltb, get_elem?-some,
  arith, Bool-cases, inl, inr,
}
use ctrlr_fx.BufCodec.Bytes.{host_bytes, host_value, host_value-host_bytes}
use ctrlr_fx.BufCodec.Stream.{Item}
use ctrlr_fx.SwapBytes.{swap_bytes}
use ctrlr_fx.SwapBytes.Reverse.{swap_bytes_lem}
use ctrlr_fx.BinStream.StreamBuf.{StreamBuf, new_buf, sbumpc, sgetn, skip, galign}
use ctrlr_fx.BinStream.MemStream.{underflow, setbuf}
use ctrlr_fx.BinStream.MemStream.Areas.{IsReadable, between, unread}
use ctrlr_fx.BinStream.MemStream.Transfers.{sgetn_lem}
use ctrlr_fx.BinStream.Stream.{BinStream, goodbit, extract, get_block}
use ctrlr_fx.BinStream.Stream.RoundTrip.{
  gap, wire, packed, serial, length-wire, Inserted, insert_all, insert_all_lem,
}

-- The buffer with the get pointer `k` bytes on.
abbrev forward : StreamBuf → ℕ → StreamBuf
forward b k = record b { gnext_ = b.gnext_ + k }

length-unread : (b : StreamBuf) → IsReadable b → length (unread b) ≡ b.gend_ - b.gnext_
length-unread b w =
    omega
      (arith, w, length-take (b.gend_ - b.gnext_) (drop b.gnext_ b.mem), length-drop b.gnext_ b.mem)

unread_forward :
    (b : StreamBuf) (xs ys : List ℕ) → unread b ≡ xs ++ ys → unread (forward b (length xs)) ≡ ys
unread_forward b xs ys e =
    ap (λ m. take m (drop (b.gnext_ + length xs) b.mem)) (omega arith)
    ∙ ap (take (b.gend_ - b.gnext_ - length xs)) (drop_add b.gnext_ (length xs) b.mem)
    ∙ sym (drop-take (length xs) (b.gend_ - b.gnext_) (drop b.gnext_ b.mem))
    ∙ ap (drop (length xs)) e
    ∙ drop-append xs ys

skip_lem :
    (k : ℕ) (b : StreamBuf)
    → IsReadable b
    → k ≤ b.gend_ - b.gnext_
    → skip underflow k b tt ≡ some (forward b k, tt)
unfolding skip sbumpc
skip_lem zero b w h = ap (λ g. some (record b { gnext_ = g }, tt)) {y = b.gnext_ + 0} (omega arith)
skip_lem (suc k) b w h =
    let (c, e) = get_elem?-some b.mem b.gnext_ (omega (arith, w)) in
    let rest = skip_lem k (forward b 1) (omega (arith, w)) (omega arith) in
    ground (arith, e, w.non_null, w.begun, rest)

aligned_get :
    (align : Bool) (b : StreamBuf) (n : ℕ)
    → (if align then galign underflow b tt n else some (b, tt {0}))
      ≡ skip underflow (gap align (b.gnext_ - b.gbegin_) n) b tt
unfolding galign skip
aligned_get false b n = refl
aligned_get true b n = elim (Bool-cases ((b.gnext_ - b.gbegin_) % n == 0)) [
  | inl e ↦ rw e refl
  | inr e ↦ rw e refl
]

fetched :
    (b : StreamBuf) {xs ys : List ℕ} {g h : ℕ}
    → xs ≡ ys
    → g ≡ h
    → ◌≡◌ {A = Option (List ℕ × StreamBuf × Unit {0})}
        (some (xs, record b { gnext_ = g }, tt))
        (some (ys, record b { gnext_ = h }, tt))
fetched b p q = λ j. some (p j, record b { gnext_ = q j }, tt)

pub values : List Item → List ℕ
values [] = []
values (i ∷ is) = i.value ∷ values is

-- A stream over the block of `n` bytes at `p`, with the given flags.
abbrev pub mem_stream : List ℕ → ℕ → ℕ → Bool → Bool → BinStream (Unit {0})
mem_stream mem p n swap align = record {
  state_ = goodbit;
  buf_ = setbuf (new_buf mem) p n;
  ext_ = tt;
  swap_ = swap;
  align_ = align;
}

module _ (big : Bool) where
  unswapped_bytes :
      (swap : Bool) (i : Item)
      → (if swap then swap_bytes (wire big swap i) else some (wire big swap i))
        ≡ some (host_bytes big i.size i.value)
  unswapped_bytes false i = refl
  unswapped_bytes true i =
      swap_bytes_lem (reverse (host_bytes big i.size i.value))
      ∙ ap some (reverse-reverse (host_bytes big i.size i.value))

  -- A value whose bytes are next in the get area is read, and the pointer is behind them.
  extract_lem :
      (s : BinStream (Unit {0})) (i : Item) (v rest : List ℕ)
      → IsReadable s.buf_
      → length v ≡ i.size
      → unread s.buf_ ≡ packed big s.swap_ s.align_ (s.buf_.gnext_ - s.buf_.gbegin_) i ++ rest
      → extract underflow s v
        ≡ some (
          host_bytes big i.size i.value,
          record s {
            state_ = goodbit;
            buf_ =
                forward s.buf_
                  (length (packed big s.swap_ s.align_ (s.buf_.gnext_ - s.buf_.gbegin_) i));
          },
        )
  unfolding extract get_block
  extract_lem s i v rest w size e =
      let off = s.buf_.gnext_ - s.buf_.gbegin_ in
      let k = gap s.align_ off i.size in
      let zeros = replicate {A = ℕ} k 0 in
      let bytes = wire big s.swap_ i in
      let b1 = forward s.buf_ k in
      let nk : length zeros ≡ k = length-replicate k 0 in
      let nb : length bytes ≡ length v = length-wire big s.swap_ i ∙ sym size in
      let total : length (zeros ++ bytes) ≡ k + length v =
        omega (arith, length-append zeros bytes, nk, nb) in
      let enough : k + length v ≤ s.buf_.gend_ - s.buf_.gnext_ =
        omega (
          arith,
          length-unread s.buf_ w,
          ap length e,
          length-append (zeros ++ bytes) rest,
          total,
        ) in
      let ahead : unread b1 ≡ bytes ++ rest =
        ap (λ m. unread (forward s.buf_ m)) (sym nk)
        ∙ unread_forward s.buf_ zeros (bytes ++ rest) (e ∙ append_assoc zeros bytes rest) in
      let skipped : (if s.align_
            then galign underflow s.buf_ tt (length v)
            else some (s.buf_, tt {0}))
          ≡ some (b1, tt) =
        aligned_get s.align_ s.buf_ (length v)
        ∙ ap (λ n. skip underflow (gap s.align_ off n) s.buf_ tt) size
        ∙ skip_lem k s.buf_ w (omega (arith, enough)) in
      let got : sgetn underflow b1 tt (length v)
          ≡ some (bytes, forward s.buf_ (length (zeros ++ bytes)), tt) =
        sgetn_lem b1 (length v) (omega (arith, w, enough))
        ∙ fetched s.buf_ (ap (take (length v)) ahead ∙ take_prefix (length v) bytes rest (sym nb))
            (omega (arith, enough, total)) in
      let whole : bytes ++ drop (length bytes) v ≡ bytes =
        ap (λ t. bytes ++ t) (drop_all (length bytes) v (omega (arith, nb))) ∙ append-nil bytes in
      rw
        (
          skipped,
          got,
          ge→ltb (length bytes) (length v) (omega (arith, nb)),
          whole,
          unswapped_bytes s.swap_ i,
        )
        refl

  -- `is >> v1 >> v2 >> …` into variables of the values' types.
  pub extract_all : BinStream (Unit {0}) → List Item → Option (List ℕ × BinStream (Unit {0}))
  extract_all s [] = some ([], s)
  extract_all s (i ∷ is) = extract underflow s (replicate i.size 0) >>= λ r.
      extract_all r.1 is >>= λ q. some (host_value big r.0 ∷ q.0, q.1)

  extract_all_lem :
      (is : List Item) (s : BinStream (Unit {0})) (rest : List ℕ)
      → s.state_ ≡ goodbit
      → IsReadable s.buf_
      → unread s.buf_ ≡ serial big s.swap_ s.align_ (s.buf_.gnext_ - s.buf_.gbegin_) is ++ rest
      → (t : BinStream (Unit {0})) × (extract_all s is ≡ some (values is, t))
        × (t.state_ ≡ goodbit)
        × (unread t.buf_ ≡ rest)
  unfolding extract_all values
  extract_all_lem [] s rest good w e = (s, refl, good, e)
  extract_all_lem (i ∷ is) s rest good w e =
      let off = s.buf_.gnext_ - s.buf_.gbegin_ in
      let first = packed big s.swap_ s.align_ off i in
      let more = serial big s.swap_ s.align_ (off + length first) is in
      let split : unread s.buf_ ≡ first ++ (more ++ rest) = e ∙ append_assoc first more rest in
      let room_ : length first ≤ s.buf_.gend_ - s.buf_.gnext_ =
        omega
          (arith, length-unread s.buf_ w, ap length split, length-append first (more ++ rest)) in
      let b = forward s.buf_ (length first) in
      let one =
        extract_lem s i (replicate i.size 0) (more ++ rest) w (length-replicate i.size 0) split in
      let ahead : unread b ≡ serial big s.swap_ s.align_ (b.gnext_ - b.gbegin_) is ++ rest =
        unread_forward s.buf_ first (more ++ rest) split
        ∙ ap (λ m. serial big s.swap_ s.align_ m is ++ rest) (omega (arith, w)) in
      let (t, run, fine, left) =
        extract_all_lem is (record s { state_ = goodbit; buf_ = b }) rest refl
          (omega (arith, w, room_)) ahead in
      (t, rw (one, run, host_value-host_bytes big i.size i.value i.fits) refl, fine, left)

  -- The bytes of the block after the values are in place.
  held_lem :
      (mem : List ℕ) (p n : ℕ) (swap align : Bool) (bytes : List ℕ) (t : BinStream (Unit {0}))
      → Inserted big (mem_stream mem p n swap align) bytes t
      → length bytes ≤ n
      → between t.buf_.mem p (p + n) ≡ bytes ++ drop (length bytes) (between t.buf_.mem p (p + n))
  held_lem mem p n swap align bytes t e fits =
      let all = between t.buf_.mem p (p + n) in
      let first : take (length bytes) all ≡ bytes =
        ap (take (length bytes)) (ap (λ m. take m (drop p t.buf_.mem)) {y = n} (omega arith))
        ∙ take-take (length bytes) n (drop p t.buf_.mem) fits
        ∙ sym (
            ap (λ m. take m (drop p t.buf_.mem)) {x = t.buf_.pnext_ - p}
              (omega (arith, e.area.next)))
        ∙ ap (λ a. take (t.buf_.pnext_ - a) (drop a t.buf_.mem)) (sym e.area.begin)
        ∙ e.area.out
        ∙ ap (λ m. take m (drop p mem) ++ bytes) {y = 0} (omega arith) in
      sym (take-append-drop (length bytes) all) ∙ ap (λ t. t ++ drop (length bytes) all) first

  read_back :
      (mem : List ℕ) (p n : ℕ) (swap align : Bool) (is : List Item) (t : BinStream (Unit {0}))
      → 0 < p
      → p + n ≤ length mem
      → length (serial big swap align 0 is) ≤ n
      → Inserted big (mem_stream mem p n swap align) (serial big swap align 0 is) t
      → (u : BinStream (Unit {0})) × (extract_all (mem_stream t.buf_.mem p n swap align) is
          ≡ some (values is, u))
        × (u.state_ ≡ goodbit)
  read_back mem p n swap align is t h inside fits e =
      let bytes = serial big swap align 0 is in
      let rest = drop (length bytes) (between t.buf_.mem p (p + n)) in
      let (u, run, good, _) =
        extract_all_lem is (mem_stream t.buf_.mem p n swap align) rest refl
          (omega (arith, h, inside, e.area.size))
          (held_lem mem p n swap align bytes t e fits
            ∙ ap (λ m. serial big swap align m is ++ rest) {x = 0} (omega arith)) in
      (u, run, good)

  -- Values that an output stream over a block of memory takes, swapping and aligning or not, fit
  -- when their format does. The stream is good after them, and an input stream over the same
  -- block, with the same flags, then gets the same values, in order, and is good.
  pub extract_all-insert_all :
      (mem : List ℕ) (p n : ℕ) (swap align : Bool) (is : List Item)
      → 0 < p
      → p + n ≤ length mem
      → length (serial big swap align 0 is) ≤ n
      → (t u : BinStream (Unit {0})) × (insert_all big (mem_stream mem p n swap align) is ≡ some t)
        × (t.state_ ≡ goodbit)
        × (extract_all (mem_stream t.buf_.mem p n swap align) is ≡ some (values is, u))
        × (u.state_ ≡ goodbit)
  extract_all-insert_all mem p n swap align is h inside fits =
      let s = mem_stream mem p n swap align in
      let bytes = serial big swap align 0 is in
      let at_start : serial big swap align (p - p) is ≡ bytes =
        ap (λ m. serial big swap align m is) {y = 0} (omega arith) in
      let (t, run, e) =
        insert_all_lem big is s refl (omega (arith, h, inside))
          (omega (arith, ap length at_start, fits)) in
      let (u, runs, good) =
        read_back mem p n swap align is t h inside fits
          (subst (λ bs. Inserted big s bs t) at_start e) in
      (t, u, run, e.good, runs, good)
