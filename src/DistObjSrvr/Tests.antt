-- ===== src/DistObjSrvr/Tests.antt =====
-- A port over two queues of bytes, and runs of `get_pkt_hdr` on it.
use ctrlr_fx.Prelude.{
  ℕ, ◌≡◌, refl, ap, ◌∙◌, List, [], ◌∷◌, ◌++◌, Option, some, Bool, true, false, length, take, drop,
  take-append, drop-append,
}
use ctrlr_fx.DistObjSrvr.{hdr_rounds, got}
use ctrlr_fx.DistObjSrvr.Client.{Open}

abbrev pub queue_read : List ℕ × List ℕ → ℕ → Option (List ℕ) × (List ℕ × List ℕ)
queue_read w n = (some (take n w.0), (drop n w.0, w.1))

abbrev pub queue_write : List ℕ × List ℕ → List ℕ → Bool × (List ℕ × List ℕ)
queue_write w bytes = (true, (w.0, w.1 ++ bytes))

abbrev pub to_read : List ℕ × List ℕ → List ℕ
to_read w = w.0

abbrev pub sent_bytes : List ℕ × List ℕ → List ℕ
sent_bytes w = w.1

abbrev pub stays_open : List ℕ × List ℕ → Bool
stays_open w = false

pub queue-Open : Open queue_read queue_write to_read sent_bytes
queue-Open = record {
  reads = λ w bytes rest e. (
    (rest, w.1),
    (λ i. (some (first w bytes rest e i), (behind w bytes rest e i, w.1))),
    refl,
    refl,
  );
  writes = λ w bytes. ((w.0, w.1 ++ bytes), refl, refl, refl);
}
  where
    first :
        (w : List ℕ × List ℕ) (bytes rest : List ℕ)
        → w.0 ≡ bytes ++ rest
        → take (length bytes) w.0 ≡ bytes
    first w bytes rest e = ap (take (length bytes)) e ∙ take-append bytes rest

    behind :
        (w : List ℕ × List ℕ) (bytes rest : List ℕ)
        → w.0 ≡ bytes ++ rest
        → drop (length bytes) w.0 ≡ rest
    behind w bytes rest e = ap (drop (length bytes)) e ∙ drop-append bytes rest

-- Bytes before a header are skipped, also where a 'C' comes last.
skips_noise :
    hdr_rounds queue_read queue_write stays_open false 5
      (1 ∷ 67 ∷ 88 ∷ 0 ∷ 1 ∷ 9 ∷ 0 ∷ 0 ∷ 0 ∷ [], [])
      (0 ∷ 0 ∷ [])
      0
      (0 ∷ 0 ∷ 0 ∷ 0 ∷ 0 ∷ 0 ∷ 0 ∷ 0 ∷ [])
    ≡ some (got (67 ∷ 88 ∷ 0 ∷ 1 ∷ 9 ∷ 0 ∷ 0 ∷ 0 ∷ []), ([], []))
unfolding hdr_rounds
skips_noise = refl

-- A 'C' and an 'X' are taken for the start of a header when other bytes stand between them.
takes_split_magic :
    hdr_rounds queue_read queue_write stays_open false 5
      (1 ∷ 67 ∷ 7 ∷ 88 ∷ 0 ∷ 1 ∷ 9 ∷ 0 ∷ 0 ∷ 0 ∷ [], [])
      (0 ∷ 0 ∷ [])
      0
      (0 ∷ 0 ∷ 0 ∷ 0 ∷ 0 ∷ 0 ∷ 0 ∷ 0 ∷ [])
    ≡ some (got (67 ∷ 88 ∷ 0 ∷ 1 ∷ 9 ∷ 0 ∷ 0 ∷ 0 ∷ []), ([], []))
unfolding hdr_rounds
takes_split_magic = refl
