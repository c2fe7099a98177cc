-- ===== src/Device/Tests.antt =====
-- A system that hands out its input in pieces and takes output in pieces, and runs on it.
use ctrlr_fx.Prelude.{
  ℕ, ◌≤◌, ◌≡◌, refl, sym, ap, ◌∙◌, List, [], ◌∷◌, ◌++◌, append_assoc, Option, none, some,
  some_injective, min, length, length-take, take, drop, take-append-drop, ℤ, pos, ◌==◌,
  if◌then◌else◌, to_int, arith,
}
use ctrlr_fx.Memory.{copy_elem, store}
use ctrlr_fx.Device.{read_rounds, read_n, write_rounds, write_n}
use ctrlr_fx.Device.Blocks.{Reads, Writes, Received, Sent, read_n_lem, write_n_lem}

abbrev pieces_read : List (List ℕ) → ℕ → Option (List ℕ) × List (List ℕ)
pieces_read [] n = (none, [])
pieces_read (p ∷ ps) n = (some (take n p), drop n p ∷ ps)

abbrev pieces_left : List (List ℕ) → List ℕ
pieces_left [] = []
pieces_left (p ∷ ps) = p ++ pieces_left ps

pieces-Reads : Reads pieces_read pieces_left
pieces-Reads = record { limit = limit; next = next; failed = failed }
  where
    limit :
        (w : List (List ℕ)) (n : ℕ) (bytes : List ℕ)
        → (pieces_read w n).0 ≡ some bytes
        → length bytes ≤ n
    limit [] n bytes e = cc
    limit (p ∷ ps) n bytes e = omega (arith, length-take n p, ap length (some_injective e))

    next :
        (w : List (List ℕ)) (n : ℕ) (bytes : List ℕ)
        → (pieces_read w n).0 ≡ some bytes
        → pieces_left w ≡ bytes ++ pieces_left (pieces_read w n).1
    next [] n bytes e = cc
    next (p ∷ ps) n bytes e =
        ap (λ t. t ++ pieces_left ps) (sym (take-append-drop n p))
        ∙ append_assoc (take n p) (drop n p) (pieces_left ps)
        ∙ ap (λ t. t ++ (drop n p ++ pieces_left ps)) (some_injective e)

    failed :
        (w : List (List ℕ)) (n : ℕ)
        → (pieces_read w n).0 ≡ none
        → pieces_left w ≡ pieces_left (pieces_read w n).1
    failed [] n e = refl
    failed (p ∷ ps) n e = cc

-- How much each call takes, and what is out.
abbrev pieces_write : List ℕ × List ℕ → List ℕ → Option ℕ × (List ℕ × List ℕ)
pieces_write ([], out) bytes = (none, ([], out))
pieces_write (q ∷ qs, out) bytes =
    (some (min q (length bytes)), (qs, out ++ take (min q (length bytes)) bytes))

pieces-Writes : Writes pieces_write (λ w. w.1)
pieces-Writes = record { limit = limit; next = next; failed = failed }
  where
    limit :
        (w : List ℕ × List ℕ) (bytes : List ℕ) (k : ℕ)
        → (pieces_write w bytes).0 ≡ some k
        → k ≤ length bytes
    limit ([], out) bytes k e = cc
    limit (q ∷ qs, out) bytes k e = omega (arith, some_injective e)

    next :
        (w : List ℕ × List ℕ) (bytes : List ℕ) (k : ℕ)
        → (pieces_write w bytes).0 ≡ some k
        → (pieces_write w bytes).1.1 ≡ w.1 ++ take k bytes
    next ([], out) bytes k e = cc
    next (q ∷ qs, out) bytes k e = ap (λ m. out ++ take m bytes) (some_injective e)

    failed :
        (w : List ℕ × List ℕ) (bytes : List ℕ)
        → (pieces_write w bytes).0 ≡ none
        → (pieces_write w bytes).1.1 ≡ w.1
    failed ([], out) bytes e = refl
    failed (q ∷ qs, out) bytes e = cc

read_pieces :
    read_n pieces_read ((7 ∷ 8 ∷ []) ∷ []) (0 ∷ 0 ∷ 0 ∷ 0 ∷ []) 1 3
    ≡ some (pos 2, 0 ∷ 7 ∷ 8 ∷ 0 ∷ [], [] ∷ [])
unfolding read_n read_rounds copy_elem store to_int
read_pieces = refl

write_pieces :
    write_n pieces_write (2 ∷ 5 ∷ [], []) (7 ∷ 8 ∷ 9 ∷ []) 3 ≡ (pos 3, ([], 7 ∷ 8 ∷ 9 ∷ []))
unfolding write_n write_rounds to_int
write_pieces = refl

read_n_lem_example :
    (k : ℕ) × (nx : ℤ) × (mem' : List ℕ) × (w' : List (List ℕ)) × (read_n pieces_read
        ((7 ∷ 8 ∷ []) ∷ [])
        (0 ∷ 0 ∷ 0 ∷ 0 ∷ [])
        1
        3
      ≡ some ((if k == 0 then nx else pos k), mem', w'))
    × Received pieces_read pieces_left ((7 ∷ 8 ∷ []) ∷ []) (0 ∷ 0 ∷ 0 ∷ 0 ∷ []) 1 3 k nx mem' w'
    × (◌≡◌ {A = ℕ} 3 0 → nx ≡ pos 0)
read_n_lem_example =
    read_n_lem pieces_read pieces_left pieces-Reads ((7 ∷ 8 ∷ []) ∷ []) (0 ∷ 0 ∷ 0 ∷ 0 ∷ []) 1 3
      (omega arith) (omega arith)

write_n_lem_example :
    (k : ℕ) × (nx : ℤ) × (w' : List ℕ × List ℕ) × (write_n pieces_write
        (2 ∷ 5 ∷ [], [])
        (7 ∷ 8 ∷ 9 ∷ [])
        3
      ≡ ((if k == 0 then nx else pos k), w'))
    × Sent pieces_write (λ w. w.1) (2 ∷ 5 ∷ [], []) (7 ∷ 8 ∷ 9 ∷ []) k nx w'
    × (◌≡◌ {A = ℕ} 3 0 → nx ≡ pos 0)
write_n_lem_example =
    write_n_lem pieces_write (λ w. w.1) pieces-Writes (2 ∷ 5 ∷ [], []) (7 ∷ 8 ∷ 9 ∷ [])
      (omega arith)
