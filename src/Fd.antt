-- ===== src/Fd.antt =====
-- readFD and writeFD of utils.cpp, which call read or write until all is moved. What the system
-- answers is an argument: the list of its answers, one for each call.
use parity_backup.Base.{
  ℕ, zero, suc, ◌+◌, ◌-◌, ◌≤◌, min, Option, none, some, List, [], ◌∷◌, ◌++◌, length, take, drop,
  ◌≡◌, arith, refl, sym, ap, ◌∙◌, append_assoc, append-nil, length-drop,
}
use parity_backup.Base.Int.{ℤ, pos, sub_ℕ}

-- `moved n` for n bytes, `again` for EAGAIN, EWOULDBLOCK or EINTR, `failed` for any other errno.
pub data Answer : Type 0 where
  moved : ℕ → Answer
  again : Answer
  failed : ℕ → Answer

-- The loop, with `rest` bytes to move from `source` after the bytes `dest`: the return value and the
-- bytes moved; `none` while the loop still waits for an answer.
unfoldable pub move_bytes : List Answer → ℕ → ℕ → List ℕ → List ℕ → Option (ℤ × List ℕ)
move_bytes answers size zero source dest = some (pos size, dest)
move_bytes [] size (suc rest) source dest = none
move_bytes (moved zero ∷ answers) size (suc rest) source dest = some (pos (size - suc rest), dest)
move_bytes (moved (suc n) ∷ answers) size (suc rest) source dest =
    move_bytes answers size (suc rest - suc n) (drop (suc n) source) (dest ++ take (suc n) source)
move_bytes (again ∷ answers) size (suc rest) source dest =
    move_bytes answers size (suc rest) source dest
move_bytes (failed e ∷ answers) size (suc rest) source dest = some (sub_ℕ 0 e, dest)

-- `file` is what the file holds from the descriptor's position on.
abbrev pub read_fd : List Answer → ℕ → List ℕ → Option (ℤ × List ℕ)
read_fd answers size file = move_bytes answers size size file []

-- `buf` is the buffer; the bytes moved go to the file.
abbrev pub write_fd : List Answer → ℕ → List ℕ → Option (ℤ × List ℕ)
write_fd answers size buf = move_bytes answers size size buf []

-- The system moves no more than it was asked for and than there is, and nothing only at the end of
-- the source, and no call fails, until all is moved.
abbrev pub Legal : List Answer → ℕ → List ℕ → Type 0
Legal answers zero source = Unit {0}
Legal [] (suc rest) source = Unit {0}
Legal (moved zero ∷ answers) (suc rest) source = source ≡ []
Legal (moved (suc n) ∷ answers) (suc rest) source =
    (suc n ≤ suc rest)
    × (suc n ≤ length source)
    × Legal answers (suc rest - suc n) (drop (suc n) source)
Legal (again ∷ answers) (suc rest) source = Legal answers (suc rest) source
Legal (failed e ∷ answers) (suc rest) source = ⊥

-- How many calls are not interrupted.
abbrev pub moves : List Answer → ℕ
moves [] = 0
moves (moved n ∷ answers) = suc (moves answers)
moves (again ∷ answers) = moves answers
moves (failed e ∷ answers) = moves answers

take_nil : (n : ℕ) → take {A = ℕ} n [] ≡ []
take_nil zero = refl
take_nil (suc n) = refl

take-split :
    (n rest : ℕ) (xs : List ℕ) → n ≤ rest → take n xs ++ take (rest - n) (drop n xs) ≡ take rest xs
take-split zero rest xs le = let e : rest - 0 ≡ rest = omega arith in rw e refl
take-split (suc n) zero xs le = absurd (omega arith)
take-split (suc n) (suc rest) [] le = take_nil (suc rest - suc n)
take-split (suc n) (suc rest) (x ∷ xs) le =
    let e : suc rest - suc n ≡ rest - n = omega arith in
    rw e (ap (λ (ys : List ℕ). x ∷ ys) (take-split n rest xs (omega arith)))

pair_of :
    {m n : ℕ} {xs ys : List ℕ}
    → m ≡ n
    → xs ≡ ys
    → ◌≡◌ {A = Option (ℤ × List ℕ)} (some (pos m, xs)) (some (pos n, ys))
pair_of e d = rw (e, d) refl

move_bytes_lem :
    (answers : List Answer) (size rest : ℕ) (source dest : List ℕ)
    → Legal answers rest source
    → rest ≤ size
    → rest ≤ moves answers
    → move_bytes answers size rest source dest
      ≡ some (pos (size - rest + min rest (length source)), dest ++ take rest source)
unfolding move_bytes
move_bytes_lem answers size zero source dest h le enough =
    pair_of (omega arith) (sym (append-nil dest))
move_bytes_lem [] size (suc rest) source dest h le enough = absurd (omega arith)
move_bytes_lem (moved zero ∷ answers) size (suc rest) source dest h le enough =
    let none_left : length source ≡ 0 = ap (λ (xs : List ℕ). length xs) h in
    pair_of (omega arith)
      (sym (ap (λ (xs : List ℕ). dest ++ take (suc rest) xs) h ∙ append-nil dest))
move_bytes_lem (moved (suc n) ∷ answers) size (suc rest) source dest h le enough =
    let (asked, there, legal) = h in
    let len = length-drop (suc n) source in
    move_bytes_lem answers size (suc rest - suc n) (drop (suc n) source)
      (dest ++ take (suc n) source) legal (omega arith) (omega arith)
    ∙ pair_of (omega arith) (
        append_assoc dest (take (suc n) source) (take (suc rest - suc n) (drop (suc n) source))
        ∙ ap (λ (xs : List ℕ). dest ++ xs) (take-split (suc n) (suc rest) source asked))
move_bytes_lem (again ∷ answers) size (suc rest) source dest h le enough =
    move_bytes_lem answers size (suc rest) source dest h le enough
move_bytes_lem (failed e ∷ answers) size (suc rest) source dest h le enough = absurd h

-- However the system divides and interrupts the transfer, as long as no call fails and as many calls as
-- bytes are answered without interruption, readFD returns as many bytes as were asked for or as the
-- file has left, and the buffer holds them in order.
pub read_fd_lem :
    (answers : List Answer) (size : ℕ) (file : List ℕ)
    → Legal answers size file
    → size ≤ moves answers
    → read_fd answers size file ≡ some (pos (min size (length file)), take size file)
read_fd_lem answers size file h enough =
    move_bytes_lem answers size size file [] h (omega arith) enough ∙ pair_of (omega arith) refl

-- On the same terms writeFD writes the first `size` bytes of the buffer in order, and returns their
-- count.
pub write_fd_lem :
    (answers : List Answer) (size : ℕ) (buf : List ℕ)
    → Legal answers size buf
    → size ≤ moves answers
    → size ≤ length buf
    → write_fd answers size buf ≡ some (pos size, take size buf)
write_fd_lem answers size buf h enough whole =
    move_bytes_lem answers size size buf [] h (omega arith) enough ∙ pair_of (omega arith) refl
