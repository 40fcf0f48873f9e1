-- ===== src/Examples/Moved.antt =====
-- Transfers that the system divides and interrupts.
use parity_backup.Base.{ℕ, min, List, [], ◌∷◌, length, take, some, ◌≡◌, arith, refl}
use parity_backup.Base.Int.{pos}
use parity_backup.Fd.{moved, again, read_fd, write_fd, read_fd_lem, write_fd_lem}

abbrev bytes : List ℕ
bytes = 7 ∷ 8 ∷ 9 ∷ []

read_fd_example :
    read_fd (moved 2 ∷ again ∷ moved 1 ∷ moved 0 ∷ moved 0 ∷ []) 4 bytes
    ≡ some (pos (min 4 (length bytes)), take 4 bytes)
read_fd_example =
    read_fd_lem (moved 2 ∷ again ∷ moved 1 ∷ moved 0 ∷ moved 0 ∷ []) 4 bytes
      (omega arith, omega arith, (omega arith, omega arith, refl)) (omega arith)

write_fd_example : write_fd (again ∷ moved 1 ∷ moved 1 ∷ []) 2 bytes ≡ some (pos 2, take 2 bytes)
write_fd_example =
    write_fd_lem (again ∷ moved 1 ∷ moved 1 ∷ []) 2 bytes
      (omega arith, omega arith, (omega arith, omega arith, tt)) (omega arith) (omega arith)
