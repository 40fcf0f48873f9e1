-- ===== src/Aio/Opens.antt =====
-- getNextFile, openNextFile and newTargetFile leave the buffers and the disk to write as they are.
use parity_backup.Base.{
  ℕ, suc, ◌+◌, Bool, true, ◌||◌, ◌==◌, Option, none, some, List, [], ◌∷◌, if◌then◌else◌, ◌≡◌, arith,
  refl, inl, inr, Bool-cases, Option-cases, count_loop_upto,
}
use parity_backup.Base.Int.{ℤ, pos}
use parity_backup.Slice.{SliceDisk, Slice, set_disk, is_parity}
use parity_backup.Aio.{fit_disk, fit_transfer_option, retarget, new_target_file}
use parity_backup.Aio.Next.{
  Row, Wanted, Unset, count_skipped, after, step_rows, settle, get_next_file,
}
use parity_backup.Aio.Save.{close_disk, open_work_file}
use parity_backup.Aio.Files.{
  Setup, Answers, finish_current_file, aim_at, open_data, open_row, next_row, open_next_file,
}
use parity_backup.Aio.Same.{
  Same, Same-refl, Same-trans, set_disk-Same, cancel_gen-Same, close_disk-Same, open_work_file-Same,
  finish_current_file-Same,
}

step_rows-Same :
    (disks : ℕ) (w : Wanted) (i : ℕ) (rows : List Row) (dseq : ℕ) (cs : Slice)
    → Same cs (step_rows disks w i rows dseq cs).1
unfolding step_rows
step_rows-Same disks w i [] dseq cs = set_disk-Same cs i (record (cs.disks i) { seq = dseq }) refl
step_rows-Same disks w i (r ∷ rs) dseq cs =
    let sd = cs.disks i in
    let cs0 = set_disk cs i (record sd { seq = r.dseq }) in
    let cs1 =
      set_disk cs i (record sd { seq = r.dseq; file = record sd.file { mtime = r.mtime } }) in
    let s0 = set_disk-Same cs i (record sd { seq = r.dseq }) refl in
    let s1 =
      set_disk-Same cs i (record sd { seq = r.dseq; file = record sd.file { mtime = r.mtime } })
        refl in
    let next = step_rows-Same disks w i rs r.dseq cs0 in
    let skip = step_rows-Same disks w i rs r.dseq (count_skipped r cs1) in
    record {
      target = let a = next.target in let b = skip.target in ground arith;
      lens = λ j.
          let a = next.lens j in
          let b = skip.lens j in let c = s0.lens j in let d = s1.lens j in ground arith;
    }

settle-Same :
    (disks start i : ℕ) (no_space : Bool) (r : Option Row × Slice)
    → Same r.1 (settle disks start i no_space r).1
settle-Same disks start i no_space (none, cs) =
    set_disk-Same cs i (record (cs.disks i) { disk_finished = true }) refl
settle-Same disks start i no_space (some r, cs) =
    let sd = cs.disks i in
    let file = record sd {
      file = record sd.file {
        file_size = r.fsize;
        parity_start = if is_parity disks cs.disk2write then start else r.start;
      };
    } in
    let s = set_disk-Same cs i file refl in
    let c = cancel_gen-Same no_space cs in
    record {
      target = let a = c.target in ground arith;
      lens = λ j. let a = c.lens j in let b = s.lens j in ground arith;
    }

get_next_file-Same :
    (disks : ℕ) (w : Wanted) (unset : Unset) (no_space : Bool) (i : ℕ) (rows : List Row)
    (cs : Slice)
    → Same cs (get_next_file disks w unset no_space i rows cs).1
unfolding get_next_file
get_next_file-Same disks w unset no_space i rows cs =
    let r = step_rows disks w i (after (cs.disks i).seq rows) unset.dseq cs in
    Same-trans cs r.1 (settle disks unset.start i no_space r).1
      (step_rows-Same disks w i (after (cs.disks i).seq rows) unset.dseq cs)
      (settle-Same disks unset.start i no_space r)

fit_disk-datalen : (cs : Slice) (sd : SliceDisk) → (fit_disk cs sd).datalen ≡ sd.datalen
unfolding fit_disk
fit_disk-datalen cs sd = ground arith

retarget-datalen : (cs : Slice) (sd : SliceDisk) → (retarget cs sd).datalen ≡ sd.datalen
unfolding retarget fit_disk
retarget-datalen cs sd = ground arith

pub new_target_file-Same : (disks : ℕ) (cs : Slice) → Same cs (new_target_file disks cs)
unfolding new_target_file
new_target_file-Same disks cs =
    count_loop_upto (λ k c. Same cs c)
      (λ i c. if i == c.disk2write then c else set_disk c i (retarget c (c.disks i))) (suc disks) cs
      (λ j c lt h.
        let s = set_disk-Same c j (retarget c (c.disks j)) (retarget-datalen c (c.disks j)) in
        record {
          target = let a = h.target in let b = s.target in ground arith;
          lens = λ k. let a = h.lens k in let b = s.lens k in ground arith;
        })
      (Same-refl cs)

open_data-Same : (a : Answers) (i : ℕ) (cs : Slice) → Same cs (open_data a i cs).1
open_data-Same a i cs =
    let cs1 = set_disk cs i (record (cs.disks i) { fd = a.fd }) in
    let s = set_disk-Same cs i (record (cs.disks i) { fd = a.fd }) refl in
    let c = cancel_gen-Same a.no_space cs1 in
    record {
      target = let b = c.target in ground arith;
      lens = λ j. let b = c.lens j in let d = s.lens j in ground arith;
    }

-- The slice once it is aimed at a file.
aim_at-Same :
    (u : Setup) (i : ℕ) (r : ℤ × Slice) (aimed : Slice) → aim_at u i r ≡ some aimed → Same r.1 aimed
aim_at-Same u i (fd, cs) aimed h = record { target = ground arith; lens = λ j. ground arith }

open_row-Same :
    (u : Setup) (a : Answers) (i : ℕ) (r : Option Row × Slice) → Same r.1 (open_row u a i r).1
open_row-Same u a i (none, cs) = Same-refl cs
open_row-Same u a i (some r, cs) =
    let sd = cs.disks i in
    let sd1 : SliceDisk = record sd {
      file_offset = 0;
      file = record sd.file { bytes2transfer = pos sd.file.file_size };
    } in
    let cs1 = set_disk cs i sd1 in
    let s1 = set_disk-Same cs i sd1 refl in
    let work = open_work_file a.work_fd a.no_space i cs1 in
    let s2 = Same-trans cs cs1 work.1 s1 (open_work_file-Same a.work_fd a.no_space i cs1) in
    let sd2 = cs1.disks i in
    let sd3 : SliceDisk = record sd2 {
      files_in_slice = sd2.files_in_slice + 1;
      file = record sd2.file { hash_state = [] };
    } in
    elim (Bool-cases (is_parity u.disks cs.disk2write)) [
      | inl sync ↦ rw sync (
          Same-trans cs cs1 _ s1 (
            Same-trans cs1 (set_disk cs1 i sd3) _ (set_disk-Same cs1 i sd3 refl)
              (open_data-Same a i (set_disk cs1 i sd3))))
      | inr restore ↦ rw restore (elim (Bool-cases (cs.disk2write == i)) [
        | inr reading ↦ rw reading (
            Same-trans cs cs1 _ s1 (
              Same-trans cs1 (fit_transfer_option cs1 i) _
                (set_disk-Same cs1 i (fit_disk cs1 (cs1.disks i))
                  (fit_disk-datalen cs1 (cs1.disks i)))
                (open_data-Same a i (fit_transfer_option cs1 i))))
        | inl writing ↦ rw writing (elim (Option-cases (aim_at u i work)) [
          | inl failed ↦ rw failed s2
          | inr (aimed, e) ↦ rw e (
              Same-trans cs aimed _ (Same-trans cs work.1 aimed s2 (aim_at-Same u i work aimed e))
                (open_data-Same a i aimed))
        ])
      ])
    ]

next_row-Same : (u : Setup) (a : Answers) (i : ℕ) (cs : Slice) → Same cs (next_row u a i cs).1
next_row-Same u a i cs =
    let r = get_next_file u.disks u.wanted a.unset a.no_space i (u.rows i) cs in
    Same-trans cs r.1 _ (get_next_file-Same u.disks u.wanted a.unset a.no_space i (u.rows i) cs)
      (open_row-Same u a i r)

pub open_next_file-Same :
    (u : Setup) (a : Answers) (i : ℕ) (cs : Slice) (b : Bool) (r : Slice)
    → open_next_file u a i cs ≡ some (b, r)
    → Same cs r
unfolding open_next_file
open_next_file-Same u a i cs b r h =
    let guard = cs.gen_canceled || is_parity u.disks i || (cs.disks i).disk_finished in
    let direct = next_row-Same u a i cs in
    elim (Option-cases (finish_current_file u a i cs)) [
      | inl ends ↦ record {
        target = let d = direct.target in ground arith;
        lens = λ j. let d = direct.lens j in ground arith;
      }
      | inr (done, e) ↦
          let f = finish_current_file-Same u a i cs done e in
          let closed = close_disk i done in
          let n =
            Same-trans cs done _ f
              (Same-trans done closed _ (close_disk-Same i done) (next_row-Same u a i closed)) in
          record {
            target = let d = direct.target in let m = n.target in ground arith;
            lens = λ j. let d = direct.lens j in let m = n.lens j in ground arith;
          }
    ]
