-- ===== src/Aio/Same.antt =====
-- Opening, finishing and canceling files leaves the buffers and the disk to write as they are.
use parity_backup.Base.{
  ℕ, Bool, true, false, Option, none, some, List, if◌then◌else◌, ◌≡◌, arith, refl, ◌∙◌, Bool-cases,
  inl, inr, if_split,
}
use parity_backup.Base.Int.{ℤ, pos, negsuc, ltb_ℤ}
use parity_backup.Slice.{SliceDisk, Slice, set_disk, cancel_gen, cancel_request, is_parity}
use parity_backup.Slice.Hash.{store_hash, find_hash4seq}
use parity_backup.Aio.{is_zero_ℤ}
use parity_backup.Aio.Next.{Wanted}
use parity_backup.Aio.Save.{
  Saving, close_disk, open_work_file, rename_work, place_work, save_work_file,
}
use parity_backup.Aio.Files.{Setup, Answers, finish_current_file, hash_differs}

pub record Same (cs cs' : Slice) : Type 0 where
  pub target : cs'.disk2write ≡ cs.disk2write
  pub lens : (j : ℕ) → (cs'.disks j).datalen ≡ (cs.disks j).datalen

pub Same-refl : (cs : Slice) → Same cs cs
Same-refl cs = record { target = refl; lens = λ j. refl }

pub Same-trans : (a b c : Slice) → Same a b → Same b c → Same a c
Same-trans a b c h k = record { target = k.target ∙ h.target; lens = λ j. k.lens j ∙ h.lens j }

-- The record of one disk is replaced, with the same `datalen`.
pub set_disk-Same :
    (cs : Slice) (i : ℕ) (sd : SliceDisk)
    → sd.datalen ≡ (cs.disks i).datalen
    → Same cs (set_disk cs i sd)
set_disk-Same cs i sd e = record { target = refl; lens = λ j. ground arith }

pub cancel_gen-Same : (no_space : Bool) (cs : Slice) → Same cs (cancel_gen no_space cs).1
unfolding cancel_gen
cancel_gen-Same no_space cs = record { target = ground arith; lens = λ j. ground arith }

pub cancel_request-Same : (canceled : Bool) (cs : Slice) → Same cs (cancel_request canceled cs)
unfolding cancel_request
cancel_request-Same canceled cs = record { target = ground arith; lens = λ j. ground arith }

pub open_work_file-Same :
    (fd : ℤ) (no_space : Bool) (i : ℕ) (cs : Slice) → Same cs (open_work_file fd no_space i cs).1
unfolding open_work_file
open_work_file-Same fd no_space i cs =
    let cs1 = set_disk cs i (record (cs.disks i) { fd = fd }) in
    let opened = set_disk-Same cs i (record (cs.disks i) { fd = fd }) refl in
    if_split (Same cs) (ltb_ℤ fd (pos 0)) _ cs1
      (λ e. Same-trans cs cs1 _ opened (cancel_gen-Same no_space cs1)) (λ e. opened)

pub close_disk-Same : (i : ℕ) (cs : Slice) → Same cs (close_disk i cs)
close_disk-Same i cs = set_disk-Same cs i (record (cs.disks i) { fd = negsuc 0 }) refl

rename_work-Same : (a : Saving) (i : ℕ) (cs : Slice) → Same cs (rename_work a i cs).1
unfolding rename_work
rename_work-Same a i cs =
    let closed = close_disk i cs in
    let reported = if a.acl_failed then (cancel_gen a.no_space closed).1 else closed in
    let c = close_disk-Same i cs in
    let canceled = Same-trans cs closed _ c (cancel_gen-Same a.no_space closed) in
    let r : Same cs reported = if_split (Same cs) a.acl_failed _ closed (λ e. canceled) (λ e. c) in
    if_split (Same cs) (is_zero_ℤ a.rename_result) (record reported { gen_canceled = false })
      (cancel_gen a.no_space closed).1 (λ e. record { target = r.target; lens = r.lens })
      (λ e. canceled)

place_work-Same : (w : Wanted) (a : Saving) (i : ℕ) (cs : Slice) → Same cs (place_work w a i cs).1
unfolding place_work
place_work-Same w a i cs =
    let canceled = cancel_gen-Same a.no_space cs in
    let kept = rename_work-Same a i cs in
    let lost = rename_work-Same a i (cancel_gen a.no_space cs).1 in
    record {
      target =
          let c = canceled.target in let k = kept.target in let l = lost.target in ground arith;
      lens = λ j.
          let c = canceled.lens j in let k = kept.lens j in let l = lost.lens j in ground arith;
    }

save_work_file-Same :
    (disks : ℕ) (compare_only : Bool) (w : Wanted) (a : Saving) (i : ℕ) (cs : Slice)
    → Same cs (save_work_file disks compare_only w a i cs).1
unfolding save_work_file
save_work_file-Same disks compare_only w a i cs =
    let closed = close_disk-Same i cs in
    let renamed = rename_work-Same a i cs in
    let placed = place_work-Same w a i cs in
    record {
      target =
          let c = closed.target in let r = renamed.target in let p = placed.target in ground arith;
      lens = λ j.
          let c = closed.lens j in let r = renamed.lens j in let p = placed.lens j in ground arith;
    }

store_hash-Same :
    (digest : List ℕ → List ℕ) (i seq : ℕ) (hash : Option (List ℕ)) (cs r : Slice)
    → store_hash digest i seq hash cs ≡ some r
    → Same cs r
unfolding store_hash
store_hash-Same digest i seq hash cs r h = record {
  target = ground arith;
  lens = λ j. ground arith;
}

compared-Same :
    (differs no_space : Bool) (cs : Slice)
    → Same cs (if differs then (cancel_gen no_space cs).1 else cs)
compared-Same true no_space cs = cancel_gen-Same no_space cs
compared-Same false no_space cs = Same-refl cs

pub finish_current_file-Same :
    (u : Setup) (a : Answers) (i : ℕ) (cs r : Slice)
    → finish_current_file u a i cs ≡ some r
    → Same cs r
unfolding finish_current_file
finish_current_file-Same u a i cs r h =
    let differs = hash_differs u.digest (cs.disks i).file (find_hash4seq i (cs.disks i).seq cs) in
    let compared = if differs then (cancel_gen a.no_space cs).1 else cs in
    let saved = (save_work_file u.disks u.compare_only u.wanted a.saving i compared).1 in
    let s =
      Same-trans cs compared saved (compared-Same differs a.no_space cs)
        (save_work_file-Same u.disks u.compare_only u.wanted a.saving i compared) in
    elim (Bool-cases u.restoring) [
      | inl restoring ↦
          let e = rw restoring at h in
          record {
            target = let t = s.target in ground arith;
            lens = λ j. let l = s.lens j in ground arith;
          }
      | inr syncing ↦ elim (Bool-cases (is_parity u.disks i)) [
        | inl parity ↦ record { target = ground arith; lens = λ j. ground arith }
        | inr other ↦ store_hash-Same u.digest i 0 none cs r (rw (syncing, other) at h)
      ]
    ]
