-- ===== src/Aio/Window.antt =====
-- The window of a restored file in the parity array: what the other disks must read for it.
use mathlib.Core.Path.{subst}
use parity_backup.Base.{
  ℕ, suc, ◌+◌, ◌-◌, ◌≤◌, ◌<◌, min, max, true, false, count_loop, if◌then◌else◌, ◌==◌, ltb, ◌≡◌, ◌≢◌,
  ◌⊎◌, inl, inr, arith, refl, sym, ap, ◌∙◌, Bool-cases, if_split, if_true, if_false,
  count_loop_upto,
}
use parity_backup.Base.Int.{pos, ◌-ℤ◌, ◌+ℤ◌, ltb_ℤ, pos_-ℤ, ◌≤ℤ◌}
use parity_backup.Slice.{SliceDisk, Slice, set_disk}
use parity_backup.Aio.{involved, fit_disk, retarget, new_target_file}

-- The end of the window, and of a file in the parity array.
abbrev pub window_end : Slice → ℕ
window_end cs = cs.write_start + cs.write_size

abbrev pub file_end : SliceDisk → ℕ
file_end sd = sd.file.parity_start + sd.file.file_size

-- The disk reads the part of its file that lies in the window, and no more.
pub record Fits (cs : Slice) (sd : SliceDisk) : Type 0 where
  pub starts : sd.file.parity_start + sd.file_offset ≡ max sd.file.parity_start cs.write_start
  pub amount :
      sd.file.bytes2transfer
      ≡ pos (min (file_end sd) (window_end cs) - max sd.file.parity_start cs.write_start)

-- What fitTransferOption cuts off at the end.
cut_end :
    (start size stop : ℕ)
    → start ≤ stop
    → let ext = pos start +ℤ pos size -ℤ pos stop in
      (if ltb_ℤ (pos 0) ext then pos size -ℤ ext else pos size)
      ≡ pos (min (start + size) stop - start)
unfolding ◌-ℤ◌ ◌+ℤ◌
cut_end start size stop le = ground arith

fit_amount :
    (start size from width : ℕ)
    → start ≤ from + width
    → from ≤ start + size
    → let stop = from + width in
      let ext = pos start +ℤ pos size -ℤ pos stop in
      let rest = if ltb_ℤ (pos 0) ext then pos size -ℤ ext else pos size in
      (if ltb start from then rest -ℤ pos (from - start) else rest)
      ≡ pos (min (start + size) stop - max start from)
fit_amount start size from width le le' =
    rw (cut_end start size (from + width) le) (elim (Bool-cases (ltb start from)) [
      | inl before ↦
          let le_end : from - start ≤ min (start + size) (from + width) - start = ground arith in
          if_true _ _ _ before
          ∙ (pos_-ℤ (min (start + size) (from + width) - start) (from - start) le_end
              ∙ ap pos (ground arith))
      | inr after ↦ if_false _ _ _ after ∙ ap pos (ground arith)
    ])

involved_lem :
    (cs : Slice) (start size : ℕ)
    → involved cs start size ≡ true
    → (cs.write_start ≤ start + size) × (start ≤ window_end cs)
unfolding involved
involved_lem cs start size meets = ground arith

fit_disk-Fits :
    (cs : Slice) (sd : SliceDisk)
    → sd.file.parity_start ≤ window_end cs
    → cs.write_start ≤ file_end sd
    → sd.file_offset ≡ 0
    → sd.file.bytes2transfer ≡ pos sd.file.file_size
    → Fits cs (fit_disk cs sd)
unfolding fit_disk
fit_disk-Fits cs sd le le' at_start whole =
    let amount =
      fit_amount sd.file.parity_start sd.file.file_size cs.write_start cs.write_size le le' in
    elim (Bool-cases (ltb sd.file.parity_start cs.write_start)) [
      | inl before ↦
          rw (before, whole) (record { starts = ground arith; amount = rw before at amount })
      | inr after ↦
          rw (after, whole) (record { starts = ground arith; amount = rw after at amount })
    ]

retarget-Fits :
    (cs : Slice) (sd : SliceDisk)
    → involved cs sd.file.parity_start sd.file.file_size ≡ true
    → Fits cs (retarget cs sd)
unfolding retarget
retarget-Fits cs sd meets =
    let (le', le) = involved_lem cs sd.file.parity_start sd.file.file_size meets in
    rw meets (
      fit_disk-Fits cs
        (record sd {
          disk_finished = false;
          file_offset = 0;
          file = record sd.file { bytes2transfer = pos sd.file.file_size };
        })
        le le' refl refl)

-- The loop changes each disk other than the one to write, and no other field of the slice.
record Retargeted (cs0 : Slice) (j : ℕ) (cs : Slice) : Type 0 where
  target : cs.disk2write ≡ cs0.disk2write
  from : cs.write_start ≡ cs0.write_start
  width : cs.write_size ≡ cs0.write_size
  changed : (i : ℕ) → i < j → i ≢ cs0.disk2write → cs.disks i ≡ retarget cs0 (cs0.disks i)
  kept : (i : ℕ) → (j ≤ i) ⊎ (i ≡ cs0.disk2write) → cs.disks i ≡ cs0.disks i

-- Only the window counts.
retarget_same :
    (cs cs0 : Slice) (sd : SliceDisk)
    → cs.write_start ≡ cs0.write_start
    → cs.write_size ≡ cs0.write_size
    → retarget cs sd ≡ retarget cs0 sd
unfolding retarget fit_disk involved
retarget_same cs cs0 sd from width = rw (from, width)

retarget_step :
    (cs0 cs : Slice) (j : ℕ)
    → Retargeted cs0 j cs
    → Retargeted cs0
        (j + 1)
        (if j == cs.disk2write then cs else set_disk cs j (retarget cs (cs.disks j)))
retarget_step cs0 cs j r =
    let target = r.target in
    if_split (Retargeted cs0 (j + 1)) (j == cs.disk2write) cs
      (set_disk cs j (retarget cs (cs.disks j)))
      (λ hit. record {
        target = r.target;
        from = r.from;
        width = r.width;
        changed = λ i lt ne. r.changed i (ground arith) ne;
        kept = λ i h. r.kept i (omega arith);
      })
      (λ miss. record {
        target = r.target;
        from = r.from;
        width = r.width;
        changed = λ i lt ne. elim (Bool-cases (i == j)) [
          | inl same ↦
              let e : i ≡ j = ground arith in
              if_true _ _ _ same
              ∙ (retarget_same cs cs0 (cs.disks j) r.from r.width
                  ∙ (ap (retarget cs0) (r.kept j (inl (omega arith)))
                      ∙ ap (λ (k : ℕ). retarget cs0 (cs0.disks k)) (sym e)))
          | inr other ↦ if_false _ _ _ other ∙ r.changed i (ground arith) ne
        ];
        kept = λ i h.
            let other : (i == j) ≡ false = ground arith in
            if_false _ _ _ other ∙ r.kept i (omega arith);
      })

retarget-closed :
    (cs : Slice) (sd : SliceDisk)
    → involved cs sd.file.parity_start sd.file.file_size ≡ false
    → (retarget cs sd).fd ≤ℤ pos 0
unfolding retarget
retarget-closed cs sd apart = rw apart (ground arith)

-- A place in the parity array is both in the file and in the window, their ends included.
abbrev pub Meets : Slice → SliceDisk → Type 0
Meets cs sd =
    (place : ℕ) × (sd.file.parity_start ≤ place)
    × (place ≤ file_end sd)
    × (cs.write_start ≤ place)
    × (place ≤ window_end cs)

-- The file ends before the window or starts after it.
abbrev pub Apart : Slice → SliceDisk → Type 0
Apart cs sd = (file_end sd < cs.write_start) ⊎ (window_end cs < sd.file.parity_start)

involved-Meets :
    (cs : Slice) (sd : SliceDisk)
    → involved cs sd.file.parity_start sd.file.file_size ≡ true
    → Meets cs sd
unfolding involved
involved-Meets cs sd h = (
  max sd.file.parity_start cs.write_start,
  ground arith,
  ground arith,
  ground arith,
  ground arith,
)

involved-Apart :
    (cs : Slice) (sd : SliceDisk)
    → involved cs sd.file.parity_start sd.file.file_size ≡ false
    → Apart cs sd
unfolding involved
involved-Apart cs sd h = ground arith

-- What `new_target_file_lem` states.
abbrev pub Targeted : ℕ → Slice → ℕ → Type 0
Targeted disks cs i =
    let sd = cs.disks i in
    let sd' = (new_target_file disks cs).disks i in
    ((i ≡ cs.disk2write) × (sd' ≡ sd))
    ⊎ ((i ≢ cs.disk2write) × Meets cs sd × Fits cs sd')
    ⊎ ((i ≢ cs.disk2write) × Apart cs sd × (sd'.fd ≤ℤ pos 0))

-- The next target file of a restore. Each other disk, the parity disk included, either has a file
-- with a place in the window, where the ends of both count: then it reads exactly the part of the
-- file in the window. Or its file ends before the window or starts after it, and is closed. The disk
-- that is written is left as it is.
pub new_target_file_lem : (disks : ℕ) (cs : Slice) (i : ℕ) → i ≤ disks → Targeted disks cs i
unfolding new_target_file
new_target_file_lem disks cs i le =
    let body = λ (i : ℕ) (cs : Slice).
      if i == cs.disk2write then cs else set_disk cs i (retarget cs (cs.disks i)) in
    let r : Retargeted cs (suc disks) (count_loop (suc disks) 0 body cs) =
      count_loop_upto (Retargeted cs) body (suc disks) cs (λ j cs' lt r. retarget_step cs cs' j r)
        (record {
          target = refl;
          from = refl;
          width = refl;
          changed = λ i lt ne. absurd (omega arith);
          kept = λ i h. refl;
        }) in
    let sd = cs.disks i in
    elim (Bool-cases (i == cs.disk2write)) [
      | inl hit ↦ let e : i ≡ cs.disk2write = ground arith in inl (e, r.kept i (inr e))
      | inr miss ↦
          let ne : i ≢ cs.disk2write = ground arith in
          let changed = r.changed i (omega arith) ne in
          elim (Bool-cases (involved cs sd.file.parity_start sd.file.file_size)) [
            | inl meets ↦ inr (
                inl (
                  ne,
                  involved-Meets cs sd meets,
                  subst (Fits cs) (sym changed) (retarget-Fits cs sd meets),
                ))
            | inr apart ↦ inr (
                inr (
                  ne,
                  involved-Apart cs sd apart,
                  subst (λ (d : SliceDisk). d.fd ≤ℤ pos 0) (sym changed)
                      (retarget-closed cs sd apart),
                ))
          ]
    ]
