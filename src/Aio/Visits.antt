-- ===== src/Aio/Visits.antt =====
-- Requests stay within their buffers in each visit of a disk, whatever the system answers.
use mathlib.Core.Path.{subst}
use parity_backup.Base.{
  ℕ, zero, suc, ◌+◌, ◌≤◌, Bool, true, false, ◌&&◌, ◌==◌, Option, none, some, if◌then◌else◌, ◌≡◌,
  ◌≢◌, inl, inr, arith, refl, sym, ◌∙◌, Bool-cases, if_split, if_true, if_false,
}
use parity_backup.Slice.{Slice, cancel_gen, is_parity}
use parity_backup.Aio.Round.{no_request, read_done, write_done}
use parity_backup.Aio.Files.{
  Setup, Answers, Completion, in_progress, failed, transferred, finish_current_file,
}
use parity_backup.Aio.Wait.{
  Transfer, set_cb, start_aio, after_read, after_write, take_completion, started_or_left, clip,
  visit_disk, visit_disks, go_on_with, with_slice,
}
use parity_backup.Aio.Same.{cancel_gen-Same, finish_current_file-Same}
use parity_backup.Aio.Contained.{Contained, Same-Contained, cleared-Contained, start_aio-Contained}

-- What a read that has completed changes of the buffers.
read_done-lens :
    (sync no_space : Bool) (i len : ℕ) (cs : Slice)
    → let r = (read_done sync no_space i len cs).1 in
      (r.disk2write ≡ cs.disk2write)
      × ((r.disks i).datalen ≤ (cs.disks i).datalen + len)
      × ((j : ℕ) → j ≢ i → (r.disks j).datalen ≡ (cs.disks j).datalen)
unfolding read_done
read_done-lens sync no_space i len cs =
    let c = cancel_gen-Same no_space cs in
    (
      let t = c.target in ground arith,
      let l = c.lens i in ground arith,
      λ j ne. let l = c.lens j in ground arith,
    )

-- After a read of at most what was asked for, with the control block cleared.
read-Contained :
    (disks size : ℕ) (sync no_space : Bool) (i len : ℕ) (t : Transfer)
    → i ≢ t.slice.disk2write
    → len ≤ (t.cbs i).nbytes
    → Contained disks size t
    → Contained disks size
        (set_cb (record t { slice = (read_done sync no_space i len t.slice).1 }) i no_request)
read-Contained disks size sync no_space i len t other le c =
    let (target, own_len, lens) = read_done-lens sync no_space i len t.slice in
    record {
      room = λ j lt ne. elim (Bool-cases (j == i)) [
        | inl same ↦
            let e : j ≡ i = ground arith in
            let own = c.room i (omega arith) other in
            rw same (
              subst
                (λ (k : ℕ). ((read_done sync no_space i len t.slice).1.disks k).datalen + 0 ≤ size)
                (sym e) (omega arith))
        | inr another ↦
            let len_j = lens j (ground arith) in
            let room = c.room j lt (λ f. ne (f ∙ sym target)) in rw another (omega arith)
      ];
      place = λ j lt ne. elim (Bool-cases (j == i)) [
        | inl same ↦ rw same (inl refl)
        | inr another ↦
            let len_j = lens j (ground arith) in
            rw another (elim (c.place j lt (λ f. ne (f ∙ sym target))) [
              | inl none_made ↦ inl none_made
              | inr at ↦ inr (at ∙ sym len_j)
            ])
      ];
    }

write_done-lens :
    (disks : ℕ) (no_space : Bool) (i len : ℕ) (cs : Slice)
    → let r = (write_done disks no_space i len cs).1 in
      (r.disk2write ≡ cs.disk2write)
      × ((j : ℕ) → j ≢ i → (r.disks j).datalen ≡ (cs.disks j).datalen)
unfolding write_done
write_done-lens disks no_space i len cs =
    let c = cancel_gen-Same no_space cs in
    (let t = c.target in ground arith, λ j ne. let l = c.lens j in ground arith)

-- A write changes nothing of the disks that are read.
write-Contained :
    (disks size : ℕ) (no_space : Bool) (i len : ℕ) (t : Transfer)
    → i ≡ t.slice.disk2write
    → Contained disks size t
    → Contained disks size (record t { slice = (write_done disks no_space i len t.slice).1 })
write-Contained disks size no_space i len t own c =
    let (target, lens) = write_done-lens disks no_space i len t.slice in
    record {
      room = λ j lt ne.
          let len_j = lens j (λ f. ne (f ∙ (own ∙ sym target))) in
          let room = c.room j lt (λ f. ne (f ∙ sym target)) in omega arith;
      place = λ j lt ne.
          let len_j = lens j (λ f. ne (f ∙ (own ∙ sym target))) in
          elim (c.place j lt (λ f. ne (f ∙ sym target))) [
            | inl none_made ↦ inl none_made
            | inr at ↦ inr (at ∙ sym len_j)
          ];
    }

-- Of a visit that goes on or leaves the loop, but does not end the program.
data Visited (disks size : ℕ) : Option (Bool × Transfer) → Type 0 where
  gone : Visited disks size none
  stays : (b : Bool) (t : Transfer) → Contained disks size t → Visited disks size (some (b, t))

go_on_with-Visited :
    (disks size : ℕ) (o : Option Transfer)
    → ((r : Transfer) → o ≡ some r → Contained disks size r)
    → Visited disks size (go_on_with o)
go_on_with-Visited disks size none h = gone
go_on_with-Visited disks size (some r) h = stays false r (h r refl)

started_or_left-Visited :
    (disks size : ℕ) (o : Option Transfer)
    → ((r : Transfer) → o ≡ some r → Contained disks size r)
    → Visited disks size (started_or_left o)
started_or_left-Visited disks size none h = gone
started_or_left-Visited disks size (some r) h = stays r.slice.gen_canceled r (h r refl)

after_read-Visited :
    (u : Setup) (a : Answers) (i : ℕ) (t : Transfer) (r : Bool × Slice)
    → Contained u.disks u.file_buffer_size (set_cb (record t { slice = r.1 }) i no_request)
    → Visited u.disks u.file_buffer_size (after_read u a i t r)
after_read-Visited u a i t (true, cs) c =
    go_on_with-Visited u.disks u.file_buffer_size (start_aio u a i (record t { slice = cs }))
      (λ r e. start_aio-Contained u a i (record t { slice = cs }) r c e)
after_read-Visited u a i t (false, cs) c =
    stays true (set_cb (record t { slice = cs }) i no_request) c

with_slice-Visited :
    (disks size : ℕ) (t : Transfer) (o : Option Slice)
    → ((cs : Slice) → o ≡ some cs → Contained disks size (record t { slice = cs }))
    → Visited disks size (with_slice t o)
with_slice-Visited disks size t none h = gone
with_slice-Visited disks size t (some cs) h = stays false (record t { slice = cs }) (h cs refl)

after_write-Visited :
    (u : Setup) (a : Answers) (i : ℕ) (t : Transfer) (r : Option Bool × Slice)
    → Contained u.disks u.file_buffer_size (record t { slice = r.1 })
    → Visited u.disks u.file_buffer_size (after_write u a i t r)
after_write-Visited u a i t (none, cs) c = stays true (record t { slice = cs }) c
after_write-Visited u a i t (some false, cs) c =
    stays false _ (cleared-Contained u.disks u.file_buffer_size (record t { slice = cs }) i c)
after_write-Visited u a i t (some true, cs) c =
    with_slice-Visited u.disks u.file_buffer_size (set_cb t i no_request)
      (finish_current_file u a i cs)
      (λ done e.
        Same-Contained u.disks u.file_buffer_size (set_cb (record t { slice = cs }) i no_request)
          done (finish_current_file-Same u a i cs done e)
          (cleared-Contained u.disks u.file_buffer_size (record t { slice = cs }) i c))

take_completion-Visited :
    (u : Setup) (a : Answers) (i : ℕ) (t : Transfer) (c : Completion)
    → ((len : ℕ) → c ≡ transferred len → len ≤ (t.cbs i).nbytes)
    → Contained u.disks u.file_buffer_size t
    → Visited u.disks u.file_buffer_size (take_completion u a i t c)
take_completion-Visited u a i t in_progress le c = stays false t c
take_completion-Visited u a i t failed le c =
    let canceled = (cancel_gen a.no_space t.slice).1 in
    let d =
      Same-Contained u.disks u.file_buffer_size t canceled (cancel_gen-Same a.no_space t.slice) c in
    stays true _ (record { room = d.room; place = d.place })
take_completion-Visited u a i t (transferred len) le c =
    elim (Bool-cases (i == t.slice.disk2write)) [
      | inl writing ↦ rw writing (
          after_write-Visited u a i t (write_done u.disks a.no_space i len t.slice)
            (write-Contained u.disks u.file_buffer_size a.no_space i len t (ground arith) c))
      | inr reading ↦ rw reading (
          after_read-Visited u a i t
            (read_done (is_parity u.disks t.slice.disk2write) a.no_space i len t.slice)
            (read-Contained u.disks u.file_buffer_size (is_parity u.disks t.slice.disk2write)
              a.no_space i len t (ground arith) (le len refl) c))
    ]

clip_bound : (asked : ℕ) (c : Completion) (len : ℕ) → clip asked c ≡ transferred len → len ≤ asked
clip_bound asked in_progress len h = absurd cc
clip_bound asked failed len h = absurd cc
clip_bound asked (transferred n) len h = ground arith

visit_disk-Visited :
    (u : Setup) (a : Answers) (i : ℕ) (t : Transfer)
    → Contained u.disks u.file_buffer_size t
    → Visited u.disks u.file_buffer_size (visit_disk u a i t)
unfolding visit_disk
visit_disk-Visited u a i t c =
    let asked = (t.cbs i).nbytes in
    let simulated = (i == t.slice.disk2write) && u.dry in
    let V = Visited u.disks u.file_buffer_size in
    if_split V (t.slice.disks i).disk_finished (some (false, t)) _ (λ e. stays false t c)
      (λ e.
        if_split V (asked == 0)
          (if t.slice.gen_canceled then some (false, t) else started_or_left (start_aio u a i t)) _
          (λ e.
            if_split V t.slice.gen_canceled (some (false, t)) (started_or_left (start_aio u a i t))
              (λ e. stays false t c)
              (λ e. started_or_left-Visited u.disks u.file_buffer_size (start_aio u a i t) (λ r e.
                start_aio-Contained u a i t r (cleared-Contained u.disks u.file_buffer_size t i c)
                  e)))
          (λ e.
            take_completion-Visited u a i t
              (if simulated then transferred asked else clip asked a.completion)
              (λ len e. elim (Bool-cases simulated) [
                | inl dry ↦
                    let h =
                      sym (if_true simulated (transferred asked) (clip asked a.completion) dry)
                      ∙ e in
                    ground arith
                | inr real ↦ clip_bound asked a.completion len (
                    sym (if_false simulated (transferred asked) (clip asked a.completion) real) ∙ e)
              ])
              c))

pub visit_disks-Contained :
    (u : Setup) (answers : ℕ → Answers) (left i : ℕ) (t : Transfer) (cb : ℕ) (r : Transfer)
    → Contained u.disks u.file_buffer_size t
    → visit_disks u answers left i t ≡ some (cb, r)
    → Contained u.disks u.file_buffer_size r
unfolding visit_disks
visit_disks-Contained u answers zero i t cb r c h =
    let e : t ≡ r = cc in subst (Contained u.disks u.file_buffer_size) e c
visit_disks-Contained u answers (suc left) i t cb r c h =
    after (visit_disk u (answers i) i t) (visit_disk-Visited u (answers i) i t c) refl
      (λ t1 d g. visit_disks-Contained u answers left (i + 1) t1 cb r d g)
  where
    after :
        (o : Option (Bool × Transfer))
        → Visited u.disks u.file_buffer_size o
        → visit_disk u (answers i) i t ≡ o
        → ((t1 : Transfer)
            → Contained u.disks u.file_buffer_size t1
            → visit_disks u answers left (i + 1) t1 ≡ some (cb, r)
            → Contained u.disks u.file_buffer_size r)
        → Contained u.disks u.file_buffer_size r
    after none v e again = absurd (let g = rw (e, visit_disks) at h in cc)
    after (some (true, t1)) (stays b t2 d) e again =
        let g = rw (e, visit_disks) at h in
        let same : t1 ≡ r = cc in subst (Contained u.disks u.file_buffer_size) same d
    after (some (false, t1)) (stays b t2 d) e again = again t1 d (rw (e, visit_disks) at h)
