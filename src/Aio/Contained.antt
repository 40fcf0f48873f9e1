-- ===== src/Aio/Contained.antt =====
-- Requests stay within their buffers: what a visit of a disk keeps.
use mathlib.Core.Path.{subst}
use parity_backup.Base.{
  ℕ, ◌+◌, ◌≤◌, ◌<◌, Bool, true, false, not, ◌&&◌, ◌||◌, ◌==◌, Option, none, some, ◌≡◌, ◌≢◌, ◌⊎◌,
  inl, inr, arith, refl, sym, ◌∙◌, Bool-cases, if_split, if_true, if_false,
}
use parity_backup.Base.Int.{pos}
use parity_backup.Slice.{Slice}
use parity_backup.Aio.{leb_ℤ}
use parity_backup.Aio.Round.{Aiocb, no_request, request}
use parity_backup.Aio.Files.{Setup, Answers, open_next_file}
use parity_backup.Aio.Wait.{
  Transfer, set_cb, cancel_transfer, declines, submit, submit_next, start_aio,
}
use parity_backup.Aio.Same.{Same, cancel_gen-Same}
use parity_backup.Aio.Opens.{open_next_file-Same}

-- For each data disk but the one that is written, a request in flight fits in the buffer after what it
-- holds, and it is for the place right after that.
pub record Contained (disks size : ℕ) (t : Transfer) : Type 0 where
  pub room :
      (i : ℕ)
      → i < disks
      → i ≢ t.slice.disk2write
      → (t.slice.disks i).datalen + (t.cbs i).nbytes ≤ size
  pub place :
      (i : ℕ)
      → i < disks
      → i ≢ t.slice.disk2write
      → ((t.cbs i).nbytes ≡ 0) ⊎ ((t.cbs i).buf ≡ (t.slice.disks i).datalen)

-- The slice changes, but not in what counts.
pub Same-Contained :
    (disks size : ℕ) (t : Transfer) (cs : Slice)
    → Same t.slice cs
    → Contained disks size t
    → Contained disks size (record t { slice = cs })
Same-Contained disks size t cs s c = record {
  room = λ i lt ne.
      let len = s.lens i in let r = c.room i lt (λ e. ne (e ∙ sym s.target)) in omega arith;
  place = λ i lt ne.
      let len = s.lens i in
      elim (c.place i lt (λ e. ne (e ∙ sym s.target))) [
        | inl none_made ↦ inl none_made
        | inr at ↦ inr (at ∙ sym len)
      ];
}

-- A control block is cleared, with the buffer of its disk within its size.
pub set_cb-Contained :
    (disks size : ℕ) (t : Transfer) (i : ℕ) (cb : Aiocb)
    → (i < disks → i ≢ t.slice.disk2write → (t.slice.disks i).datalen + cb.nbytes ≤ size)
    → (i < disks → i ≢ t.slice.disk2write → (cb.nbytes ≡ 0) ⊎ (cb.buf ≡ (t.slice.disks i).datalen))
    → ((j : ℕ)
        → j ≢ i
        → j < disks
        → j ≢ t.slice.disk2write
        → ((t.slice.disks j).datalen + (t.cbs j).nbytes ≤ size)
          × (((t.cbs j).nbytes ≡ 0) ⊎ ((t.cbs j).buf ≡ (t.slice.disks j).datalen)))
    → Contained disks size (set_cb t i cb)
set_cb-Contained disks size t i cb fits at others = record {
  room = λ j lt ne. elim (Bool-cases (j == i)) [
    | inl own ↦
        let e : j ≡ i = ground arith in
        rw own (
          subst (λ (k : ℕ). (t.slice.disks k).datalen + cb.nbytes ≤ size) (sym e)
            (fits (omega arith) (λ f. ne (e ∙ f))))
    | inr other ↦ rw other (others j (ground arith) lt ne).0
  ];
  place = λ j lt ne. elim (Bool-cases (j == i)) [
    | inl own ↦
        let e : j ≡ i = ground arith in
        rw own (
          subst (λ (k : ℕ). (cb.nbytes ≡ 0) ⊎ (cb.buf ≡ (t.slice.disks k).datalen)) (sym e)
            (at (omega arith) (λ f. ne (e ∙ f))))
    | inr other ↦ rw other (others j (ground arith) lt ne).1
  ];
}

pub cleared-Contained :
    (disks size : ℕ) (t : Transfer) (i : ℕ)
    → Contained disks size t
    → Contained disks size (set_cb t i no_request)
cleared-Contained disks size t i c =
    set_cb-Contained disks size t i no_request (λ lt ne. let r = c.room i lt ne in omega arith)
      (λ lt ne. inl refl) (λ j other lt ne. (c.room j lt ne, c.place j lt ne))

request_fits :
    (u : Setup) (cs : Slice) (i : ℕ)
    → i < u.disks
    → i ≢ cs.disk2write
    → declines u i cs ≡ false
    → ((cs.disks i).datalen + (request u.disks u.file_buffer_size cs i).nbytes ≤ u.file_buffer_size)
      × (((request u.disks u.file_buffer_size cs i).nbytes ≡ 0)
          ⊎ ((request u.disks u.file_buffer_size cs i).buf ≡ (cs.disks i).datalen))
unfolding request
request_fits u cs i lt other goes =
    let reading : (cs.disk2write == i) ≡ false = ground arith in (ground arith, ground arith)

submit-Contained :
    (u : Setup) (a : Answers) (i : ℕ) (t : Transfer)
    → Contained u.disks u.file_buffer_size t
    → Contained u.disks u.file_buffer_size (submit u a i t)
submit-Contained u a i t c =
    let writing = t.slice.disk2write == i in
    let cb = request u.disks u.file_buffer_size t.slice i in
    elim (Bool-cases (declines u i t.slice)) [
      | inl no_need ↦ rw no_need c
      | inr needed ↦ rw needed (
          if_split (Contained u.disks u.file_buffer_size) (writing && u.dry || a.started)
            (set_cb t i cb) (cancel_transfer a.no_space t)
            (λ e.
              set_cb-Contained u.disks u.file_buffer_size t i cb
                (λ lt ne. (request_fits u t.slice i lt ne needed).0)
                (λ lt ne. (request_fits u t.slice i lt ne needed).1)
                (λ j other lt ne. (c.room j lt ne, c.place j lt ne)))
            (λ e.
              Same-Contained u.disks u.file_buffer_size t _ (cancel_gen-Same a.no_space t.slice) c))
    ]

submit_next-Contained :
    (u : Setup) (a : Answers) (i : ℕ) (t : Transfer) (o : Option (Bool × Slice)) (r : Transfer)
    → ((b : Bool) (cs : Slice) → o ≡ some (b, cs) → Same t.slice cs)
    → Contained u.disks u.file_buffer_size t
    → submit_next u a i t o ≡ some r
    → Contained u.disks u.file_buffer_size r
submit_next-Contained u a i t none r same c h = absurd cc
submit_next-Contained u a i t (some (false, cs)) r same c h =
    let opened = Same-Contained u.disks u.file_buffer_size t cs (same false cs refl) c in
    subst (Contained u.disks u.file_buffer_size) (cc) opened
submit_next-Contained u a i t (some (true, cs)) r same c h =
    let opened = Same-Contained u.disks u.file_buffer_size t cs (same true cs refl) c in
    subst (Contained u.disks u.file_buffer_size) (cc)
      (submit-Contained u a i (record t { slice = cs }) opened)

pub start_aio-Contained :
    (u : Setup) (a : Answers) (i : ℕ) (t r : Transfer)
    → Contained u.disks u.file_buffer_size (set_cb t i no_request)
    → start_aio u a i t ≡ some r
    → Contained u.disks u.file_buffer_size r
unfolding start_aio
start_aio-Contained u a i t r c h =
    let t1 = set_cb t i no_request in
    let cs = t.slice in
    let stopped = cs.gen_canceled || (cs.disks i).disk_finished in
    let empty = not (cs.disk2write == i) && leb_ℤ (cs.disks i).file.bytes2transfer (pos 0) in
    elim (Bool-cases stopped) [
      | inl stop ↦
          subst (Contained u.disks u.file_buffer_size)
            (option_eq (sym (if_true stopped (some t1) _ stop) ∙ h)) c
      | inr goes ↦
          let h1 = sym (if_false stopped (some t1) _ goes) ∙ h in
          elim (Bool-cases empty) [
            | inl next ↦
                submit_next-Contained u a i t1 (open_next_file u a i cs) r
                  (λ b cs' e. open_next_file-Same u a i cs b cs' e) c
                  (sym (if_true empty _ (some (submit u a i t1)) next) ∙ h1)
            | inr has_file ↦
                subst (Contained u.disks u.file_buffer_size)
                  (option_eq (
                    sym (
                      if_false empty (submit_next u a i t1 (open_next_file u a i cs))
                        (some (submit u a i t1)) has_file)
                    ∙ h1))
                  (submit-Contained u a i t1 c)
          ]
    ]
  where
    option_eq : {x y : Transfer} → ◌≡◌ {A = Option Transfer} (some x) (some y) → x ≡ y
    option_eq e = cc
