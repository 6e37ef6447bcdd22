-- ===== src/Ide/Rounds.antt =====
-- The round of `ide_read` and of `ide_write` for one sector.
use jack_os.Base.{
  ℕ, ◌+◌, ◌*◌, ◌<◌, ◌≡◌, ◌≢◌, ◌⊎◌, refl, ◌∙◌, ap, inl, inr, true, false, some, arith, ◌||◌, ◌==◌,
  eq→==,
}
use jack_os.CString.{Ptr}
use jack_os.Fs.{blit}
use jack_os.Fs.Bytes.{blit-same}
use jack_os.Ide.{
  Ports, Disk, Channel, select_sector, wait_done, intr_hd_handler, done_up, done_down, cmd_out,
  busy_loop, busy_wait, read_round, write_round, read_from_sector, write_to_sector,
}
use jack_os.Ide.Controller.{
  Phase, idle, reading, writing, View, IsController, SameSectors, select_sector_lem, busy_loop_lem,
}

module _ {C : Type 0} (io : Ports C) (hd : Disk) (v : View C) where
  -- Nothing is under way on the channel.
  pub record IsFree (s : Channel C) : Type 0 where
    pub expects : s.expecting_intr ≡ false
    pub none_done : s.disk_done ≡ 0

  -- The sector `lba` has come to memory at `buf`.
  pub record IsRead (s : Channel C) (lba : ℕ) (buf : Ptr) (s' : Channel C) : Type 0 where
    pub bytes :
        (a : ℕ)
        → s'.memory a ≡ blit s.memory buf 512 (λ k. v.sectors s.controller (lba * 512 + k)) a
    pub sectors : SameSectors io hd v s.controller s'.controller
    pub free : IsFree s'

  -- The sector `lba` has the bytes at `buf`.
  pub record IsWritten (s : Channel C) (lba : ℕ) (buf : Ptr) (s' : Channel C) : Type 0 where
    pub bytes : (a : ℕ) → s'.memory a ≡ s.memory a
    pub sectors :
        (a : ℕ)
        → v.sectors s'.controller a
          ≡ blit (v.sectors s.controller) (lba * 512) 512 (λ k. s.memory (buf + k)) a
    pub free : IsFree s'

  -- The number of the disk's interrupt is one of the two of the channels.
  abbrev pub HasVector : Type 0
  HasVector = ((hd.vec_no == 0x2E) || (hd.vec_no == 0x2F)) ≡ true

  -- After the interrupt, the status read and nothing under way.
  abbrev after_interrupt : Channel C → Channel C
  after_interrupt s = record s {
    controller = (io.inb (hd.port_base + 7) s.controller).1;
    expecting_intr = false;
    disk_done = 0;
  }

  wait_done_lem :
      (s : Channel C)
      → HasVector
      → io.interrupts s.controller ≡ true
      → s.expecting_intr ≡ true
      → s.disk_done ≡ 0
      → wait_done io hd s ≡ some (after_interrupt s)
  unfolding wait_done intr_hd_handler done_up done_down
  wait_done_lem s vector raised expects none_done =
      rw (raised, vector, eq→== hd.vec_no hd.vec_no refl, expects, none_done) refl

  going : (p : Phase) (lba : ℕ) → (p ≡ reading lba) ⊎ (p ≡ writing lba) → p ≢ idle
  going p lba (inl r) e = cc
  going p lba (inr w) e = cc

  -- `busy_wait` is the loop from its number of rounds.
  wait : (c' c : C) → busy_loop io 29999 hd c ≡ (true, c') → busy_wait io hd c ≡ (true, c')
  unfolding busy_wait
  wait c' c e = e

  read_round-eq :
      (lba : ℕ) (buf : Ptr) (s : Channel C) (c1 c4 : C) (s3 : Channel C)
      → select_sector io hd lba 1 s.controller ≡ some c1
      → wait_done io hd (cmd_out io hd 0x20 (record s { controller = c1 })) ≡ some s3
      → busy_wait io hd s3.controller ≡ (true, c4)
      → read_round io hd lba buf 1 s
        ≡ some (read_from_sector io hd buf 1 (record s3 { controller = c4 }))
  unfolding read_round
  read_round-eq lba buf s c1 c4 s3 e1 e2 e3 = rw (read_round, e1, e2, e3) refl

  write_round-eq :
      (lba : ℕ) (buf : Ptr) (s : Channel C) (c1 c4 : C)
      → select_sector io hd lba 1 s.controller ≡ some c1
      → busy_wait io hd (io.outb (hd.port_base + 7) 0x30 c1) ≡ (true, c4)
      → write_round io hd lba buf 1 s
        ≡ wait_done io hd
            (write_to_sector io hd buf 1 (record s { controller = c4; expecting_intr = true }))
  unfolding write_round
  write_round-eq lba buf s c1 c4 e1 e2 = rw (write_round, e1, e2) refl

  read_from_sector-eq :
      (buf : Ptr) (s : Channel C)
      → read_from_sector io hd buf 1 s ≡ record s {
        controller = (io.insw hd.port_base 256 s.controller).1;
        memory = blit s.memory buf 512 (io.insw hd.port_base 256 s.controller).0;
      }
  unfolding read_from_sector
  read_from_sector-eq buf s = refl

  write_to_sector-eq :
      (buf : Ptr) (s : Channel C)
      → write_to_sector io hd buf 1 s
        ≡ record s { controller = io.outsw hd.port_base 256 (λ i. s.memory (buf + i)) s.controller }
  unfolding write_to_sector
  write_to_sector-eq buf s = refl

  module _ (ok : IsController io hd v) (vector : HasVector) where
    pub read_round_lem :
        (lba : ℕ) (buf : Ptr) (s : Channel C)
        → lba < 163840
        → IsFree s
        → (s' : Channel C) × (read_round io hd lba buf 1 s ≡ some s') × IsRead s lba buf s'
    read_round_lem lba buf s inside free =
        let (c1, e1, sel, same1) = select_sector_lem io hd v ok lba 1 s.controller (omega arith) in
        let c2 = io.outb (hd.port_base + 7) 0x20 c1 in
        let (ph, same2, busy, raised) = ok.read_command lba c1 (omega arith) sel in
        let s2 : Channel C = cmd_out io hd 0x20 (record s { controller = c1 }) in
        let s3 : Channel C = after_interrupt s2 in
        let (seen, same3, busy3) = ok.status c2 in
        let under_way = same3.0 ∙ ph in
        let (c4, e4, same4, done) =
          busy_loop_lem io hd v ok 29999 s3.controller
            (going (v.phase s3.controller) lba (inl under_way)) (omega arith) in
        let (got, same5) = ok.data_in lba c4 (same4.0 ∙ under_way) done in
        let before : (a : ℕ) → v.sectors c4 a ≡ v.sectors s.controller a =
          λ a. same4.1 a ∙ same3.1 a ∙ same2 a ∙ same1 a in
        (
          record s3 {
            controller = (io.insw hd.port_base 256 c4).1;
            memory = blit s.memory buf 512 (io.insw hd.port_base 256 c4).0;
          },
          read_round-eq lba buf s c1 c4 s3 e1 (wait_done_lem s2 vector raised refl free.none_done)
                (wait c4 s3.controller e4)
              ∙ ap some (read_from_sector-eq buf (record s3 { controller = c4 })),
          record {
            bytes = λ a.
                blit-same s.memory s.memory buf 512 (io.insw hd.port_base 256 c4).0
                  (λ k. v.sectors s.controller (lba * 512 + k)) (λ i. refl)
                  (λ k l. got k l ∙ before (lba * 512 + k)) a;
            sectors = λ a. same5 a ∙ before a;
            free = record { expects = refl; none_done = refl };
          },
        )

    pub write_round_lem :
        (lba : ℕ) (buf : Ptr) (s : Channel C)
        → lba < 163840
        → IsFree s
        → (s' : Channel C) × (write_round io hd lba buf 1 s ≡ some s') × IsWritten s lba buf s'
    write_round_lem lba buf s inside free =
        let (c1, e1, sel, same1) = select_sector_lem io hd v ok lba 1 s.controller (omega arith) in
        let c2 = io.outb (hd.port_base + 7) 0x30 c1 in
        let (ph, same2, busy) = ok.write_command lba c1 (omega arith) sel in
        let (c4, e4, same4, done) =
          busy_loop_lem io hd v ok 29999 c2 (going (v.phase c2) lba (inr ph)) busy in
        let bytes = λ (i : ℕ). s.memory (buf + i) in
        let (put, raised) = ok.data_out lba bytes c4 (same4.0 ∙ ph) done in
        let c5 = io.outsw hd.port_base 256 bytes c4 in
        let s3 : Channel C = record s { controller = c5; expecting_intr = true } in
        let (seen, same6, busy6) = ok.status c5 in
        (
          after_interrupt s3,
          write_round-eq lba buf s c1 c4 e1 (wait c4 c2 e4)
              ∙ ap (wait_done io hd)
                  (write_to_sector-eq buf (record s { controller = c4; expecting_intr = true }))
              ∙ wait_done_lem s3 vector raised refl free.none_done,
          record {
            bytes = λ a. refl;
            sectors = λ a.
                same6.1 a
                ∙ put a
                ∙ blit-same (v.sectors c4) (v.sectors s.controller) (lba * 512) 512 bytes bytes
                    (λ i. same4.1 i ∙ same2 i ∙ same1 i) (λ k l. refl) a;
            free = record { expects = refl; none_done = refl };
          },
        )
