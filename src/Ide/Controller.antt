-- ===== src/Ide/Controller.antt =====
-- What device/ide.c relies on in a controller, for the commands READ SECTORS and WRITE SECTORS of ATA on
-- one sector: registers that keep what is written to them, a status that is busy for a bounded time and
-- then asks for the data, one block of 512 bytes, and the interrupt, which comes when the sector that is
-- read is ready, or when the one that is written is taken over.
use jack_os.Base.{
  ℕ, zero, suc, ◌+◌, ◌-◌, ◌*◌, ◌/◌, ◌%◌, ◌<◌, ◌≤◌, ◌≡◌, ◌≢◌, refl, sym, ◌∙◌, inl, inr, true, false,
  some, arith, ltb, ◌==◌, if◌then◌else◌, leb, Bool-cases, le→leb, eq→==, ne→==,
}
use jack_os.Fs.{blit}
use jack_os.Ide.{Ports, Disk, max_lba, dev_bits, is_busy, has_data, select_sector, busy_loop}

-- The transfer of a sector.
pub data Phase : Type 0 where
  idle : Phase
  reading writing : (lba : ℕ) → Phase

-- How a state of the controller is seen: its registers by port, its transfer, the time it stays busy, and
-- the bytes of the disk.
pub record View (C : Type 0) : Type 0 where
  pub reg : C → ℕ → ℕ
  pub phase : C → Phase
  pub busy : C → ℕ
  pub sectors : C → ℕ → ℕ

module _ {C : Type 0} (io : Ports C) (hd : Disk) (v : View C) where
  -- The registers name `n` sectors from `lba` on.
  abbrev pub IsSelected : ℕ → ℕ → C → Type 0
  IsSelected lba n c =
      (v.reg c (hd.port_base + 2) ≡ n % 256)
      × (v.reg c (hd.port_base + 3) ≡ lba % 256)
      × (v.reg c (hd.port_base + 4) ≡ lba / 256 % 256)
      × (v.reg c (hd.port_base + 5) ≡ lba / 65536 % 256)
      × (v.reg c (hd.port_base + 6) ≡ dev_bits hd + lba / 16777216)

  abbrev pub SameSectors : C → C → Type 0
  SameSectors c c' = (a : ℕ) → v.sectors c' a ≡ v.sectors c a

  -- The same transfer, and the same sectors.
  abbrev pub SameTransfer : C → C → Type 0
  SameTransfer c c' = (v.phase c' ≡ v.phase c) × SameSectors c c'

  pub record IsController : Type 0 where
    pub outb_reg :
        (port value q : ℕ) (c : C)
        → value < 256
        → port ≢ hd.port_base + 7
        → v.reg (io.outb port value c) q ≡ (if port == q then value else v.reg c q)
    pub outb_sectors :
        (port value : ℕ) (c : C) → port ≢ hd.port_base + 7 → SameSectors c (io.outb port value c)
    pub read_command :
        (lba : ℕ) (c : C)
        → lba < 0x1000_0000
        → IsSelected lba 1 c
        → (v.phase (io.outb (hd.port_base + 7) 0x20 c) ≡ reading lba)
          × SameSectors c (io.outb (hd.port_base + 7) 0x20 c)
          × (v.busy (io.outb (hd.port_base + 7) 0x20 c) < 29999)
          × (io.interrupts (io.outb (hd.port_base + 7) 0x20 c) ≡ true)
    pub write_command :
        (lba : ℕ) (c : C)
        → lba < 0x1000_0000
        → IsSelected lba 1 c
        → (v.phase (io.outb (hd.port_base + 7) 0x30 c) ≡ writing lba)
          × SameSectors c (io.outb (hd.port_base + 7) 0x30 c)
          × (v.busy (io.outb (hd.port_base + 7) 0x30 c) < 29999)
    pub status :
        (c : C)
        → (is_busy (io.inb (hd.port_base + 7) c).0 ≡ ltb 0 (v.busy c))
          × SameTransfer c (io.inb (hd.port_base + 7) c).1
          × (v.busy (io.inb (hd.port_base + 7) c).1 ≡ v.busy c)
    pub ready :
        (c : C) → v.phase c ≢ idle → v.busy c ≡ 0 → has_data (io.inb (hd.port_base + 7) c).0 ≡ true
    pub waits : (c : C) → SameTransfer c (io.pass c) × (v.busy (io.pass c) ≡ v.busy c - 1)
    pub data_in :
        (lba : ℕ) (c : C)
        → v.phase c ≡ reading lba
        → v.busy c ≡ 0
        → ((k : ℕ) → k < 512 → (io.insw hd.port_base 256 c).0 k ≡ v.sectors c (lba * 512 + k))
          × SameSectors c (io.insw hd.port_base 256 c).1
    pub data_out :
        (lba : ℕ) (bytes : ℕ → ℕ) (c : C)
        → v.phase c ≡ writing lba
        → v.busy c ≡ 0
        → ((a : ℕ)
            → v.sectors (io.outsw hd.port_base 256 bytes c) a
              ≡ blit (v.sectors c) (lba * 512) 512 bytes a)
          × (io.interrupts (io.outsw hd.port_base 256 bytes c) ≡ true)

module _ {C : Type 0} (io : Ports C) (hd : Disk) (v : View C) (ok : IsController io hd v) where
  wrote :
      (port value : ℕ) (c : C)
      → value < 256
      → port ≢ hd.port_base + 7
      → v.reg (io.outb port value c) port ≡ value
  wrote port value c small free =
      rw (ok.outb_reg port value port c small free, eq→== port port refl) refl

  kept :
      (port value q : ℕ) (c : C)
      → value < 256
      → port ≢ hd.port_base + 7
      → port ≢ q
      → v.reg (io.outb port value c) q ≡ v.reg c q
  kept port value q c small free ne =
      rw (ok.outb_reg port value q c small free, ne→== port q ne) refl

  dev_small : (lba : ℕ) → lba ≤ 163839 → dev_bits hd + lba / 16777216 < 256
  dev_small lba low = ground arith

  pub select_sector_lem :
      (lba n : ℕ) (c : C)
      → lba ≤ 163839
      → (c' : C) × (select_sector io hd lba (n % 256) c ≡ some c')
        × IsSelected io hd v lba n c'
        × SameSectors io hd v c c'
  unfolding select_sector
  select_sector_lem lba n c low =
      let p = hd.port_base in
      let c2 = io.outb (p + 2) (n % 256) c in
      let c3 = io.outb (p + 3) (lba % 256) c2 in
      let c4 = io.outb (p + 4) (lba / 256 % 256) c3 in
      let c5 = io.outb (p + 5) (lba / 65536 % 256) c4 in
      let d = dev_bits hd + lba / 16777216 in
      let c6 = io.outb (p + 6) d c5 in
      let test : leb lba max_lba ≡ true = le→leb lba max_lba low in
      let n2 : n % 256 < 256 = omega arith in
      let n3 : lba % 256 < 256 = omega arith in
      let n4 : lba / 256 % 256 < 256 = omega arith in
      let n5 : lba / 65536 % 256 < 256 = omega arith in
      let n6 = dev_small lba low in
      (
        c6,
        rw test refl,
        (
          kept (p + 6) d (p + 2) c5 n6 (omega arith) (omega arith)
              ∙ kept (p + 5) (lba / 65536 % 256) (p + 2) c4 n5 (omega arith) (omega arith)
              ∙ kept (p + 4) (lba / 256 % 256) (p + 2) c3 n4 (omega arith) (omega arith)
              ∙ kept (p + 3) (lba % 256) (p + 2) c2 n3 (omega arith) (omega arith)
              ∙ wrote (p + 2) (n % 256) c n2 (omega arith),
          kept (p + 6) d (p + 3) c5 n6 (omega arith) (omega arith)
              ∙ kept (p + 5) (lba / 65536 % 256) (p + 3) c4 n5 (omega arith) (omega arith)
              ∙ kept (p + 4) (lba / 256 % 256) (p + 3) c3 n4 (omega arith) (omega arith)
              ∙ wrote (p + 3) (lba % 256) c2 n3 (omega arith),
          kept (p + 6) d (p + 4) c5 n6 (omega arith) (omega arith)
              ∙ kept (p + 5) (lba / 65536 % 256) (p + 4) c4 n5 (omega arith) (omega arith)
              ∙ wrote (p + 4) (lba / 256 % 256) c3 n4 (omega arith),
          kept (p + 6) d (p + 5) c5 n6 (omega arith) (omega arith)
              ∙ wrote (p + 5) (lba / 65536 % 256) c4 n5 (omega arith),
          wrote (p + 6) d c5 n6 (omega arith),
        ),
        λ a.
            ok.outb_sectors (p + 6) d c5 (omega arith) a
            ∙ ok.outb_sectors (p + 5) (lba / 65536 % 256) c4 (omega arith) a
            ∙ ok.outb_sectors (p + 4) (lba / 256 % 256) c3 (omega arith) a
            ∙ ok.outb_sectors (p + 3) (lba % 256) c2 (omega arith) a
            ∙ ok.outb_sectors (p + 2) (n % 256) c (omega arith) a,
      )

  busy_round :
      (left : ℕ) (c : C)
      → is_busy (io.inb (hd.port_base + 7) c).0 ≡ true
      → busy_loop io (suc left) hd c
        ≡ busy_loop io left hd (io.pass (io.inb (hd.port_base + 7) c).1)
  unfolding busy_loop
  busy_round left c test = rw (busy_loop, test) refl

  busy_over :
      (left : ℕ) (c : C)
      → is_busy (io.inb (hd.port_base + 7) c).0 ≡ false
      → has_data (io.inb (hd.port_base + 7) (io.inb (hd.port_base + 7) c).1).0 ≡ true
      → busy_loop io (suc left) hd c
        ≡ (true, (io.inb (hd.port_base + 7) (io.inb (hd.port_base + 7) c).1).1)
  unfolding busy_loop
  busy_over left c test drq = rw (busy_loop, test, drq) refl

  pub busy_loop_lem :
      (left : ℕ) (c : C)
      → v.phase c ≢ idle
      → v.busy c < left
      → (c' : C) × (busy_loop io left hd c ≡ (true, c'))
        × SameTransfer io hd v c c'
        × (v.busy c' ≡ 0)
  busy_loop_lem zero c going less = absurd (omega arith)
  busy_loop_lem (suc left) c going less =
      let c1 = (io.inb (hd.port_base + 7) c).1 in
      let (seen, same, left_busy) = ok.status c in
      elim (Bool-cases (ltb 0 (v.busy c))) [
        | inl waits ↦
            let c2 = io.pass c1 in
            let (same2, less2) = ok.waits c1 in
            let busy : 0 < v.busy c = ground arith in
            let (c', e, same', done) =
              busy_loop_lem left c2 (λ q. going (sym (same2.0 ∙ same.0) ∙ q)) (omega arith) in
            let test : is_busy (io.inb (hd.port_base + 7) c).0 ≡ true = seen ∙ waits in
            (
              c',
              busy_round left c test ∙ e,
              (same'.0 ∙ same2.0 ∙ same.0, λ a. same'.1 a ∙ same2.1 a ∙ same.1 a),
              done,
            )
        | inr free ↦
            let zero_left : v.busy c ≡ 0 = ground arith in
            let (seen2, same2, left2) = ok.status c1 in
            let test : is_busy (io.inb (hd.port_base + 7) c).0 ≡ false = seen ∙ free in
            let drq = ok.ready c1 (λ q. going (sym same.0 ∙ q)) (left_busy ∙ zero_left) in
            (
              (io.inb (hd.port_base + 7) c1).1,
              busy_over left c test drq,
              (same2.0 ∙ same.0, λ a. same2.1 a ∙ same.1 a),
              left2 ∙ left_busy ∙ zero_left,
            )
      ]
