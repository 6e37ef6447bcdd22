-- ===== src/Fs/Inodes/Position.antt =====
-- Where fs/inode.c writes an inode, and what it reads back.
use jack_os.Base.{
  ℕ, ◌+◌, ◌-◌, ◌*◌, ◌/◌, ◌%◌, ◌<◌, ◌≤◌, ◌≡◌, refl, inl, inr, true, false, ◌&&◌, some, arith, ltb,
  leb, ◌==◌, if◌then◌else◌, Bool-cases, lt→ltb, le→leb,
}
use jack_os.CString.{Memory, Ptr}
use jack_os.Fs.{Inode, Partition, Fs, blit, ide_read, ide_write}
use jack_os.Fs.Bytes.{blit-in, blit-at, blit-out}
use jack_os.Fs.Inodes.{InodePosition, inode_locate, inode_byte, sectors_of, inode_sync}

-- The place on the disk of the first byte of an inode.
abbrev pub place : Partition → ℕ → ℕ
place p inode_no = p.sb.inode_table_lba * 512 + 76 * inode_no

-- What of an inode goes to the disk.
abbrev pub stored : Inode → Inode
stored i = record i { i_open_cnt = 0; write_deny = false }

pub locate_lem :
    (p : Partition) (inode_no : ℕ)
    → inode_no < 4096
    → (pos : InodePosition) × (inode_locate p inode_no ≡ some pos)
      × (pos.sec_lba * 512 + pos.off_size ≡ place p inode_no)
      × (pos.off_size < 512)
      × (pos.multi_sec ≡ leb (pos.off_size + 76) 512)
unfolding inode_locate
locate_lem p inode_no h = (
  record {
    multi_sec = if ltb (512 - 76 * inode_no % 512) 76 then false else true;
    sec_lba = p.sb.inode_table_lba + 76 * inode_no / 512;
    off_size = 76 * inode_no % 512;
  },
  rw (lt→ltb inode_no 4096 h) refl,
  omega arith,
  omega arith,
  ground arith,
)

-- Bytes that are read, changed in one place, and written back.
module _ (m disk bytes : ℕ → ℕ) (lba io_buf off n : ℕ) where
  abbrev pub patched : ℕ → ℕ
  patched =
      let m₁ = blit m io_buf n (λ i. disk (lba * 512 + i)) in
      let m₂ = blit m₁ (io_buf + off) 76 bytes in blit disk (lba * 512) n (λ i. m₂ (io_buf + i))

  patched_lem :
      (a : ℕ)
      → patched a ≡ (
          if (leb (lba * 512 + off) a && ltb a (lba * 512 + off + 76)) && ltb a (lba * 512 + n)
          then bytes (a - (lba * 512 + off))
          else disk a)
  patched_lem a =
      let i = a - lba * 512 in
      let m₁ = blit m io_buf n (λ i. disk (lba * 512 + i)) in
      elim (Bool-cases (leb (lba * 512) a && ltb a (lba * 512 + n))) [
        | inr outside ↦ rw outside (ground arith)
        | inl inside ↦
            let back : lba * 512 + i ≡ a = ground arith in
            rw inside (elim (Bool-cases (leb off i && ltb i (off + 76))) [
              | inl new ↦
                  let at : io_buf + i - (io_buf + off) ≡ a - (lba * 512 + off) = ground arith in
                  let e : blit m₁ (io_buf + off) 76 bytes (io_buf + i)
                      ≡ bytes (a - (lba * 512 + off)) =
                    rw (← at) (
                      blit-in m₁ (io_buf + off) 76 bytes (io_buf + i) (ground arith)
                        (ground arith)) in
                  rw e (ground arith)
              | inr old ↦
                  let e : blit m₁ (io_buf + off) 76 bytes (io_buf + i) ≡ m₁ (io_buf + i) =
                    blit-out m₁ (io_buf + off) 76 bytes (io_buf + i) (ground arith) in
                  let e₁ : m₁ (io_buf + i) ≡ disk (lba * 512 + i) =
                    blit-at m io_buf n (λ i. disk (lba * 512 + i)) i (ground arith) in
                  rw (e, e₁, back) (ground arith)
            ])
      ]

-- `inode_sync` of an inode with a number below 4096, in a table within the partition, returns. It
-- writes the inode at the place of the low 8 bits of its number, with the count of its users and the
-- mark of its writer cleared, up to the end of the sector of its first byte: what of it would stand in
-- the next sector is not written. No other byte of the disk changes.
pub inode_sync_lem :
    (inode : Inode) (io_buf : Ptr) (fs : Fs)
    → let at = place fs.partition (inode.i_no % 256) in
      at / 512 ≤ fs.partition.start_lba + fs.partition.sec_cnt
      → (m : Memory) × (disk : ℕ → ℕ) × (inode_sync inode io_buf fs
          ≡ some (record fs { memory = m; disk = disk }))
        × ((a : ℕ)
            → disk a ≡ (
                if (leb at a && ltb a (at + 76)) && (a / 512 == at / 512)
                then inode_byte (stored inode) (a - at)
                else fs.disk a))
unfolding inode_sync
inode_sync_lem inode io_buf fs inside =
    let no = inode.i_no % 256 in
    let (pos, e, at, off, multi) = locate_lem fs.partition no (omega arith) in
    let lba : pos.sec_lba ≡ place fs.partition no / 512 = omega (arith, at, off) in
    let n = sectors_of pos * 512 in
    let fs₁ = ide_read pos.sec_lba io_buf (sectors_of pos) fs in
    let fs₂ : Fs = record fs₁ {
      memory = blit fs₁.memory (io_buf + pos.off_size) 76 (inode_byte (stored inode));
    } in
    (
      fs₂.memory,
      (ide_write pos.sec_lba io_buf (sectors_of pos) fs₂).disk,
      rw (e, le→leb pos.sec_lba (fs.partition.start_lba + fs.partition.sec_cnt) (omega arith)) refl,
      λ a.
          rw
            (
              patched_lem fs.memory fs.disk (inode_byte (stored inode)) pos.sec_lba io_buf
                  pos.off_size n a,
              at,
            )
            (elim (Bool-cases
              (leb (place fs.partition no) a && ltb a (place fs.partition no + 76))) [
                | inr out ↦ rw out refl
                | inl range ↦
                    let same : ltb a (pos.sec_lba * 512 + n)
                        ≡ (a / 512 == place fs.partition no / 512) =
                      ground (arith, lba, multi, off, at) in
                    rw (range, same) refl
              ]),
    )
