-- ===== src/Fs/Inodes/Load.antt =====
-- The inode that `inode_open` of fs/inode.c reads from the disk.
use jack_os.Base.{
  remove, ℕ, suc, ◌+◌, ◌-◌, ◌*◌, ◌/◌, ◌%◌, ◌<◌, ◌≤◌, ◌≡◌, ◌≢◌, refl, ap, true, ◌&&◌, ◌∷◌, some,
  arith, ltb, leb, ◌==◌, if◌then◌else◌, subst, lt→ltb, ne→==, update_self, update_ne, sym,
}
use jack_os.CString.{Ptr, null}
use jack_os.Fs.{Inode, Fs, blit, ide_read, clear, word_at, set_inode, set_open_inodes}
use jack_os.Fs.Bytes.{blit-at, word_at-bytes, sys_malloc-some}
use jack_os.Fs.Inodes.{InodePosition, inode_word, inode_byte, inode_at, inode_sync, inode_load}
use jack_os.Fs.Inodes.Position.{place, stored, locate_lem, inode_sync_lem}

-- The numbers of an inode have 32 bits.
pub record IsInode (i : Inode) : Type 0 where
  pub no : i.i_no < 0x1_0000_0000
  pub size : i.i_size < 0x1_0000_0000
  pub sectors : (k : ℕ) → k < 13 → i.i_sectors k < 0x1_0000_0000

-- Two inodes are the same but for who has them open.
pub record SameFile (i j : Inode) : Type 0 where
  pub same_no : i.i_no ≡ j.i_no
  pub same_size : i.i_size ≡ j.i_size
  pub same_sectors : (k : ℕ) → k < 13 → i.i_sectors k ≡ j.i_sectors k

-- The bytes of an inode stand at `p`.
abbrev pub Holds : (ℕ → ℕ) → ℕ → Inode → Type 0
Holds m p i = (k : ℕ) → k < 76 → m (p + k) ≡ inode_byte i k

p0 : (p : ℕ) → p + 4 * 0 ≡ p
p0 p = omega arith

module _ (m : ℕ → ℕ) (p : ℕ) (i : Inode) (h : Holds m p i) where
  word_lem :
      (w : ℕ) → w < 19 → inode_word i w < 0x1_0000_0000 → word_at m (p + 4 * w) ≡ inode_word i w
  word_lem w lt small = word_at-bytes m (p + 4 * w) (inode_word i w) small (λ j lt'.
      let at : p + 4 * w + j ≡ p + (4 * w + j) = omega arith in
      let q : (4 * w + j) / 4 ≡ w = omega arith in
      let r : (4 * w + j) % 4 ≡ j = omega arith in
      rw at (rw (h (4 * w + j) (omega arith), q, r) refl))

  inode_at-Holds : IsInode i → SameFile (inode_at m p) i
  inode_at-Holds v = record {
    same_no = subst (λ a. word_at m a ≡ i.i_no) (p0 p) (word_lem 0 (omega arith) v.no);
    same_size = word_lem 1 (omega arith) v.size;
    same_sectors = λ k lt.
        let w = suc (suc (suc (suc k))) in
        let at : p + 4 * w ≡ p + 16 + 4 * k = omega arith in
        let val : inode_word i w ≡ i.i_sectors k = rw (lt→ltb k 13 lt) refl in
        rw (← at, ← val) (word_lem w (omega arith) (rw val (v.sectors k lt)));
  }

-- The state that a load leaves, with the inode at `p` and the buffer at `buf`.
abbrev after_load : Fs → Ptr → Ptr → InodePosition → Fs
after_load fs p buf pos =
    let fs₁ = clear p 76 (record fs { pgdir = null; live = p ∷ fs.live }) in
    let fs₂ : Fs = record fs₁ { pgdir = fs.pgdir; live = buf ∷ p ∷ fs.live } in
    let fs₃ = ide_read pos.sec_lba buf 2 (clear buf 1024 fs₂) in
    let i = inode_at fs₃.memory (buf + pos.off_size) in
    let fs₄ = set_inode p (record i { i_open_cnt = 1 }) fs₃ in
    let fs₅ = set_open_inodes (p ∷ fs.partition.open_inodes) fs₄ in
    record fs₅ { live = remove buf (buf ∷ p ∷ fs.live) }

-- An inode whose bytes stand on the disk at its place, not across the end of a sector, and for which
-- `sys_malloc` finds memory, is read by `inode_open`, if it is not open: the call returns its address,
-- puts it before the other open inodes, and counts one user. The disk and the other inodes do not change.
pub inode_load_lem :
    (fs : Fs) (i : Inode) (inode_no : ℕ) (p buf : Ptr)
    → inode_no < 4096
    → place fs.partition inode_no % 512 + 76 ≤ 512
    → IsInode i
    → Holds fs.disk (place fs.partition inode_no) i
    → fs.pick null fs.live 76 ≡ some p
    → fs.pick fs.pgdir (p ∷ fs.live) 1024 ≡ some buf
    → p ≢ null
    → buf ≢ null
    → (fs' : Fs) × (inode_load inode_no fs ≡ some (p, fs'))
      × SameFile (fs'.inodes p) i
      × ((fs'.inodes p).i_open_cnt ≡ 1)
      × (fs'.partition.open_inodes ≡ p ∷ fs.partition.open_inodes)
      × ((a : ℕ) → fs'.disk a ≡ fs.disk a)
      × ((q : Ptr) → q ≢ p → fs'.inodes q ≡ fs.inodes q)
unfolding inode_load
inode_load_lem fs i inode_no p buf low fits v holds got_p got_buf some_p ne =
    let (pos, e, at, off, multi) = locate_lem fs.partition inode_no low in
    let two : pos.multi_sec ≡ true = ground (arith, multi, at, off) in
    let fs₁ = clear p 76 (record fs { pgdir = null; live = p ∷ fs.live }) in
    let fs₂ : Fs = record fs₁ { pgdir = fs.pgdir } in
    let m = (clear buf 1024 fs₂).memory in
    let from : ℕ → ℕ = λ i. fs.disk (pos.sec_lba * 512 + i) in
    let read : Holds (blit m buf 1024 from) (buf + pos.off_size) i = λ k lt.
      let q : buf + pos.off_size + k ≡ buf + (pos.off_size + k) = omega arith in
      let r : pos.sec_lba * 512 + (pos.off_size + k) ≡ place fs.partition inode_no + k =
        omega (arith, at) in
      rw (q, blit-at m buf 1024 from (pos.off_size + k) (omega arith), r) (holds k lt) in
    let found = inode_at (blit m buf 1024 from) (buf + pos.off_size) in
    let same = inode_at-Holds (blit m buf 1024 from) (buf + pos.off_size) i read v in
    let now : (after_load fs p buf pos).inodes p ≡ record found { i_open_cnt = 1 } =
      update_self fs.inodes p (record found { i_open_cnt = 1 }) in
    (
      after_load fs p buf pos,
      rw
          (
            e,
            sys_malloc-some 76 (record fs { pgdir = null }) p got_p,
            two,
            sys_malloc-some 1024 fs₂ buf got_buf,
            ne→== p null some_p,
            ne→== (buf + pos.off_size) null (λ e. ne (omega arith)),
            ne→== buf null ne,
          )
          refl,
      rw now (record {
        same_no = same.same_no;
        same_size = same.same_size;
        same_sectors = same.same_sectors;
      }),
      ap (λ (i : Inode). i.i_open_cnt) now,
      refl,
      λ a. refl,
      λ q ne'. update_ne fs.inodes p q (record found { i_open_cnt = 1 }) (λ e. ne' (sym e)),
    )

-- An inode with a number below 256 that does not stand across the end of a sector is read back as
-- `inode_sync` wrote it: number, size and sectors. Both calls return, if the table is within the
-- partition and `sys_malloc` finds memory.
pub inode_sync-load :
    (fs : Fs) (i : Inode) (io_buf p buf : Ptr)
    → i.i_no < 256
    → place fs.partition i.i_no % 512 + 76 ≤ 512
    → place fs.partition i.i_no / 512 ≤ fs.partition.start_lba + fs.partition.sec_cnt
    → IsInode i
    → fs.pick null fs.live 76 ≡ some p
    → fs.pick fs.pgdir (p ∷ fs.live) 1024 ≡ some buf
    → p ≢ null
    → buf ≢ null
    → (fs' : Fs) × (fs'' : Fs) × (inode_sync i io_buf fs ≡ some fs')
      × (inode_load i.i_no fs' ≡ some (p, fs''))
      × SameFile (fs''.inodes p) i
inode_sync-load fs i io_buf p buf low fits inside v got_p got_buf some_p ne =
    let byte : i.i_no % 256 ≡ i.i_no = omega arith in
    let at = place fs.partition i.i_no in
    let (m, disk, e, bytes) = inode_sync_lem i io_buf fs (rw byte inside) in
    let holds : Holds disk at (stored i) = λ k lt.
      let q : at + k - at ≡ k = omega arith in
      let r : ((leb at (at + k) && ltb (at + k) (at + 76)) && ((at + k) / 512 == at / 512)) ≡ true =
        ground arith in
      rw
        (
          subst
              (λ n. disk (at + k) ≡ (
                if (leb (place fs.partition n) (at + k) && ltb (at + k) (place fs.partition n + 76))
                  && ((at + k) / 512 == place fs.partition n / 512)
                then inode_byte (stored i) (at + k - place fs.partition n)
                else fs.disk (at + k)))
              byte (bytes (at + k)),
          r,
          q,
        )
        refl in
    let fs' : Fs = record fs { memory = m; disk = disk } in
    let (fs'', e', same, count, others, kept, same_others) =
      inode_load_lem fs' (stored i) i.i_no p buf (omega arith) fits
        (record { no = v.no; size = v.size; sectors = v.sectors }) holds got_p got_buf some_p ne in
    (
      fs',
      fs'',
      e,
      e',
      record {
        same_no = same.same_no;
        same_size = same.same_size;
        same_sectors = same.same_sectors;
      },
    )
