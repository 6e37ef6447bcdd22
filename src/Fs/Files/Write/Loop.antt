-- ===== src/Fs/Files/Write/Loop.antt =====
-- One round of the loop of `file_write` of fs/file.c.
use jack_os.Base.{
  ℕ, ◌+◌, ◌-◌, ◌*◌, ◌/◌, ◌%◌, ◌<◌, ◌≤◌, ◌≡◌, ◌⊎◌, inl, inr, refl, ◌∙◌, ap, Bool, true, false, ◌&&◌,
  arith, ltb, leb, if◌then◌else◌, Bool-cases, update_self,
}
use jack_os.CString.{Ptr}
use jack_os.Fs.{Inode, FileDesc, Fs, blit}
use jack_os.Fs.Bytes.{blit-in, blit-at, blit-out}
use jack_os.Fs.Files.Write.{chunk, write_chunk}

-- The place on the disk of byte `j` of a file whose blocks are `all`.
abbrev pub byte_place : (ℕ → ℕ) → ℕ → ℕ
byte_place all j = all (j / 512) * 512 + j % 512

-- Some bytes of memory stand outside of the buffer.
abbrev pub Outside : Ptr → Ptr → ℕ → Type 0
Outside io_buf src n = (src + n ≤ io_buf) ⊎ (io_buf + 512 ≤ src)

-- What one sector holds after bytes were put over it.
module _ (m disk : ℕ → ℕ) (lba io_buf off src c : ℕ) (first : Bool) (fits : off + c ≤ 512)
    (out : Outside io_buf src c) where
  abbrev cleared : ℕ → ℕ
  cleared = blit m io_buf 512 (λ i. 0)

  abbrev loaded : ℕ → ℕ
  loaded = if first then blit cleared io_buf (1 * 512) (λ i. disk (lba * 512 + i)) else cleared

  abbrev filled : ℕ → ℕ
  filled = blit loaded (io_buf + off) c (λ k. loaded (src + k))

  loaded-out : (a : ℕ) → (a < io_buf) ⊎ (io_buf + 512 ≤ a) → loaded a ≡ m a
  loaded-out a h = ground arith

  loaded-in : (o : ℕ) → o < 512 → loaded (io_buf + o) ≡ (if first then disk (lba * 512 + o) else 0)
  loaded-in o h =
      elim first
        as (λ f.
          (if f then blit cleared io_buf (1 * 512) (λ i. disk (lba * 512 + i)) else cleared)
            (io_buf + o)
          ≡ (if f then disk (lba * 512 + o) else 0)) [
            | true ↦ blit-at cleared io_buf 512 (λ i. disk (lba * 512 + i)) o h
            | false ↦ blit-at m io_buf 512 (λ i. 0) o h
          ]

  pub filled-out : (a : ℕ) → (a < io_buf) ⊎ (io_buf + 512 ≤ a) → filled a ≡ m a
  filled-out a h =
      blit-out loaded (io_buf + off) c (λ k. loaded (src + k)) a (omega arith) ∙ loaded-out a h

  pub filled-in :
      (o : ℕ)
      → o < 512
      → filled (io_buf + o) ≡ (
          if leb off o && ltb o (off + c)
          then m (src + (o - off))
          else if first
          then disk (lba * 512 + o)
          else 0)
  filled-in o h = elim (Bool-cases (leb off o && ltb o (off + c))) [
    | inl new ↦
        let q : io_buf + o - (io_buf + off) ≡ o - off = omega arith in
        let e =
          blit-in loaded (io_buf + off) c (λ k. loaded (src + k)) (io_buf + o) (ground arith)
            (ground arith) in
        rw (new, e, q) (loaded-out (src + (o - off)) (ground arith))
    | inr old ↦
        let e =
          blit-out loaded (io_buf + off) c (λ k. loaded (src + k)) (io_buf + o) (ground arith) in
        rw (old, e) (loaded-in o h)
  ]

-- The bytes of a round: all that are left, or up to the end of the sector.
pub chunk_lem :
    (n s : ℕ)
    → 0 < n
    → let c = chunk n (512 - s % 512) in
      (0 < c) × (c ≤ n) × (s % 512 + c ≤ 512) × ((n - c ≡ 0) ⊎ ((s + c) % 512 ≡ 0))
chunk_lem n s h =
    let c = chunk n (512 - s % 512) in
    elim (Bool-cases (ltb n (512 - s % 512))) [
      | inl less ↦ rw less (h, omega arith, ground arith, inl (omega arith))
      | inr more ↦ rw more (omega arith, ground arith, omega arith, inr (omega arith))
    ]

-- A round: the bytes go behind the end of the file, the size grows, and of the disk only the sector of
-- the end of the file changes; what stands before the end in it stays if it was read.
pub record IsRound (fs : Fs) (file : ℕ) (inode io_buf : Ptr) (all : ℕ → ℕ) (src c : ℕ)
    (first : Bool) (fs' : Fs) : Type 0 where
  pub size : (fs'.inodes inode).i_size ≡ (fs.inodes inode).i_size + c
  pub memory : (a : ℕ) → (a < io_buf) ⊎ (io_buf + 512 ≤ a) → fs'.memory a ≡ fs.memory a
  pub new :
      (j : ℕ)
      → j < c
      → fs'.disk (byte_place all ((fs.inodes inode).i_size + j)) ≡ fs.memory (src + j)
  pub old :
      (x : ℕ)
      → (x < all ((fs.inodes inode).i_size / 512) * 512)
        ⊎ (all ((fs.inodes inode).i_size / 512) * 512 + 512 ≤ x)
      → fs'.disk x ≡ fs.disk x
  pub before :
      first ≡ true
      → (o : ℕ) → o < (fs.inodes inode).i_size % 512
      → let x = all ((fs.inodes inode).i_size / 512) * 512 + o in fs'.disk x ≡ fs.disk x
  pub slot : (fs'.file_table file).fd_inode ≡ (fs.file_table file).fd_inode

pub write_chunk-IsRound :
    (fs : Fs) (file : ℕ) (inode io_buf : Ptr) (all : ℕ → ℕ) (src c : ℕ) (first : Bool)
    → (fs.inodes inode).i_size % 512 + c ≤ 512
    → Outside io_buf src c
    → IsRound fs file inode io_buf all src c first
        (write_chunk file inode io_buf all src c first fs)
unfolding write_chunk
write_chunk-IsRound fs file inode io_buf all src c first fits out =
    let s = (fs.inodes inode).i_size in
    let lba = all (s / 512) in
    let off = s % 512 in
    let m = filled fs.memory fs.disk lba io_buf off src c first fits out in
    let inside = filled-in fs.memory fs.disk lba io_buf off src c first fits out in
    let at = blit-at fs.disk (lba * 512) 512 (λ i. m (io_buf + i)) in
    let i = fs.inodes inode in
    let f = fs.file_table file in
    record {
      size =
          ap (λ (i : Inode). i.i_size) (update_self fs.inodes inode (record i { i_size = s + c }));
      memory = filled-out fs.memory fs.disk lba io_buf off src c first fits out;
      new = λ j h.
          let q : (s + j) / 512 ≡ s / 512 = omega arith in
          let r : (s + j) % 512 ≡ off + j = omega arith in
          let t : (leb off (off + j) && ltb (off + j) (off + c)) ≡ true = ground arith in
          let u : off + j - off ≡ j = omega arith in
          rw (q, r) (at (off + j) (omega arith) ∙ inside (off + j) (omega arith) ∙ rw (t, u) refl);
      old = λ x h. blit-out fs.disk (lba * 512) 512 (λ i. m (io_buf + i)) x h;
      before = λ t o h.
          let u : (leb off o && ltb o (off + c)) ≡ false = ground arith in
          at o (omega arith) ∙ inside o (omega arith) ∙ rw (u, t) refl;
      slot =
          ap (λ (f : FileDesc). f.fd_inode)
            (update_self fs.file_table file (record f { fd_pos = (f.fd_pos + c) % 0x1_0000_0000 }));
    }
