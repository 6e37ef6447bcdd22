-- ===== src/Fs/Files/Read/Whole.antt =====
-- `file_read` of fs/file.c as a whole.
use jack_os.Base.{
  remove, ℕ, suc, ◌+◌, ◌-◌, ◌*◌, ◌/◌, ◌%◌, ◌<◌, ◌≤◌, ◌≡◌, ◌≢◌, refl, ap, inl, inr, ◌∙◌, ◌&&◌, ◌∷◌,
  none, some, arith, ltb, if◌then◌else◌, Bool-cases, ne→==, lt→ltb, ◌==◌,
}
use jack_os.CString.{Ptr, null}
use jack_os.Fs.{Inode, Fs, clear}
use jack_os.Fs.Bytes.{sys_malloc-some}
use jack_os.Fs.Blocks.{all_blocks}
use jack_os.Fs.Files.Write.Loop.{byte_place, Outside}
use jack_os.Fs.Files.Read.{read_size, read_bytes, file_read}
use jack_os.Fs.Files.Read.Loop.{read_loop-IsRead}
use jack_os.Fs.Files.Read.Window.{Found, blocks_to_read-all_blocks}

-- The bytes that are left in a file, at most `count`.
abbrev pub left_to_read : ℕ → ℕ → ℕ → ℕ
left_to_read pos size count = if ltb size (pos + count) then size - pos else count

read_size_lem :
    (pos size count : ℕ)
    → pos ≤ size
    → count < 0x8000_0000
    → size < 138 * 512
    → read_size pos size count ≡ left_to_read pos size count
unfolding read_size
read_size_lem pos size count h k l = ground arith

-- `sys_malloc` finds two buffers, the first of which is outside of the bytes that are read.
pub record HasBuffers (fs : Fs) (io_buf blocks_buf buf : Ptr) (n : ℕ) : Type 0 where
  pub got_io : fs.pick fs.pgdir fs.live 512 ≡ some io_buf
  pub got_blocks : fs.pick fs.pgdir (io_buf ∷ fs.live) 560 ≡ some blocks_buf
  pub io_ne : io_buf ≢ null
  pub blocks_ne : blocks_buf ≢ null
  pub outside : Outside io_buf buf n

module _ (fs : Fs) (file : ℕ) where
  abbrev node : Inode
  node = fs.inodes (fs.file_table file).fd_inode

  abbrev at : ℕ
  at = (fs.file_table file).fd_pos

  -- The buffers are there.
  read_bytes_lem :
      (n : ℕ) (io_buf blocks_buf buf : Ptr)
      → at + n < 138 * 512
      → io_buf ≢ null
      → blocks_buf ≢ null
      → Outside io_buf buf n
      → Found node (at / 512) ((at + n) / 512)
      → (fs' : Fs) × (read_bytes file io_buf blocks_buf buf n fs ≡ some (some n, fs'))
        × ((j : ℕ)
            → j < n
            → fs'.memory (buf + j) ≡ fs.disk (byte_place (all_blocks node fs) (at + j)))
        × ((fs'.file_table file).fd_pos ≡ at + n)
  unfolding read_bytes
  read_bytes_lem n io_buf blocks_buf buf small io_ne blocks_ne out found =
      let (all, e, same) =
        blocks_to_read-all_blocks node (at / 512) ((at + n) / 512) fs (omega arith) (omega arith)
          found in
      let (fs', e', read) = read_loop-IsRead file io_buf all (suc n) n buf fs (omega arith) out in
      (
        record fs' { live = remove io_buf (remove blocks_buf fs'.live) },
        rw
            (
              lt→ltb (at / 512) 139 (omega arith),
              lt→ltb ((at + n) / 512) 139 (omega arith),
              e,
              e',
              ne→== io_buf null io_ne,
              ne→== blocks_buf null blocks_ne,
            )
            refl,
        λ j lt.
            let q = same ((at + j) / 512) (omega arith) (omega arith) in
            read.got j lt ∙ ap (λ b. fs.disk (b * 512 + (at + j) % 512)) q,
        read.moved,
      )

-- `file_read` at a position within a file of at most 138 blocks, with memory for its buffers, over
-- blocks that it looks up: at the end of the file it returns -1 if bytes are asked for. Otherwise it returns how many
-- of the `count` bytes there are up to the end of the file, with these bytes at `buf`, and leaves the
-- position behind them.
pub file_read_lem :
    (fs : Fs) (file count : ℕ) (io_buf blocks_buf buf : Ptr)
    → (at fs file) ≤ (node fs file).i_size
    → (node fs file).i_size < 138 * 512
    → count < 0x8000_0000
    → let n = left_to_read (at fs file) (node fs file).i_size count in
      HasBuffers fs io_buf blocks_buf buf n
      → Found (node fs file) ((at fs file) / 512) (((at fs file) + n) / 512)
      → if ltb (node fs file).i_size ((at fs file) + count) && (n == 0)
        then file_read file buf count fs ≡ some (none, fs)
        else ((fs' : Fs) × (file_read file buf count fs ≡ some (some n, fs'))
            × ((j : ℕ)
                → j < n
                → fs'.memory (buf + j)
                  ≡ fs.disk (byte_place (all_blocks (node fs file) fs) ((at fs file) + j)))
            × ((fs'.file_table file).fd_pos ≡ (at fs file) + n))
unfolding file_read read_bytes all_blocks
file_read_lem fs file count io_buf blocks_buf buf inside small fits has found =
    let n = left_to_read (at fs file) (node fs file).i_size count in
    let same = read_size_lem (at fs file) (node fs file).i_size count inside (omega arith) small in
    let wrap : ((at fs file) + count) % 0x1_0000_0000 ≡ (at fs file) + count = omega arith in
    let fs₁ = clear io_buf 512 (record fs { live = io_buf ∷ fs.live }) in
    let fs₂ = clear blocks_buf 560 (record fs₁ { live = blocks_buf ∷ io_buf ∷ fs.live }) in
    elim (Bool-cases (ltb (node fs file).i_size ((at fs file) + count) && (n == 0))) [
      | inl done ↦ rw done (rw (wrap, same, done) refl)
      | inr more ↦
          let run : file_read file buf count fs ≡ read_bytes file io_buf blocks_buf buf n fs₂ =
            rw
              (
                wrap,
                same,
                more,
                sys_malloc-some 512 fs io_buf has.got_io,
                sys_malloc-some 560 fs₁ blocks_buf has.got_blocks,
                ne→== io_buf null has.io_ne,
                ne→== blocks_buf null has.blocks_ne,
              )
              refl in
          let (fs', e, bytes, moved) =
            read_bytes_lem fs₂ file n io_buf blocks_buf buf (ground arith) has.io_ne has.blocks_ne
              has.outside found in
          rw more (fs', run ∙ e, bytes, moved)
    ]
