-- ===== src/Fs/Files/Read.antt =====
-- `file_read` of fs/file.c: the blocks of the range, and the loop that reads them one by one, on fuel.
pub mod Loop
pub mod Window
pub mod Back
pub mod Whole
use jack_os.Base.{
  ℕ, zero, suc, ◌+◌, ◌-◌, ◌*◌, ◌/◌, ◌%◌, Bool, true, false, not, ◌&&◌, Option, none, some, ltb, leb,
  ◌==◌, if◌then◌else◌, update, assert, ◌>>=◌, ◌>>◌,
}
use jack_os.CString.{Ptr, null}
use jack_os.Fs.{Inode, Fs, blit, ide_read, clear, sys_malloc, sys_free, read_indirect, set_file}
use jack_os.Fs.Files.Write.{chunk}

-- Entries `from` to `to` of an array, over an array.
abbrev pub copy_entries : (ℕ → ℕ) → ℕ → ℕ → (ℕ → ℕ) → ℕ → ℕ
copy_entries entries from to all k = if leb from k && leb k to then entries k else all k

-- The blocks of the range, in an array that was 0. With neither block direct, nor the same, none is
-- filled in.
unfoldable pub blocks_to_read : Inode → ℕ → ℕ → Fs → Option (ℕ → ℕ)
blocks_to_read i block_read_start_idx block_read_end_idx fs =
    if block_read_end_idx == block_read_start_idx
    then (if ltb block_read_end_idx 12
        then some (update (λ k. 0) block_read_end_idx (i.i_sectors block_read_end_idx))
        else some (read_indirect (i.i_sectors 12) (λ k. 0) fs))
    else if leb block_read_end_idx 12
    then some (copy_entries i.i_sectors block_read_start_idx block_read_end_idx (λ k. 0))
    else if ltb block_read_start_idx 12
    then (do
      assert (not (i.i_sectors 12 == 0))
      some (
          read_indirect (i.i_sectors 12) (copy_entries i.i_sectors block_read_start_idx 11 (λ k. 0))
            fs))
    else some (λ k. 0)

-- One round: `chunk_size` bytes of the block of the position to `buf_dst`.
unfoldable pub read_chunk : ℕ → Ptr → (ℕ → ℕ) → Ptr → ℕ → Fs → Fs
read_chunk file io_buf all_blocks_lba buf_dst chunk_size fs =
    let f = fs.file_table file in
    let sec_lba = all_blocks_lba (f.fd_pos / 512) in
    let fs = clear io_buf 512 fs in
    let fs = ide_read sec_lba io_buf 1 fs in
    let fs : Fs = record fs {
      memory = blit fs.memory buf_dst chunk_size (λ k. fs.memory (io_buf + f.fd_pos % 512 + k));
    } in
    set_file file (record f { fd_pos = f.fd_pos + chunk_size }) fs

unfoldable pub read_loop : ℕ → ℕ → Ptr → (ℕ → ℕ) → Ptr → ℕ → Fs → Option Fs
read_loop zero file io_buf all_blocks_lba buf_dst size_left fs = none
read_loop (suc fuel) file io_buf all_blocks_lba buf_dst size_left fs =
    let chunk_size = chunk size_left (512 - (fs.file_table file).fd_pos % 512) in
    let rest =
      read_loop fuel file io_buf all_blocks_lba (buf_dst + chunk_size) (size_left - chunk_size)
        (read_chunk file io_buf all_blocks_lba buf_dst chunk_size fs) in
    if size_left == 0 then some fs else rest

-- The number of bytes that the call reads.
unfoldable pub read_size : ℕ → ℕ → ℕ → ℕ
read_size fd_pos i_size count =
    if ltb i_size ((fd_pos + count) % 0x1_0000_0000)
    then (i_size + 0x1_0000_0000 - fd_pos) % 0x1_0000_0000
    else count

-- The buffers are there.
unfoldable pub read_bytes : ℕ → Ptr → Ptr → Ptr → ℕ → Fs → Option (Option ℕ × Fs)
read_bytes file io_buf blocks_buf buf size fs = do
  let f = fs.file_table file
  let block_read_start_idx = f.fd_pos / 512
  let block_read_end_idx = (f.fd_pos + size) / 512
  assert (ltb block_read_start_idx 139 && ltb block_read_end_idx 139)
  all_blocks_lba ← blocks_to_read (fs.inodes f.fd_inode) block_read_start_idx block_read_end_idx fs
  fs ← read_loop (suc size) file io_buf all_blocks_lba buf size fs
  fs ← sys_free blocks_buf fs
  fs ← sys_free io_buf fs
  some (some size, fs)

unfoldable pub file_read : ℕ → Ptr → ℕ → Fs → Option (Option ℕ × Fs)
file_read file buf count fs =
    let f = fs.file_table file in
    let i_size = (fs.inodes f.fd_inode).i_size in
    let size = read_size f.fd_pos i_size count in
    let (io_buf, fs₁) = sys_malloc 512 fs in
    let (blocks_buf, fs₂) = sys_malloc 560 fs₁ in
    if ltb i_size ((f.fd_pos + count) % 0x1_0000_0000) && (size == 0)
    then some (none, fs)
    else if io_buf == null
    then some (none, fs₁)
    else if blocks_buf == null
    then some (none, fs₂)
    else read_bytes file io_buf blocks_buf buf size fs₂
