-- ===== src/Fs/Files/Write.antt =====
-- `file_write` of fs/file.c: the block of a first write, the blocks that are added, the loop that writes
-- them one by one, the inode. The loop runs on fuel.
pub mod Loop
pub mod Effect
use jack_os.Base.{
  ℕ, zero, suc, ◌+◌, ◌-◌, ◌*◌, ◌/◌, ◌%◌, Bool, true, false, not, ◌||◌, Option, none, some, ltb, leb,
  ◌==◌, if◌then◌else◌, update, assert, ◌>>=◌, ◌>>◌,
}
use jack_os.CString.{Ptr, null}
use jack_os.Fs.{
  Inode, Fs, blit, ide_read, ide_write, clear, u32_sub, sys_malloc, sys_free, read_indirect,
  write_indirect, on_ok, set_inode, set_sector, set_file,
}
use jack_os.Fs.Inodes.{inode_sync}
use jack_os.Fs.Blocks.{block_bitmap_alloc, bitmap_sync, block_bitmap}

-- The bit of a block in the block bitmap, written to the disk.
abbrev pub sync_block : ℕ → Fs → Fs
sync_block block_lba fs =
    bitmap_sync (u32_sub block_lba fs.partition.sb.data_start_lba) block_bitmap fs

-- The block that a file which never had one gets.
unfoldable pub first_block : Ptr → Fs → Option (Option (Unit {0}) × Fs)
first_block inode fs =
    if (fs.inodes inode).i_sectors 0 == 0
    then on_ok (block_bitmap_alloc fs) (λ block_lba fs. do
      let fs = set_sector inode 0 block_lba fs
      assert (not (u32_sub block_lba fs.partition.sb.data_start_lba == 0))
      some (some tt, sync_block block_lba fs))
    else some (some tt, fs)

-- The loops of the three situations, from block `block_idx` on, `left` blocks of them. Each gives the
-- blocks that it found, by index.
unfoldable pub add_direct : Ptr → (ℕ → ℕ) → ℕ → ℕ → Fs → Option (Option (ℕ → ℕ) × Fs)
add_direct inode all_blocks_lba block_idx zero fs = some (some all_blocks_lba, fs)
add_direct inode all_blocks_lba block_idx (suc left) fs =
    on_ok (block_bitmap_alloc fs) (λ block_lba fs. do
      let fs = sync_block block_lba fs
      assert ((fs.inodes inode).i_sectors block_idx == 0)
      add_direct inode (update all_blocks_lba block_idx block_lba) (block_idx + 1) left
          (set_sector inode block_idx block_lba fs))

-- The test is of `block_lba`.
unfoldable pub add_mixed : Ptr → (ℕ → ℕ) → ℕ → ℕ → Fs → Option (Option (ℕ → ℕ) × Fs)
add_mixed inode all_blocks_lba block_idx zero fs = some (some all_blocks_lba, fs)
add_mixed inode all_blocks_lba block_idx (suc left) fs =
    on_ok (block_bitmap_alloc fs) (λ block_lba fs. do
      assert (not (ltb block_lba 12) || ((fs.inodes inode).i_sectors block_idx == 0))
      let fs = if ltb block_lba 12 then set_sector inode block_idx block_lba fs else fs
      add_mixed inode (update all_blocks_lba block_idx block_lba) (block_idx + 1) left
          (sync_block block_lba fs))

unfoldable pub add_indirect : (ℕ → ℕ) → ℕ → ℕ → Fs → Option (Option (ℕ → ℕ) × Fs)
add_indirect all_blocks_lba block_idx zero fs = some (some all_blocks_lba, fs)
add_indirect all_blocks_lba block_idx (suc left) fs = on_ok (block_bitmap_alloc fs) (λ block_lba fs.
    add_indirect (update all_blocks_lba block_idx block_lba) (block_idx + 1) left
      (sync_block block_lba fs))

-- No block is added: the block of the end of the file.
unfoldable pub same_block : Ptr → ℕ → (ℕ → ℕ) → Fs → Option (Option (ℕ → ℕ) × Fs)
same_block inode used all_blocks_lba fs =
    let i = fs.inodes inode in
    if leb used 12
    then some (some (update all_blocks_lba (used - 1) (i.i_sectors (used - 1))), fs)
    else (do
      assert (not (i.i_sectors 12 == 0))
      some (some (read_indirect (i.i_sectors 12) all_blocks_lba fs), fs))

-- Blocks are added, from `used` blocks to `will_use`.
unfoldable pub more_blocks : Ptr → ℕ → ℕ → (ℕ → ℕ) → Fs → Option (Option (ℕ → ℕ) × Fs)
more_blocks inode used will_use all_blocks_lba fs =
    let i = fs.inodes inode in
    let all_blocks_lba' = update all_blocks_lba (used - 1) (i.i_sectors (used - 1)) in
    if leb will_use 12
    then (do
      assert (not (i.i_sectors (used - 1) == 0))
      add_direct inode all_blocks_lba' used (will_use - used) fs)
    else if leb used 12
    then on_ok (block_bitmap_alloc fs) (λ block_lba fs. do
      assert ((fs.inodes inode).i_sectors 12 == 0)
      on_ok
          (add_mixed inode all_blocks_lba' used (will_use - used)
            (set_sector inode 12 block_lba fs))
          (λ all_blocks_lba fs.
            some (some all_blocks_lba, write_indirect block_lba all_blocks_lba fs)))
    else (do
      assert (not (i.i_sectors 12 == 0))
      let indirect_block_table = i.i_sectors 12
      let all_blocks_lba = read_indirect indirect_block_table all_blocks_lba fs
      on_ok (add_indirect all_blocks_lba used (will_use - used) fs) (λ all_blocks_lba fs.
          some (some all_blocks_lba, write_indirect indirect_block_table all_blocks_lba fs)))

unfoldable pub blocks_to_write : Ptr → ℕ → Fs → Option (Option (ℕ → ℕ) × Fs)
blocks_to_write inode count fs = do
  let i_size = (fs.inodes inode).i_size
  let file_has_used_blocks = i_size / 512 + 1
  let file_will_use_blocks = (i_size + count) / 512 + 1
  assert (leb file_will_use_blocks 140)
  let add_blocks = file_will_use_blocks - file_has_used_blocks
  (if add_blocks == 0
      then same_block inode file_has_used_blocks (λ k. 0) fs
      else more_blocks inode file_has_used_blocks file_will_use_blocks (λ k. 0) fs)

-- The smaller of the bytes that are left and those up to the end of the sector.
abbrev pub chunk : ℕ → ℕ → ℕ
chunk size_left sec_left_bytes = if ltb size_left sec_left_bytes then size_left else sec_left_bytes

-- One round: `chunk_size` bytes of `src` to the block of the end of the file.
unfoldable pub write_chunk : ℕ → Ptr → Ptr → (ℕ → ℕ) → Ptr → ℕ → Bool → Fs → Fs
write_chunk file inode io_buf all_blocks_lba src chunk_size first_write_block fs =
    let i = fs.inodes inode in
    let sec_lba = all_blocks_lba (i.i_size / 512) in
    let fs₁ = clear io_buf 512 fs in
    let bytes = if first_write_block then (ide_read sec_lba io_buf 1 fs₁).memory else fs₁.memory in
    let fs : Fs = record fs₁ { memory = bytes } in
    let fs : Fs = record fs {
      memory = blit fs.memory (io_buf + i.i_size % 512) chunk_size (λ k. fs.memory (src + k));
    } in
    let fs = ide_write sec_lba io_buf 1 fs in
    let fs = set_inode inode (record i { i_size = i.i_size + chunk_size }) fs in
    let f = fs.file_table file in
    set_file file (record f { fd_pos = (f.fd_pos + chunk_size) % 0x1_0000_0000 }) fs

unfoldable pub write_loop : ℕ → ℕ → Ptr → Ptr → (ℕ → ℕ) → Ptr → ℕ → Bool → Fs → Option Fs
write_loop zero file inode io_buf all_blocks_lba src size_left first fs = none
write_loop (suc fuel) file inode io_buf all_blocks_lba src size_left first fs =
    let size = (fs.inodes inode).i_size in
    let chunk_size = chunk size_left (512 - size % 512) in
    let rest =
      write_loop fuel file inode io_buf all_blocks_lba (src + chunk_size) (size_left - chunk_size)
        false (write_chunk file inode io_buf all_blocks_lba src chunk_size first fs) in
    if size_left == 0 then some fs else rest

-- The inode goes to the disk if there is memory for the buffer.
unfoldable pub sync_written : Ptr → Fs → Option Fs
sync_written inode fs =
    let (inode_buf, fs) = sys_malloc 1024 fs in
    if inode_buf == null
    then some fs
    else (do fs ← inode_sync (fs.inodes inode) inode_buf fs; sys_free inode_buf fs)

-- The blocks are known: the bytes, the inode, the buffers.
unfoldable pub write_bytes : ℕ → Ptr → Ptr → Ptr → Ptr → ℕ → (ℕ → ℕ) → Fs → Option (Option ℕ × Fs)
write_bytes file inode io_buf blocks_buf buf count all_blocks_lba fs = do
  let f = fs.file_table file
  let fs = set_file file (record f { fd_pos = u32_sub (fs.inodes inode).i_size 1 }) fs
  fs ← write_loop (suc count) file inode io_buf all_blocks_lba buf count true fs
  fs ← sync_written inode fs
  fs ← sys_free blocks_buf fs
  fs ← sys_free io_buf fs
  some (some count, fs)

-- `max_byts` is 140 blocks. `file` is the slot at this index; sizes do not wrap around 2^32.
unfoldable pub file_write : ℕ → Ptr → ℕ → Fs → Option (Option ℕ × Fs)
file_write file buf count fs =
    let inode = (fs.file_table file).fd_inode in
    let (io_buf, fs₁) = sys_malloc 512 fs in
    let (blocks_buf, fs₂) = sys_malloc 560 fs₁ in
    if ltb (140 * 512) (((fs.inodes inode).i_size + count) % 0x1_0000_0000)
    then some (none, fs)
    else if io_buf == null
    then some (none, fs₁)
    else if blocks_buf == null
    then some (none, fs₂)
    else on_ok (first_block inode fs₂) (λ done fs.
      on_ok (blocks_to_write inode count fs)
        (λ all_blocks_lba fs. write_bytes file inode io_buf blocks_buf buf count all_blocks_lba fs))
