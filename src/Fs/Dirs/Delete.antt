-- ===== src/Fs/Dirs/Delete.antt =====
-- `delete_dir_entry` and `dir_remove` of fs/dir.c.
use jack_os.Base.{
  ℕ, zero, suc, ◌+◌, ◌-◌, ◌/◌, ◌%◌, Bool, true, false, not, ◌&&◌, Option, none, some, ltb, leb,
  ◌==◌, if◌then◌else◌, update, assert, ◌>>=◌, ◌>>◌,
}
use jack_os.CString.{Memory, Ptr, null}
use jack_os.Bitmap.{bitmap_set}
use jack_os.Fs.{
  Inode, Fs, ide_read, ide_write, clear, word_at, u32_sub, sys_malloc, sys_free, write_indirect,
  set_inode, set_sector,
}
use jack_os.Fs.Inodes.{inode_sync}
use jack_os.Fs.Blocks.{bitmap_sync, block_bitmap, all_blocks, inode_release}
use jack_os.Fs.Dirs.{dot, dot_dot, matches, ft_unknow}

-- What the walk of one sector finds: the entry, how many entries it counted (a `uint8_t`), and whether
-- it met `.`.
pub record Scan : Type 0 where
  pub de_found : Option Ptr
  pub dir_entry_cnt : ℕ
  pub is_dir_first_block : Bool

unfoldable pub scan_entry : Memory → Ptr → ℕ → Scan → Scan
scan_entry m de inode_no s =
    if word_at m (de + 20) == ft_unknow
    then s
    else if matches m de dot
    then record s { is_dir_first_block = true }
    else if matches m de dot_dot
    then s
    else record s {
      dir_entry_cnt = (s.dir_entry_cnt + 1) % 256;
      de_found = if word_at m (de + 16) == inode_no then some de else s.de_found;
    }

-- The walk stops at the entry it looks for.
unfoldable pub scan_sector : Memory → Ptr → ℕ → ℕ → Scan → Scan
scan_sector m de inode_no zero s = s
scan_sector m de inode_no (suc left) s =
    let rest = scan_sector m (de + 24) inode_no left (scan_entry m de inode_no s) in
    elim s.de_found [ none ↦ rest | some p ↦ s ]

-- The loop that counts the blocks of the indirect block: `indirect_blocks` stays 0. It passes the
-- entries that are not 0 and stays for ever at one that is: then there is no result.
unfoldable pub count_indirect : (ℕ → ℕ) → ℕ → ℕ → Option ℕ
count_indirect all indirect_block_idx zero = some 0
count_indirect all indirect_block_idx (suc left) =
    let rest = count_indirect all (indirect_block_idx + 1) left in
    if all indirect_block_idx == 0 then none else rest

-- The block is taken off the directory. The bit is counted from `block_bitmap_lba`.
unfoldable pub drop_block : Ptr → (ℕ → ℕ) → ℕ → Fs → Option Fs
drop_block inode all block_idx fs = do
  let sb = fs.partition.sb
  let block_bitmap_idx = u32_sub (all block_idx) sb.block_bitmap_lba
  m ← bitmap_set fs.memory fs.partition.block_bitmap block_bitmap_idx 0
  let fs = bitmap_sync block_bitmap_idx block_bitmap (record fs { memory = m })
  (if ltb block_idx 12 then some (set_sector inode block_idx 0 fs) else (do
    indirect_blocks ← count_indirect all 12 128
    assert (leb 1 indirect_blocks)
    let i = fs.inodes inode
    (if ltb 1 indirect_blocks
        then some (write_indirect (i.i_sectors 12) (update all block_idx 0) fs)
        else (do
          let block_bitmap_idx = u32_sub (i.i_sectors 12) sb.data_start_lba
          m ← bitmap_set fs.memory fs.partition.block_bitmap block_bitmap_idx 0
          let fs = bitmap_sync block_bitmap_idx block_bitmap (record fs { memory = m })
          some (set_sector inode 12 0 fs)))))

-- What follows once the entry is found at `p`.
unfoldable pub delete_found : Ptr → (ℕ → ℕ) → ℕ → Ptr → Scan → Ptr → Fs → Option (Bool × Fs)
delete_found inode all block_idx p s io_buf fs = do
  assert (leb 1 s.dir_entry_cnt)
  let size = fs.partition.sb.dir_entry_size
  fs ←
      (if (s.dir_entry_cnt == 1) && not s.is_dir_first_block
        then drop_block inode all block_idx fs
        else some (ide_write (all block_idx) io_buf 1 (clear p size fs)))
  let i = fs.inodes inode
  assert (leb size i.i_size)
  let fs = set_inode inode (record i { i_size = i.i_size - size }) fs
  fs ← inode_sync (fs.inodes inode) io_buf (clear io_buf 1024 fs)
  some (true, fs)

unfoldable pub delete_blocks : Ptr → (ℕ → ℕ) → ℕ → Ptr → ℕ → ℕ → Fs → Option (Bool × Fs)
delete_blocks inode all inode_no io_buf block_idx zero fs = some (false, fs)
delete_blocks inode all inode_no io_buf block_idx (suc left) fs =
    let size = fs.partition.sb.dir_entry_size in
    let fs₁ = ide_read (all block_idx) io_buf 1 (clear io_buf 512 fs) in
    let start : Scan = record { de_found = none; dir_entry_cnt = 0; is_dir_first_block = false } in
    let s = scan_sector fs₁.memory io_buf inode_no (512 / size) start in
    let skipped = delete_blocks inode all inode_no io_buf (block_idx + 1) left fs in
    let rest = delete_blocks inode all inode_no io_buf (block_idx + 1) left fs₁ in
    if all block_idx == 0
    then skipped
    else elim s.de_found [ none ↦ rest | some p ↦ delete_found inode all block_idx p s io_buf fs₁ ]

unfoldable pub delete_dir_entry : Ptr → ℕ → Ptr → Fs → Option (Bool × Fs)
delete_dir_entry dir inode_no io_buf fs =
    let inode = (fs.dirs dir).inode in
    delete_blocks inode (all_blocks (fs.inodes inode) fs) inode_no io_buf 0 140 fs

-- The sectors from `block_idx` on, `left` of them, are all 0.
unfoldable pub sectors_clear : Inode → ℕ → ℕ → Bool
sectors_clear i block_idx zero = true
sectors_clear i block_idx (suc left) =
    (i.i_sectors block_idx == 0) && sectors_clear i (block_idx + 1) left

unfoldable pub dir_remove : Ptr → Ptr → Fs → Option (Option ℕ × Fs)
dir_remove parent_dir child_dir fs = do
  let child_dir_inode = (fs.dirs child_dir).inode
  assert (sectors_clear (fs.inodes child_dir_inode) 1 11)
  let (io_buf, fs) = sys_malloc 1024 fs
  (if io_buf == null then some (none, fs) else (do
    (found, fs) ← delete_dir_entry parent_dir (fs.inodes child_dir_inode).i_no io_buf fs
    fs ← inode_release (fs.inodes child_dir_inode).i_no fs
    fs ← sys_free io_buf fs
    some (some 0, fs)))
