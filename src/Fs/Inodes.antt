-- ===== src/Fs/Inodes.antt =====
-- fs/inode.c.
pub mod Position
pub mod Load
pub mod Opened
mod Tests
use jack_os.Base.{
  remove, ℕ, zero, suc, ◌+◌, ◌-◌, ◌*◌, ◌/◌, ◌%◌, Bool, true, false, not, ◌&&◌, List, [], ◌∷◌,
  Option, none, some, ltb, leb, ◌==◌, if◌then◌else◌, update, assert, ◌>>=◌, ◌>>◌,
}
use jack_os.CString.{Memory, Ptr, null}
use jack_os.Bitmap.{bitmap_set}
use jack_os.Fs.{
  Inode, Partition, Fs, blit, ide_read, ide_write, clear, word_at, byte_of, sys_malloc, sys_free,
  read_indirect, set_inode, set_open_inodes,
}

pub record InodePosition : Type 0 where
  pub multi_sec : Bool
  pub sec_lba : ℕ
  pub off_size : ℕ

-- `sizeof(inode_t)`
abbrev pub inode_size : ℕ
inode_size = 76

unfoldable pub inode_locate : Partition → ℕ → Option InodePosition
inode_locate partition inode_no = do
  assert (ltb inode_no 4096)
  let inode_table_offset = inode_size * inode_no
  let offset_in_sec = inode_table_offset % 512
  let left_in_sec = 512 - offset_in_sec
  some (record {
    multi_sec = if ltb left_in_sec inode_size then false else true;
    sec_lba = partition.sb.inode_table_lba + inode_table_offset / 512;
    off_size = offset_in_sec;
  })

-- The 19 words of an inode: four fields, 13 sectors, the two pointers of the tag.
abbrev pub inode_word : Inode → ℕ → ℕ
inode_word i zero = i.i_no
inode_word i (suc zero) = i.i_size
inode_word i (suc (suc zero)) = i.i_open_cnt
inode_word i (suc (suc (suc zero))) = if i.write_deny then 1 else 0
inode_word i (suc (suc (suc (suc k)))) = if ltb k 13 then i.i_sectors k else 0

abbrev pub inode_byte : Inode → ℕ → ℕ
inode_byte i k = byte_of (inode_word i (k / 4)) (k % 4)

-- The inode whose bytes stand at `p`.
abbrev pub inode_at : Memory → Ptr → Inode
inode_at m p = record {
  i_no = word_at m p;
  i_size = word_at m (p + 4);
  i_open_cnt = word_at m (p + 8);
  write_deny = not (m (p + 12) == 0);
  i_sectors = λ k. word_at m (p + 16 + 4 * k);
}

-- The sectors that are read and written.
abbrev pub sectors_of : InodePosition → ℕ
sectors_of pos = if pos.multi_sec then 2 else 1

unfoldable pub inode_sync : Inode → Ptr → Fs → Option Fs
inode_sync inode io_buf fs = do
  let inode_no = inode.i_no % 256
  inode_pos ← inode_locate fs.partition inode_no
  assert (leb inode_pos.sec_lba (fs.partition.start_lba + fs.partition.sec_cnt))
  let new_inode : Inode = record inode { i_open_cnt = 0; write_deny = false }
  let sector_to_manipulate = sectors_of inode_pos
  let fs = ide_read inode_pos.sec_lba io_buf sector_to_manipulate fs
  let fs : Fs = record fs {
    memory = blit fs.memory (io_buf + inode_pos.off_size) inode_size (inode_byte new_inode);
  }
  some (ide_write inode_pos.sec_lba io_buf sector_to_manipulate fs)

-- The walk of the list of open inodes.
unfoldable pub find_open : (Ptr → Inode) → ℕ → List Ptr → Option Ptr
find_open inodes inode_no [] = none
find_open inodes inode_no (p ∷ ps) =
    let rest = find_open inodes inode_no ps in if (inodes p).i_no == inode_no then some p else rest

-- An inode that is not open: read from the disk into the kernel's heap. `sys_malloc` is not tested, but
-- `memcpy` asserts that neither address is NULL.
unfoldable pub inode_load : ℕ → Fs → Option (Ptr × Fs)
inode_load inode_no fs = do
  inode_pos ← inode_locate fs.partition inode_no
  let cur_pgdir_backup = fs.pgdir
  let (inode_found, fs) = sys_malloc inode_size (record fs { pgdir = null })
  let fs : Fs = record fs { pgdir = cur_pgdir_backup }
  let (inode_buf, fs) = sys_malloc (if inode_pos.multi_sec then 1024 else 512) fs
  let fs = ide_read inode_pos.sec_lba inode_buf (sectors_of inode_pos) fs
  assert (not (inode_found == null) && not (inode_buf + inode_pos.off_size == null))
  let i = inode_at fs.memory (inode_buf + inode_pos.off_size)
  let fs = set_inode inode_found (record i { i_open_cnt = 1 }) fs
  let fs = set_open_inodes (inode_found ∷ fs.partition.open_inodes) fs
  fs ← sys_free inode_buf fs
  some (inode_found, fs)

unfoldable pub inode_open : ℕ → Fs → Option (Ptr × Fs)
inode_open inode_no fs = elim (find_open fs.inodes inode_no fs.partition.open_inodes) [
  | some p ↦
      let i = fs.inodes p in
      some (p, set_inode p (record i { i_open_cnt = (i.i_open_cnt + 1) % 0x1_0000_0000 }) fs)
  | none ↦ inode_load inode_no fs
]

-- The last close.
unfoldable pub inode_drop : Ptr → Fs → Option Fs
inode_drop inode fs = do
  let fs = set_open_inodes (remove inode fs.partition.open_inodes) fs
  let cur_pagedir_backup = fs.pgdir
  fs ← sys_free inode (record fs { pgdir = null })
  some (record fs { pgdir = cur_pagedir_backup })

unfoldable pub inode_close : Ptr → Fs → Option Fs
inode_close inode fs =
    let i = fs.inodes inode in
    let left = (i.i_open_cnt + 0xffff_ffff) % 0x1_0000_0000 in
    let fs = set_inode inode (record i { i_open_cnt = left }) fs in
    if left == 0 then inode_drop inode fs else some fs

unfoldable pub inode_delete : ℕ → Ptr → Fs → Option Fs
inode_delete inode_no io_buf fs = do
  assert (ltb inode_no 4096)
  inode_pos ← inode_locate fs.partition inode_no
  assert (leb inode_pos.sec_lba (fs.partition.start_lba + fs.partition.sec_cnt))
  let fs = ide_read inode_pos.sec_lba io_buf (sectors_of inode_pos) fs
  let fs = clear (io_buf + inode_pos.off_size) inode_size fs
  some (ide_write inode_pos.sec_lba io_buf (sectors_of inode_pos) fs)

-- The tag keeps what it held.
unfoldable pub inode_init : ℕ → Inode → Inode
inode_init inode_no new_inode = record new_inode {
  i_no = inode_no;
  i_size = 0;
  i_open_cnt = 0;
  write_deny = false;
  i_sectors = λ k. if ltb k 13 then 0 else new_inode.i_sectors k;
}
