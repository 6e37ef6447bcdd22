-- ===== src/Fs/Blocks.antt =====
-- The bitmaps of a partition and the blocks of a file: `inode_bitmap_alloc`, `block_bitmap_alloc` and
-- `bitmap_sync` of fs/file.c, `inode_release` of fs/inode.c.
pub mod Allocate
mod Tests
use jack_os.Base.{
  ℕ, zero, suc, ◌+◌, ◌-◌, ◌*◌, ◌/◌, ◌%◌, Bool, true, false, not, ◌&&◌, Option, none, some, ltb, leb,
  ◌==◌, if◌then◌else◌, assert, ◌>>=◌, ◌>>◌,
}
use jack_os.CString.{Memory, Ptr}
use jack_os.Bitmap.{Bitmap, bitmap_scan, bitmap_set}
use jack_os.Fs.{Inode, Fs, ide_write, u32_sub, sys_malloc, sys_free, read_indirect}
use jack_os.Fs.Inodes.{inode_open, inode_close, inode_delete}

-- A bit of a bitmap is found and set, or none is found.
abbrev pub take_bit : Memory → Bitmap → Option (Option ℕ × Memory)
take_bit m btmp = do
  found ← bitmap_scan m btmp 1
  elim found [
    | none ↦ some (none, m)
    | some bit_idx ↦ do m ← bitmap_set m btmp bit_idx 1; some (some bit_idx, m)
  ]

unfoldable pub inode_bitmap_alloc : Fs → Option (Option ℕ × Fs)
inode_bitmap_alloc fs = do
  (bit_idx, m) ← take_bit fs.memory fs.partition.inode_bitmap
  some (bit_idx, record fs { memory = m })

unfoldable pub block_bitmap_alloc : Fs → Option (Option ℕ × Fs)
block_bitmap_alloc fs = do
  (found, m) ← take_bit fs.memory fs.partition.block_bitmap
  let fs : Fs = record fs { memory = m }
  some (elim found [
    | none ↦ (none, fs)
    | some bit_idx ↦ (some ((fs.partition.sb.data_start_lba + bit_idx) % 0x1_0000_0000), fs)
  ])

-- INODE_BITMAP and BLOCK_BITMAP. No call passes another.
pub data BitmapType : Type 0 where
  inode_bitmap : BitmapType
  block_bitmap : BitmapType

unfoldable pub bitmap_sync : ℕ → BitmapType → Fs → Fs
bitmap_sync bit_idx inode_bitmap fs =
    let off_sec = bit_idx / 4096 in
    let off_size = off_sec * 512 in
    ide_write (fs.partition.sb.inode_bitmap_lba + off_sec)
      (fs.partition.inode_bitmap.bits + off_size) 1 fs
bitmap_sync bit_idx block_bitmap fs =
    let off_sec = bit_idx / 4096 in
    let off_size = off_sec * 512 in
    ide_write (fs.partition.sb.block_bitmap_lba + off_sec)
      (fs.partition.block_bitmap.bits + off_size) 1 fs

-- The blocks of an inode: 12 direct ones and, if there is an indirect block, the 128 it lists.
unfoldable pub all_blocks : Inode → Fs → ℕ → ℕ
all_blocks i fs k =
    if ltb k 12
    then i.i_sectors k
    else if i.i_sectors 12 == 0
    then 0
    else read_indirect (i.i_sectors 12) (λ k. 0) fs k

-- A block is given back, in memory and on the disk.
unfoldable pub block_free : ℕ → Fs → Option Fs
block_free lba fs = do
  let block_bitmap_idx = u32_sub lba fs.partition.sb.data_start_lba
  assert (ltb 0 block_bitmap_idx)
  m ← bitmap_set fs.memory fs.partition.block_bitmap block_bitmap_idx 0
  some (bitmap_sync block_bitmap_idx block_bitmap (record fs { memory = m }))

-- The blocks from `block_idx` on, `left` of them.
unfoldable pub blocks_free : (ℕ → ℕ) → ℕ → ℕ → Fs → Option Fs
blocks_free all_blocks_lba block_idx zero fs = some fs
blocks_free all_blocks_lba block_idx (suc left) fs = do
  let lba = all_blocks_lba block_idx
  fs ← (if lba == 0 then some fs else block_free lba fs)
  blocks_free all_blocks_lba (block_idx + 1) left fs

unfoldable pub inode_release : ℕ → Fs → Option Fs
inode_release inode_no fs = do
  (inode_to_delete, fs) ← inode_open inode_no fs
  let i = fs.inodes inode_to_delete
  assert (i.i_no == inode_no)
  let all_blocks_lba = all_blocks i fs
  let block_cnt = if i.i_sectors 12 == 0 then 12 else 140
  fs ← (if i.i_sectors 12 == 0 then some fs else block_free (i.i_sectors 12) fs)
  fs ← blocks_free all_blocks_lba 0 block_cnt fs
  m ← bitmap_set fs.memory fs.partition.inode_bitmap inode_no 0
  let fs = bitmap_sync inode_no inode_bitmap (record fs { memory = m })
  let (io_buf, fs) = sys_malloc 1024 fs
  fs ← inode_delete inode_no io_buf fs
  fs ← sys_free io_buf fs
  inode_close inode_to_delete fs
