-- ===== src/Fs.antt =====
-- The state of the file system of fs/, with the types of lib/types.h, fs/super_block.h, fs/file.h and
-- device/ide.h: the bytes of the disk, the partition that is mounted, the inodes held in memory, the
-- open files. `none` is an ASSERT that failed; the result -1 is `none` inside the `some` of a call that
-- returns. `kprintf` only prints, and the interrupts that are off around a few stores are not modelled.
pub mod Bytes
pub mod Inodes
pub mod Blocks
pub mod Files
pub mod Pipes
pub mod Dirs
pub mod Paths
pub mod Layout
pub mod Calls
pub mod Tests
use jack_os.Base.{
  ℕ, zero, suc, ◌+◌, ◌-◌, ◌*◌, ◌/◌, ◌%◌, ◌^◌, Bool, true, false, not, ◌&&◌, List, [], ◌∷◌, Option,
  none, some, ltb, leb, ◌==◌, if◌then◌else◌, update, remove, assert, ◌>>=◌, ◌>>◌,
}
use jack_os.CString.{Memory, Ptr, null}
use jack_os.Bitmap.{Bitmap}

abbrev pub sector_size : ℕ
sector_size = 512

-- `i_open_cnt` counts modulo 2^32; `i_sectors` is the array of 13 numbers, by index. The tag that links
-- an open inode is the place of its address in `open_inodes`.
pub record Inode : Type 0 where
  pub i_no : ℕ
  pub i_size : ℕ
  pub i_open_cnt : ℕ
  pub write_deny : Bool
  pub i_sectors : ℕ → ℕ

pub record SuperBlock : Type 0 where
  pub magic : ℕ
  pub sec_cnt : ℕ
  pub inode_cnt : ℕ
  pub partition_lba_base : ℕ
  pub block_bitmap_lba : ℕ
  pub block_bitmap_sects : ℕ
  pub inode_bitmap_lba : ℕ
  pub inode_bitmap_sects : ℕ
  pub inode_table_lba : ℕ
  pub inode_table_sects : ℕ
  pub data_start_lba : ℕ
  pub root_inode_no : ℕ
  pub dir_entry_size : ℕ

pub record Partition : Type 0 where
  pub start_lba : ℕ
  pub sec_cnt : ℕ
  pub sb : SuperBlock
  pub block_bitmap : Bitmap
  pub inode_bitmap : Bitmap
  pub open_inodes : List Ptr

-- `fd_inode` is NULL where the slot is free.
pub record FileDesc : Type 0 where
  pub fd_pos : ℕ
  pub fd_flag : ℕ
  pub fd_inode : Ptr

-- A directory that is open; its `dir_buf` are the bytes of memory from 8 behind its address on.
pub record Dir : Type 0 where
  pub inode : Ptr
  pub dir_pos : ℕ

-- `pgdir`, `cwd_inode_no` and `fd_table` are those of the running thread; an entry -1 of `fd_table` is `none`. `disk`
-- has the byte at each place of the disk, 512 to a sector. `pick` is what decides which address
-- `sys_malloc` gives, from the page directory, the blocks in use and the size; `live` are the blocks. `garbage` is what a
-- local variable holds that is read before it is written.
pub record Fs : Type 0 where
  pub memory : Memory
  pub disk : ℕ → ℕ
  pub partition : Partition
  pub inodes : Ptr → Inode
  pub dirs : Ptr → Dir
  pub root_dir : Ptr
  pub file_table : ℕ → FileDesc
  pub fd_table : ℕ → Option ℕ
  pub pgdir : ℕ
  pub cwd_inode_no : ℕ
  pub pick : ℕ → List Ptr → ℕ → Option Ptr
  pub live : List Ptr
  pub garbage : ℕ

-- `n` bytes of memory at `p` become those of `bytes`.
abbrev pub blit : Memory → Ptr → ℕ → (ℕ → ℕ) → Memory
blit m p n bytes a = if leb p a && ltb a (p + n) then bytes (a - p) else m a

-- `ide_read` of `sec_cnt` sectors into memory, and `ide_write`.
abbrev pub ide_read : ℕ → Ptr → ℕ → Fs → Fs
ide_read lba buf sec_cnt fs = record fs {
  memory = blit fs.memory buf (sec_cnt * sector_size) (λ i. fs.disk (lba * sector_size + i));
}

abbrev pub ide_write : ℕ → Ptr → ℕ → Fs → Fs
ide_write lba buf sec_cnt fs = record fs {
  disk = blit fs.disk (lba * sector_size) (sec_cnt * sector_size) (λ i. fs.memory (buf + i));
}

-- Bytes set to 0 by `memset`, at an address that is not NULL.
abbrev pub clear : Ptr → ℕ → Fs → Fs
clear p n fs = record fs { memory = blit fs.memory p n (λ i. 0) }

-- A little-endian 32-bit number in bytes, and byte `k` of one.
abbrev pub word_at : (ℕ → ℕ) → ℕ → ℕ
word_at f a = f a + 256 * f (a + 1) + 65536 * f (a + 2) + 16777216 * f (a + 3)

abbrev pub u32_sub : ℕ → ℕ → ℕ
u32_sub a b = (a + 0x1_0000_0000 - b) % 0x1_0000_0000

abbrev pub byte_of : ℕ → ℕ → ℕ
byte_of w k = w / 256 ^ k % 256

-- A block of at least `size` bytes, cleared, or NULL.
unfoldable pub sys_malloc : ℕ → Fs → Ptr × Fs
sys_malloc size fs = elim (fs.pick fs.pgdir fs.live size) [
  | none ↦ (null, fs)
  | some p ↦ (p, clear p size (record fs { live = p ∷ fs.live }))
]

abbrev pub sys_free : Ptr → Fs → Option Fs
sys_free p fs = do assert (not (p == null)); some (record fs { live = remove p fs.live })

-- A sector read as 128 numbers, over an array of them from index 12 on.
abbrev pub read_indirect : ℕ → (ℕ → ℕ) → Fs → ℕ → ℕ
read_indirect lba all fs i =
    if leb 12 i && ltb i 140 then word_at fs.disk (lba * sector_size + (i - 12) * 4) else all i

abbrev pub write_indirect : ℕ → (ℕ → ℕ) → Fs → Fs
write_indirect lba all fs = record fs {
  disk = blit fs.disk (lba * sector_size) sector_size (λ i. byte_of (all (12 + i / 4)) (i % 4));
}

-- What follows a step that may fail with -1, in the state that the step left.
abbrev pub on_ok {ℓ κ} :
    {A : Type ℓ} {B : Type κ}
    → Option (Option A × Fs)
    → (A → Fs → Option (Option B × Fs))
    → Option (Option B × Fs)
on_ok r f = do (a, fs) ← r; elim a [ none ↦ some (none, fs) | some a ↦ f a fs ]

-- The fields of the running thread, of the partition and of a slot that the calls write.
abbrev pub set_inode : Ptr → Inode → Fs → Fs
set_inode p i fs = record fs { inodes = update fs.inodes p i }

abbrev pub set_sector : Ptr → ℕ → ℕ → Fs → Fs
set_sector p idx lba fs =
    let i = fs.inodes p in set_inode p (record i { i_sectors = update i.i_sectors idx lba }) fs

abbrev pub set_dir : Ptr → Dir → Fs → Fs
set_dir p d fs = record fs { dirs = update fs.dirs p d }

abbrev pub set_file : ℕ → FileDesc → Fs → Fs
set_file i f fs = record fs { file_table = update fs.file_table i f }

abbrev pub set_open_inodes : List Ptr → Fs → Fs
set_open_inodes l fs =
    let p = fs.partition in record fs { partition = record p { open_inodes = l } }
