-- ===== src/Fs/Dirs.antt =====
-- fs/dir.c. An entry of a directory is 24 bytes of a sector: 16 of a name, then the number of the inode
-- and the type. A name that is looked for is the list of its bytes.
pub mod Insert
pub mod Delete
pub mod Read
pub mod Search
mod Tests
use jack_os.Base.{
  ℕ, zero, suc, ◌+◌, ◌-◌, ◌*◌, ◌/◌, ◌%◌, Bool, true, false, not, ◌&&◌, ◌||◌, List, [], ◌∷◌, Option,
  none, some, ltb, leb, ◌==◌, if◌then◌else◌, update, assert, ◌>>=◌, ◌>>◌, length, get_or,
}
use jack_os.CString.{Memory, Ptr, null}
use jack_os.Bitmap.{bitmap_set}
use jack_os.Fs.{
  Inode, Dir, Fs, blit, ide_read, ide_write, clear, word_at, byte_of, u32_sub, sys_malloc, sys_free,
  write_indirect, on_ok, set_inode, set_sector, set_dir,
}
use jack_os.Fs.Inodes.{inode_sync, inode_open, inode_close}
use jack_os.Fs.Blocks.{block_bitmap_alloc, bitmap_sync, block_bitmap, all_blocks, inode_release}

-- FT_UNKNOW, FT_REGULAR and FT_DIRECTORY.
abbrev pub ft_unknow : ℕ
ft_unknow = 0

abbrev pub ft_regular : ℕ
ft_regular = 1

abbrev pub ft_directory : ℕ
ft_directory = 2

-- `filename` has 16 bytes.
pub record DirEntry : Type 0 where
  pub filename : ℕ → ℕ
  pub i_no : ℕ
  pub f_type : ℕ

-- The entry at an address, and the bytes of one.
abbrev pub entry_at : Memory → Ptr → DirEntry
entry_at m p = record {
  filename = λ k. m (p + k);
  i_no = word_at m (p + 16);
  f_type = word_at m (p + 20);
}

abbrev pub entry_byte : DirEntry → ℕ → ℕ
entry_byte de k =
    if ltb k 16
    then de.filename k
    else if ltb k 20
    then byte_of de.i_no (k - 16)
    else byte_of de.f_type (k - 20)

-- `!strcmp` of the string at `p` and a name.
abbrev pub matches : Memory → Ptr → List ℕ → Bool
matches m p [] = m p == 0
matches m p (c ∷ cs) = (m p == c) && matches m (p + 1) cs

-- The names `.` and `..`.
abbrev pub dot : List ℕ
dot = 46 ∷ []

abbrev pub dot_dot : List ℕ
dot_dot = 46 ∷ 46 ∷ []

unfoldable pub open_root_dir : Fs → Option Fs
open_root_dir fs = do
  (inode, fs) ← inode_open fs.partition.sb.root_inode_no fs
  some (set_dir fs.root_dir (record { inode = inode; dir_pos = 0 }) fs)

unfoldable pub dir_open : ℕ → Fs → Option (Ptr × Fs)
dir_open inode_no fs = do
  let (pdir, fs) = sys_malloc 520 fs
  (inode, fs) ← inode_open inode_no fs
  some (pdir, set_dir pdir (record { inode = inode; dir_pos = 0 }) fs)

unfoldable pub dir_close : Ptr → Fs → Option Fs
dir_close dir fs =
    if dir == fs.root_dir
    then some fs
    else (do fs ← inode_close (fs.dirs dir).inode fs; sys_free dir fs)

-- An entry after `memset` to 0, as the callers pass it.
abbrev pub cleared_entry : DirEntry
cleared_entry = record { filename = λ k. 0; i_no = 0; f_type = 0 }

-- The bytes of the name behind those of `filename` are kept.
unfoldable pub create_dir_entry : List ℕ → ℕ → ℕ → DirEntry → Option DirEntry
create_dir_entry filename inode_no file_type de = do
  assert (leb (length filename) 16)
  some (record {
    filename = λ k. if ltb k (length filename) then get_or filename k 0 else de.filename k;
    i_no = inode_no;
    f_type = file_type;
  })

-- The entries of 24 bytes at `de`, `left` of them: the first with the name.
unfoldable pub search_sector : Memory → Ptr → List ℕ → ℕ → Option Ptr
search_sector m de name zero = none
search_sector m de name (suc left) =
    let rest = search_sector m (de + 24) name left in if matches m de name then some de else rest

-- The blocks from `block_idx` on.
unfoldable pub search_blocks : Ptr → (ℕ → ℕ) → List ℕ → ℕ → ℕ → Fs → Option DirEntry × Fs
search_blocks buf all_blocks_lba name block_idx zero fs = (none, fs)
search_blocks buf all_blocks_lba name block_idx (suc left) fs =
    let lba = all_blocks_lba block_idx in
    let fs₁ = ide_read lba buf 1 fs in
    let size = fs.partition.sb.dir_entry_size in
    let skipped = search_blocks buf all_blocks_lba name (block_idx + 1) left fs in
    let rest = search_blocks buf all_blocks_lba name (block_idx + 1) left (clear buf 512 fs₁) in
    if lba == 0 then skipped else elim (search_sector fs₁.memory buf name (512 / size)) [
      | some de ↦ (some (entry_at fs₁.memory de), fs₁)
      | none ↦ rest
    ]

-- `all_blocks_lba` is cleared before it is tested against NULL, which is an ASSERT of `memset`.
unfoldable pub search_dir_entry : Ptr → List ℕ → Fs → Option (Option DirEntry × Fs)
search_dir_entry dir name fs = do
  let (blocks_buf, fs) = sys_malloc 560 fs
  assert (not (blocks_buf == null))
  let all_blocks_lba = all_blocks (fs.inodes (fs.dirs dir).inode) fs
  let (buf, fs) = sys_malloc 512 fs
  let (found, fs) = search_blocks buf all_blocks_lba name 0 140 fs
  fs ← sys_free buf fs
  fs ← sys_free blocks_buf fs
  some (found, fs)
