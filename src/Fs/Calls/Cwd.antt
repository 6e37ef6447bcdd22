-- ===== src/Fs/Calls/Cwd.antt =====
-- `sys_getcwd` of fs/fs.c, with the two functions it calls.
use jack_os.Base.{
  ℕ, zero, suc, ◌+◌, ◌/◌, ◌&&◌, List, [], ◌∷◌, ◌++◌, Option, none, some, ltb, leb, ◌==◌,
  if◌then◌else◌, assert, ◌>>=◌, ◌>>◌, length,
}
use jack_os.CString.{Memory, Ptr, null}
use jack_os.Fs.{Fs, ide_read, word_at, sys_malloc, sys_free}
use jack_os.Fs.Inodes.{inode_open, inode_close}
use jack_os.Fs.Blocks.{all_blocks}
use jack_os.Fs.Dirs.{entry_at, ft_directory}
use jack_os.Fs.Paths.{slash, turn_path}

unfoldable pub get_parent_dir_inode_nr : ℕ → Ptr → Fs → Option (ℕ × Fs)
get_parent_dir_inode_nr child_inode_no io_buf fs = do
  (child_dir_inode, fs) ← inode_open child_inode_no fs
  let block_lba = (fs.inodes child_dir_inode).i_sectors 0
  assert (leb fs.partition.sb.data_start_lba block_lba)
  fs ← inode_close child_dir_inode fs
  let fs = ide_read block_lba io_buf 1 fs
  let de = entry_at fs.memory (io_buf + 24)
  assert (ltb de.i_no 4096 && (de.f_type == ft_directory))
  some (de.i_no, fs)

-- The string at an address, up to `left` bytes of it. An entry's number has a byte 0, so that 24 are
-- enough for its name.
unfoldable pub text_at : Memory → Ptr → ℕ → List ℕ
text_at m p zero = []
text_at m p (suc left) = let rest = text_at m (p + 1) left in if m p == 0 then [] else m p ∷ rest

-- The first entry of the sector with the inode.
unfoldable pub entry_of : Memory → Ptr → ℕ → ℕ → Option Ptr
entry_of m de c_inode_no zero = none
entry_of m de c_inode_no (suc left) =
    let rest = entry_of m (de + 24) c_inode_no left in
    if word_at m (de + 16) == c_inode_no then some de else rest

unfoldable pub name_in_blocks : (ℕ → ℕ) → ℕ → Ptr → ℕ → ℕ → Fs → Option (List ℕ) × Fs
name_in_blocks all c_inode_no io_buf block_idx zero fs = (none, fs)
name_in_blocks all c_inode_no io_buf block_idx (suc left) fs =
    let size = fs.partition.sb.dir_entry_size in
    let fs₁ = ide_read (all block_idx) io_buf 1 fs in
    let skipped = name_in_blocks all c_inode_no io_buf (block_idx + 1) left fs in
    let rest = name_in_blocks all c_inode_no io_buf (block_idx + 1) left fs₁ in
    if all block_idx == 0
    then skipped
    else elim (entry_of fs₁.memory io_buf c_inode_no (512 / size)) [
      | some de ↦ (some (text_at fs₁.memory de 24), fs₁)
      | none ↦ rest
    ]

-- `path` with the name behind it, or -1.
unfoldable pub get_child_dir_name : ℕ → ℕ → List ℕ → Ptr → Fs → Option (Option (List ℕ) × Fs)
get_child_dir_name p_inode_no c_inode_no path io_buf fs = do
  (parent_dir_inode, fs) ← inode_open p_inode_no fs
  let i = fs.inodes parent_dir_inode
  let all = all_blocks i fs
  let block_cnt = if i.i_sectors 12 == 0 then 12 else 140
  fs ← inode_close parent_dir_inode fs
  let (name, fs) = name_in_blocks all c_inode_no io_buf 0 block_cnt fs
  some (elim name [ none ↦ (none, fs) | some name ↦ (some (path ++ (slash ∷ name)), fs) ])

-- The loop up to the root, on fuel: a chain of directories that never meets it has no result.
unfoldable pub climb : ℕ → ℕ → List ℕ → Ptr → Fs → Option (Option (List ℕ) × Fs)
climb zero child_inode_no path io_buf fs = none
climb (suc fuel) child_inode_no path io_buf fs =
    if child_inode_no == 0 then some (some path, fs) else (do
      (parent_inode_no, fs) ← get_parent_dir_inode_nr child_inode_no io_buf fs
      (path, fs) ← get_child_dir_name parent_inode_no child_inode_no path io_buf fs
      elim path [ none ↦ some (none, fs) | some path ↦ climb fuel parent_inode_no path io_buf fs ])

-- The string that `buf` holds afterwards, or NULL. In the root directory the buffer for the disk is not
-- given back.
unfoldable pub sys_getcwd : ℕ → ℕ → Fs → Option (Option (List ℕ) × Fs)
sys_getcwd fuel size fs =
    let (io_buf, fs) = sys_malloc 512 fs in
    if io_buf == null then some (none, fs) else (do
      assert (ltb fs.cwd_inode_no 4096)
      (if fs.cwd_inode_no == 0 then some (some (slash ∷ []), fs) else (do
        (path, fs) ← climb fuel fs.cwd_inode_no [] io_buf fs
        fs ← sys_free io_buf fs
        elim path [
          | none ↦ some (none, fs)
          | some full_path_reverse ↦ (do
            assert (ltb (length full_path_reverse) size)
            buf ← turn_path (length full_path_reverse + 1) full_path_reverse []
            some (some buf, fs))
        ])))
