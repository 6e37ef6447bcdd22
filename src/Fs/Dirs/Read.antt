-- ===== src/Fs/Dirs/Read.antt =====
-- `dir_read` and `dir_is_empty` of fs/dir.c.
use jack_os.Base.{
  ℕ, zero, suc, ◌+◌, ◌*◌, ◌/◌, Bool, Option, none, some, ltb, ◌==◌, if◌then◌else◌, assert, ◌>>=◌,
  ◌>>◌,
}
use jack_os.CString.{Memory, Ptr}
use jack_os.Fs.{Fs, ide_read, word_at, set_dir}
use jack_os.Fs.Blocks.{all_blocks}
use jack_os.Fs.Dirs.{ft_unknow}

-- The first entry in use of the sector at `de`, once those before `dir_pos` are passed: it, or the
-- position behind the sector. The inner `none` is the ASSERT on the position.
unfoldable pub read_sector : Memory → Ptr → ℕ → ℕ → ℕ → ℕ → Option (Option Ptr × ℕ)
read_sector m de size dir_pos cur_dir_entry_pos zero = some (none, cur_dir_entry_pos)
read_sector m de size dir_pos cur_dir_entry_pos (suc left) =
    let skip = read_sector m (de + 24) size dir_pos cur_dir_entry_pos left in
    let pass = read_sector m (de + 24) size dir_pos (cur_dir_entry_pos + size) left in
    if word_at m (de + 20) == ft_unknow
    then skip
    else if ltb cur_dir_entry_pos dir_pos
    then pass
    else (do assert (cur_dir_entry_pos == dir_pos); some (some de, cur_dir_entry_pos))

-- The loop reads on until it finds an entry; past block 139 it would read behind its array, and the
-- model has no result there.
unfoldable pub read_blocks : Ptr → (ℕ → ℕ) → ℕ → ℕ → ℕ → Fs → Option (Option Ptr × Fs)
read_blocks dir all block_idx cur_dir_entry_pos zero fs = none
read_blocks dir all block_idx cur_dir_entry_pos (suc left) fs =
    let d = fs.dirs dir in
    let size = fs.partition.sb.dir_entry_size in
    let dir_e = dir + 8 in
    let fs₁ = ide_read (all block_idx) dir_e 1 fs in
    let skipped = read_blocks dir all (block_idx + 1) cur_dir_entry_pos left fs in
    let rest : ℕ → Option (Option Ptr × Fs) =
      λ pos. read_blocks dir all (block_idx + 1) pos left fs₁ in
    if all block_idx == 0 then skipped else (do
      (found, pos) ← read_sector fs₁.memory dir_e size d.dir_pos cur_dir_entry_pos (512 / size)
      elim found [
        | none ↦ rest pos
        | some de ↦ some (some de, set_dir dir (record d { dir_pos = d.dir_pos + size }) fs₁)
      ])

unfoldable pub dir_read : Ptr → Fs → Option (Option Ptr × Fs)
dir_read dir fs =
    let d = fs.dirs dir in
    let i = fs.inodes d.inode in
    let found = read_blocks dir (all_blocks i fs) 0 0 140 fs in
    if ltb d.dir_pos i.i_size then found else some (none, fs)

unfoldable pub dir_is_empty : Ptr → Fs → Bool
dir_is_empty dir fs = (fs.inodes (fs.dirs dir).inode).i_size == fs.partition.sb.dir_entry_size * 2
