-- ===== src/Fs/Dirs/Insert.antt =====
-- `sync_dir_entry` of fs/dir.c: a place for a new entry.
use jack_os.Base.{
  ℕ, zero, suc, ◌+◌, ◌/◌, ◌%◌, Bool, true, false, Option, none, some, ltb, ◌==◌, if◌then◌else◌,
  update, assert, ◌>>=◌, ◌>>◌,
}
use jack_os.CString.{Memory, Ptr}
use jack_os.Bitmap.{bitmap_set}
use jack_os.Fs.{
  Fs, blit, ide_read, ide_write, clear, word_at, u32_sub, write_indirect, on_ok, set_inode,
  set_sector,
}
use jack_os.Fs.Blocks.{block_bitmap_alloc, bitmap_sync, block_bitmap}
use jack_os.Fs.Dirs.{DirEntry, entry_byte, ft_unknow}

-- A new block for an entry, at `block_idx`; `all` has the blocks found so far. -1 where none is left.
unfoldable pub entry_block : Ptr → (ℕ → ℕ) → ℕ → Fs → Option (Option (ℕ → ℕ) × Fs)
entry_block inode all block_idx fs = on_ok (block_bitmap_alloc fs) (λ block_lba fs. do
  let data_start_lba = fs.partition.sb.data_start_lba
  let fs = bitmap_sync (u32_sub block_lba data_start_lba) block_bitmap fs
  (if ltb block_idx 12
      then some (some (update all block_idx block_lba), set_sector inode block_idx block_lba fs)
      else if block_idx == 12
      then (do
        let fs = set_sector inode 12 block_lba fs
        (second, fs) ← block_bitmap_alloc fs
        elim second [
          | none ↦ do
            m ← bitmap_set fs.memory fs.partition.block_bitmap (u32_sub block_lba data_start_lba) 0
            some (none, set_sector inode 12 0 (record fs { memory = m }))
          | some lba ↦ do
            let fs = bitmap_sync (u32_sub lba data_start_lba) block_bitmap fs
            let all = update all 12 lba
            some (some all, write_indirect block_lba all fs)
        ])
      else (do
        let all = update all block_idx block_lba
        some (some all, write_indirect ((fs.inodes inode).i_sectors 12) all fs))))

-- An entry goes to `p` of the buffer, and the sector to the disk.
unfoldable pub put_entry : Ptr → DirEntry → Ptr → Ptr → ℕ → Fs → Fs
put_entry inode de io_buf p lba fs =
    let size = fs.partition.sb.dir_entry_size in
    let fs : Fs = record fs { memory = blit fs.memory p size (entry_byte de) } in
    let fs = ide_write lba io_buf 1 fs in
    let i = fs.inodes inode in
    set_inode inode (record i { i_size = (i.i_size + size) % 0x1_0000_0000 }) fs

-- The first of the entries from `de` on, 24 bytes each, whose type is FT_UNKNOW.
unfoldable pub free_entry : Memory → Ptr → ℕ → Option Ptr
free_entry m de zero = none
free_entry m de (suc left) =
    let rest = free_entry m (de + 24) left in
    if word_at m (de + 20) == ft_unknow then some de else rest

-- The blocks from `block_idx` on. `some false` is a call that returns `false`.
unfoldable pub insert_entry : Ptr → DirEntry → Ptr → (ℕ → ℕ) → ℕ → ℕ → Fs → Option (Bool × Fs)
insert_entry inode de io_buf all block_idx zero fs = some (false, fs)
insert_entry inode de io_buf all block_idx (suc left) fs =
    let size = fs.partition.sb.dir_entry_size in
    let fs₁ = ide_read (all block_idx) io_buf 1 fs in
    let rest = insert_entry inode de io_buf all (block_idx + 1) left fs₁ in
    if all block_idx == 0
    then (do
      (found, fs) ← entry_block inode all block_idx fs
      some (elim found [
        | none ↦ (false, fs)
        | some all ↦ (true, put_entry inode de io_buf io_buf (all block_idx) (clear io_buf 512 fs))
      ]))
    else elim (free_entry fs₁.memory io_buf (512 / size)) [
      | some p ↦ some (true, put_entry inode de io_buf p (all block_idx) fs₁)
      | none ↦ rest
    ]

-- Of the blocks, the direct ones are read.
unfoldable pub sync_dir_entry : Ptr → DirEntry → Ptr → Fs → Option (Bool × Fs)
sync_dir_entry parent_dir de io_buf fs = do
  let inode = (fs.dirs parent_dir).inode
  let i = fs.inodes inode
  assert (i.i_size % fs.partition.sb.dir_entry_size == 0)
  insert_entry inode de io_buf (λ k. if ltb k 12 then i.i_sectors k else 0) 0 140 fs
