-- ===== src/Fs/Calls/Directory.antt =====
-- The calls on directories of fs/fs.c.
use jack_os.Base.{
  ℕ, ◌+◌, ◌*◌, false, not, ◌&&◌, ◌||◌, List, Option, none, some, ltb, ◌==◌, if◌then◌else◌, assert,
  ◌>>=◌, ◌>>◌, length, get_or, update,
}
use jack_os.CString.{Ptr, null}
use jack_os.Bitmap.{bitmap_set}
use jack_os.Fs.{Inode, Fs, blit, clear, ide_write, u32_sub, sys_malloc, sys_free, set_dir}
use jack_os.Fs.Inodes.{inode_sync}
use jack_os.Fs.Blocks.{inode_bitmap_alloc, block_bitmap_alloc, bitmap_sync, block_bitmap}
use jack_os.Fs.Dirs.{
  DirEntry, ft_regular, ft_directory, entry_byte, dir_open, dir_close, create_dir_entry,
  cleared_entry, dot, dot_dot,
}
use jack_os.Fs.Dirs.Insert.{sync_dir_entry}
use jack_os.Fs.Dirs.Delete.{dir_remove}
use jack_os.Fs.Dirs.Read.{dir_read, dir_is_empty}
use jack_os.Fs.Paths.{slash, path_depth_cnt, base_name}
use jack_os.Fs.Calls.{PathSearchRecord, search_file, leave}

-- `rollback_step` 1, with the buffer, which is freed in any case; and 2, which gives back the inode.
unfoldable pub mkdir_fail : Ptr → PathSearchRecord → Fs → Option (Option ℕ × Fs)
mkdir_fail io_buf r fs = do fs ← dir_close r.parent_dir fs; fs ← sys_free io_buf fs; some (none, fs)

unfoldable pub mkdir_fail_inode : ℕ → Ptr → PathSearchRecord → Fs → Option (Option ℕ × Fs)
mkdir_fail_inode inode_no io_buf r fs = do
  m ← bitmap_set fs.memory fs.partition.inode_bitmap inode_no 0
  mkdir_fail io_buf r (record fs { memory = m })

-- The entries `.` and `..` of the new directory, in its block.
unfoldable pub write_dots : ℕ → ℕ → ℕ → Ptr → Fs → Fs
write_dots inode_no parent_no block_lba io_buf fs =
    let named : List ℕ → ℕ → DirEntry =
      λ name i_no. record { filename = λ k. get_or name k 0; i_no = i_no; f_type = ft_directory } in
    let fs = clear io_buf 1024 fs in
    let fs : Fs = record fs {
      memory = blit fs.memory io_buf 24 (entry_byte (named dot inode_no));
    } in
    let fs : Fs = record fs {
      memory = blit fs.memory (io_buf + 24) 24 (entry_byte (named dot_dot parent_no));
    } in
    ide_write block_lba io_buf 1 fs

-- The inode and its block are there.
unfoldable pub mkdir_with : List ℕ → ℕ → ℕ → Ptr → PathSearchRecord → Fs → Option (Option ℕ × Fs)
mkdir_with dirname inode_no block_lba io_buf r fs = do
  let block_bitmap_idx = u32_sub block_lba fs.partition.sb.data_start_lba
  assert (not (block_bitmap_idx == 0))
  let fs = bitmap_sync block_bitmap_idx block_bitmap fs
  let parent = (fs.dirs r.parent_dir).inode
  let fs = write_dots inode_no (fs.inodes parent).i_no block_lba io_buf fs
  new_de ← create_dir_entry dirname inode_no ft_directory cleared_entry
  (done, fs) ← sync_dir_entry r.parent_dir new_de io_buf (clear io_buf 1024 fs)
  (if done
      then (do
        let new_dir_inode : Inode = record {
          i_no = inode_no;
          i_size = 2 * fs.partition.sb.dir_entry_size;
          i_open_cnt = 0;
          write_deny = false;
          i_sectors = update (λ k. 0) 0 block_lba;
        }
        fs ← inode_sync (fs.inodes parent) io_buf (clear io_buf 1024 fs)
        fs ← inode_sync new_dir_inode io_buf (clear io_buf 1024 fs)
        fs ← sys_free io_buf fs
        leave (some 0) r fs)
      else mkdir_fail_inode inode_no io_buf r fs)

-- The name is free and its directory is there.
unfoldable pub mkdir_new : Ptr → PathSearchRecord → Fs → Option (Option ℕ × Fs)
mkdir_new io_buf r fs = do
  dirname ← base_name r.searched_path
  (inode, fs) ← inode_bitmap_alloc fs
  elim inode [
    | none ↦ mkdir_fail io_buf r fs
    | some inode_no ↦ (do
      (block, fs) ← block_bitmap_alloc fs
      elim block [
        | none ↦ mkdir_fail_inode inode_no io_buf r fs
        | some block_lba ↦ mkdir_with dirname inode_no block_lba io_buf r fs
      ])
  ]

unfoldable pub sys_mkdir : List ℕ → Fs → Option (Option ℕ × Fs)
sys_mkdir pathname fs =
    let (io_buf, fs) = sys_malloc 1024 fs in
    if io_buf == null then some (none, fs) else (do
      (inode_no, r, fs) ← search_file pathname fs
      elim inode_no [
        | some i ↦ mkdir_fail io_buf r fs
        | none ↦ (do
          pathname_depth ← path_depth_cnt fs.garbage pathname
          path_searched_depth ← path_depth_cnt fs.garbage r.searched_path
          (if pathname_depth == path_searched_depth
              then mkdir_new io_buf r fs
              else mkdir_fail io_buf r fs))
      ])

-- The test looks at the first byte twice, so that every path but `/` is searched for.
unfoldable pub sys_opendir : List ℕ → Fs → Option (Option Ptr × Fs)
sys_opendir pathname fs = do
  assert (ltb (length pathname) 512)
  (if (get_or pathname 0 0 == slash) && ((get_or pathname 1 0 == 0) || (get_or pathname 0 0 == 46))
      then some (some fs.root_dir, fs)
      else (do
        (found, r, fs) ← search_file pathname fs
        elim found [
          | none ↦ leave none r fs
          | some inode_no ↦
              if r.file_type == ft_regular
              then leave none r fs
              else if r.file_type == ft_directory
              then (do (dir, fs) ← dir_open inode_no fs; leave (some dir) r fs)
              else leave none r fs
        ]))

unfoldable pub sys_closedir : Ptr → Fs → Option (Option ℕ × Fs)
sys_closedir dir fs =
    if dir == null then some (none, fs) else (do fs ← dir_close dir fs; some (some 0, fs))

unfoldable pub sys_readdir : Ptr → Fs → Option (Option Ptr × Fs)
sys_readdir dir fs = do assert (not (dir == null)); dir_read dir fs

unfoldable pub sys_rewinddir : Ptr → Fs → Fs
sys_rewinddir dir fs = let d = fs.dirs dir in set_dir dir (record d { dir_pos = 0 }) fs

-- What is not a regular file is taken for a directory.
unfoldable pub sys_rmdir : List ℕ → Fs → Option (Option ℕ × Fs)
sys_rmdir pathname fs = do
  (found, r, fs) ← search_file pathname fs
  elim found [
    | none ↦ leave none r fs
    | some inode_no ↦ (do
      assert (not (inode_no == 0))
      (if r.file_type == ft_regular then leave none r fs else (do
        (dir, fs) ← dir_open inode_no fs
        (retval, fs) ←
            (if dir_is_empty dir fs then dir_remove r.parent_dir dir fs else some (none, fs))
        fs ← dir_close dir fs
        leave retval r fs)))
  ]
