-- ===== src/Fs/Files/Create.antt =====
-- `file_create` of fs/file.c, with the steps back of its failures.
use jack_os.Base.{ℕ, false, List, ◌∷◌, Option, none, some, ◌==◌, if◌then◌else◌, ◌>>=◌}
use jack_os.CString.{Ptr, null}
use jack_os.Bitmap.{bitmap_set}
use jack_os.Fs.{Fs, clear, sys_malloc, sys_free, on_ok, set_inode, set_open_inodes, set_file}
use jack_os.Fs.Inodes.{inode_size, inode_sync, inode_init}
use jack_os.Fs.Blocks.{inode_bitmap_alloc, bitmap_sync, inode_bitmap}
use jack_os.Fs.Dirs.{ft_regular, create_dir_entry, cleared_entry}
use jack_os.Fs.Dirs.Insert.{sync_dir_entry}
use jack_os.Fs.Files.{get_free_slot_in_global, pcb_fd_install}

-- `rollback_step` 1, 2 and 3: the bit of the inode, and the buffer, which is freed in any case.
unfoldable pub rollback_1 : ℕ → Ptr → Fs → Option (Option ℕ × Fs)
rollback_1 inode_no io_buf fs = do
  m ← bitmap_set fs.memory fs.partition.inode_bitmap inode_no 0
  fs ← sys_free io_buf (record fs { memory = m })
  some (none, fs)

unfoldable pub rollback_2 : Ptr → ℕ → Ptr → Fs → Option (Option ℕ × Fs)
rollback_2 new_file_node inode_no io_buf fs = do
  let user_pgdir_bk = fs.pgdir
  fs ← sys_free new_file_node (record fs { pgdir = null })
  rollback_1 inode_no io_buf (record fs { pgdir = user_pgdir_bk })

unfoldable pub rollback_3 : ℕ → Ptr → ℕ → Ptr → Fs → Option (Option ℕ × Fs)
rollback_3 global_fd_idx new_file_node inode_no io_buf fs =
    rollback_2 new_file_node inode_no io_buf
      (set_file global_fd_idx (record { fd_pos = 0; fd_flag = 0; fd_inode = null }) fs)

-- The entry of the directory is on the disk.
unfoldable pub created : Ptr → ℕ → Ptr → ℕ → Ptr → Fs → Option (Option ℕ × Fs)
created parent_dir global_fd_idx new_file_node inode_no io_buf fs = do
  fs ← inode_sync (fs.inodes (fs.dirs parent_dir).inode) io_buf (clear io_buf 1024 fs)
  fs ← inode_sync (fs.inodes new_file_node) io_buf (clear io_buf 1024 fs)
  let fs = bitmap_sync inode_no inode_bitmap (clear io_buf 1024 fs)
  let fs = set_open_inodes (new_file_node ∷ fs.partition.open_inodes) fs
  let i = fs.inodes new_file_node
  fs ← sys_free io_buf (set_inode new_file_node (record i { i_open_cnt = 1 }) fs)
  some (pcb_fd_install global_fd_idx fs)

-- There is an inode in memory.
unfoldable pub create_with : Ptr → List ℕ → ℕ → Ptr → ℕ → Ptr → Fs → Option (Option ℕ × Fs)
create_with parent_dir filename flag new_file_node inode_no io_buf fs =
    elim (get_free_slot_in_global fs) [
      | none ↦ rollback_2 new_file_node inode_no io_buf fs
      | some global_fd_idx ↦ do
        let fs =
            set_file global_fd_idx (record { fd_pos = 0; fd_flag = flag; fd_inode = new_file_node })
              fs
        let i = fs.inodes new_file_node
        let fs = set_inode new_file_node (record i { write_deny = false }) fs
        new_dir_entry ← create_dir_entry filename inode_no ft_regular cleared_entry
        (done, fs) ← sync_dir_entry parent_dir new_dir_entry io_buf fs
        (if done
            then created parent_dir global_fd_idx new_file_node inode_no io_buf fs
            else rollback_3 global_fd_idx new_file_node inode_no io_buf fs)
    ]

-- A failure to get the inode's memory leaves `pgdir` NULL.
unfoldable pub file_create : Ptr → List ℕ → ℕ → Fs → Option (Option ℕ × Fs)
file_create parent_dir filename flag fs =
    let (io_buf, fs) = sys_malloc 1024 fs in
    if io_buf == null
    then some (none, fs)
    else on_ok (inode_bitmap_alloc fs) (λ inode_no fs. do
      let user_pgdir_bk = fs.pgdir
      let (new_file_node, fs) = sys_malloc inode_size (record fs { pgdir = null })
      (if new_file_node == null then rollback_1 inode_no io_buf fs else (do
        let fs : Fs = set_inode new_file_node (inode_init inode_no (fs.inodes new_file_node)) fs
        create_with parent_dir filename flag new_file_node inode_no io_buf
            (record fs { pgdir = user_pgdir_bk }))))
