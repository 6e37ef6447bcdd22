-- ===== src/Fs/Files.antt =====
-- The tables of open files and the calls on one: fs/file.c, and `fd_local2global`, `sys_close` and
-- `sys_lseek` of fs/fs.c, `is_pipe` and `sys_fd_redirect` of shell/pipe.c.
pub mod Seek
pub mod Write
pub mod Read
pub mod Create
mod Tests
use Prim.Native.Nat.{bit_and}
use jack_os.Base.{
  ℕ, zero, suc, ◌+◌, ◌-◌, ◌*◌, ◌/◌, ◌%◌, Bool, true, false, not, ◌&&◌, ◌||◌, Option, none, some,
  ltb, leb, ◌==◌, if◌then◌else◌, update, assert, ◌>>=◌, ◌>>◌,
}
use jack_os.CString.{Ptr, null}
use jack_os.Fs.{FileDesc, Fs, set_inode, set_file}
use jack_os.Fs.Inodes.{inode_open, inode_close}

abbrev pub max_file_open : ℕ
max_file_open = 32

abbrev pub max_file_open_per_proc : ℕ
max_file_open_per_proc = 8

-- `fd_flag` of a pipe.
abbrev pub pipe_flag : ℕ
pipe_flag = 0xFFFF

-- The first of the slots from `fd_idx` on, `left` of them, that is free.
unfoldable pub free_slot_from : (ℕ → FileDesc) → ℕ → ℕ → Option ℕ
free_slot_from file_table fd_idx zero = none
free_slot_from file_table fd_idx (suc left) =
    let rest = free_slot_from file_table (fd_idx + 1) left in
    if (file_table fd_idx).fd_inode == null then some fd_idx else rest

unfoldable pub get_free_slot_in_global : Fs → Option ℕ
get_free_slot_in_global fs = free_slot_from fs.file_table 3 (max_file_open - 3)

-- The first of the entries from `local_fd_idx` on, `left` of them, that is -1.
unfoldable pub free_local_from : (ℕ → Option ℕ) → ℕ → ℕ → Option ℕ
free_local_from fd_table local_fd_idx zero = none
free_local_from fd_table local_fd_idx (suc left) =
    let rest = free_local_from fd_table (local_fd_idx + 1) left in
    elim (fd_table local_fd_idx) [ none ↦ some local_fd_idx | some g ↦ rest ]

unfoldable pub pcb_fd_install : ℕ → Fs → Option ℕ × Fs
pcb_fd_install globa_fd_idx fs = elim (free_local_from fs.fd_table 3 (max_file_open_per_proc - 3)) [
  | none ↦ (none, fs)
  | some local_fd_idx ↦ (
    some local_fd_idx,
    record fs { fd_table = update fs.fd_table local_fd_idx (some globa_fd_idx) },
  )
]

-- O_WRONLY or O_RDWD.
abbrev pub writes : ℕ → Bool
writes flag = not (bit_and flag 1 == 0) || not (bit_and flag 2 == 0)

-- The mark of the one writer of an inode.
unfoldable pub deny_write : ℕ → Ptr → Fs → Option Fs
deny_write flag inode fs =
    let i = fs.inodes inode in
    if writes flag
    then (if i.write_deny then none else some (set_inode inode (record i { write_deny = true }) fs))
    else some fs

unfoldable pub file_open : ℕ → ℕ → Fs → Option (Option ℕ × Fs)
file_open inode_no flag fs = elim (get_free_slot_in_global fs) [
  | none ↦ some (none, fs)
  | some fd_idx ↦ do
    (inode, fs) ← inode_open inode_no fs
    let fs = set_file fd_idx (record { fd_pos = 0; fd_flag = flag; fd_inode = inode }) fs
    some (elim (deny_write flag inode fs) [
      | none ↦ (none, fs)
      | some fs' ↦ pcb_fd_install fd_idx fs'
    ])
]

-- `file` is the slot at this index, not NULL.
unfoldable pub file_close : ℕ → Fs → Option Fs
file_close file fs = do
  let f = fs.file_table file
  let i = fs.inodes f.fd_inode
  fs ← inode_close f.fd_inode (set_inode f.fd_inode (record i { write_deny = false }) fs)
  some (set_file file (record f { fd_inode = null }) fs)

unfoldable pub fd_local2global : ℕ → Fs → Option ℕ
fd_local2global local_fd fs = do
  global_fd ← fs.fd_table local_fd
  assert (ltb global_fd max_file_open)
  some global_fd

unfoldable pub is_pipe : ℕ → Fs → Option Bool
is_pipe local_fd fs = do
  global_fd ← fd_local2global local_fd fs
  some ((fs.file_table global_fd).fd_flag == pipe_flag)

-- An end of a pipe is closed. The last one gives back the page of the queue.
unfoldable pub pipe_close : (Ptr → Fs → Option Fs) → ℕ → Fs → Option Fs
pipe_close mfree_page fd_global fs =
    let f = fs.file_table fd_global in
    let left = (f.fd_pos + 0xffff_ffff) % 0x1_0000_0000 in
    let fs = set_file fd_global (record f { fd_pos = left }) fs in
    if left == 0
    then (do
      fs ← mfree_page f.fd_inode fs
      some (set_file fd_global (record { fd_pos = left; fd_flag = f.fd_flag; fd_inode = null }) fs))
    else some fs

-- `fd` is not negative here; a negative one gives -1 as 0, 1 and 2 do.
unfoldable pub sys_close : (Ptr → Fs → Option Fs) → ℕ → Fs → Option (Option ℕ × Fs)
sys_close mfree_page fd fs =
    if ltb 2 fd
    then (do
      fd_global ← fd_local2global fd fs
      pipe ← is_pipe fd fs
      fs ← (if pipe then pipe_close mfree_page fd_global fs else file_close fd_global fs)
      some (some 0, record fs { fd_table = update fs.fd_table fd none }))
    else some (none, fs)

-- `cur->fd_table[old_local_fd]` of the tables that are given.
unfoldable pub sys_fd_redirect : ℕ → ℕ → Fs → Fs
sys_fd_redirect old_local_fd new_local_fd fs =
    let new_global_fd =
      if ltb new_local_fd 3 then some new_local_fd else fs.fd_table new_local_fd in
    record fs { fd_table = update fs.fd_table old_local_fd new_global_fd }

pub data Whence : Type 0 where
  seek_set : Whence
  seek_cur : Whence
  seek_end : Whence

-- An `int32_t`, held as its 32 bits: negative from 2^31 on.
abbrev pub base_of : Whence → FileDesc → ℕ → ℕ
base_of seek_set pf file_size = 0
base_of seek_cur pf file_size = pf.fd_pos
base_of seek_end pf file_size = file_size

-- `new_pos > file_size - 1` compares `int32_t`: at size 0 every position is past -1.
unfoldable pub sys_lseek : ℕ → ℕ → Whence → Fs → Option (Option ℕ × Fs)
sys_lseek fd offset whence fs = do
  global_fd ← fd_local2global fd fs
  let pf = fs.file_table global_fd
  let file_size = (fs.inodes pf.fd_inode).i_size
  let new_pos = (base_of whence pf file_size + offset) % 0x1_0000_0000
  some (
      if leb 0x8000_0000 new_pos || leb file_size new_pos
      then (none, fs)
      else (some new_pos, set_file global_fd (record pf { fd_pos = new_pos }) fs))
