-- ===== src/Fs/Calls.antt =====
-- The search for a path and the calls on files by path, of fs/fs.c: `search_file`, `sys_open`,
-- `sys_unlink`, `sys_stat`, `sys_chdir`.
pub mod Directory
pub mod Cwd
use Prim.Native.Nat.{bit_and}
use jack_os.Base.{
  ℕ, zero, suc, ◌+◌, ◌-◌, Bool, true, false, not, ◌&&◌, ◌||◌, List, [], ◌∷◌, ◌++◌, Option, none,
  some, ltb, leb, ◌==◌, if◌then◌else◌, assert, ◌>>=◌, ◌>>◌, length, get_or,
}
use jack_os.CString.{Ptr, null}
use jack_os.Fs.{Fs, FileDesc, sys_malloc, sys_free}
use jack_os.Fs.Inodes.{inode_open, inode_close}
use jack_os.Fs.Blocks.{inode_release}
use jack_os.Fs.Dirs.{
  DirEntry, ft_unknow, ft_regular, ft_directory, dir_open, dir_close, search_dir_entry, dot,
  dot_dot,
}
use jack_os.Fs.Dirs.Delete.{delete_dir_entry}
use jack_os.Fs.Paths.{slash, max_file_name_len, path_parse, parse_next, path_depth_cnt, base_name}
use jack_os.Fs.Files.{file_open}
use jack_os.Fs.Files.Create.{file_create}

pub record PathSearchRecord : Type 0 where
  pub searched_path : List ℕ
  pub parent_dir : Ptr
  pub file_type : ℕ

-- The bytes of two strings are the same.
abbrev pub same_text : List ℕ → List ℕ → Bool
same_text [] [] = true
same_text [] (c ∷ cs) = false
same_text (b ∷ bs) [] = false
same_text (b ∷ bs) (c ∷ cs) = (b == c) && same_text bs cs

-- `/`, `/.` and `/..`.
abbrev pub is_root : List ℕ → Bool
is_root p = same_text p (slash ∷ []) || same_text p (slash ∷ dot) || same_text p (slash ∷ dot_dot)

-- The end of the path was reached: back to the directory above.
unfoldable pub search_end :
    PathSearchRecord → ℕ → ℕ → Fs → Option (Option ℕ × PathSearchRecord × Fs)
search_end r parent_inode_no i_no fs = do
  fs ← dir_close r.parent_dir fs
  (parent_dir, fs) ← dir_open parent_inode_no fs
  some (some i_no, record r { parent_dir = parent_dir; file_type = ft_directory }, fs)

-- The loop, on fuel. `parent_dir` is that of `r`; `i_no` is that of the entry found last.
unfoldable pub search_loop :
    ℕ
    → List ℕ
    → Option (List ℕ)
    → ℕ
    → ℕ
    → PathSearchRecord
    → Fs
    → Option (Option ℕ × PathSearchRecord × Fs)
search_loop zero name sub_path parent_inode_no i_no r fs = none
search_loop (suc fuel) [] sub_path parent_inode_no i_no r fs = search_end r parent_inode_no i_no fs
search_loop (suc fuel) (c ∷ cs) sub_path parent_inode_no i_no r fs = do
  assert (ltb (length (c ∷ cs)) max_file_name_len)
  assert (ltb (length r.searched_path) 512)
  let r : PathSearchRecord = record r { searched_path = r.searched_path ++ (slash ∷ c ∷ cs) }
  (found, fs) ← search_dir_entry r.parent_dir (c ∷ cs) fs
  elim found [
    | none ↦ some (none, r, fs)
    | some dir_e ↦ (do
      let (name, sub_path) = parse_next sub_path
      let above = (fs.inodes (fs.dirs r.parent_dir).inode).i_no
      (if dir_e.f_type == ft_directory
          then (do
            fs ← dir_close r.parent_dir fs
            (parent_dir, fs) ← dir_open dir_e.i_no fs
            search_loop fuel name sub_path above dir_e.i_no (record r { parent_dir = parent_dir })
                fs)
          else if dir_e.f_type == ft_regular
          then some (some dir_e.i_no, record r { file_type = ft_regular }, fs)
          else search_loop fuel name sub_path parent_inode_no dir_e.i_no r fs))
  ]

-- The record was cleared by the caller.
unfoldable pub search_file : List ℕ → Fs → Option (Option ℕ × PathSearchRecord × Fs)
search_file pathname fs =
    if is_root pathname
    then some (
      some 0,
      record { searched_path = []; parent_dir = fs.root_dir; file_type = ft_directory },
      fs,
    )
    else (do
      let path_len = length pathname
      assert ((get_or pathname 0 0 == slash) && ltb 1 path_len && ltb path_len 512)
      let r : PathSearchRecord = record {
        searched_path = [];
        parent_dir = fs.root_dir;
        file_type = ft_unknow;
      }
      let (name, sub_path) = path_parse pathname
      search_loop (suc path_len) name sub_path 0 fs.garbage r fs)

-- The directory of the search is closed, and the call returns `result`.
unfoldable pub leave {ℓ} : {A : Type ℓ} → A → PathSearchRecord → Fs → Option (A × Fs)
leave result r fs = do fs ← dir_close r.parent_dir fs; some (result, fs)

-- `flags & O_CREAT`
abbrev pub creates : ℕ → Bool
creates flags = not (bit_and flags 4 == 0)

-- What `sys_open` does once the search is over; a file that is there is opened with the directory of
-- the search left open.
unfoldable pub open_found : List ℕ → ℕ → Option ℕ → PathSearchRecord → Fs → Option (Option ℕ × Fs)
open_found pathname flags (some inode_no) r fs =
    if creates flags then leave none r fs else file_open inode_no flags fs
open_found pathname flags none r fs =
    if creates flags
    then (do
      filename ← base_name pathname
      (fd, fs) ← file_create r.parent_dir filename flags fs
      leave fd r fs)
    else leave none r fs

unfoldable pub sys_open : List ℕ → ℕ → Fs → Option (Option ℕ × Fs)
sys_open pathname flags fs =
    if get_or pathname (length pathname - 1) 0 == slash then some (none, fs) else (do
      assert (leb flags 7)
      pathname_depth ← path_depth_cnt fs.garbage pathname
      (inode_no, r, fs) ← search_file pathname fs
      (if r.file_type == ft_directory then leave none r fs else (do
        path_searched_depth ← path_depth_cnt fs.garbage r.searched_path
        (if pathname_depth == path_searched_depth
            then open_found pathname flags inode_no r fs
            else leave none r fs))))

-- Some slot from `file_idx` on, `left` of them, has the inode.
unfoldable pub in_use : ℕ → ℕ → ℕ → Fs → Bool
in_use inode_no file_idx zero fs = false
in_use inode_no file_idx (suc left) fs =
    let p = (fs.file_table file_idx).fd_inode in
    (not (p == null) && (inode_no == (fs.inodes p).i_no)) || in_use inode_no (file_idx + 1) left fs

-- The file is regular and no slot has it.
unfoldable pub unlink_found : ℕ → PathSearchRecord → Fs → Option (Option ℕ × Fs)
unlink_found inode_no r fs =
    let (io_buf, fs) = sys_malloc 1024 fs in
    if io_buf == null then leave none r fs else (do
      (deleted, fs) ← delete_dir_entry r.parent_dir inode_no io_buf fs
      fs ← inode_release inode_no fs
      fs ← sys_free io_buf fs
      leave (some 0) r fs)

unfoldable pub sys_unlink : List ℕ → Fs → Option (Option ℕ × Fs)
sys_unlink pathname fs = do
  assert (ltb (length pathname) 512)
  (found, r, fs) ← search_file pathname fs
  elim found [
    | none ↦ leave none r fs
    | some inode_no ↦ (do
      assert (not (inode_no == 0))
      (if r.file_type == ft_directory
          then leave none r fs
          else if in_use inode_no 0 32 fs
          then leave none r fs
          else unlink_found inode_no r fs))
  ]

pub record Stat : Type 0 where
  pub st_ino : ℕ
  pub st_size : ℕ
  pub st_filetype : ℕ

-- What is written to `buf`. The root's own entry is written first, and again by what follows.
unfoldable pub sys_stat : List ℕ → Stat → Fs → Option ((Option ℕ × Stat) × Fs)
sys_stat path buf fs = do
  let root : Stat = record {
    st_ino = 0;
    st_size = (fs.inodes (fs.dirs fs.root_dir).inode).i_size;
    st_filetype = ft_directory;
  }
  let buf = if is_root path then root else buf
  (found, r, fs) ← search_file path fs
  elim found [
    | none ↦ leave (none, buf) r fs
    | some inode_no ↦ (do
      (obj_inode, fs) ← inode_open inode_no fs
      let st_size = (fs.inodes obj_inode).i_size
      fs ← inode_close obj_inode fs
      leave (some 0, record { st_ino = inode_no; st_size = st_size; st_filetype = r.file_type }) r
          fs)
  ]

unfoldable pub sys_chdir : List ℕ → Fs → Option (Option ℕ × Fs)
sys_chdir path fs = do
  (found, r, fs) ← search_file path fs
  elim found [
    | none ↦ leave none r fs
    | some inode_no ↦
        if r.file_type == ft_directory
        then leave (some 0) r (record fs { cwd_inode_no = inode_no })
        else leave none r fs
  ]
