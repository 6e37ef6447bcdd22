-- ===== src/Fs/Pipes.antt =====
-- shell/pipe.c: the queue of a pipe, in the page that the slot of the open file points to.
pub mod Full
mod Tests
use jack_os.Base.{
  ℕ, zero, suc, ◌+◌, ◌-◌, Bool, true, false, not, List, [], ◌∷◌, ◌++◌, Option, none, some, ltb,
  ◌==◌, if◌then◌else◌, update, length, take, ◌>>=◌,
}
use jack_os.CString.{Ptr, null}
use jack_os.Thread.{Kernel}
use jack_os.IoQueue.{
  IoQueue, bufsize, ioqueue_init, ioq_length, getchar_enter, getchar_finish, putchar_enter,
  putchar_finish,
}
use jack_os.Fs.{Fs, set_file}
use jack_os.Fs.Files.{pipe_flag, get_free_slot_in_global, pcb_fd_install, fd_local2global}

-- Where a call on a queue stands: it has returned `a`, or it waits in the queue, with `a` so far.
pub data Outcome {ℓ} (A : Type ℓ) : Type ℓ where
  returned waiting : A → IoQueue → Kernel → Outcome A

-- The loop of `pipe_read`, with the bytes that are in `buf`.
unfoldable pub read_loop : ℕ → List ℕ → IoQueue → Kernel → Option (Outcome (List ℕ))
read_loop zero got ioq k = some (returned got ioq k)
read_loop (suc left) got ioq k = do
  empty ← getchar_enter ioq k
  (if empty
      then some (waiting got ioq k)
      else (do (byte, ioq, k) ← getchar_finish ioq k; read_loop left (got ++ byte ∷ []) ioq k))

-- Of the queue of the pipe.
unfoldable pub pipe_read : ℕ → IoQueue → Kernel → Option (Outcome (List ℕ))
pipe_read count ioq k =
    let ioq_len = ioq_length ioq in
    let size = if ltb count ioq_len then count else ioq_len in read_loop size [] ioq k

-- The loop of `pipe_write` over the bytes of `buf` that are to be written, and how many were.
unfoldable pub write_loop : List ℕ → ℕ → IoQueue → Kernel → Option (Outcome ℕ)
write_loop [] bytes_write ioq k = some (returned bytes_write ioq k)
write_loop (byte ∷ buf) bytes_write ioq k = do
  full ← putchar_enter ioq k
  (if full
      then some (waiting bytes_write ioq k)
      else (do (ioq, k) ← putchar_finish byte ioq k; write_loop buf (bytes_write + 1) ioq k))

-- `count` is the length of `buf`.
unfoldable pub pipe_write : List ℕ → IoQueue → Kernel → Option (Outcome ℕ)
pipe_write buf ioq k =
    let count = length buf in
    let ioq_left = bufsize - ioq_length ioq in
    let size = if ltb count ioq_left then count else ioq_left in write_loop (take size buf) 0 ioq k

-- The queues by the address of their page, and the file system.
abbrev pub State : Type 0
State = (Ptr → IoQueue) × Fs

-- The two descriptors, or -1. Without a free slot the code writes before its table, and the model has
-- no result. `get_kernel_pages` gives one page, or NULL.
unfoldable pub sys_pipe : (Fs → Ptr × Fs) → State → Option (Option (Option ℕ × Option ℕ) × State)
sys_pipe get_kernel_pages (queues, fs) = do
  global_fd ← get_free_slot_in_global fs
  let (page, fs) = get_kernel_pages fs
  let f = fs.file_table global_fd
  (if page == null
      then some (none, (queues, set_file global_fd (record f { fd_inode = null }) fs))
      else (do
        let queues = update queues page (ioqueue_init (queues page))
        let fs = set_file global_fd (record { fd_pos = 2; fd_flag = pipe_flag; fd_inode = page }) fs
        let (fd₀, fs) = pcb_fd_install global_fd fs
        let (fd₁, fs) = pcb_fd_install global_fd fs
        some (some (fd₀, fd₁), (queues, fs))))
