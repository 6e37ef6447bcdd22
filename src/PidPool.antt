-- ===== src/PidPool.antt =====
-- The pool of process ids of thread/thread.c, over the bitmap in memory. `pid_mutex` is held around
-- `allocate_pid` and `release_pid`. `pid_t` is an `int16_t`, of which the 16 bits are kept.
mod Ids
mod Tests
use jack_os.Base.{ℕ, ◌+◌, ◌-◌, ◌%◌, Option, none, some, ◌>>=◌}
use jack_os.CString.{Memory, Ptr}
use jack_os.Bitmap.{Bitmap, bitmap_init, bitmap_scan, bitmap_set}

-- `bits` is the address of `pid_bitmap_bits`.
pub record PidPool : Type 0 where
  pub pid_bitmap : Bitmap
  pub pid_start : ℕ

unfoldable pub pid_pool_init : Ptr → Memory → Option (PidPool × Memory)
pid_pool_init pid_bitmap_bits m = do
  let pid_pool : PidPool = record {
    pid_bitmap = record { btmp_byte_len = 128; bits = pid_bitmap_bits };
    pid_start = 1;
  }
  m ← bitmap_init m pid_pool.pid_bitmap
  some (pid_pool, m)

-- The id and the memory. The index is not tested against -1, which as the number of a bit is 2^32 - 1.
unfoldable pub allocate_pid : PidPool → Memory → Option (ℕ × Memory)
allocate_pid pid_pool m = do
  found ← bitmap_scan m pid_pool.pid_bitmap 1
  let bit_idx : ℕ = elim found [ none ↦ 0xffff_ffff | some i ↦ i ]
  m ← bitmap_set m pid_pool.pid_bitmap bit_idx 1
  some ((pid_pool.pid_start + bit_idx) % 0x1_0000, m)

-- `bit_idx` is a `uint32_t` parameter of `bitmap_set`.
unfoldable pub release_pid : PidPool → ℕ → Memory → Option Memory
release_pid pid_pool pid m =
    bitmap_set m pid_pool.pid_bitmap ((pid + 0x1_0000_0000 - pid_pool.pid_start) % 0x1_0000_0000) 0
