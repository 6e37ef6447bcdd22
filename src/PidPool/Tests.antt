-- ===== src/PidPool/Tests.antt =====
-- The theorems about the pool of process ids where 1 and 2 are in use.
use jack_os.Base.{
  ℕ, ◌+◌, ◌<◌, ◌≤◌, ◌≡◌, ◌⊎◌, true, false, ◌||◌, none, some, refl, arith, ◌==◌, update,
}
use jack_os.CString.{Memory}
use jack_os.Bitmap.Access.{IsBytes}
use jack_os.PidPool.{PidPool, allocate_pid}
use jack_os.PidPool.Ids.{IsPidPool, used, allocate_pid_lem}

abbrev pid_pool : PidPool
pid_pool = record { pid_bitmap = record { btmp_byte_len = 128; bits = 500 }; pid_start = 1 }

abbrev memory : Memory
memory = update (λ a. 0) 500 3

memory-IsBytes : IsBytes memory
memory-IsBytes a = ground arith

pid_pool-IsPidPool : IsPidPool pid_pool memory
pid_pool-IsPidPool = record { from_one = refl; length = refl; bytes = memory-IsBytes }

allocate_pid_lem_example :
    ((allocate_pid pid_pool memory ≡ none)
      × ((i : ℕ) → i < 1024 → used pid_pool memory (i + 1) ≡ true))
    ⊎ ((pid : ℕ) × (m' : Memory) × (allocate_pid pid_pool memory ≡ some (pid, m'))
        × (0 < pid)
        × (pid ≤ 1024)
        × (used pid_pool memory pid ≡ false)
        × ((i : ℕ) → i + 1 < pid → used pid_pool memory (i + 1) ≡ true)
        × ((i : ℕ) → used pid_pool m' (i + 1) ≡ ((i + 1 == pid) || used pid_pool memory (i + 1)))
        × IsPidPool pid_pool m')
allocate_pid_lem_example = allocate_pid_lem pid_pool memory pid_pool-IsPidPool
