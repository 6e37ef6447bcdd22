-- ===== src/PidPool/Ids.antt =====
-- Which process ids `allocate_pid` and `release_pid` of thread/thread.c hand out and take back.
use jack_os.Base.{
  ℕ, ◌+◌, ◌-◌, ◌%◌, ◌<◌, ◌≤◌, ◌≡◌, ◌≢◌, ◌⊎◌, refl, inl, inr, Bool, true, false, ◌||◌, none, some,
  arith, ◌==◌, if◌then◌else◌,
}
use jack_os.CString.{Memory, Ptr, null}
use jack_os.Bitmap.{Bitmap, bitmap_scan_test}
use jack_os.Bitmap.Access.{IsBytes, bitmap_init_lem, bitmap_set_lem}
use jack_os.Bitmap.Alloc.{take_bit_lem}
use jack_os.PidPool.{PidPool, pid_pool_init, allocate_pid, release_pid}

-- A pool as `pid_pool_init` leaves it: ids from 1 to 1024.
pub record IsPidPool (p : PidPool) (m : Memory) : Type 0 where
  pub from_one : p.pid_start ≡ 1
  pub length : p.pid_bitmap.btmp_byte_len ≡ 128
  pub bytes : IsBytes m

-- An id is in use.
abbrev pub used : PidPool → Memory → ℕ → Bool
used p m pid = bitmap_scan_test m p.pid_bitmap (pid - 1)

-- `allocate_pid` panics if every id from 1 to 1024 is in use. Otherwise it returns the lowest id that
-- is not, from 1 to 1024, and of all ids exactly that one comes into use.
pub allocate_pid_lem :
    (p : PidPool) (m : Memory)
    → IsPidPool p m
    → ((allocate_pid p m ≡ none) × ((i : ℕ) → i < 1024 → used p m (i + 1) ≡ true))
      ⊎ ((pid : ℕ) × (m' : Memory) × (allocate_pid p m ≡ some (pid, m'))
          × (0 < pid)
          × (pid ≤ 1024)
          × (used p m pid ≡ false)
          × ((i : ℕ) → i + 1 < pid → used p m (i + 1) ≡ true)
          × ((i : ℕ) → used p m' (i + 1) ≡ ((i + 1 == pid) || used p m (i + 1)))
          × IsPidPool p m')
unfolding allocate_pid
allocate_pid_lem p m v = elim (take_bit_lem m p.pid_bitmap v.bytes (omega (arith, v.length))) [
  | inl (e, all) ↦ inl (rw e refl, λ i l. rw (back i) (all i (omega (arith, v.length))))
  | inr (b, m', e, w, taken) ↦
      let id : (p.pid_start + b) % 0x1_0000 ≡ b + 1 =
        omega (arith, v.from_one, v.length, taken.inside) in
      inr (
        b + 1,
        m',
        rw (e, w, id) refl,
        omega arith,
        omega (arith, taken.inside, v.length),
        rw (back b) taken.clear,
        λ i l. rw (back i) (taken.lowest i (omega arith)),
        λ i. rw (back i) (ground (arith, taken.marks i)),
        record { from_one = v.from_one; length = v.length; bytes = taken.bytes },
      )
]
  where
    back : (i : ℕ) → i + 1 - 1 ≡ i
    back i = omega arith

-- `release_pid` of an id from 1 to 1024 returns, and of all ids exactly that one is not in use after it
-- unless it was not.
pub release_pid_lem :
    (p : PidPool) (m : Memory) (pid : ℕ)
    → IsPidPool p m
    → 0 < pid
    → pid ≤ 1024
    → (m' : Memory) × (release_pid p pid m ≡ some m')
      × IsPidPool p m'
      × ((i : ℕ) → used p m' (i + 1) ≡ (if i + 1 == pid then false else used p m (i + 1)))
unfolding release_pid
release_pid_lem p m pid v pos top =
    let (m', e, bytes, marks, frame) =
      bitmap_set_lem m p.pid_bitmap (pid - 1) 0 v.bytes (inl refl) in
    let idx : (pid + 0x1_0000_0000 - p.pid_start) % 0x1_0000_0000 ≡ pid - 1 =
      omega (arith, v.from_one) in
    (
      m',
      rw idx e,
      record { from_one = v.from_one; length = v.length; bytes = bytes },
      λ i. ground (arith, marks (i + 1 - 1)),
    )

-- `pid_pool_init`, with the bits not at NULL, returns a pool of the ids from 1 to 1024, none in use.
pub pid_pool_init_lem :
    (pid_bitmap_bits : Ptr) (m : Memory)
    → pid_bitmap_bits ≢ null
    → (p : PidPool) × (m' : Memory) × (pid_pool_init pid_bitmap_bits m ≡ some (p, m'))
      × (p.pid_start ≡ 1)
      × ((i : ℕ) → i < 1024 → used p m' (i + 1) ≡ false)
unfolding pid_pool_init
pid_pool_init_lem pid_bitmap_bits m ne =
    let b : Bitmap = record { btmp_byte_len = 128; bits = pid_bitmap_bits } in
    let (m', e, clear, frame) = bitmap_init_lem m b ne in
    let back : (i : ℕ) → i + 1 - 1 ≡ i = λ i. omega arith in
    (
      record { pid_bitmap = b; pid_start = 1 },
      m',
      rw e refl,
      refl,
      λ i l. rw (back i) (clear i (omega arith)),
    )
