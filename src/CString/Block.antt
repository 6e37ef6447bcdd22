-- ===== src/CString/Block.antt =====
-- `memset` and `memcpy` of lib/string.c, byte by byte.
use jack_os.Base.{
  ℕ, zero, suc, ◌+◌, ◌-◌, ◌%◌, ◌≤◌, ◌≡◌, ◌≢◌, ◌⊎◌, Bool, ◌&&◌, some, arith, ltb, leb, if◌then◌else◌,
  update,
}
use jack_os.CString.{Memory, Ptr, null, memset_loop, memset, memcpy_loop, memcpy}

-- An address of the block of `size` bytes at `p`.
abbrev pub within : Ptr → ℕ → Ptr → Bool
within p size a = leb p a && ltb a (p + size)

memset_loop_lem :
    (m : Memory) (dst v size a : ℕ)
    → memset_loop m dst v size a ≡ (if within dst size a then v else m a)
unfolding memset_loop
memset_loop_lem m dst v zero a = ground arith
memset_loop_lem m dst v (suc size) a =
    ground (arith, memset_loop_lem (update m dst v) (dst + 1) v size a)

-- `memset` of a block that is not at NULL returns, with the bytes of the block set to the value and
-- every other byte as it was.
pub memset_lem :
    (m : Memory) (dst v size : ℕ)
    → dst ≢ null
    → (m' : Memory) × (memset m dst v size ≡ some m')
      × ((a : Ptr) → m' a ≡ (if within dst size a then v % 256 else m a))
unfolding memset
memset_lem m dst v size h =
    (memset_loop m dst (v % 256) size, ground arith, memset_loop_lem m dst (v % 256) size)

-- Copying upwards from `src` to `dst` does not read a byte that it has written.
abbrev pub Upward : Ptr → Ptr → ℕ → Type 0
Upward dst src size = (dst ≤ src) ⊎ (src + size ≤ dst)

memcpy_loop_lem :
    (m : Memory) (dst src size a : ℕ)
    → Upward dst src size
    → memcpy_loop m dst src size a ≡ (if within dst size a then m (src + (a - dst)) else m a)
unfolding memcpy_loop
memcpy_loop_lem m dst src zero a h = ground arith
memcpy_loop_lem m dst src (suc size) a h =
    ground (arith, memcpy_loop_lem (update m dst (m src)) (dst + 1) (src + 1) size a)

-- `memcpy` between blocks that are not at NULL, where the target lies below the source or apart from
-- it, returns; the target holds the bytes that the source held, and every other byte is as it was.
pub memcpy_lem :
    (m : Memory) (dst src size : ℕ)
    → dst ≢ null
    → src ≢ null
    → Upward dst src size
    → (m' : Memory) × (memcpy m dst src size ≡ some m')
      × ((a : Ptr) → m' a ≡ (if within dst size a then m (src + (a - dst)) else m a))
unfolding memcpy
memcpy_lem m dst src size hd hs h =
    (memcpy_loop m dst src size, ground arith, λ a. memcpy_loop_lem m dst src size a h)
