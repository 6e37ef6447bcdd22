-- ===== src/Memory/Pages.antt =====
-- `palloc` and `pfree`: the pages of a pool.
use jack_os.Base.{
  ℕ, ◌+◌, ◌-◌, ◌*◌, ◌/◌, ◌<◌, ◌≤◌, ◌≡◌, refl, ◌⊎◌, inl, inr, Bool, true, false, none, some, arith,
  ◌==◌, if◌then◌else◌, leb,
}
use jack_os.CString.{Memory}
use jack_os.Bitmap.{bitmap_scan_test, u32}
use jack_os.Bitmap.Access.{IsBytes, bitmap_set_lem}
use jack_os.Bitmap.Scan.{size}
use jack_os.Bitmap.Alloc.{IsTaken, take_bit_lem}
use jack_os.Memory.{Pool, palloc, pfree, pg_size}

-- The pool's pages have 32-bit addresses.
pub record IsPool (p : Pool) : Type 0 where
  pub in_memory : p.phy_addr_start + p.pool_bitmap.btmp_byte_len * 8 * 4096 < 0x1_0000_0000

-- A page is taken.
abbrev pub is_used : Memory → Pool → ℕ → Bool
is_used m p page = bitmap_scan_test m p.pool_bitmap page

-- `palloc` of a pool in which every page is in use panics. Otherwise it returns the address of the
-- lowest free page, which then is in use, as are those that were and no other.
pub palloc_lem :
    (m : Memory) (p : Pool)
    → IsBytes m
    → IsPool p
    → ((palloc m p ≡ none) × ((i : ℕ) → i < size m p.pool_bitmap → is_used m p i ≡ true))
      ⊎ ((i : ℕ) × (m' : Memory) × (palloc m p ≡ some (some (p.phy_addr_start + i * 4096), m'))
          × IsTaken m p.pool_bitmap i m')
unfolding palloc
palloc_lem m p ok pool = elim (take_bit_lem m p.pool_bitmap ok (omega (arith, pool.in_memory))) [
  | inl (e, all) ↦ inl (rw e refl, all)
  | inr (i, m', e, w, taken) ↦
      let a : u32 (i * pg_size + p.phy_addr_start) ≡ p.phy_addr_start + i * 4096 =
        omega (arith, pool.in_memory, taken.inside) in
      inr (i, m', rw (e, w, a) refl, taken)
]

-- `pfree` of the address of page `i` of one of the two pools, the user's pages behind the kernel's,
-- returns, and of that pool's pages exactly page `i` is not in use any more unless it was not.
pfree_lem :
    (m : Memory) (kernel_pool user_pool : Pool) (of_user : Bool) (i : ℕ)
    → let p = if of_user then user_pool else kernel_pool in
      IsBytes m
      → IsPool kernel_pool
      → IsPool user_pool
      → kernel_pool.phy_addr_start + kernel_pool.pool_bitmap.btmp_byte_len * 8 * 4096
        ≤ user_pool.phy_addr_start
      → i < size m p.pool_bitmap
      → (m' : Memory) × (pfree m kernel_pool user_pool (p.phy_addr_start + i * 4096) ≡ some m')
        × IsBytes m'
        × ((j : ℕ) → is_used m' p j ≡ (if i == j then false else is_used m p j))
unfolding pfree
pfree_lem m kernel_pool user_pool true i ok kp up order lt =
    let (m', e, bytes, marks, frame) = bitmap_set_lem m user_pool.pool_bitmap i 0 ok (inl refl) in
    let test : leb user_pool.phy_addr_start (user_pool.phy_addr_start + i * 4096) ≡ true =
      ground arith in
    let idx : (user_pool.phy_addr_start + i * 4096 - user_pool.phy_addr_start) / 4096 ≡ i =
      omega arith in
    (m', rw (test, idx) e, bytes, λ j. ground (arith, marks j))
pfree_lem m kernel_pool user_pool false i ok kp up order lt =
    let (m', e, bytes, marks, frame) = bitmap_set_lem m kernel_pool.pool_bitmap i 0 ok (inl refl) in
    let test : leb user_pool.phy_addr_start (kernel_pool.phy_addr_start + i * 4096) ≡ false =
      ground arith in
    let idx : u32
            (kernel_pool.phy_addr_start + i * 4096 + 0x1_0000_0000 - kernel_pool.phy_addr_start)
          / 4096
        ≡ i =
      omega (arith, kp.in_memory) in
    (m', rw (test, idx) e, bytes, λ j. ground (arith, marks j))
