-- ===== src/Memory/Start.antt =====
-- `mem_pool_init` of kernel/memory.c: how the memory is divided at the start.
use jack_os.Base.{
  ℕ, ◌+◌, ◌-◌, ◌*◌, ◌/◌, ◌%◌, ◌<◌, ◌≤◌, ◌≡◌, ◌≢◌, inl, refl, ◌∙◌, false, some, arith,
}
use jack_os.CString.{Memory, Ptr, null}
use jack_os.Bitmap.{Bitmap, u32, bitmap_init, bitmap_scan_test}
use jack_os.Bitmap.Access.{bitmap_init_lem}
use jack_os.Bitmap.Scan.{size}
use jack_os.Memory.{
  VirtualAddr, Pools, pool_of, mem_bitmap_base, k_heap_start, pg_size, mem_pool_init,
}
use jack_os.Memory.Pages.{IsPool}

-- No bit of the bitmap is set.
abbrev pub AllClear : Memory → Bitmap → Type 0
AllClear m b = (j : ℕ) → j < size m b → bitmap_scan_test m b j ≡ false

-- A bitmap that is not written keeps its bits.
AllClear-frame :
    (m m' : Memory) (b : Bitmap)
    → ((a : Ptr) → b.bits ≤ a → a < b.bits + b.btmp_byte_len → m' a ≡ m a)
    → AllClear m b
    → AllClear m' b
unfolding bitmap_scan_test
AllClear-frame m m' b same clear j h =
    rw (same (b.bits + j / 8) (omega arith) (omega arith)) (clear j h)

-- Three bitmaps one behind the other, each set to 0 in turn.
inits_lem :
    (m : Memory) (b1 b2 b3 : Bitmap)
    → b1.bits ≢ null
    → b2.bits ≡ b1.bits + b1.btmp_byte_len
    → b3.bits ≡ b2.bits + b2.btmp_byte_len
    → (m1 : Memory) × (m2 : Memory) × (m3 : Memory) × (bitmap_init m b1 ≡ some m1)
      × (bitmap_init m1 b2 ≡ some m2)
      × (bitmap_init m2 b3 ≡ some m3)
      × AllClear m3 b1
      × AllClear m3 b2
      × AllClear m3 b3
inits_lem m b1 b2 b3 ne e2 e3 =
    let (m1, i1, c1, f1) = bitmap_init_lem m b1 ne in
    let (m2, i2, c2, f2) = bitmap_init_lem m1 b2 (λ z. ne (omega arith)) in
    let (m3, i3, c3, f3) = bitmap_init_lem m2 b3 (λ z. ne (omega arith)) in
    (
      m1,
      m2,
      m3,
      i1,
      i2,
      i3,
      AllClear-frame m1 m3 b1 (λ a l h. f3 a (inl (omega arith)) ∙ f2 a (inl (omega arith))) c1,
      AllClear-frame m2 m3 b2 (λ a l h. f3 a (inl (omega arith))) c2,
      c3,
    )

-- What the pools are after the start.
pub record IsStart (all_mem : ℕ) (p : Pools) (m : Memory) : Type 0 where
  pub kernel_from : p.kernel_pool.phy_addr_start ≡ 0x20_0000
  pub user_from : p.user_pool.phy_addr_start ≡ 0x20_0000 + p.kernel_pool.pool_size
  pub user_to : p.user_pool.phy_addr_start + p.user_pool.pool_size ≤ all_mem
  pub unused : all_mem < p.user_pool.phy_addr_start + p.user_pool.pool_size + 4096
  pub kernel_bits : p.kernel_pool.pool_bitmap.btmp_byte_len * 8 * 4096 ≤ p.kernel_pool.pool_size
  pub user_bits : p.user_pool.pool_bitmap.btmp_byte_len * 8 * 4096 ≤ p.user_pool.pool_size
  pub kernel_addresses : IsPool p.kernel_pool
  pub user_addresses : IsPool p.user_pool
  pub kernel_clear : AllClear m p.kernel_pool.pool_bitmap
  pub user_clear : AllClear m p.user_pool.pool_bitmap
  pub vaddr_clear : AllClear m p.kernel_vaddr.vaddr_bitmap

-- On a machine of at least 2 MiB and less than 258 MiB, `mem_pool_init` returns. The kernel's pool
-- starts at 2 MiB, the user's pool where the kernel's ends, and that ends within the last page of the
-- memory. Each pool is as large as its bitmap needs, and no bit of the three bitmaps is set.
pub mem_pool_init_lem :
    (all_mem : ℕ) (m : Memory)
    → 0x20_0000 ≤ all_mem
    → all_mem < 0x1020_0000
    → (p : Pools) × (m' : Memory) × (mem_pool_init all_mem m ≡ some (p, m')) × IsStart all_mem p m'
unfolding mem_pool_init
mem_pool_init_lem all_mem m low high =
    let pages = u32 (all_mem + 0x1_0000_0000 - 0x20_0000) / 4096 % 0x1_0000 in
    let n : u32 (all_mem + 0x1_0000_0000 - 0x20_0000) / 4096 % 0x1_0000
        ≡ (all_mem - 0x20_0000) / 4096 =
      omega arith in
    let k = pool_of (pages / 2) 0x20_0000 mem_bitmap_base in
    let u =
      pool_of (pages - pages / 2) (u32 (0x20_0000 + pages / 2 * pg_size))
        (mem_bitmap_base + pages / 2 / 8) in
    let v : VirtualAddr = record {
      vaddr_bitmap = record {
        btmp_byte_len = pages / 2 / 8;
        bits = mem_bitmap_base + pages / 2 / 8 + (pages - pages / 2) / 8;
      };
      vaddr_start = k_heap_start;
    } in
    let (m1, m2, m3, i1, i2, i3, c1, c2, c3) =
      inits_lem m k.pool_bitmap u.pool_bitmap v.vaddr_bitmap (omega arith) refl refl in
    (
      record { kernel_pool = k; user_pool = u; kernel_vaddr = v },
      m3,
      rw (i1, i2, i3) refl,
      record {
        kernel_from = refl;
        user_from = omega arith;
        user_to = omega arith;
        unused = omega arith;
        kernel_bits = omega arith;
        user_bits = omega arith;
        kernel_addresses = record { in_memory = omega arith };
        user_addresses = record { in_memory = omega arith };
        kernel_clear = c1;
        user_clear = c2;
        vaddr_clear = c3;
      },
    )
