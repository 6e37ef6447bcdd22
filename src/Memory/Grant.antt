-- ===== src/Memory/Grant.antt =====
-- `malloc_page` of kernel/memory.c for the kernel, from a state in which the addresses that are not given
-- out are not mapped to one in which this holds.
use jack_os.Base.{
  ℕ, ◌+◌, ◌*◌, ◌/◌, ◌%◌, ◌<◌, ◌≤◌, ◌≡◌, ◌≢◌, inl, inr, refl, sym, ◌∙◌, ap, subst, true, false,
  false≢true, ◌||◌, none, some, arith, lt→ltb, ◌==◌, dec_lt, tally-same,
}
use jack_os.CString.{Memory, null}
use jack_os.Bitmap.{Bitmap, u32, bitmap_scan, bitmap_scan_test}
use jack_os.Bitmap.Access.{IsBytes}
use jack_os.Bitmap.Scan.{size, FreeRun}
use jack_os.Bitmap.FirstFit.{bitmap_scan_lem}
use jack_os.Memory.{Pool, Entries, addr_v2p, pg_size}
use jack_os.Memory.Pages.{IsPool, is_used}
use jack_os.Memory.Paging.{is_mapped}
use jack_os.Memory.Supply.{used_pages}
use jack_os.Memory.Range.{IsRange, IsGiven, page_loop_lem}
use jack_os.Memory.Marks.{in_run, IsMarked, set_bits_lem}
use jack_os.Memory.Virtual.{
  pf_kernel, Machine, set_memory, set_bits, vaddr_get, page_loop, malloc_page,
}

-- The kernel's memory is in order: an address that is not given out is not mapped.
pub record IsReady (s : Machine) : Type 0 where
  pub bytes : IsBytes s.memory
  pub pool : IsPool s.pools.kernel_pool
  pub pool_aligned : s.pools.kernel_pool.phy_addr_start % 4096 ≡ 0
  pub start_aligned : s.pools.kernel_vaddr.vaddr_start % 4096 ≡ 0
  pub some_start : 0 < s.pools.kernel_vaddr.vaddr_start
  pub below_tables :
      s.pools.kernel_vaddr.vaddr_start + s.pools.kernel_vaddr.vaddr_bitmap.btmp_byte_len * 8 * 4096
      ≤ 0xFFC0_0000
  pub apart :
      s.pools.kernel_pool.pool_bitmap.bits + s.pools.kernel_pool.pool_bitmap.btmp_byte_len
      ≤ s.pools.kernel_vaddr.vaddr_bitmap.bits
  pub unmapped :
      (i : ℕ)
      → i < s.pools.kernel_vaddr.vaddr_bitmap.btmp_byte_len * 8
      → bitmap_scan_test s.memory s.pools.kernel_vaddr.vaddr_bitmap i ≡ false
      → is_mapped s.entries (s.pools.kernel_vaddr.vaddr_start + i * 4096) ≡ false

-- The search finds the lowest run, if there is one.
found_run :
    (m : Memory) (b : Bitmap) (n f : ℕ)
    → IsBytes m
    → 0 < n
    → b.btmp_byte_len * 8 < 0x8000_0000
    → FreeRun m b f n
    → f + n ≤ size m b
    → (start : ℕ) × (bitmap_scan m b n ≡ some (some start)) × FreeRun m b start n × (start ≤ f)
found_run m b n f ok pos small run top = elim (bitmap_scan_lem m b n ok pos small) [
  | inl (e, all) ↦
      absurd (false≢true (sym (run f (omega arith) (omega arith)) ∙ all f (omega arith)))
  | inr (none, e, out) ↦ absurd (out f (ground arith) run)
  | inr (some start, e, (free, inside, below)) ↦ (
    start,
    e,
    free,
    elim (dec_lt f start) [ yes lt ↦ absurd (below f lt run) | no ge ↦ omega arith ],
  )
]

-- A test of a bitmap reads its bytes alone.
test_same :
    (m m' : Memory) (b : Bitmap) (i : ℕ)
    → m' (b.bits + i / 8) ≡ m (b.bits + i / 8)
    → bitmap_scan_test m' b i ≡ bitmap_scan_test m b i
unfolding bitmap_scan_test
test_same m m' b i e = rw e refl

vaddr_get-eq :
    (n start : ℕ) (s : Machine) (m₁ : Memory)
    → bitmap_scan s.memory s.pools.kernel_vaddr.vaddr_bitmap n ≡ some (some start)
    → set_bits n s.memory s.pools.kernel_vaddr.vaddr_bitmap start 1 ≡ some m₁
    → vaddr_get pf_kernel n s
      ≡ some (u32 (s.pools.kernel_vaddr.vaddr_start + start * pg_size), set_memory m₁ s)
unfolding vaddr_get
vaddr_get-eq n start s m₁ e w = rw (vaddr_get, e, w) refl

malloc_page-eq :
    (n v : ℕ) (s s₁ s' : Machine)
    → 0 < n
    → n < 3840
    → vaddr_get pf_kernel n s ≡ some (v, s₁)
    → 0 < v
    → page_loop n pf_kernel v s₁ ≡ some (some tt, s')
    → malloc_page pf_kernel n s ≡ some (v, s')
unfolding malloc_page
malloc_page-eq n v s s₁ s' pos small e ne w =
    let real : (v == null) ≡ false = ground arith in
    rw (malloc_page, lt→ltb 0 n pos, lt→ltb n 3840 small, e, real, w) refl

-- What `malloc_page` of `n` pages leaves, `start` being the first bit of the range.
pub record IsGranted (s : Machine) (n start : ℕ) (s' : Machine) (phys : ℕ → ℕ) : Type 0 where
  pub ready : IsReady s'
  pub inside : start + n ≤ s.pools.kernel_vaddr.vaddr_bitmap.btmp_byte_len * 8
  pub lowest : FreeRun s.memory s.pools.kernel_vaddr.vaddr_bitmap start n
  pub addresses :
      (i : ℕ)
      → i < s.pools.kernel_vaddr.vaddr_bitmap.btmp_byte_len * 8
      → bitmap_scan_test s'.memory s.pools.kernel_vaddr.vaddr_bitmap i
        ≡ (in_run start n i || bitmap_scan_test s.memory s.pools.kernel_vaddr.vaddr_bitmap i)
  pub pages :
      (j : ℕ)
      → j < n
      → IsGiven s.pools.kernel_pool s.memory s'.memory s'.entries
          (s.pools.kernel_vaddr.vaddr_start + start * 4096 + j * 4096)
          (phys j)
  pub distinct : (j k : ℕ) → j < k → k < n → phys j ≢ phys k
  pub kept :
      (w : ℕ)
      → w < 0xFFC0_0000
      → ((j : ℕ) → j < n → (s.pools.kernel_vaddr.vaddr_start + start * 4096) / 4096 + j ≢ w / 4096)
      → (is_mapped s'.entries w ≡ is_mapped s.entries w)
        × (is_mapped s.entries w ≡ true → addr_v2p s'.entries w ≡ addr_v2p s.entries w)

module _ (s : Machine) (n start : ℕ) (r : IsReady s)
    (free : FreeRun s.memory s.pools.kernel_vaddr.vaddr_bitmap start n)
    (top : start + n ≤ s.pools.kernel_vaddr.vaddr_bitmap.btmp_byte_len * 8) (m₁ : Memory)
    (set : IsMarked s.pools.kernel_vaddr.vaddr_bitmap start n s.memory m₁) where
  abbrev p : Pool
  p = s.pools.kernel_pool

  abbrev b : Bitmap
  b = s.pools.kernel_vaddr.vaddr_bitmap

  abbrev v : ℕ
  v = s.pools.kernel_vaddr.vaddr_start + start * 4096

  -- Marking the addresses does not touch the pool.
  used_same : (i : ℕ) → i < p.pool_bitmap.btmp_byte_len * 8 → is_used m₁ p i ≡ is_used s.memory p i
  used_same i l =
      let apart = r.apart in
      test_same s.memory m₁ p.pool_bitmap i
        (set.frame (p.pool_bitmap.bits + i / 8) (inl (omega arith)))

  run_gone : (j : ℕ) → j < n → is_mapped s.entries (v + j * 4096) ≡ false
  run_gone j l =
      subst (λ z. is_mapped s.entries z ≡ false) (omega arith)
        (r.unmapped (start + j) (omega arith) (free (start + j) (omega arith) (omega arith)))

  module _ (m' : Memory) (t' : Entries) (phys : ℕ → ℕ)
      (range : IsRange p n v m₁ m' s.entries t' phys) where
    address_bit :
        (i : ℕ)
        → i < b.btmp_byte_len * 8
        → bitmap_scan_test m' b i ≡ (in_run start n i || bitmap_scan_test s.memory b i)
    address_bit i l =
        let apart = r.apart in
        test_same m₁ m' b i (range.frame (b.bits + i / 8) (inr (omega arith))) ∙ set.marks i

    still_unmapped :
        (i : ℕ)
        → i < b.btmp_byte_len * 8
        → bitmap_scan_test m' b i ≡ false
        → is_mapped t' (s.pools.kernel_vaddr.vaddr_start + i * 4096) ≡ false
    still_unmapped i l f =
        let below = r.below_tables in
        let aligned = r.start_aligned in
        let bit = address_bit i l in
        let before : bitmap_scan_test s.memory b i ≡ false = ground arith in
        let away : (j : ℕ) → j < n → i ≢ start + j = λ j h e. ground arith in
        let (same, addr) =
          range.kept (s.pools.kernel_vaddr.vaddr_start + i * 4096) (omega arith)
            (λ j h e. away j h (omega arith)) in
        same ∙ r.unmapped i l before

    granted : IsGranted s n start (record s { memory = m'; entries = t' }) phys
    granted = record {
      ready = record {
        bytes = range.bytes;
        pool = r.pool;
        pool_aligned = r.pool_aligned;
        start_aligned = r.start_aligned;
        some_start = r.some_start;
        below_tables = r.below_tables;
        apart = r.apart;
        unmapped = still_unmapped;
      };
      inside = top;
      lowest = free;
      addresses = address_bit;
      pages = λ j l.
          let g = range.pages j l in
          record {
            mapped = g.mapped;
            placed = g.placed;
            inside = g.inside;
            free = sym (used_same (phys j) g.inside) ∙ g.free;
            taken = g.taken;
          };
      distinct = range.distinct;
      kept = range.kept;
    }

-- `malloc_page` of 1 to 3839 pages for the kernel, where no address that is not given out is mapped:
-- with `n` addresses of pages in a row that are not given out, and 2`n` pages of the pool free, it
-- returns. The addresses that it returns were not given out, and now they are, and no other. Each is
-- mapped to a page of the pool, which was free, is in use and is no other's of them; every other address
-- is mapped as it was. Still no address that is not given out is mapped.
pub malloc_page_lem :
    (s : Machine) (n f : ℕ)
    → IsReady s
    → 0 < n
    → n < 3840
    → s.pools.kernel_vaddr.vaddr_bitmap.btmp_byte_len * 8 < 0x8000_0000
    → FreeRun s.memory s.pools.kernel_vaddr.vaddr_bitmap f n
    → f + n ≤ s.pools.kernel_vaddr.vaddr_bitmap.btmp_byte_len * 8
    → used_pages s.memory s.pools.kernel_pool + 2 * n
      ≤ s.pools.kernel_pool.pool_bitmap.btmp_byte_len * 8
    → (start : ℕ) × (s' : Machine) × (phys : ℕ → ℕ) × (malloc_page pf_kernel n s
        ≡ some (s.pools.kernel_vaddr.vaddr_start + start * 4096, s'))
      × IsGranted s n start s' phys
malloc_page_lem s n f r pos few small run top enough =
    let b = s.pools.kernel_vaddr.vaddr_bitmap in
    let p = s.pools.kernel_pool in
    let (start, e, free, low) = found_run s.memory b n f r.bytes pos small run top in
    let (m₁, w, set) = set_bits_lem n s.memory b start r.bytes (omega arith) in
    let inside : start + n ≤ b.btmp_byte_len * 8 = omega arith in
    let below = r.below_tables in
    let same =
      tally-same (p.pool_bitmap.btmp_byte_len * 8) (λ i. is_used m₁ p i) (λ i. is_used s.memory p i)
        (used_same s n start r free inside m₁ set) in
    let v = s.pools.kernel_vaddr.vaddr_start + start * 4096 in
    let positive = r.some_start in
    let aligned = r.start_aligned in
    let place : u32 (s.pools.kernel_vaddr.vaddr_start + start * pg_size) ≡ v = omega arith in
    let got : vaddr_get pf_kernel n s ≡ some (v, set_memory m₁ s) =
      vaddr_get-eq n start s m₁ e w ∙ ap (λ z. some (z, set_memory m₁ s)) place in
    let (m', t', phys, e', range) =
      page_loop_lem n v (set_memory m₁ s) set.bytes r.pool r.pool_aligned (omega arith)
        (omega arith) (run_gone s n start r free inside m₁ set) (omega arith) in
    let s' : Machine = record s { memory = m'; entries = t' } in
    (
      start,
      s',
      phys,
      malloc_page-eq n v s (set_memory m₁ s) s' pos few got (omega arith) e',
      granted s n start r free inside m₁ set m' t' phys range,
    )
