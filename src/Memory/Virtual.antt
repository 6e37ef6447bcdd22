-- ===== src/Memory/Virtual.antt =====
-- Whole pages in kernel/memory.c: virtual addresses of a range of pages, `malloc_page` and `mfree_page`.
-- The mutexes of the pools are not modelled: each function runs with them held, or is the part between
-- `mutex_acquire` and `mutex_release`. A pointer is a number, NULL is 0.
use jack_os.Base.{
  ℕ, zero, suc, ◌+◌, ◌-◌, ◌*◌, ◌/◌, ◌%◌, not, ◌&&◌, Option, none, some, ltb, leb, ◌==◌,
  if◌then◌else◌, assert, ◌>>=◌, ◌>>◌,
}
use jack_os.CString.{Memory, Ptr, null, memset}
use jack_os.Bitmap.{Bitmap, u32, bitmap_scan, bitmap_set}
use jack_os.Memory.{
  VirtualAddr, Pool, Pools, Entries, pg_size, palloc, pfree, page_table_add, page_table_pte_remove,
  addr_v2p,
}

pub data PoolFlags : Type 0 where
  pf_kernel pf_user : PoolFlags

-- `pgdir` and `userprog_vaddr` are the running thread's.
pub record Machine : Type 0 where
  pub memory : Memory
  pub entries : Entries
  pub pools : Pools
  pub pgdir : Ptr
  pub userprog_vaddr : VirtualAddr

abbrev pub set_memory : Memory → Machine → Machine
set_memory m s = record s { memory = m }

-- `pf & PF_KERNEL ? &kernel_pool : &user_pool`
abbrev pub pool_for : PoolFlags → Machine → Pool
pool_for pf_kernel s = s.pools.kernel_pool
pool_for pf_user s = s.pools.user_pool

abbrev pub vaddr_for : PoolFlags → Machine → VirtualAddr
vaddr_for pf_kernel s = s.pools.kernel_vaddr
vaddr_for pf_user s = s.userprog_vaddr

-- `left` bits from `start` on are set to `value`.
unfoldable pub set_bits : ℕ → Memory → Bitmap → ℕ → ℕ → Option Memory
set_bits zero m b start value = some m
set_bits (suc left) m b start value = do
  m ← bitmap_set m b start value
  set_bits left m b (start + 1) value

-- The assertion that a user's address lies below the stack.
abbrev pub below_stack : PoolFlags → ℕ → Option (Unit {0})
below_stack pf_kernel vaddr_start = some tt
below_stack pf_user vaddr_start = assert (ltb vaddr_start (0xC000_0000 - pg_size))

unfoldable pub vaddr_get : PoolFlags → ℕ → Machine → Option (Ptr × Machine)
vaddr_get pf pg_cnt s = do
  let v = vaddr_for pf s
  bit_idx_start ← bitmap_scan s.memory v.vaddr_bitmap pg_cnt
  elim bit_idx_start [
    | none ↦ some (null, s)
    | some bit_idx_start ↦ do
      m ← set_bits pg_cnt s.memory v.vaddr_bitmap bit_idx_start 1
      let vaddr_start = u32 (v.vaddr_start + bit_idx_start * pg_size)
      below_stack pf vaddr_start
      some (vaddr_start, set_memory m s)
  ]

unfoldable pub vaddr_remove : PoolFlags → ℕ → ℕ → Machine → Option Machine
vaddr_remove pf vaddr pg_cnt s = do
  let v = vaddr_for pf s
  let bit_idx_start = u32 (vaddr + 0x1_0000_0000 - v.vaddr_start) / pg_size
  m ← set_bits pg_cnt s.memory v.vaddr_bitmap bit_idx_start 0
  some (set_memory m s)

-- `page_table_add` of an address, for the machine.
abbrev pub map_page : ℕ → ℕ → Machine → Option Machine
map_page vaddr page_phyaddr s = do
  (m, t) ← page_table_add s.memory s.pools.kernel_pool s.entries vaddr page_phyaddr
  some (record s { memory = m; entries = t })

-- A physical page for `vaddr`, or NULL if `palloc` returns it.
unfoldable pub page_for : PoolFlags → ℕ → Machine → Option (Ptr × Machine)
page_for pf vaddr s = do
  (page_phyaddr, m) ← palloc s.memory (pool_for pf s)
  elim page_phyaddr [
    | none ↦ some (null, set_memory m s)
    | some page_phyaddr ↦ do s ← map_page vaddr page_phyaddr (set_memory m s); some (vaddr, s)
  ]

-- The loop of `malloc_page`; the result says whether every page was found.
unfoldable pub page_loop : ℕ → PoolFlags → ℕ → Machine → Option (Option (Unit {0}) × Machine)
page_loop zero pf vaddr s = some (some tt, s)
page_loop (suc cnt) pf vaddr s = do
  (page_phyaddr, m) ← palloc s.memory (pool_for pf s)
  elim page_phyaddr [
    | none ↦ some (none, set_memory m s)
    | some page_phyaddr ↦ do
      s ← map_page vaddr page_phyaddr (set_memory m s)
      page_loop cnt pf (u32 (vaddr + pg_size)) s
  ]

unfoldable pub malloc_page : PoolFlags → ℕ → Machine → Option (Ptr × Machine)
malloc_page pf pg_cnt s = do
  assert (ltb 0 pg_cnt && ltb pg_cnt 3840)
  (vaddr_start, s) ← vaddr_get pf pg_cnt s
  (if vaddr_start == null then some (null, s) else (do
    (found, s) ← page_loop pg_cnt pf vaddr_start s
    some (elim found [ none ↦ null | some done ↦ vaddr_start ], s)))

unfoldable pub get_kernel_pages : ℕ → Machine → Option (Ptr × Machine)
get_kernel_pages pg_cnt s = do
  (vaddr, s) ← malloc_page pf_kernel pg_cnt s
  (if vaddr == null
      then some (vaddr, s)
      else (do m ← memset s.memory vaddr 0 (u32 (pg_cnt * pg_size)); some (vaddr, set_memory m s)))

-- Without a test for NULL.
unfoldable pub get_user_pages : ℕ → Machine → Option (Ptr × Machine)
get_user_pages pg_cnt s = do
  (vaddr, s) ← malloc_page pf_user pg_cnt s
  m ← memset s.memory vaddr 0 (u32 (pg_cnt * pg_size))
  some (vaddr, set_memory m s)

-- The bit of `vaddr` in its bitmap of virtual addresses is set.
abbrev pub take_vaddr : VirtualAddr → ℕ → Machine → Option Machine
take_vaddr v vaddr s = do
  let bit_idx = u32 (vaddr + 0x1_0000_0000 - v.vaddr_start) / pg_size
  assert (ltb 0 bit_idx)
  m ← bitmap_set s.memory v.vaddr_bitmap bit_idx 1
  some (set_memory m s)

-- A thread with a page directory takes the user's memory, one without the kernel's.
unfoldable pub get_a_page : PoolFlags → ℕ → Machine → Option (Ptr × Machine)
get_a_page pf_kernel vaddr s = do
  assert (s.pgdir == null)
  s ← take_vaddr s.pools.kernel_vaddr vaddr s
  page_for pf_kernel vaddr s
get_a_page pf_user vaddr s = do
  assert (not (s.pgdir == null))
  s ← take_vaddr s.userprog_vaddr vaddr s
  page_for pf_user vaddr s

unfoldable pub get_a_page_without_opvaddrbitmap : PoolFlags → ℕ → Machine → Option (Ptr × Machine)
get_a_page_without_opvaddrbitmap pf vaddr s = page_for pf vaddr s

-- `pfree` and the removal of the mapping, for `cnt` pages; `right` is the test of the address.
unfoldable pub free_loop : ℕ → (ℕ → Option (Unit {0})) → ℕ → Machine → Option Machine
free_loop zero right vaddr s = some s
free_loop (suc cnt) right vaddr s = do
  let pg_phy_addr = addr_v2p s.entries vaddr
  right pg_phy_addr
  m ← pfree s.memory s.pools.kernel_pool s.pools.user_pool pg_phy_addr
  free_loop cnt right (u32 (vaddr + pg_size))
      (record s { memory = m; entries = page_table_pte_remove s.entries vaddr })

abbrev pub in_user_pool : Pools → ℕ → Option (Unit {0})
in_user_pool p pg_phy_addr =
    assert ((pg_phy_addr % pg_size == 0) && leb p.user_pool.phy_addr_start pg_phy_addr)

abbrev pub in_kernel_pool : Pools → ℕ → Option (Unit {0})
in_kernel_pool p pg_phy_addr = assert (
    (pg_phy_addr % pg_size == 0)
    && leb p.kernel_pool.phy_addr_start pg_phy_addr
    && ltb pg_phy_addr p.user_pool.phy_addr_start)

-- Both branches free the pages in turn, and then the virtual addresses.
unfoldable pub mfree_page : PoolFlags → Ptr → ℕ → Machine → Option Machine
mfree_page pf vaddr pg_cnt s = do
  assert (leb 1 pg_cnt && (vaddr % pg_size == 0))
  let pg_phy_addr = addr_v2p s.entries vaddr
  assert ((pg_phy_addr % pg_size == 0) && leb 0x10_2000 pg_phy_addr)
  s ←
      (if leb s.pools.user_pool.phy_addr_start pg_phy_addr
        then free_loop pg_cnt (in_user_pool s.pools) vaddr s
        else free_loop pg_cnt (in_kernel_pool s.pools) vaddr s)
  vaddr_remove pf vaddr pg_cnt s

unfoldable pub free_a_phy_page : ℕ → Machine → Option Machine
free_a_phy_page pg_phy_page s = do
  let user_pool = s.pools.user_pool
  let kernel_pool = s.pools.kernel_pool
  m ←
      (if leb user_pool.phy_addr_start pg_phy_page
        then bitmap_set s.memory user_pool.pool_bitmap
            ((pg_phy_page - user_pool.phy_addr_start) / pg_size) 0
        else bitmap_set s.memory kernel_pool.pool_bitmap
            (u32 (pg_phy_page + 0x1_0000_0000 - kernel_pool.phy_addr_start) / pg_size) 0)
  some (set_memory m s)
