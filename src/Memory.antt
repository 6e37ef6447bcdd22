-- ===== src/Memory.antt =====
-- kernel/memory.c: the pools of physical pages, the page tables, and the blocks of an arena. Masks and
-- shifts are written as the arithmetic that they do on a `uint32_t`: `a & 0xFFFFF000` is
-- `a / 4096 * 4096`, `a >> 10` is `a / 1024`, `a | 7` is `a / 8 * 8 + 7`.
pub mod Pages
pub mod Start
pub mod Paging
pub mod Mapping
pub mod Arena
pub mod Virtual
pub mod Supply
pub mod Range
pub mod Marks
pub mod Grant
pub mod Heap
mod Tests
use jack_os.Base.{
  ℕ, zero, suc, ◌+◌, ◌-◌, ◌*◌, ◌/◌, ◌%◌, Bool, true, false, not, ◌&&◌, Option, none, some, List, [],
  ◌∷◌, ltb, leb, ◌==◌, if◌then◌else◌, update, assert, ◌>>=◌, ◌>>◌,
}
use jack_os.CString.{Memory, Ptr}
use jack_os.Bitmap.{Bitmap, u32, bitmap_init, bitmap_scan, bitmap_set}

abbrev pub pg_size : ℕ
pg_size = 4096

-- The mutex of a pool is held around the functions here, by their callers.
pub record Pool : Type 0 where
  pub pool_bitmap : Bitmap
  pub phy_addr_start : ℕ
  pub pool_size : ℕ

pub record VirtualAddr : Type 0 where
  pub vaddr_bitmap : Bitmap
  pub vaddr_start : ℕ

pub record Pools : Type 0 where
  pub kernel_pool : Pool
  pub user_pool : Pool
  pub kernel_vaddr : VirtualAddr

-- `MEM_BITMAP_BASE` and `K_HEAP_START`
abbrev pub mem_bitmap_base : ℕ
mem_bitmap_base = 0xC009_A000

abbrev pub k_heap_start : ℕ
k_heap_start = 0xC010_0000

-- `pages` of 4 KiB from `start` on, with the bitmap at `bits`.
abbrev pub pool_of : ℕ → ℕ → ℕ → Pool
pool_of pages start bits = record {
  pool_bitmap = record { btmp_byte_len = pages / 8; bits = bits };
  phy_addr_start = start;
  pool_size = pages * pg_size;
}

-- Without what it prints; the mutexes of the pools are fresh after it. Counts of pages are `uint16_t`.
unfoldable pub mem_pool_init : ℕ → Memory → Option (Pools × Memory)
mem_pool_init all_mem m = do
  let page_table_size = pg_size * 256
  let used_mem = page_table_size + 0x10_0000
  let free_mem = u32 (all_mem + 0x1_0000_0000 - used_mem)
  let all_free_page = free_mem / pg_size % 0x1_0000
  let kernel_free_pages = all_free_page / 2
  let user_free_pages = all_free_page - kernel_free_pages
  let kbm_length = kernel_free_pages / 8
  let ubm_length = user_free_pages / 8
  let kernel_pool = pool_of kernel_free_pages used_mem mem_bitmap_base
  m ← bitmap_init m kernel_pool.pool_bitmap
  let user_pool =
      pool_of user_free_pages (u32 (used_mem + kernel_free_pages * pg_size))
        (mem_bitmap_base + kbm_length)
  m ← bitmap_init m user_pool.pool_bitmap
  let kernel_vaddr : VirtualAddr = record {
    vaddr_bitmap = record {
      btmp_byte_len = kbm_length;
      bits = mem_bitmap_base + kbm_length + ubm_length;
    };
    vaddr_start = k_heap_start;
  }
  m ← bitmap_init m kernel_vaddr.vaddr_bitmap
  some (record { kernel_pool = kernel_pool; user_pool = user_pool; kernel_vaddr = kernel_vaddr }, m)

-- The page's physical address, or `none` for NULL.
unfoldable pub palloc : Memory → Pool → Option (Option ℕ × Memory)
palloc m m_pool = do
  bit_idx ← bitmap_scan m m_pool.pool_bitmap 1
  elim bit_idx [
    | none ↦ some (none, m)
    | some bit_idx ↦ do
      m ← bitmap_set m m_pool.pool_bitmap bit_idx 1
      some (some (u32 (bit_idx * pg_size + m_pool.phy_addr_start)), m)
  ]

-- `mem_pool` and `bit_idx` of `pfree`: the page goes back to the user's pool or to the kernel's.
unfoldable pub pfree : Memory → Pool → Pool → ℕ → Option Memory
pfree m kernel_pool user_pool pg_phy_addr =
    if leb user_pool.phy_addr_start pg_phy_addr
    then bitmap_set m user_pool.pool_bitmap ((pg_phy_addr - user_pool.phy_addr_start) / pg_size) 0
    else bitmap_set m kernel_pool.pool_bitmap
        (u32 (pg_phy_addr + 0x1_0000_0000 - kernel_pool.phy_addr_start) / pg_size) 0

unfoldable pub pde_idx : ℕ → ℕ
pde_idx addr = addr / 0x40_0000 * 0x40_0000 / 0x40_0000

unfoldable pub pte_idx : ℕ → ℕ
pte_idx addr = addr % 0x40_0000 / 4096 * 4096 / 4096

unfoldable pub pte_addr : ℕ → ℕ
unfolding pte_idx
pte_addr vaddr = u32 (0xFFC0_0000 + vaddr / 0x40_0000 * 0x40_0000 / 1024 + pte_idx vaddr * 4)

unfoldable pub pde_addr : ℕ → ℕ
unfolding pde_idx
pde_addr vaddr = u32 (0xFFFF_F000 + pde_idx vaddr * 4)

-- The words of the page directory and the page tables, at the virtual addresses at which the directory
-- shows them.
abbrev pub Entries : Type 0
Entries = ℕ → ℕ

-- `*p & 0x00000001`
abbrev pub is_present : ℕ → Bool
is_present entry = entry % 2 == 1

-- `address | PG_US_U | PG_RW_W | PG_P_1`
abbrev pub with_flags : ℕ → ℕ
with_flags address = address / 8 * 8 + 7

unfoldable pub addr_v2p : Entries → ℕ → ℕ
addr_v2p t vaddr = u32 (t (pte_addr vaddr) / 4096 * 4096 + vaddr % 4096)

-- `memset((void *) ((int)p_addr & 0xFFFFF000), 0, PG_SIZE)`
abbrev pub clear_page : Entries → ℕ → Entries
clear_page t p_addr a =
    if leb (p_addr / 4096 * 4096) a && ltb a (p_addr / 4096 * 4096 + pg_size) then 0 else t a

-- The address of a page, NULL as 0.
abbrev pub or_null : Option ℕ → ℕ
or_null none = 0
or_null (some a) = a

unfoldable pub page_table_add : Memory → Pool → Entries → ℕ → ℕ → Option (Memory × Entries)
page_table_add m kernel_pool t vaddr page_phyaddr =
    if is_present (t (pde_addr vaddr))
    then (do
      assert (not (is_present (t (pte_addr vaddr))))
      some (m, update t (pte_addr vaddr) (with_flags page_phyaddr)))
    else (do
      (pt_phyaddr, m) ← palloc m kernel_pool
      let t = update t (pde_addr vaddr) (with_flags (or_null pt_phyaddr))
      let t = clear_page t (pte_addr vaddr)
      assert (not (is_present (t (pte_addr vaddr))))
      some (m, update t (pte_addr vaddr) (with_flags page_phyaddr)))

-- The `invlpg` that follows concerns the processor's cache alone.
unfoldable pub page_table_pte_remove : Entries → ℕ → Entries
page_table_pte_remove t vaddr = update t (pte_addr vaddr) (t (pte_addr vaddr) / 2 * 2)

-- `sizeof(arena_t)`: a pointer, a `uint32_t` and a `bool`, aligned.
abbrev pub arena_size : ℕ
arena_size = 12

pub record MemBlockDesc : Type 0 where
  pub block_size : ℕ
  pub blocks_per_arena : ℕ

-- `block_desc_init`, with the rounds left; `block_size` is a `uint16_t`.
unfoldable pub desc_loop : ℕ → ℕ → List MemBlockDesc
desc_loop zero block_size = []
desc_loop (suc left) block_size =
    record { block_size = block_size; blocks_per_arena = (pg_size - arena_size) / block_size }
    ∷ desc_loop left (block_size * 2 % 0x1_0000)

unfoldable pub block_desc_init : List MemBlockDesc
unfolding desc_loop
block_desc_init = desc_loop 7 16

unfoldable pub arena2block : ℕ → MemBlockDesc → ℕ → ℕ
arena2block a desc idx = u32 (a + arena_size + idx * desc.block_size)

unfoldable pub block2arena : ℕ → ℕ
block2arena b = b / 4096 * 4096

-- The loop of `sys_malloc` that chooses the descriptor; `none` if it runs to the end.
unfoldable pub choose_desc : ℕ → List MemBlockDesc → Option MemBlockDesc
choose_desc size [] = none
choose_desc size (desc ∷ descs) =
    let rest = choose_desc size descs in if leb size desc.block_size then some desc else rest
