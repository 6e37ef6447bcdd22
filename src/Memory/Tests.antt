-- ===== src/Memory/Tests.antt =====
-- The theorems about pages, page tables and arenas at small pools.
use jack_os.Base.{ℕ, zero, suc, and-false, ◌+◌, ◌*◌, ◌≡◌, refl, false, some, arith, update}
use jack_os.CString.{Memory}
use jack_os.Bitmap.{bitmap_scan_test}
use jack_os.Bitmap.Access.{IsBytes}
use jack_os.Memory.{Pools, mem_pool_init, Pool, Entries, page_table_add}
use jack_os.Memory.Pages.{IsPool, is_used}
use jack_os.Memory.Start.{IsStart, mem_pool_init_lem}
use jack_os.Memory.Paging.{IsAdded, pte_addr-eq}
use jack_os.Memory.Mapping.{PagesAfter, page_table_add_lem}
use jack_os.CString.{null}
use jack_os.Bitmap.Scan.{FreeRun}
use jack_os.Memory.{pool_of, pte_addr, is_present}
use jack_os.Memory.Supply.{used_pages}
use jack_os.Memory.Virtual.{Machine, pf_kernel, malloc_page}
use jack_os.Memory.Grant.{IsReady, IsGranted, malloc_page_lem}

-- Eight pages from 2 MiB on; the first three are in use.
abbrev kernel_pool : Pool
kernel_pool = record {
  pool_bitmap = record { btmp_byte_len = 1; bits = 0xC009_A000 };
  phy_addr_start = 0x20_0000;
  pool_size = 0x8000;
}

abbrev memory : Memory
memory = update (λ a. 0) 0xC009_A000 7

memory-IsBytes : IsBytes memory
memory-IsBytes a = ground arith

kernel_pool-IsPool : IsPool kernel_pool
kernel_pool-IsPool = record { in_memory = omega arith }

abbrev no_tables : Entries
no_tables a = 0

page_three_free : is_used memory kernel_pool 3 ≡ false
unfolding bitmap_scan_test
page_three_free = refl

page_table_add_lem_example :
    (m' : Memory) × (t' : Entries) × (page_table_add memory kernel_pool no_tables 0x804_8000
        0x20_8000
      ≡ some (m', t'))
    × IsAdded no_tables t' 0x804_8000 0x20_8000
    × PagesAfter memory kernel_pool false m'
page_table_add_lem_example =
    page_table_add_lem memory kernel_pool no_tables 0x804_8000 0x20_8000 memory-IsBytes
      kernel_pool-IsPool (omega arith) refl (omega arith) refl 3 (omega arith) page_three_free

-- A machine of 32 MiB.
mem_pool_init_lem_example :
    (p : Pools) × (m' : Memory) × (mem_pool_init 0x200_0000 memory ≡ some (p, m'))
    × IsStart 0x200_0000 p m'
mem_pool_init_lem_example = mem_pool_init_lem 0x200_0000 memory (omega arith) (omega arith)

-- Sixteen pages in each pool, and sixteen addresses of pages, of which the first is taken. The table for
-- them is there.
abbrev pub machine : Machine
machine = record {
  memory = update (update (λ a. 0) 0xC009_A000 1) 0xC009_A004 1;
  entries = update (λ a. 0) 0xFFFF_FC00 7;
  pools = record {
    kernel_pool = pool_of 16 0x20_0000 0xC009_A000;
    user_pool = pool_of 16 0x21_0000 0xC009_A002;
    kernel_vaddr = record {
      vaddr_bitmap = record { btmp_byte_len = 2; bits = 0xC009_A004 };
      vaddr_start = 0xC010_0000;
    };
  };
  pgdir = null;
  userprog_vaddr = record {
    vaddr_bitmap = record { btmp_byte_len = 0; bits = 0xC009_A006 };
    vaddr_start = 0x804_8000;
  };
}

pub machine-IsReady : IsReady machine
machine-IsReady = record {
  bytes = λ a. ground arith;
  pool = record { in_memory = omega arith };
  pool_aligned = refl;
  start_aligned = refl;
  some_start = omega arith;
  below_tables = omega arith;
  apart = omega arith;
  unmapped = λ i l f.
      let place = pte_addr-eq (0xC010_0000 + i * 4096) (omega arith) in
      let absent : is_present (machine.entries (pte_addr (0xC010_0000 + i * 4096))) ≡ false =
        ground arith in
      rw (absent, and-false) refl;
}

-- The addresses of pages 1 to 3.
pub next_free : FreeRun machine.memory machine.pools.kernel_vaddr.vaddr_bitmap 1 3
unfolding bitmap_scan_test
next_free zero h l = absurd (omega arith)
next_free (suc zero) h l = refl
next_free (suc (suc zero)) h l = refl
next_free (suc (suc (suc zero))) h l = refl
next_free (suc (suc (suc (suc i)))) h l = absurd (omega arith)

pub one_used : used_pages machine.memory machine.pools.kernel_pool ≡ 1
unfolding bitmap_scan_test
one_used = refl

malloc_page_lem_example :
    (start : ℕ) × (s' : Machine) × (phys : ℕ → ℕ) × (malloc_page pf_kernel 3 machine
      ≡ some (0xC010_0000 + start * 4096, s'))
    × IsGranted machine 3 start s' phys
malloc_page_lem_example =
    malloc_page_lem machine 3 1 machine-IsReady (omega arith) (omega arith) (omega arith) next_free
      (omega arith) (omega (arith, one_used))
