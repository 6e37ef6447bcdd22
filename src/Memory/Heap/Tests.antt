-- ===== src/Memory/Heap/Tests.antt =====
-- The heap of a kernel thread with one arena of three blocks of 1024 bytes: one is free, two are handed
-- out.
use jack_os.Base.{
  ℕ, ◌<◌, ◌≡◌, inl, inr, refl, Bool, false, none, some, [], ◌∷◌, arith, ◌==◌, ==→eq, Bool-cases,
  update,
}
use jack_os.CString.{Ptr}
use jack_os.Bitmap.{bitmap_scan_test}
use jack_os.Memory.{MemBlockDesc, arena2block}
use jack_os.Memory.Virtual.{pf_kernel}
use jack_os.Memory.Tests.{machine, machine-IsReady, next_free, one_used}
use jack_os.Memory.Heap.{Heap, sys_malloc}
use jack_os.Memory.Heap.Account.{IsBlock}
use jack_os.Memory.Heap.Moves.{IsHeap, Live}
use jack_os.Memory.Heap.Refill.{IsMalloced}
use jack_os.Memory.Heap.Kernel.{AreTaken, HasRoom, sys_malloc_lem}
use jack_os.Memory.Heap.Return.{IsReturned, Ended, sys_free_lem}

abbrev kilobytes : MemBlockDesc
kilobytes = record { block_size = 1024; blocks_per_arena = 3 }

abbrev first_page : Ptr
first_page = 0xC010_0000

abbrev heap : Heap
heap = record {
  machine = machine;
  arenas =
      update (λ a. record { desc = none; free_cnt = 0; large = false }) first_page
        (record { desc = some (pf_kernel, kilobytes); free_cnt = 1; large = false });
  free_list = λ pf. update (λ s. []) 1024 (0xC010_040C ∷ []);
}

abbrev owned : Ptr → Bool
owned a = a == first_page

block : (i : ℕ) → i < 3 → IsBlock pf_kernel (λ a. (heap.arenas a).desc) owned first_page kilobytes i
block i l = record { in_use = refl; of_desc = refl; inside = l }

heap-IsHeap : IsHeap pf_kernel heap owned
unfolding arena2block
heap-IsHeap = record {
  arena = λ a o.
      let e = ==→eq a first_page o in
      (
        kilobytes,
        record {
          of_desc = rw e refl;
          desc_ok = record {
            sized = omega arith;
            some_blocks = omega arith;
            fits = omega arith;
            small = omega arith;
          };
          page = rw e (refl, omega arith);
          counted = rw e refl;
        },
      );
  placed = λ s b on. elim (Bool-cases (1024 == s)) [
    | inl q ↦ (first_page, kilobytes, 1, block 1 (omega arith), ==→eq 1024 s q, ground arith)
    | inr q ↦ absurd (ground arith)
  ];
  distinct = λ s. elim (Bool-cases (1024 == s)) [ inl q ↦ rw q (tt, tt) | inr q ↦ rw q tt ];
}

two-Live : Live pf_kernel heap owned 0xC010_080C
unfolding arena2block
two-Live = (first_page, kilobytes, 2, block 2 (omega arith), refl, refl)

sys_free_lem_example :
    (h' : Heap) × (owned' : Ptr → Bool) × IsReturned pf_kernel heap owned 0xC010_080C h' owned'
    × Ended heap 0xC010_080C h' owned'
sys_free_lem_example = sys_free_lem heap owned 0xC010_080C heap-IsHeap two-Live (inr (omega arith))

-- The address of the page of the arena is given out, the next is free, and so are 15 pages.
page_taken : AreTaken machine owned
unfolding bitmap_scan_test
page_taken a o = (0, ==→eq a first_page o, refl)

room : HasRoom machine
unfolding bitmap_scan_test
room = record {
  small = omega arith;
  address = 1;
  inside = omega arith;
  free = λ i h l. next_free i h (omega arith);
  pages = omega (arith, one_used);
}

sys_malloc_lem_example :
    (b : Ptr) × (h' : Heap) × (owned' : Ptr → Bool) × (sys_malloc 100 heap ≡ some (b, h'))
    × IsMalloced pf_kernel 100 heap owned b h' owned'
sys_malloc_lem_example =
    sys_malloc_lem 100 heap owned (omega arith) (omega arith) (omega arith) refl heap-IsHeap
      machine-IsReady page_taken room
