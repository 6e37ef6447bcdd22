-- ===== src/Memory/Heap/Kernel.antt =====
-- `sys_malloc` for a kernel thread: the page of a new arena is one that `malloc_page` finds.
use jack_os.Base.{
  inl, inr, ℕ, ◌+◌, ◌*◌, ◌<◌, ◌≤◌, ◌≡◌, refl, sym, ◌∙◌, ap, subst, Bool, true, false, false≢true,
  some, arith, ◌==◌, Bool-cases,
}
use jack_os.CString.{Ptr, null}
use jack_os.Bitmap.{bitmap_scan_test}
use jack_os.Bitmap.Scan.{FreeRun}
use jack_os.Memory.Virtual.{pf_kernel, Machine, pool_for}
use jack_os.Memory.Supply.{used_pages}
use jack_os.Memory.Grant.{IsReady, malloc_page_lem}
use jack_os.Memory.Heap.{Heap, flag_of, sys_malloc}
use jack_os.Memory.Heap.Moves.{IsHeap}
use jack_os.Memory.Heap.Refill.{NewPage, IsMalloced, sys_malloc-IsMalloced}

-- The bit of a page of the kernel's addresses.
abbrev pub is_taken : Machine → ℕ → Bool
is_taken s i = bitmap_scan_test s.memory s.pools.kernel_vaddr.vaddr_bitmap i

-- Every page of an arena is an address that is given out.
abbrev pub AreTaken : Machine → (Ptr → Bool) → Type 0
AreTaken s owned =
    (a : Ptr)
    → owned a ≡ true
    → (i : ℕ) × (a ≡ s.pools.kernel_vaddr.vaddr_start + i * 4096) × (is_taken s i ≡ true)

-- An address that is not given out, and two pages that are not in use, one for a page table.
pub record HasRoom (s : Machine) : Type 0 where
  pub small : s.pools.kernel_vaddr.vaddr_bitmap.btmp_byte_len * 8 < 0x8000_0000
  pub address : ℕ
  pub inside : address + 1 ≤ s.pools.kernel_vaddr.vaddr_bitmap.btmp_byte_len * 8
  pub free : FreeRun s.memory s.pools.kernel_vaddr.vaddr_bitmap address 1
  pub pages :
      used_pages s.memory s.pools.kernel_pool + 2
      ≤ s.pools.kernel_pool.pool_bitmap.btmp_byte_len * 8

new_page :
    (h : Heap) (owned : Ptr → Bool)
    → IsReady h.machine
    → HasRoom h.machine
    → AreTaken h.machine owned
    → NewPage pf_kernel h owned
new_page h owned r room taken =
    let s = h.machine in
    let v = s.pools.kernel_vaddr in
    let (start, s', phys, e, given) =
      malloc_page_lem s 1 room.address r (omega arith) (omega arith) room.small room.free
        room.inside (omega (arith, room.pages)) in
    let a = v.vaddr_start + start * 4096 in
    let positive = r.some_start in
    let aligned = r.start_aligned in
    let below = r.below_tables in
    let inside = given.inside in
    (a, s', e, omega arith, (omega arith, omega arith), not_owned start given.lowest)
  where
    not_owned :
        (start : ℕ)
        → FreeRun h.machine.memory h.machine.pools.kernel_vaddr.vaddr_bitmap start 1
        → owned (h.machine.pools.kernel_vaddr.vaddr_start + start * 4096) ≡ false
    not_owned start free =
        elim (Bool-cases (owned (h.machine.pools.kernel_vaddr.vaddr_start + start * 4096))) [
          | inr free_page ↦ free_page
          | inl claimed ↦
              let (i, e, set) =
                taken (h.machine.pools.kernel_vaddr.vaddr_start + start * 4096) claimed in
              let same : start ≡ i = omega arith in
              absurd (
                false≢true (
                  sym (free start (omega arith) (omega arith))
                  ∙ ap (is_taken h.machine) same
                  ∙ set))
        ]

-- `sys_malloc` of 1 to 1024 bytes, less than the pool has, by a kernel thread, where the lists and the
-- counts of the arenas agree, the pools and the page tables are in order, the pages of the arenas are
-- addresses that are given out, and an address and two pages are free: it returns a block that nobody
-- has, with its bytes clear. Then that block and those handed out before are handed out, no other, and
-- the lists and the counts agree.
pub sys_malloc_lem :
    (size : ℕ) (h : Heap) (owned : Ptr → Bool)
    → 0 < size
    → size ≤ 1024
    → size < h.machine.pools.kernel_pool.pool_size
    → (h.machine.pgdir == null) ≡ true
    → IsHeap pf_kernel h owned
    → IsReady h.machine
    → AreTaken h.machine owned
    → HasRoom h.machine
    → (b : Ptr) × (h' : Heap) × (owned' : Ptr → Bool) × (sys_malloc size h ≡ some (b, h'))
      × IsMalloced pf_kernel size h owned b h' owned'
sys_malloc_lem size h owned pos small inside kernel acc ready taken room =
    let flag : flag_of h ≡ pf_kernel = rw kernel refl in
    let page = new_page h owned ready room taken in
    subst
      (λ pf.
        (b : Ptr) × (h' : Heap) × (owned' : Ptr → Bool) × (sys_malloc size h ≡ some (b, h'))
        × IsMalloced pf size h owned b h' owned')
      flag
      (sys_malloc-IsMalloced size h owned pos small
        (subst (λ pf. size < (pool_for pf h.machine).pool_size) (sym flag) inside)
        (subst (λ pf. IsHeap pf h owned) (sym flag) acc)
        (λ t e. subst (λ pf. NewPage pf h owned) (sym flag) page))
