-- ===== src/Memory/Heap.antt =====
-- `sys_malloc` and `sys_free` of kernel/memory.c. A list of free blocks is the sequence that it stands
-- for, a block being the address of its `free_elem`. The descriptors are constants, and a list of free
-- blocks is found by the pool's flag (`k_block_descs` or the running thread's `u_block_desc`) and the
-- size of the blocks. The arena at a page's start is a record; what else is in a page is bytes.
pub mod Slots
pub mod Account
pub mod Arenas
pub mod Lists
pub mod Moves
pub mod Refill
pub mod Return
pub mod Kernel
mod Tests
use jack_os.Base.{
  ℕ, zero, suc, ◌+◌, ◌-◌, ◌*◌, ◌/◌, Bool, true, false, not, ◌||◌, Option, none, some, List, [], ◌∷◌,
  ◌++◌, has, remove, ltb, leb, ◌==◌, if◌then◌else◌, update, assert, ◌>>=◌, ◌>>◌,
}
use jack_os.CString.{Ptr, null, memset}
use jack_os.Bitmap.{u32}
use jack_os.Memory.{
  MemBlockDesc, pg_size, arena_size, k_heap_start, block_desc_init, arena2block, block2arena,
  choose_desc,
}
use jack_os.Memory.Virtual.{
  PoolFlags, pf_kernel, pf_user, Machine, set_memory, pool_for, malloc_page, mfree_page,
}

-- `arena_t`; `desc` names one of the two arrays and the entry in it.
pub record Arena : Type 0 where
  pub desc : Option (PoolFlags × MemBlockDesc)
  pub free_cnt : ℕ
  pub large : Bool

pub record Heap : Type 0 where
  pub machine : Machine
  pub arenas : Ptr → Arena
  pub free_list : PoolFlags → ℕ → List Ptr

-- The pool and the descriptors of a thread without a page directory, and of one with it.
abbrev pub flag_of : Heap → PoolFlags
flag_of h = if h.machine.pgdir == null then pf_kernel else pf_user

abbrev pub same_flag : PoolFlags → PoolFlags → Bool
same_flag pf_kernel pf_kernel = true
same_flag pf_user pf_user = true
same_flag _ _ = false

abbrev pub set_free_list : PoolFlags → ℕ → List Ptr → Heap → Heap
set_free_list pf size l h = record h {
  free_list = λ p s. if same_flag pf p then update (h.free_list p) size l s else h.free_list p s;
}

abbrev pub set_arena : Ptr → Arena → Heap → Heap
set_arena a arena h = record h { arenas = update h.arenas a arena }

-- `memset` of `size` bytes to 0.
abbrev pub clear_bytes : Ptr → ℕ → Heap → Option Heap
clear_bytes p size h = do
  m ← memset h.machine.memory p 0 size
  some (record h { machine = set_memory m h.machine })

-- The pages of a request of more than 1024 bytes.
unfoldable pub malloc_large : PoolFlags → ℕ → Heap → Option (Ptr × Heap)
malloc_large pf size h = do
  let page_cnt = u32 (size + arena_size + pg_size - 1) / pg_size
  (a, machine) ← malloc_page pf page_cnt h.machine
  let h : Heap = record h { machine = machine }
  (if a == null then some (null, h) else (do
    h ← clear_bytes a (u32 (page_cnt * pg_size)) h
    some (
      a + arena_size,
      set_arena a (record { desc = none; free_cnt = page_cnt; large = true }) h,
    )))

-- The blocks of a new arena from `block_idx` on go to the end of the list.
unfoldable pub split_loop : ℕ → ℕ → Ptr → MemBlockDesc → List Ptr → Option (List Ptr)
split_loop zero block_idx a desc l = some l
split_loop (suc left) block_idx a desc l = do
  let b = arena2block a desc block_idx
  assert (not (has b l))
  split_loop left (block_idx + 1) a desc (l ++ b ∷ [])

-- A new arena if the list is empty; the result says whether there are blocks.
unfoldable pub refill : PoolFlags → MemBlockDesc → Heap → Option (Bool × Heap)
refill pf desc h = elim (h.free_list pf desc.block_size) [
  | b ∷ bs ↦ some (true, h)
  | [] ↦ do
    (a, machine) ← malloc_page pf 1 h.machine
    let h : Heap = record h { machine = machine }
    (if a == null then some (false, h) else (do
      h ← clear_bytes a pg_size h
      let arena : Arena = record {
        desc = some (pf, desc);
        free_cnt = desc.blocks_per_arena;
        large = false;
      }
      l ← split_loop desc.blocks_per_arena 0 a desc (h.free_list pf desc.block_size)
      some (true, set_free_list pf desc.block_size l (set_arena a arena h))))
]

-- The first block of the list is handed out, cleared. `list_pop` of an empty list panics.
unfoldable pub take_block : PoolFlags → MemBlockDesc → Heap → Option (Ptr × Heap)
take_block pf desc h = elim (h.free_list pf desc.block_size) [
  | [] ↦ none
  | b ∷ bs ↦ do
    h ← clear_bytes b desc.block_size (set_free_list pf desc.block_size bs h)
    let a = block2arena b
    let arena = h.arenas a
    some (b, set_arena a (record arena { free_cnt = u32 (arena.free_cnt + 0xFFFF_FFFF) }) h)
]

unfoldable pub malloc_small : PoolFlags → ℕ → Heap → Option (Ptr × Heap)
malloc_small pf size h = do
  desc ← choose_desc size block_desc_init
  (found, h) ← refill pf desc h
  if found then take_block pf desc h else some (null, h)

unfoldable pub sys_malloc : ℕ → Heap → Option (Ptr × Heap)
sys_malloc size h =
    let pf = flag_of h in
    if (size == 0) || leb (pool_for pf h.machine).pool_size size
    then some (null, h)
    else if ltb 1024 size
    then malloc_large pf size h
    else malloc_small pf size h

-- Every block of a free arena leaves the list.
unfoldable pub unlink_loop : ℕ → ℕ → Ptr → MemBlockDesc → List Ptr → Option (List Ptr)
unlink_loop zero block_idx a desc l = some l
unlink_loop (suc left) block_idx a desc l = do
  let b = arena2block a desc block_idx
  assert (has b l)
  unlink_loop left (block_idx + 1) a desc (remove b l)

abbrev pub free_pages : PoolFlags → Ptr → ℕ → Heap → Option Heap
free_pages pf a pg_cnt h = do
  machine ← mfree_page pf a pg_cnt h.machine
  some (record h { machine = machine })

-- A block goes back to its list, and its arena's page back to the pool if no block of it is in use.
unfoldable pub free_block : PoolFlags → PoolFlags → MemBlockDesc → Ptr → Heap → Option Heap
free_block pf owner desc b h = do
  let a = block2arena b
  let arena = h.arenas a
  let free_cnt = u32 (arena.free_cnt + 1)
  let l = h.free_list owner desc.block_size ++ b ∷ []
  let h =
      set_arena a (record arena { free_cnt = free_cnt }) (set_free_list owner desc.block_size l h)
  (if free_cnt == desc.blocks_per_arena
      then (do
        l ← unlink_loop desc.blocks_per_arena 0 a desc l
        free_pages pf a 1 (set_free_list owner desc.block_size l h))
      else some h)

-- An arena with no descriptor that is not a large one is read through NULL.
unfoldable pub sys_free : Ptr → Heap → Option Heap
sys_free ptr h = do
  assert (not (ptr == null))
  let pf = flag_of h
  assert (not (h.machine.pgdir == null) || leb k_heap_start ptr)
  let a = block2arena ptr
  elim (h.arenas a).desc [
    | none ↦ if (h.arenas a).large then free_pages pf a (h.arenas a).free_cnt h else none
    | some (owner, desc) ↦ free_block pf owner desc ptr h
  ]
