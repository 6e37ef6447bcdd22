-- ===== src/Memory/Heap/Refill.antt =====
-- `sys_malloc` of at most 1024 bytes: a list that is empty is filled from a new page, and then the first
-- block of the list is handed out.
use jack_os.Base.{
  ℕ, zero, suc, ◌+◌, ◌<◌, ◌≤◌, ◌≡◌, ◌≢◌, ◌↔◌, ◌⊎◌, inl, inr, refl, sym, ◌∙◌, Bool, true, false,
  some, List, [], ◌∷◌, arith, ltb, leb, ◌==◌, eq→==, ne→==, ==→eq, ==→ne, Bool-cases, has,
  has→not-mem, Distinct, update, update_self, update_ne,
}
use mathlib.Core.Bool.{or-true}
use jack_os.CString.{Ptr, Memory, null, memset}
use jack_os.CString.Block.{memset_lem}
use jack_os.Memory.{MemBlockDesc, arena2block, block_desc_init}
use jack_os.Memory.Arena.{IsDesc, block_desc_init-AllDescs, choose_desc-IsDesc, choose_small}
use jack_os.Memory.Virtual.{PoolFlags, Machine, malloc_page, set_memory, pool_for}
use jack_os.Memory.Heap.{
  Heap, Arena, set_free_list, set_arena, refill, malloc_small, sys_malloc, flag_of,
}
use jack_os.Memory.Heap.Slots.{IsPage, slots, slot-injective, split_loop_lem}
use jack_os.Memory.Heap.Arenas.{IsWhole, IsOpened, open-IsAccount, same-IsLive}
use jack_os.Memory.Heap.Moves.{IsHeap, Live, descs, take_block_lem}
use jack_os.Memory.Heap.Lists.{list_self, list_other, list-Distinct}

-- The blocks of an arena as a list.
module _ (a : Ptr) (d : MemBlockDesc) where
  has-slots : (n i j : ℕ) → i ≤ j → j < i + n → has (arena2block a d j) (slots n i a d) ≡ true
  has-slots zero i j h l = absurd (omega arith)
  has-slots (suc n) i j h l = elim (Bool-cases (j == i)) [
    | inl q ↦ rw (==→eq j i q, eq→== (arena2block a d i) (arena2block a d i) refl) refl
    | inr q ↦
        let ne = ==→ne j i q in
        rw (has-slots n (i + 1) j (omega arith) (omega arith))
          (or-true (arena2block a d j == arena2block a d i))
  ]

  not-slots :
      (n i : ℕ) (x : Ptr)
      → ((j : ℕ) → i ≤ j → j < i + n → x ≢ arena2block a d j)
      → has x (slots n i a d) ≡ false
  not-slots zero i x out = refl
  not-slots (suc n) i x out =
      rw
        (
          ne→== x (arena2block a d i) (out i (omega arith) (omega arith)),
          not-slots n (i + 1) x (λ j h l. out j (omega arith) (omega arith)),
        )
        refl

  slots-Distinct :
      (n i : ℕ) → IsDesc d → IsPage a → i + n ≤ d.blocks_per_arena → Distinct (slots n i a d)
  slots-Distinct zero i ok page top = tt
  slots-Distinct (suc n) i ok page top = (
    has→not-mem (arena2block a d i) (slots n (i + 1) a d) (
        not-slots n (i + 1) (arena2block a d i)
          (λ j h l. slot-injective d a ok page i j (omega arith) (omega arith) (omega arith))),
    slots-Distinct n (i + 1) ok page (omega arith),
  )

module _ (pf : PoolFlags) (h : Heap) (owned : Ptr → Bool) (d : MemBlockDesc) (ok : IsDesc d)
    (a : Ptr) (s : Machine) (page : IsPage a) (new : owned a ≡ false) (acc : IsHeap pf h owned)
    (empty : h.free_list pf d.block_size ≡ []) where
  abbrev whole : List Ptr
  whole = slots d.blocks_per_arena 0 a d

  abbrev opened_heap : Memory → Heap
  opened_heap m =
      let h₁ : Heap = record h { machine = s } in
      let h₂ : Heap = record h₁ { machine = set_memory m h₁.machine } in
      let arena : Arena = record {
        desc = some (pf, d);
        free_cnt = d.blocks_per_arena;
        large = false;
      } in
      set_free_list pf d.block_size whole (set_arena a arena h₂)

  lists-IsWhole : (m : Memory) → IsWhole a d (h.free_list pf) ((opened_heap m).free_list pf)
  lists-IsWhole m = record {
    other_sizes = λ t ne. list_other pf d.block_size whole h t ne;
    others = λ x out.
        rw (list_self pf d.block_size whole h, empty)
          (not-slots a d d.blocks_per_arena 0 x (λ j l r. out j (omega arith)));
    all_on = λ i l.
        rw (list_self pf d.block_size whole h)
          (has-slots a d d.blocks_per_arena 0 i (omega arith) (omega arith));
    all_off = λ i l. rw empty refl;
  }

  tables-IsOpened :
      (m : Memory)
      → IsOpened pf a d
          (descs h)
          (descs (opened_heap m))
          owned
          (update owned a true)
          (λ x. (h.arenas x).free_cnt)
          (λ x. ((opened_heap m).arenas x).free_cnt)
  tables-IsOpened m = record {
    same_desc = λ x ne. rw (descs, ne→== a x (λ q. ne (sym q))) refl;
    same_owned = λ x ne. update_ne owned a x true (λ q. ne (sym q));
    same_cnt = λ x ne. rw (ne→== a x (λ q. ne (sym q))) refl;
    new_desc = rw (descs, eq→== a a refl) refl;
    new_owned = update_self owned a true;
    not_owned = new;
    new_cnt = rw (eq→== a a refl) refl;
  }

  opened :
      (m : Memory)
      → IsHeap pf (opened_heap m) (update owned a true)
        × ((x : Ptr) → Live pf (opened_heap m) (update owned a true) x ↔ Live pf h owned x)
  opened m =
      let op = tables-IsOpened m in
      let wh = lists-IsWhole m in
      let acc' = open-IsAccount op wh ok page acc (
        list-Distinct pf d.block_size whole h
          (slots-Distinct a d d.blocks_per_arena 0 ok page (omega arith)) acc.distinct) in
      (acc', same-IsLive op wh ok page acc acc')

  refill-eq :
      (m : Memory)
      → malloc_page pf 1 h.machine ≡ some (a, s)
      → a ≢ null
      → memset s.memory a 0 4096 ≡ some m
      → refill pf d h ≡ some (true, opened_heap m)
  unfolding refill
  refill-eq m e ne w =
      let split =
        split_loop_lem d a ok page d.blocks_per_arena 0 [] (omega arith) (λ j l r. refl) in
      rw (refill, empty, e, ne→== a null ne, w, empty, split) refl

-- A page that `malloc_page` finds and that is no arena in use.
abbrev pub NewPage : PoolFlags → Heap → (Ptr → Bool) → Type 0
NewPage pf h owned =
    (a : Ptr) × (s : Machine) × (malloc_page pf 1 h.machine ≡ some (a, s))
    × (a ≢ null)
    × IsPage a
    × (owned a ≡ false)

slots-cons :
    (n i : ℕ) (a : Ptr) (d : MemBlockDesc)
    → 0 < n
    → (bs : List Ptr) × (slots n i a d ≡ arena2block a d i ∷ bs)
slots-cons zero i a d h = absurd (omega arith)
slots-cons (suc n) i a d h = (slots n (i + 1) a d, refl)

List-cases : (l : List Ptr) → (l ≡ []) ⊎ ((b : Ptr) × (bs : List Ptr) × (l ≡ b ∷ bs))
List-cases [] = inl refl
List-cases (b ∷ bs) = inr (b, bs, refl)

-- After `refill` the list has a block, and no block has been handed out.
refill_lem :
    (pf : PoolFlags) (h : Heap) (owned : Ptr → Bool) (d : MemBlockDesc)
    → IsDesc d
    → IsHeap pf h owned
    → (h.free_list pf d.block_size ≡ [] → NewPage pf h owned)
    → (h' : Heap) × (owned' : Ptr → Bool) × (b : Ptr) × (bs : List Ptr) × (refill pf d h
        ≡ some (true, h'))
      × IsHeap pf h' owned'
      × (h'.free_list pf d.block_size ≡ b ∷ bs)
      × ((x : Ptr) → Live pf h' owned' x ↔ Live pf h owned x)
unfolding refill
refill_lem pf h owned d ok acc page = elim (List-cases (h.free_list pf d.block_size)) [
  | inr (b, bs, e) ↦ (h, owned, b, bs, rw (refill, e) refl, acc, e, λ x. (λ l. l, λ l. l))
  | inl e ↦
      let (a, s, found, ne, at, new) = page e in
      let (m, w, wrote) = memset_lem s.memory a 0 4096 ne in
      let (bs, q) = slots-cons d.blocks_per_arena 0 a d ok.some_blocks in
      let (acc', same) = opened pf h owned d ok a s at new acc e m in
      let h' = opened_heap pf h owned d ok a s at new acc e m in
      (
        h',
        update owned a true,
        arena2block a d 0,
        bs,
        refill-eq pf h owned d ok a s at new acc e m found ne w,
        acc',
        list_self pf d.block_size (slots d.blocks_per_arena 0 a d) h ∙ q,
        same,
      )
]

-- What `sys_malloc` makes of the heap: block `b` is handed out, with `size` bytes of 0.
pub record IsMalloced (pf : PoolFlags) (size : ℕ) (h : Heap) (owned : Ptr → Bool) (b : Ptr)
    (h' : Heap) (owned' : Ptr → Bool) : Type 0 where
  pub account : IsHeap pf h' owned'
  pub fresh : ¬ Live pf h owned b
  pub live : (x : Ptr) → Live pf h' owned' x ↔ (Live pf h owned x ⊎ (x ≡ b))
  pub cleared : (k : ℕ) → k < size → h'.machine.memory (b + k) ≡ 0

malloc_small_lem :
    (pf : PoolFlags) (size : ℕ) (h : Heap) (owned : Ptr → Bool)
    → size ≤ 1024
    → IsHeap pf h owned
    → ((t : ℕ) → h.free_list pf t ≡ [] → NewPage pf h owned)
    → (b : Ptr) × (h' : Heap) × (owned' : Ptr → Bool) × (malloc_small pf size h ≡ some (b, h'))
      × IsMalloced pf size h owned b h' owned'
unfolding malloc_small
malloc_small_lem pf size h owned small acc page =
    let (d, e, fits, tight) = choose_small size small in
    let ok = choose_desc-IsDesc size block_desc_init d block_desc_init-AllDescs e in
    let (h₁, owned₁, b, bs, filled, acc₁, list, same) =
      refill_lem pf h owned d ok acc (page d.block_size) in
    let (h', took, t) = take_block_lem pf d h₁ owned₁ b bs acc₁ list in
    (
      b,
      h',
      owned₁,
      rw (e, filled, took) refl,
      record {
        account = t.account;
        fresh = λ l. t.fresh ((same b).1 l);
        live = λ x. (
          λ l. elim ((t.live x).0 l) [ inl k ↦ inl ((same x).0 k) | inr k ↦ inr k ],
          λ l. elim l [ inl k ↦ (t.live x).1 (inl ((same x).1 k)) | inr k ↦ (t.live x).1 (inr k) ],
        );
        cleared = λ k l. ground (arith, t.cleared (b + k));
      },
    )

-- `sys_malloc` of 1 to 1024 bytes, less than the pool has, where the lists and the counts of the arenas
-- agree and `malloc_page` finds a new page for a list that is empty: it returns a block that nobody has,
-- with its bytes clear. Then that block and those handed out before are handed out, no other, and the
-- lists and the counts agree.
pub sys_malloc-IsMalloced :
    (size : ℕ) (h : Heap) (owned : Ptr → Bool)
    → 0 < size
    → size ≤ 1024
    → size < (pool_for (flag_of h) h.machine).pool_size
    → IsHeap (flag_of h) h owned
    → ((t : ℕ) → h.free_list (flag_of h) t ≡ [] → NewPage (flag_of h) h owned)
    → (b : Ptr) × (h' : Heap) × (owned' : Ptr → Bool) × (sys_malloc size h ≡ some (b, h'))
      × IsMalloced (flag_of h) size h owned b h' owned'
unfolding sys_malloc
sys_malloc-IsMalloced size h owned some_size small inside acc page =
    let (b, h', owned', e, m) = malloc_small_lem (flag_of h) size h owned small acc page in
    let pool = (pool_for (flag_of h) h.machine).pool_size in
    let zero_test : (size == 0) ≡ false = ground arith in
    let pool_test : leb pool size ≡ false = ground arith in
    let big_test : ltb 1024 size ≡ false = ground arith in
    (b, h', owned', rw (sys_malloc, zero_test, pool_test, big_test, e) refl, m)
