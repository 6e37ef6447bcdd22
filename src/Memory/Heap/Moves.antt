-- ===== src/Memory/Heap/Moves.antt =====
-- A block that is handed out by `sys_malloc`, and one that is given back to its list.
use jack_os.Base.{
  ℕ, ◌+◌, ◌≡◌, ◌≢◌, ◌↔◌, ◌⊎◌, refl, sym, ◌∙◌, ap, subst, Bool, true, false, some, List, [], ◌∷◌,
  ◌++◌, arith, if◌then◌else◌, eq→==, ne→==, has, has-append, not-mem→has, has→not-mem, Distinct,
  Distinct-snoc, tally-le,
}
use mathlib.Core.Bool.{or-true, or-false}
use jack_os.CString.{Ptr, Memory, memset}
use jack_os.CString.Block.{within, memset_lem}
use jack_os.Bitmap.{u32}
use jack_os.Memory.{MemBlockDesc, arena2block, block2arena}
use jack_os.Memory.Arena.{IsDesc}
use jack_os.Memory.Virtual.{PoolFlags, set_memory}
use jack_os.Memory.Heap.{Heap, set_free_list, set_arena, take_block}
use jack_os.Memory.Heap.Slots.{IsPage, slot_page, slot_positive, blocks-lt}
use jack_os.Memory.Heap.Lists.{list_self, list_other, list-Distinct, descs_kept}
use jack_os.Memory.Heap.Account.{
  Descs, IsBlock, IsAccount, IsLive, IsShift, one_desc, take-IsAccount, give-IsAccount,
  not-IsLiveOn, after-IsLiveOn, before-IsLiveOn, counted_at, count_self,
}

abbrev pub descs : Heap → Descs
descs h a = (h.arenas a).desc

-- The account of the blocks of a pool, where the pages in `owned` are arenas.
abbrev pub IsHeap : PoolFlags → Heap → (Ptr → Bool) → Type 0
IsHeap pf h owned = IsAccount pf (descs h) owned (λ a. (h.arenas a).free_cnt) (h.free_list pf)

-- The blocks that are handed out.
abbrev pub Live : PoolFlags → Heap → (Ptr → Bool) → Ptr → Type 0
Live pf h owned x = IsLive pf (descs h) owned (h.free_list pf) x

-- What `take_block` makes of a pool whose list has a block: that block is handed out and cleared.
pub record IsTaken (pf : PoolFlags) (owned : Ptr → Bool) (size : ℕ) (b : Ptr) (h h' : Heap)
    : Type 0 where
  pub account : IsHeap pf h' owned
  pub fresh : ¬ Live pf h owned b
  pub live : (x : Ptr) → Live pf h' owned x ↔ (Live pf h owned x ⊎ (x ≡ b))
  pub cleared :
      (x : Ptr) → h'.machine.memory x ≡ (if within b size x then 0 else h.machine.memory x)

module _ (pf : PoolFlags) (h : Heap) (owned : Ptr → Bool) (a : Ptr) (d : MemBlockDesc) (i : ℕ)
    (blk : IsBlock pf (descs h) owned a d i) (ok : IsDesc d) (page : IsPage a) where
  abbrev slot : Ptr
  slot = arena2block a d i

  -- The heap with another list, and another count of the arena.
  abbrev with_list : ℕ → List Ptr → (ℕ → ℕ) → Heap
  with_list size l m =
      let h₁ = set_free_list pf size l h in record h₁ { machine = set_memory m h₁.machine }

  take-IsShift :
      (size : ℕ) (bs : List Ptr)
      → d.block_size ≡ size
      → h.free_list pf size ≡ slot ∷ bs
      → Distinct (slot ∷ bs)
      → IsShift a d i (h.free_list pf) ((set_free_list pf size bs h).free_list pf)
  take-IsShift size bs f e dist = record {
    other_sizes = λ s ne. list_other pf size bs h s (λ q. ne (q ∙ sym f));
    others = λ x ne.
        subst (λ s. has x ((set_free_list pf size bs h).free_list pf s) ≡ has x (h.free_list pf s))
          (sym f) (rw (list_self pf size bs h, e, ne→== x slot ne) refl);
    on =
        subst (λ s. has slot (h.free_list pf s) ≡ true) (sym f) (rw (e, eq→== slot slot refl) refl);
    off =
        subst (λ s. has slot ((set_free_list pf size bs h).free_list pf s) ≡ false) (sym f)
          (rw (list_self pf size bs h) (not-mem→has slot bs dist.0));
  }

  give-IsShift :
      (size : ℕ)
      → d.block_size ≡ size
      → has slot (h.free_list pf size) ≡ false
      → IsShift a d i
          ((set_free_list pf size (h.free_list pf size ++ slot ∷ []) h).free_list pf)
          (h.free_list pf)
  give-IsShift size f out =
      let l = h.free_list pf size ++ slot ∷ [] in
      record {
        other_sizes = λ s ne. sym (list_other pf size l h s (λ q. ne (q ∙ sym f)));
        others = λ x ne.
            subst
              (λ s. has x (h.free_list pf s) ≡ has x ((set_free_list pf size l h).free_list pf s))
              (sym f)
              (rw
                (
                  list_self pf size l h,
                  has-append x (h.free_list pf size) (slot ∷ []),
                  ne→== x slot ne,
                  or-false,
                )
                refl);
        on =
            subst (λ s. has slot ((set_free_list pf size l h).free_list pf s) ≡ true) (sym f)
              (rw
                (
                  list_self pf size l h,
                  has-append slot (h.free_list pf size) (slot ∷ []),
                  eq→== slot slot refl,
                  or-true,
                )
                refl);
        off = subst (λ s. has slot (h.free_list pf s) ≡ false) (sym f) out;
      }

  -- The heap of which a block has left its list, with the memory `m`.
  abbrev take_heap : ℕ → List Ptr → Memory → Heap
  take_heap size bs m =
      let h₁ = set_free_list pf size bs h in
      let h₂ : Heap = record h₁ { machine = set_memory m h₁.machine } in
      let arena = h₂.arenas (block2arena slot) in
      set_arena (block2arena slot) (record arena { free_cnt = u32 (arena.free_cnt + 0xFFFF_FFFF) })
        h₂

  count_less :
      (bs : List Ptr) (size : ℕ) (m : Memory)
      → IsHeap pf h owned
      → IsShift a d i (h.free_list pf) ((set_free_list pf size bs h).free_list pf)
      → (h.arenas a).free_cnt ≡ ((take_heap size bs m).arenas a).free_cnt + 1
  count_less bs size m acc sh =
      let at = slot_page d a ok page i blk.inside in
      let n = counted_at blk sh ok page acc in
      let k = count_self blk sh ok page in
      let few = blocks-lt d ok in
      let le =
        tally-le d.blocks_per_arena (λ i. has (arena2block a d i) (h.free_list pf d.block_size)) in
      rw (at, eq→== a a refl) (omega arith)

  taken :
      (size : ℕ) (bs : List Ptr) (m : Memory)
      → d.block_size ≡ size
      → h.free_list pf size ≡ slot ∷ bs
      → IsHeap pf h owned
      → ((x : Ptr) → m x ≡ (if within slot size x then 0 else h.machine.memory x))
      → IsTaken pf owned size slot h (take_heap size bs m)
  taken size bs m f e acc wrote =
      let at = slot_page d a ok page i blk.inside in
      let dist = subst Distinct e (acc.distinct size) in
      let sh = take-IsShift size bs f e dist in
      let h' = take_heap size bs m in
      let same : descs h' ≡ descs h = λ k x.
        descs_kept h.arenas (block2arena slot)
          (u32 ((h.arenas (block2arena slot)).free_cnt + 0xFFFF_FFFF)) x k in
      record {
        account =
            subst (λ z. IsAccount pf z owned (λ a. (h'.arenas a).free_cnt) (h'.free_list pf))
              (sym same)
              (take-IsAccount blk sh ok page (λ x ne. rw (at, ne→== a x (λ q. ne (sym q))) refl)
                (count_less bs size m acc sh) acc (list-Distinct pf size bs h dist.1 acc.distinct));
        fresh = not-IsLiveOn blk sh ok page acc;
        live = λ x.
            subst (λ z. IsLive pf z owned (h'.free_list pf) x ↔ (Live pf h owned x ⊎ (x ≡ slot)))
              (sym same) (after-IsLiveOn blk sh ok page x);
        cleared = wrote;
      }

  -- The heap in which a block is on its list again.
  abbrev pub give_heap : ℕ → Heap
  give_heap size =
      let arena = h.arenas (block2arena slot) in
      set_arena (block2arena slot) (record arena { free_cnt = u32 (arena.free_cnt + 1) })
        (set_free_list pf size (h.free_list pf size ++ slot ∷ []) h)

  count_more :
      (size : ℕ)
      → IsHeap pf h owned
      → IsShift a d i ((give_heap size).free_list pf) (h.free_list pf)
      → ((give_heap size).arenas a).free_cnt ≡ (h.arenas a).free_cnt + 1
  count_more size acc sh =
      let at = slot_page d a ok page i blk.inside in
      let n = counted_at blk sh ok page acc in
      let few = blocks-lt d ok in
      let le =
        tally-le d.blocks_per_arena (λ i. has (arena2block a d i) (h.free_list pf d.block_size)) in
      rw (at, eq→== a a refl) (omega arith)

  pub given :
      (size : ℕ)
      → d.block_size ≡ size
      → has slot (h.free_list pf size) ≡ false
      → IsHeap pf h owned
      → IsHeap pf (give_heap size) owned
        × ((x : Ptr) → Live pf (give_heap size) owned x ↔ (Live pf h owned x × (x ≢ slot)))
        × (((give_heap size).arenas a).free_cnt ≡ (h.arenas a).free_cnt + 1)
  given size f out acc =
      let at = slot_page d a ok page i blk.inside in
      let l = h.free_list pf size ++ slot ∷ [] in
      let dist =
        Distinct-snoc (h.free_list pf size) slot (acc.distinct size)
          (has→not-mem slot (h.free_list pf size) out) in
      let sh = give-IsShift size f out in
      let h' = give_heap size in
      let same : descs h' ≡ descs h = λ k x.
        descs_kept h.arenas (block2arena slot) (u32 ((h.arenas (block2arena slot)).free_cnt + 1)) x
          k in
      let acc' =
        give-IsAccount blk sh ok page {cnt = λ x. (h'.arenas x).free_cnt}
          (λ x ne. rw (at, ne→== a x (λ q. ne (sym q))) refl) (count_more size acc sh) acc
          (list-Distinct pf size l h dist acc.distinct) in
      (
        subst (λ z. IsAccount pf z owned (λ a. (h'.arenas a).free_cnt) (h'.free_list pf)) (sym same)
            acc',
        λ x.
            subst (λ z. IsLive pf z owned (h'.free_list pf) x ↔ (Live pf h owned x × (x ≢ slot)))
              (sym same) (before-IsLiveOn blk sh ok page acc' x),
        count_more size acc sh,
      )

  take_block-eq :
      (desc : MemBlockDesc) (bs : List Ptr) (m : Memory)
      → h.free_list pf desc.block_size ≡ slot ∷ bs
      → memset h.machine.memory slot 0 desc.block_size ≡ some m
      → take_block pf desc h ≡ some (slot, take_heap desc.block_size bs m)
  unfolding take_block
  take_block-eq desc bs m e w = rw (take_block, e, w) refl

  take_slot :
      (desc : MemBlockDesc) (bs : List Ptr)
      → d.block_size ≡ desc.block_size
      → h.free_list pf desc.block_size ≡ slot ∷ bs
      → IsHeap pf h owned
      → (h' : Heap) × (take_block pf desc h ≡ some (slot, h'))
        × IsTaken pf owned desc.block_size slot h h'
  take_slot desc bs f e acc =
      let positive = slot_positive d a ok page i blk.inside in
      let (m', w, wrote) = memset_lem h.machine.memory slot 0 desc.block_size (omega arith) in
      (
        take_heap desc.block_size bs m',
        take_block-eq desc bs m' e w,
        taken desc.block_size bs m' f e acc wrote,
      )

-- `take_block` of a list with a block hands out the first, which no one has, and clears it.
pub take_block_lem :
    (pf : PoolFlags) (desc : MemBlockDesc) (h : Heap) (owned : Ptr → Bool) (b : Ptr) (bs : List Ptr)
    → IsHeap pf h owned
    → h.free_list pf desc.block_size ≡ b ∷ bs
    → (h' : Heap) × (take_block pf desc h ≡ some (b, h')) × IsTaken pf owned desc.block_size b h h'
take_block_lem pf desc h owned b bs acc e =
    let first : has b (b ∷ bs) ≡ true = rw (eq→== b b refl) refl in
    let (a, d, i, blk, f, at) =
      acc.placed desc.block_size b (subst (λ l. has b l ≡ true) (sym e) first) in
    let (d', r) = acc.arena a blk.in_use in
    let ok = subst IsDesc (one_desc (descs h) a d' d r.of_desc blk.of_desc) r.desc_ok in
    subst
      (λ z.
        (h' : Heap) × (take_block pf desc h ≡ some (z, h'))
        × IsTaken pf owned desc.block_size z h h')
      (sym at) (take_slot pf h owned a d i blk ok r.page desc bs f (e ∙ ap (λ z. z ∷ bs) at) acc)
