-- ===== src/Memory/Heap/Return.antt =====
-- `sys_free` of a block of at most 1024 bytes: it goes back to its list, and its arena to the pages.
use jack_os.Base.{
  ℕ, ◌+◌, ◌<◌, ◌≤◌, ◌≡◌, ◌≢◌, ◌↔◌, ◌⊎◌, inl, inr, refl, sym, ◌∙◌, subst, Bool, true, false, some,
  List, [], ◌∷◌, ◌++◌, ◌||◌, not, arith, leb, ◌==◌, eq→==, ==→eq, Bool-cases, has, update,
  update_self, update_ne, tally-full,
}
use jack_os.CString.{Ptr, null}
use jack_os.Bitmap.{u32}
use jack_os.Memory.{MemBlockDesc, arena2block, block2arena, k_heap_start}
use jack_os.Memory.Arena.{IsDesc}
use jack_os.Memory.Virtual.{PoolFlags}
use jack_os.Memory.Heap.{
  Heap, set_free_list, unlink_loop, free_pages, free_block, sys_free, flag_of,
}
use jack_os.Memory.Heap.Slots.{IsPage, slot_page, slot_positive, unlink_loop_lem}
use jack_os.Memory.Heap.Account.{IsBlock, on_list, one_desc}
use jack_os.Memory.Heap.Arenas.{IsWhole, IsOpened, close-IsAccount, same-IsLive}
use jack_os.Memory.Heap.Moves.{IsHeap, Live, descs, give_heap, given}
use jack_os.Memory.Heap.Lists.{list_self, list_other, list-Distinct, descs_kept}

module _ (pf : PoolFlags) (h : Heap) (owned : Ptr → Bool) (a : Ptr) (d : MemBlockDesc)
    (use_ : owned a ≡ true) (of_desc : descs h a ≡ some (pf, d)) (ok : IsDesc d) (page : IsPage a)
    (acc : IsHeap pf h owned) (full : (h.arenas a).free_cnt ≡ d.blocks_per_arena) where
  abbrev at : ℕ → Ptr
  at j = arena2block a d j

  all_free : (j : ℕ) → j < d.blocks_per_arena → has (at j) (h.free_list pf d.block_size) ≡ true
  all_free =
      let (e, r) = acc.arena a use_ in
      let n =
        subst (λ z. (h.arenas a).free_cnt ≡ on_list a z (h.free_list pf z.block_size))
          (one_desc (descs h) a e d r.of_desc of_desc) r.counted in
      tally-full d.blocks_per_arena (λ j. has (at j) (h.free_list pf d.block_size)) (sym n ∙ full)

  -- An arena of which every block is free can leave the account.
  pub unlinked :
      (l : List Ptr) × (unlink_loop d.blocks_per_arena 0 a d (h.free_list pf d.block_size) ≡ some l)
      × IsHeap pf (set_free_list pf d.block_size l h) (update owned a false)
      × ((x : Ptr)
          → Live pf (set_free_list pf d.block_size l h) (update owned a false) x
            ↔ Live pf h owned x)
  unlinked =
      let n = d.blocks_per_arena in
      let (l, e, dist, gone, kept) =
        unlink_loop_lem d a ok page n 0 (h.free_list pf d.block_size) (omega arith)
          (acc.distinct d.block_size) (λ j m m'. all_free j (omega arith)) in
      let h' = set_free_list pf d.block_size l h in
      let op : IsOpened pf a d (descs h') (descs h) (update owned a false) owned
          (λ x. (h'.arenas x).free_cnt) (λ x. (h.arenas x).free_cnt) =
        record {
          same_desc = λ x ne. refl;
          same_owned = λ x ne. sym (update_ne owned a x false (λ q. ne (sym q)));
          same_cnt = λ x ne. refl;
          new_desc = of_desc;
          new_owned = use_;
          not_owned = update_self owned a false;
          new_cnt = full;
        } in
      let wh : IsWhole a d (h'.free_list pf) (h.free_list pf) = record {
        other_sizes = λ s ne. sym (list_other pf d.block_size l h s ne);
        others = λ x out.
            rw (list_self pf d.block_size l h) (sym (kept x (λ j m m'. out j (omega arith))));
        all_on = all_free;
        all_off = λ j m. rw (list_self pf d.block_size l h) (gone j (omega arith) (omega arith));
      } in
      let acc' =
        close-IsAccount op wh ok page acc (list-Distinct pf d.block_size l h dist acc.distinct) in
      (l, e, acc', λ x. let (to, from) = same-IsLive op wh ok page acc' acc x in (from, to))

-- What `sys_free` of a block leaves, before it gives back the pages of an arena that is free.
pub record IsReturned (pf : PoolFlags) (h : Heap) (owned : Ptr → Bool) (b : Ptr) (h' : Heap)
    (owned' : Ptr → Bool) : Type 0 where
  pub account : IsHeap pf h' owned'
  pub live : (x : Ptr) → Live pf h' owned' x ↔ (Live pf h owned x × (x ≢ b))

-- How `sys_free` ended: it returned, or is at `mfree_page` of the arena's page.
abbrev pub Ended : Heap → Ptr → Heap → (Ptr → Bool) → Type 0
Ended h b h' owned' =
    (sys_free b h ≡ some h')
    ⊎ ((sys_free b h ≡ free_pages (flag_of h) (block2arena b) 1 h')
        × (owned' (block2arena b) ≡ false))

module _ (h : Heap) (owned : Ptr → Bool) (a : Ptr) (d : MemBlockDesc) (i : ℕ)
    (blk : IsBlock (flag_of h) (descs h) owned a d i) (ok : IsDesc d) (page : IsPage a)
    (acc : IsHeap (flag_of h) h owned)
    (out : has (arena2block a d i) (h.free_list (flag_of h) d.block_size) ≡ false) where
  abbrev slot : Ptr
  slot = arena2block a d i

  abbrev pf : PoolFlags
  pf = flag_of h

  abbrev more : ℕ
  more = u32 ((h.arenas (block2arena slot)).free_cnt + 1)

  abbrev back : Heap
  back = give_heap pf h owned a d i blk ok page d.block_size

  to_block :
      ((h.machine.pgdir == null) ≡ false) ⊎ (k_heap_start ≤ slot)
      → sys_free slot h ≡ free_block pf pf d slot h
  unfolding sys_free
  to_block place =
      let positive = slot_positive d a ok page i blk.inside in
      let at : block2arena slot ≡ a = slot_page d a ok page i blk.inside in
      let of_desc : (h.arenas (block2arena slot)).desc ≡ some (pf, d) = rw at blk.of_desc in
      let real : (slot == null) ≡ false = ground arith in
      let placed : (not (h.machine.pgdir == null) || leb k_heap_start slot) ≡ true = ground arith in
      rw (sys_free, real, placed, of_desc) refl

  stays : (more == d.blocks_per_arena) ≡ false → free_block pf pf d slot h ≡ some back
  unfolding free_block
  stays t = rw (free_block, t) refl

  leaves :
      (l : List Ptr)
      → (more == d.blocks_per_arena) ≡ true
      → unlink_loop d.blocks_per_arena 0 a d (back.free_list pf d.block_size) ≡ some l
      → free_block pf pf d slot h
        ≡ free_pages pf (block2arena slot) 1 (set_free_list pf d.block_size l back)
  unfolding free_block
  leaves l t e =
      let at : block2arena slot ≡ a = slot_page d a ok page i blk.inside in
      let list = h.free_list pf d.block_size ++ slot ∷ [] in
      let e' : unlink_loop d.blocks_per_arena 0 (block2arena slot) d list ≡ some l =
        subst (λ z. unlink_loop d.blocks_per_arena 0 z d list ≡ some l) (sym at)
          (subst (λ z. unlink_loop d.blocks_per_arena 0 a d z ≡ some l)
            (list_self pf d.block_size list h) e) in
      rw (free_block, t, e') refl

  returned :
      ((h.machine.pgdir == null) ≡ false) ⊎ (k_heap_start ≤ slot)
      → (h' : Heap) × (owned' : Ptr → Bool) × IsReturned pf h owned slot h' owned'
        × Ended h slot h' owned'
  returned place =
      let at : block2arena slot ≡ a = slot_page d a ok page i blk.inside in
      let (acc', live, count) = given pf h owned a d i blk ok page d.block_size refl out acc in
      elim (Bool-cases (more == d.blocks_per_arena)) [
        | inr t ↦
            (back, owned, record { account = acc'; live = live }, inl (to_block place ∙ stays t))
        | inl t ↦
            let full : (back.arenas a).free_cnt ≡ d.blocks_per_arena =
              rw (at, eq→== a a refl)
                (subst (λ z. u32 ((h.arenas z).free_cnt + 1) ≡ d.blocks_per_arena) at
                  (==→eq more d.blocks_per_arena t)) in
            let kept : descs back a ≡ some (pf, d) =
              descs_kept h.arenas (block2arena slot) more a ∙ blk.of_desc in
            let (l, e, acc'', same) =
              unlinked pf back owned a d blk.in_use kept ok page acc' full in
            (
              set_free_list pf d.block_size l back,
              update owned a false,
              record {
                account = acc'';
                live = λ x. (λ m. (live x).0 ((same x).0 m), λ m. (same x).1 ((live x).1 m));
              },
              inr (
                to_block place ∙ leaves l t e,
                subst (λ z. update owned a false z ≡ false) (sym at) (update_self owned a false),
              ),
            )
      ]

-- `sys_free` of a block that is handed out takes it back: then the others are handed out, no other, and
-- the lists and the counts agree. It returns, unless the block was the last of its arena: then no
-- assertion fails up to `mfree_page` of the arena's page, which is what it does last, and the page is no
-- arena any more.
pub sys_free_lem :
    (h : Heap) (owned : Ptr → Bool) (b : Ptr)
    → IsHeap (flag_of h) h owned
    → Live (flag_of h) h owned b
    → ((h.machine.pgdir == null) ≡ false) ⊎ (k_heap_start ≤ b)
    → (h' : Heap) × (owned' : Ptr → Bool) × IsReturned (flag_of h) h owned b h' owned'
      × Ended h b h' owned'
sys_free_lem h owned b acc (a, d, i, blk, e, out) place =
    let (d', r) = acc.arena a blk.in_use in
    let ok = subst IsDesc (one_desc (descs h) a d' d r.of_desc blk.of_desc) r.desc_ok in
    subst
      (λ z.
        (h' : Heap) × (owned' : Ptr → Bool) × IsReturned (flag_of h) h owned z h' owned'
        × Ended h z h' owned')
      (sym e)
      (returned h owned a d i blk ok r.page acc
        (subst (λ z. has z (h.free_list (flag_of h) d.block_size) ≡ false) e out)
        (subst (λ z. ((h.machine.pgdir == null) ≡ false) ⊎ (k_heap_start ≤ z)) e place))
