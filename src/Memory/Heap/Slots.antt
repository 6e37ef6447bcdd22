-- ===== src/Memory/Heap/Slots.antt =====
-- The blocks of one arena, and the two loops of kernel/memory.c over them.
use jack_os.Base.{
  ℕ, zero, suc, ◌+◌, ◌-◌, ◌%◌, ◌<◌, ◌≤◌, ◌≡◌, ◌≢◌, refl, sym, ◌∙◌, ap, true, false, some, List, [],
  ◌∷◌, ◌++◌, arith, ◌==◌, ne→==, has, remove, Distinct, has-append, has-remove_ne, has-remove_self,
  remove-Distinct, append_assoc, append-nil, Bool-cases, ltb, ltb→lt, inl, inr, ==→eq, ==→ne,
  mul-le-mul_right,
}
use native.Mathlib.Nat.{mul-le-mul_left}
use jack_os.CString.{Ptr}
use jack_os.Memory.{MemBlockDesc, arena2block, block2arena}
use jack_os.Memory.Arena.{IsDesc, block2arena-arena2block}
use jack_os.Memory.Heap.{split_loop, unlink_loop}

-- A page for an arena.
abbrev pub IsPage : Ptr → Type 0
IsPage a = (a % 4096 ≡ 0) × (a + 4096 ≤ 0x1_0000_0000)

-- The blocks from `i` on, in order.
abbrev pub slots : ℕ → ℕ → Ptr → MemBlockDesc → List Ptr
slots zero i a d = []
slots (suc left) i a d = arena2block a d i ∷ slots left (i + 1) a d

-- A page has few blocks.
pub blocks-lt : (d : MemBlockDesc) → IsDesc d → d.blocks_per_arena < 4096
blocks-lt d v =
    let least = mul-le-mul_left {m = 1} {n = d.block_size} d.blocks_per_arena v.sized in
    let fits = v.fits in omega arith

module _ (d : MemBlockDesc) (a : Ptr) (v : IsDesc d) (page : IsPage a) where
  pub slot_page : (i : ℕ) → i < d.blocks_per_arena → block2arena (arena2block a d i) ≡ a
  slot_page i l = (block2arena-arena2block d a i i v page.0 page.1 (omega arith) l).0

  pub slot_positive : (i : ℕ) → i < d.blocks_per_arena → 12 ≤ arena2block a d i
  slot_positive i l =
      let (q, r, s, w) = block2arena-arena2block d a i i v page.0 page.1 (omega arith) l in
      omega arith

  slot_lt : (i j : ℕ) → i < j → j < d.blocks_per_arena → arena2block a d i < arena2block a d j
  slot_lt i j h l =
      let (q, r, s, e) = block2arena-arena2block d a i j v page.0 page.1 (omega arith) l in
      let positive = v.sized in
      let apart = mul-le-mul_right {m = 1} {n = j - i} d.block_size (omega arith) in omega arith

  pub slot-injective :
      (i j : ℕ)
      → i < d.blocks_per_arena
      → j < d.blocks_per_arena
      → i ≢ j
      → arena2block a d i ≢ arena2block a d j
  slot-injective i j hi hj ne e = elim (Bool-cases (ltb i j)) [
    | inl lt ↦ let k = slot_lt i j (ltb→lt i j lt) hj in omega arith
    | inr ge ↦ let k = slot_lt j i (ground arith) hi in omega arith
  ]

  -- The loop that splits a new arena appends its blocks.
  pub split_loop_lem :
      (left i : ℕ) (l : List Ptr)
      → i + left ≤ d.blocks_per_arena
      → ((j : ℕ) → i ≤ j → j < d.blocks_per_arena → has (arena2block a d j) l ≡ false)
      → split_loop left i a d l ≡ some (l ++ slots left i a d)
  unfolding split_loop
  split_loop_lem zero i l top out = ap some (sym (append-nil l))
  split_loop_lem (suc left) i l top out =
      let b = arena2block a d i in
      let rest = split_loop_lem left (i + 1) (l ++ b ∷ []) (omega arith) (λ j h h'.
        rw
          (
            has-append (arena2block a d j) l (b ∷ []),
            out j (omega arith) h',
            ne→== (arena2block a d j) b (slot-injective j i h' (omega arith) (omega arith)),
          )
          refl) in
      rw (out i (omega arith) (omega arith), rest)
        (ap some (append_assoc l (b ∷ []) (slots left (i + 1) a d)))

  -- The loop that takes a free arena's blocks off the list.
  pub unlink_loop_lem :
      (left i : ℕ) (l : List Ptr)
      → i + left ≤ d.blocks_per_arena
      → Distinct l
      → ((j : ℕ) → i ≤ j → j < i + left → has (arena2block a d j) l ≡ true)
      → (l' : List Ptr) × (unlink_loop left i a d l ≡ some l')
        × Distinct l'
        × ((j : ℕ) → i ≤ j → j < i + left → has (arena2block a d j) l' ≡ false)
        × ((x : Ptr)
            → ((j : ℕ) → i ≤ j → j < i + left → x ≢ arena2block a d j)
            → has x l' ≡ has x l)
  unfolding unlink_loop
  unlink_loop_lem zero i l top dist all =
      (l, refl, dist, λ j h h'. absurd (omega arith), λ x h. refl)
  unlink_loop_lem (suc left) i l top dist all =
      let b = arena2block a d i in
      let others = λ (j : ℕ) (h : i + 1 ≤ j) (h' : j < i + 1 + left).
        has-remove_ne (arena2block a d j) b l
          (slot-injective j i (omega arith) (omega arith) (omega arith))
        ∙ all j (omega arith) (omega arith) in
      let (l', e, dist', gone, kept) =
        unlink_loop_lem left (i + 1) (remove b l) (omega arith) (remove-Distinct b l dist) others in
      (
        l',
        rw (all i (omega arith) (omega arith)) e,
        dist',
        λ j h h'. elim (Bool-cases (j == i)) [
          | inl q ↦ rw (==→eq j i q) (
              kept b (λ k m m'. slot-injective i k (omega arith) (omega arith) (omega arith))
              ∙ has-remove_self b l dist)
          | inr q ↦ let ne = ==→ne j i q in gone j (omega arith) (omega arith)
        ],
        λ x h.
            kept x (λ j m m'. h j (omega arith) (omega arith))
            ∙ has-remove_ne x b l (h i (omega arith) (omega arith)),
      )
