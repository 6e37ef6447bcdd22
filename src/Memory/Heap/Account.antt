-- ===== src/Memory/Heap/Account.antt =====
-- The account of the small blocks of kernel/memory.c: `free_cnt` of an arena counts its blocks that
-- are on the list, and a list has only blocks of arenas in use. It is kept for the pages in use
-- (`owned`), the descriptor and the count that stand at a page, and the lists by the size of the blocks.
use jack_os.Base.{
  ℕ, ◌+◌, ◌<◌, ◌≡◌, ◌≢◌, ◌↔◌, ◌⊎◌, inl, inr, refl, sym, ◌∙◌, ap, subst, Bool, true, false,
  false≢true, Option, some, some-injective, List, arith, ◌==◌, ==→eq, ==→ne, Bool-cases, has,
  Distinct, tally, tally-same, tally-one,
}
use jack_os.CString.{Ptr}
use jack_os.Memory.{MemBlockDesc, arena2block, block2arena}
use jack_os.Memory.Arena.{IsDesc}
use jack_os.Memory.Virtual.{PoolFlags}
use jack_os.Memory.Heap.Slots.{IsPage, slot_page, slot-injective}

-- What stands at a page, for each page.
abbrev pub Descs : Type 0
Descs = Ptr → Option (PoolFlags × MemBlockDesc)

-- The blocks of arena `a` on a list.
abbrev pub on_list : Ptr → MemBlockDesc → List Ptr → ℕ
on_list a d l = tally d.blocks_per_arena (λ i. has (arena2block a d i) l)

-- Block `i` of an arena in use.
pub record IsBlock (pf : PoolFlags) (desc : Descs) (owned : Ptr → Bool) (a : Ptr) (d : MemBlockDesc)
    (i : ℕ) : Type 0 where
  pub in_use : owned a ≡ true
  pub of_desc : desc a ≡ some (pf, d)
  pub inside : i < d.blocks_per_arena

pub record IsArena (pf : PoolFlags) (desc : Descs) (a : Ptr) (d : MemBlockDesc) (n : ℕ)
    (l : List Ptr) : Type 0 where
  pub of_desc : desc a ≡ some (pf, d)
  pub desc_ok : IsDesc d
  pub page : IsPage a
  pub counted : n ≡ on_list a d l

-- A free block of a size.
abbrev pub IsPlaced : PoolFlags → Descs → (Ptr → Bool) → ℕ → Ptr → Type 0
IsPlaced pf desc owned size b =
    (a : Ptr) × (d : MemBlockDesc) × (i : ℕ) × IsBlock pf desc owned a d i
    × (d.block_size ≡ size)
    × (b ≡ arena2block a d i)

pub record IsAccount (pf : PoolFlags) (desc : Descs) (owned : Ptr → Bool) (cnt : Ptr → ℕ)
    (list : ℕ → List Ptr) : Type 0 where
  pub arena :
      (a : Ptr)
      → owned a ≡ true
      → (d : MemBlockDesc) × IsArena pf desc a d (cnt a) (list d.block_size)
  pub placed : (size : ℕ) (b : Ptr) → has b (list size) ≡ true → IsPlaced pf desc owned size b
  pub distinct : (size : ℕ) → Distinct (list size)

-- A block that is handed out.
abbrev pub IsLive : PoolFlags → Descs → (Ptr → Bool) → (ℕ → List Ptr) → Ptr → Type 0
IsLive pf desc owned list b =
    (a : Ptr) × (d : MemBlockDesc) × (i : ℕ) × IsBlock pf desc owned a d i
    × (b ≡ arena2block a d i)
    × (has b (list d.block_size) ≡ false)

pub one_desc :
    {pf : PoolFlags} (desc : Descs) (a : Ptr) (d e : MemBlockDesc)
    → desc a ≡ some (pf, d)
    → desc a ≡ some (pf, e)
    → d ≡ e
one_desc {pf = pf} desc a d e p q = ap (λ x. x.1) (some-injective (pf, d) (pf, e) (sym p ∙ q))

-- `list` has block `i0` of arena `a0` and `list'` has it not; else they agree.
pub record IsShift (a0 : Ptr) (d0 : MemBlockDesc) (i0 : ℕ) (list list' : ℕ → List Ptr)
    : Type 0 where
  pub other_sizes : (s : ℕ) → s ≢ d0.block_size → list' s ≡ list s
  pub others :
      (x : Ptr)
      → x ≢ arena2block a0 d0 i0
      → has x (list' d0.block_size) ≡ has x (list d0.block_size)
  pub on : has (arena2block a0 d0 i0) (list d0.block_size) ≡ true
  pub off : has (arena2block a0 d0 i0) (list' d0.block_size) ≡ false

module _ {pf : PoolFlags} {desc : Descs} {owned : Ptr → Bool} {a0 : Ptr} {d0 : MemBlockDesc}
    {i0 : ℕ} {list list' : ℕ → List Ptr} (block : IsBlock pf desc owned a0 d0 i0)
    (sh : IsShift a0 d0 i0 list list') (ok0 : IsDesc d0) (page0 : IsPage a0) where
  abbrev b0 : Ptr
  b0 = arena2block a0 d0 i0

  -- A list of another size, or another block, is the same on both sides.
  agree : (s : ℕ) (x : Ptr) → x ≢ b0 → has x (list' s) ≡ has x (list s)
  agree s x ne = elim (Bool-cases (s == d0.block_size)) [
    | inl q ↦ rw (==→eq s d0.block_size q) (sh.others x ne)
    | inr q ↦ rw (sh.other_sizes s (==→ne s d0.block_size q)) refl
  ]

  same_page :
      (a : Ptr) (d : MemBlockDesc)
      → IsDesc d
      → IsPage a
      → (i : ℕ) → i < d.blocks_per_arena
      → arena2block a d i ≡ b0
      → a ≡ a0
  same_page a d ok page i l e =
      sym (slot_page d a ok page i l) ∙ ap block2arena e ∙ slot_page d0 a0 ok0 page0 i0 block.inside

  count_other :
      (a : Ptr) (d : MemBlockDesc)
      → IsDesc d
      → IsPage a
      → a ≢ a0
      → on_list a d (list' d.block_size) ≡ on_list a d (list d.block_size)
  count_other a d ok page ne =
      tally-same d.blocks_per_arena (λ i. has (arena2block a d i) (list' d.block_size))
        (λ i. has (arena2block a d i) (list d.block_size))
        (λ i l. agree d.block_size (arena2block a d i) (λ e. ne (same_page a d ok page i l e)))

  pub count_self : on_list a0 d0 (list d0.block_size) ≡ on_list a0 d0 (list' d0.block_size) + 1
  count_self =
      tally-one d0.blocks_per_arena i0 (λ i. has (arena2block a0 d0 i) (list' d0.block_size))
        (λ i. has (arena2block a0 d0 i) (list d0.block_size)) block.inside sh.off sh.on
        (λ j l ne.
          sh.others (arena2block a0 d0 j) (slot-injective d0 a0 ok0 page0 j i0 l block.inside ne))

  sub : (s : ℕ) (x : Ptr) → has x (list' s) ≡ true → has x (list s) ≡ true
  sub s x on = elim (Bool-cases (s == d0.block_size)) [
    | inr q ↦ rw (← sh.other_sizes s (==→ne s d0.block_size q)) on
    | inl q ↦ elim (Bool-cases (x == b0)) [
      | inl e ↦ rw (==→eq s d0.block_size q, ==→eq x b0 e) sh.on
      | inr n ↦ sym (agree s x (==→ne x b0 n)) ∙ on
    ]
  ]

  pub counted_at :
      {n : Ptr → ℕ} {l : ℕ → List Ptr}
      → IsAccount pf desc owned n l
      → n a0 ≡ on_list a0 d0 (l d0.block_size)
  counted_at {n = n} {l = l} acc =
      let (d, r) = acc.arena a0 block.in_use in
      subst (λ z. n a0 ≡ on_list a0 z (l z.block_size))
        (one_desc desc a0 d d0 r.of_desc block.of_desc) r.counted

  self-IsArena :
      (n : Ptr → ℕ) (l : List Ptr) (a : Ptr)
      → a ≡ a0
      → n a0 ≡ on_list a0 d0 l
      → IsArena pf desc a d0 (n a) l
  self-IsArena n l a e c = record {
    of_desc = rw e block.of_desc;
    desc_ok = ok0;
    page = rw e page0;
    counted = rw e c;
  }

  module _ {cnt cnt' : Ptr → ℕ} (same : (x : Ptr) → x ≢ a0 → cnt' x ≡ cnt x)
      (less : cnt a0 ≡ cnt' a0 + 1) where
    -- The block leaves the list.
    pub take-IsAccount :
        IsAccount pf desc owned cnt list
        → ((s : ℕ) → Distinct (list' s))
        → IsAccount pf desc owned cnt' list'
    take-IsAccount acc dist = record {
      arena = λ a o. elim (Bool-cases (a == a0)) [
        | inl q ↦ (
          d0,
          self-IsArena cnt' (list' d0.block_size) a (==→eq a a0 q)
              (let n = counted_at acc in let m = count_self in omega arith),
        )
        | inr q ↦
            let (d, r) = acc.arena a o in
            let ne = ==→ne a a0 q in
            (
              d,
              record {
                of_desc = r.of_desc;
                desc_ok = r.desc_ok;
                page = r.page;
                counted = same a ne ∙ r.counted ∙ sym (count_other a d r.desc_ok r.page ne);
              },
            )
      ];
      placed = λ s x on. acc.placed s x (sub s x on);
      distinct = dist;
    }

    -- The block comes back to the list.
    pub give-IsAccount :
        IsAccount pf desc owned cnt' list'
        → ((s : ℕ) → Distinct (list s))
        → IsAccount pf desc owned cnt list
    give-IsAccount acc dist = record {
      arena = λ a o. elim (Bool-cases (a == a0)) [
        | inl q ↦ (
          d0,
          self-IsArena cnt (list d0.block_size) a (==→eq a a0 q)
              (let n = counted_at acc in let m = count_self in omega arith),
        )
        | inr q ↦
            let (d, r) = acc.arena a o in
            let ne = ==→ne a a0 q in
            (
              d,
              record {
                of_desc = r.of_desc;
                desc_ok = r.desc_ok;
                page = r.page;
                counted = sym (same a ne) ∙ r.counted ∙ count_other a d r.desc_ok r.page ne;
              },
            )
      ];
      placed = λ s x on. elim (Bool-cases (s == d0.block_size)) [
        | inr q ↦ acc.placed s x (rw (sh.other_sizes s (==→ne s d0.block_size q)) on)
        | inl q ↦ elim (Bool-cases (x == b0)) [
          | inl e ↦ (a0, d0, i0, block, sym (==→eq s d0.block_size q), ==→eq x b0 e)
          | inr n ↦ acc.placed s x (agree s x (==→ne x b0 n) ∙ on)
        ]
      ];
      distinct = dist;
    }

  abbrev IsLiveOn : (ℕ → List Ptr) → Ptr → Type 0
  IsLiveOn l x = IsLive pf desc owned l x

  off_list : (s : ℕ) (x : Ptr) → has x (list s) ≡ false → has x (list' s) ≡ false
  off_list s x out = elim (Bool-cases (has x (list' s))) [
    | inl on ↦ absurd (false≢true (sym out ∙ sub s x on))
    | inr off ↦ off
  ]

  pub not-IsLiveOn : {n : Ptr → ℕ} → IsAccount pf desc owned n list → ¬ IsLiveOn list b0
  not-IsLiveOn acc (a, d, i, blk, e, f) =
      let (d', r) = acc.arena a blk.in_use in
      let q = one_desc desc a d' d r.of_desc blk.of_desc in
      let p = same_page a d (subst IsDesc q r.desc_ok) r.page i blk.inside (sym e) in
      let one = one_desc desc a0 d d0 (rw (← p) blk.of_desc) block.of_desc in
      false≢true (sym (subst (λ z. has b0 (list z.block_size) ≡ false) one f) ∙ sh.on)

  -- Without the block on the list, it is handed out, and what was handed out before.
  pub after-IsLiveOn : (x : Ptr) → IsLiveOn list' x ↔ (IsLiveOn list x ⊎ (x ≡ b0))
  after-IsLiveOn x = (
    λ (a, d, i, blk, e, f). elim (Bool-cases (x == b0)) [
      | inl q ↦ inr (==→eq x b0 q)
      | inr q ↦ inl (a, d, i, blk, e, sym (agree d.block_size x (==→ne x b0 q)) ∙ f)
    ],
    λ h. elim h [
      | inl (a, d, i, blk, e, f) ↦ (a, d, i, blk, e, off_list d.block_size x f)
      | inr q ↦ (a0, d0, i0, block, q, rw q sh.off)
    ],
  )

  -- With it on the list, what is handed out is what was without, but the block.
  pub before-IsLiveOn :
      {n : Ptr → ℕ}
      → IsAccount pf desc owned n list
      → (x : Ptr) → IsLiveOn list x ↔ (IsLiveOn list' x × (x ≢ b0))
  before-IsLiveOn acc x = (
    λ l. ((after-IsLiveOn x).1 (inl l), λ e. not-IsLiveOn acc (subst (IsLiveOn list) e l)),
    λ (l, ne). elim ((after-IsLiveOn x).0 l) [ inl before ↦ before | inr e ↦ absurd (ne e) ],
  )
