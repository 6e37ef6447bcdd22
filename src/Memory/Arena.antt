-- ===== src/Memory/Arena.antt =====
-- The blocks of an arena: where they lie, and the descriptor that `sys_malloc` chooses.
use jack_os.Base.{
  ℕ, suc, ◌+◌, ◌-◌, ◌*◌, ◌%◌, ◌<◌, ◌≤◌, ◌≡◌, ◌⊎◌, inl, inr, refl, false, Bool-cases, Option, none,
  some, List, [], ◌∷◌, arith, leb, mul-le-mul_right, add-mul, subst, some-injective, if◌then◌else◌,
}
use jack_os.Memory.{MemBlockDesc, desc_loop, block_desc_init, arena2block, block2arena, choose_desc}

-- What each descriptor keeps: its blocks and the arena's own record fit in one page.
pub record IsDesc (d : MemBlockDesc) : Type 0 where
  pub sized : 0 < d.block_size
  pub some_blocks : 0 < d.blocks_per_arena
  pub fits : 12 + d.blocks_per_arena * d.block_size ≤ 4096
  pub small : d.block_size ≤ 1024

abbrev pub AllDescs : List MemBlockDesc → Type 0
AllDescs [] = Unit
AllDescs (d ∷ ds) = IsDesc d × AllDescs ds

is :
    {d : MemBlockDesc}
    → 0 < d.block_size
    → 0 < d.blocks_per_arena
    → 12 + d.blocks_per_arena * d.block_size ≤ 4096
    → d.block_size ≤ 1024
    → IsDesc d
is a b c e = record { sized = a; some_blocks = b; fits = c; small = e }

-- Each of the seven descriptors that `block_desc_init` makes has blocks of at least one and at most
-- 1024 bytes, and as many of them as fit in a page behind the arena's own record.
pub block_desc_init-AllDescs : AllDescs block_desc_init
unfolding block_desc_init desc_loop
block_desc_init-AllDescs = (
  is (omega arith) (omega arith) (omega arith) (omega arith),
  (
    is (omega arith) (omega arith) (omega arith) (omega arith),
    (
      is (omega arith) (omega arith) (omega arith) (omega arith),
      (
        is (omega arith) (omega arith) (omega arith) (omega arith),
        (
          is (omega arith) (omega arith) (omega arith) (omega arith),
          (
            is (omega arith) (omega arith) (omega arith) (omega arith),
            (is (omega arith) (omega arith) (omega arith) (omega arith), tt),
          ),
        ),
      ),
    ),
  ),
)

pub choose_desc-IsDesc :
    (size : ℕ) (ds : List MemBlockDesc) (d : MemBlockDesc)
    → AllDescs ds
    → choose_desc size ds ≡ some d
    → IsDesc d
unfolding choose_desc
choose_desc-IsDesc size [] d all e = cc
choose_desc-IsDesc size (x ∷ ds) d all e = elim (Bool-cases (leb size x.block_size)) [
  | inl le ↦
      subst IsDesc
        (some-injective x d
          (subst (λ b. (if b then some x else choose_desc size ds) ≡ some d) le e))
        all.0
  | inr gt ↦
      choose_desc-IsDesc size ds d all.1
        (subst (λ b. (if b then some x else choose_desc size ds) ≡ some d) gt e)
]

abbrev pub Chosen : ℕ → Option MemBlockDesc → Type 0
Chosen size o =
    (d : MemBlockDesc) × (o ≡ some d)
    × (size ≤ d.block_size)
    × ((d.block_size ≡ 16) ⊎ (d.block_size < size + size))

choose_step :
    (size : ℕ) (d : MemBlockDesc) (ds : List MemBlockDesc)
    → (d.block_size ≡ 16) ⊎ (d.block_size < size + size)
    → (d.block_size < size → Chosen size (choose_desc size ds))
    → Chosen size (choose_desc size (d ∷ ds))
unfolding choose_desc
choose_step size d ds tight more = elim (Bool-cases (leb size d.block_size)) [
  | inl le ↦ rw le (d, refl, ground arith, tight)
  | inr gt ↦ rw gt (more (ground arith))
]

pub choose_small : (size : ℕ) → size ≤ 1024 → Chosen size (choose_desc size block_desc_init)
unfolding block_desc_init desc_loop
choose_small size h = choose_step size _ _ (inl refl) (λ l.
    choose_step size _ _ (inr (omega arith)) (λ l. choose_step size _ _ (inr (omega arith)) (λ l.
      choose_step size _ _ (inr (omega arith)) (λ l. choose_step size _ _ (inr (omega arith)) (λ l.
        choose_step size _ _ (inr (omega arith))
          (λ l. choose_step size _ _ (inr (omega arith)) (λ l. absurd (omega arith))))))))

choose_large : (size : ℕ) → 1024 < size → choose_desc size block_desc_init ≡ none
unfolding block_desc_init desc_loop choose_desc
choose_large size h =
    let over = λ (n : ℕ) (l : n < size). le→gt n l in
    rw
      (
        over 16 (omega arith),
        over 32 (omega arith),
        over 64 (omega arith),
        over 128 (omega arith),
        over 256 (omega arith),
        over 512 (omega arith),
        over 1024 h,
      )
      refl
  where
    le→gt : (n : ℕ) → n < size → leb size n ≡ false
    le→gt n l = ground arith

-- The descriptor that `sys_malloc` chooses for at most 1024 bytes has blocks that are large enough, and
-- smaller than twice the size unless they are the smallest; for more bytes there is none.
pub choose_desc_lem :
    (size : ℕ)
    → if leb size 1024
      then ((d : MemBlockDesc) × (choose_desc size block_desc_init ≡ some d)
          × (size ≤ d.block_size)
          × ((d.block_size ≡ 16) ⊎ (d.block_size < size + size)))
      else choose_desc size block_desc_init ≡ none
choose_desc_lem size = elim (Bool-cases (leb size 1024)) [
  | inl le ↦ rw le (choose_small size (ground arith))
  | inr gt ↦ rw gt (choose_large size (ground arith))
]

-- In an arena at the start of a page, block `j` lies in that page behind the arena's own record,
-- `block2arena` leads from it back to the arena, and it is `j - i` blocks behind block `i`.
pub block2arena-arena2block :
    (d : MemBlockDesc) (a i j : ℕ)
    → IsDesc d
    → a % 4096 ≡ 0
    → a + 4096 ≤ 0x1_0000_0000
    → i ≤ j
    → j < d.blocks_per_arena
    → (block2arena (arena2block a d j) ≡ a)
      × (a + 12 ≤ arena2block a d j)
      × (arena2block a d j + d.block_size ≤ a + 4096)
      × (arena2block a d j ≡ arena2block a d i + (j - i) * d.block_size)
unfolding block2arena arena2block
block2arena-arena2block d a i j v al top hi hj =
    let b = mul-le-mul_right {m = suc j} {n = d.blocks_per_arena} d.block_size (omega arith) in
    let e : j * d.block_size ≡ i * d.block_size + (j - i) * d.block_size =
      subst (λ k. k * d.block_size ≡ i * d.block_size + (j - i) * d.block_size) (there i j hi)
        (add-mul i (j - i) d.block_size) in
    (
      omega (arith, v.fits, v.sized),
      omega (arith, v.fits, v.sized),
      omega (arith, v.fits, v.sized),
      omega (arith, v.fits, v.sized),
    )
  where
    there : (i j : ℕ) → i ≤ j → i + (j - i) ≡ j
    there i j h = omega arith
