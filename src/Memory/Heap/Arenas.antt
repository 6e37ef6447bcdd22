-- ===== src/Memory/Heap/Arenas.antt =====
-- A page that becomes an arena, and an arena whose page is given back: the account with all of its
-- blocks on the list, and the one without the arena.
use jack_os.Base.{
  ℕ, zero, suc, ◌<◌, ◌≡◌, ◌≢◌, ◌↔◌, ◌⊎◌, inl, inr, refl, sym, ◌∙◌, ap, subst, Bool, true, false,
  false≢true, some, List, arith, ◌==◌, ==→eq, ==→ne, Bool-cases, has, Distinct, tally-same,
  tally-all,
}
use jack_os.CString.{Ptr}
use jack_os.Memory.{MemBlockDesc, arena2block, block2arena}
use jack_os.Memory.Arena.{IsDesc}
use jack_os.Memory.Virtual.{PoolFlags}
use jack_os.Memory.Heap.Slots.{IsPage, slot_page}
use jack_os.Memory.Heap.Account.{Descs, on_list, IsBlock, IsPlaced, IsAccount, IsLive, one_desc}

-- Whether an address is that of a block of the arena.
pub find_slot :
    (a : Ptr) (d : MemBlockDesc) (n : ℕ) (x : Ptr)
    → ((i : ℕ) × (i < n) × (x ≡ arena2block a d i)) ⊎ ((i : ℕ) → i < n → x ≢ arena2block a d i)
find_slot a d zero x = inr (λ i l. absurd (omega arith))
find_slot a d (suc n) x = elim (find_slot a d n x) [
  | inl (i, l, e) ↦ inl (i, omega arith, e)
  | inr out ↦ elim (Bool-cases (x == arena2block a d n)) [
    | inl q ↦ inl (n, omega arith, ==→eq x (arena2block a d n) q)
    | inr q ↦ inr (λ i l. elim (Bool-cases (i == n)) [
      | inl e ↦ rw (==→eq i n e) (==→ne x (arena2block a d n) q)
      | inr e ↦ out i (let ne = ==→ne i n e in omega arith)
    ])
  ]
]

-- The lists with all blocks of an arena, and without them.
pub record IsWhole (a0 : Ptr) (d0 : MemBlockDesc) (without whole : ℕ → List Ptr) : Type 0 where
  pub other_sizes : (s : ℕ) → s ≢ d0.block_size → whole s ≡ without s
  pub others :
      (x : Ptr)
      → ((i : ℕ) → i < d0.blocks_per_arena → x ≢ arena2block a0 d0 i)
      → has x (whole d0.block_size) ≡ has x (without d0.block_size)
  pub all_on :
      (i : ℕ) → i < d0.blocks_per_arena → has (arena2block a0 d0 i) (whole d0.block_size) ≡ true
  pub all_off :
      (i : ℕ) → i < d0.blocks_per_arena → has (arena2block a0 d0 i) (without d0.block_size) ≡ false

-- The tables of pages with the arena, and without it.
pub record IsOpened (pf : PoolFlags) (a0 : Ptr) (d0 : MemBlockDesc) (desc desc' : Descs)
    (owned owned' : Ptr → Bool) (cnt cnt' : Ptr → ℕ) : Type 0 where
  pub same_desc : (x : Ptr) → x ≢ a0 → desc' x ≡ desc x
  pub same_owned : (x : Ptr) → x ≢ a0 → owned' x ≡ owned x
  pub same_cnt : (x : Ptr) → x ≢ a0 → cnt' x ≡ cnt x
  pub new_desc : desc' a0 ≡ some (pf, d0)
  pub new_owned : owned' a0 ≡ true
  pub not_owned : owned a0 ≡ false
  pub new_cnt : cnt' a0 ≡ d0.blocks_per_arena

module _ {pf : PoolFlags} {a0 : Ptr} {d0 : MemBlockDesc} {desc desc' : Descs}
    {owned owned' : Ptr → Bool} {cnt cnt' : Ptr → ℕ} {without whole : ℕ → List Ptr}
    (op : IsOpened pf a0 d0 desc desc' owned owned' cnt cnt') (wh : IsWhole a0 d0 without whole)
    (ok0 : IsDesc d0) (page0 : IsPage a0) where
  agree_out :
      (s : ℕ) (x : Ptr)
      → ((i : ℕ) → i < d0.blocks_per_arena → x ≢ arena2block a0 d0 i)
      → has x (whole s) ≡ has x (without s)
  agree_out s x out = elim (Bool-cases (s == d0.block_size)) [
    | inr q ↦ rw (wh.other_sizes s (==→ne s d0.block_size q)) refl
    | inl q ↦ rw (==→eq s d0.block_size q) (wh.others x out)
  ]

  -- A block of another arena is on both lists or on none.
  agree :
      (a : Ptr) (d : MemBlockDesc) (i s : ℕ)
      → IsDesc d
      → IsPage a
      → i < d.blocks_per_arena
      → a ≢ a0
      → has (arena2block a d i) (whole s) ≡ has (arena2block a d i) (without s)
  agree a d i s ok page l ne = agree_out s (arena2block a d i) (λ j m e.
      ne (sym (slot_page d a ok page i l) ∙ ap block2arena e ∙ slot_page d0 a0 ok0 page0 j m))

  count_other :
      (a : Ptr) (d : MemBlockDesc) (s : ℕ)
      → IsDesc d
      → IsPage a
      → a ≢ a0
      → on_list a d (whole s) ≡ on_list a d (without s)
  count_other a d s ok page ne =
      tally-same d.blocks_per_arena (λ i. has (arena2block a d i) (whole s))
        (λ i. has (arena2block a d i) (without s)) (λ i l. agree a d i s ok page l ne)

  not_a0 : (a : Ptr) → owned a ≡ true → a ≢ a0
  not_a0 a o e = false≢true (sym op.not_owned ∙ (rw (← e) o))

  grow :
      {a : Ptr} {d : MemBlockDesc} {i : ℕ}
      → IsBlock pf desc owned a d i
      → IsBlock pf desc' owned' a d i
  grow {a = a} b =
      let ne = not_a0 a b.in_use in
      record {
        in_use = op.same_owned a ne ∙ b.in_use;
        of_desc = op.same_desc a ne ∙ b.of_desc;
        inside = b.inside;
      }

  shrink :
      {a : Ptr} {d : MemBlockDesc} {i : ℕ}
      → a ≢ a0
      → IsBlock pf desc' owned' a d i
      → IsBlock pf desc owned a d i
  shrink {a = a} ne b = record {
    in_use = sym (op.same_owned a ne) ∙ b.in_use;
    of_desc = sym (op.same_desc a ne) ∙ b.of_desc;
    inside = b.inside;
  }

  new-IsBlock : (i : ℕ) → i < d0.blocks_per_arena → IsBlock pf desc' owned' a0 d0 i
  new-IsBlock i l = record { in_use = op.new_owned; of_desc = op.new_desc; inside = l }

  pub open-IsAccount :
      IsAccount pf desc owned cnt without
      → ((s : ℕ) → Distinct (whole s))
      → IsAccount pf desc' owned' cnt' whole
  open-IsAccount acc dist = record {
    arena = λ a o. elim (Bool-cases (a == a0)) [
      | inl q ↦
          let e = ==→eq a a0 q in
          (
            d0,
            record {
              of_desc = rw e op.new_desc;
              desc_ok = ok0;
              page = rw e page0;
              counted = rw e (
                  op.new_cnt
                  ∙ sym (
                      tally-all d0.blocks_per_arena
                        (λ i. has (arena2block a0 d0 i) (whole d0.block_size)) wh.all_on));
            },
          )
      | inr q ↦
          let ne = ==→ne a a0 q in
          let (d, r) = acc.arena a (sym (op.same_owned a ne) ∙ o) in
          (
            d,
            record {
              of_desc = op.same_desc a ne ∙ r.of_desc;
              desc_ok = r.desc_ok;
              page = r.page;
              counted =
                  op.same_cnt a ne
                  ∙ r.counted
                  ∙ sym (count_other a d d.block_size r.desc_ok r.page ne);
            },
          )
    ];
    placed = λ s x on. elim (Bool-cases (s == d0.block_size)) [
      | inr q ↦ old s x (rw (← wh.other_sizes s (==→ne s d0.block_size q)) on)
      | inl q ↦ elim (find_slot a0 d0 d0.blocks_per_arena x) [
        | inl (i, l, e) ↦ (a0, d0, i, new-IsBlock i l, sym (==→eq s d0.block_size q), e)
        | inr out ↦ old s x (sym (agree_out s x out) ∙ on)
      ]
    ];
    distinct = dist;
  }
    where
      old : (s : ℕ) (x : Ptr) → has x (without s) ≡ true → IsPlaced pf desc' owned' s x
      old s x on = let (a, d, i, b, e, f) = acc.placed s x on in (a, d, i, grow b, e, f)

  on_whole : (s : ℕ) (x : Ptr) → has x (without s) ≡ true → has x (whole s) ≡ true
  on_whole s x on = elim (Bool-cases (s == d0.block_size)) [
    | inr q ↦ rw (wh.other_sizes s (==→ne s d0.block_size q)) on
    | inl q ↦ elim (find_slot a0 d0 d0.blocks_per_arena x) [
      | inl (i, l, e) ↦ rw (==→eq s d0.block_size q, e) (wh.all_on i l)
      | inr out ↦ agree_out s x out ∙ on
    ]
  ]

  -- A block at the page is one of its arena's.
  at_page :
      {a : Ptr} {d : MemBlockDesc} {i : ℕ}
      → a ≡ a0
      → IsBlock pf desc' owned' a d i
      → (d ≡ d0) × (i < d0.blocks_per_arena) × (arena2block a d i ≡ arena2block a0 d0 i)
  at_page {a = a} {d = d} {i = i} q b =
      let e = one_desc desc' a0 d d0 (rw (← q) b.of_desc) op.new_desc in
      (e, subst (λ z. i < z.blocks_per_arena) e b.inside, rw q (ap (λ z. arena2block a0 z i) e))

  pub close-IsAccount :
      IsAccount pf desc' owned' cnt' whole
      → ((s : ℕ) → Distinct (without s))
      → IsAccount pf desc owned cnt without
  close-IsAccount acc dist = record {
    arena = λ a o.
        let ne = not_a0 a o in
        let (d, r) = acc.arena a (op.same_owned a ne ∙ o) in
        (
          d,
          record {
            of_desc = sym (op.same_desc a ne) ∙ r.of_desc;
            desc_ok = r.desc_ok;
            page = r.page;
            counted =
                sym (op.same_cnt a ne)
                ∙ r.counted
                ∙ count_other a d d.block_size r.desc_ok r.page ne;
          },
        );
    placed = λ s x on.
        let (a, d, i, b, f, e) = acc.placed s x (on_whole s x on) in
        elim (Bool-cases (a == a0)) [
          | inr q ↦ (a, d, i, shrink (==→ne a a0 q) b, f, e)
          | inl q ↦
              let (z, l, w) = at_page (==→eq a a0 q) b in
              absurd (
                false≢true (
                  sym (
                    subst (λ y. has y (without s) ≡ false) (sym (e ∙ w))
                      (rw (sym f ∙ ap (λ y. y.block_size) z) (wh.all_off i l)))
                  ∙ on))
        ];
    distinct = dist;
  }

  -- None of the blocks of the arena is handed out, and of the others those that were.
  pub same-IsLive :
      IsAccount pf desc owned cnt without
      → IsAccount pf desc' owned' cnt' whole
      → (x : Ptr) → IsLive pf desc' owned' whole x ↔ IsLive pf desc owned without x
  same-IsLive acc acc' x = (
    λ (a, d, i, b, e, f). elim (Bool-cases (a == a0)) [
      | inl q ↦
          let (z, l, w) = at_page (==→eq a a0 q) b in
          absurd (false≢true (sym f ∙ rw (ap (λ y. y.block_size) z, e ∙ w) (wh.all_on i l)))
      | inr q ↦
          let ne = ==→ne a a0 q in
          let (d', r) = acc'.arena a b.in_use in
          let ok = subst IsDesc (one_desc desc' a d' d r.of_desc b.of_desc) r.desc_ok in
          (a, d, i, shrink ne b, e, rw e (sym (agree a d i d.block_size ok r.page b.inside ne)) ∙ f)
    ],
    λ (a, d, i, b, e, f).
        let ne = not_a0 a b.in_use in
        let (d', r) = acc.arena a b.in_use in
        let ok = subst IsDesc (one_desc desc a d' d r.of_desc b.of_desc) r.desc_ok in
        (a, d, i, grow b, e, rw e (agree a d i d.block_size ok r.page b.inside ne) ∙ f),
  )
