-- ===== src/Fs/Inodes/Opened.antt =====
-- The list of open inodes under `inode_open` and `inode_close` of fs/inode.c.
use jack_os.Base.{
  remove, ℕ, ◌+◌, ◌-◌, ◌%◌, ◌<◌, ◌≡◌, ◌≢◌, ◌⊎◌, inl, inr, refl, sym, ◌∙◌, true, false, not, ◌&&◌,
  List, [], ◌∷◌, none, some, arith, ◌==◌, if◌then◌else◌, Bool-cases, ne→==, ==→eq, ==→ne, has, ◌∉◌,
  Distinct, not-mem→has, update_self, update_ne,
}
use jack_os.CString.{Ptr, null}
use jack_os.Fs.{Inode, Fs, set_inode, set_open_inodes}
use jack_os.Fs.Inodes.{find_open, inode_open, inode_drop, inode_close}

-- The open inodes: at different addresses, none NULL, each with a user, and with less than 2^32.
pub record IsOpen (fs : Fs) : Type 0 where
  pub distinct : Distinct fs.partition.open_inodes
  pub placed : (p : Ptr) → has p fs.partition.open_inodes ≡ true → p ≢ null
  pub counted : (p : Ptr) → has p fs.partition.open_inodes ≡ true → 0 < (fs.inodes p).i_open_cnt
  pub bounded :
      (p : Ptr) → has p fs.partition.open_inodes ≡ true → (fs.inodes p).i_open_cnt < 0x1_0000_0000

remove-absent : (p q : ℕ) (l : List ℕ) → q ∉ l → q ∉ remove p l
remove-absent p q [] h = tt
remove-absent p q (x ∷ xs) h = elim (Bool-cases (p == x)) [
  | inl e ↦ rw e h.1
  | inr e ↦ rw e (h.0, remove-absent p q xs h.1)
]

Distinct-remove : (p : ℕ) (l : List ℕ) → Distinct l → Distinct (remove p l)
Distinct-remove p [] d = tt
Distinct-remove p (x ∷ xs) d = elim (Bool-cases (p == x)) [
  | inl e ↦ rw e d.1
  | inr e ↦ rw e (remove-absent p x xs d.0, Distinct-remove p xs d.1)
]

has-remove : (p q : ℕ) (l : List ℕ) → Distinct l → has q (remove p l) ≡ (has q l && not (p == q))
has-remove p q [] d = refl
has-remove p q (x ∷ xs) d = elim (Bool-cases (p == x)) [
  | inl e ↦
      let r = ==→eq p x e in
      rw e (elim (Bool-cases (q == x)) [
        | inl f ↦ let r' = ==→eq q x f in rw (r, r', not-mem→has x xs d.0) (ground arith)
        | inr f ↦ rw (r, f) (ground arith)
      ])
  | inr e ↦ rw (e, has-remove p q xs d.1) (ground (arith, e))
]

-- `inode_close` of an open inode returns. With another user left it counts one less; with none it
-- takes the inode off the list, and off the blocks of the heap in use. The page directory is as it was, no
-- other inode changes, and the open inodes are as they should be.
pub inode_close-IsOpen :
    (fs : Fs) (p : Ptr)
    → IsOpen fs
    → has p fs.partition.open_inodes ≡ true
    → (fs' : Fs) × (inode_close p fs ≡ some fs')
      × IsOpen fs'
      × ((fs'.inodes p).i_open_cnt + 1 ≡ (fs.inodes p).i_open_cnt)
      × ((q : Ptr)
          → has q fs'.partition.open_inodes
            ≡ (has q fs.partition.open_inodes && not ((p == q) && ((fs.inodes p).i_open_cnt == 1))))
      × (fs'.live ≡ (if (fs.inodes p).i_open_cnt == 1 then remove p fs.live else fs.live))
      × (fs'.pgdir ≡ fs.pgdir)
      × ((q : Ptr) → q ≢ p → fs'.inodes q ≡ fs.inodes q)
unfolding inode_close inode_drop
inode_close-IsOpen fs p v h =
    let i = fs.inodes p in
    let n = i.i_open_cnt in
    let l = fs.partition.open_inodes in
    let less : (n + 0xffff_ffff) % 0x1_0000_0000 ≡ n - 1 =
      omega (arith, v.counted p h, v.bounded p h) in
    let fs₁ = set_inode p (record i { i_open_cnt = n - 1 }) fs in
    let now : fs₁.inodes p ≡ record i { i_open_cnt = n - 1 } =
      update_self fs.inodes p (record i { i_open_cnt = n - 1 }) in
    let count : (fs₁.inodes p).i_open_cnt + 1 ≡ n = rw now (omega (arith, v.counted p h)) in
    let others : (q : Ptr) → q ≢ p → fs₁.inodes q ≡ fs.inodes q =
      λ q ne. update_ne fs.inodes p q (record i { i_open_cnt = n - 1 }) (λ e. ne (sym e)) in
    elim (Bool-cases (n == 1)) [
      | inl last ↦
          let zero_left : (n - 1 == 0) ≡ true = ground (arith, last) in
          let fs₂ = set_open_inodes (remove p l) fs₁ in
          let left : (q : Ptr) → has q (remove p l) ≡ (has q l && not (p == q)) =
            λ q. has-remove p q l v.distinct in
          (
            record fs₂ { live = remove p fs.live },
            rw (less, zero_left, ne→== p null (v.placed p h)) refl,
            record {
              distinct = Distinct-remove p l v.distinct;
              placed = λ q at. v.placed q (ground (arith, left q));
              counted = λ q at.
                  rw (others q (ground (arith, left q))) (v.counted q (ground (arith, left q)));
              bounded = λ q at.
                  rw (others q (ground (arith, left q))) (v.bounded q (ground (arith, left q)));
            },
            count,
            λ q. left q ∙ rw last (ground arith),
            rw last refl,
            refl,
            others,
          )
      | inr more ↦
          let some_left : (n - 1 == 0) ≡ false = ground (arith, more, v.counted p h) in
          (
            fs₁,
            rw (less, some_left) refl,
            record {
              distinct = v.distinct;
              placed = v.placed;
              counted = λ q at. elim (Bool-cases (q == p)) [
                | inl e ↦ rw (==→eq q p e, now) (ground (arith, more, v.counted p h))
                | inr e ↦ rw (others q (==→ne q p e)) (v.counted q at)
              ];
              bounded = λ q at. elim (Bool-cases (q == p)) [
                | inl e ↦ rw (==→eq q p e, now) (omega (arith, v.bounded p h))
                | inr e ↦ rw (others q (==→ne q p e)) (v.bounded q at)
              ];
            },
            count,
            λ q. rw more (ground arith),
            rw more refl,
            refl,
            others,
          )
    ]

-- The search finds an open inode with the number, the first on the list.
find_open_lem :
    (inodes : Ptr → Inode) (n : ℕ) (l : List Ptr)
    → ((find_open inodes n l ≡ none) × ((p : Ptr) → has p l ≡ true → (inodes p).i_no ≢ n))
      ⊎ ((p : Ptr) × (find_open inodes n l ≡ some p) × (has p l ≡ true) × ((inodes p).i_no ≡ n))
unfolding find_open
find_open_lem inodes n [] = inl (refl, λ p h. ground arith)
find_open_lem inodes n (x ∷ xs) = elim (Bool-cases ((inodes x).i_no == n)) [
  | inl e ↦ inr (x, rw e refl, ground arith, ==→eq (inodes x).i_no n e)
  | inr e ↦ elim (find_open_lem inodes n xs) [
    | inl (none_left, out) ↦ inl (
      rw (e, none_left) refl,
      λ p h. elim (Bool-cases (p == x)) [
        | inl f ↦ rw (==→eq p x f) (==→ne (inodes x).i_no n e)
        | inr f ↦ out p (ground arith)
      ],
    )
    | inr (p, found, at, same) ↦ inr (p, rw (e, found) refl, ground arith, same)
  ]
]

-- `inode_open` of a number that an open inode has returns the address of such an inode, with one user
-- more; the list and the other inodes are as they were, and the open inodes as they should be, if none
-- had 2^32 - 1 users.
pub inode_open-IsOpen :
    (fs : Fs) (n : ℕ) (q : Ptr)
    → IsOpen fs
    → has q fs.partition.open_inodes ≡ true
    → (fs.inodes q).i_no ≡ n
    → ((r : Ptr) → (fs.inodes r).i_open_cnt < 0xffff_ffff)
    → (p : Ptr) × (fs' : Fs) × (inode_open n fs ≡ some (p, fs'))
      × IsOpen fs'
      × (has p fs.partition.open_inodes ≡ true)
      × ((fs.inodes p).i_no ≡ n)
      × ((fs'.inodes p).i_open_cnt ≡ (fs.inodes p).i_open_cnt + 1)
      × (fs'.partition.open_inodes ≡ fs.partition.open_inodes)
      × ((r : Ptr) → r ≢ p → fs'.inodes r ≡ fs.inodes r)
unfolding inode_open
inode_open-IsOpen fs n q v at same room =
    elim (find_open_lem fs.inodes n fs.partition.open_inodes) [
      | inl (none_left, out) ↦ absurd (out q at same)
      | inr (p, found, at', same') ↦
          let i = fs.inodes p in
          let c = i.i_open_cnt in
          let wrap : (c + 1) % 0x1_0000_0000 ≡ c + 1 = omega (arith, room p) in
          let fs' = set_inode p (record i { i_open_cnt = c + 1 }) fs in
          let now : fs'.inodes p ≡ record i { i_open_cnt = c + 1 } =
            update_self fs.inodes p (record i { i_open_cnt = c + 1 }) in
          let others : (r : Ptr) → r ≢ p → fs'.inodes r ≡ fs.inodes r =
            λ r ne. update_ne fs.inodes p r (record i { i_open_cnt = c + 1 }) (λ e. ne (sym e)) in
          (
            p,
            fs',
            rw (inode_open, found, wrap) refl,
            record {
              distinct = v.distinct;
              placed = v.placed;
              counted = λ r on. elim (Bool-cases (r == p)) [
                | inl e ↦ rw (==→eq r p e, now) (omega arith)
                | inr e ↦ rw (others r (==→ne r p e)) (v.counted r on)
              ];
              bounded = λ r on. elim (Bool-cases (r == p)) [
                | inl e ↦ rw (==→eq r p e, now) (omega (arith, room p))
                | inr e ↦ rw (others r (==→ne r p e)) (v.bounded r on)
              ];
            },
            at',
            same',
            rw now refl,
            refl,
            others,
          )
    ]
