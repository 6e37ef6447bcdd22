-- ===== src/Memory/Paging.antt =====
-- The page tables: what `page_table_add` and `page_table_pte_remove` do to the translation of addresses.
use jack_os.Base.{
  ℕ, ◌+◌, ◌*◌, ◌/◌, ◌%◌, ◌<◌, ◌≤◌, ◌≡◌, refl, ◌≢◌, inl, inr, Bool, true, false, ◌&&◌, ◌||◌, arith,
  sym, ◌∙◌, update_ne, update_self, ==→eq, ==→ne, false≢true, ◌==◌, Bool-cases, update, ◌↔◌,
}
use jack_os.Memory.{
  Entries, pte_idx, pde_idx, pte_addr, pde_addr, is_present, with_flags, addr_v2p, clear_page,
}

pub pte_addr-eq : (v : ℕ) → v < 0x1_0000_0000 → pte_addr v ≡ 0xFFC0_0000 + v / 4096 * 4
unfolding pte_addr pte_idx
pte_addr-eq v h = omega arith

pub pde_addr-eq : (v : ℕ) → v < 0x1_0000_0000 → pde_addr v ≡ 0xFFFF_F000 + v / 0x40_0000 * 4
unfolding pde_addr pde_idx
pde_addr-eq v h = omega arith

-- The directory shows itself: the directory's entry of an address is the page table's entry of the
-- address of the page table's entry. Two addresses have one page table entry if they are on one page.
pub self_map :
    (v w : ℕ)
    → v < 0x1_0000_0000
    → w < 0x1_0000_0000
    → (pde_addr v ≡ pte_addr (pte_addr v)) × ((pte_addr v ≡ pte_addr w) ↔ (v / 4096 ≡ w / 4096))
self_map v w hv hw =
    let a = pte_addr-eq v hv in
    let b = pte_addr-eq w hw in
    let c = pte_addr-eq (pte_addr v) (omega arith) in
    let d = pde_addr-eq v hv in (omega arith, (λ e. omega arith, λ e. omega arith))

-- The page of `w` is mapped.
abbrev pub is_mapped : Entries → ℕ → Bool
is_mapped t w = is_present (t (pde_addr w)) && is_present (t (pte_addr w))

-- What has become of the translation after a page has been mapped.
pub record IsAdded (t t' : Entries) (v phys : ℕ) : Type 0 where
  pub mapped :
      (w : ℕ) → w < 0xFFC0_0000 → is_mapped t' w ≡ ((v / 4096 == w / 4096) || is_mapped t w)
  pub translated : (w : ℕ) → w < 0xFFC0_0000 → w / 4096 ≡ v / 4096 → addr_v2p t' w ≡ phys + w % 4096
  pub kept :
      (w : ℕ)
      → w < 0xFFC0_0000
      → w / 4096 ≢ v / 4096
      → is_mapped t w ≡ true
      → addr_v2p t' w ≡ addr_v2p t w

-- `t1` has a table for the page of `v`, and maps the other pages as `t` does.
pub record IsReady (t t1 : Entries) (v : ℕ) : Type 0 where
  pub table : is_present (t1 (pde_addr v)) ≡ true
  pub others : (w : ℕ) → w < 0xFFC0_0000 → w / 4096 ≢ v / 4096 → is_mapped t1 w ≡ is_mapped t w
  pub entries :
      (w : ℕ)
      → w < 0xFFC0_0000
      → w / 4096 ≢ v / 4096
      → is_mapped t w ≡ true
      → t1 (pte_addr w) ≡ t (pte_addr w)

module _ (v phys : ℕ) (low : v < 0xFFC0_0000) (aligned : phys % 4096 ≡ 0)
    (inside : phys + 4096 ≤ 0x1_0000_0000) where
  abbrev pub in_table : Entries → Entries
  in_table t = update t (pte_addr v) (with_flags phys)

  module _ (t : Entries) (w : ℕ) (h : w < 0xFFC0_0000) where
    dir_kept : in_table t (pde_addr w) ≡ t (pde_addr w)
    dir_kept =
        let a = pte_addr-eq v (omega arith) in
        let b = pde_addr-eq w (omega arith) in
        update_ne t (pte_addr v) (pde_addr w) (with_flags phys) (λ e. omega arith)

    entry_same : w / 4096 ≡ v / 4096 → in_table t (pte_addr w) ≡ with_flags phys
    entry_same e =
        let same = ((self_map w v (omega arith) (omega arith)).1.1) e in
        rw same (update_self t (pte_addr v) (with_flags phys))

    entry_other : w / 4096 ≢ v / 4096 → in_table t (pte_addr w) ≡ t (pte_addr w)
    entry_other ne =
        update_ne t (pte_addr v) (pte_addr w) (with_flags phys)
          (λ e. ne (((self_map w v (omega arith) (omega arith)).1.0) (sym e)))

    pde_same : w / 4096 ≡ v / 4096 → pde_addr w ≡ pde_addr v
    pde_same e =
        let a = pde_addr-eq v (omega arith) in let b = pde_addr-eq w (omega arith) in omega arith

  flags_present : is_present (with_flags phys) ≡ true
  flags_present = ground arith

  pub added : (t t1 : Entries) → IsReady t t1 v → IsAdded t (in_table t1) v phys
  unfolding addr_v2p
  added t t1 r = record {
    mapped = λ w h. elim (Bool-cases (v / 4096 == w / 4096)) [
      | inl e ↦
          let q : w / 4096 ≡ v / 4096 = sym (==→eq (v / 4096) (w / 4096) e) in
          rw (e, dir_kept t1 w h, entry_same t1 w h q, pde_same t1 w h q, r.table, flags_present)
            refl
      | inr n ↦
          let q : w / 4096 ≢ v / 4096 = λ x. ==→ne (v / 4096) (w / 4096) n (sym x) in
          rw (n, dir_kept t1 w h, entry_other t1 w h q) (r.others w h q)
    ];
    translated = λ w h e. rw (entry_same t1 w h e) (omega arith);
    kept = λ w h ne on. rw (entry_other t1 w h ne, r.entries w h ne on) refl;
  }

  -- A new page table: its entries are clear, those of the other tables are what they were.
  abbrev pub with_table : Entries → ℕ → Entries
  with_table t entry = clear_page (update t (pde_addr v) entry) (pte_addr v)

  module _ (t : Entries) (entry : ℕ) (absent : is_present (t (pde_addr v)) ≡ false)
      (there : is_present entry ≡ true) where
    new_dir : with_table t entry (pde_addr v) ≡ entry
    new_dir =
        let a = pte_addr-eq v (omega arith) in let b = pde_addr-eq v (omega arith) in ground arith

    pub new_empty :
        (w : ℕ)
        → w / 0x40_0000 ≡ v / 0x40_0000
        → w < 0xFFC0_0000
        → with_table t entry (pte_addr w) ≡ 0
    new_empty w e h =
        let a = pte_addr-eq v (omega arith) in let b = pte_addr-eq w (omega arith) in ground arith

    module _ (w : ℕ) (h : w < 0xFFC0_0000) (ne : w / 0x40_0000 ≢ v / 0x40_0000) where
      new_other_dir : with_table t entry (pde_addr w) ≡ t (pde_addr w)
      new_other_dir =
          let a = pte_addr-eq v (omega arith) in
          let b = pde_addr-eq w (omega arith) in let c = pde_addr-eq v (omega arith) in ground arith

      new_other : with_table t entry (pte_addr w) ≡ t (pte_addr w)
      new_other =
          let a = pte_addr-eq v (omega arith) in
          let b = pte_addr-eq w (omega arith) in let c = pde_addr-eq v (omega arith) in ground arith

    dir_of : (w : ℕ) → w < 0xFFC0_0000 → w / 0x40_0000 ≡ v / 0x40_0000 → pde_addr w ≡ pde_addr v
    dir_of w h e =
        let a = pde_addr-eq v (omega arith) in let b = pde_addr-eq w (omega arith) in omega arith

    pub with_table-IsReady : IsReady t (with_table t entry) v
    with_table-IsReady = record {
      table = rw new_dir there;
      others = λ w h ne. elim (Bool-cases (w / 0x40_0000 == v / 0x40_0000)) [
        | inl e ↦
            let q = ==→eq (w / 0x40_0000) (v / 0x40_0000) e in
            rw (dir_of w h q, new_dir, there, new_empty w q h, absent) refl
        | inr n ↦
            let q = ==→ne (w / 0x40_0000) (v / 0x40_0000) n in
            rw (new_other_dir w h q, new_other w h q) refl
      ];
      entries = λ w h ne on. elim (Bool-cases (w / 0x40_0000 == v / 0x40_0000)) [
        | inl e ↦
            let q = dir_of w h (==→eq (w / 0x40_0000) (v / 0x40_0000) e) in
            absurd (false≢true (sym (rw (q, absent) refl) ∙ on))
        | inr n ↦ new_other w h (==→ne (w / 0x40_0000) (v / 0x40_0000) n)
      ];
    }
