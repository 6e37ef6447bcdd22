-- ===== src/Memory/Mapping.antt =====
-- `page_table_add` and `page_table_pte_remove` of kernel/memory.c: mapping a page and unmapping it.
use jack_os.Base.{
  ℕ, ◌+◌, ◌*◌, ◌/◌, ◌%◌, ◌<◌, ◌≤◌, ◌≡◌, refl, sym, ◌∙◌, ◌≢◌, inl, inr, Bool, true, false, some,
  arith, ◌==◌, if◌then◌else◌, Bool-cases, false≢true, and-false, update_ne, update_self, ==→eq,
  ==→ne,
}
use jack_os.CString.{Memory}
use jack_os.Bitmap.Access.{IsBytes}
use jack_os.Bitmap.Alloc.{IsTaken}
use jack_os.Memory.{
  Pool, Entries, palloc, pte_addr, pde_addr, is_present, with_flags, addr_v2p, page_table_add,
  page_table_pte_remove,
}
use jack_os.Memory.Pages.{IsPool, is_used, palloc_lem}
use jack_os.Memory.Paging.{
  is_mapped, IsAdded, in_table, added, with_table, with_table-IsReady, new_empty, pte_addr-eq,
  pde_addr-eq, self_map,
}

-- A table that is there is used; else one page of the kernel's pool becomes the table.
abbrev pub PagesAfter : Memory → Pool → Bool → Memory → Type 0
PagesAfter m p true m' = m' ≡ m
PagesAfter m p false m' = (i : ℕ) × IsTaken m p.pool_bitmap i m'

module _ (m : Memory) (p : Pool) (t : Entries) (v phys : ℕ) (ok : IsBytes m) (pool : IsPool p)
    (low : v < 0xFFC0_0000) (aligned : phys % 4096 ≡ 0) (inside : phys + 4096 ≤ 0x1_0000_0000) where
  add_present :
      is_present (t (pde_addr v)) ≡ true
      → is_mapped t v ≡ false
      → page_table_add m p t v phys ≡ some (m, in_table v phys low aligned inside t)
  unfolding page_table_add
  add_present here free =
      let absent : is_present (t (pte_addr v)) ≡ false = ground arith in rw (here, absent) refl

  add_absent :
      (a : ℕ) (m' : Memory)
      → is_present (t (pde_addr v)) ≡ false
      → palloc m p ≡ some (some a, m')
      → page_table_add m p t v phys
        ≡ some (
          m',
          in_table v phys low aligned inside
              (with_table v phys low aligned inside t (with_flags a)),
        )
  unfolding page_table_add
  add_absent a m' gone e =
      let empty =
        new_empty v phys low aligned inside t (with_flags a) gone (ground arith) v refl low in
      rw (gone, e, empty) refl

  -- Mapping the page of an address below the tables to a physical page, where it is not mapped yet and
  -- the kernel's pool has a free page in case a table is missing, does not panic. After it that page
  -- is mapped, and translated to the physical page, and every other page is mapped exactly if it was,
  -- and to what it was. A page of the pool is taken exactly if the table was missing.
  pub page_table_add_lem :
      is_mapped t v ≡ false
      → (i : ℕ) → i < p.pool_bitmap.btmp_byte_len * 8
      → is_used m p i ≡ false
      → (m' : Memory) × (t' : Entries) × (page_table_add m p t v phys ≡ some (m', t'))
        × IsAdded t t' v phys
        × PagesAfter m p (is_present (t (pde_addr v))) m'
  page_table_add_lem free i lt unused = elim (Bool-cases (is_present (t (pde_addr v)))) [
    | inl here ↦ (
      m,
      in_table v phys low aligned inside t,
      add_present here free,
      added v phys low aligned inside t t
          (record { table = here; others = λ w h ne. refl; entries = λ w h ne on. refl }),
      rw here refl,
    )
    | inr gone ↦ elim (palloc_lem m p ok pool) [
      | inl (e, all) ↦ absurd (false≢true (sym unused ∙ all i lt))
      | inr (k, m', e, taken) ↦
          let entry = with_flags (p.phy_addr_start + k * 4096) in
          (
            m',
            in_table v phys low aligned inside (with_table v phys low aligned inside t entry),
            add_absent (p.phy_addr_start + k * 4096) m' gone e,
            added v phys low aligned inside t (with_table v phys low aligned inside t entry)
                (with_table-IsReady v phys low aligned inside t entry gone (ground arith)),
            rw gone (k, taken),
          )
    ]
  ]

-- Unmapping the page of an address below the tables: that page is not mapped after it, and every other
-- page is mapped exactly if it was, and to what it was.
pub page_table_pte_remove_lem :
    (t : Entries) (v w : ℕ)
    → v < 0xFFC0_0000
    → w < 0xFFC0_0000
    → let t' = page_table_pte_remove t v in
      if v / 4096 == w / 4096
      then is_mapped t' w ≡ false
      else (is_mapped t' w ≡ is_mapped t w) × (addr_v2p t' w ≡ addr_v2p t w)
unfolding page_table_pte_remove addr_v2p
page_table_pte_remove_lem t v w hv hw =
    let dir : page_table_pte_remove t v (pde_addr w) ≡ t (pde_addr w) =
      let a = pte_addr-eq v (omega arith) in
      let b = pde_addr-eq w (omega arith) in
      update_ne t (pte_addr v) (pde_addr w) (t (pte_addr v) / 2 * 2) (λ e. omega arith) in
    let (one, two) = (self_map v w (omega arith) (omega arith)).1 in
    elim (Bool-cases (v / 4096 == w / 4096)) [
      | inl e ↦
          let q = two (==→eq (v / 4096) (w / 4096) e) in
          let same : page_table_pte_remove t v (pte_addr w) ≡ t (pte_addr v) / 2 * 2 =
            rw (← q) (update_self t (pte_addr v) (t (pte_addr v) / 2 * 2)) in
          let gone : is_present (t (pte_addr v) / 2 * 2) ≡ false = ground arith in
          rw e (rw (same, gone, and-false) refl)
      | inr n ↦
          let q : pte_addr v ≢ pte_addr w = λ x. ==→ne (v / 4096) (w / 4096) n (one x) in
          let other = update_ne t (pte_addr v) (pte_addr w) (t (pte_addr v) / 2 * 2) q in
          rw n (rw (dir, other) refl, rw other refl)
    ]
