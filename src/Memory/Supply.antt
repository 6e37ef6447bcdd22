-- ===== src/Memory/Supply.antt =====
-- The loop of `malloc_page` in kernel/memory.c: a physical page and a mapping for each virtual page.
use jack_os.Base.{
  ℕ, ◌+◌, ◌*◌, ◌%◌, ◌<◌, ◌≤◌, ◌≡◌, ◌⊎◌, inl, inr, refl, sym, ◌∙◌, subst, Bool, true, false, some,
  arith, eq→==, ne→==, tally, tally-one, tally-all,
}
use jack_os.CString.{Memory, Ptr}
use jack_os.Bitmap.{Bitmap}
use jack_os.Bitmap.Access.{IsBytes}
use jack_os.Bitmap.Alloc.{IsTaken}
use jack_os.Bitmap.Scan.{size}
use jack_os.Memory.{Pool, Entries, palloc, page_table_add, pde_addr, is_present}
use jack_os.Memory.Pages.{IsPool, is_used, palloc_lem}
use jack_os.Memory.Paging.{is_mapped, IsAdded}
use jack_os.Memory.Mapping.{PagesAfter, page_table_add_lem}

-- How many pages of a pool are in use.
abbrev pub used_pages : Memory → Pool → ℕ
used_pages m p = tally (p.pool_bitmap.btmp_byte_len * 8) (λ i. is_used m p i)

pool_pages : (p : Pool) (m : Memory) → size m p.pool_bitmap ≡ p.pool_bitmap.btmp_byte_len * 8
pool_pages p m = refl

-- Taking a page.
taken_more :
    (m m' : Memory) (p : Pool) (i : ℕ)
    → IsTaken m p.pool_bitmap i m'
    → used_pages m' p ≡ used_pages m p + 1
taken_more m m' p i t =
    tally-one (p.pool_bitmap.btmp_byte_len * 8) i (λ j. is_used m p j) (λ j. is_used m' p j)
      t.inside t.clear (rw (t.marks i, eq→== i i refl) refl)
      (λ j l ne. rw (t.marks j, ne→== i j (λ e. ne (sym e))) refl)

-- With a page free, `palloc` takes one.
take_page :
    (m : Memory) (p : Pool)
    → IsBytes m
    → IsPool p
    → used_pages m p < p.pool_bitmap.btmp_byte_len * 8
    → (i : ℕ) × (m' : Memory) × (palloc m p ≡ some (some (p.phy_addr_start + i * 4096), m'))
      × IsTaken m p.pool_bitmap i m'
take_page m p ok pool free = elim (palloc_lem m p ok pool) [
  | inr t ↦ t
  | inl (e, all) ↦
      let n = tally-all (p.pool_bitmap.btmp_byte_len * 8) (λ i. is_used m p i) all in
      absurd (omega arith)
]

free_page :
    (m : Memory) (p : Pool)
    → used_pages m p < p.pool_bitmap.btmp_byte_len * 8
    → IsBytes m
    → IsPool p
    → (i : ℕ) × (i < p.pool_bitmap.btmp_byte_len * 8) × (is_used m p i ≡ false)
free_page m p free ok pool =
    let (i, m', e, t) = take_page m p ok pool free in (i, t.inside, t.clear)

-- What a physical page and its mapping leave, for the kernel's pool `p`.
pub record IsSupplied (p : Pool) (v : ℕ) (i : ℕ) (m m' : Memory) (t t' : Entries) : Type 0 where
  pub bytes : IsBytes m'
  pub inside : i < p.pool_bitmap.btmp_byte_len * 8
  pub free : is_used m p i ≡ false
  pub in_use : (j : ℕ) → (is_used m p j ≡ true) ⊎ (i ≡ j) → is_used m' p j ≡ true
  pub few : used_pages m' p ≤ used_pages m p + 2
  pub added : IsAdded t t' v (p.phy_addr_start + i * 4096)
  pub frame :
      (a : Ptr)
      → (a < p.pool_bitmap.bits) ⊎ (p.pool_bitmap.bits + p.pool_bitmap.btmp_byte_len ≤ a)
      → m' a ≡ m a

outside :
    (m m' : Memory) (b : Bitmap) (i : ℕ)
    → IsTaken m b i m'
    → (a : Ptr) → (a < b.bits) ⊎ (b.bits + b.btmp_byte_len ≤ a)
    → m' a ≡ m a
outside m m' b i t a out = let inside = t.inside in t.frame a (λ e. ground arith)

-- The page table needs another page, or not.
supplied :
    (p : Pool) (v i : ℕ) (m m₁ m' : Memory) (t t' : Entries) (present : Bool)
    → IsTaken m p.pool_bitmap i m₁
    → IsAdded t t' v (p.phy_addr_start + i * 4096)
    → PagesAfter m₁ p present m'
    → IsSupplied p v i m m' t t'
supplied p v i m m₁ m' t t' true taken added same =
    let more = taken_more m m₁ p i taken in
    subst (λ z. IsSupplied p v i m z t t') (sym same)
      (record {
        bytes = taken.bytes;
        inside = taken.inside;
        free = taken.clear;
        in_use = λ j h. ground (arith, taken.marks j);
        few = omega arith;
        added = added;
        frame = outside m m₁ p.pool_bitmap i taken;
      })
supplied p v i m m₁ m' t t' false taken added (k, table) =
    let more = taken_more m m₁ p i taken in
    let table_more = taken_more m₁ m' p k table in
    record {
      bytes = table.bytes;
      inside = taken.inside;
      free = taken.clear;
      in_use = λ j h. ground (arith, taken.marks j, table.marks j);
      few = omega arith;
      added = added;
      frame = λ a out.
          outside m₁ m' p.pool_bitmap k table a out ∙ outside m m₁ p.pool_bitmap i taken a out;
    }

pub supply :
    (m : Memory) (p : Pool) (t : Entries) (v : ℕ)
    → IsBytes m
    → IsPool p
    → p.phy_addr_start % 4096 ≡ 0
    → v < 0xFFC0_0000
    → is_mapped t v ≡ false
    → used_pages m p + 2 ≤ p.pool_bitmap.btmp_byte_len * 8
    → (i : ℕ) × (m₁ m' : Memory) × (t' : Entries) × (palloc m p
        ≡ some (some (p.phy_addr_start + i * 4096), m₁))
      × (page_table_add m₁ p t v (p.phy_addr_start + i * 4096) ≡ some (m', t'))
      × IsSupplied p v i m m' t t'
supply m p t v ok pool aligned low gone enough =
    let (i, m₁, e, taken) = take_page m p ok pool (omega arith) in
    let more = taken_more m m₁ p i taken in
    let (k, k_in, k_free) = free_page m₁ p (omega arith) taken.bytes pool in
    let (m', t', e', added, pages) =
      page_table_add_lem m₁ p t v (p.phy_addr_start + i * 4096) taken.bytes pool low (omega arith)
        (omega (arith, pool.in_memory, taken.inside)) gone k k_in k_free in
    (
      i,
      m₁,
      m',
      t',
      e,
      e',
      supplied p v i m m₁ m' t t' (is_present (t (pde_addr v))) taken added pages,
    )
