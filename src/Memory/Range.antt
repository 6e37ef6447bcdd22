-- ===== src/Memory/Range.antt =====
-- `malloc_page` of kernel/memory.c for the kernel: a range of pages, each with a physical page of its own.
use jack_os.Base.{
  ℕ, zero, suc, ◌+◌, ◌*◌, ◌/◌, ◌%◌, ◌<◌, ◌≤◌, ◌≡◌, ◌≢◌, ◌⊎◌, inl, inr, refl, sym, ◌∙◌, subst, true,
  false, false≢true, Option, some, arith, ◌==◌, eq→==, ne→==, Bool-cases,
}
use jack_os.CString.{Memory, Ptr}
use jack_os.Bitmap.{u32}
use jack_os.Bitmap.Access.{IsBytes}
use jack_os.Memory.{Pool, Entries, addr_v2p, pg_size, palloc, page_table_add}
use jack_os.Memory.Pages.{IsPool, is_used}
use jack_os.Memory.Paging.{is_mapped, IsAdded}
use jack_os.Memory.Supply.{used_pages, IsSupplied, supply}
use jack_os.Memory.Virtual.{pf_kernel, Machine, page_loop}

-- The page at `w` is mapped to page `i` of the pool, which was free.
pub record IsGiven (p : Pool) (m m' : Memory) (t' : Entries) (w i : ℕ) : Type 0 where
  pub mapped : is_mapped t' w ≡ true
  pub placed : addr_v2p t' w ≡ p.phy_addr_start + i * 4096
  pub inside : i < p.pool_bitmap.btmp_byte_len * 8
  pub free : is_used m p i ≡ false
  pub taken : is_used m' p i ≡ true

-- `n` pages from `v` on are mapped, each to a page of its own of the pool, and nothing else has changed.
pub record IsRange (p : Pool) (n v : ℕ) (m m' : Memory) (t t' : Entries) (phys : ℕ → ℕ)
    : Type 0 where
  pub bytes : IsBytes m'
  pub pages : (j : ℕ) → j < n → IsGiven p m m' t' (v + j * 4096) (phys j)
  pub in_use : (i : ℕ) → is_used m p i ≡ true → is_used m' p i ≡ true
  pub distinct : (j k : ℕ) → j < k → k < n → phys j ≢ phys k
  pub kept :
      (w : ℕ)
      → w < 0xFFC0_0000
      → ((j : ℕ) → j < n → v / 4096 + j ≢ w / 4096)
      → (is_mapped t' w ≡ is_mapped t w) × (is_mapped t w ≡ true → addr_v2p t' w ≡ addr_v2p t w)
  pub frame :
      (a : Ptr)
      → (a < p.pool_bitmap.bits) ⊎ (p.pool_bitmap.bits + p.pool_bitmap.btmp_byte_len ≤ a)
      → m' a ≡ m a

abbrev prepend : ℕ → (ℕ → ℕ) → ℕ → ℕ
prepend i f zero = i
prepend i f (suc j) = f j

still_gone :
    (n v phys : ℕ) (t t₁ : Entries)
    → v % 4096 ≡ 0
    → v + suc n * 4096 ≤ 0xFFC0_0000
    → IsAdded t t₁ v phys
    → ((j : ℕ) → j < suc n → is_mapped t (v + j * 4096) ≡ false)
    → (j : ℕ) → j < n
    → is_mapped t₁ ((v + 4096) + j * 4096) ≡ false
still_gone n v phys t t₁ aligned top added gone j l =
    let w = (v + 4096) + j * 4096 in
    let ne : (v / 4096 == w / 4096) ≡ false = ne→== (v / 4096) (w / 4096) (λ e. omega arith) in
    let before : is_mapped t w ≡ false =
      subst (λ z. is_mapped t z ≡ false) (omega arith) (gone (suc j) (omega arith)) in
    added.mapped w (omega arith) ∙ rw ne before

-- One page in front of a range.
module _ (p : Pool) (n v i : ℕ) (m m₁ m' : Memory) (t t₁ t' : Entries) (phys : ℕ → ℕ)
    (aligned : v % 4096 ≡ 0) (top : v + suc n * 4096 ≤ 0xFFC0_0000)
    (one : IsSupplied p v i m m₁ t t₁) (rest : IsRange p n (v + 4096) m₁ m' t₁ t' phys) where
  next_place : (j : ℕ) → (v + 4096) + j * 4096 ≡ v + suc j * 4096
  next_place j = omega arith

  first_place : v + 0 * 4096 ≡ v
  first_place = omega arith

  not_again : (j : ℕ) → j < n → (v + 4096) / 4096 + j ≢ v / 4096
  not_again j l e = omega arith

  here : IsGiven p m m' t' v i
  here =
      let (same, same_addr) = rest.kept v (omega arith) not_again in
      let on : is_mapped t₁ v ≡ true =
        one.added.mapped v (omega arith) ∙ rw (eq→== (v / 4096) (v / 4096) refl) refl in
      record {
        mapped = same ∙ on;
        placed = same_addr on ∙ one.added.translated v (omega arith) refl ∙ omega arith;
        inside = one.inside;
        free = one.free;
        taken = rest.in_use i (one.in_use i (inr refl));
      }

  -- A page that is free after the first was free before.
  was_free : (k : ℕ) → is_used m₁ p k ≡ false → is_used m p k ≡ false
  was_free k f = elim (Bool-cases (is_used m p k)) [
    | inr e ↦ e
    | inl e ↦ absurd (false≢true (sym f ∙ one.in_use k (inl e)))
  ]

  all_pages : (j : ℕ) → j < suc n → IsGiven p m m' t' (v + j * 4096) (prepend i phys j)
  all_pages zero l = subst (λ z. IsGiven p m m' t' z i) (sym first_place) here
  all_pages (suc j) l =
      let g = rest.pages j (omega arith) in
      subst (λ z. IsGiven p m m' t' z (phys j)) (next_place j)
        (record {
          mapped = g.mapped;
          placed = g.placed;
          inside = g.inside;
          free = was_free (phys j) g.free;
          taken = g.taken;
        })

  all_distinct : (j k : ℕ) → j < k → k < suc n → prepend i phys j ≢ prepend i phys k
  all_distinct zero zero l r = absurd (omega arith)
  all_distinct zero (suc k) l r = λ e. false≢true (
      sym (rest.pages k (omega arith)).free
      ∙ subst (λ z. is_used m₁ p z ≡ true) e (one.in_use i (inr refl)))
  all_distinct (suc j) zero l r = absurd (omega arith)
  all_distinct (suc j) (suc k) l r = rest.distinct j k (omega arith) (omega arith)

  all_kept :
      (w : ℕ)
      → w < 0xFFC0_0000
      → ((j : ℕ) → j < suc n → v / 4096 + j ≢ w / 4096)
      → (is_mapped t' w ≡ is_mapped t w) × (is_mapped t w ≡ true → addr_v2p t' w ≡ addr_v2p t w)
  all_kept w low out =
      let ne : v / 4096 ≢ w / 4096 = let o = out 0 (omega arith) in λ e. o (omega arith) in
      let (same, same_addr) = rest.kept w low (λ j l e. out (suc j) (omega arith) (omega arith)) in
      let one_same : is_mapped t₁ w ≡ is_mapped t w =
        one.added.mapped w low ∙ rw (ne→== (v / 4096) (w / 4096) ne) refl in
      (same ∙ one_same, λ on. same_addr (one_same ∙ on) ∙ one.added.kept w low (λ e. ne (sym e)) on)

  longer : IsRange p (suc n) v m m' t t' (prepend i phys)
  longer = record {
    bytes = rest.bytes;
    pages = all_pages;
    in_use = λ k u. rest.in_use k (one.in_use k (inl u));
    distinct = all_distinct;
    kept = all_kept;
    frame = λ a out. rest.frame a out ∙ one.frame a out;
  }

page_loop-suc :
    (n v v' a : ℕ) (s : Machine) (m₁ m₂ : Memory) (t₂ : Entries)
    (r : Option (Option (Unit {0}) × Machine))
    → palloc s.memory s.pools.kernel_pool ≡ some (some a, m₁)
    → page_table_add m₁ s.pools.kernel_pool s.entries v a ≡ some (m₂, t₂)
    → u32 (v + pg_size) ≡ v'
    → page_loop n pf_kernel v' (record s { memory = m₂; entries = t₂ }) ≡ r
    → page_loop (suc n) pf_kernel v s ≡ r
unfolding page_loop
page_loop-suc n v v' a s m₁ m₂ t₂ r e e' next rest = rw (page_loop, e, e', next) rest

-- The loop of `malloc_page` for the kernel.
pub page_loop_lem :
    (n v : ℕ) (s : Machine)
    → let p = s.pools.kernel_pool in
      IsBytes s.memory
      → IsPool p
      → p.phy_addr_start % 4096 ≡ 0
      → v % 4096 ≡ 0
      → v + n * 4096 ≤ 0xFFC0_0000
      → ((j : ℕ) → j < n → is_mapped s.entries (v + j * 4096) ≡ false)
      → used_pages s.memory p + 2 * n ≤ p.pool_bitmap.btmp_byte_len * 8
      → (m' : Memory) × (t' : Entries) × (phys : ℕ → ℕ) × (page_loop n pf_kernel v s
          ≡ some (some tt, record s { memory = m'; entries = t' }))
        × IsRange p n v s.memory m' s.entries t' phys
unfolding page_loop
page_loop_lem zero v s ok pool aligned low top gone enough = (
  s.memory,
  s.entries,
  λ j. 0,
  refl,
  record {
    bytes = ok;
    pages = λ j l. absurd (omega arith);
    in_use = λ i u. u;
    distinct = λ j k l r. absurd (omega arith);
    kept = λ w l out. (refl, λ on. refl);
    frame = λ a out. refl;
  },
)
page_loop_lem (suc n) v s ok pool aligned low top gone enough =
    let p = s.pools.kernel_pool in
    let first : is_mapped s.entries v ≡ false =
      subst (λ z. is_mapped s.entries z ≡ false) (omega arith) (gone 0 (omega arith)) in
    let (i, m₁, m₂, t₂, e, e', one) =
      supply s.memory p s.entries v ok pool aligned (omega arith) first (omega arith) in
    let next : u32 (v + pg_size) ≡ v + 4096 = omega arith in
    let few = one.few in
    let (m', t', phys, rest_e, rest) =
      page_loop_lem n (v + 4096) (record s { memory = m₂; entries = t₂ }) one.bytes pool aligned
        (omega arith) (omega arith)
        (still_gone n v (p.phy_addr_start + i * 4096) s.entries t₂ low top one.added gone)
        (omega arith) in
    (
      m',
      t',
      prepend i phys,
      page_loop-suc n v (v + 4096) (p.phy_addr_start + i * 4096) s m₁ m₂ t₂
          (some (some tt, record s { memory = m'; entries = t' })) e e' next rest_e,
      longer p n v i s.memory m₂ m' s.entries t₂ t' phys low top one rest,
    )
