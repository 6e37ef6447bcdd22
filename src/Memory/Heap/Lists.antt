-- ===== src/Memory/Heap/Lists.antt =====
-- The lists of free blocks and the table of arenas, when one of them changes.
use jack_os.Base.{
  ℕ, ◌≡◌, ◌≢◌, inl, inr, refl, sym, true, List, ◌==◌, eq→==, ne→==, ==→eq, ==→ne, Bool-cases,
  Distinct, update,
}
use jack_os.CString.{Ptr}
use jack_os.Memory.Virtual.{PoolFlags, pf_kernel, pf_user}
use jack_os.Memory.Heap.{Heap, Arena, same_flag, set_free_list}

pub same_self : (pf : PoolFlags) → same_flag pf pf ≡ true
same_self pf_kernel = refl
same_self pf_user = refl

module _ (pf : PoolFlags) (size : ℕ) (l : List Ptr) (h : Heap) where
  pub list_self : (set_free_list pf size l h).free_list pf size ≡ l
  list_self = rw (same_self pf, eq→== size size refl) refl

  pub list_other :
      (s : ℕ) → s ≢ size → (set_free_list pf size l h).free_list pf s ≡ h.free_list pf s
  list_other s ne = rw (same_self pf, ne→== size s (λ e. ne (sym e))) refl

  pub list-Distinct :
      Distinct l
      → ((s : ℕ) → Distinct (h.free_list pf s))
      → (s : ℕ) → Distinct ((set_free_list pf size l h).free_list pf s)
  list-Distinct d all s = elim (Bool-cases (s == size)) [
    | inl q ↦ rw (==→eq s size q, list_self) d
    | inr q ↦ rw (list_other s (==→ne s size q)) (all s)
  ]

-- An arena keeps its descriptor when its count changes.
pub descs_kept :
    (arenas : Ptr → Arena) (a : Ptr) (n : ℕ) (x : Ptr)
    → (update arenas a (record (arenas a) { free_cnt = n }) x).desc ≡ (arenas x).desc
descs_kept arenas a n x = elim (Bool-cases (a == x)) [
  | inl q ↦ rw (q, ==→eq a x q) refl
  | inr q ↦ rw q refl
]
