-- ===== src/KernelList/Walk.antt =====
-- The loops over a list of lib/kernel/list.c: `elem_find`, `list_traversal` and `list_len`.
use jack_os.Base.{
  ℕ, zero, suc, ◌+◌, ◌%◌, ◌<◌, ◌≡◌, ◌↔◌, refl, Bool, true, false, some, List, [], ◌∷◌, arith, ◌==◌,
  if◌then◌else◌, length, has, ◌∉◌,
}
use jack_os.CString.{Ptr, null}
use jack_os.KernelList.{
  Heap, KList, find_loop, elem_find, list_empty, traversal_loop, list_traversal, len_loop, list_len,
}
use jack_os.KernelList.Chain.{Chain, IsList}

-- The first element that passes the test, or NULL.
unfoldable pub find : (Ptr → Bool) → List Ptr → Ptr
find test [] = null
find test (x ∷ xs) = if test x then x else find test xs

module _ (h : Heap) (l : KList) where
  find_loop-has :
      (fuel : ℕ) (obj p : Ptr) (xs : List Ptr)
      → Chain h p xs l.tail
      → l.tail ∉ xs
      → null ∉ xs
      → length xs < fuel
      → find_loop fuel h l obj (h.next p) ≡ some (has obj xs)
  unfolding find_loop
  find_loop-has zero obj p xs c nt nn f = absurd (omega arith)
  find_loop-has (suc fuel) obj p [] c nt nn f = rw c.0 (ground arith)
  find_loop-has (suc fuel) obj p (x ∷ xs) c nt nn f =
      rw c.0 (ground (arith, find_loop-has fuel obj x xs))

  traversal_loop-find :
      (fuel : ℕ) (func : Ptr → ℕ → Bool) (arg : ℕ) (p : Ptr) (xs : List Ptr)
      → Chain h p xs l.tail
      → l.tail ∉ xs
      → length xs < fuel
      → traversal_loop fuel h l func arg (h.next p) ≡ some (find (λ e. func e arg) xs)
  unfolding traversal_loop find
  traversal_loop-find zero func arg p xs c nt f = absurd (omega arith)
  traversal_loop-find (suc fuel) func arg p [] c nt f = rw c.0 (ground arith)
  traversal_loop-find (suc fuel) func arg p (x ∷ xs) c nt f =
      rw c.0 (ground (arith, traversal_loop-find fuel func arg x xs))

  len_loop-length :
      (fuel n : ℕ) (p : Ptr) (xs : List Ptr)
      → Chain h p xs l.tail
      → l.tail ∉ xs
      → length xs < fuel
      → n + length xs < 0x1_0000_0000
      → len_loop fuel h l n (h.next p) ≡ some (n + length xs)
  unfolding len_loop
  len_loop-length zero n p xs c nt f b = absurd (omega arith)
  len_loop-length (suc fuel) n p [] c nt f b = rw c.0 (ground arith)
  len_loop-length (suc fuel) n p (x ∷ xs) c nt f b =
      let e : (n + 1) % 0x1_0000_0000 ≡ n + 1 = omega arith in
      rw (c.0, e) (ground (arith, len_loop-length fuel (n + 1) x xs))

  list_empty_iff :
      (p : Ptr) (xs : List Ptr)
      → Chain h p xs l.tail
      → l.tail ∉ xs
      → ((h.next p == l.tail) ≡ true) ↔ (xs ≡ [])
  list_empty_iff p [] c nt = (λ e. refl, λ e. ground arith)
  list_empty_iff p (x ∷ xs) c nt = (λ e. ground arith, λ e. cc)

  list_traversal-find :
      (fuel : ℕ) (xs : List Ptr) (func : Ptr → ℕ → Bool) (arg : ℕ)
      → IsList h l xs
      → length xs < fuel
      → list_traversal fuel h l func arg ≡ some (find (λ e. func e arg) xs)
  unfolding list_traversal list_empty find
  list_traversal-find fuel [] func arg is f = ground (arith, is.chain.0)
  list_traversal-find fuel (x ∷ xs) func arg is f =
      let some_left : (h.next l.head == l.tail) ≡ false =
        ground (arith, is.chain.0, is.tail_out.0) in
      rw some_left (traversal_loop-find fuel func arg l.head (x ∷ xs) is.chain is.tail_out f)

  -- What the four functions that read a list report of its elements: whether one is among them, the
  -- first that passes a test, how many they are (below 2^32), and whether there is none; given fuel
  -- for the elements and the tail.
  pub walks :
      (fuel : ℕ) (xs : List Ptr)
      → IsList h l xs
      → length xs < fuel
      → ((obj : Ptr) → elem_find fuel h l obj ≡ some (has obj xs))
        × ((func : Ptr → ℕ → Bool) (arg : ℕ)
            → list_traversal fuel h l func arg ≡ some (find (λ e. func e arg) xs))
        × (length xs < 0x1_0000_0000 → list_len fuel h l ≡ some (length xs))
        × ((list_empty h l ≡ true) ↔ (xs ≡ []))
  unfolding elem_find list_len list_empty
  walks fuel xs is f = (
    λ obj. find_loop-has fuel obj l.head xs is.chain is.tail_out is.not_null f,
    λ func arg. list_traversal-find fuel xs func arg is f,
    λ b. ground (arith, len_loop-length fuel 0 l.head xs is.chain is.tail_out f),
    list_empty_iff l.head xs is.chain is.tail_out,
  )
