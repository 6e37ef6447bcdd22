-- ===== src/KernelList/Remove.antt =====
-- `list_remove` and `list_pop` of lib/kernel/list.c.
use jack_os.Base.{
  ◌≡◌, ◌≢◌, refl, sym, subst, List, [], ◌∷◌, ◌++◌, arith, ◌==◌, if◌then◌else◌, ◌∉◌, Distinct,
  not-mem-left, not-mem-right, mem-ne, not-mem-snoc, not-mem-delete, Distinct-delete,
}
use jack_os.CString.{Ptr, null}
use jack_os.Interrupt.{critical_section}
use jack_os.KernelList.{Heap, KList, list_remove, list_pop}
use jack_os.KernelList.Chain.{Chain, IsList, prev-end, next-start, Chain-front, Chain-back, frame}

-- What a removal of `e` changes, where `e` is not its own neighbour.
remove_fields :
    (h : Heap) (e : Ptr)
    → h.prev e ≢ e
    → let h' = list_remove h e in
      (h'.intr ≡ h.intr)
      × ((a : Ptr) → h'.next a ≡ (if h.prev e == a then h.next e else h.next a))
      × ((a : Ptr) → h'.prev a ≡ (if h.next e == a then h.prev e else h.prev a))
unfolding list_remove
remove_fields h e ne = ((critical_section h.intr).1, λ a. refl, λ a. ground arith)

module _ (h : Heap) (e : Ptr) (out : h.prev e ≢ e) where
  abbrev after : Heap
  after = list_remove h e

  next-after : (a : Ptr) → after.next a ≡ (if h.prev e == a then h.next e else h.next a)
  next-after a = (remove_fields h e out).1 a

  prev-after : (a : Ptr) → after.prev a ≡ (if h.next e == a then h.prev e else h.prev a)
  prev-after a = (remove_fields h e out).2 a

  -- At the front of a chain.
  pop-Chain :
      (p q : Ptr) (ys : List Ptr)
      → Chain h p (e ∷ ys) q
      → p ∉ ys
      → q ∉ ys
      → Distinct ys
      → Chain after p ys q
  pop-Chain p q [] c np nq d = (ground (arith, next-after p), ground (arith, prev-after q))
  pop-Chain p q (y ∷ ys) c np nq d = (
    ground (arith, next-after p),
    ground (arith, prev-after y),
    frame h after y q ys (λ a i. ground (arith, next-after a, mem-ne a p (y ∷ ys) i np))
        (λ a i. ground (
          arith,
          prev-after a,
          mem-ne a y (ys ++ q ∷ []) i (not-mem-snoc y q ys d.0 (λ k. nq.0 (sym k))),
        ))
        c.2.2,
  )

  -- In the middle.
  remove-Chain :
      (p q : Ptr) (xs ys : List Ptr)
      → Chain h p (xs ++ e ∷ ys) q
      → p ∉ (xs ++ e ∷ ys)
      → q ∉ (xs ++ e ∷ ys)
      → Distinct (xs ++ e ∷ ys)
      → Chain after p (xs ++ ys) q
  remove-Chain p q [] ys c np nq d = pop-Chain p q ys c np.1 nq.1 d.1
  remove-Chain p q (x ∷ xs) ys c np nq d =
      let front = Chain-front h x q e xs ys c.2 in
      let back = Chain-back h x q e xs ys c.2 in
      let p_out : p ∉ xs = not-mem-left p xs (e ∷ ys) np.1 in
      let x_out : x ∉ ys = (not-mem-right x xs (e ∷ ys) d.0).1 in
      (
        ground (arith, next-after p, prev-end h p x e xs front np.0 p_out),
        ground (arith, prev-after x, next-start h x e q ys back (λ k. nq.0 (sym k)) x_out),
        remove-Chain x q xs ys c.2 d.0 nq.1 d.1,
      )

module _ {h : Heap} {l : KList} where
  -- `list_remove` takes an element out of the list that it stands in, keeps the others in their order,
  -- and leaves the interrupt flag as it was.
  pub remove-IsList :
      (e : Ptr) (xs ys : List Ptr)
      → IsList h l (xs ++ e ∷ ys)
      → IsList (list_remove h e) l (xs ++ ys) × ((list_remove h e).intr ≡ h.intr)
  remove-IsList e xs ys is =
      let (head_ne, head_out) = not-mem-delete e l.head xs ys is.head_out in
      let (tail_ne, tail_out) = not-mem-delete e l.tail xs ys is.tail_out in
      let (e_out, distinct) = Distinct-delete e xs ys is.distinct in
      let front = Chain-front h l.head l.tail e xs ys is.chain in
      let before =
        prev-end h e l.head e xs front (λ k. head_ne (sym k)) (not-mem-left e xs ys e_out) in
      let other : h.prev e ≢ e = λ k. before (sym k) in
      (
        record {
          chain =
              remove-Chain h e other l.head l.tail xs ys is.chain is.head_out is.tail_out
                is.distinct;
          ends = is.ends;
          head_out = head_out;
          tail_out = tail_out;
          distinct = distinct;
          not_null = (not-mem-delete e null xs ys is.not_null).1;
        },
        (remove_fields h e other).0,
      )

  -- `list_pop` of a list with elements returns the first and leaves the others.
  pub pop-IsList :
      (x : Ptr) (xs : List Ptr)
      → IsList h l (x ∷ xs)
      → let (e, h') = list_pop h l in (e ≡ x) × IsList h' l xs × (h'.intr ≡ h.intr)
  unfolding list_pop
  pop-IsList x xs is =
      let (rest, flag) = remove-IsList x [] xs is in
      let q : h.next l.head ≡ x = is.chain.0 in
      let kept = subst (λ e. (list_remove h e).intr ≡ h.intr) (sym q) flag in
      (q, subst (λ e. IsList (list_remove h e) l xs) (sym q) rest, kept)
