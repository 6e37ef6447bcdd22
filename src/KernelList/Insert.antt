-- ===== src/KernelList/Insert.antt =====
-- `list_init`, `list_insert_before`, `list_push` and `list_append` of lib/kernel/list.c.
use jack_os.Base.{
  ◌≡◌, ◌≢◌, refl, sym, subst, List, [], ◌∷◌, ◌++◌, arith, ◌==◌, if◌then◌else◌, ◌∉◌, Distinct,
  mem-ne, not-mem-snoc, Distinct-snoc,
}
use jack_os.CString.{Ptr, null}
use jack_os.Interrupt.{critical_section}
use jack_os.KernelList.{Heap, KList, list_init, list_insert_before, list_push, list_append}
use jack_os.KernelList.Chain.{Chain, IsList, first, next-first, prev-end, frame}

-- What an insertion of `e` before `q` changes.
insert_fields :
    (h : Heap) (q e : Ptr)
    → let h' = list_insert_before h q e in
      (h'.intr ≡ h.intr)
      × ((a : Ptr) → h'.next a ≡ (if e == a then q else (if h.prev q == a then e else h.next a)))
      × ((a : Ptr) → h'.prev a ≡ (if q == a then e else (if e == a then h.prev q else h.prev a)))
unfolding list_insert_before
insert_fields h q e = ((critical_section h.intr).1, λ a. refl, λ a. refl)

module _ (h : Heap) (q e : Ptr) where
  abbrev after : Heap
  after = list_insert_before h q e

  next-after :
      (a : Ptr) → after.next a ≡ (if e == a then q else (if h.prev q == a then e else h.next a))
  next-after a = (insert_fields h q e).1 a

  prev-after :
      (a : Ptr) → after.prev a ≡ (if q == a then e else (if e == a then h.prev q else h.prev a))
  prev-after a = (insert_fields h q e).2 a

  -- Before the end of a chain.
  insert-Chain :
      (p : Ptr) (xs : List Ptr)
      → Chain h p xs q
      → p ≢ q
      → p ≢ e
      → q ≢ e
      → p ∉ xs
      → q ∉ xs
      → e ∉ xs
      → Distinct xs
      → Chain after p (xs ++ e ∷ []) q
  insert-Chain p [] c pq pe qe np nq ne d = (
    ground (arith, next-after p),
    ground (arith, prev-after e),
    (ground (arith, next-after e), ground (arith, prev-after q)),
  )
  insert-Chain p (x ∷ xs) c pq pe qe np nq ne d = (
    ground (arith, next-after p, prev-end h p x q xs c.2 np.0 np.1),
    ground (arith, prev-after x),
    insert-Chain x xs c.2 (λ k. nq.0 (sym k)) (λ k. ne.0 (sym k)) qe d.0 nq.1 ne.1 d.1,
  )

-- An element that stands in no list yet, nor is a sentinel of `l`.
abbrev pub IsNew : KList → List Ptr → Ptr → Type 0
IsNew l xs e = (e ≢ null) × (e ≢ l.head) × (e ≢ l.tail) × (e ∉ xs)

-- `list_init` makes the empty list, whatever the sentinels held, if they are two.
pub list_init-IsList : (h : Heap) (l : KList) → l.head ≢ l.tail → IsList (list_init h l) l []
unfolding list_init
list_init-IsList h l ne = record {
  chain = ground arith;
  ends = ne;
  head_out = tt;
  tail_out = tt;
  distinct = tt;
  not_null = tt;
}

module _ {h : Heap} {l : KList} {xs : List Ptr} (e : Ptr) (is : IsList h l xs)
    (new : IsNew l xs e) where
  -- `list_append` puts a new element behind the others, and leaves the interrupt flag as it was.
  pub append-IsList :
      IsList (list_append h l e) l (xs ++ e ∷ []) × ((list_append h l e).intr ≡ h.intr)
  unfolding list_append
  append-IsList = (
    record {
      chain =
          insert-Chain h l.tail e l.head xs is.chain is.ends (λ k. new.1 (sym k))
            (λ k. new.2 (sym k)) is.head_out is.tail_out new.3 is.distinct;
      ends = is.ends;
      head_out = not-mem-snoc l.head e xs is.head_out (λ k. new.1 (sym k));
      tail_out = not-mem-snoc l.tail e xs is.tail_out (λ k. new.2 (sym k));
      distinct = Distinct-snoc xs e is.distinct new.3;
      not_null = not-mem-snoc null e xs is.not_null (λ k. new.0 (sym k));
    },
    (insert_fields h l.tail e).0,
  )

-- The elements before which `list_push` inserts: the first, or the tail.
push-Chain :
    (h : Heap) (p q e : Ptr) (xs : List Ptr)
    → Chain h p xs q
    → p ≢ q
    → p ≢ e
    → q ≢ e
    → p ∉ xs
    → q ∉ xs
    → e ∉ xs
    → Distinct xs
    → Chain (list_insert_before h (first q xs) e) p (e ∷ xs) q
push-Chain h p q e [] c pq pe qe np nq ne d = insert-Chain h q e p [] c pq pe qe np nq ne d
push-Chain h p q e (x ∷ xs) c pq pe qe np nq ne d = (
  ground (arith, next-after h x e p),
  ground (arith, prev-after h x e e),
  (
    ground (arith, next-after h x e e),
    ground (arith, prev-after h x e x),
    frame h (after h x e) x q xs
        (λ a i.
          ground (arith, next-after h x e a, mem-ne a e (x ∷ xs) i ne, mem-ne a p (x ∷ xs) i np))
        (λ a i. ground (
          arith,
          prev-after h x e a,
          mem-ne a e (xs ++ q ∷ []) i (not-mem-snoc e q xs ne.1 (λ k. qe (sym k))),
          mem-ne a x (xs ++ q ∷ []) i (not-mem-snoc x q xs d.0 (λ k. nq.0 (sym k))),
        ))
        c.2,
  ),
)

module _ {h : Heap} {l : KList} {xs : List Ptr} (e : Ptr) (is : IsList h l xs)
    (new : IsNew l xs e) where
  -- `list_push` puts a new element before the others, and leaves the interrupt flag as it was.
  pub push-IsList : IsList (list_push h l e) l (e ∷ xs) × ((list_push h l e).intr ≡ h.intr)
  unfolding list_push
  push-IsList = (
    record {
      chain =
          subst (λ f. Chain (list_insert_before h f e) l.head (e ∷ xs) l.tail)
            (sym (next-first h l.head l.tail xs is.chain))
            (push-Chain h l.head l.tail e xs is.chain is.ends (λ k. new.1 (sym k))
              (λ k. new.2 (sym k)) is.head_out is.tail_out new.3 is.distinct);
      ends = is.ends;
      head_out = (λ k. new.1 (sym k), is.head_out);
      tail_out = (λ k. new.2 (sym k), is.tail_out);
      distinct = (new.3, is.distinct);
      not_null = (λ k. new.0 (sym k), is.not_null);
    },
    (insert_fields h (h.next l.head) e).0,
  )
