-- ===== src/KernelList/Chain.antt =====
-- What a linked list of lib/kernel/list.c stands for: the addresses of its elements, in order.
use jack_os.Base.{◌≡◌, ◌≢◌, true, List, [], ◌∷◌, ◌++◌, arith, has, ◌∉◌, Distinct}
use jack_os.CString.{Ptr, null}
use jack_os.KernelList.{Heap, KList}

-- From `p` the `next` fields lead through `xs` to `q`, and the `prev` fields back.
abbrev pub Chain : Heap → Ptr → List Ptr → Ptr → Type 0
Chain h p [] q = (h.next p ≡ q) × (h.prev q ≡ p)
Chain h p (x ∷ xs) q = (h.next p ≡ x) × (h.prev x ≡ p) × Chain h x xs q

-- The list `l` holds the elements `xs`: they are linked between its sentinels, all these addresses
-- are different, and none is NULL.
pub record IsList (h : Heap) (l : KList) (xs : List Ptr) : Type 0 where
  pub chain : Chain h l.head xs l.tail
  pub ends : l.head ≢ l.tail
  pub head_out : l.head ∉ xs
  pub tail_out : l.tail ∉ xs
  pub distinct : Distinct xs
  pub not_null : null ∉ xs

-- The element behind the start of a chain.
abbrev pub first : Ptr → List Ptr → Ptr
first q [] = q
first q (x ∷ xs) = x

pub next-first : (h : Heap) (p q : Ptr) (xs : List Ptr) → Chain h p xs q → h.next p ≡ first q xs
next-first h p q [] c = c.0
next-first h p q (x ∷ xs) c = c.0

module _ (h : Heap) where
  -- The element before the end of a chain is none that lies outside the chain.
  pub prev-end : (a p q : Ptr) (xs : List Ptr) → Chain h p xs q → a ≢ p → a ∉ xs → a ≢ h.prev q
  prev-end a p q [] c ne out = ground arith
  prev-end a p q (x ∷ xs) c ne out = prev-end a x q xs c.2 out.0 out.1

  -- A chain stays under a change of `next` outside its start and elements, and of `prev` outside its
  -- elements and end.
  pub frame :
      (h' : Heap) (p q : Ptr) (xs : List Ptr)
      → ((a : Ptr) → has a (p ∷ xs) ≡ true → h'.next a ≡ h.next a)
      → ((a : Ptr) → has a (xs ++ q ∷ []) ≡ true → h'.prev a ≡ h.prev a)
      → Chain h p xs q
      → Chain h' p xs q
  frame h' p q [] same_next same_prev c = ground (arith, same_next p, same_prev q)
  frame h' p q (x ∷ xs) same_next same_prev c = (
    ground (arith, same_next p),
    ground (arith, same_prev x),
    frame h' x q xs (λ a i. same_next a (ground arith)) (λ a i. same_prev a (ground arith)) c.2,
  )

  pub Chain-front : (p q e : Ptr) (xs ys : List Ptr) → Chain h p (xs ++ e ∷ ys) q → Chain h p xs e
  Chain-front p q e [] ys c = (c.0, c.1)
  Chain-front p q e (x ∷ xs) ys c = (c.0, c.1, Chain-front x q e xs ys c.2)

  pub Chain-back : (p q e : Ptr) (xs ys : List Ptr) → Chain h p (xs ++ e ∷ ys) q → Chain h e ys q
  Chain-back p q e [] ys c = c.2
  Chain-back p q e (x ∷ xs) ys c = Chain-back x q e xs ys c.2

  -- The element behind the start of a chain is none that lies outside the chain.
  pub next-start : (a p q : Ptr) (xs : List Ptr) → Chain h p xs q → a ≢ q → a ∉ xs → a ≢ h.next p
  next-start a p q [] c ne out = ground arith
  next-start a p q (x ∷ xs) c ne out = ground arith
