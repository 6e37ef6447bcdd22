-- ===== src/KernelList/Refine.antt =====
-- A history of calls of lib/kernel/list.c against the same history on a sequence of elements.
use jack_os.Base.{
  ◌≡◌, ◌≢◌, refl, sym, ◌∙◌, subst, ap, true, List, [], ◌∷◌, ◌++◌, arith, ◌==◌, if◌then◌else◌, has,
  Bool-cases, inl, inr, ==→eq,
}
use jack_os.CString.{Ptr}
use jack_os.KernelList.{Heap, KList, list_push, list_append, list_remove, list_pop}
use jack_os.KernelList.Chain.{IsList}
use jack_os.KernelList.Insert.{IsNew, push-IsList, append-IsList}
use jack_os.KernelList.Remove.{remove-IsList, pop-IsList}

-- The calls that change a list.
pub data Op : Type 0 where
  push append remove : Ptr → Op
  pop : Op

unfoldable pub run : KList → List Op → Heap → Heap
run l [] h = h
run l (push e ∷ ops) h = run l ops (list_push h l e)
run l (append e ∷ ops) h = run l ops (list_append h l e)
run l (remove e ∷ ops) h = run l ops (list_remove h e)
run l (pop ∷ ops) h = run l ops (list_pop h l).1

-- The same on the sequence.
unfoldable pub erase : Ptr → List Ptr → List Ptr
erase e [] = []
erase e (x ∷ xs) = if e == x then xs else x ∷ erase e xs

abbrev pub rest : List Ptr → List Ptr
rest [] = []
rest (x ∷ xs) = xs

unfoldable pub spec : List Op → List Ptr → List Ptr
unfolding erase
spec [] xs = xs
spec (push e ∷ ops) xs = spec ops (e ∷ xs)
spec (append e ∷ ops) xs = spec ops (xs ++ e ∷ [])
spec (remove e ∷ ops) xs = spec ops (erase e xs)
spec (pop ∷ ops) xs = spec ops (rest xs)

-- What the callers see to: an element that is inserted is in no list, one that is removed is in this
-- one, and a list that is popped is not empty.
abbrev pub Legal : KList → List Op → List Ptr → Type 0
Legal l [] xs = Unit {0}
Legal l (push e ∷ ops) xs = IsNew l xs e × Legal l ops (e ∷ xs)
Legal l (append e ∷ ops) xs = IsNew l xs e × Legal l ops (xs ++ e ∷ [])
Legal l (remove e ∷ ops) xs = (has e xs ≡ true) × Legal l ops (erase e xs)
Legal l (pop ∷ ops) xs = (xs ≢ []) × Legal l ops (rest xs)

split_at :
    (e : Ptr) (xs : List Ptr)
    → has e xs ≡ true
    → (before : List Ptr) × (after : List Ptr) × (xs ≡ before ++ e ∷ after)
      × (erase e xs ≡ before ++ after)
unfolding erase
split_at e [] h = cc
split_at e (x ∷ xs) h = elim (Bool-cases (e == x)) [
  | inl hit ↦ ([], xs, ap (λ z. z ∷ xs) (sym (==→eq e x hit)), rw hit refl)
  | inr miss ↦
      let (b, a, p, q) = split_at e xs (ground arith) in
      (x ∷ b, a, ap (λ z. x ∷ z) p, rw (miss, q) refl)
]

module _ {l : KList} where
  remove_erase :
      {h : Heap} (e : Ptr) (xs : List Ptr)
      → has e xs ≡ true
      → IsList h l xs
      → IsList (list_remove h e) l (erase e xs) × ((list_remove h e).intr ≡ h.intr)
  remove_erase {h} e xs i is =
      let (b, a, p, q) = split_at e xs i in
      let (keeps, flag) = remove-IsList {h = h} e b a (subst (IsList h l) p is) in
      (subst (IsList (list_remove h e) l) (sym q) keeps, flag)

  pop_rest :
      {h : Heap} (xs : List Ptr)
      → xs ≢ []
      → IsList h l xs
      → IsList (list_pop h l).1 l (rest xs) × ((list_pop h l).1.intr ≡ h.intr)
  pop_rest [] ne is = absurd (ne refl)
  pop_rest (x ∷ xs) ne is = let (e, keeps, flag) = pop-IsList x xs is in (keeps, flag)

  -- After any history of legal calls the list holds what the history leaves of the sequence, and the
  -- interrupt flag is as it was.
  pub run_refines :
      (ops : List Op) {h : Heap} (xs : List Ptr)
      → Legal l ops xs
      → IsList h l xs
      → IsList (run l ops h) l (spec ops xs) × ((run l ops h).intr ≡ h.intr)
  unfolding run spec
  run_refines [] xs legal is = (is, refl)
  run_refines (push e ∷ ops) xs (new, legal) is =
      let (step, flag) = push-IsList e is new in
      let (all, flags) = run_refines ops (e ∷ xs) legal step in (all, flags ∙ flag)
  run_refines (append e ∷ ops) xs (new, legal) is =
      let (step, flag) = append-IsList e is new in
      let (all, flags) = run_refines ops (xs ++ e ∷ []) legal step in (all, flags ∙ flag)
  run_refines (remove e ∷ ops) xs (i, legal) is =
      let (step, flag) = remove_erase e xs i is in
      let (all, flags) = run_refines ops (erase e xs) legal step in (all, flags ∙ flag)
  run_refines (pop ∷ ops) xs (ne, legal) is =
      let (step, flag) = pop_rest xs ne is in
      let (all, flags) = run_refines ops (rest xs) legal step in (all, flags ∙ flag)
