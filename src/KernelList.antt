-- ===== src/KernelList.antt =====
-- lib/kernel/list.c: doubly linked lists between two sentinels, over a heap that gives the two fields
-- of the element at each address. The loops run on fuel; `none` means that it ran out.
pub mod Chain
pub mod Insert
pub mod Remove
pub mod Walk
pub mod Refine
mod Tests
use jack_os.Base.{
  ℕ, zero, suc, ◌+◌, ◌%◌, Bool, true, false, not, ◌&&◌, Option, none, some, ◌==◌, if◌then◌else◌,
  update,
}
use jack_os.CString.{Ptr, null}
use jack_os.Interrupt.{IntrStatus, intr_disable, intr_set_status}

pub record Heap : Type 0 where
  pub prev : Ptr → Ptr
  pub next : Ptr → Ptr
  pub intr : IntrStatus

-- `list_t`: where its two sentinels stand.
pub record KList : Type 0 where
  pub head : Ptr
  pub tail : Ptr

-- `p->prev = q` and `p->next = q`
abbrev pub set_prev : Heap → Ptr → Ptr → Heap
set_prev h p q = record h { prev = update h.prev p q }

abbrev pub set_next : Heap → Ptr → Ptr → Heap
set_next h p q = record h { next = update h.next p q }

unfoldable pub list_init : Heap → KList → Heap
list_init h l =
    let h = set_prev h l.head null in
    let h = set_next h l.head l.tail in let h = set_prev h l.tail l.head in set_next h l.tail null

unfoldable pub list_insert_before : Heap → Ptr → Ptr → Heap
unfolding intr_disable intr_set_status
list_insert_before h before elem =
    let (old_status, off) = intr_disable h.intr in
    let h = record h { intr = off } in
    let h = set_next h (h.prev before) elem in
    let h = set_prev h elem (h.prev before) in
    let h = set_next h elem before in
    let h = set_prev h before elem in record h { intr = (intr_set_status old_status h.intr).1 }

unfoldable pub list_push : Heap → KList → Ptr → Heap
unfolding list_insert_before
list_push h plist elem = list_insert_before h (h.next plist.head) elem

unfoldable pub list_append : Heap → KList → Ptr → Heap
unfolding list_insert_before
list_append h plist elem = list_insert_before h plist.tail elem

unfoldable pub list_remove : Heap → Ptr → Heap
unfolding intr_disable intr_set_status
list_remove h pelem =
    let (old_status, off) = intr_disable h.intr in
    let h = record h { intr = off } in
    let h = set_next h (h.prev pelem) (h.next pelem) in
    let h = set_prev h (h.next pelem) (h.prev pelem) in
    record h { intr = (intr_set_status old_status h.intr).1 }

unfoldable pub list_pop : Heap → KList → Ptr × Heap
unfolding list_remove
list_pop h plist = let elem = h.next plist.head in (elem, list_remove h elem)

find_loop : ℕ → Heap → KList → Ptr → Ptr → Option Bool
find_loop zero h plist obj_elem elem = none
find_loop (suc fuel) h plist obj_elem elem =
    let rest = find_loop fuel h plist obj_elem (h.next elem) in
    if not (elem == plist.tail) && not (elem == null)
    then (if elem == obj_elem then some true else rest)
    else some false

unfoldable pub elem_find : ℕ → Heap → KList → Ptr → Option Bool
unfolding find_loop
elem_find fuel h plist obj_elem = find_loop fuel h plist obj_elem (h.next plist.head)

unfoldable pub list_empty : Heap → KList → Bool
list_empty h plist = h.next plist.head == plist.tail

-- The callback is one that only reads, as `pid_check` is.
traversal_loop : ℕ → Heap → KList → (Ptr → ℕ → Bool) → ℕ → Ptr → Option Ptr
traversal_loop zero h plist func arg elem = none
traversal_loop (suc fuel) h plist func arg elem =
    let rest = traversal_loop fuel h plist func arg (h.next elem) in
    if not (elem == plist.tail) then (if func elem arg then some elem else rest) else some null

unfoldable pub list_traversal : ℕ → Heap → KList → (Ptr → ℕ → Bool) → ℕ → Option Ptr
unfolding list_empty traversal_loop
list_traversal fuel h plist func arg =
    let found = traversal_loop fuel h plist func arg (h.next plist.head) in
    if list_empty h plist then some null else found

len_loop : ℕ → Heap → KList → ℕ → Ptr → Option ℕ
len_loop zero h plist length elem = none
len_loop (suc fuel) h plist length elem =
    let rest = len_loop fuel h plist ((length + 1) % 0x1_0000_0000) (h.next elem) in
    if not (elem == plist.tail) then rest else some length

unfoldable pub list_len : ℕ → Heap → KList → Option ℕ
unfolding len_loop
list_len fuel h plist = len_loop fuel h plist 0 (h.next plist.head)
