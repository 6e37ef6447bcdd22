-- ===== src/CString/Compare.antt =====
-- `strcmp` and `memcmp` of lib/string.c against the order of the signed bytes.
use jack_os.Base.{
  ℕ, zero, suc, ◌+◌, ◌<◌, ◌≡◌, refl, ◌≢◌, ◌↔◌, some, List, [], ◌∷◌, arith, ◌==◌, if◌then◌else◌,
  length,
}
use jack_os.CString.{
  Memory, Ptr, null, Sign, negative, same, positive, char_lt, memcmp_loop, memcmp, strcmp_loop,
  strcmp,
}
use jack_os.CString.Text.{IsString}

-- The dictionary order of two texts by signed bytes; the end of a text counts as a zero byte.
abbrev pub byte_order : ℕ → ℕ → Sign
byte_order c d = if char_lt c d then negative else (if char_lt d c then positive else same)

unfoldable pub order : List ℕ → List ℕ → Sign
order [] [] = same
order [] (d ∷ t) = byte_order 0 d
order (c ∷ s) [] = byte_order c 0
order (c ∷ s) (d ∷ t) = if c == d then order s t else byte_order c d

-- Every element is a byte.
abbrev pub Bytes : List ℕ → Type 0
Bytes [] = Unit
Bytes (c ∷ s) = (c < 256) × Bytes s

abbrev pub NonZero : List ℕ → Type 0
NonZero [] = Unit
NonZero (c ∷ s) = (c ≢ 0) × NonZero s

IsString-NonZero : (m : Memory) (p : Ptr) (s : List ℕ) → IsString m p s → NonZero s
IsString-NonZero m p [] h = tt
IsString-NonZero m p (c ∷ s) h = (h.1, IsString-NonZero m (p + 1) s h.2)

order-same : (s : List ℕ) → order s s ≡ same
unfolding order
order-same [] = refl
order-same (c ∷ s) = ground (arith, order-same s)

byte_order-same : (c d : ℕ) → c < 256 → d < 256 → byte_order c d ≡ same → c ≡ d
byte_order-same c d hc hd e = ground arith

eq_of_order : (s t : List ℕ) → Bytes s → NonZero s → Bytes t → NonZero t → order s t ≡ same → s ≡ t
unfolding order
eq_of_order [] [] bs ns bt nt e = refl
eq_of_order [] (d ∷ t) bs ns bt nt e = ground (arith, byte_order-same 0 d)
eq_of_order (c ∷ s) [] bs ns bt nt e = ground (arith, byte_order-same c 0)
eq_of_order (c ∷ s) (d ∷ t) bs ns bt nt e = ground (arith, byte_order-same c d, eq_of_order s t)

strcmp_loop-order :
    (fuel : ℕ) (m : Memory) (a b : Ptr) (s t : List ℕ)
    → IsString m a s
    → IsString m b t
    → length s < fuel
    → strcmp_loop fuel m a b ≡ some (order s t)
unfolding strcmp_loop order
strcmp_loop-order zero m a b s t hs ht f = absurd (omega arith)
strcmp_loop-order (suc fuel) m a b [] [] hs ht f = ground arith
strcmp_loop-order (suc fuel) m a b [] (d ∷ t) hs ht f = ground arith
strcmp_loop-order (suc fuel) m a b (c ∷ s) [] hs ht f = ground arith
strcmp_loop-order (suc fuel) m a b (c ∷ s) (d ∷ t) hs ht f =
    ground (arith, strcmp_loop-order fuel m (a + 1) (b + 1) s t)

-- `strcmp` of two strings returns, given fuel for the first, their dictionary order by signed bytes,
-- which is 0 exactly if the strings are equal.
pub strcmp-order :
    (fuel : ℕ) (m : Memory) (a b : Ptr) (s t : List ℕ)
    → a ≢ null
    → b ≢ null
    → IsString m a s
    → IsString m b t
    → Bytes s
    → Bytes t
    → length s < fuel
    → (strcmp fuel m a b ≡ some (order s t)) × ((order s t ≡ same) ↔ (s ≡ t))
unfolding strcmp
strcmp-order fuel m a b s t na nb hs ht bs bt f = (
  ground (arith, strcmp_loop-order fuel m a b s t hs ht f),
  (
    eq_of_order s t bs (IsString-NonZero m a s hs) bt (IsString-NonZero m b t ht),
    λ e. rw (← e) (order-same s),
  ),
)

memcmp_loop-same :
    (m : Memory) (a b size : ℕ)
    → memcmp_loop m a b size ≡ same
    → (k : ℕ) → k < size
    → m (a + k) ≡ m (b + k)
unfolding memcmp_loop
memcmp_loop-same m a b zero e k h = absurd (omega arith)
memcmp_loop-same m a b (suc size) e zero h = ground arith
memcmp_loop-same m a b (suc size) e (suc k) h =
    ground (arith, memcmp_loop-same m (a + 1) (b + 1) size (ground arith) k (omega arith))

same-memcmp_loop :
    (m : Memory) (a b size : ℕ)
    → ((k : ℕ) → k < size → m (a + k) ≡ m (b + k))
    → memcmp_loop m a b size ≡ same
unfolding memcmp_loop
same-memcmp_loop m a b zero h = refl
same-memcmp_loop m a b (suc size) h =
    let rest = same-memcmp_loop m (a + 1) (b + 1) size (λ k l. ground (arith, h (suc k))) in
    ground (arith, h 0)

-- `memcmp` of two blocks that are not at NULL returns, with 0 exactly if they hold the same bytes.
pub memcmp-same :
    (m : Memory) (a b size : ℕ)
    → a ≢ null
    → b ≢ null
    → (r : Sign) × (memcmp m a b size ≡ some r)
      × ((r ≡ same) ↔ ((k : ℕ) → k < size → m (a + k) ≡ m (b + k)))
unfolding memcmp
memcmp-same m a b size na nb = (
  memcmp_loop m a b size,
  ground arith,
  (memcmp_loop-same m a b size, same-memcmp_loop m a b size),
)
