-- ===== src/CString/Text.antt =====
-- Terminated strings in memory, and `strlen` of lib/string.c.
use jack_os.Base.{ℕ, zero, suc, ◌+◌, ◌≤◌, ◌<◌, ◌≡◌, ◌≢◌, some, List, [], ◌∷◌, arith, length}
use jack_os.CString.{Memory, Ptr, null, walk, strlen}

-- From `p` on stand the bytes `s`, none of them zero, and then a zero.
abbrev pub IsString : Memory → Ptr → List ℕ → Type 0
IsString m p [] = m p ≡ 0
IsString m p (c ∷ s) = (m p ≡ c) × (c ≢ 0) × IsString m (p + 1) s

-- A string stays where memory is changed only outside it.
pub IsString-frame :
    (m m' : Memory) (p : Ptr) (s : List ℕ)
    → ((a : Ptr) → p ≤ a → a ≤ p + length s → m' a ≡ m a)
    → IsString m p s
    → IsString m' p s
IsString-frame m m' p [] same h = ground (arith, same p)
IsString-frame m m' p (c ∷ s) same h = (
  ground (arith, same p),
  h.1,
  IsString-frame m m' (p + 1) s (λ a l r. same a (omega arith) (omega arith)) h.2,
)

pub walk-IsString :
    (fuel : ℕ) (m : Memory) (p : Ptr) (s : List ℕ)
    → IsString m p s
    → length s < fuel
    → walk fuel m p ≡ some (p + length s + 1)
unfolding walk
walk-IsString zero m p s h f = absurd (omega arith)
walk-IsString (suc fuel) m p [] h f = ground arith
walk-IsString (suc fuel) m p (c ∷ s) h f = ground (arith, walk-IsString fuel m (p + 1) s)

-- `strlen` of a string that is not at NULL is its length, given fuel for its bytes and the zero.
pub strlen-length :
    (fuel : ℕ) (m : Memory) (p : Ptr) (s : List ℕ)
    → p ≢ null
    → IsString m p s
    → length s < fuel
    → strlen fuel m p ≡ some (length s)
unfolding strlen
strlen-length fuel m p s ne h f = ground (arith, walk-IsString fuel m p s)
