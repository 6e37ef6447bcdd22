-- ===== src/CString/Find.antt =====
-- `strchr`, `strrchr` and `strchrs` of lib/string.c.
use jack_os.Base.{
  ℕ, zero, suc, ◌+◌, ◌≤◌, ◌<◌, ◌≡◌, refl, ◌≢◌, ◌⊎◌, inl, inr, false, ap, some, List, [], ◌∷◌, ◌++◌,
  arith, ◌==◌, if◌then◌else◌, length, has, Bool-cases, ==→eq, ==→ne,
}
use jack_os.CString.{
  Memory, Ptr, null, strchr_loop, strchr, strrchr_loop, strrchr, strchrs_loop, strchrs,
}
use jack_os.CString.Text.{IsString}

-- `r` points to the first `ch` of the text `s` at `p`, or is NULL and there is none.
abbrev pub First : Ptr → List ℕ → ℕ → Ptr → Type 0
First p s ch r =
    ((r ≡ null) × (has ch s ≡ false))
    ⊎ ((before : List ℕ) × (after : List ℕ) × (s ≡ before ++ ch ∷ after)
        × (has ch before ≡ false)
        × (r ≡ p + length before))

-- `r` points to the last `ch` of the text `s` at `p`, or is `default` and there is none.
abbrev pub Last : Ptr → List ℕ → ℕ → Ptr → Ptr → Type 0
Last p s ch default r =
    ((r ≡ default) × (has ch s ≡ false))
    ⊎ ((before : List ℕ) × (after : List ℕ) × (s ≡ before ++ ch ∷ after)
        × (has ch after ≡ false)
        × (r ≡ p + length before))

unfoldable pub count : ℕ → List ℕ → ℕ
count ch [] = 0
count ch (c ∷ s) = count ch s + (if c == ch then 1 else 0)

First-cons : (p c ch r : ℕ) (s : List ℕ) → c ≢ ch → First (p + 1) s ch r → First p (c ∷ s) ch r
First-cons p c ch r s ne (inl h) = inl (h.0, ground arith)
First-cons p c ch r s ne (inr (b, a, e, n, q)) =
    inr (c ∷ b, a, ap (λ z. c ∷ z) e, ground arith, omega arith)

strchr_loop-First :
    (fuel : ℕ) (m : Memory) (p : Ptr) (s : List ℕ) (ch : ℕ)
    → ch < 128
    → IsString m p s
    → length s < fuel
    → (r : Ptr) × (strchr_loop fuel m p ch ≡ some r) × First p s ch r
unfolding strchr_loop
strchr_loop-First zero m p s ch lt h f = absurd (omega arith)
strchr_loop-First (suc fuel) m p [] ch lt h f = (null, ground arith, inl (refl, refl))
strchr_loop-First (suc fuel) m p (c ∷ s) ch lt h f = elim (Bool-cases (c == ch)) [
  | inl hit ↦ (p, ground arith, inr ([], s, ap (λ z. z ∷ s) (==→eq c ch hit), refl, omega arith))
  | inr miss ↦
      let (r, e, w) = strchr_loop-First fuel m (p + 1) s ch lt h.2 (omega arith) in
      (r, ground arith, First-cons p c ch r s (==→ne c ch miss) w)
]

-- `strchr` of an ASCII byte in a string returns, given fuel for the string, a pointer to its first
-- occurrence, or NULL if it does not occur.
pub strchr-First :
    (fuel : ℕ) (m : Memory) (p : Ptr) (s : List ℕ) (ch : ℕ)
    → p ≢ null
    → ch < 128
    → IsString m p s
    → length s < fuel
    → (r : Ptr) × (strchr fuel m p ch ≡ some r) × First p s ch r
unfolding strchr
strchr-First fuel m p s ch ne lt h f =
    let (r, e, w) = strchr_loop-First fuel m p s ch lt h f in (r, ground arith, w)

strchr_loop-high :
    (fuel : ℕ) (m : Memory) (p : Ptr) (s : List ℕ) (ch : ℕ)
    → 128 ≤ ch
    → IsString m p s
    → length s < fuel
    → strchr_loop fuel m p ch ≡ some null
unfolding strchr_loop
strchr_loop-high zero m p s ch hi h f = absurd (omega arith)
strchr_loop-high (suc fuel) m p [] ch hi h f = ground arith
strchr_loop-high (suc fuel) m p (c ∷ s) ch hi h f =
    ground (arith, strchr_loop-high fuel m (p + 1) s ch)

-- `strchr` of a byte from 128 on returns NULL for every string, also for one that holds the byte.
pub strchr-high :
    (fuel : ℕ) (m : Memory) (p : Ptr) (s : List ℕ) (ch : ℕ)
    → p ≢ null
    → 128 ≤ ch
    → IsString m p s
    → length s < fuel
    → strchr fuel m p ch ≡ some null
unfolding strchr
strchr-high fuel m p s ch ne hi h f = ground (arith, strchr_loop-high fuel m p s ch)

Last-hit :
    (p c ch last r : ℕ) (s : List ℕ) → c ≡ ch → Last (p + 1) s ch p r → Last p (c ∷ s) ch last r
Last-hit p c ch last r s e (inl h) = inr ([], s, ap (λ z. z ∷ s) e, h.1, omega arith)
Last-hit p c ch last r s e (inr (b, a, q, n, k)) = inr (c ∷ b, a, ap (λ z. c ∷ z) q, n, omega arith)

Last-miss :
    (p c ch last r : ℕ) (s : List ℕ) → c ≢ ch → Last (p + 1) s ch last r → Last p (c ∷ s) ch last r
Last-miss p c ch last r s ne (inl h) = inl (h.0, ground arith)
Last-miss p c ch last r s ne (inr (b, a, q, n, k)) =
    inr (c ∷ b, a, ap (λ z. c ∷ z) q, n, omega arith)

strrchr_loop-Last :
    (fuel : ℕ) (m : Memory) (p : Ptr) (s : List ℕ) (ch last : ℕ)
    → ch < 128
    → IsString m p s
    → length s < fuel
    → (r : Ptr) × (strrchr_loop fuel m p ch last ≡ some r) × Last p s ch last r
unfolding strrchr_loop
strrchr_loop-Last zero m p s ch last lt h f = absurd (omega arith)
strrchr_loop-Last (suc fuel) m p [] ch last lt h f = (last, ground arith, inl (refl, refl))
strrchr_loop-Last (suc fuel) m p (c ∷ s) ch last lt h f = elim (Bool-cases (c == ch)) [
  | inl hit ↦
      let (r, e, w) = strrchr_loop-Last fuel m (p + 1) s ch p lt h.2 (omega arith) in
      (r, ground arith, Last-hit p c ch last r s (==→eq c ch hit) w)
  | inr miss ↦
      let (r, e, w) = strrchr_loop-Last fuel m (p + 1) s ch last lt h.2 (omega arith) in
      (r, ground arith, Last-miss p c ch last r s (==→ne c ch miss) w)
]

-- `strrchr` of an ASCII byte in a string returns, given fuel for the string, a pointer to its last
-- occurrence, or NULL if it does not occur.
pub strrchr-Last :
    (fuel : ℕ) (m : Memory) (p : Ptr) (s : List ℕ) (ch : ℕ)
    → p ≢ null
    → ch < 128
    → IsString m p s
    → length s < fuel
    → (r : Ptr) × (strrchr fuel m p ch ≡ some r) × Last p s ch null r
unfolding strrchr
strrchr-Last fuel m p s ch ne lt h f =
    let (r, e, w) = strrchr_loop-Last fuel m p s ch null lt h f in (r, ground arith, w)

strchrs_loop-count :
    (fuel : ℕ) (m : Memory) (p : Ptr) (s : List ℕ) (ch n : ℕ)
    → ch < 128
    → IsString m p s
    → length s < fuel
    → n + length s < 0x1_0000_0000
    → strchrs_loop fuel m p ch n ≡ some (n + count ch s)
unfolding strchrs_loop count
strchrs_loop-count zero m p s ch n lt h f b = absurd (omega arith)
strchrs_loop-count (suc fuel) m p [] ch n lt h f b = ground arith
strchrs_loop-count (suc fuel) m p (c ∷ s) ch n lt h f b = ground (
  arith,
  strchrs_loop-count fuel m (p + 1) s ch n,
  strchrs_loop-count fuel m (p + 1) s ch (n + 1),
)

-- `strchrs` of an ASCII byte in a string shorter than 2^32 returns, given fuel for the string, how
-- often the byte occurs.
pub strchrs-count :
    (fuel : ℕ) (m : Memory) (p : Ptr) (s : List ℕ) (ch : ℕ)
    → p ≢ null
    → ch < 128
    → IsString m p s
    → length s < fuel
    → length s < 0x1_0000_0000
    → strchrs fuel m p ch ≡ some (count ch s)
unfolding strchrs
strchrs-count fuel m p s ch ne lt h f b = ground (arith, strchrs_loop-count fuel m p s ch 0)
