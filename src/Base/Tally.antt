-- ===== src/Base/Tally.antt =====
-- How many of the numbers below a bound pass a test.
use Prim.Native.Nat.{ℕ, zero, suc, ◌+◌, ◌<◌, ◌≤◌}
use mathlib.Core.Path.{◌≡◌, refl}
use mathlib.Core.Logic.{◌≢◌, inl, inr}
use mathlib.Core.Bool.{Bool, true, false}
use native.Mathlib.Omega.{arith}
use jack_os.Base.Tests.{◌==◌, if◌then◌else◌, ==→eq, ==→ne, Bool-cases}

abbrev pub tally : ℕ → (ℕ → Bool) → ℕ
tally zero f = 0
tally (suc n) f = tally n f + (if f n then 1 else 0)

pub tally-le : (n : ℕ) (f : ℕ → Bool) → tally n f ≤ n
tally-le zero f = omega arith
tally-le (suc n) f = ground (arith, tally-le n f)

pub tally-same : (n : ℕ) (f g : ℕ → Bool) → ((j : ℕ) → j < n → f j ≡ g j) → tally n f ≡ tally n g
tally-same zero f g h = refl
tally-same (suc n) f g h = rw (tally-same n f g (λ j l. h j (omega arith)), h n (omega arith)) refl

-- One number more passes.
pub tally-one :
    (n i : ℕ) (f g : ℕ → Bool)
    → i < n
    → f i ≡ false
    → g i ≡ true
    → ((j : ℕ) → j < n → j ≢ i → f j ≡ g j)
    → tally n g ≡ tally n f + 1
tally-one zero i f g l e e' h = absurd (omega arith)
tally-one (suc n) i f g l e e' h = elim (Bool-cases (n == i)) [
  | inl q ↦
      let q = ==→eq n i q in
      let same = tally-same n f g (λ j k. h j (omega arith) (omega arith)) in
      rw (q, e, e', ← q, same) (omega arith)
  | inr q ↦
      let ne = ==→ne n i q in
      let rest = tally-one n i f g (omega arith) e e' (λ j k m. h j (omega arith) m) in
      rw (rest, h n (omega arith) ne) (omega arith)
]

-- If as many pass as there are, each does.
pub tally-full : (n : ℕ) (f : ℕ → Bool) → tally n f ≡ n → (j : ℕ) → j < n → f j ≡ true
tally-full zero f h j l = absurd (omega arith)
tally-full (suc n) f h j l =
    let le = tally-le n f in
    elim (Bool-cases (f n)) [
      | inl e ↦ elim (Bool-cases (j == n)) [
        | inl q ↦ rw (==→eq j n q) e
        | inr q ↦ let ne = ==→ne j n q in tally-full n f (ground arith) j (omega arith)
      ]
      | inr e ↦ absurd (ground arith)
    ]

pub tally-all : (n : ℕ) (f : ℕ → Bool) → ((j : ℕ) → j < n → f j ≡ true) → tally n f ≡ n
tally-all zero f h = refl
tally-all (suc n) f h =
    rw (tally-all n f (λ j l. h j (omega arith)), h n (omega arith)) (omega arith)
