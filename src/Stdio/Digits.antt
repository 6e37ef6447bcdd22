-- ===== src/Stdio/Digits.antt =====
-- `itoa` of lib/stdio.c against the number that digits stand for.
use jack_os.Base.{
  ℕ, zero, suc, ◌+◌, ◌-◌, ◌*◌, ◌<◌, ◌≤◌, ◌≡◌, ◌⊎◌, Bool, true, ◌&&◌, ◌||◌, leb, ltb, if◌then◌else◌,
}
use jack_os.CString.{Memory, Ptr}

-- The characters of digits: `0` to `9`, and `A` to `Z`.
abbrev pub is_digit : ℕ → Bool
is_digit c = (leb 48 c && leb c 57) || (leb 65 c && leb c 90)

-- The number that a character stands for as a digit.
abbrev pub digit_value : ℕ → ℕ
digit_value c = if ltb c 65 then c - 48 else c - 55

-- The number that the `k` characters at `p` stand for in a base.
unfoldable pub number_at : ℕ → Memory → Ptr → ℕ → ℕ
number_at base m p zero = 0
number_at base m p (suc k) = number_at base m p k * base + digit_value (m (p + k))

-- `k` characters at `buf` are the digits of a value, without a 0 before them, and nothing else changed.
pub record IsPrinted (base value : ℕ) (m : Memory) (buf : Ptr) (m' : Memory) (k : ℕ) : Type 0 where
  some_digit : 0 < k
  digits : number_at base m' buf k ≡ value
  in_base : (j : ℕ) → j < k → (is_digit (m' (buf + j)) ≡ true) × (digit_value (m' (buf + j)) < base)
  no_zero : m' buf ≡ 48 → value ≡ 0
  frame : (a : ℕ) → (a < buf) ⊎ (buf + k ≤ a) → m' a ≡ m a
