-- ===== src/Bitmap/Bits.antt =====
-- The bits of one byte: what the masks of lib/kernel/bitmap.c read and write.
use Prim.Native.Nat.{bit_and, bit_or}
use jack_os.Base.{
  ℕ, zero, suc, ◌-◌, ◌^◌, ◌<◌, ◌≤◌, dec_lt, ◌≡◌, refl, sym, Bool, true, false, not, ◌&&◌, ◌||◌, ◌≢◌,
  arith, ltb, leb, ◌==◌, if◌then◌else◌,
}
use jack_os.Bitmap.{first_clear}

-- Bit `i` of a byte.
abbrev pub bit : ℕ → ℕ → Bool
bit x i = not (bit_and x (2 ^ i) == 0)

-- `p` holds of the numbers up to `k`, by evaluation.
unfoldable pub upto : (ℕ → Bool) → ℕ → Bool
upto p zero = p 0
upto p (suc k) = if p (suc k) then upto p k else false

pub upto-apply : (p : ℕ → Bool) (k : ℕ) → upto p k ≡ true → (x : ℕ) → x ≤ k → p x ≡ true
unfolding upto
upto-apply p zero h x le = let q : x ≡ 0 = omega arith in rw q h
upto-apply p (suc k) h x le = elim (dec_lt k x) [
  | yes top ↦ let q : x ≡ suc k = omega arith in rw q (ground arith)
  | no lower ↦ upto-apply p k (ground arith) x (omega arith)
]

abbrev pub eqb : Bool → Bool → Bool
eqb true c = c
eqb false c = not c

pub eqb→eq : (b c : Bool) → eqb b c ≡ true → b ≡ c
eqb→eq true c h = sym h
eqb→eq false true h = cc
eqb→eq false false h = refl

-- The two writes at a byte, a bit that is written and a bit that is read.
abbrev or_ok : ℕ → ℕ → ℕ → Bool
or_ok x i j =
    let y = bit_or x (2 ^ i) in ltb y 256 && eqb (bit y j) (if i == j then true else bit x j)

abbrev and_ok : ℕ → ℕ → ℕ → Bool
and_ok x i j =
    let y = bit_and x (0xffff_ffff - 2 ^ i) in
    ltb y 256 && eqb (bit y j) (if i == j then false else bit x j)

abbrev or_row : ℕ → ℕ → Bool
or_row x i = upto (or_ok x i) 7

abbrev or_rows : ℕ → Bool
or_rows x = upto (or_row x) 7

abbrev and_row : ℕ → ℕ → Bool
and_row x i = upto (and_ok x i) 7

abbrev and_rows : ℕ → Bool
and_rows x = upto (and_row x) 7

-- The search for the lowest clear bit of a byte that has one.
abbrev first_row : ℕ → Bool
first_row x =
    let i = first_clear x 8 0 in
    (x == 0xff) || (ltb i 8 && (not (bit x i) && upto (λ j. leb i j || bit x j) 7))

tables :
    (upto or_rows 255 ≡ true)
    × (upto and_rows 255 ≡ true)
    × (upto first_row 255 ≡ true)
    × (upto (bit 0xff) 7 ≡ true)
unfolding upto first_clear
tables = (refl, refl, refl, refl)

pub set_bit :
    (x i j : ℕ)
    → x < 256
    → i < 8
    → j < 8
    → (bit_or x (2 ^ i) < 256) × (bit (bit_or x (2 ^ i)) j ≡ (if i == j then true else bit x j))
set_bit x i j hx hi hj =
    let row =
      upto-apply (or_row x) 7 (upto-apply or_rows 255 tables.0 x (omega arith)) i (omega arith) in
    let ok = upto-apply (or_ok x i) 7 row j (omega arith) in
    (ground arith, eqb→eq _ _ (ground arith))

pub clear_bit :
    (x i j : ℕ)
    → x < 256
    → i < 8
    → j < 8
    → let y = bit_and x (0xffff_ffff - 2 ^ i) in
      (y < 256) × (bit y j ≡ (if i == j then false else bit x j))
clear_bit x i j hx hi hj =
    let row =
      upto-apply (and_row x) 7 (upto-apply and_rows 255 tables.1 x (omega arith)) i (omega arith) in
    let ok = upto-apply (and_ok x i) 7 row j (omega arith) in
    (ground arith, eqb→eq _ _ (ground arith))

pub first_clear_lem :
    (x : ℕ)
    → x < 256
    → x ≢ 0xff
    → let i = first_clear x 8 0 in (i < 8) × (bit x i ≡ false) × ((j : ℕ) → j < i → bit x j ≡ true)
first_clear_lem x hx ne =
    let row = upto-apply first_row 255 tables.2 x (omega arith) in
    let lower = λ (j : ℕ) (h : j < 8).
      upto-apply (λ j. leb (first_clear x 8 0) j || bit x j) 7 (ground arith) j (omega arith) in
    (ground arith, ground arith, λ j h. ground (arith, lower j))

pub bit-full : (i : ℕ) → i < 8 → bit 0xff i ≡ true
bit-full i h = upto-apply (bit 0xff) 7 tables.3 i (omega arith)
