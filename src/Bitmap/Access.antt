-- ===== src/Bitmap/Access.antt =====
-- `bitmap_init`, `bitmap_set` and `bitmap_scan_test` of lib/kernel/bitmap.c as the operations of a
-- sequence of bits.
use Prim.Native.Nat.{bit_and-bitwise, bit_and, bit_or}
use jack_os.Base.{
  ℕ, ◌+◌, ◌-◌, ◌*◌, ◌/◌, ◌%◌, ◌^◌, ◌<◌, ◌≤◌, ◌≡◌, refl, ◌≢◌, ◌⊎◌, inl, inr, false, not, some, arith,
  ◌==◌, if◌then◌else◌, ==→eq, Bool-cases, update, update_self,
}
use jack_os.CString.{Memory, Ptr, null}
use jack_os.CString.Block.{memset_lem}
use jack_os.Bitmap.{Bitmap, bitmap_init, bitmap_scan_test, bitmap_set}
use jack_os.Bitmap.Bits.{bit, set_bit, clear_bit}

-- Every address holds a byte.
abbrev pub IsBytes : Memory → Type 0
IsBytes m = (a : Ptr) → m a < 256

-- The byte that `bitmap_set` writes.
abbrev written : ℕ → ℕ → ℕ → ℕ
written byte i v = if not (v == 0) then bit_or byte (2 ^ i) else bit_and byte (0xffff_ffff - 2 ^ i)

written_lem :
    (x i j v : ℕ)
    → x < 256
    → i < 8
    → j < 8
    → (written x i v < 256) × (bit (written x i v) j ≡ (if i == j then not (v == 0) else bit x j))
written_lem x i j v hx hi hj = ground (arith, set_bit x i j hx hi hj, clear_bit x i j hx hi hj)

same_byte : (i j : ℕ) → i / 8 ≡ j / 8 → (i % 8 == j % 8) ≡ (i == j)
same_byte i j h = ground arith

zero-bit_and : (n : ℕ) → bit_and 0 n ≡ 0
zero-bit_and n = bit_and-bitwise 0 n

module _ (m : Memory) (b : Bitmap) (i v : ℕ) (bytes : IsBytes m) where
  abbrev at : Ptr
  at = b.bits + i / 8

  abbrev new : Memory
  new = update m at (written (m at) (i % 8) v)

  new-IsBytes : IsBytes new
  new-IsBytes a = ground (arith, bytes a, bytes at, written_lem (m at) (i % 8) 0 v)

  test-new :
      (j : ℕ) → bitmap_scan_test new b j ≡ (if i == j then not (v == 0) else bitmap_scan_test m b j)
  unfolding bitmap_scan_test
  test-new j = elim (Bool-cases (i / 8 == j / 8)) [
    | inl here ↦
        let q = ==→eq (i / 8) (j / 8) here in
        let e : new (b.bits + j / 8) ≡ written (m at) (i % 8) v =
          rw (← q) (update_self m at (written (m at) (i % 8) v)) in
        rw (e, (written_lem (m at) (i % 8) (j % 8) v (bytes at) (omega arith) (omega arith)).1)
          (rw (same_byte i j q, ← q))
    | inr there ↦
        let e : new (b.bits + j / 8) ≡ m (b.bits + j / 8) = ground arith in rw e (ground arith)
  ]

-- Writing bit `i` of a bitmap returns: the tests then see the new value at `i` and the old ones at
-- every other bit, and no byte of memory but the one with the bit is written.
pub bitmap_set_lem :
    (m : Memory) (b : Bitmap) (i v : ℕ)
    → IsBytes m
    → (v ≡ 0) ⊎ (v ≡ 1)
    → (m' : Memory) × (bitmap_set m b i v ≡ some m')
      × IsBytes m'
      × ((j : ℕ) → bitmap_scan_test m' b j ≡ (if i == j then v == 1 else bitmap_scan_test m b j))
      × ((a : Ptr) → a ≢ b.bits + i / 8 → m' a ≡ m a)
unfolding bitmap_set
bitmap_set_lem m b i v bytes bin = (
  new m b i v bytes,
  ground arith,
  new-IsBytes m b i v bytes,
  λ j. ground (arith, test-new m b i v bytes j),
  λ a ne. ground arith,
)

test-zero :
    (m : Memory) (b : Bitmap) (j : ℕ) → m (b.bits + j / 8) ≡ 0 → bitmap_scan_test m b j ≡ false
unfolding bitmap_scan_test
test-zero m b j h = rw (h, zero-bit_and) refl

-- `bitmap_init` of a bitmap that is not at NULL returns with each of its bits clear and no byte
-- outside it written.
pub bitmap_init_lem :
    (m : Memory) (b : Bitmap)
    → b.bits ≢ null
    → (m' : Memory) × (bitmap_init m b ≡ some m')
      × ((j : ℕ) → j < b.btmp_byte_len * 8 → bitmap_scan_test m' b j ≡ false)
      × ((a : Ptr) → (a < b.bits) ⊎ (b.bits + b.btmp_byte_len ≤ a) → m' a ≡ m a)
unfolding bitmap_init
bitmap_init_lem m b ne =
    let (m', e, w) = memset_lem m b.bits 0 b.btmp_byte_len ne in
    (
      m',
      e,
      λ j h. test-zero m' b j (ground (arith, w (b.bits + j / 8))),
      λ a o. ground (arith, w a),
    )
