-- ===== src/Memory/Marks.antt =====
-- A run of bits of a bitmap that `vaddr_get` of kernel/memory.c sets.
use jack_os.Base.{
  ℕ, zero, suc, ◌+◌, ◌<◌, ◌≤◌, ◌≡◌, ◌⊎◌, inr, refl, ◌∙◌, Bool, ◌||◌, ◌&&◌, some, arith, ltb, leb,
}
use jack_os.CString.{Memory, Ptr}
use jack_os.Bitmap.{Bitmap, bitmap_scan_test}
use jack_os.Bitmap.Access.{IsBytes, bitmap_set_lem}
use jack_os.Bitmap.Scan.{size}
use jack_os.Memory.Virtual.{set_bits}

-- Bit `i` is one of the `n` from `start` on.
abbrev pub in_run : ℕ → ℕ → ℕ → Bool
in_run start n i = leb start i && ltb i (start + n)

-- What `set_bits` to 1 does.
pub record IsMarked (b : Bitmap) (start n : ℕ) (m m' : Memory) : Type 0 where
  pub bytes : IsBytes m'
  pub marks : (i : ℕ) → bitmap_scan_test m' b i ≡ (in_run start n i || bitmap_scan_test m b i)
  pub frame : (a : Ptr) → (a < b.bits) ⊎ (b.bits + b.btmp_byte_len ≤ a) → m' a ≡ m a

pub set_bits_lem :
    (n : ℕ) (m : Memory) (b : Bitmap) (start : ℕ)
    → IsBytes m
    → start + n ≤ size m b
    → (m' : Memory) × (set_bits n m b start 1 ≡ some m') × IsMarked b start n m m'
unfolding set_bits
set_bits_lem zero m b start ok top =
    (m, refl, record { bytes = ok; marks = λ i. ground arith; frame = λ a out. refl })
set_bits_lem (suc n) m b start ok top =
    let (m₁, e, bytes, marks, frame) = bitmap_set_lem m b start 1 ok (inr refl) in
    let (m', e', rest) = set_bits_lem n m₁ b (start + 1) bytes (omega arith) in
    (
      m',
      rw (set_bits, e) e',
      record {
        bytes = rest.bytes;
        marks = λ i. ground (arith, rest.marks i, marks i);
        frame = λ a out. rest.frame a out ∙ frame a (λ q. ground arith);
      },
    )
