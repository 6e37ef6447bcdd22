-- ===== src/Bitmap/Alloc.antt =====
-- Taking one bit of a bitmap, as the pools of pages and of process ids do: `bitmap_scan` for one bit,
-- then `bitmap_set` of the bit found.
use jack_os.Base.{
  ℕ, ◌+◌, ◌*◌, ◌/◌, ◌<◌, ◌≡◌, refl, ◌≢◌, ◌⊎◌, inl, inr, true, false, none, some, arith, ◌==◌, ◌||◌,
  Bool-cases,
}
use jack_os.CString.{Memory, Ptr}
use jack_os.Bitmap.{Bitmap, bitmap_scan_test, bitmap_scan, bitmap_set}
use jack_os.Bitmap.Access.{IsBytes, bitmap_set_lem}
use jack_os.Bitmap.Scan.{size, FreeRun}
use jack_os.Bitmap.FirstFit.{bitmap_scan_lem, scan_some-clear}

-- What holds of bit `i` of the bitmap and of the memory in which it has been taken.
pub record IsTaken (m : Memory) (b : Bitmap) (i : ℕ) (m' : Memory) : Type 0 where
  pub inside : i < size m b
  pub clear : bitmap_scan_test m b i ≡ false
  pub lowest : (j : ℕ) → j < i → bitmap_scan_test m b j ≡ true
  pub marks : (j : ℕ) → bitmap_scan_test m' b j ≡ ((i == j) || bitmap_scan_test m b j)
  pub bytes : IsBytes m'
  pub frame : (a : Ptr) → a ≢ b.bits + i / 8 → m' a ≡ m a

module _ (m : Memory) (b : Bitmap) (ok : IsBytes m)
    (small : b.btmp_byte_len * 8 < 0x8000_0000) where
  one_free : (i : ℕ) → bitmap_scan_test m b i ≡ false → FreeRun m b i 1
  one_free i f j l r = let q : j ≡ i = omega arith in rw q f

  -- Either every bit is set, and the search panics, or the lowest clear bit is found and set.
  pub take_bit_lem :
      ((bitmap_scan m b 1 ≡ none) × ((i : ℕ) → i < size m b → bitmap_scan_test m b i ≡ true))
      ⊎ ((i : ℕ) × (m' : Memory) × (bitmap_scan m b 1 ≡ some (some i))
          × (bitmap_set m b i 1 ≡ some m')
          × IsTaken m b i m')
  take_bit_lem = elim (bitmap_scan_lem m b 1 ok (omega arith) small) [
    | inl full ↦ inl full
    | inr (none, e, out) ↦
        let (i, lt, clear) = scan_some-clear m b 1 ok (omega arith) small none e in
        absurd (out i (omega arith) (one_free i clear))
    | inr (some i, e, out) ↦
        let (run, top, below) = out in
        let (m', w, bytes, marks, frame) = bitmap_set_lem m b i 1 ok (inr refl) in
        inr (
          i,
          m',
          e,
          w,
          record {
            inside = omega arith;
            clear = run i (omega arith) (omega arith);
            lowest = λ j l. elim (Bool-cases (bitmap_scan_test m b j)) [
              | inl s ↦ s
              | inr f ↦ absurd (below j l (one_free j f))
            ];
            marks = λ j. ground (arith, marks j);
            bytes = bytes;
            frame = frame;
          },
        )
  ]
