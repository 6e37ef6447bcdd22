-- ===== src/Bitmap/FirstFit.antt =====
-- What `bitmap_scan` of lib/kernel/bitmap.c returns, and where it looks past the end.
use jack_os.Base.{
  ℕ, ◌+◌, ◌-◌, ◌*◌, ◌/◌, ◌<◌, ◌≤◌, ◌≡◌, refl, sym, ◌∙◌, false≢true, ap, ◌≢◌, ◌⊎◌, inl, inr, true,
  false, Option, none, some, arith, ◌==◌, if◌then◌else◌, ==→eq, ==→ne, ne→==, Bool-cases, dec_lt,
  lt→ltb, le→ltb,
}
use jack_os.CString.{Memory}
use jack_os.Bitmap.{
  Bitmap, byte_at, u32, bitmap_scan_test, skip_full, first_clear, scan_from, bitmap_scan,
}
use jack_os.Bitmap.Access.{IsBytes}
use jack_os.Bitmap.Scan.{
  FreeRun, size, NoneBelow, Outcome, skip_full_lem, used-byte, lowest, Seeking, seek-Outcome,
}

-- The search for one bit looks at the bitmap, that for more at one bit behind it too.
abbrev pub limit : Bitmap → ℕ → ℕ
limit b cnt = b.btmp_byte_len * 8 + (if cnt == 1 then 0 else 1)

module _ (m : Memory) (b : Bitmap) (cnt : ℕ) (bytes : IsBytes m) (pos : 0 < cnt)
    (small : b.btmp_byte_len * 8 < 0x8000_0000) where
  abbrev part : ℕ
  part = skip_full m b b.btmp_byte_len 0

  abbrev first : ℕ
  first = part * 8 + first_clear (byte_at m b part) 8 0

  scan_full :
      b.btmp_byte_len ≤ part
      → (bitmap_scan m b cnt ≡ none) × ((i : ℕ) → i < size m b → bitmap_scan_test m b i ≡ true)
  unfolding bitmap_scan
  scan_full le =
      let (top, full, rest) =
        skip_full_lem m b b.btmp_byte_len 0 (omega arith) (λ k l. absurd (omega arith)) in
      (
        rw (le→ltb part b.btmp_byte_len le) refl,
        λ i l. used-byte m b i (full (i / 8) (omega arith)),
      )

  scan_from-Outcome :
      (start : ℕ)
      → start < size m b
      → bitmap_scan_test m b start ≡ false
      → ((j : ℕ) → j < start → bitmap_scan_test m b j ≡ true)
      → Outcome m b cnt (limit b cnt) (scan_from m b cnt start)
  unfolding scan_from
  scan_from-Outcome start lt clear below = elim (Bool-cases (cnt == 1)) [
    | inl one ↦ rw one (run one, omega (arith, ==→eq cnt 1 one), before)
    | inr more ↦
        let l : u32 (b.btmp_byte_len * 8 + 0x1_0000_0000 - start) ≡ size m b - start =
          omega arith in
        let n : u32 (start + 1) ≡ start + 1 = omega arith in
        rw (more, l, n)
          (seek-Outcome m b cnt (size m b + 1) pos (omega arith) (size m b - start) (start + 1) 1
            (omega arith) (seeking (==→ne cnt 1 more)))
  ]
    where
      at_start : FreeRun m b start 1
      at_start i l r = let q : i ≡ start = omega arith in rw q clear

      run : (cnt == 1) ≡ true → FreeRun m b start cnt
      run e = rw (==→eq cnt 1 e) at_start

      before : NoneBelow m b cnt start
      before s l free = false≢true (sym (free s (omega arith) (omega arith)) ∙ below s l)

      seeking : cnt ≢ 1 → Seeking m b cnt (start + 1) 1
      seeking ne =
          let e : start + 1 - 1 ≡ start = omega arith in
          record {
            short = omega arith;
            inside = omega arith;
            open_run = rw e at_start;
            before = rw e before;
          }

  scan_part :
      part < b.btmp_byte_len
      → (r : Option ℕ) × (bitmap_scan m b cnt ≡ some r) × Outcome m b cnt (limit b cnt) r
  unfolding bitmap_scan
  scan_part lt =
      let (top, full, rest) =
        skip_full_lem m b b.btmp_byte_len 0 (omega arith) (λ k l. absurd (omega arith)) in
      let (bit, clear, below) = lowest m b part bytes full (rest lt) in
      let e : u32 first ≡ first = omega arith in
      (
        scan_from m b cnt first,
        rw (lt→ltb part b.btmp_byte_len lt, ne→== part b.btmp_byte_len (omega arith), e) refl,
        scan_from-Outcome first (omega arith) clear below,
      )

  -- A search that returns has met a clear bit.
  pub scan_some-clear :
      (r : Option ℕ)
      → bitmap_scan m b cnt ≡ some r
      → (i : ℕ) × (i < size m b) × (bitmap_scan_test m b i ≡ false)
  scan_some-clear r e = elim (dec_lt part b.btmp_byte_len) [
    | yes lt ↦
        let (top, full, rest) =
          skip_full_lem m b b.btmp_byte_len 0 (omega arith) (λ k l. absurd (omega arith)) in
        let (bit, clear, below) = lowest m b part bytes full (rest lt) in
        (first, omega arith, clear)
    | no ge ↦ let (panic, all) = scan_full (omega arith) in cc
  ]

-- `bitmap_scan` for `cnt` > 0 bits in a bitmap of fewer than 2^31 bits does one of two things. If
-- every bit is set it panics. Else it returns: a start, which is the lowest from which `cnt` clear
-- bits run, or -1, and then no such run exists. The bits that it goes by are those of the bitmap and,
-- if `cnt` is not 1, the bit behind its end.
pub bitmap_scan_lem :
    (m : Memory) (b : Bitmap) (cnt : ℕ)
    → IsBytes m
    → 0 < cnt
    → b.btmp_byte_len * 8 < 0x8000_0000
    → ((bitmap_scan m b cnt ≡ none) × ((i : ℕ) → i < size m b → bitmap_scan_test m b i ≡ true))
      ⊎ ((r : Option ℕ) × (bitmap_scan m b cnt ≡ some r) × Outcome m b cnt (limit b cnt) r)
bitmap_scan_lem m b cnt bytes pos small =
    elim (dec_lt (skip_full m b b.btmp_byte_len 0) b.btmp_byte_len) [
      | yes lt ↦ inr (scan_part m b cnt bytes pos small lt)
      | no ge ↦ inl (scan_full m b cnt bytes pos small (omega arith))
    ]

-- A run that ends behind the bitmap: where the last bit of a bitmap is its only clear bit, and the
-- lowest bit of the byte behind it is clear, a search for two bits returns the last bit.
pub bitmap_scan_past_end :
    (m : Memory) (b : Bitmap)
    → IsBytes m
    → 0 < b.btmp_byte_len
    → b.btmp_byte_len * 8 < 0x8000_0000
    → ((i : ℕ) → i < size m b - 1 → bitmap_scan_test m b i ≡ true)
    → bitmap_scan_test m b (size m b - 1) ≡ false
    → bitmap_scan_test m b (size m b) ≡ false
    → bitmap_scan m b 2 ≡ some (some (size m b - 1))
bitmap_scan_past_end m b bytes pos small used last behind =
    elim (bitmap_scan_lem m b 2 bytes (omega arith) small) [
      | inl (e, all) ↦ absurd (false≢true (sym last ∙ all (size m b - 1) (omega arith)))
      | inr (none, e, out) ↦ absurd (out (size m b - 1) (omega arith) two)
      | inr (some s, e, out) ↦ e ∙ ap (λ k. some (some k)) (at s out)
    ]
  where
    two : FreeRun m b (size m b - 1) 2
    two i l r = elim (dec_lt i (size m b)) [
      | yes p ↦ let q : i ≡ size m b - 1 = omega arith in rw q last
      | no p ↦ let q : i ≡ size m b = omega arith in rw q behind
    ]

    at : (s : ℕ) → Outcome m b 2 (limit b 2) (some s) → s ≡ size m b - 1
    at s (free, top, below) = elim (dec_lt s (size m b - 1)) [
      | yes p ↦ absurd (false≢true (sym (free s (omega arith) (omega arith)) ∙ used s p))
      | no p ↦ omega arith
    ]
