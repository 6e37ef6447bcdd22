-- ===== src/Bitmap/Scan.antt =====
-- `bitmap_scan` of lib/kernel/bitmap.c: a first-fit search for a run of clear bits.
use jack_os.Base.{
  ℕ, zero, suc, ◌+◌, ◌-◌, ◌*◌, ◌/◌, ◌%◌, ◌<◌, ◌≤◌, ◌≡◌, sym, ◌∙◌, false≢true, ◌≢◌, inl, inr, true,
  false, Option, none, some, arith, ◌==◌, ==→eq, ==→ne, ne→==, Bool-cases, dec_lt, lt→ltb,
}
use jack_os.CString.{Memory}
use jack_os.Bitmap.{Bitmap, byte_at, u32, bitmap_scan_test, skip_full, first_clear, seek}
use jack_os.Bitmap.Bits.{first_clear_lem, bit-full}
use jack_os.Bitmap.Access.{IsBytes}

module _ (m : Memory) (b : Bitmap) where
  -- The `n` bits from `s` on are clear.
  abbrev pub FreeRun : ℕ → ℕ → Type 0
  FreeRun s n = (i : ℕ) → s ≤ i → i < s + n → bitmap_scan_test m b i ≡ false

  -- The number of bits.
  abbrev pub size : ℕ
  size = b.btmp_byte_len * 8

  -- No run of `cnt` clear bits begins below `k`.
  abbrev pub NoneBelow : ℕ → ℕ → Type 0
  NoneBelow cnt k = (s : ℕ) → s < k → ¬ FreeRun s cnt

  -- What a search for `cnt` clear bits that looks at the bits below `end` reports.
  abbrev pub Outcome : ℕ → ℕ → Option ℕ → Type 0
  Outcome cnt end none = (s : ℕ) → s + cnt ≤ end → ¬ FreeRun s cnt
  Outcome cnt end (some start) = FreeRun start cnt × (start + cnt ≤ end) × NoneBelow cnt start

  pub skip_full_lem :
      (left idx : ℕ)
      → idx + left ≡ b.btmp_byte_len
      → ((k : ℕ) → k < idx → byte_at m b k ≡ 0xff)
      → let r = skip_full m b left idx in
        (r ≤ b.btmp_byte_len)
        × ((k : ℕ) → k < r → byte_at m b k ≡ 0xff)
        × (r < b.btmp_byte_len → byte_at m b r ≢ 0xff)
  unfolding skip_full
  skip_full_lem zero idx e h = (omega arith, h, λ l. absurd (omega arith))
  skip_full_lem (suc left) idx e h = elim (Bool-cases (0xff == byte_at m b idx)) [
    | inl full ↦
        rw (full, lt→ltb idx b.btmp_byte_len (omega arith))
          (skip_full_lem left (idx + 1) (omega arith) λ k l. ground (arith, h k))
    | inr part ↦ rw part (omega arith, h, λ l e. ground arith)
  ]

  pub used-byte : (i : ℕ) → byte_at m b (i / 8) ≡ 0xff → bitmap_scan_test m b i ≡ true
  unfolding bitmap_scan_test
  used-byte i h = rw h (bit-full (i % 8) (omega arith))

  -- The lowest clear bit: the byte that is not full, and its lowest clear bit.
  pub lowest :
      (r : ℕ)
      → IsBytes m
      → ((k : ℕ) → k < r → byte_at m b k ≡ 0xff)
      → byte_at m b r ≢ 0xff
      → let i = first_clear (byte_at m b r) 8 0 in
        (i < 8)
        × (bitmap_scan_test m b (r * 8 + i) ≡ false)
        × ((j : ℕ) → j < r * 8 + i → bitmap_scan_test m b j ≡ true)
  unfolding bitmap_scan_test
  lowest r bytes full part =
      let x = byte_at m b r in
      let i = first_clear x 8 0 in
      let (lt, clear, below) = first_clear_lem x (bytes (b.bits + r)) part in
      let d : (r * 8 + i) / 8 ≡ r = omega arith in
      let o : (r * 8 + i) % 8 ≡ i = omega arith in
      (
        lt,
        rw (d, o) clear,
        λ j h. elim (dec_lt (j / 8) r) [
          | yes p ↦ used-byte j (full (j / 8) p)
          | no p ↦ let q : j / 8 ≡ r = omega arith in rw q (below (j % 8) (omega arith))
        ],
      )

  -- What the third loop knows: `count` clear bits stand right below `next`, and no longer run is open.
  pub record Seeking (cnt next count : ℕ) : Type 0 where
    pub short : count < cnt
    pub inside : count ≤ next
    pub open_run : FreeRun (next - count) count
    pub before : NoneBelow cnt (next - count)

  Seeking-used :
      (cnt next count : ℕ)
      → bitmap_scan_test m b next ≡ true
      → Seeking cnt next count
      → Seeking cnt (next + 1) 0
  Seeking-used cnt next count used k = record {
    short = omega (arith, k.short);
    inside = omega arith;
    open_run = λ i l r. absurd (omega arith);
    before = λ s l run. elim (dec_lt s (next - count)) [
      | yes p ↦ k.before s p run
      | no p ↦
          false≢true
            (sym (run next (omega (arith, k.inside)) (omega (arith, k.short, k.inside))) ∙ used)
    ];
  }

  free-extend :
      (next count : ℕ)
      → count ≤ next
      → bitmap_scan_test m b next ≡ false
      → FreeRun (next - count) count
      → FreeRun (next - count) (count + 1)
  free-extend next count le free run i l r = elim (dec_lt i next) [
    | yes p ↦ run i l (omega arith)
    | no p ↦ let q : i ≡ next = omega arith in rw q free
  ]

  Seeking-free :
      (cnt next count : ℕ)
      → bitmap_scan_test m b next ≡ false
      → count + 1 ≢ cnt
      → Seeking cnt next count
      → Seeking cnt (next + 1) (count + 1)
  Seeking-free cnt next count free ne k =
      let e : next + 1 - (count + 1) ≡ next - count = omega arith in
      record {
        short = omega (arith, k.short);
        inside = omega (arith, k.inside);
        open_run = rw e (free-extend next count k.inside free k.open_run);
        before = rw e k.before;
      }

  module _ (cnt end : ℕ) (pos : 0 < cnt) (few : end < 0x1_0000_0000) where
    pub seek-Outcome :
        (left next count : ℕ)
        → next + left ≡ end
        → Seeking cnt next count
        → Outcome cnt end (seek m b cnt left next count)
    unfolding seek
    seek-Outcome zero next count e k = λ s l run. elim (dec_lt s (next - count)) [
      | yes p ↦ k.before s p run
      | no p ↦ absurd (omega (arith, k.short, k.inside))
    ]
    seek-Outcome (suc left) next count e k = elim (Bool-cases (bitmap_scan_test m b next)) [
      | inl used ↦
          let ne : 0 ≢ cnt = omega arith in
          let n : u32 (next + 1) ≡ next + 1 = omega arith in
          rw (used, ne→== 0 cnt ne, n)
            (seek-Outcome left (next + 1) 0 (omega arith) (Seeking-used cnt next count used k))
      | inr free ↦
          let c : u32 (count + 1) ≡ count + 1 = omega (arith, k.inside) in
          let n : u32 (next + 1) ≡ next + 1 = omega arith in
          elim (Bool-cases (count + 1 == cnt)) [
            | inl hit ↦
                let q = ==→eq (count + 1) cnt hit in
                let r : u32 (next + 0x1_0000_0000 - cnt + 1) ≡ next - count =
                  omega (arith, k.inside) in
                rw (free, c, hit, r)
                  (
                    rw (← q) (free-extend next count k.inside free k.open_run),
                    omega (arith, k.inside),
                    k.before,
                  )
            | inr miss ↦
                rw (free, c, miss, n)
                  (seek-Outcome left (next + 1) (count + 1) (omega arith)
                    (Seeking-free cnt next count free (==→ne (count + 1) cnt miss) k))
          ]
    ]
