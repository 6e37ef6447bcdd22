-- ===== src/Fs/Layout/Bits.antt =====
-- The block bitmap that `partition_format` of fs/fs.c writes.
use Prim.Native.Nat.{bit_and}
use jack_os.Base.{
  ℕ, zero, suc, ◌+◌, ◌-◌, ◌*◌, ◌/◌, ◌%◌, ◌^◌, ◌<◌, ◌≤◌, ◌≡◌, refl, true, false, ◌&&◌, ◌||◌, inl,
  inr, arith, ltb, leb, ◌==◌, if◌then◌else◌, Bool-cases,
}
use jack_os.Bitmap.Bits.{bit, clear_bit, bit-full, upto, upto-apply, eqb, eqb→eq}
use jack_os.Fs.Layout.{clear_bits, filled_byte, format_bitmap}

clear_bits_lem :
    (left byte from j : ℕ)
    → byte < 256
    → from + left ≤ 8
    → j < 8
    → bit (clear_bits byte from left) j
      ≡ (if leb from j && ltb j (from + left) then false else bit byte j)
unfolding clear_bits
clear_bits_lem zero byte from j h top hj = ground arith
clear_bits_lem (suc left) byte from j h top hj =
    let (small, now) = clear_bit byte from j h (omega arith) hj in
    rw
      (clear_bits_lem left (bit_and byte (0xffff_ffff - 2 ^ from)) (from + 1) j small (omega arith)
        hj)
      (ground (arith, now))

low_bytes :
    (upto (λ j. eqb (bit 1 j) (j == 0)) 7 ≡ true) × (upto (λ j. eqb (bit 0 j) false) 7 ≡ true)
unfolding upto
low_bytes = (refl, refl)

bit_one : (j : ℕ) → j < 8 → bit 1 j ≡ (j == 0)
bit_one j h = eqb→eq _ _ (upto-apply (λ j. eqb (bit 1 j) (j == 0)) 7 low_bytes.0 j (omega arith))

bit_zero : (j : ℕ) → j < 8 → bit 0 j ≡ false
bit_zero j h = eqb→eq _ _ (upto-apply (λ j. eqb (bit 0 j) false) 7 low_bytes.1 j (omega arith))

-- The first bit that is not in the sector of the last byte.
abbrev pub bitmap_end : ℕ → ℕ
bitmap_end bit_len = (bit_len / 8 / 512 + 1) * 4096

-- In the block bitmap of a new file system of at least 8 blocks, the block of the root directory is
-- taken and so are the numbers behind `block_bitmap_bit_len`, up to the end of the sector. The number
-- `block_bitmap_bit_len`, which is no block, is free as the blocks are.
pub format_bitmap_lem :
    (bit_len i : ℕ)
    → 8 ≤ bit_len
    → bit (format_bitmap bit_len (i / 8)) (i % 8)
      ≡ ((i == 0) || (ltb bit_len i && ltb i (bitmap_end bit_len)))
unfolding format_bitmap
format_bitmap_lem bit_len i big =
    let j = i % 8 in
    let k = i / 8 in
    elim (Bool-cases (k == bit_len / 8)) [
      | inl here ↦
          let full : filled_byte bit_len k ≡ 0xff = ground arith in
          rw
            (
              here,
              full,
              clear_bits_lem (bit_len % 8 + 1) 0xff 0 j (omega arith) (omega arith) (omega arith),
              bit-full j (omega arith),
            )
            (ground arith)
      | inr there ↦ rw there (elim (Bool-cases (ltb bit_len i && ltb i (bitmap_end bit_len))) [
        | inl out ↦
            let full : filled_byte bit_len k ≡ 0xff = ground arith in
            rw (full, bit-full j (omega arith), out) (ground arith)
        | inr inside ↦
            let plain : filled_byte bit_len k ≡ (if k == 0 then 1 else 0) = ground arith in
            rw (plain, inside)
              (elim (Bool-cases (k == 0)) [
                | inl first ↦ rw (first, bit_one j (omega arith)) (ground arith)
                | inr other ↦ rw (other, bit_zero j (omega arith)) (ground arith)
              ])
      ])
    ]
