-- ===== src/Bitmap.antt =====
-- lib/kernel/bitmap.c over a flat memory. `none` is an ASSERT that failed. A bit number and a count
-- are `uint32_t`; the result -1 of `bitmap_scan` is `none`, inside the `some` of a call that returns.
pub mod Bits
pub mod Access
pub mod Scan
pub mod FirstFit
pub mod Alloc
mod Tests
use Prim.Native.Nat.{bit_and, bit_or}
use jack_os.Base.{
  ℕ, zero, suc, ◌+◌, ◌-◌, ◌*◌, ◌/◌, ◌%◌, ◌^◌, Bool, true, false, not, ◌&&◌, ◌||◌, Option, none,
  some, ltb, ◌==◌, if◌then◌else◌, update, assert, ◌>>=◌, ◌>>◌,
}
use jack_os.CString.{Memory, Ptr, memset}

pub record Bitmap : Type 0 where
  pub btmp_byte_len : ℕ
  pub bits : Ptr

-- `bits[byte_idx]`
abbrev pub byte_at : Memory → Bitmap → ℕ → ℕ
byte_at m b byte_idx = m (b.bits + byte_idx)

-- The wrap-around of `uint32_t`.
abbrev pub u32 : ℕ → ℕ
u32 n = n % 0x1_0000_0000

unfoldable pub bitmap_init : Memory → Bitmap → Option Memory
unfolding memset
bitmap_init m b = memset m b.bits 0 b.btmp_byte_len

unfoldable pub bitmap_scan_test : Memory → Bitmap → ℕ → Bool
bitmap_scan_test m b bit_idx =
    let byte_idx = bit_idx / 8 in
    let bit_odd = bit_idx % 8 in not (bit_and (byte_at m b byte_idx) (2 ^ bit_odd) == 0)

-- The first loop of `bitmap_scan`, with the rounds that the test of `idx_byte` leaves.
unfoldable pub skip_full : Memory → Bitmap → ℕ → ℕ → ℕ
skip_full m b zero idx_byte = idx_byte
skip_full m b (suc left) idx_byte =
    let rest = skip_full m b left (idx_byte + 1) in
    if (0xff == byte_at m b idx_byte) && ltb idx_byte b.btmp_byte_len then rest else idx_byte

-- The second loop. At `idx_bit` 8 the mask, cut to a byte, is 0.
unfoldable pub first_clear : ℕ → ℕ → ℕ → ℕ
first_clear byte zero idx_bit = idx_bit
first_clear byte (suc left) idx_bit =
    let rest = first_clear byte left (idx_bit + 1) in
    if not (bit_and (2 ^ idx_bit % 256) byte == 0) then rest else idx_bit

-- The third loop, `bit_left` counting down.
unfoldable pub seek : Memory → Bitmap → ℕ → ℕ → ℕ → ℕ → Option ℕ
seek m b cnt zero next_bit count = none
seek m b cnt (suc bit_left) next_bit count =
    let count' = if not (bitmap_scan_test m b next_bit) then u32 (count + 1) else 0 in
    let rest = seek m b cnt bit_left (u32 (next_bit + 1)) count' in
    if count' == cnt then some (u32 (next_bit + 0x1_0000_0000 - cnt + 1)) else rest

-- From the lowest clear bit on.
unfoldable pub scan_from : Memory → Bitmap → ℕ → ℕ → Option ℕ
scan_from m b cnt bit_idx_start =
    let bit_left = u32 (b.btmp_byte_len * 8 + 0x1_0000_0000 - bit_idx_start) in
    let found = seek m b cnt bit_left (u32 (bit_idx_start + 1)) 1 in
    if cnt == 1 then some bit_idx_start else found

unfoldable pub bitmap_scan : Memory → Bitmap → ℕ → Option (Option ℕ)
bitmap_scan m b cnt = do
  let idx_byte = skip_full m b b.btmp_byte_len 0
  assert (ltb idx_byte b.btmp_byte_len)
  let idx_bit = first_clear (byte_at m b idx_byte) 8 0
  some (
      if idx_byte == b.btmp_byte_len
      then none
      else scan_from m b cnt (u32 (idx_byte * 8 + idx_bit)))

-- `value` is 0 or 1; `~(BITMAP_MASK << bit_odd)` is an `int`, of which `&=` keeps the byte.
unfoldable pub bitmap_set : Memory → Bitmap → ℕ → ℕ → Option Memory
bitmap_set m b bit_idx value = do
  assert ((value == 1) || (value == 0))
  let byte_idx = bit_idx / 8
  let bit_odd = bit_idx % 8
  let byte = byte_at m b byte_idx
  some (
      update m (b.bits + byte_idx) (
        if not (value == 0)
        then bit_or byte (2 ^ bit_odd)
        else bit_and byte (0xffff_ffff - 2 ^ bit_odd)))
