-- ===== src/CString.antt =====
-- lib/string.c over a flat memory. `memset`, `memcpy` and `memcmp` count down their size; the
-- functions on terminated strings run on fuel, a bound on the bytes that they walk over. `none` is
-- an `assert` that failed, or fuel that ran out.
pub mod Block
pub mod Text
pub mod Copy
pub mod Compare
pub mod Find
mod Tests
use jack_os.Base.{
  ℕ, zero, suc, ◌+◌, ◌-◌, ◌%◌, Bool, true, false, not, ◌&&◌, Option, none, some, ltb, ◌==◌,
  if◌then◌else◌, update, assert, ◌>>=◌, ◌>>◌,
}

-- The byte at each address.
abbrev pub Memory : Type 0
Memory = ℕ → ℕ

abbrev pub Ptr : Type 0
Ptr = ℕ

abbrev pub null : Ptr
null = 0

memset_loop : Memory → Ptr → ℕ → ℕ → Memory
memset_loop m dst value zero = m
memset_loop m dst value (suc size) = memset_loop (update m dst value) (dst + 1) value size

-- `value` is a `uint8_t`.
unfoldable pub memset : Memory → Ptr → ℕ → ℕ → Option Memory
unfolding memset_loop
memset m dst value size = do assert (not (dst == null)); some (memset_loop m dst (value % 256) size)

memcpy_loop : Memory → Ptr → Ptr → ℕ → Memory
memcpy_loop m dst src zero = m
memcpy_loop m dst src (suc size) = memcpy_loop (update m dst (m src)) (dst + 1) (src + 1) size

unfoldable pub memcpy : Memory → Ptr → Ptr → ℕ → Option Memory
unfolding memcpy_loop
memcpy m dst src size = do
  assert (not (dst == null) && not (src == null))
  some (memcpy_loop m dst src size)

-- The results -1, 0 and 1 of a comparison.
pub data Sign : Type 0 where
  negative same positive : Sign

-- `*a < *b` for the signed type `char`: 128 to 255 stand for -128 to -1.
abbrev pub char_lt : ℕ → ℕ → Bool
char_lt a b = ltb ((a + 128) % 256) ((b + 128) % 256)

memcmp_loop : Memory → Ptr → Ptr → ℕ → Sign
memcmp_loop m a b zero = same
memcmp_loop m a b (suc size) =
    let rest = memcmp_loop m (a + 1) (b + 1) size in
    if not (m a == m b) then (if char_lt (m b) (m a) then positive else negative) else rest

unfoldable pub memcmp : Memory → Ptr → Ptr → ℕ → Option Sign
unfolding memcmp_loop
memcmp m a b size = do assert (not (a == null) && not (b == null)); some (memcmp_loop m a b size)

strcpy_loop : ℕ → Memory → Ptr → Ptr → Option Memory
strcpy_loop zero m des src = none
strcpy_loop (suc fuel) m des src =
    let m' = update m des (m src) in
    let rest = strcpy_loop fuel m' (des + 1) (src + 1) in if m src == 0 then some m' else rest

-- The memory afterwards; the function returns `des`.
unfoldable pub strcpy : ℕ → Memory → Ptr → Ptr → Option Memory
unfolding strcpy_loop
strcpy fuel m des src = do
  assert (not (des == null) && not (src == null))
  strcpy_loop fuel m des src

-- `while (*p++);`: the pointer behind the terminating byte.
pub walk : ℕ → Memory → Ptr → Option Ptr
walk zero m p = none
walk (suc fuel) m p = let rest = walk fuel m (p + 1) in if m p == 0 then some (p + 1) else rest

unfoldable pub strlen : ℕ → Memory → Ptr → Option ℕ
unfolding walk
strlen fuel m str = do assert (not (str == null)); p ← walk fuel m str; some (p - str - 1)

strcmp_loop : ℕ → Memory → Ptr → Ptr → Option Sign
strcmp_loop zero m a b = none
strcmp_loop (suc fuel) m a b =
    let rest = strcmp_loop fuel m (a + 1) (b + 1) in
    if not (m a == 0) && (m a == m b)
    then rest
    else some
        (if char_lt (m a) (m b) then negative else (if char_lt (m b) (m a) then positive else same))

unfoldable pub strcmp : ℕ → Memory → Ptr → Ptr → Option Sign
unfolding strcmp_loop
strcmp fuel m a b = do assert (not (a == null) && not (b == null)); strcmp_loop fuel m a b

unfoldable pub strcat : ℕ → Memory → Ptr → Ptr → Option Memory
unfolding walk strcpy_loop
strcat fuel m dst src = do
  assert (not (dst == null) && not (src == null))
  str ← walk fuel m dst
  strcpy_loop fuel m (str - 1) src

-- `*str == ch` where `*str` is a signed `char` and `ch` a `uint8_t`: both are promoted to `int`, so
-- a byte from 128 on is negative and equals no `ch`.
abbrev pub char_eq : ℕ → ℕ → Bool
char_eq c ch = ltb c 128 && (c == ch)

strchr_loop : ℕ → Memory → Ptr → ℕ → Option Ptr
strchr_loop zero m str ch = none
strchr_loop (suc fuel) m str ch =
    let rest = strchr_loop fuel m (str + 1) ch in
    if m str == 0 then some null else (if char_eq (m str) ch then some str else rest)

unfoldable pub strchr : ℕ → Memory → Ptr → ℕ → Option Ptr
unfolding strchr_loop
strchr fuel m str ch = do assert (not (str == null)); strchr_loop fuel m str ch

strrchr_loop : ℕ → Memory → Ptr → ℕ → Ptr → Option Ptr
strrchr_loop zero m str ch last_char = none
strrchr_loop (suc fuel) m str ch last_char =
    let rest = strrchr_loop fuel m (str + 1) ch (if char_eq (m str) ch then str else last_char) in
    if m str == 0 then some last_char else rest

unfoldable pub strrchr : ℕ → Memory → Ptr → ℕ → Option Ptr
unfolding strrchr_loop
strrchr fuel m str ch = do assert (not (str == null)); strrchr_loop fuel m str ch null

-- `ch_cnt` is a `uint32_t`.
strchrs_loop : ℕ → Memory → Ptr → ℕ → ℕ → Option ℕ
strchrs_loop zero m p ch ch_cnt = none
strchrs_loop (suc fuel) m p ch ch_cnt =
    let rest =
      strchrs_loop fuel m (p + 1) ch
        (if char_eq (m p) ch then (ch_cnt + 1) % 0x1_0000_0000 else ch_cnt) in
    if m p == 0 then some ch_cnt else rest

unfoldable pub strchrs : ℕ → Memory → Ptr → ℕ → Option ℕ
unfolding strchrs_loop
strchrs fuel m str ch = do assert (not (str == null)); strchrs_loop fuel m str ch 0
