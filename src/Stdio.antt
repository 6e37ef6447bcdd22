-- ===== src/Stdio.antt =====
-- lib/stdio.c: `itoa` and `vsprintf` over the memory of the string functions. `itoa` and the walk over
-- the format run on fuel. An argument is the word or byte that stands 4 bytes behind the last one.
pub mod Digits
mod Tests
use jack_os.Base.{
  ℕ, zero, suc, ◌+◌, ◌-◌, ◌/◌, ◌%◌, not, Option, none, some, ltb, leb, ◌==◌, if◌then◌else◌, update,
  ◌>>=◌,
}
use jack_os.CString.{Memory, Ptr, strcpy, strlen}
use jack_os.Fs.{word_at}

-- The character of a digit.
abbrev pub digit : ℕ → ℕ
digit m = if ltb m 10 then (m + 48) % 256 else (m - 10 + 65) % 256

-- The new memory, and where `*buf_ptr_addr` points afterwards.
unfoldable pub itoa : ℕ → Memory → ℕ → Ptr → ℕ → Option (Memory × Ptr)
itoa zero memory value buf base = none
itoa (suc fuel) memory value buf base =
    let higher = itoa fuel memory (value / base) buf base in
    (do
      (memory, buf) ← (if value / base == 0 then some (memory, buf) else higher)
      some (update memory buf (digit (value % base)), buf + 1))

-- The variables of `vsprintf`.
pub record FormatState : Type 0 where
  memory : Memory
  buf_ptr : Ptr
  index_ptr : Ptr
  index_char : ℕ
  ap : Ptr

-- `*(buf_ptr++) = c`
abbrev pub put_char : ℕ → FormatState → FormatState
put_char c s = record s { memory = update s.memory s.buf_ptr c; buf_ptr = s.buf_ptr + 1 }

-- `index_char = *(++index_ptr)`
abbrev pub next_char : FormatState → FormatState
next_char s = record s { index_ptr = s.index_ptr + 1; index_char = s.memory (s.index_ptr + 1) }

-- A number in a base: 32 rounds are enough for a word.
unfoldable pub put_number : ℕ → ℕ → FormatState → Option FormatState
put_number value base s = do
  (memory, buf) ← itoa 32 s.memory value s.buf_ptr base
  some (next_char (record s { memory = memory; buf_ptr = buf }))

-- `%s`; `fuel` is a bound on the string's bytes.
unfoldable pub put_string : ℕ → Ptr → FormatState → Option FormatState
put_string fuel arg_str s = do
  memory ← strcpy fuel s.memory s.buf_ptr arg_str
  len ← strlen fuel memory arg_str
  some (next_char (record s { memory = memory; buf_ptr = s.buf_ptr + len }))

-- `%d`
unfoldable pub put_int : ℕ → FormatState → Option FormatState
put_int arg_int s =
    if leb 0x8000_0000 arg_int
    then put_number (0x1_0000_0000 - arg_int) 10 (put_char 45 s)
    else put_number arg_int 10 s

-- The switch on the character behind `%`; a character without a case stays to be read as it is.
unfoldable pub conversion : ℕ → FormatState → Option FormatState
conversion fuel s =
    let c = s.index_char in
    let arg = s.ap + 4 in
    let taken : FormatState = record s { ap = arg } in
    if c == 115
    then put_string fuel (word_at s.memory arg) taken
    else if c == 99
    then some (next_char (put_char (s.memory arg) taken))
    else if c == 98
    then put_number (word_at s.memory arg) 2 taken
    else if c == 111
    then put_number (word_at s.memory arg) 8 taken
    else if c == 100
    then put_int (word_at s.memory arg) taken
    else if c == 120
    then put_number (word_at s.memory arg) 16 taken
    else if c == 37
    then some (next_char (put_char 37 s))
    else some s

-- The loop, on fuel, which bounds the strings of the arguments as well.
unfoldable pub format_loop : ℕ → ℕ → FormatState → Option FormatState
format_loop zero size s = none
format_loop (suc fuel) size s = if s.index_char == 0 then some s else (do
  s ←
      (if not (s.index_char == 37)
        then some (next_char (put_char s.index_char s))
        else conversion size (next_char s))
  format_loop fuel size s)

-- The new memory and `strlen(str)`. Behind the last character no 0 is written.
unfoldable pub vsprintf : ℕ → Memory → Ptr → Ptr → Ptr → Option (Memory × ℕ)
vsprintf fuel memory str format ap = do
  s ← format_loop fuel fuel (record {
    memory = memory;
    buf_ptr = str;
    index_ptr = format;
    index_char = memory format;
    ap = ap;
  })
  len ← strlen fuel s.memory str
  some (s.memory, len)
