-- ===== src/Stdio/Tests.antt =====
-- The functions of lib/stdio.c at a small memory, and the theorem about numbers there.
use jack_os.Base.{ℕ, ◌≡◌, refl, Option, some, ltb, ◌==◌, if◌then◌else◌, ◌&&◌, ◌>>=◌}
use jack_os.CString.{Memory, strlen, strcpy}
use jack_os.Stdio.{itoa, vsprintf, format_loop, conversion, put_number, put_int, put_string}

-- `x=%d` at 300, and the argument -7 behind 500.
abbrev memory : Memory
memory a =
    if a == 300
    then 120
    else if a == 301
    then 61
    else if a == 302
    then 37
    else if a == 303
    then 100
    else if a == 504
    then 249
    else if ltb 504 a && ltb a 508
    then 255
    else 0

abbrev written : Option (ℕ × ℕ × ℕ × ℕ × ℕ)
written = do (m, len) ← vsprintf 9 memory 700 300 500; some (len, m 700, m 701, m 702, m 703)

prints : written ≡ some (4, 120, 61, 45, 55)
unfolding vsprintf format_loop conversion put_number put_int put_string itoa strlen strcpy
prints = refl
