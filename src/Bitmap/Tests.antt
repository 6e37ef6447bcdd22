-- ===== src/Bitmap/Tests.antt =====
-- The functions of lib/kernel/bitmap.c at a bitmap of two bytes, and their theorems there.
use jack_os.Base.{ℕ, ◌<◌, ◌≡◌, refl, ◌⊎◌, true, Option, some, none, arith, update}
use jack_os.CString.{Memory}
use jack_os.Bitmap.{Bitmap, bitmap_scan_test, bitmap_scan, scan_from, skip_full, first_clear, seek}
use jack_os.Bitmap.Access.{IsBytes}
use jack_os.Bitmap.Scan.{Outcome}
use jack_os.Bitmap.FirstFit.{bitmap_scan_lem}

abbrev pids : Bitmap
pids = record { btmp_byte_len = 2; bits = 1000 }

-- Every bit but 9 and 15 is set; the byte behind is 0.
abbrev memory : Memory
memory = update (update (λ _. 0) 1000 0xff) 1001 0x7d

memory-IsBytes : IsBytes memory
memory-IsBytes a = ground arith

runs :
    (bitmap_scan memory pids 1 ≡ some (some 9))
    × (bitmap_scan memory pids 2 ≡ some (some 15))
    × (bitmap_scan memory pids 3 ≡ some none)
    × (bitmap_scan (update memory 1001 0xff) pids 1 ≡ none)
unfolding bitmap_scan scan_from bitmap_scan_test skip_full first_clear seek
runs = (refl, refl, refl, refl)

bitmap_scan_lem_example :
    ((bitmap_scan memory pids 1 ≡ none)
      × ((i : ℕ) → i < 16 → bitmap_scan_test memory pids i ≡ true))
    ⊎ ((r : Option ℕ) × (bitmap_scan memory pids 1 ≡ some r) × Outcome memory pids 1 16 r)
bitmap_scan_lem_example = bitmap_scan_lem memory pids 1 memory-IsBytes (omega arith) (omega arith)
