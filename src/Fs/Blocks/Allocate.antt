-- ===== src/Fs/Blocks/Allocate.antt =====
-- The blocks and inodes that fs/file.c hands out.
use jack_os.Base.{ℕ, ◌-◌, Bool}
use jack_os.CString.{Memory}
use jack_os.Bitmap.{bitmap_scan_test}
use jack_os.Fs.{Fs}

-- Of the block bitmap, whether the block at an address is taken.
abbrev pub taken : Fs → Memory → ℕ → Bool
taken fs m lba = bitmap_scan_test m fs.partition.block_bitmap (lba - fs.partition.sb.data_start_lba)
