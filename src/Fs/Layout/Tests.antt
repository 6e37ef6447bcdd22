-- ===== src/Fs/Layout/Tests.antt =====
-- The theorems about the layout of a partition of 20000 sectors.
use jack_os.Base.{◌+◌, ◌*◌, ◌/◌, ◌%◌, ◌≡◌, ◌&&◌, ◌||◌, arith, ltb, ◌==◌}
use jack_os.Bitmap.Bits.{bit}
use jack_os.Fs.Tests.{blank}
use jack_os.Fs.Layout.{block_bitmap_bit_len, super_block, super_at, format_bitmap, partition_format}
use jack_os.Fs.Layout.Regions.{InPlace, super_block-InPlace}
use jack_os.Fs.Layout.Bits.{bitmap_end, format_bitmap_lem}
use jack_os.Fs.Layout.Mount.{partition_format-super_at}

super_block-InPlace_example :
    InPlace blank.partition (super_block blank.partition) (block_bitmap_bit_len 20000)
super_block-InPlace_example = super_block-InPlace blank.partition (omega arith) (omega arith)

format_bitmap_lem_example :
    bit (format_bitmap 19384 (19384 / 8)) (19384 % 8)
    ≡ ((19384 == 0) || (ltb 19384 19384 && ltb 19384 (bitmap_end 19384)))
format_bitmap_lem_example = format_bitmap_lem 19384 19384 (omega arith)

partition_format-super_at_example :
    super_at (partition_format 7 blank.partition (λ a. 255)) ((2048 + 1) * 512)
    ≡ super_block blank.partition
partition_format-super_at_example =
    partition_format-super_at 7 blank.partition (λ a. 255) (omega arith) (omega arith)
