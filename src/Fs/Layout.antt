-- ===== src/Fs/Layout.antt =====
-- `partition_format` and `mount_partition` of fs/fs.c. The buffer of the format, which the call gives
-- back, is a function of the offset; it is not tested against NULL.
pub mod Regions
pub mod Bits
pub mod Mount
mod Tests
use jack_os.Base.{
  ℕ, zero, suc, ◌+◌, ◌-◌, ◌*◌, ◌/◌, ◌%◌, ◌^◌, Bool, true, false, not, ◌&&◌, List, [], ◌∷◌, Option,
  none, some, ltb, leb, ◌==◌, if◌then◌else◌, update, get_or, assert, ◌>>=◌, ◌>>◌,
}
use Prim.Native.Nat.{bit_and}
use jack_os.CString.{Memory, Ptr, null}
use jack_os.Bitmap.{Bitmap, u32}
use jack_os.Fs.{
  SuperBlock, Partition, Inode, Fs, blit, ide_read, word_at, byte_of, u32_sub, sys_malloc, sys_free,
}
use jack_os.Fs.Inodes.{inode_byte}
use jack_os.Fs.Dirs.{DirEntry, entry_byte, ft_directory, dot, dot_dot}

-- `DIV_CEILING`
abbrev pub div_ceiling : ℕ → ℕ → ℕ
div_ceiling x step = (x + step - 1) / step

-- The sectors of the bitmap and of the table of inodes.
abbrev pub inode_bitmap_sects : ℕ
inode_bitmap_sects = div_ceiling 4096 4096

abbrev pub inode_table_sects : ℕ
inode_table_sects = div_ceiling (76 * 4096) 512

-- `block_bitmap_bit_len` of a partition of `sec_cnt` sectors.
unfoldable pub block_bitmap_bit_len : ℕ → ℕ
block_bitmap_bit_len sec_cnt =
    let free_sects = u32_sub sec_cnt (1 + 1 + inode_bitmap_sects + inode_table_sects) in
    u32_sub free_sects (div_ceiling free_sects 4096)

unfoldable pub super_block : Partition → SuperBlock
super_block partition =
    let block_bitmap_sects = div_ceiling (block_bitmap_bit_len partition.sec_cnt) 4096 in
    let block_bitmap_lba = partition.start_lba + 2 in
    let inode_bitmap_lba = block_bitmap_lba + block_bitmap_sects in
    let inode_table_lba = inode_bitmap_lba + inode_bitmap_sects in
    record {
      magic = 0x20010107;
      sec_cnt = partition.sec_cnt;
      inode_cnt = 4096;
      partition_lba_base = partition.start_lba;
      block_bitmap_lba = block_bitmap_lba;
      block_bitmap_sects = block_bitmap_sects;
      inode_bitmap_lba = inode_bitmap_lba;
      inode_bitmap_sects = inode_bitmap_sects;
      inode_table_lba = inode_table_lba;
      inode_table_sects = inode_table_sects;
      data_start_lba = inode_table_lba + inode_table_sects;
      root_inode_no = 0;
      dir_entry_size = 24;
    }

-- The super block as 13 words; what pads it is not written.
abbrev pub super_words : SuperBlock → List ℕ
super_words sb =
    sb.magic ∷ sb.sec_cnt ∷ sb.inode_cnt ∷ sb.partition_lba_base ∷ sb.block_bitmap_lba
    ∷ sb.block_bitmap_sects ∷ sb.inode_bitmap_lba ∷ sb.inode_bitmap_sects ∷ sb.inode_table_lba
    ∷ sb.inode_table_sects ∷ sb.data_start_lba ∷ sb.root_inode_no ∷ sb.dir_entry_size ∷ []

abbrev pub super_byte : ℕ → SuperBlock → ℕ → ℕ
super_byte garbage sb k = byte_of (get_or (super_words sb) (k / 4) garbage) (k % 4)

-- The super block whose bytes stand at `a`.
abbrev pub super_at : (ℕ → ℕ) → ℕ → SuperBlock
super_at f a = record {
  magic = word_at f a;
  sec_cnt = word_at f (a + 4);
  inode_cnt = word_at f (a + 8);
  partition_lba_base = word_at f (a + 12);
  block_bitmap_lba = word_at f (a + 16);
  block_bitmap_sects = word_at f (a + 20);
  inode_bitmap_lba = word_at f (a + 24);
  inode_bitmap_sects = word_at f (a + 28);
  inode_table_lba = word_at f (a + 32);
  inode_table_sects = word_at f (a + 36);
  data_start_lba = word_at f (a + 40);
  root_inode_no = word_at f (a + 44);
  dir_entry_size = word_at f (a + 48);
}

-- The loop that clears the bits from `bit_idx` on, `left` of them, of a byte.
unfoldable pub clear_bits : ℕ → ℕ → ℕ → ℕ
clear_bits byte bit_idx zero = byte
clear_bits byte bit_idx (suc left) =
    clear_bits (bit_and byte (0xffff_ffff - 2 ^ bit_idx)) (bit_idx + 1) left

-- The bytes of the block bitmap before that loop, and after it; it takes the bits up to
-- `block_bitmap_last_bit` of the last byte.
abbrev pub filled_byte : ℕ → ℕ → ℕ
filled_byte bit_len k =
    let last_byte = bit_len / 8 in
    let last_size = 512 - last_byte % 512 in
    if leb last_byte k && ltb k (last_byte + last_size) then 0xff else if k == 0 then 1 else 0

unfoldable pub format_bitmap : ℕ → ℕ → ℕ
format_bitmap bit_len k =
    if k == bit_len / 8
    then clear_bits (filled_byte bit_len k) 0 (bit_len % 8 + 1)
    else filled_byte bit_len k

-- The root directory: its inode, and its entries.
abbrev pub root_inode : SuperBlock → Inode
root_inode sb = record {
  i_no = 0;
  i_size = sb.dir_entry_size * 2;
  i_open_cnt = 0;
  write_deny = false;
  i_sectors = update (λ k. 0) 0 sb.data_start_lba;
}

abbrev pub root_entries : ℕ → ℕ
root_entries k =
    let named : List ℕ → DirEntry =
      λ name. record { filename = λ k. get_or name k 0; i_no = 0; f_type = ft_directory } in
    if ltb k 24
    then entry_byte (named dot) k
    else if ltb k 48
    then entry_byte (named dot_dot) (k - 24)
    else 0

-- `ide_write` of `sec_cnt` sectors with these bytes.
abbrev pub write_bytes : ℕ → ℕ → (ℕ → ℕ) → (ℕ → ℕ) → ℕ → ℕ
write_bytes lba sec_cnt bytes disk = blit disk (lba * 512) (sec_cnt * 512) bytes

unfoldable pub partition_format : ℕ → Partition → (ℕ → ℕ) → ℕ → ℕ
partition_format garbage partition disk =
    let sb = super_block partition in
    let disk = write_bytes (partition.start_lba + 1) 1 (super_byte garbage sb) disk in
    let bits = format_bitmap (block_bitmap_bit_len partition.sec_cnt) in
    let disk = write_bytes sb.block_bitmap_lba sb.block_bitmap_sects bits disk in
    let disk =
      write_bytes sb.inode_bitmap_lba sb.inode_bitmap_sects (λ k. if k == 0 then 1 else 0) disk in
    let table : ℕ → ℕ = λ k. if ltb k 76 then inode_byte (root_inode sb) k else 0 in
    let disk = write_bytes sb.inode_table_lba inode_table_sects table disk in
    write_bytes sb.data_start_lba 1 root_entries disk

-- The bits of a bitmap, read into memory; a PANIC if there is none.
unfoldable pub load_bitmap : ℕ → ℕ → Fs → Option (Bitmap × Fs)
load_bitmap lba sects fs = do
  let (bits, fs) = sys_malloc (sects * 512) fs
  assert (not (bits == null))
  some (record { btmp_byte_len = sects * 512; bits = bits }, ide_read lba bits sects fs)

-- The partition whose name was given becomes the current one. Each address is that of `sys_malloc`.
unfoldable pub mount_partition : Partition → Fs → Option Fs
mount_partition partition fs = do
  let (sb_buf, fs) = sys_malloc 512 fs
  let (sb_at, fs) = sys_malloc 512 fs
  assert (not (sb_at == null))
  assert (not (sb_buf == null))
  let fs = ide_read (partition.start_lba + 1) sb_buf 1 fs
  let sb = super_at fs.memory sb_buf
  (blocks, fs) ← load_bitmap sb.block_bitmap_lba sb.block_bitmap_sects fs
  (inodes, fs) ← load_bitmap sb.inode_bitmap_lba sb.inode_bitmap_sects fs
  fs ← sys_free sb_buf fs
  let p : Partition = record partition {
    sb = sb;
    block_bitmap = blocks;
    inode_bitmap = inodes;
    open_inodes = [];
  }
  some (record fs { partition = p })

-- What `filesys_init` does with one partition of a disk.
unfoldable pub check_partition : Partition → Fs → Fs
check_partition partition fs =
    if partition.sec_cnt == 0
    then fs
    else if word_at fs.disk ((partition.start_lba + 1) * 512) == 0x20010107
    then fs
    else record fs { disk = partition_format fs.garbage partition fs.disk }
