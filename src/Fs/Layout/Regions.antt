-- ===== src/Fs/Layout/Regions.antt =====
-- The places that `partition_format` of fs/fs.c gives to the parts of a partition.
use jack_os.Base.{ℕ, ◌+◌, ◌*◌, ◌<◌, ◌≤◌, ◌≡◌, refl, arith}
use jack_os.Fs.{SuperBlock, Partition}
use jack_os.Fs.Layout.{block_bitmap_bit_len, super_block}

-- The parts follow on one another and stay within the partition, and the bitmap of the blocks has a
-- bit for each block, and there is a block.
pub record InPlace (p : Partition) (sb : SuperBlock) (bit_len : ℕ) : Type 0 where
  pub after_super : sb.block_bitmap_lba ≡ p.start_lba + 2
  pub bitmaps : sb.inode_bitmap_lba ≡ sb.block_bitmap_lba + sb.block_bitmap_sects
  pub table : sb.inode_table_lba ≡ sb.inode_bitmap_lba + sb.inode_bitmap_sects
  pub blocks : sb.data_start_lba ≡ sb.inode_table_lba + sb.inode_table_sects
  pub inside : sb.data_start_lba + bit_len ≤ p.start_lba + p.sec_cnt
  pub some_block : 0 < bit_len
  pub bits : bit_len ≤ sb.block_bitmap_sects * 4096
  pub inodes : 4096 ≤ sb.inode_bitmap_sects * 4096
  pub nodes : 4096 * 76 ≤ sb.inode_table_sects * 512

-- On a partition of at least 613 sectors, of a disk of at most 2^31 sectors, the parts that
-- `partition_format` lays out follow on one another behind the super block, the bitmaps have a bit for
-- each of the 4096 inodes and for each block, the table has the bytes of 4096 inodes, and the last
-- block ends within the partition.
pub super_block-InPlace :
    (p : Partition)
    → 613 ≤ p.sec_cnt
    → p.start_lba + p.sec_cnt ≤ 0x8000_0000
    → InPlace p (super_block p) (block_bitmap_bit_len p.sec_cnt)
unfolding super_block block_bitmap_bit_len
super_block-InPlace p big small = record {
  after_super = refl;
  bitmaps = refl;
  table = refl;
  blocks = refl;
  inside = omega arith;
  some_block = omega arith;
  bits = omega arith;
  inodes = omega arith;
  nodes = omega arith;
}
