-- ===== src/Fs/Layout/Mount.antt =====
-- What `mount_partition` of fs/fs.c finds on a partition that `partition_format` wrote.
use jack_os.Base.{
  ℕ, zero, suc, ◌+◌, ◌*◌, ◌/◌, ◌%◌, ◌<◌, ◌≤◌, ◌≡◌, refl, ◌∙◌, subst, inl, arith, get_or,
  if◌then◌else◌, ltb, ◌==◌,
}
use jack_os.Fs.{SuperBlock, Partition, word_at}
use jack_os.Fs.Bytes.{blit-at, blit-out, word_at-bytes}
use jack_os.Fs.Layout.{
  super_block, super_words, super_byte, super_at, write_bytes, partition_format,
  block_bitmap_bit_len, format_bitmap, root_inode, root_entries, inode_table_sects,
}
use jack_os.Fs.Inodes.{inode_byte}

module _ (garbage : ℕ) (p : Partition) (disk : ℕ → ℕ) where
  abbrev sb : SuperBlock
  sb = super_block p

  abbrev at : ℕ
  at = (p.start_lba + 1) * 512

  -- The sectors written later lie behind that of the super block.
  kept : (k : ℕ) → k < 512 → partition_format garbage p disk (at + k) ≡ super_byte garbage sb k
  unfolding partition_format super_block
  kept k h =
      let bits = format_bitmap (block_bitmap_bit_len p.sec_cnt) in
      let d₁ = write_bytes (p.start_lba + 1) 1 (super_byte garbage sb) disk in
      let d₂ = write_bytes sb.block_bitmap_lba sb.block_bitmap_sects bits d₁ in
      let d₃ =
        write_bytes sb.inode_bitmap_lba sb.inode_bitmap_sects (λ k. if k == 0 then 1 else 0) d₂ in
      let table : ℕ → ℕ = λ k. if ltb k 76 then inode_byte (root_inode sb) k else 0 in
      let d₄ = write_bytes sb.inode_table_lba inode_table_sects table d₃ in
      blit-out d₄ (sb.data_start_lba * 512) (1 * 512) root_entries (at + k) (inl (omega arith))
      ∙ blit-out d₃ (sb.inode_table_lba * 512) (inode_table_sects * 512) table (at + k)
          (inl (omega arith))
      ∙ blit-out d₂ (sb.inode_bitmap_lba * 512) (sb.inode_bitmap_sects * 512)
          (λ k. if k == 0 then 1 else 0) (at + k) (inl (omega arith))
      ∙ blit-out d₁ (sb.block_bitmap_lba * 512) (sb.block_bitmap_sects * 512) bits (at + k)
          (inl (omega arith))
      ∙ blit-at disk at 512 (super_byte garbage sb) k h

-- The bytes of a super block stand at `a`.
module _ (garbage : ℕ) (sb : SuperBlock) (f : ℕ → ℕ) (a : ℕ)
    (h : (k : ℕ) → k < 512 → f (a + k) ≡ super_byte garbage sb k)
    (small : (w : ℕ) → w < 13 → get_or (super_words sb) w garbage < 0x1_0000_0000) where
  word_lem : (w : ℕ) → w < 13 → word_at f (a + 4 * w) ≡ get_or (super_words sb) w garbage
  word_lem w lt =
      word_at-bytes f (a + 4 * w) (get_or (super_words sb) w garbage) (small w lt) (λ j lt'.
        let at : a + 4 * w + j ≡ a + (4 * w + j) = omega arith in
        let q : (4 * w + j) / 4 ≡ w = omega arith in
        let r : (4 * w + j) % 4 ≡ j = omega arith in
        rw at (rw (h (4 * w + j) (omega arith), q, r) refl))

  first : word_at f a ≡ sb.magic
  first =
      let q : a + 4 * 0 ≡ a = omega arith in
      subst (λ b. word_at f b ≡ sb.magic) q (word_lem 0 (omega arith))

  super_at_lem : super_at f a ≡ sb
  super_at_lem i = record {
    magic = first i;
    sec_cnt = word_lem 1 (omega arith) i;
    inode_cnt = word_lem 2 (omega arith) i;
    partition_lba_base = word_lem 3 (omega arith) i;
    block_bitmap_lba = word_lem 4 (omega arith) i;
    block_bitmap_sects = word_lem 5 (omega arith) i;
    inode_bitmap_lba = word_lem 6 (omega arith) i;
    inode_bitmap_sects = word_lem 7 (omega arith) i;
    inode_table_lba = word_lem 8 (omega arith) i;
    inode_table_sects = word_lem 9 (omega arith) i;
    data_start_lba = word_lem 10 (omega arith) i;
    root_inode_no = word_lem 11 (omega arith) i;
    dir_entry_size = word_lem 12 (omega arith) i;
  }

module _ (garbage : ℕ) (p : Partition) (big : 613 ≤ p.sec_cnt)
    (small : p.start_lba + p.sec_cnt ≤ 0x8000_0000) where
  words_lem : (w : ℕ) → w < 13 → get_or (super_words (super_block p)) w garbage < 0x1_0000_0000
  unfolding super_block block_bitmap_bit_len
  words_lem zero h = omega (arith, big, small)
  words_lem (suc zero) h = omega (arith, big, small)
  words_lem (suc (suc zero)) h = omega (arith, big, small)
  words_lem (suc (suc (suc zero))) h = omega (arith, big, small)
  words_lem (suc (suc (suc (suc zero)))) h = omega (arith, big, small)
  words_lem (suc (suc (suc (suc (suc zero))))) h = omega (arith, big, small)
  words_lem (suc (suc (suc (suc (suc (suc zero)))))) h = omega (arith, big, small)
  words_lem (suc (suc (suc (suc (suc (suc (suc zero))))))) h = omega (arith, big, small)
  words_lem (suc (suc (suc (suc (suc (suc (suc (suc zero)))))))) h = omega (arith, big, small)
  words_lem (suc (suc (suc (suc (suc (suc (suc (suc (suc zero))))))))) h = omega (arith, big, small)
  words_lem (suc (suc (suc (suc (suc (suc (suc (suc (suc (suc zero)))))))))) h =
      omega (arith, big, small)
  words_lem (suc (suc (suc (suc (suc (suc (suc (suc (suc (suc (suc zero))))))))))) h =
      omega (arith, big, small)
  words_lem (suc (suc (suc (suc (suc (suc (suc (suc (suc (suc (suc (suc zero)))))))))))) h =
      omega (arith, big, small)
  words_lem (suc (suc (suc (suc (suc (suc (suc (suc (suc (suc (suc (suc (suc w))))))))))))) h =
      absurd (omega arith)

-- On a partition of at least 613 sectors, of a disk of at most 2^31, the super block that
-- `partition_format` writes is the one that `mount_partition` and `filesys_init` read in the second
-- sector, whatever was on the disk before: what is laid out behind it does not reach it.
pub partition_format-super_at :
    (garbage : ℕ) (p : Partition) (disk : ℕ → ℕ)
    → 613 ≤ p.sec_cnt
    → p.start_lba + p.sec_cnt ≤ 0x8000_0000
    → super_at (partition_format garbage p disk) ((p.start_lba + 1) * 512) ≡ super_block p
partition_format-super_at garbage p disk big small =
    super_at_lem garbage (super_block p) (partition_format garbage p disk) ((p.start_lba + 1) * 512)
      (kept garbage p disk) (words_lem garbage p big small)
