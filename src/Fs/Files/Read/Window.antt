-- ===== src/Fs/Files/Read/Window.antt =====
-- The blocks that `file_read` of fs/file.c looks up, and the call as a whole.
use jack_os.Base.{
  ℕ, ◌<◌, ◌≤◌, ◌≡◌, ◌≢◌, ◌⊎◌, inl, inr, refl, false, some, arith, ltb, leb, Bool-cases, ne→==,
  eq→==, lt→ltb, ltb→lt, le→leb, update, update_self, le→ltb, ◌==◌,
}
use jack_os.Fs.{Inode, Fs, read_indirect}
use jack_os.Fs.Blocks.{all_blocks}
use jack_os.Fs.Files.Read.{copy_entries, blocks_to_read}

-- A range of blocks that the code looks up: it is one block, or lies in the direct ones, or starts in
-- them and ends behind the first indirect one, with an indirect block.
abbrev pub Found : Inode → ℕ → ℕ → Type 0
Found i from to =
    ((from ≡ to) × ((to < 12) ⊎ (i.i_sectors 12 ≢ 0)))
    ⊎ ((to < 12) ⊎ ((from < 12) × (12 < to) × (i.i_sectors 12 ≢ 0)))

gt→leb : (a b : ℕ) → b < a → leb a b ≡ false
gt→leb a b h = ground arith

one_direct :
    (i : Inode) (from to : ℕ) (fs : Fs)
    → from ≡ to
    → to < 12
    → (all : ℕ → ℕ) × (blocks_to_read i from to fs ≡ some all)
      × ((k : ℕ) → from ≤ k → k ≤ to → all k ≡ all_blocks i fs k)
unfolding blocks_to_read all_blocks
one_direct i from to fs e direct = (
  update (λ k. 0) to (i.i_sectors to),
  rw (eq→== to from (omega arith), lt→ltb to 12 direct) refl,
  λ k low high.
      let q : to ≡ k = omega arith in
      rw (q, lt→ltb k 12 (omega arith)) (update_self (λ k. 0) k (i.i_sectors k)),
)

pub blocks_to_read-all_blocks :
    (i : Inode) (from to : ℕ) (fs : Fs)
    → from ≤ to
    → to < 140
    → Found i from to
    → (all : ℕ → ℕ) × (blocks_to_read i from to fs ≡ some all)
      × ((k : ℕ) → from ≤ k → k ≤ to → all k ≡ all_blocks i fs k)
unfolding blocks_to_read all_blocks
blocks_to_read-all_blocks i from to fs le top (inl (e, inl direct)) =
    one_direct i from to fs e direct
blocks_to_read-all_blocks i from to fs le top (inl (e, inr more)) = elim (Bool-cases (ltb to 12)) [
  | inl direct ↦ one_direct i from to fs e (ltb→lt to 12 direct)
  | inr beyond ↦ (
    read_indirect (i.i_sectors 12) (λ k. 0) fs,
    rw (eq→== to from (omega arith), beyond) refl,
    λ k low high. rw (le→ltb k 12 (ground arith), ne→== (i.i_sectors 12) 0 more) refl,
  )
]
blocks_to_read-all_blocks i from to fs le top (inr (inl direct)) = elim (Bool-cases (to == from)) [
  | inl same ↦ one_direct i from to fs (ground arith) direct
  | inr other ↦ (
    copy_entries i.i_sectors from to (λ k. 0),
    rw (other, le→leb to 12 (omega arith)) refl,
    λ k low high. rw (lt→ltb k 12 (omega arith), le→leb from k low, le→leb k to high) refl,
  )
]
blocks_to_read-all_blocks i from to fs le top (inr (inr (low, high, more))) = (
  read_indirect (i.i_sectors 12) (copy_entries i.i_sectors from 11 (λ k. 0)) fs,
  rw
      (
        ne→== to from (omega arith),
        gt→leb to 12 high,
        lt→ltb from 12 low,
        ne→== (i.i_sectors 12) 0 more,
      )
      refl,
  λ k first last. elim (Bool-cases (ltb k 12)) [
    | inl direct ↦ rw direct (ground arith)
    | inr beyond ↦ rw (beyond, ne→== (i.i_sectors 12) 0 more) (ground arith)
  ],
)
