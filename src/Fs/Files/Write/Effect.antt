-- ===== src/Fs/Files/Write/Effect.antt =====
-- What the loop of `file_write` of fs/file.c leaves on the disk.
use jack_os.Base.{
  ℕ, zero, suc, ◌+◌, ◌-◌, ◌*◌, ◌/◌, ◌%◌, ◌<◌, ◌≤◌, ◌≡◌, ◌≢◌, ◌⊎◌, inl, inr, refl, subst, ◌∙◌, Bool,
  true, false, some, arith, ltb, Bool-cases, ne→==, ==→eq, ==→ne, ◌==◌,
}
use jack_os.CString.{Ptr}
use jack_os.Fs.{Fs}
use jack_os.Fs.Files.Write.{chunk, write_chunk, write_loop}
use jack_os.Fs.Files.Write.Loop.{byte_place, Outside, chunk_lem, IsRound, write_chunk-IsRound}

-- The blocks of the first `size` bytes of a file are different ones.
abbrev pub Separate : (ℕ → ℕ) → ℕ → Type 0
Separate all size = (a b : ℕ) → a * 512 < size → b * 512 < size → all a ≡ all b → a ≡ b

-- `n` bytes at `src` were added to a file of `size` bytes whose blocks are `all`.
pub record IsAdded (fs : Fs) (inode : Ptr) (all : ℕ → ℕ) (src n size : ℕ) (fs' : Fs) : Type 0 where
  pub grown : (fs'.inodes inode).i_size ≡ size + n
  pub new : (j : ℕ) → j < n → fs'.disk (byte_place all (size + j)) ≡ fs.memory (src + j)
  pub old : (j : ℕ) → j < size → fs'.disk (byte_place all j) ≡ fs.disk (byte_place all j)

module _ (file : ℕ) (inode io_buf : Ptr) (all : ℕ → ℕ) where
  -- A round and what follows it.
  join :
      (fs fs₁ fs' : Fs) (src n c : ℕ) (first : Bool)
      → let s = (fs.inodes inode).i_size in
        0 < c
        → c ≤ n
        → s % 512 + c ≤ 512
        → Outside io_buf src n
        → Separate all (s + n)
        → (first ≡ true) ⊎ (s % 512 ≡ 0)
        → IsRound fs file inode io_buf all src c first fs₁
        → IsAdded fs₁ inode all (src + c) (n - c) (s + c) fs'
        → IsAdded fs inode all src n s fs'
  join fs fs₁ fs' src n c first pos le fits out apart start round add =
      let s = (fs.inodes inode).i_size in
      record {
        grown = omega (arith, add.grown);
        new = λ j lt. elim (Bool-cases (ltb j c)) [
          | inl here ↦ add.old (s + j) (ground arith) ∙ round.new j (ground arith)
          | inr later ↦
              let q : s + c + (j - c) ≡ s + j = ground arith in
              let r : src + c + (j - c) ≡ src + j = ground arith in
              let e = add.new (j - c) (ground arith) in
              subst (λ x. fs'.disk (byte_place all x) ≡ fs.memory (src + j)) q
                (e ∙ rw r (round.memory (src + j) (ground arith)))
        ];
        old = λ j lt. add.old j (omega arith) ∙ elim (Bool-cases (j / 512 == s / 512)) [
          | inl same ↦
              let q : j / 512 ≡ s / 512 = ==→eq (j / 512) (s / 512) same in
              let below : j % 512 < s % 512 = omega (arith, q) in
              rw q (round.before (ground (arith, below)) (j % 512) below)
          | inr other ↦
              let ne : all (j / 512) ≢ all (s / 512) = λ e.
                ==→ne (j / 512) (s / 512) other
                  (apart (j / 512) (s / 512) (omega arith) (omega arith) e) in
              round.old (byte_place all j) (ground (arith, ne))
        ];
      }

  -- The loop of `file_write` ends when it may take one round more than there are bytes, if the bytes
  -- stand outside of its buffer, no two blocks of the file are the same, and it starts by reading the
  -- block of the end of the file, or where a block starts: the bytes stand on the disk behind those of
  -- the file, which stay, and the size grows by their number.
  pub write_loop-IsAdded :
      (fuel n : ℕ) (src : Ptr) (first : Bool) (fs : Fs)
      → n < fuel
      → Outside io_buf src n
      → Separate all ((fs.inodes inode).i_size + n)
      → (first ≡ true) ⊎ (((fs.inodes inode).i_size % 512 ≡ 0) ⊎ (n ≡ 0))
      → (fs' : Fs) × (write_loop fuel file inode io_buf all src n first fs ≡ some fs')
        × IsAdded fs inode all src n (fs.inodes inode).i_size fs'
  unfolding write_loop
  write_loop-IsAdded zero n src first fs h out apart start = absurd (omega arith)
  write_loop-IsAdded (suc fuel) zero src first fs h out apart start = (
    fs,
    refl,
    record { grown = omega arith; new = λ j lt. absurd (omega arith); old = λ j lt. refl },
  )
  write_loop-IsAdded (suc fuel) (suc k) src first fs h out apart start =
      let n = suc k in
      let s = (fs.inodes inode).i_size in
      let c = chunk n (512 - s % 512) in
      let (pos, le, fits, next) = chunk_lem n s (omega arith) in
      let fs₁ = write_chunk file inode io_buf all src c first fs in
      let round = write_chunk-IsRound fs file inode io_buf all src c first fits (ground arith) in
      let total : (fs₁.inodes inode).i_size + (n - c) ≡ s + n = omega (arith, round.size) in
      let (fs', e, add) =
        write_loop-IsAdded fuel (n - c) (src + c) false fs₁ (omega arith) (ground arith)
          (rw total apart) (ground (arith, round.size)) in
      (
        fs',
        rw (ne→== n 0 (omega arith)) e,
        join fs fs₁ fs' src n c first pos le fits out apart (ground arith) round
            (subst (λ t. IsAdded fs₁ inode all (src + c) (n - c) t fs') round.size add),
      )
