-- ===== src/Fs/Files/Read/Loop.antt =====
-- The loop of `file_read` of fs/file.c.
use jack_os.Base.{
  ℕ, zero, suc, ◌+◌, ◌-◌, ◌*◌, ◌/◌, ◌%◌, ◌<◌, ◌≤◌, ◌≡◌, ◌⊎◌, inl, inr, refl, subst, ◌∙◌, ap, some,
  arith, ltb, Bool-cases, ne→==, update_self,
}
use jack_os.CString.{Ptr}
use jack_os.Fs.{FileDesc, Fs, blit}
use jack_os.Fs.Bytes.{blit-at, blit-out}
use jack_os.Fs.Files.Write.{chunk}
use jack_os.Fs.Files.Write.Loop.{byte_place, Outside, chunk_lem}
use jack_os.Fs.Files.Read.{read_chunk, read_loop}

-- `n` bytes of a file whose blocks are `all`, from the position `pos` on, are at `dst`, the position is
-- behind them, and the disk is as it was; of memory only the buffer and the bytes at `dst` change.
pub record IsRead (fs : Fs) (file : ℕ) (io_buf : Ptr) (all : ℕ → ℕ) (dst n pos : ℕ) (fs' : Fs)
    : Type 0 where
  pub moved : (fs'.file_table file).fd_pos ≡ pos + n
  pub got : (j : ℕ) → j < n → fs'.memory (dst + j) ≡ fs.disk (byte_place all (pos + j))
  pub kept :
      (a : ℕ)
      → (a < io_buf) ⊎ (io_buf + 512 ≤ a)
      → (a < dst) ⊎ (dst + n ≤ a)
      → fs'.memory a ≡ fs.memory a
  pub disk : (x : ℕ) → fs'.disk x ≡ fs.disk x

module _ (file : ℕ) (io_buf : Ptr) (all : ℕ → ℕ) where
  read_chunk-IsRead :
      (fs : Fs) (dst c : ℕ)
      → let pos = (fs.file_table file).fd_pos in
        pos % 512 + c ≤ 512
        → Outside io_buf dst c
        → IsRead fs file io_buf all dst c pos (read_chunk file io_buf all dst c fs)
  unfolding read_chunk
  read_chunk-IsRead fs dst c fits out =
      let f = fs.file_table file in
      let pos = f.fd_pos in
      let lba = all (pos / 512) in
      let m₁ = blit fs.memory io_buf 512 (λ i. 0) in
      let m₂ = blit m₁ io_buf 512 (λ i. fs.disk (lba * 512 + i)) in
      let part = λ (k : ℕ). m₂ (io_buf + pos % 512 + k) in
      record {
        moved =
            ap (λ (f : FileDesc). f.fd_pos)
              (update_self fs.file_table file (record f { fd_pos = pos + c }));
        got = λ j lt.
            let q : (pos + j) / 512 ≡ pos / 512 = omega arith in
            let r : (pos + j) % 512 ≡ pos % 512 + j = omega arith in
            let u : io_buf + pos % 512 + j ≡ io_buf + (pos % 512 + j) = omega arith in
            rw (q, r)
              (blit-at m₂ dst c part j lt
                ∙ rw u (
                    blit-at m₁ io_buf 512 (λ i. fs.disk (lba * 512 + i)) (pos % 512 + j)
                      (omega arith)));
        kept = λ a h k.
            blit-out m₂ dst c part a k
            ∙ blit-out m₁ io_buf 512 (λ i. fs.disk (lba * 512 + i)) a h
            ∙ blit-out fs.memory io_buf 512 (λ i. 0) a h;
        disk = λ x. refl;
      }

  join :
      (fs fs₁ fs' : Fs) (dst n c pos : ℕ)
      → c ≤ n
      → Outside io_buf dst n
      → IsRead fs file io_buf all dst c pos fs₁
      → IsRead fs₁ file io_buf all (dst + c) (n - c) (pos + c) fs'
      → IsRead fs file io_buf all dst n pos fs'
  join fs fs₁ fs' dst n c pos le out round rest = record {
    moved = omega (arith, rest.moved);
    got = λ j lt. elim (Bool-cases (ltb j c)) [
      | inl here ↦ rest.kept (dst + j) (ground arith) (ground arith) ∙ round.got j (ground arith)
      | inr later ↦
          let q : dst + c + (j - c) ≡ dst + j = ground arith in
          let r : pos + c + (j - c) ≡ pos + j = ground arith in
          let e = rest.got (j - c) (ground arith) in
          subst (λ a. fs'.memory a ≡ fs.disk (byte_place all (pos + j))) q
            (e ∙ rw r (round.disk (byte_place all (pos + j))))
    ];
    kept = λ a h k. rest.kept a h (ground arith) ∙ round.kept a h (ground arith);
    disk = λ x. rest.disk x ∙ round.disk x;
  }

  -- The loop of `file_read` ends when it may take one round more than there are bytes, if the bytes go
  -- outside of its buffer: they are those of the file from its position on, which moves behind them.
  pub read_loop-IsRead :
      (fuel n : ℕ) (dst : Ptr) (fs : Fs)
      → n < fuel
      → Outside io_buf dst n
      → (fs' : Fs) × (read_loop fuel file io_buf all dst n fs ≡ some fs')
        × IsRead fs file io_buf all dst n (fs.file_table file).fd_pos fs'
  unfolding read_loop
  read_loop-IsRead zero n dst fs h out = absurd (omega arith)
  read_loop-IsRead (suc fuel) zero dst fs h out = (
    fs,
    refl,
    record {
      moved = omega arith;
      got = λ j lt. absurd (omega arith);
      kept = λ a h k. refl;
      disk = λ x. refl;
    },
  )
  read_loop-IsRead (suc fuel) (suc k) dst fs h out =
      let n = suc k in
      let pos = (fs.file_table file).fd_pos in
      let c = chunk n (512 - pos % 512) in
      let (some_byte, le, fits, next) = chunk_lem n pos (omega arith) in
      let fs₁ = read_chunk file io_buf all dst c fs in
      let round = read_chunk-IsRead fs dst c fits (ground arith) in
      let (fs', e, rest) =
        read_loop-IsRead fuel (n - c) (dst + c) fs₁ (omega arith) (ground arith) in
      (
        fs',
        rw (ne→== n 0 (omega arith)) e,
        join fs fs₁ fs' dst n c pos le out round
            (subst (λ p. IsRead fs₁ file io_buf all (dst + c) (n - c) p fs') round.moved rest),
      )
