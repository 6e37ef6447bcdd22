-- ===== src/Fs/Files/Seek.antt =====
-- The position that `sys_lseek` of fs/fs.c sets.
use jack_os.Base.{
  ℕ, ◌+◌, ◌-◌, ◌%◌, ◌<◌, ◌≤◌, ◌≡◌, ◌⊎◌, refl, inl, inr, Bool, false, ◌&&◌, ◌||◌, none, some, arith,
  ltb, leb, if◌then◌else◌, lt→ltb, Bool-cases,
}
use jack_os.Fs.{Fs, FileDesc, set_file}
use jack_os.Fs.Files.{fd_local2global, Whence, base_of, sys_lseek}

-- An `int32_t` from its 32 bits, added to a position; a sum below 0 is none.
abbrev pub signed_sum : ℕ → ℕ → ℕ
signed_sum base offset =
    if leb 0x8000_0000 offset then base - (0x1_0000_0000 - offset) else base + offset

abbrev pub below_zero : ℕ → ℕ → Bool
below_zero base offset = leb 0x8000_0000 offset && ltb base (0x1_0000_0000 - offset)

base_lem :
    (whence : Whence) (f : FileDesc) (size : ℕ)
    → size < 0x4000_0000
    → f.fd_pos < 0x4000_0000
    → base_of whence f size < 0x4000_0000
base_lem Whence.seek_set f size h k = omega arith
base_lem Whence.seek_cur f size h k = k
base_lem Whence.seek_end f size h k = h

module _ (base offset size : ℕ) (low : base < 0x4000_0000) (small : size < 0x4000_0000)
    (range : (offset ≤ 0x4000_0000) ⊎ ((0xC000_0000 ≤ offset) × (offset < 0x1_0000_0000))) where
  abbrev sum : ℕ
  sum = (base + offset) % 0x1_0000_0000

  test_lem :
      (leb 0x8000_0000 sum || leb size sum)
      ≡ (below_zero base offset || leb size (signed_sum base offset))
  test_lem = ground arith

  sum_lem :
      (below_zero base offset || leb size (signed_sum base offset)) ≡ false
      → sum ≡ signed_sum base offset
  sum_lem h = ground arith

-- `sys_lseek` on an open file of less than 2^30 bytes, with its position below that and an offset from
-- -2^30 to 2^30: where the base that `whence` names and the offset come to a byte of the file, that is
-- the new position and the result; elsewhere the result is -1 and the state is as it was.
pub sys_lseek_lem :
    (fd g offset : ℕ) (whence : Whence) (fs : Fs)
    → fs.fd_table fd ≡ some g
    → g < 32
    → (offset ≤ 0x4000_0000) ⊎ ((0xC000_0000 ≤ offset) × (offset < 0x1_0000_0000))
    → let f = fs.file_table g in
      let size = (fs.inodes f.fd_inode).i_size in
      let base = base_of whence f size in
      size < 0x4000_0000
      → f.fd_pos < 0x4000_0000
      → sys_lseek fd offset whence fs
        ≡ some (
            if below_zero base offset || leb size (signed_sum base offset) then (none, fs) else (
              some (signed_sum base offset),
              set_file g (record f { fd_pos = signed_sum base offset }) fs,
            ))
unfolding sys_lseek fd_local2global
sys_lseek_lem fd g offset whence fs e low range size_low pos_low =
    let f = fs.file_table g in
    let size = (fs.inodes f.fd_inode).i_size in
    let base = base_of whence f size in
    let small = base_lem whence f size size_low pos_low in
    rw (e, lt→ltb g 32 low, test_lem base offset size small size_low range)
      (elim (Bool-cases (below_zero base offset || leb size (signed_sum base offset))) [
        | inl out ↦ rw out refl
        | inr inside ↦ rw (inside, sum_lem base offset size small size_low range inside) refl
      ])
