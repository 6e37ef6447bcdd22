-- ===== src/Fs/Files/Tests.antt =====
-- The theorems about open files for a file of 510 bytes, open in slot 3 at 500, in two blocks.
use jack_os.Base.{
  ℕ, ◌+◌, ◌<◌, ◌≡◌, inl, inr, refl, true, ◌&&◌, ◌||◌, [], ◌∷◌, none, some, arith, ltb, leb, ◌==◌,
  if◌then◌else◌, update,
}
use jack_os.Fs.{Inode, FileDesc, Fs, set_file}
use jack_os.Fs.Tests.{blank}
use jack_os.Fs.Blocks.{all_blocks}
use jack_os.Fs.Files.{Whence, sys_lseek}
use jack_os.Fs.Files.Seek.{signed_sum, below_zero, sys_lseek_lem}
use jack_os.Fs.Files.Write.{write_loop}
use jack_os.Fs.Files.Write.Loop.{byte_place, Outside}
use jack_os.Fs.Files.Write.Effect.{Separate, IsAdded, write_loop-IsAdded}
use jack_os.Fs.Files.Read.{read_loop, file_read}
use jack_os.Fs.Files.Read.Whole.{left_to_read, HasBuffers, file_read_lem}
use jack_os.Fs.Files.Read.Back.{write_loop-read_loop}

abbrev file : FileDesc
file = record { fd_pos = 500; fd_flag = 2; fd_inode = 100000 }

abbrev node : Inode
node = record {
  i_no = 2;
  i_size = 510;
  i_open_cnt = 1;
  write_deny = true;
  i_sectors = update (update (λ k. 0) 0 2700) 1 2701;
}

abbrev fs : Fs
fs =
    let p = blank.partition in
    record blank {
      memory = λ a. a;
      inodes = update blank.inodes 100000 node;
      partition = record p { open_inodes = 100000 ∷ [] };
      live = 100000 ∷ [];
      file_table = update blank.file_table 3 file;
      fd_table = update blank.fd_table 3 (some 3);
    }

node-Separate : Separate node.i_sectors (510 + 10)
node-Separate a b h k e = ground arith

write_loop-IsAdded_example :
    (fs' : Fs) × (write_loop 11 3 100000 900 node.i_sectors 700 10 true fs ≡ some fs')
    × IsAdded fs 100000 node.i_sectors 700 10 510 fs'
write_loop-IsAdded_example =
    write_loop-IsAdded 3 100000 900 node.i_sectors 11 10 700 true fs (omega arith)
      (inl (omega arith)) node-Separate (inl refl)

write_loop-read_loop_example :
    (fs' : Fs) × (write_loop 11 3 100000 900 node.i_sectors 700 10 true fs ≡ some fs')
    × ((reader buf dst : ℕ) (now : Fs)
        → ((x : ℕ) → now.disk x ≡ fs'.disk x)
        → (now.file_table reader).fd_pos ≡ 510
        → Outside buf dst 10
        → (fs'' : Fs) × (read_loop 11 reader buf node.i_sectors dst 10 now ≡ some fs'')
          × ((j : ℕ) → j < 10 → fs''.memory (dst + j) ≡ fs.memory (700 + j)))
write_loop-read_loop_example =
    write_loop-read_loop 3 100000 900 node.i_sectors 700 10 fs (inl (omega arith)) node-Separate

fs-HasBuffers : HasBuffers fs 104096 108192 700 10
fs-HasBuffers = record {
  got_io = refl;
  got_blocks = refl;
  io_ne = omega arith;
  blocks_ne = omega arith;
  outside = inl (omega arith);
}

file_read_lem_example :
    if ltb 510 (500 + 100) && (left_to_read 500 510 100 == 0)
    then file_read 3 700 100 fs ≡ some (none, fs)
    else ((fs' : Fs) × (file_read 3 700 100 fs ≡ some (some (left_to_read 500 510 100), fs'))
        × ((j : ℕ)
            → j < left_to_read 500 510 100
            → fs'.memory (700 + j) ≡ fs.disk (byte_place (all_blocks node fs) (500 + j)))
        × ((fs'.file_table 3).fd_pos ≡ 500 + left_to_read 500 510 100))
file_read_lem_example =
    file_read_lem fs 3 100 104096 108192 700 (omega arith) (omega arith) (omega arith) fs-HasBuffers
      (inl (refl, inl (omega arith)))

sys_lseek_lem_example :
    sys_lseek 3 0xffff_fff6 Whence.seek_end fs
    ≡ some (
        if below_zero 510 0xffff_fff6 || leb 510 (signed_sum 510 0xffff_fff6) then (none, fs) else (
          some (signed_sum 510 0xffff_fff6),
          set_file 3 (record file { fd_pos = signed_sum 510 0xffff_fff6 }) fs,
        ))
sys_lseek_lem_example =
    sys_lseek_lem 3 3 0xffff_fff6 Whence.seek_end fs refl (omega arith)
      (inr (omega arith, omega arith)) (omega arith) (omega arith)
