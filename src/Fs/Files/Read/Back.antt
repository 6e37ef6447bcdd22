-- ===== src/Fs/Files/Read/Back.antt =====
-- Bytes that the loop of `file_write` of fs/file.c wrote, read by the loop of `file_read`.
use jack_os.Base.{ℕ, suc, ◌+◌, ◌≡◌, ◌∙◌, ◌<◌, inl, true, refl, some, arith, subst, sym}
use jack_os.CString.{Ptr}
use jack_os.Fs.{Fs}
use jack_os.Fs.Files.Write.{write_loop}
use jack_os.Fs.Files.Write.Loop.{Outside, byte_place}
use jack_os.Fs.Files.Write.Effect.{Separate, write_loop-IsAdded}
use jack_os.Fs.Files.Read.{read_loop}
use jack_os.Fs.Files.Read.Loop.{read_loop-IsRead}

-- The loop of `file_write` adds `n` bytes at `src` to a file. From any state with that disk, where the
-- position of a slot is the size that the file had, the loop of `file_read` gives these bytes at `dst`.
-- Both end, on fuel for a round more than there are bytes; source and destination stand outside of the
-- buffers, and the blocks of the file are different ones.
pub write_loop-read_loop :
    (file : ℕ) (inode io_buf : Ptr) (all : ℕ → ℕ) (src n : ℕ) (fs : Fs)
    → Outside io_buf src n
    → Separate all ((fs.inodes inode).i_size + n)
    → (fs' : Fs) × (write_loop (suc n) file inode io_buf all src n true fs ≡ some fs')
      × ((reader buf dst : ℕ) (now : Fs)
          → ((x : ℕ) → now.disk x ≡ fs'.disk x)
          → (now.file_table reader).fd_pos ≡ (fs.inodes inode).i_size
          → Outside buf dst n
          → (fs'' : Fs) × (read_loop (suc n) reader buf all dst n now ≡ some fs'')
            × ((j : ℕ) → j < n → fs''.memory (dst + j) ≡ fs.memory (src + j)))
write_loop-read_loop file inode io_buf all src n fs out apart =
    let (fs', e, added) =
      write_loop-IsAdded file inode io_buf all (suc n) n src true fs (omega arith) out apart
        (inl refl) in
    (
      fs',
      e,
      λ reader buf dst now same at out'.
          let (fs'', e', read) =
            read_loop-IsRead reader buf all (suc n) n dst now (omega arith) out' in
          (
            fs'',
            e',
            λ j lt.
                read.got j lt
                ∙ subst (λ p. now.disk (byte_place all (p + j)) ≡ fs.memory (src + j)) (sym at)
                    (same (byte_place all ((fs.inodes inode).i_size + j)) ∙ added.new j lt),
          ),
    )
