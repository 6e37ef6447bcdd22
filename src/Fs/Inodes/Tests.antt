-- ===== src/Fs/Inodes/Tests.antt =====
-- The theorems about inodes where inode 2 is written, read, opened again and closed.
use jack_os.Base.{
  ℕ, ◌+◌, ◌-◌, ◌*◌, ◌/◌, ◌≡◌, ◌≢◌, true, not, ◌&&◌, [], ◌∷◌, some, refl, arith, ltb, leb, ◌==◌,
  if◌then◌else◌, has, update,
}
use jack_os.CString.{Memory, Ptr}
use jack_os.Fs.{Inode, Fs}
use jack_os.Fs.Tests.{blank}
use jack_os.Fs.Inodes.{inode_byte, inode_sync, inode_load, inode_open, inode_close}
use jack_os.Fs.Inodes.Position.{stored, inode_sync_lem}
use jack_os.Fs.Inodes.Load.{IsInode, SameFile, inode_sync-load}
use jack_os.Fs.Inodes.Opened.{IsOpen, inode_close-IsOpen, inode_open-IsOpen}

abbrev inode : Inode
inode = record {
  i_no = 2;
  i_size = 700;
  i_open_cnt = 2;
  write_deny = true;
  i_sectors = update (λ k. 0) 0 2700;
}

inode-IsInode : IsInode inode
inode-IsInode = record { no = omega arith; size = omega arith; sectors = λ k h. ground arith }

-- Inode 6 has its last 20 bytes behind the end of the sector.
abbrev late : Inode
late = record inode { i_no = 6 }

inode_sync_lem_example :
    (m : Memory) × (disk : ℕ → ℕ) × (inode_sync late 900 blank
      ≡ some (record blank { memory = m; disk = disk }))
    × ((a : ℕ)
        → disk a ≡ (
            if (leb (2056 * 512 + 456) a && ltb a (2056 * 512 + 456 + 76))
              && (a / 512 == (2056 * 512 + 456) / 512)
            then inode_byte (stored late) (a - (2056 * 512 + 456))
            else 0))
inode_sync_lem_example = inode_sync_lem late 900 blank (omega arith)

inode_sync-load_example :
    (fs' : Fs) × (fs'' : Fs) × (inode_sync inode 900 blank ≡ some fs')
    × (inode_load 2 fs' ≡ some (100000, fs''))
    × SameFile (fs''.inodes 100000) inode
inode_sync-load_example =
    inode_sync-load blank inode 900 100000 104096 (omega arith) (omega arith) (omega arith)
      inode-IsInode refl refl (omega arith) (omega arith)

-- The inode is open twice, at 100000.
abbrev fs : Fs
fs =
    let p = blank.partition in
    record blank {
      inodes = update blank.inodes 100000 inode;
      partition = record p { open_inodes = 100000 ∷ [] };
      live = 100000 ∷ [];
    }

fs-IsOpen : IsOpen fs
fs-IsOpen = record {
  distinct = (tt, tt);
  placed = λ p h e. ground arith;
  counted = λ p h. ground arith;
  bounded = λ p h. ground arith;
}

inode_close-IsOpen_example :
    (fs' : Fs) × (inode_close 100000 fs ≡ some fs')
    × IsOpen fs'
    × ((fs'.inodes 100000).i_open_cnt + 1 ≡ 2)
    × ((q : Ptr)
        → has q fs'.partition.open_inodes
          ≡ (has q fs.partition.open_inodes && not ((100000 == q) && (2 == 1))))
    × (fs'.live ≡ fs.live)
    × (fs'.pgdir ≡ fs.pgdir)
    × ((q : Ptr) → q ≢ 100000 → fs'.inodes q ≡ fs.inodes q)
inode_close-IsOpen_example = inode_close-IsOpen fs 100000 fs-IsOpen refl

inode_open-IsOpen_example :
    (p : Ptr) × (fs' : Fs) × (inode_open 2 fs ≡ some (p, fs'))
    × IsOpen fs'
    × (has p fs.partition.open_inodes ≡ true)
    × ((fs.inodes p).i_no ≡ 2)
    × ((fs'.inodes p).i_open_cnt ≡ (fs.inodes p).i_open_cnt + 1)
    × (fs'.partition.open_inodes ≡ fs.partition.open_inodes)
    × ((r : Ptr) → r ≢ p → fs'.inodes r ≡ fs.inodes r)
inode_open-IsOpen_example = inode_open-IsOpen fs 2 100000 fs-IsOpen refl refl (λ r. ground arith)
