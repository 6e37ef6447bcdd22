-- ===== src/Ide/Sectors.antt =====
-- `ide_read` and `ide_write` of a sector, and what the file system takes them to be.
use jack_os.Base.{Option, ℕ, ◌+◌, ◌*◌, ◌<◌, ◌≡◌, refl, ◌∙◌, some, true, arith, leb, le→leb}
use jack_os.CString.{Ptr}
use jack_os.Fs.{Fs, ide_read as copy_in, ide_write as copy_out}
use jack_os.Fs.Bytes.{blit-same}
use jack_os.Ide.{
  Ports, Disk, Channel, max_lba, dev_bits, select_disk, sector_loop, read_round, write_round,
  ide_read, ide_write,
}
use jack_os.Ide.Controller.{View, IsController, SameSectors}
use jack_os.Ide.Rounds.{IsFree, HasVector, read_round_lem, write_round_lem}

module _ {C : Type 0} (io : Ports C) (hd : Disk) (v : View C) where
  -- The memory and the disk of `s` are those of the file system's state.
  pub record Shows (s : Channel C) (fs : Fs) : Type 0 where
    pub memory : (a : Ptr) → s.memory a ≡ fs.memory a
    pub disk : (a : ℕ) → v.sectors s.controller a ≡ fs.disk a

  -- The loop for one sector is one round.
  one_round :
      (round : ℕ → Ptr → ℕ → Channel C → Option (Channel C)) (lba : ℕ) (buf : Ptr)
      (s s' : Channel C)
      → round lba buf 1 s ≡ some s'
      → sector_loop io round 2 lba buf 1 0 s ≡ some s'
  unfolding sector_loop
  one_round round lba buf s s' e =
      let place : lba + 0 ≡ lba = omega arith in
      let there : buf + 0 ≡ buf = omega arith in rw (place, there, e) refl

  module _ (ok : IsController io hd v) (vector : HasVector io hd v) (s : Channel C) (fs : Fs)
      (shows : Shows s fs) (free : IsFree io hd v s) (lba : ℕ) (buf : Ptr)
      (top : lba < 163840) where
    -- The disk is selected before the round.
    abbrev selected : Channel C
    selected = record s { controller = select_disk io hd s.controller }

    same_disk : SameSectors io hd v s.controller selected.controller
    same_disk a = ok.outb_sectors (hd.port_base + 6) (dev_bits hd) s.controller (omega arith) a

    selected-IsFree : IsFree io hd v selected
    selected-IsFree = record { expects = free.expects; none_done = free.none_done }

    test : leb lba max_lba ≡ true
    test = le→leb lba max_lba (omega arith)

    -- `ide_read` of a sector up to the last, on a free channel of a controller as it is relied on, returns;
    -- the memory and the disk are then what the file system takes `ide_read` to make of them.
    pub ide_read_lem :
        (s' : Channel C) × (ide_read io hd lba buf 1 s ≡ some s')
        × Shows s' (copy_in lba buf 1 fs)
        × IsFree io hd v s'
    unfolding ide_read
    ide_read_lem =
        let (s', e, r) = read_round_lem io hd v ok vector lba buf selected top selected-IsFree in
        (
          s',
          rw (ide_read, test) (one_round (read_round io hd) lba buf selected s' e),
          record {
            memory = λ a.
                r.bytes a
                ∙ blit-same s.memory fs.memory buf 512
                    (λ k. v.sectors selected.controller (lba * 512 + k))
                    (λ k. fs.disk (lba * 512 + k)) shows.memory
                    (λ k l. same_disk (lba * 512 + k) ∙ shows.disk (lba * 512 + k)) a;
            disk = λ a. r.sectors a ∙ same_disk a ∙ shows.disk a;
          },
          r.free,
        )

    -- `ide_write` of a sector up to the last, on a free channel of a controller as it is relied on, returns;
    -- the memory and the disk are then what the file system takes `ide_write` to make of them.
    pub ide_write_lem :
        (s' : Channel C) × (ide_write io hd lba buf 1 s ≡ some s')
        × Shows s' (copy_out lba buf 1 fs)
        × IsFree io hd v s'
    unfolding ide_write
    ide_write_lem =
        let (s', e, r) = write_round_lem io hd v ok vector lba buf selected top selected-IsFree in
        (
          s',
          rw (ide_write, test) (one_round (write_round io hd) lba buf selected s' e),
          record {
            memory = λ a. r.bytes a ∙ shows.memory a;
            disk = λ a.
                r.sectors a
                ∙ blit-same (v.sectors selected.controller) fs.disk (lba * 512) 512
                    (λ k. s.memory (buf + k)) (λ k. fs.memory (buf + k))
                    (λ i. same_disk i ∙ shows.disk i) (λ k l. shows.memory (buf + k)) a;
          },
          r.free,
        )
