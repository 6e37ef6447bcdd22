-- ===== src/Ide.antt =====
-- device/ide.c: reads and writes of sectors. The processor's `in` and `out` (kernel/io.h) go to a disk
-- controller that is a parameter: a type of its states, and what each instruction does to them. The
-- mutex of the channel is held around the functions. `none` is a panic, or a wait that never ends.
pub mod Controller
pub mod Rounds
pub mod Sectors
mod Tests
use jack_os.Base.{
  ℕ, zero, suc, ◌+◌, ◌-◌, ◌*◌, ◌/◌, ◌%◌, Bool, true, false, ◌||◌, Option, none, some, ltb, leb,
  ◌==◌, if◌then◌else◌, assert, ◌>>=◌, ◌>>◌,
}
use jack_os.CString.{Memory, Ptr}
use jack_os.Fs.{blit}

-- A port and a byte or a number of words of 16 bits; `pass` is ten milliseconds, and `interrupts` says
-- whether the controller raises its interrupt.
pub record Ports (C : Type 0) : Type 0 where
  pub outb : ℕ → ℕ → C → C
  pub inb : ℕ → C → ℕ × C
  pub insw : ℕ → ℕ → C → (ℕ → ℕ) × C
  pub outsw : ℕ → ℕ → (ℕ → ℕ) → C → C
  pub pass : C → C
  pub interrupts : C → Bool

-- A disk, with the constants of its channel.
pub record Disk : Type 0 where
  pub port_base : ℕ
  pub vec_no : ℕ
  pub dev_no : ℕ

-- The channel's state. `disk_done` is the value of the semaphore; that a thread which waits there is
-- blocked, and woken by the interrupt, is not followed.
pub record Channel (C : Type 0) : Type 0 where
  pub controller : C
  pub memory : Memory
  pub expecting_intr : Bool
  pub disk_done : ℕ

abbrev pub max_lba : ℕ
max_lba = 80 * 1024 * 1024 / 512 - 1

-- `BIT_DEV_MBS | BIT_DEV_LBA`, and `BIT_DEV_DEV` for the second disk.
abbrev pub dev_bits : Disk → ℕ
dev_bits hd = if hd.dev_no == 1 then 0xF0 else 0xE0

abbrev pub is_busy : ℕ → Bool
is_busy status = status / 128 % 2 == 1

abbrev pub has_data : ℕ → Bool
has_data status = status / 8 % 2 == 1

-- The value of the semaphore (a `uint8_t`) in `sema_up` and in `sema_down`, with their assertions.
unfoldable pub done_up : ℕ → Option ℕ
done_up value = do
  assert (value == 0)
  let value = (value + 1) % 256
  assert (value == 1)
  some value

unfoldable pub done_down : ℕ → Option ℕ
done_down value = do assert (ltb 0 value); let value = value - 1; assert (value == 0); some value

module _ {C : Type 0} (io : Ports C) where
  abbrev pub select_disk : Disk → C → C
  select_disk hd c = io.outb (hd.port_base + 6) (dev_bits hd) c

  unfoldable pub select_sector : Disk → ℕ → ℕ → C → Option C
  select_sector hd lba sec_cnt c = do
    assert (leb lba max_lba)
    let c = io.outb (hd.port_base + 2) sec_cnt c
    let c = io.outb (hd.port_base + 3) (lba % 256) c
    let c = io.outb (hd.port_base + 4) (lba / 256 % 256) c
    let c = io.outb (hd.port_base + 5) (lba / 65536 % 256) c
    some (io.outb (hd.port_base + 6) (dev_bits hd + lba / 16777216) c)

  abbrev pub cmd_out : Disk → ℕ → Channel C → Channel C
  cmd_out hd cmd s = record s {
    controller = io.outb (hd.port_base + 7) cmd s.controller;
    expecting_intr = true;
  }

  unfoldable pub intr_hd_handler : Disk → ℕ → Channel C → Option (Channel C)
  intr_hd_handler hd vec_no s = do
    assert ((vec_no == 0x2E) || (vec_no == 0x2F))
    assert (hd.vec_no == vec_no)
    (if s.expecting_intr
        then (do
          done ← done_up s.disk_done
          some (record s {
            controller = (io.inb (hd.port_base + 7) s.controller).1;
            expecting_intr = false;
            disk_done = done;
          }))
        else some s)

  -- `sema_down(&disk_done)`, with the interrupt before it or while the thread sleeps.
  unfoldable pub wait_done : Disk → Channel C → Option (Channel C)
  wait_done hd s = do
    s ← if io.interrupts s.controller then intr_hd_handler hd hd.vec_no s else some s
    done ← done_down s.disk_done
    some (record s { disk_done = done })

  -- 256 sectors are written as 0.
  abbrev pub size_in_byte : ℕ → ℕ
  size_in_byte sec_cnt = if sec_cnt == 0 then 256 * 512 else sec_cnt * 512

  unfoldable pub read_from_sector : Disk → Ptr → ℕ → Channel C → Channel C
  read_from_sector hd buf sec_cnt s =
      let (bytes, c) = io.insw hd.port_base (size_in_byte sec_cnt / 2) s.controller in
      record s { controller = c; memory = blit s.memory buf (size_in_byte sec_cnt) bytes }

  unfoldable pub write_to_sector : Disk → Ptr → ℕ → Channel C → Channel C
  write_to_sector hd buf sec_cnt s = record s {
    controller =
        io.outsw hd.port_base (size_in_byte sec_cnt / 2) (λ i. s.memory (buf + i)) s.controller;
  }

  unfoldable pub busy_loop : ℕ → Disk → C → Bool × C
  busy_loop zero hd c = (false, c)
  busy_loop (suc left) hd c =
      let (status, c) = io.inb (hd.port_base + 7) c in
      elim (is_busy status) [
        | true ↦ busy_loop left hd (io.pass c)
        | false ↦ let (status, c) = io.inb (hd.port_base + 7) c in (has_data status, c)
      ]

  -- `time_limit -= 10 > 0` takes 1 from the 30000.
  unfoldable pub busy_wait : Disk → C → Bool × C
  busy_wait hd c = busy_loop 29999 hd c

  abbrev pub secs_left : ℕ → ℕ → ℕ
  secs_left secs_done sec_cnt = if leb (secs_done + 256) sec_cnt then 256 else sec_cnt - secs_done

  -- A round of `ide_read`, for `secs` sectors, and of `ide_write`.
  unfoldable pub read_round : Disk → ℕ → Ptr → ℕ → Channel C → Option (Channel C)
  read_round hd lba buf secs s = do
    c ← select_sector hd lba (secs % 256) s.controller
    s ← wait_done hd (cmd_out hd 0x20 (record s { controller = c }))
    let (ready, c) = busy_wait hd s.controller
    assert ready
    some (read_from_sector hd buf (secs % 256) (record s { controller = c }))

  unfoldable pub write_round : Disk → ℕ → Ptr → ℕ → Channel C → Option (Channel C)
  write_round hd lba buf secs s = do
    c ← select_sector hd lba (secs % 256) s.controller
    let s = cmd_out hd 0x30 (record s { controller = c })
    let (ready, c) = busy_wait hd s.controller
    assert ready
    wait_done hd (write_to_sector hd buf (secs % 256) (record s { controller = c }))

  -- The loop over rounds of at most 256 sectors, on fuel.
  unfoldable pub sector_loop :
      (ℕ → Ptr → ℕ → Channel C → Option (Channel C))
      → ℕ
      → ℕ
      → Ptr
      → ℕ
      → ℕ
      → Channel C
      → Option (Channel C)
  sector_loop round zero lba buf sec_cnt secs_done s = none
  sector_loop round (suc fuel) lba buf sec_cnt secs_done s =
      if ltb secs_done sec_cnt
      then (do
        let secs = secs_left secs_done sec_cnt
        s ← round (lba + secs_done) (buf + secs_done * 512) secs s
        sector_loop round fuel lba buf sec_cnt (secs_done + secs) s)
      else some s

  unfoldable pub ide_read : Disk → ℕ → Ptr → ℕ → Channel C → Option (Channel C)
  ide_read hd lba buf sec_cnt s = do
    assert (leb lba max_lba)
    assert (ltb 0 sec_cnt)
    sector_loop (read_round hd) (sec_cnt + 1) lba buf sec_cnt 0
        (record s { controller = select_disk hd s.controller })

  unfoldable pub ide_write : Disk → ℕ → Ptr → ℕ → Channel C → Option (Channel C)
  ide_write hd lba buf sec_cnt s = do
    assert (leb lba max_lba)
    assert (ltb 0 sec_cnt)
    sector_loop (write_round hd) (sec_cnt + 1) lba buf sec_cnt 0
        (record s { controller = select_disk hd s.controller })
