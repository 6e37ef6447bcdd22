-- ===== src/Ide/Tests.antt =====
-- A controller that keeps what device/ide.c relies on: it is busy for three rounds after a command.
use jack_os.Base.{
  ℕ, ◌+◌, ◌-◌, ◌*◌, ◌%◌, ◌<◌, ◌≡◌, ◌≢◌, refl, ap, Bool, true, false, some, arith, ltb, ◌==◌,
  if◌then◌else◌, update, Bool-cases, inl, inr, ne→==,
}
use jack_os.Fs.{Fs, blit, ide_read as copy_in, ide_write as copy_out}
use jack_os.Fs.Tests.{blank}
use jack_os.Ide.{Ports, Disk, Channel, is_busy, has_data, ide_read, ide_write}
use jack_os.Ide.Controller.{Phase, idle, reading, writing, View, IsController, IsSelected}
use jack_os.Ide.Rounds.{IsFree}
use jack_os.Ide.Sectors.{Shows, ide_read_lem, ide_write_lem}

record Device : Type 0 where
  pub reg : ℕ → ℕ
  pub phase : Phase
  pub busy : ℕ
  pub sectors : ℕ → ℕ
  pub raised : Bool

abbrev hd : Disk
hd = record { port_base = 0x1F0; vec_no = 0x2E; dev_no = 1 }

abbrev view : View Device
view = record {
  reg = λ c. c.reg;
  phase = λ c. c.phase;
  busy = λ c. c.busy;
  sectors = λ c. c.sectors;
}

abbrev lba_of : Device → ℕ
lba_of c = c.reg 0x1F3 + 256 * c.reg 0x1F4 + 65536 * c.reg 0x1F5 + 16777216 * (c.reg 0x1F6 % 16)

abbrev command : ℕ → Device → Device
command cmd c =
    if cmd == 0x20
    then record c { phase = reading (lba_of c); busy = 3; raised = true }
    else record c { phase = writing (lba_of c); busy = 3; raised = false }

abbrev status_of : Phase → ℕ → ℕ
status_of idle busy = if ltb 0 busy then 128 else 0
status_of _ busy = if ltb 0 busy then 128 else 8

abbrev take_data : Phase → Device → (ℕ → ℕ) × Device
take_data (reading lba) c = (λ k. c.sectors (lba * 512 + k), record c { phase = idle })
take_data _ c = (λ k. 0, c)

abbrev put_data : Phase → (ℕ → ℕ) → Device → Device
put_data (writing lba) bytes c = record c {
  sectors = blit c.sectors (lba * 512) (512) bytes;
  phase = idle;
  raised = true;
}
put_data _ bytes c = c

abbrev ports : Ports Device
ports = record {
  outb = λ port value c.
      if port == 0x1F7 then command value c else record c { reg = update c.reg port value };
  inb = λ port c. (status_of c.phase c.busy, c);
  insw = λ port n c. take_data c.phase c;
  outsw = λ port n bytes c. put_data c.phase bytes c;
  pass = λ c. record c { busy = c.busy - 1 };
  interrupts = λ c. c.raised;
}

-- The registers name the transfer.
lba-selected :
    (lba : ℕ) (c : Device) → lba < 0x1000_0000 → IsSelected ports hd view lba 1 c → lba_of c ≡ lba
lba-selected lba c small sel = let (e2, e3, e4, e5, e6) = sel in rw (e3, e4, e5, e6) (omega arith)

busy_bit : (p : Phase) (busy : ℕ) → is_busy (status_of p busy) ≡ ltb 0 busy
busy_bit idle busy = elim (Bool-cases (ltb 0 busy)) [ inl e ↦ rw e refl | inr e ↦ rw e refl ]
busy_bit (reading lba) busy = elim (Bool-cases (ltb 0 busy)) [
  | inl e ↦ rw e refl
  | inr e ↦ rw e refl
]
busy_bit (writing lba) busy = elim (Bool-cases (ltb 0 busy)) [
  | inl e ↦ rw e refl
  | inr e ↦ rw e refl
]

data_bit : (p : Phase) → p ≢ idle → has_data (status_of p 0) ≡ true
data_bit idle going = absurd (going refl)
data_bit (reading lba) going = refl
data_bit (writing lba) going = refl

ports-IsController : IsController ports hd view
ports-IsController = record {
  outb_reg = λ port value q c small ne. rw (ne→== port 0x1F7 ne) refl;
  outb_sectors = λ port value c ne a. rw (ne→== port 0x1F7 ne) refl;
  read_command =
      λ lba c top sel. (ap reading (lba-selected lba c top sel), λ a. refl, omega arith, refl);
  write_command =
      λ lba c top sel. (ap writing (lba-selected lba c top sel), λ a. refl, omega arith);
  status = λ c. (busy_bit c.phase c.busy, (refl, λ a. refl), refl);
  ready = λ c going done. rw done (data_bit c.phase going);
  waits = λ c. ((refl, λ a. refl), refl);
  data_in = λ lba c ph done. (λ k l. rw ph refl, λ a. rw ph refl);
  data_out = λ lba bytes c ph done. (λ a. rw ph refl, rw ph refl);
}

abbrev channel : Channel Device
channel = record {
  controller = record {
    reg = λ p. 0;
    phase = idle;
    busy = 0;
    sectors = λ a. a % 251;
    raised = false;
  };
  memory = λ a. 0;
  expecting_intr = false;
  disk_done = 0;
}

abbrev fs : Fs
fs = record blank { disk = λ a. a % 251 }

channel-IsFree : IsFree ports hd view channel
channel-IsFree = record { expects = refl; none_done = refl }

channel-Shows : Shows ports hd view channel fs
channel-Shows = record { memory = λ a. refl; disk = λ a. refl }

ide_read_lem_example :
    (s' : Channel Device) × (ide_read ports hd 5 1000 1 channel ≡ some s')
    × Shows ports hd view s' (copy_in 5 1000 1 fs)
    × IsFree ports hd view s'
ide_read_lem_example =
    ide_read_lem ports hd view ports-IsController refl channel fs channel-Shows channel-IsFree 5
      1000 (omega arith)

ide_write_lem_example :
    (s' : Channel Device) × (ide_write ports hd 5 1000 1 channel ≡ some s')
    × Shows ports hd view s' (copy_out 5 1000 1 fs)
    × IsFree ports hd view s'
ide_write_lem_example =
    ide_write_lem ports hd view ports-IsController refl channel fs channel-Shows channel-IsFree 5
      1000 (omega arith)
