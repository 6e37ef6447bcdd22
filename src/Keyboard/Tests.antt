-- ===== src/Keyboard/Tests.antt =====
-- The theorems about the keyboard's handler while Shift is held.
use jack_os.Base.{◌≡◌, refl, true, false, some, none, arith}
use jack_os.Thread.{Kernel}
use jack_os.Thread.Queue.{IsValid}
use jack_os.Thread.Tests.{busy, busy-IsValid}
use jack_os.Sync.{mutex_init}
use jack_os.IoQueue.{IoQueue}
use jack_os.IoQueue.Ring.{contents, IsRing}
use jack_os.Keyboard.{Keyboard, intr_keyboard_handler}
use jack_os.Keyboard.Keys.{typed, char_of, KeysAfter, intr_keyboard_handler_lem}

abbrev shifted : Keyboard
shifted = record {
  ctrl_status = false;
  shift_status = true;
  alt_status = false;
  capslock_status = false;
  ext_scancode = false;
}

abbrev kbd_buf : IoQueue
kbd_buf = record {
  mutex = mutex_init;
  producer = none;
  consumer = some 4;
  buf = λ a. 0;
  head = 63;
  tail = 63;
}

kbd_buf-IsRing : IsRing kbd_buf
kbd_buf-IsRing = record { head_in = omega arith; tail_in = omega arith }

intr_keyboard_handler_lem_example :
    (kbd' : Keyboard) × (kbd_buf' : IoQueue) × (k' : Kernel) × (intr_keyboard_handler 0x1E 0 shifted
        kbd_buf busy
      ≡ some (kbd', kbd_buf', k'))
    × KeysAfter 0x1E shifted kbd'
    × IsValid k'
    × IsRing kbd_buf'
    × (contents kbd_buf' ≡ typed (char_of shifted 0x1E) false (contents kbd_buf))
intr_keyboard_handler_lem_example =
    intr_keyboard_handler_lem 0x1E 0 shifted kbd_buf refl (omega arith) (λ e. omega arith)
      busy-IsValid refl kbd_buf-IsRing refl
