-- ===== src/Keyboard.antt =====
-- device/keyboard.c: the handler of the keyboard's interrupt. What it reads from the port is an argument:
-- `port` at the first read, `port_again` at the second, which a byte behind 0xE0 makes. Masks of a
-- scancode are written as arithmetic. What the handler prints about an unknown key is left out.
pub mod Keys
mod Tests
use jack_os.Base.{
  ℕ, ◌+◌, ◌-◌, ◌/◌, ◌%◌, Bool, true, false, not, ◌&&◌, ◌||◌, Option, none, some, List, [], ◌∷◌, ltb,
  ◌==◌, if◌then◌else◌, get_or, ◌>>=◌, ◌>>◌,
}
use jack_os.Thread.{Kernel}
use jack_os.IoQueue.{IoQueue, ioq_full, putchar_finish}

-- The static variables.
pub record Keyboard : Type 0 where
  pub ctrl_status : Bool
  pub shift_status : Bool
  pub alt_status : Bool
  pub capslock_status : Bool
  pub ext_scancode : Bool

-- A key's character, and that with Shift.
abbrev pub keymap : List (ℕ × ℕ)
keymap =
    (0, 0)
    ∷ (27, 27)
    ∷ (49, 33)
    ∷ (50, 64)
    ∷ (51, 35)
    ∷ (52, 36)
    ∷ (53, 37)
    ∷ (54, 94)
    ∷ (55, 38)
    ∷ (56, 42)
    ∷ (57, 40)
    ∷ (48, 41)
    ∷ (45, 95)
    ∷ (61, 43)
    ∷ (8, 8)
    ∷ (9, 9)
    ∷ (113, 81)
    ∷ (119, 87)
    ∷ (101, 69)
    ∷ (114, 82)
    ∷ (116, 84)
    ∷ (121, 89)
    ∷ (117, 85)
    ∷ (105, 73)
    ∷ (111, 79)
    ∷ (112, 80)
    ∷ (91, 123)
    ∷ (93, 125)
    ∷ (13, 13)
    ∷ (0, 0)
    ∷ (97, 65)
    ∷ (115, 83)
    ∷ (100, 68)
    ∷ (102, 70)
    ∷ (103, 71)
    ∷ (104, 72)
    ∷ (106, 74)
    ∷ (107, 75)
    ∷ (108, 76)
    ∷ (59, 58)
    ∷ (39, 34)
    ∷ (96, 126)
    ∷ (0, 0)
    ∷ (92, 124)
    ∷ (122, 90)
    ∷ (120, 88)
    ∷ (99, 67)
    ∷ (118, 86)
    ∷ (98, 66)
    ∷ (110, 78)
    ∷ (109, 77)
    ∷ (44, 60)
    ∷ (46, 62)
    ∷ (47, 63)
    ∷ (0, 0)
    ∷ (42, 42)
    ∷ (0, 0)
    ∷ (32, 32)
    ∷ (0, 0)
    ∷ []

-- The key is one of the digits and signs, on which Caps Lock has no effect.
unfoldable pub is_sign : ℕ → Bool
is_sign scancode =
    ltb scancode 0x0E
    || (scancode == 0x29)
    || (scancode == 0x1A)
    || (scancode == 0x1B)
    || (scancode == 0x2B)
    || (scancode == 0x27)
    || (scancode == 0x28)
    || (scancode == 0x33)
    || (scancode == 0x34)
    || (scancode == 0x35)

-- `last`: whether the second column of the keymap counts.
unfoldable pub second_column : ℕ → Keyboard → Bool
unfolding is_sign
second_column scancode kbd =
    if is_sign scancode
    then kbd.shift_status
    else if kbd.shift_status && kbd.capslock_status
    then false
    else kbd.shift_status || kbd.capslock_status

-- A key was released; the scancode is the one of its press.
unfoldable pub key_released : ℕ → Keyboard → Keyboard
key_released make_code kbd =
    if (make_code == 0x1D) || (make_code == 0xE01D)
    then record kbd { ctrl_status = false }
    else if (make_code == 0x38) || (make_code == 0xE038)
    then record kbd { alt_status = false }
    else if (make_code == 0x2A) || (make_code == 0x36)
    then record kbd { shift_status = false }
    else kbd

-- The character of a key that was pressed, with the shortcuts of Ctrl; 0 for none.
unfoldable pub key_char : ℕ → Keyboard → ℕ
unfolding second_column
key_char scancode kbd =
    let chars = get_or keymap (scancode % 256) (0, 0) in
    let cur_char = if second_column scancode kbd then chars.1 else chars.0 in
    if (kbd.ctrl_status && (cur_char == 108)) || (kbd.ctrl_status && (cur_char == 117))
    then cur_char - 97
    else cur_char

-- What a key without a character does; the scancode has lost its high byte.
unfoldable pub control_pressed : ℕ → Keyboard → Keyboard
control_pressed scancode kbd =
    if (scancode == 0x1D) || (scancode == 0xE01D)
    then record kbd { ctrl_status = true }
    else if (scancode == 0x38) || (scancode == 0xE038)
    then record kbd { alt_status = true }
    else if (scancode == 0x2A) || (scancode == 0x36)
    then record kbd { shift_status = true }
    else if scancode == 0x3A
    then record kbd { capslock_status = not kbd.capslock_status }
    else kbd

-- The handler from the test for a break code on, up to the queue: the state, and the character for the
-- queue or 0.
unfoldable pub handle_scancode : ℕ → Keyboard → Keyboard × ℕ
unfolding key_released key_char control_pressed
handle_scancode scancode kbd =
    if scancode / 128 % 2 == 1
    then (key_released (scancode - 128) kbd, 0)
    else if not
        ((ltb 0 scancode && ltb scancode 0x3B) || (scancode == 0xE038) || (scancode == 0xE01D))
    then (kbd, 0)
    else if not (key_char scancode kbd == 0)
    then (kbd, key_char scancode kbd)
    else (control_pressed (scancode % 256) kbd, 0)

-- The bytes read make a scancode, or announce an extended one.
unfoldable pub read_key : ℕ → ℕ → Keyboard → Keyboard × ℕ
unfolding handle_scancode
read_key port port_again kbd =
    if port == 0xE0
    then (record kbd { ext_scancode = true }, 0)
    else if kbd.ext_scancode
    then handle_scancode (0xE000 + port_again) (record kbd { ext_scancode = false })
    else handle_scancode port kbd

-- The handler. `ioq_putchar` tests again what was tested, and does not wait.
unfoldable pub intr_keyboard_handler :
    ℕ → ℕ → Keyboard → IoQueue → Kernel → Option (Keyboard × IoQueue × Kernel)
unfolding read_key
intr_keyboard_handler port port_again kbd kbd_buf k =
    let (kbd, cur_char) = read_key port port_again kbd in
    if not (cur_char == 0)
    then (do
      full ← ioq_full kbd_buf k
      if not full
          then (do (kbd_buf, k) ← putchar_finish cur_char kbd_buf k; some (kbd, kbd_buf, k))
          else some (kbd, kbd_buf, k))
    else some (kbd, kbd_buf, k)
