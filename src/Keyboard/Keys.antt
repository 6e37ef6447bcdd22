-- ===== src/Keyboard/Keys.antt =====
-- What the handler of device/keyboard.c makes of a byte: the keys held, the characters, the queue.
use jack_os.Base.{
  ℕ, ◌+◌, ◌-◌, ◌≤◌, ◌≡◌, ◌≢◌, refl, ◌∙◌, ap, Bool, true, false, not, ◌&&◌, ◌||◌, Bool-cases, some,
  List, [], ◌∷◌, ◌++◌, arith, ltb, ◌==◌, if◌then◌else◌, get_or, inl, inr, ==→ne, ==→eq, ne→==,
  subst,
}
use jack_os.Bitmap.Bits.{upto, upto-apply, eqb, eqb→eq}
use jack_os.Interrupt.{intr_off}
use jack_os.Thread.{Kernel, is_off}
use jack_os.Thread.Queue.{IsValid}
use jack_os.IoQueue.{IoQueue, next_pos, ioq_full}
use jack_os.IoQueue.Ring.{contents, IsRing}
use jack_os.IoQueue.Fifo.{Sleeps, putchar_finish_lem}
use jack_os.Keyboard.{
  Keyboard, keymap, is_sign, second_column, key_released, key_char, control_pressed,
  handle_scancode, read_key, intr_keyboard_handler,
}

-- Whether a key counts as held: its press sets it, its release clears it, other bytes leave it.
abbrev pub held : Bool → Bool → Bool → Bool
held pressed released before = if pressed then true else if released then false else before

abbrev pub shift_after : ℕ → Bool → Bool
shift_after b = held ((b == 0x2A) || (b == 0x36)) ((b == 0xAA) || (b == 0xB6))

abbrev pub ctrl_after : ℕ → Bool → Bool
ctrl_after b = held (b == 0x1D) (b == 0x9D)

abbrev pub alt_after : ℕ → Bool → Bool
alt_after b = held (b == 0x38) (b == 0xB8)

abbrev pub capslock_after : ℕ → Bool → Bool
capslock_after b before = if b == 0x3A then not before else before

-- The key of a small letter.
abbrev pub is_letter : ℕ → Bool
is_letter b = let c = (get_or keymap b (0, 0)).0 in ltb b 0x3B && (ltb 96 c && ltb c 123)

-- The character that a byte types: Shift turns every key to its other character, Caps Lock only letters,
-- whose other character is the capital; with Ctrl, `l` and `u` become 11 and 20. A release types none.
abbrev pub char_of : Keyboard → ℕ → ℕ
char_of kbd b =
    let (plain, other) = get_or keymap b (0, 0) in
    let c =
      if is_letter b
      then (if eqb kbd.shift_status kbd.capslock_status then plain else plain - 32)
      else (if kbd.shift_status then other else plain) in
    if not (ltb b 0x3B)
    then 0
    else if kbd.ctrl_status && ((c == 108) || (c == 117))
    then c - 97
    else c

abbrev state : Bool → Bool → Bool → Bool → Keyboard
state c s a l = record {
  ctrl_status = c;
  shift_status = s;
  alt_status = a;
  capslock_status = l;
  ext_scancode = false;
}

abbrev keys_ok : Bool → Bool → Bool → Bool → ℕ → Bool
keys_ok c s a l b =
    let k = (handle_scancode b (state c s a l)).0 in
    (b == 0xE0)
    || (eqb k.shift_status (shift_after b s)
        && (eqb k.ctrl_status (ctrl_after b c)
            && (eqb k.alt_status (alt_after b a)
                && (eqb k.capslock_status (capslock_after b l) && eqb k.ext_scancode false))))

abbrev char_ok : Bool → Bool → Bool → Bool → ℕ → Bool
char_ok c s a l b =
    (b == 0xE0) || ((handle_scancode b (state c s a l)).1 == char_of (state c s a l) b)

abbrev both : (Bool → Bool) → Bool
both p = p true && p false

both-apply : (p : Bool → Bool) → both p ≡ true → (b : Bool) → p b ≡ true
both-apply p h true = ground arith
both-apply p h false = ground arith

abbrev row : (Bool → Bool → Bool → Bool → ℕ → Bool) → Bool → Bool → Bool → Bool → Bool
row p c s a l = upto (p c s a l) 255

abbrev rows : (Bool → Bool → Bool → Bool → ℕ → Bool) → Bool
rows p = both (λ c. both (λ s. both (λ a. both (λ l. row p c s a l))))

rows-apply :
    (p : Bool → Bool → Bool → Bool → ℕ → Bool)
    → rows p ≡ true
    → (c s a l : Bool) (b : ℕ) → b ≤ 255
    → p c s a l b ≡ true
rows-apply p h c s a l =
    let h1 = both-apply (λ c. both (λ s. both (λ a. both (λ l. row p c s a l)))) h c in
    let h2 = both-apply (λ s. both (λ a. both (λ l. row p c s a l))) h1 s in
    let h3 = both-apply (λ a. both (λ l. row p c s a l)) h2 a in
    let h4 = both-apply (λ l. row p c s a l) h3 l in upto-apply (p c s a l) 255 h4

tables : (rows keys_ok ≡ true) × (rows char_ok ≡ true)
unfolding upto handle_scancode key_released key_char second_column is_sign control_pressed
tables = (refl, refl)

second : (e x : Bool) → e ≡ false → (e || x) ≡ true → x ≡ true
second e x he h = ground arith

-- The state of the keys after a byte: the Shifts, the left Ctrl and the left Alt are held from press to
-- release, and a press of Caps Lock turns its state over.
abbrev pub KeysAfter : ℕ → Keyboard → Keyboard → Type 0
KeysAfter b kbd k =
    (k.shift_status ≡ shift_after b kbd.shift_status)
    × (k.ctrl_status ≡ ctrl_after b kbd.ctrl_status)
    × (k.alt_status ≡ alt_after b kbd.alt_status)
    × (k.capslock_status ≡ capslock_after b kbd.capslock_status)
    × (k.ext_scancode ≡ false)

module _ (kbd : Keyboard) (b port_again : ℕ) (ext : kbd.ext_scancode ≡ false) (byte : b ≤ 255)
    (ne : b ≢ 0xE0) where
  read_key-eq :
      read_key b port_again kbd
      ≡ handle_scancode b
          (state kbd.ctrl_status kbd.shift_status kbd.alt_status kbd.capslock_status)
  unfolding read_key
  read_key-eq =
      let same : kbd ≡ record kbd { ext_scancode = false } =
        ap (λ e. record kbd { ext_scancode = e }) ext in
      let plain : (b == 0xE0) ≡ false = ground arith in
      let step : read_key b port_again kbd ≡ handle_scancode b kbd = rw plain (
        ap
          (λ e.
            if e
            then handle_scancode (0xE000 + port_again) (record kbd { ext_scancode = false })
            else handle_scancode b kbd)
          ext) in
      step ∙ ap (handle_scancode b) same

  -- The keys held after the byte.
  held_keys_lem : KeysAfter b kbd (read_key b port_again kbd).0
  held_keys_lem =
      let k =
        (handle_scancode b
          (state kbd.ctrl_status kbd.shift_status kbd.alt_status kbd.capslock_status)).0 in
      let t =
        rows-apply keys_ok tables.0 kbd.ctrl_status kbd.shift_status kbd.alt_status
          kbd.capslock_status b byte in
      rw read_key-eq (
        eqb→eq k.shift_status (shift_after b kbd.shift_status) (ground arith),
        eqb→eq k.ctrl_status (ctrl_after b kbd.ctrl_status) (ground arith),
        eqb→eq k.alt_status (alt_after b kbd.alt_status) (ground arith),
        eqb→eq k.capslock_status (capslock_after b kbd.capslock_status) (ground arith),
        eqb→eq k.ext_scancode false (ground arith),
      )

  char_lem : (read_key b port_again kbd).1 ≡ char_of kbd b
  char_lem =
      let k = state kbd.ctrl_status kbd.shift_status kbd.alt_status kbd.capslock_status in
      let t =
        rows-apply char_ok tables.1 kbd.ctrl_status kbd.shift_status kbd.alt_status
          kbd.capslock_status b byte in
      ap (λ r. r.1) read_key-eq
      ∙ ==→eq (handle_scancode b k).1 (char_of k b) (second (b == 0xE0) _ (ne→== b 0xE0 ne) t)

-- What the queue holds after a character: 0 is none, and a full queue drops it.
abbrev pub typed : ℕ → Bool → List ℕ → List ℕ
typed c full bytes = if (c == 0) || full then bytes else bytes ++ c ∷ []

-- What `read_key` makes of the bytes goes to the queue.
queued_lem :
    {k : Kernel} (port port_again : ℕ) (kbd : Keyboard) (kbd_buf : IoQueue)
    → IsValid k
    → k.intr ≡ intr_off
    → IsRing kbd_buf
    → Sleeps k kbd_buf.consumer
    → (kbd_buf' : IoQueue) × (k' : Kernel) × (intr_keyboard_handler port port_again kbd kbd_buf k
        ≡ some ((read_key port port_again kbd).0, kbd_buf', k'))
      × IsValid k'
      × IsRing kbd_buf'
      × (contents kbd_buf'
          ≡ typed
              (read_key port port_again kbd).1
              (next_pos kbd_buf.head == kbd_buf.tail)
              (contents kbd_buf))
unfolding intr_keyboard_handler ioq_full
queued_lem {k} port port_again kbd kbd_buf v off ring s =
    let on : is_off k.intr ≡ true = ap is_off off in
    let c = (read_key port port_again kbd).1 in
    elim (Bool-cases (c == 0)) [
      | inl z ↦ (kbd_buf, k, rw z refl, v, ring, rw z refl)
      | inr ch ↦ elim (Bool-cases (next_pos kbd_buf.head == kbd_buf.tail)) [
        | inl full ↦ (kbd_buf, k, rw (ch, on, full) refl, v, ring, rw (ch, full) refl)
        | inr room ↦
            let (ioq', k', e, ring', valid, line, woken, ready, flag) =
              putchar_finish_lem kbd_buf c v ring (==→ne (next_pos kbd_buf.head) kbd_buf.tail room)
                s in
            (ioq', k', rw (ch, on, room, e) refl, valid, ring', rw (ch, room) line)
      ]
    ]

-- With interrupts off, and the consumer that waits for the queue asleep, the handler of a byte other than
-- 0xE0 that does not follow a 0xE0 does not panic. It keeps the state of the scheduler valid, sets the
-- state of the keys held, and puts the character that the byte types behind those in the queue, unless
-- there is none or the queue is full. Shift gives the other character of a key, Caps Lock the capital of
-- a letter, and both together the small letter; with Ctrl, l and u give 11 and 20.
pub intr_keyboard_handler_lem :
    {k : Kernel} (b port_again : ℕ) (kbd : Keyboard) (kbd_buf : IoQueue)
    → kbd.ext_scancode ≡ false
    → b ≤ 255
    → b ≢ 0xE0
    → IsValid k
    → k.intr ≡ intr_off
    → IsRing kbd_buf
    → Sleeps k kbd_buf.consumer
    → (kbd' : Keyboard) × (kbd_buf' : IoQueue) × (k' : Kernel) × (intr_keyboard_handler b port_again
          kbd kbd_buf k
        ≡ some (kbd', kbd_buf', k'))
      × KeysAfter b kbd kbd'
      × IsValid k'
      × IsRing kbd_buf'
      × (contents kbd_buf'
          ≡ typed (char_of kbd b) (next_pos kbd_buf.head == kbd_buf.tail) (contents kbd_buf))
intr_keyboard_handler_lem b port_again kbd kbd_buf ext byte ne v off ring s =
    let (kbd_buf', k', e, valid, ring', line) = queued_lem b port_again kbd kbd_buf v off ring s in
    (
      (read_key b port_again kbd).0,
      kbd_buf',
      k',
      e,
      held_keys_lem kbd b port_again ext byte ne,
      valid,
      ring',
      subst
          (λ c.
            contents kbd_buf' ≡ typed c (next_pos kbd_buf.head == kbd_buf.tail) (contents kbd_buf))
          (char_lem kbd b port_again ext byte ne) line,
    )
