-- ===== src/Fs/Pipes/Full.antt =====
-- What `pipe_read` and `pipe_write` of shell/pipe.c do on the bytes of the queue.
use jack_os.Base.{
  ℕ, zero, suc, ◌+◌, ◌-◌, ◌<◌, ◌≤◌, ◌≡◌, ◌≢◌, refl, sym, subst, ◌∙◌, ap, List, [], ◌∷◌, ◌++◌, some,
  arith, append_assoc, append-nil, length, length-append, take, drop, ltb, leb, ne→==, eq→==, inl,
  inr, if◌then◌else◌, Bool-cases,
}
use jack_os.Interrupt.{intr_off}
use jack_os.Thread.{Kernel}
use jack_os.Thread.Queue.{IsValid}
use jack_os.IoQueue.{IoQueue, next_pos, ioq_length}
use jack_os.IoQueue.Ring.{contents, IsRing, length-contents}
use jack_os.IoQueue.Fifo.{getchar_finish_lem, putchar_finish_lem, enter_lem, Sleeps}
use jack_os.Fs.Pipes.{Outcome, read_loop, pipe_read, write_loop, pipe_write}

-- The queue of a pipe, with interrupts off, and the threads that wait in it asleep.
pub record IsPipe (ioq : IoQueue) (k : Kernel) : Type 0 where
  pub valid : IsValid k
  pub ring : IsRing ioq
  pub off : k.intr ≡ intr_off
  pub consumer : Sleeps k ioq.consumer
  pub producer : Sleeps k ioq.producer

more_lem : (ioq : IoQueue) → IsRing ioq → 0 < ioq_length ioq → ioq.head ≢ ioq.tail
unfolding ioq_length
more_lem ioq ring h e = ground arith

room_lem : (ioq : IoQueue) → IsRing ioq → ioq_length ioq < 63 → next_pos ioq.head ≢ ioq.tail
unfolding ioq_length
room_lem ioq ring h e = ground (arith, ring.head_in, ring.tail_in)

length-bound : (ioq : IoQueue) → IsRing ioq → length (contents ioq) ≤ 63
unfolding ioq_length
length-bound ioq ring = ground (arith, length-contents ioq, ring.head_in, ring.tail_in)

read_lem :
    (n : ℕ) (got : List ℕ) (ioq : IoQueue) (k : Kernel)
    → IsValid k
    → IsRing ioq
    → k.intr ≡ intr_off
    → Sleeps k ioq.producer
    → n ≤ length (contents ioq)
    → (ioq' : IoQueue) × (k' : Kernel) × (read_loop n got ioq k
        ≡ some (Outcome.returned (got ++ take n (contents ioq)) ioq' k'))
      × (contents ioq' ≡ drop n (contents ioq))
unfolding read_loop
read_lem zero got ioq k valid ring off sleeps room = (ioq, k, rw append-nil refl, refl)
read_lem (suc n) got ioq k valid ring off sleeps room =
    let (enter, put, len) = enter_lem k ioq ring off in
    let (byte, ioq₁, k₁, e, ring₁, valid₁, first, alone, line, flag) =
      getchar_finish_lem ioq valid ring (more_lem ioq ring (omega (arith, len))) sleeps in
    let (ioq', k', e', rest) =
      read_lem n (got ++ byte ∷ []) ioq₁ k₁ valid₁ ring₁ (flag ∙ off)
        (subst (Sleeps k₁) (sym alone) tt) (omega (arith, ap length first)) in
    let some_left = ne→== (length (contents ioq)) 0 (omega arith) in
    (
      ioq',
      k',
      rw (enter, some_left, e, e')
          (ap (λ l. some (Outcome.returned l ioq' k'))
            (append_assoc got (byte ∷ []) (take n (contents ioq₁))
              ∙ ap (λ l. got ++ take (suc n) l) (sym first))),
      rest ∙ ap (drop (suc n)) (sym first),
    )

-- `pipe_read`, with interrupts off and the threads that wait in the queue asleep, returns without
-- waiting: the first `count` bytes of the queue, or all of them if there are fewer. They are taken off.
pub pipe_read_lem :
    (count : ℕ) (ioq : IoQueue) (k : Kernel)
    → IsPipe ioq k
    → let n = if ltb count (length (contents ioq)) then count else length (contents ioq) in
      (ioq' : IoQueue) × (k' : Kernel) × (pipe_read count ioq k
        ≡ some (Outcome.returned (take n (contents ioq)) ioq' k'))
      × (contents ioq' ≡ drop n (contents ioq))
unfolding pipe_read
pipe_read_lem count ioq k p =
    let len = (enter_lem k ioq p.ring p.off).2 in
    let (ioq', k', e, rest) =
      read_lem (if ltb count (length (contents ioq)) then count else length (contents ioq)) [] ioq k
        p.valid p.ring p.off p.producer (ground arith) in
    (ioq', k', rw (len, e) refl, rest)

-- The bytes fit, or one does not.
write_fits :
    (buf : List ℕ) (n : ℕ) (ioq : IoQueue) (k : Kernel)
    → IsValid k
    → IsRing ioq
    → k.intr ≡ intr_off
    → Sleeps k ioq.consumer
    → length (contents ioq) + length buf ≤ 63
    → (ioq' : IoQueue) × (k' : Kernel) × (write_loop buf n ioq k
        ≡ some (Outcome.returned (n + length buf) ioq' k'))
      × (contents ioq' ≡ contents ioq ++ buf)
unfolding write_loop
write_fits [] n ioq k valid ring off sleeps room =
    let q : n + 0 ≡ n = omega arith in (ioq, k, rw q refl, rw append-nil refl)
write_fits (byte ∷ buf) n ioq k valid ring off sleeps room =
    let (get, enter, len) = enter_lem k ioq ring off in
    let open_ = ne→== (length (contents ioq)) 63 (omega arith) in
    let (ioq₁, k₁, e, ring₁, valid₁, line, alone, ready, flag) =
      putchar_finish_lem ioq byte valid ring (room_lem ioq ring (omega (arith, len))) sleeps in
    let more : length (contents ioq₁) ≡ length (contents ioq) + 1 =
      ap length line ∙ length-append (contents ioq) (byte ∷ []) in
    let (ioq', k', e', rest) =
      write_fits buf (n + 1) ioq₁ k₁ valid₁ ring₁ (flag ∙ off) (subst (Sleeps k₁) (sym alone) tt)
        (omega (arith, more)) in
    let q : n + 1 + length buf ≡ n + suc (length buf) = omega arith in
    (ioq', k', rw (enter, open_, e, e', q) refl, rw (rest, line, append_assoc) refl)

write_waits :
    (buf : List ℕ) (n : ℕ) (ioq : IoQueue) (k : Kernel)
    → IsValid k
    → IsRing ioq
    → k.intr ≡ intr_off
    → Sleeps k ioq.consumer
    → length (contents ioq) + length buf ≡ 64
    → 0 < length buf
    → (ioq' : IoQueue) × (k' : Kernel) × (write_loop buf n ioq k
        ≡ some (Outcome.waiting (n + length buf - 1) ioq' k'))
      × (length (contents ioq') ≡ 63)
unfolding write_loop
write_waits [] n ioq k valid ring off sleeps room more = absurd (omega arith)
write_waits (byte ∷ []) n ioq k valid ring off sleeps room more =
    let (get, enter, len) = enter_lem k ioq ring off in
    let full = eq→== (length (contents ioq)) 63 (omega arith) in
    let q : n + 1 - 1 ≡ n = omega arith in (ioq, k, rw (enter, full, q) refl, omega arith)
write_waits (byte ∷ next ∷ buf) n ioq k valid ring off sleeps room more =
    let (get, enter, len) = enter_lem k ioq ring off in
    let open_ = ne→== (length (contents ioq)) 63 (omega arith) in
    let (ioq₁, k₁, e, ring₁, valid₁, line, alone, ready, flag) =
      putchar_finish_lem ioq byte valid ring (room_lem ioq ring (omega (arith, len))) sleeps in
    let longer : length (contents ioq₁) ≡ length (contents ioq) + 1 =
      ap length line ∙ length-append (contents ioq) (byte ∷ []) in
    let (ioq', k', e', rest) =
      write_waits (next ∷ buf) (n + 1) ioq₁ k₁ valid₁ ring₁ (flag ∙ off)
        (subst (Sleeps k₁) (sym alone) tt) (omega (arith, longer)) (omega arith) in
    let q : n + 1 + suc (length buf) - 1 ≡ n + suc (suc (length buf)) - 1 = omega arith in
    (ioq', k', rw (enter, open_, e, e', q) refl, rest)

length-take :
    (n : ℕ) (xs : List ℕ) → length (take n xs) ≡ (if leb n (length xs) then n else length xs)
length-take zero xs = ground arith
length-take (suc n) [] = ground arith
length-take (suc n) (x ∷ xs) = ground (arith, length-take n xs)

take-all : (xs : List ℕ) → take (length xs) xs ≡ xs
take-all [] = refl
take-all (x ∷ xs) = ap (λ l. x ∷ l) (take-all xs)

-- `pipe_write`, with interrupts off and the threads that wait in the queue asleep: if the bytes fit
-- behind those in the queue, at most 63 in all, they are put there and their number is returned. If
-- they do not, the call fills the queue to 63 bytes and then waits in it for room, having
-- written as many bytes as were missing to 63.
pub pipe_write_lem :
    (buf : List ℕ) (ioq : IoQueue) (k : Kernel)
    → IsPipe ioq k
    → if leb (length (contents ioq) + length buf) 63
      then ((ioq' : IoQueue) × (k' : Kernel) × (pipe_write buf ioq k
            ≡ some (Outcome.returned (length buf) ioq' k'))
          × (contents ioq' ≡ contents ioq ++ buf))
      else ((ioq' : IoQueue) × (k' : Kernel) × (pipe_write buf ioq k
            ≡ some (Outcome.waiting (63 - length (contents ioq)) ioq' k'))
          × (length (contents ioq') ≡ 63))
unfolding pipe_write
pipe_write_lem buf ioq k p =
    let len = (enter_lem k ioq p.ring p.off).2 in
    let top = length-bound ioq p.ring in
    elim (Bool-cases (leb (length (contents ioq) + length buf) 63)) [
      | inl fits ↦
          let all : (if ltb (length buf) (64 - length (contents ioq))
                then length buf
                else 64 - length (contents ioq))
              ≡ length buf =
            ground arith in
          let (ioq', k', e, rest) =
            write_fits buf 0 ioq k p.valid p.ring p.off p.consumer (ground arith) in
          let q : 0 + length buf ≡ length buf = omega arith in
          rw fits (
            ioq',
            k',
            rw (len, all, take-all buf, e) (ap (λ n. some (Outcome.returned n ioq' k')) q),
            rest,
          )
      | inr over ↦
          let part : (if ltb (length buf) (64 - length (contents ioq))
                then length buf
                else 64 - length (contents ioq))
              ≡ 64 - length (contents ioq) =
            ground arith in
          let size : length (take (64 - length (contents ioq)) buf) ≡ 64 - length (contents ioq) =
            length-take (64 - length (contents ioq)) buf ∙ ground arith in
          let run : pipe_write buf ioq k
              ≡ write_loop (take (64 - length (contents ioq)) buf) 0 ioq k =
            rw (len, part) refl in
          let (ioq', k', e, rest) =
            write_waits (take (64 - length (contents ioq)) buf) 0 ioq k p.valid p.ring p.off
              p.consumer (omega (arith, size, top)) (omega (arith, size, top)) in
          let q : 0 + length (take (64 - length (contents ioq)) buf) - 1
              ≡ 63 - length (contents ioq) =
            omega (arith, size) in
          rw over (ioq', k', run ∙ e ∙ ap (λ n. some (Outcome.waiting n ioq' k')) q, rest)
    ]
