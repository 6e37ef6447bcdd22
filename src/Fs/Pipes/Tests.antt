-- ===== src/Fs/Pipes/Tests.antt =====
-- The theorems about pipes for a queue with two bytes.
use jack_os.Base.{
  ◌+◌, ◌-◌, ◌≡◌, [], ◌∷◌, ◌++◌, some, none, refl, arith, length, take, drop, ltb, leb,
  if◌then◌else◌,
}
use jack_os.Thread.{Kernel}
use jack_os.Thread.Tests.{busy, busy-IsValid}
use jack_os.Sync.{mutex_init}
use jack_os.IoQueue.{IoQueue, ioq_length}
use jack_os.IoQueue.Ring.{contents, bytes}
use jack_os.Fs.Pipes.{Outcome, pipe_read, pipe_write}
use jack_os.Fs.Pipes.Full.{IsPipe, pipe_read_lem, pipe_write_lem}

abbrev ioq : IoQueue
ioq = record {
  mutex = mutex_init;
  producer = none;
  consumer = none;
  buf = λ i. if ltb i 1 then 66 else 65;
  head = 1;
  tail = 63;
}

ioq-IsPipe : IsPipe ioq busy
ioq-IsPipe = record {
  valid = busy-IsValid;
  ring = record { head_in = omega arith; tail_in = omega arith };
  off = refl;
  consumer = tt;
  producer = tt;
}

holds_two : contents ioq ≡ 65 ∷ 66 ∷ []
unfolding contents bytes ioq_length
holds_two = refl

pipe_read_lem_example :
    (ioq' : IoQueue) × (k' : Kernel) × (pipe_read 5 ioq busy
      ≡ some (
          Outcome.returned
            (take
              (if ltb 5 (length (contents ioq)) then 5 else length (contents ioq))
              (contents ioq))
            ioq'
            k'))
    × (contents ioq'
        ≡ drop (if ltb 5 (length (contents ioq)) then 5 else length (contents ioq)) (contents ioq))
pipe_read_lem_example = pipe_read_lem 5 ioq busy ioq-IsPipe

pipe_write_lem_example :
    if leb (length (contents ioq) + 1) 63
    then ((ioq' : IoQueue) × (k' : Kernel) × (pipe_write (67 ∷ []) ioq busy
          ≡ some (Outcome.returned 1 ioq' k'))
        × (contents ioq' ≡ contents ioq ++ 67 ∷ []))
    else ((ioq' : IoQueue) × (k' : Kernel) × (pipe_write (67 ∷ []) ioq busy
          ≡ some (Outcome.waiting (63 - length (contents ioq)) ioq' k'))
        × (length (contents ioq') ≡ 63))
pipe_write_lem_example = pipe_write_lem (67 ∷ []) ioq busy ioq-IsPipe
