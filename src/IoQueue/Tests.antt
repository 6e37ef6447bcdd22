-- ===== src/IoQueue/Tests.antt =====
-- The theorems about the queue of device/ioqueue.c at small queues.
use jack_os.Base.{ℕ, ◌≡◌, refl, none, some, [], ◌∷◌, arith, update}
use jack_os.Thread.{Kernel}
use jack_os.Thread.Queue.{IsValid}
use jack_os.Thread.Tests.{busy, busy-IsValid}
use jack_os.Sync.{mutex_init}
use jack_os.IoQueue.{ioqueue_init, IoQueue, ioq_length, getchar_finish}
use jack_os.IoQueue.Ring.{contents, IsRing, bytes}
use jack_os.IoQueue.Fifo.{getchar_finish_lem}

-- The bytes 65 and 66 around the end of the buffer; thread 4 waits to read.
abbrev two_bytes : IoQueue
two_bytes = record {
  mutex = mutex_init;
  producer = none;
  consumer = some 4;
  buf = update (update (λ a. 0) 63 65) 0 66;
  head = 1;
  tail = 63;
}

two_bytes-IsRing : IsRing two_bytes
two_bytes-IsRing = record { head_in = omega arith; tail_in = omega arith }

abbrev no_bytes : IoQueue
no_bytes = record two_bytes { consumer = none; tail = 1 }

reads : contents two_bytes ≡ 65 ∷ 66 ∷ []
unfolding contents bytes ioq_length
reads = refl

reads_none : contents no_bytes ≡ []
unfolding contents bytes ioq_length
reads_none = refl

starts_empty : contents (ioqueue_init two_bytes) ≡ []
unfolding ioqueue_init contents bytes ioq_length
starts_empty = refl

getchar_finish_lem_example :
    (byte : ℕ) × (ioq' : IoQueue) × (k' : Kernel) × (getchar_finish two_bytes busy
      ≡ some (byte, ioq', k'))
    × IsRing ioq'
    × IsValid k'
    × (contents two_bytes ≡ byte ∷ contents ioq')
    × (ioq'.producer ≡ none)
    × (k'.ready_list ≡ 2 ∷ 3 ∷ [])
    × (k'.intr ≡ busy.intr)
getchar_finish_lem_example =
    getchar_finish_lem two_bytes busy-IsValid two_bytes-IsRing (omega arith) tt
