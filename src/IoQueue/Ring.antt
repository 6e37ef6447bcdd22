-- ===== src/IoQueue/Ring.antt =====
-- The ring buffer of device/ioqueue.h as the sequence of the bytes in it.
use jack_os.Base.{
  ℕ, zero, suc, ◌+◌, ◌%◌, ◌≡◌, ◌≢◌, ◌<◌, refl, ◌∙◌, ap, ap₂, List, [], ◌∷◌, ◌++◌, arith, length,
  ◌==◌, update, update_self, update_ne, subst,
}
use jack_os.IoQueue.{IoQueue, next_pos, ioq_length}

-- `n` bytes from `pos` on.
unfoldable pub bytes : (ℕ → ℕ) → ℕ → ℕ → List ℕ
bytes buf pos zero = []
bytes buf pos (suc n) = buf pos ∷ bytes buf (next_pos pos) n

unfoldable pub contents : IoQueue → List ℕ
contents ioq = bytes ioq.buf ioq.tail (ioq_length ioq)

-- The indices are in the buffer.
pub record IsRing (ioq : IoQueue) : Type 0 where
  pub head_in : ioq.head < 64
  pub tail_in : ioq.tail < 64

length-bytes : (buf : ℕ → ℕ) (pos n : ℕ) → length (bytes buf pos n) ≡ n
unfolding bytes
length-bytes buf pos zero = refl
length-bytes buf pos (suc n) = ap suc (length-bytes buf (next_pos pos) n)

pub length-contents : (ioq : IoQueue) → length (contents ioq) ≡ ioq_length ioq
unfolding contents
length-contents ioq = length-bytes ioq.buf ioq.tail (ioq_length ioq)

-- A byte written behind `n` bytes comes after them.
pub bytes-snoc :
    (buf : ℕ → ℕ) (pos n byte : ℕ)
    → pos < 64
    → n < 64
    → bytes (update buf ((pos + n) % 64) byte) pos (suc n) ≡ bytes buf pos n ++ byte ∷ []
unfolding bytes
bytes-snoc buf pos zero byte p q =
    let e : (pos + 0) % 64 ≡ pos = omega arith in rw (e, update_self buf pos byte) refl
bytes-snoc buf pos (suc n) byte p q =
    let e : (next_pos pos + n) % 64 ≡ (pos + suc n) % 64 = omega arith in
    let rest = bytes-snoc buf (next_pos pos) n byte (omega arith) (omega arith) in
    subst (λ i. bytes (update buf i byte) pos (suc (suc n)) ≡ bytes buf pos (suc n) ++ byte ∷ []) e
      (ap₂ (λ x l. x ∷ l) (update_ne buf ((next_pos pos + n) % 64) pos byte (omega arith)) rest)

pub length-get :
    (ioq : IoQueue)
    → IsRing ioq
    → ioq.head ≢ ioq.tail
    → ioq_length ioq ≡ suc (ioq_length (record ioq { tail = next_pos ioq.tail }))
unfolding ioq_length
length-get ioq v ne = ground (arith, v.head_in, v.tail_in)

pub length-put :
    (ioq : IoQueue)
    → IsRing ioq
    → next_pos ioq.head ≢ ioq.tail
    → ioq_length (record ioq { head = next_pos ioq.head }) ≡ suc (ioq_length ioq)
unfolding ioq_length
length-put ioq v ne = ground (arith, v.head_in, v.tail_in)

pub head-eq : (ioq : IoQueue) → IsRing ioq → (ioq.tail + ioq_length ioq) % 64 ≡ ioq.head
unfolding ioq_length
head-eq ioq v = ground (arith, v.head_in, v.tail_in)

pub length-empty : (ioq : IoQueue) → IsRing ioq → (ioq.head == ioq.tail) ≡ (ioq_length ioq == 0)
unfolding ioq_length
length-empty ioq v = ground (arith, v.head_in, v.tail_in)

pub length-full :
    (ioq : IoQueue) → IsRing ioq → (next_pos ioq.head == ioq.tail) ≡ (ioq_length ioq == 63)
unfolding ioq_length
length-full ioq v = ground (arith, v.head_in, v.tail_in)

pub put-contents :
    (ioq : IoQueue) (byte : ℕ)
    → IsRing ioq
    → next_pos ioq.head ≢ ioq.tail
    → contents (record ioq { buf = update ioq.buf ioq.head byte; head = next_pos ioq.head })
      ≡ contents ioq ++ byte ∷ []
unfolding contents ioq_length
put-contents ioq byte v room =
    let small : ioq_length ioq < 64 = ground (arith, v.head_in, v.tail_in) in
    ap (bytes (update ioq.buf ioq.head byte) ioq.tail) (length-put ioq v room)
    ∙ subst
        (λ i.
          bytes (update ioq.buf i byte) ioq.tail (suc (ioq_length ioq)) ≡ contents ioq ++ byte ∷ [])
        (head-eq ioq v) (bytes-snoc ioq.buf ioq.tail (ioq_length ioq) byte v.tail_in small)

pub get-contents :
    (ioq : IoQueue)
    → IsRing ioq
    → ioq.head ≢ ioq.tail
    → contents ioq ≡ ioq.buf ioq.tail ∷ contents (record ioq { tail = next_pos ioq.tail })
unfolding contents bytes
get-contents ioq v more = ap (bytes ioq.buf ioq.tail) (length-get ioq v more)
