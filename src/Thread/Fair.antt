-- ===== src/Thread/Fair.antt =====
-- Round robin: how long a ready thread waits while the timer preempts the others.
use jack_os.Base.{
  ℕ, zero, suc, ◌≡◌, refl, ◌∙◌, ap, true, Option, some, List, [], ◌∷◌, ◌++◌, append_assoc, length,
  ◌>>=◌,
}
use jack_os.Interrupt.{intr_off}
use jack_os.Thread.{Tid, Kernel, is_running, schedule}
use jack_os.Thread.Queue.{IsValid}
use jack_os.Thread.Schedule.{or_idle, or_idle-snoc, waiting_line, schedule_lem}

-- `n` preemptions, one after the other.
pub schedules : ℕ → Kernel → Option Kernel
schedules zero k = some k
schedules (suc n) k = schedule k >>= schedules n

preempt_lem :
    {k : Kernel}
    → IsValid k
    → k.intr ≡ intr_off
    → (k' : Kernel) × (schedule k ≡ some k')
      × IsValid k'
      × (k'.current ∷ k'.ready_list ≡ k.ready_list ++ k.current ∷ [])
      × (k'.intr ≡ intr_off)
preempt_lem {k} v off =
    let (k', e, valid, line, same, off') = schedule_lem v.queue off in
    let r : is_running (k.status k.current) ≡ true = rw v.running refl in
    let whole : or_idle k.idle_thread (waiting_line k) ≡ k.ready_list ++ k.current ∷ [] =
      rw r (or_idle-snoc k.idle_thread k.current k.ready_list) in
    (k', e, valid, line ∙ whole, off')

-- A thread with `n` threads before it in the ready list has the CPU after `n + 1` preemptions, if
-- nothing but the timer changes the list meanwhile; no one of them panics.
pub schedules-current :
    {k : Kernel} (xs ys : List Tid) (t : Tid)
    → IsValid k
    → k.intr ≡ intr_off
    → k.ready_list ≡ xs ++ t ∷ ys
    → (k' : Kernel) × (schedules (suc (length xs)) k ≡ some k') × (k'.current ≡ t) × IsValid k'
unfolding schedules
schedules-current {k} [] ys t v off e =
    let (k', run, valid, line, off') = preempt_lem v off in
    let first : k'.current ∷ k'.ready_list ≡ t ∷ (ys ++ k.current ∷ []) =
      line ∙ ap (λ l. l ++ k.current ∷ []) e in
    (k', rw run refl, cc first, valid)
schedules-current {k} (x ∷ xs) ys t v off e =
    let (k1, run, valid, line, off1) = preempt_lem v off in
    let all : k1.current ∷ k1.ready_list ≡ x ∷ ((xs ++ t ∷ ys) ++ k.current ∷ []) =
      line ∙ ap (λ l. l ++ k.current ∷ []) e in
    let rest : k1.ready_list ≡ xs ++ t ∷ (ys ++ k.current ∷ []) =
      cc all ∙ append_assoc xs (t ∷ ys) (k.current ∷ []) in
    let (k2, runs, cur, valid2) =
      schedules-current {k = k1} xs (ys ++ k.current ∷ []) t valid off1 rest in
    (k2, rw run runs, cur, valid2)
