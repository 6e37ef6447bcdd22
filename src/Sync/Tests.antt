-- ===== src/Sync/Tests.antt =====
-- The theorems about threads that use one mutex, at a run of three threads.
use jack_os.Base.{◌≡◌, ◌≢◌, ◌⊎◌, refl, true, false, Option, none, some, arith, ◌↔◌}
use jack_os.Interrupt.{intr_disable, intr_set_status}
use jack_os.Thread.{Tid, requeue, switch, schedule, thread_block, thread_unblock}
use jack_os.Thread.Queue.{is_awake}
use jack_os.Thread.Tests.{busy, busy-IsValid}
use jack_os.Sync.{mutex_init, sema_init, sema_down_round, acquire_enter, acquire_finish}
use jack_os.Sync.System.{
  down, inside, System, first_acquire, try_down, finish_acquire, tick, Reach, start, later,
  do_acquire, do_down, do_got, do_tick,
}
use jack_os.Sync.Inv.{owns}
use jack_os.Sync.Safety.{fresh, no_panic, mutual_exclusion, no_lost_wakeup}

abbrev or_start : Option System → System
or_start none = fresh busy
or_start (some s) = s

-- Thread 1 acquires; the timer gives the CPU to thread 2, which tries in vain and goes to sleep.
abbrev s1 : System
s1 = do_acquire (fresh busy)

abbrev s2 : System
s2 = or_start (do_down s1)

abbrev s3 : System
s3 = or_start (do_got s2)

abbrev s4 : System
s4 = or_start (do_tick s3)

abbrev s5 : System
s5 = do_acquire s4

abbrev s6 : System
s6 = or_start (do_down s5)

path4 : Reach (fresh busy) (some s4)
unfolding do_acquire do_down do_got do_tick schedule requeue switch thread_block thread_unblock
    sema_down_round acquire_enter acquire_finish intr_disable intr_set_status mutex_init sema_init
path4 =
    later s3
      (later s2
        (later s1 (later (fresh busy) start (first_acquire refl (λ e. ground arith) refl))
          (try_down refl refl))
        (finish_acquire refl refl))
      (tick refl)

path6 : Reach (fresh busy) (some s6)
unfolding do_acquire do_down do_got do_tick schedule requeue switch thread_block thread_unblock
    sema_down_round acquire_enter acquire_finish intr_disable intr_set_status mutex_init sema_init
path6 = later s5 (later s4 path4 (first_acquire refl (λ e. ground arith) refl)) (try_down refl refl)

sleeps_in_vain :
    (s6.pc 2 ≡ down)
    × (is_awake (s6.kernel.status 2) ≡ false)
    × (s6.kernel.current ≡ 3)
    × (s6.pc 1 ≡ inside)
unfolding do_acquire do_down do_got do_tick schedule requeue switch thread_block thread_unblock
    sema_down_round acquire_enter acquire_finish intr_disable intr_set_status mutex_init sema_init
sleeps_in_vain = (refl, refl, refl, refl)

no_panic_example : some s6 ≢ none
no_panic_example = no_panic busy-IsValid path6

mutual_exclusion_example :
    ((t u : Tid) → s6.pc t ≡ inside → s6.pc u ≡ inside → t ≡ u)
    × ((t : Tid) → (s6.mutex.holder ≡ some t) ↔ (s6.pc t ≡ inside))
mutual_exclusion_example = mutual_exclusion s6 busy-IsValid path6

no_lost_wakeup_example :
    ((u : Tid) × (owns (s6.pc u) ≡ true))
    ⊎ ((u : Tid) × (s6.pc u ≡ down) × (is_awake (s6.kernel.status u) ≡ true))
no_lost_wakeup_example = no_lost_wakeup s6 2 busy-IsValid path6 sleeps_in_vain.0 sleeps_in_vain.1
