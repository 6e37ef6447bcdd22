-- ===== src/KernelList/Tests.antt =====
-- The functions of lib/kernel/list.c at a small heap, and their theorems there.
use jack_os.Base.{◌≡◌, refl, some, List, [], ◌∷◌, arith}
use jack_os.Interrupt.{intr_on}
use jack_os.KernelList.{
  Heap, KList, list_init, list_push, list_append, list_remove, list_pop, list_len,
}
use jack_os.KernelList.Chain.{IsList}
use jack_os.KernelList.Insert.{list_init-IsList}
use jack_os.KernelList.Refine.{Op, push, append, remove, pop, run, spec, erase, Legal, run_refines}

abbrev threads : KList
threads = record { head = 10; tail = 20 }

abbrev blank : Heap
blank = record { prev = λ _. 7; next = λ _. 7; intr = intr_on }

abbrev calls : List Op
calls = append 1 ∷ append 2 ∷ push 3 ∷ remove 1 ∷ append 4 ∷ pop ∷ []

runs :
    let h = run threads calls (list_init blank threads) in
    (list_len 9 h threads ≡ some 2) × (h.next 10 ≡ 2) × (h.next 2 ≡ 4) × (h.next 4 ≡ 20)
unfolding run list_push list_append list_remove list_pop list_init list_len
runs = (refl, refl, refl, refl)

start-IsList : IsList (list_init blank threads) threads []
start-IsList = list_init-IsList blank threads (omega arith)

calls-Legal : Legal threads calls []
unfolding erase
calls-Legal = ground arith

run_refines_example :
    IsList (run threads calls (list_init blank threads)) threads (spec calls [])
    × ((run threads calls (list_init blank threads)).intr ≡ (list_init blank threads).intr)
run_refines_example = run_refines calls {h = list_init blank threads} [] calls-Legal start-IsList
