-- ===== src/Interrupt.antt =====
-- The interrupt flag of kernel/interrupt.c (`intr_enable` to `intr_get_status`): IF of EFLAGS, set by
-- `sti` and cleared by `cli`. Each function returns the status before beside the flag after.
use jack_os.Base.{◌≡◌, refl}

pub data IntrStatus : Type 0 where
  intr_off intr_on : IntrStatus

unfoldable pub intr_enable : IntrStatus → IntrStatus × IntrStatus
intr_enable intr_on = (intr_on, intr_on)
intr_enable intr_off = (intr_off, intr_on)

unfoldable pub intr_disable : IntrStatus → IntrStatus × IntrStatus
intr_disable intr_on = (intr_on, intr_off)
intr_disable intr_off = (intr_off, intr_off)

unfoldable pub intr_set_status : IntrStatus → IntrStatus → IntrStatus × IntrStatus
unfolding intr_enable intr_disable
intr_set_status intr_on flag = intr_enable flag
intr_set_status intr_off flag = intr_disable flag

-- A section that ends by `intr_set_status` with what `intr_disable` gave runs with the flag clear, and
-- leaves it as it was.
pub critical_section :
    (flag : IntrStatus)
    → let (old, inside) = intr_disable flag in
      (inside ≡ intr_off) × ((intr_set_status old inside).1 ≡ flag)
unfolding intr_disable intr_set_status
critical_section intr_on = (refl, refl)
critical_section intr_off = (refl, refl)
