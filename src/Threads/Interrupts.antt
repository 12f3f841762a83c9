-- ===== src/Threads/Interrupts.antt =====
-- threads/interrupt.c: the interrupt level.
use junlge_pint_os.Common.{Bool, true, false, not, Outcome, ok, ◌>>◌, assert, if◌then◌else◌}
use junlge_pint_os.Threads.State.{Kernel}

unfoldable pub intr_disable : Kernel → Kernel
intr_disable k = record k { intr_on = false }

unfoldable pub intr_enable : Kernel → Outcome Kernel
intr_enable k = do assert (not k.in_external_intr); ok (record k { intr_on = true })

unfoldable pub intr_set_level : Bool → Kernel → Outcome Kernel
intr_set_level level k = if level then intr_enable k else ok (intr_disable k)

unfoldable pub intr_yield_on_return : Kernel → Outcome Kernel
intr_yield_on_return k = do assert k.in_external_intr; ok (record k { yield_on_return = true })
