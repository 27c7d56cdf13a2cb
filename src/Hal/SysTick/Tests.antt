-- ===== src/Hal/SysTick/Tests.antt =====
-- Runs of the tick of src/hal/arm_cortex_m4.c.
use rtos_driver_framework.Base.{◌≡◌, refl, some}
use rtos_driver_framework.Hal.SysTick.{reload_value}

reload_run : reload_value 1000 ≡ some 20999
unfolding reload_value
reload_run = refl

-- A rate above that of the clock gives the slowest tick.
too_fast_run : reload_value 30000000 ≡ some 0xffffff
unfolding reload_value
too_fast_run = refl
