-- ===== src/Led.antt =====
-- src/led_manager.c: the heartbeat of the on-board LED.
use esp32_hydroponics_govern.Prelude.{ℕ, zero, suc, Bool, if◌then◌else◌}
use esp32_hydroponics_govern.Config.{led_gpio}
use esp32_hydroponics_govern.Platform.{
  EspErr, ok, fail, led_task, create_task, delay, gpio_output, gpio_low, gpio_high,
}
use esp32_hydroponics_govern.Device.{Device, emit}

module _ {S : Type 0} where
  -- The body of the task's loop.
  unfoldable pub led_blink : Device S → Device S
  led_blink d =
      emit (delay 1000) (emit (gpio_low led_gpio) (emit (delay 1000) (emit (gpio_high led_gpio) d)))

  -- The task after so many rounds of its endless loop.
  unfoldable pub run_led_task : ℕ → Device S → Device S
  unfolding led_blink
  run_led_task zero d = emit (gpio_low led_gpio) (emit (gpio_output led_gpio) d)
  run_led_task (suc n) d = led_blink (run_led_task n d)

  unfoldable pub led_manager_start : Bool → Device S → Device S × EspErr
  led_manager_start created d = (emit (create_task led_task) d, if created then ok else fail)
