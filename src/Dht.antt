-- ===== src/Dht.antt =====
-- src/dht_driver.c: reading a DHT11 by timing the pulses on its data line.
pub mod Wait
pub mod Frame
pub mod Read
pub mod Waveform
use esp32_hydroponics_govern.Prelude.{
  ℕ, zero, suc, ◌+◌, ◌-◌, ◌*◌, ◌/◌, ◌%◌, Bool, true, false, List, [], ◌∷◌, Option, none, some,
  get_or, set, ltb, leb, ◌==◌, if◌then◌else◌,
}
use esp32_hydroponics_govern.Platform.{
  EspErr, ok, fail, timeout, invalid_crc, Float, FloatOps, delay, delay_us, gpio_output,
  gpio_input_pullup, gpio_low, gpio_high,
}
use esp32_hydroponics_govern.Device.{Device, emit}

-- The outside world as the driver samples it: `level k` and `time k` are what `gpio_get_level` and
-- `esp_timer_get_time` return if they are the k-th such call. The timer does not run backwards.
pub record Line : Type 0 where
  pub level : ℕ → ℕ
  pub time : ℕ → ℕ

-- A computation that makes samples. `stuck` means that the fuel of a busy-wait ran out.
pub data Step (A : Type 0) : Type 0 where
  done : A → ℕ → Step A
  failed : EspErr → ℕ → Step A
  stuck : Step A

infixl 5 ◌>>=◌ ◌>>◌
abbrev pub ◌>>=◌ : {A B : Type 0} → (ℕ → Step A) → (A → ℕ → Step B) → ℕ → Step B
◌>>=◌ m f k = elim (m k) [ done a k' ↦ f a k' | failed e k' ↦ failed e k' | stuck ↦ stuck ]

abbrev pub ◌>>◌ : {A B : Type 0} → (ℕ → Step A) → (ℕ → Step B) → ℕ → Step B
m >> f = m >>= λ _. f

-- `data[i / 8] <<= 1; if (pulse_us > 40) data[i / 8] |= 1;` on uint8_t: after the shift the low bit
-- is 0, so `|= 1` adds 1.
unfoldable pub push_bit : List ℕ → ℕ → Bool → List ℕ
push_bit bytes i bit = set bytes (i / 8) (get_or bytes (i / 8) 0 * 2 % 256 + (if bit then 1 else 0))

-- Step 4 of `dht11_read_once`.
unfoldable pub checksum_ok : List ℕ → Bool
checksum_ok bytes =
    get_or bytes 4 0
    == (get_or bytes 0 0 + get_or bytes 1 0 + get_or bytes 2 0 + get_or bytes 3 0) % 256

-- Step 4, and the values that are written.
unfoldable pub accept : List ℕ → ℕ → Step (ℕ × ℕ)
accept bytes =
    if checksum_ok bytes then done (get_or bytes 0 0, get_or bytes 2 0) else failed invalid_crc

module _ (line : Line) where
  -- The loop of `wait_level`; `none` is the result -1.
  unfoldable pub wait_loop : ℕ → ℕ → ℕ → ℕ → ℕ → Step (Option ℕ)
  wait_loop zero target start timeout_us k = stuck
  wait_loop (suc f) target start timeout_us k =
      let rest = wait_loop f target start timeout_us (k + 2) in
      if line.level k == target
      then done (some (line.time (k + 1) - start)) (k + 2)
      else (if leb timeout_us (line.time (k + 1) - start) then done none (k + 2) else rest)

module _ (line : Line) (fuel : ℕ) where
  unfoldable pub wait_level : ℕ → ℕ → ℕ → Step (Option ℕ)
  unfolding wait_loop
  wait_level target timeout_us k = wait_loop line fuel target (line.time k) timeout_us (k + 1)

  -- `if (wait_level(…) < 0) return ESP_ERR_TIMEOUT;`
  unfoldable pub await : ℕ → ℕ → ℕ → Step ℕ
  unfolding wait_level
  await target timeout_us = do
    r ← wait_level target timeout_us
    elim r [ some us ↦ done us | none ↦ failed timeout ]

  -- `esp_timer_get_time()`
  unfoldable pub now : ℕ → Step ℕ
  now k = done (line.time k) (k + 1)

  -- The body of the loop over the bits: is the pulse longer than 40 µs?
  unfoldable pub read_bit : ℕ → Step Bool
  read_bit = do
    await 1 80
    high_start ← now
    await 0 100
    high_end ← now
    done (ltb 40 (high_end - high_start))

  -- `for (int i = 0; i < 40; i++)`, with `n` bits to go.
  unfoldable pub read_bits : ℕ → ℕ → List ℕ → ℕ → Step (List ℕ)
  read_bits zero i bytes = done bytes
  read_bits (suc n) i bytes = do bit ← read_bit; read_bits n (i + 1) (push_bit bytes i bit)

  -- Steps 2 to 4 of `dht11_read_once`: humidity and temperature.
  unfoldable pub read_frame : ℕ → Step (ℕ × ℕ)
  read_frame = do
    await 0 100
    await 1 100
    await 0 100
    bytes ← read_bits 40 0 (0 ∷ 0 ∷ 0 ∷ 0 ∷ 0 ∷ [])
    accept bytes

module _ {S : Type 0} where
  -- Step 1 of `dht11_read_once`.
  unfoldable pub start_signal : ℕ → Device S → Device S
  start_signal gpio d =
      let d1 = emit (delay 20) (emit (gpio_low gpio) (emit (gpio_output gpio) d)) in
      emit (gpio_input_pullup gpio) (emit (delay_us 40) (emit (gpio_high gpio) d1))

-- What `dht11_read` leaves: its result, the values written through `temp` and `humidity`, the
-- samples taken and the device.
pub record ReadResult (S : Type 0) : Type 0 where
  pub ret : EspErr
  pub reading : Option (Float × Float)
  pub samples : ℕ
  pub device : Device S

module _ {S : Type 0} (fp : FloatOps) (line : Line) (fuel : ℕ) where
  -- The retry loop, with `n` attempts left; `none` is a busy-wait out of fuel.
  unfoldable pub attempts : ℕ → ℕ → ℕ → Device S → Option (ReadResult S)
  attempts zero gpio k d = some (record { ret = fail; reading = none; samples = k; device = d })
  attempts (suc n) gpio k d =
      let d' = start_signal gpio d in
      elim (read_frame line fuel k) [
        | stuck ↦ none
        | failed e k' ↦ attempts n gpio k' (emit (delay 50) d')
        | done (hum, temp) k' ↦ some (record {
          ret = ok;
          reading = some (fp.of_int temp, fp.of_int hum);
          samples = k';
          device = d';
        })
      ]

  unfoldable pub dht11_read : ℕ → ℕ → Device S → Option (ReadResult S)
  unfolding attempts
  dht11_read gpio k d = attempts 3 gpio k d
