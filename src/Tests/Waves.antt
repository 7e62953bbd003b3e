-- ===== src/Tests/Waves.antt =====
-- An example for the frames of src/dht_driver.c.
use esp32_hydroponics_govern.Prelude.{
  ℕ, zero, suc, ◌+◌, ◌*◌, ◌%◌, ◌≤◌, ◌≡◌, refl, Bool, false, ◌||◌, List, [], ◌∷◌, some, ◌==◌, arith,
  if◌then◌else◌,
}
use esp32_hydroponics_govern.Platform.{ok}
use esp32_hydroponics_govern.Dht.{Line, start_signal, dht11_read}
use esp32_hydroponics_govern.Dht.Frame.{frame_bits}
use esp32_hydroponics_govern.Dht.Waveform.{
  there, IsPulse, Pulses, silent, pulse, IsWave, dht11_read-IsWave,
}
use esp32_hydroponics_govern.Tests.{device, whole_floats}

-- A sensor that sends zeros: every pulse is short.
abbrev zero_line : Line
zero_line = record { level = λ k. if (k % 8 == 2) || (k == 4) then 1 else 0; time = λ k. 5 * k }

abbrev falses : ℕ → List Bool
falses zero = []
falses (suc n) = false ∷ falses n

abbrev after : ℕ → ℕ → ℕ
after zero k = k
after (suc n) k = after n (k + 8)

short-IsPulse : (k : ℕ) → k % 8 ≡ 1 → 9 ≤ k → IsPulse zero_line 1 false k (k + 8)
short-IsPulse k h late = record {
  high = k + 1 + 2;
  low = k + 1 + 2 + 1 + 1 + 2;
  rise = there (ground (arith, h));
  fall = there (ground (arith, h, late));
  width = ground arith;
  end = omega arith;
}

short-Pulses : (n k : ℕ) → k % 8 ≡ 1 → 9 ≤ k → Pulses zero_line 1 (falses n) k (after n k)
short-Pulses zero k h late = silent
short-Pulses (suc n) k h late =
    pulse (short-IsPulse k h late) (short-Pulses n (k + 8) (omega (arith, h)) (omega (arith, late)))

zero-IsWave : IsWave zero_line 1 (frame_bits 0 0 0 0 0) 0 329
zero-IsWave = record {
  pulled = 3;
  raised = 6;
  lowered = 9;
  answer = there refl;
  release = there refl;
  ready = there refl;
  bits_sent = short-Pulses 40 9 refl (omega arith);
}

dht11_read-IsWave_example :
    dht11_read whole_floats zero_line 1 14 0 device
    ≡ some
        (record { ret = ok; reading = some (0, 0); samples = 329; device = start_signal 14 device })
dht11_read-IsWave_example =
    dht11_read-IsWave whole_floats zero_line 1 14 0 0 0 0 0 0 329 device (omega arith) (omega arith)
      (omega arith) (omega arith) refl zero-IsWave
