-- ===== src/Dht/Waveform.antt =====
-- src/dht_driver.c: a frame that the sensor sends as its data sheet says is read.
use esp32_hydroponics_govern.Prelude.{
  ℕ, suc, ◌+◌, ◌-◌, ◌%◌, ◌<◌, ◌≡◌, ◌≢◌, refl, Bool, false, List, [], ◌∷◌, none, some, ltb, leb,
  ◌==◌, arith, ==_iff, length,
}
use esp32_hydroponics_govern.Platform.{ok, timeout, FloatOps}
use esp32_hydroponics_govern.Device.{Device}
use esp32_hydroponics_govern.Dht.{
  Line, Step, done, failed, ◌>>=◌, push_bit, checksum_ok, accept, wait_loop, wait_level, await, now,
  read_bit, read_bits, read_frame, start_signal, attempts, dht11_read,
}
use esp32_hydroponics_govern.Dht.Frame.{push_bits, frame_bits, push_bits_frame}

-- Two steps, one after the other.
>>=-done :
    {A B : Type 0} (m : ℕ → Step A) (f : A → ℕ → Step B) (k : ℕ) {a : A} {b : B} {j k' : ℕ}
    → m k ≡ done a j
    → f a j ≡ done b k'
    → ◌>>=◌ m f k ≡ done b k'
>>=-done m f k h g = rw (h, ◌>>=◌) g

module _ (line : Line) where
  -- The line comes to a level within a time from `start`, and within so many samples: the first of them
  -- is the k-th, and the last index is that of the sample after it.
  pub data Comes (target start limit : ℕ) : ℕ → ℕ → ℕ → Type 0 where
    there : {n k : ℕ} → line.level k ≡ target → Comes target start limit (suc n) k (k + 2)
    not_yet :
        {n k k' : ℕ}
        → line.level k ≢ target
        → line.time (k + 1) - start < limit
        → Comes target start limit n (k + 2) k'
        → Comes target start limit (suc n) k k'

  -- A bit: the line rises within 80 µs and falls within 100, and the time between says which bit it is.
  pub record IsPulse (fuel : ℕ) (b : Bool) (k k' : ℕ) : Type 0 where
    pub high : ℕ
    pub low : ℕ
    pub rise : Comes 1 (line.time k) 80 fuel (k + 1) high
    pub fall : Comes 0 (line.time (high + 1)) 100 fuel (high + 1 + 1) low
    pub width : ltb 40 (line.time low - line.time high) ≡ b
    pub end : k' ≡ low + 1

  pub data Pulses (fuel : ℕ) : List Bool → ℕ → ℕ → Type 0 where
    silent : {k : ℕ} → Pulses fuel [] k k
    pulse :
        {b : Bool} {bs : List Bool} {k j k' : ℕ}
        → IsPulse fuel b k j
        → Pulses fuel bs j k'
        → Pulses fuel (b ∷ bs) k k'

  -- The answer to the start signal, low, high and low, and the bits.
  pub record IsWave (fuel : ℕ) (bits : List Bool) (k k' : ℕ) : Type 0 where
    pub pulled : ℕ
    pub raised : ℕ
    pub lowered : ℕ
    pub answer : Comes 0 (line.time k) 100 fuel (k + 1) pulled
    pub release : Comes 1 (line.time pulled) 100 fuel (pulled + 1) raised
    pub ready : Comes 0 (line.time raised) 100 fuel (raised + 1) lowered
    pub bits_sent : Pulses fuel bits lowered k'

  wait_loop-Comes :
      {target start limit : ℕ} (fuel k k' : ℕ)
      → Comes target start limit fuel k k'
      → (us : ℕ) × (wait_loop line fuel target start limit k ≡ done (some us) k')
  unfolding wait_loop
  wait_loop-Comes {target} {start} {limit} _ k _ (there h) =
      (line.time (k + 1) - start, rw ((==_iff (line.level k) target).1 h) refl)
  wait_loop-Comes {target} {start} {limit} _ k k' (not_yet {n} miss early rest) =
      let (us, e) = wait_loop-Comes n (k + 2) k' rest in
      let other : (line.level k == target) ≡ false = ground (arith, miss) in
      let soon : leb limit (line.time (k + 1) - start) ≡ false = ground (arith, early) in
      (us, rw (other, soon) e)

  await-Comes :
      (fuel target limit k k' : ℕ)
      → Comes target (line.time k) limit fuel (k + 1) k'
      → (us : ℕ) × (await line fuel target limit k ≡ done us k')
  unfolding await wait_level
  await-Comes fuel target limit k k' c =
      let (us, e) = wait_loop-Comes fuel (k + 1) k' c in
      (
        us,
        >>=-done (wait_level line fuel target limit)
            (λ r. elim r [ some t ↦ done t | none ↦ failed timeout ]) k e refl,
      )

  read_bit-IsPulse :
      (fuel : ℕ) (b : Bool) (k k' : ℕ) → IsPulse fuel b k k' → read_bit line fuel k ≡ done b k'
  unfolding read_bit now
  read_bit-IsPulse fuel b k k' p =
      let fin : ℕ → ℕ → ℕ → Step Bool = λ s e. done (ltb 40 (e - s)) in
      let m3 = λ (s : ℕ). ◌>>=◌ (now line fuel) (fin s) in
      let m2 = λ (s : ℕ). ◌>>=◌ (await line fuel 0 100) (λ _. m3 s) in
      let m1 = ◌>>=◌ (now line fuel) m2 in
      let (us, up) = await-Comes fuel 1 80 k p.high p.rise in
      let (vs, down) = await-Comes fuel 0 100 (p.high + 1) p.low p.fall in
      let last : done (ltb 40 (line.time p.low - line.time p.high)) (p.low + 1) ≡ done b k' =
        rw (p.width, p.end) refl in
      >>=-done (await line fuel 1 80) (λ _. m1) k up
        (>>=-done (await line fuel 0 100) (λ _. m3 (line.time p.high)) (p.high + 1) down last)

  read_bits-Pulses :
      (fuel i : ℕ) (bits : List Bool) (bytes : List ℕ) (k k' : ℕ)
      → Pulses fuel bits k k'
      → read_bits line fuel (length bits) i bytes k ≡ done (push_bits i bits bytes) k'
  unfolding read_bits push_bits
  read_bits-Pulses fuel i _ bytes k _ silent = refl
  read_bits-Pulses fuel i _ bytes k k' (pulse {b} {bs} {j = j} p ps) =
      >>=-done (read_bit line fuel)
        (λ x. read_bits line fuel (length bs) (i + 1) (push_bit bytes i x)) k
        (read_bit-IsPulse fuel b k j p)
        (read_bits-Pulses fuel (i + 1) bs (push_bit bytes i b) j k' ps)

  read_frame-IsWave :
      (fuel b0 b1 b2 b3 b4 k k' : ℕ)
      → b0 < 256
      → b1 < 256
      → b2 < 256
      → b3 < 256
      → b4 ≡ (b0 + b1 + b2 + b3) % 256
      → IsWave fuel (frame_bits b0 b1 b2 b3 b4) k k'
      → read_frame line fuel k ≡ done (b0, b2) k'
  unfolding read_frame accept checksum_ok
  read_frame-IsWave fuel b0 b1 b2 b3 b4 k k' h0 h1 h2 h3 h4 w =
      let zeros = 0 ∷ 0 ∷ 0 ∷ 0 ∷ 0 ∷ [] in
      let body = ◌>>=◌ (read_bits line fuel 40 0 zeros) accept in
      let third = ◌>>=◌ (await line fuel 0 100) (λ _. body) in
      let second = ◌>>=◌ (await line fuel 1 100) (λ _. third) in
      let (u1, first_low) = await-Comes fuel 0 100 k w.pulled w.answer in
      let (u2, then_high) = await-Comes fuel 1 100 w.pulled w.raised w.release in
      let (u3, then_low) = await-Comes fuel 0 100 w.raised w.lowered w.ready in
      let bytes =
        read_bits-Pulses fuel 0 (frame_bits b0 b1 b2 b3 b4) zeros w.lowered k' w.bits_sent in
      let made = push_bits_frame b0 b1 b2 b3 b4 h0 h1 h2 h3 (omega (arith, h4)) in
      let accepted : accept (push_bits 0 (frame_bits b0 b1 b2 b3 b4) zeros) k' ≡ done (b0, b2) k' =
        rw made (rw ((==_iff b4 ((b0 + b1 + b2 + b3) % 256)).1 h4) refl) in
      >>=-done (await line fuel 0 100) (λ _. second) k first_low
        (>>=-done (await line fuel 1 100) (λ _. third) w.pulled then_high
          (>>=-done (await line fuel 0 100) (λ _. body) w.raised then_low
            (>>=-done (read_bits line fuel 40 0 zeros) accept w.lowered bytes accepted)))

module _ {S : Type 0} (fp : FloatOps) (line : Line) where
  -- A good frame is never rejected: where the line answers the start signal in time and then sends the
  -- forty bits of five bytes, the last of them the sum of the others, each level within the time that
  -- the driver waits for it and within the fuel, and each pulse on its side of 40 µs, `dht11_read`
  -- returns ESP_OK from its first attempt, with the first byte as humidity and the third as temperature.
  pub dht11_read-IsWave :
      (fuel gpio b0 b1 b2 b3 b4 k k' : ℕ) (d : Device S)
      → b0 < 256
      → b1 < 256
      → b2 < 256
      → b3 < 256
      → b4 ≡ (b0 + b1 + b2 + b3) % 256
      → IsWave line fuel (frame_bits b0 b1 b2 b3 b4) k k'
      → dht11_read fp line fuel gpio k d
        ≡ some (record {
          ret = ok;
          reading = some (fp.of_int b2, fp.of_int b0);
          samples = k';
          device = start_signal gpio d;
        })
  unfolding dht11_read attempts
  dht11_read-IsWave fuel gpio b0 b1 b2 b3 b4 k k' d h0 h1 h2 h3 h4 w =
      rw (read_frame-IsWave line fuel b0 b1 b2 b3 b4 k k' h0 h1 h2 h3 h4 w, attempts) refl
