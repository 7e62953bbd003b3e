-- ===== src/Dht/Read.antt =====
-- src/dht_driver.c: what a reading that the driver returns stands for.
use esp32_hydroponics_govern.Prelude.{
  ℕ, zero, suc, ◌+◌, ◌*◌, ◌≢◌, ◌≤◌, ◌≡◌, ◌⊎◌, refl, Bool, true, List, [], ◌∷◌, none, some, length,
  get_or, ltb, ◌-◌, arith, inl, inr,
}
use esp32_hydroponics_govern.Platform.{timeout, EspErr, ok, fail, FloatOps, delay}
use esp32_hydroponics_govern.Device.{Device, emit}
use esp32_hydroponics_govern.Dht.{
  wait_level, now, Line, Step, done, failed, stuck, push_bit, checksum_ok, accept, await, read_bit,
  read_bits, read_frame, ReadResult, attempts, dht11_read, start_signal, ◌>>=◌,
}
use esp32_hydroponics_govern.Dht.Wait.{wait_level-ne-stuck}
use esp32_hydroponics_govern.Dht.Frame.{push_bits}

Step-cases :
    {A : Type 0} (s : Step A)
    → ((a : A) × (k : ℕ) × (s ≡ done a k))
      ⊎ (((e : EspErr) × (k : ℕ) × (s ≡ failed e k)) ⊎ (s ≡ stuck))
Step-cases (done a k) = inl (a, k, refl)
Step-cases (failed e k) = inr (inl (e, k, refl))
Step-cases stuck = inr (inr refl)

-- A result that rests on forty pulses with a matching checksum.
pub record IsFrame (hum temp : ℕ) : Type 0 where
  pub bits : List Bool
  pub forty : length bits ≡ 40
  pub checked : checksum_ok (push_bits 0 bits (0 ∷ 0 ∷ 0 ∷ 0 ∷ 0 ∷ [])) ≡ true
  pub humidity : hum ≡ get_or (push_bits 0 bits (0 ∷ 0 ∷ 0 ∷ 0 ∷ 0 ∷ [])) 0 0
  pub temperature : temp ≡ get_or (push_bits 0 bits (0 ∷ 0 ∷ 0 ∷ 0 ∷ 0 ∷ [])) 2 0

>>=-eq-done :
    {A B : Type 0} (m : ℕ → Step A) (f : A → ℕ → Step B) (k : ℕ) {b : B} {k' : ℕ}
    → ◌>>=◌ m f k ≡ done b k'
    → (a : A) × (j : ℕ) × (m k ≡ done a j) × (f a j ≡ done b k')
>>=-eq-done m f k h = elim (Step-cases (m k)) [
  | inl (a, j, e) ↦ (a, j, e, ground arith)
  | inr (inl (x, j, e)) ↦ absurd (ground arith)
  | inr (inr e) ↦ absurd (ground arith)
]

abbrev zeros : List ℕ
zeros = 0 ∷ 0 ∷ 0 ∷ 0 ∷ 0 ∷ []

accept_lem :
    (bytes : List ℕ) (k : ℕ) {hum temp k' : ℕ}
    → accept bytes k ≡ done (hum, temp) k'
    → (checksum_ok bytes ≡ true) × (hum ≡ get_or bytes 0 0) × (temp ≡ get_or bytes 2 0)
unfolding accept
accept_lem bytes k h = ground arith

accepted :
    (bytes : List ℕ) (k : ℕ) {hum temp k' : ℕ}
    → (bits : List Bool) × (length bits ≡ 40) × (bytes ≡ push_bits 0 bits zeros)
    → accept bytes k ≡ done (hum, temp) k'
    → IsFrame hum temp
accepted bytes k (bits, forty, made) h =
    let (checked, humidity, temperature) = accept_lem bytes k h in
    record {
      bits = bits;
      forty = forty;
      checked = rw made at checked;
      humidity = rw made at humidity;
      temperature = rw made at temperature;
    }

module _ (line : Line) (fuel : ℕ) where
  read_bits_lem :
      (n i : ℕ) (bytes : List ℕ) (k : ℕ) {out : List ℕ} {k' : ℕ}
      → read_bits line fuel n i bytes k ≡ done out k'
      → (bits : List Bool) × (length bits ≡ n) × (out ≡ push_bits i bits bytes)
  unfolding read_bits push_bits
  read_bits_lem zero i bytes k h = ([], refl, cc)
  read_bits_lem (suc n) i bytes k h =
      let (bit, j, first, others) =
        >>=-eq-done (read_bit line fuel) (λ b. read_bits line fuel n (i + 1) (push_bit bytes i b)) k
          h in
      let (bits, size, made) = read_bits_lem n (i + 1) (push_bit bytes i bit) j others in
      (bit ∷ bits, omega (arith, size), made)

  read_frame_lem :
      (k : ℕ) {hum temp k' : ℕ} → read_frame line fuel k ≡ done (hum, temp) k' → IsFrame hum temp
  unfolding read_frame
  read_frame_lem k h =
      let body = ◌>>=◌ (read_bits line fuel 40 0 zeros) accept in
      let third = ◌>>=◌ (await line fuel 0 100) (λ _. body) in
      let second = ◌>>=◌ (await line fuel 1 100) (λ _. third) in
      let (_, j1, _, h1) = >>=-eq-done (await line fuel 0 100) (λ _. second) k h in
      let (_, j2, _, h2) = >>=-eq-done (await line fuel 1 100) (λ _. third) j1 h1 in
      let (_, j3, _, h3) = >>=-eq-done (await line fuel 0 100) (λ _. body) j2 h2 in
      let (bytes, j4, got, h4) = >>=-eq-done (read_bits line fuel 40 0 zeros) accept j3 h3 in
      accepted bytes j4 (read_bits_lem 40 0 zeros j3 got) h4

module _ {S : Type 0} (fp : FloatOps) (line : Line) (fuel : ℕ) where
  -- What a caller of `dht11_read` may rely on.
  pub data Outcome (r : ReadResult S) : Type 0 where
    read :
        (hum temp : ℕ)
        → IsFrame hum temp
        → r.ret ≡ ok
        → r.reading ≡ some (fp.of_int temp, fp.of_int hum)
        → Outcome r
    unread : r.ret ≡ fail → r.reading ≡ none → Outcome r

  attempts_lem :
      (n gpio k : ℕ) (d : Device S) {r : ReadResult S}
      → attempts fp line fuel n gpio k d ≡ some r
      → Outcome r
  unfolding attempts
  attempts_lem zero gpio k d h = unread (ground arith) (ground arith)
  attempts_lem (suc n) gpio k d h = elim (Step-cases (read_frame line fuel k)) [
    | inl ((hum, temp), j, e) ↦
        read hum temp (read_frame_lem line fuel k e) (ground arith) (ground arith)
    | inr (inl (x, j, e)) ↦
        attempts_lem n gpio j (emit (delay 50) (start_signal gpio d)) (ground arith)
    | inr (inr e) ↦ absurd (ground arith)
  ]

  -- A call of `dht11_read` that ends has either returned ESP_OK with humidity and temperature from
  -- the first and third of five bytes that forty pulses made and whose checksum matched, or returned
  -- ESP_FAIL and written nothing.
  pub dht11_read-Outcome :
      (gpio k : ℕ) (d : Device S) {r : ReadResult S}
      → dht11_read fp line fuel gpio k d ≡ some r
      → Outcome r
  unfolding dht11_read
  dht11_read-Outcome gpio k d h = attempts_lem 3 gpio k d h

Total : {A : Type 0} → (ℕ → Step A) → Type 0
Total m = (k : ℕ) → m k ≢ stuck

>>=-Total :
    {A B : Type 0} (m : ℕ → Step A) (f : A → ℕ → Step B)
    → Total m
    → ((a : A) → Total (f a))
    → Total (◌>>=◌ m f)
unfolding Total
>>=-Total m f hm hf k e = elim (Step-cases (m k)) [
  | inl (a, j, d) ↦ hf a j (ground arith)
  | inr (inl (x, j, d)) ↦ ground arith
  | inr (inr d) ↦ hm k d
]

-- Within the samples of one busy-wait the clock moves on by the longest timeout, 100 µs.
abbrev pub ClockMoves : Line → ℕ → Type 0
ClockMoves line fuel = (k : ℕ) → line.time k + 100 ≤ line.time (k + 2 * fuel + 2)

module _ (line : Line) (fuel : ℕ) (moves : ClockMoves line fuel) where
  await-Total :
      (target timeout_us : ℕ) → timeout_us ≤ 100 → Total (await line (suc fuel) target timeout_us)
  unfolding await Total
  await-Total target timeout_us h =
      >>=-Total (wait_level line (suc fuel) target timeout_us)
        (λ r. elim r [ some us ↦ done us | none ↦ failed timeout ])
        (λ k. wait_level-ne-stuck line fuel target timeout_us k (omega (arith, moves k)))
        (elim [ some us ↦ λ k e. cc | none ↦ λ k e. cc ])

  now-Total : Total (now line (suc fuel))
  unfolding now Total
  now-Total k e = cc

  read_bit-Total : Total (read_bit line (suc fuel))
  unfolding read_bit Total
  read_bit-Total =
      let fin : ℕ → ℕ → ℕ → Step Bool = λ s e. done (ltb 40 (e - s)) in
      let m3 = λ (s : ℕ). ◌>>=◌ (now line (suc fuel)) (fin s) in
      let m2 = λ (s : ℕ). ◌>>=◌ (await line (suc fuel) 0 100) (λ _. m3 s) in
      let m1 = ◌>>=◌ (now line (suc fuel)) m2 in
      >>=-Total (await line (suc fuel) 1 80) (λ _. m1) (await-Total 1 80 (omega arith))
        (λ _. >>=-Total (now line (suc fuel)) m2 now-Total (λ s.
          >>=-Total (await line (suc fuel) 0 100) (λ _. m3 s) (await-Total 0 100 (omega arith))
            (λ _. >>=-Total (now line (suc fuel)) (fin s) now-Total (λ e k x. cc))))

  read_bits-Total : (n i : ℕ) (bytes : List ℕ) → Total (read_bits line (suc fuel) n i bytes)
  unfolding read_bits Total
  read_bits-Total zero i bytes = λ k e. cc
  read_bits-Total (suc n) i bytes =
      >>=-Total (read_bit line (suc fuel))
        (λ b. read_bits line (suc fuel) n (i + 1) (push_bit bytes i b)) read_bit-Total
        (λ b. read_bits-Total n (i + 1) (push_bit bytes i b))

  accept-Total : (bytes : List ℕ) → Total (accept bytes)
  unfolding accept Total
  accept-Total bytes k e = ground arith

  read_frame-Total : Total (read_frame line (suc fuel))
  unfolding read_frame Total
  read_frame-Total =
      let level = await line (suc fuel) in
      let body = ◌>>=◌ (read_bits line (suc fuel) 40 0 zeros) accept in
      let third = ◌>>=◌ (level 0 100) (λ _. body) in
      let second = ◌>>=◌ (level 1 100) (λ _. third) in
      >>=-Total (level 0 100) (λ _. second) (await-Total 0 100 (omega arith))
        (λ _.
          >>=-Total (level 1 100) (λ _. third) (await-Total 1 100 (omega arith))
            (λ _.
              >>=-Total (level 0 100) (λ _. body) (await-Total 0 100 (omega arith))
                (λ _.
                  >>=-Total (read_bits line (suc fuel) 40 0 zeros) accept
                    (read_bits-Total 40 0 zeros) accept-Total)))

module _ {S : Type 0} (fp : FloatOps) (line : Line) (fuel : ℕ) (moves : ClockMoves line fuel) where
  attempts-returns : (n gpio k : ℕ) (d : Device S) → attempts fp line (suc fuel) n gpio k d ≢ none
  unfolding attempts Total
  attempts-returns zero gpio k d e = cc
  attempts-returns (suc n) gpio k d e = elim (Step-cases (read_frame line (suc fuel) k)) [
    | inl (a, j, h) ↦ ground arith
    | inr (inl (x, j, h)) ↦
        attempts-returns n gpio j (emit (delay 50) (start_signal gpio d)) (ground arith)
    | inr (inr h) ↦ read_frame-Total line fuel moves k h
  ]

  -- With enough fuel for the clock to pass a timeout, `dht11_read` returns, whatever the line does.
  pub dht11_read-returns :
      (gpio k : ℕ) (d : Device S) → dht11_read fp line (suc fuel) gpio k d ≢ none
  unfolding dht11_read
  dht11_read-returns gpio k d = attempts-returns 3 gpio k d
