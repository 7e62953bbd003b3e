-- ===== src/Dht/Wait.antt =====
-- src/dht_driver.c: the busy-waits end, and what their results say of the line.
use esp32_hydroponics_govern.Prelude.{
  ℕ, zero, suc, ◌+◌, ◌-◌, ◌*◌, ◌≤◌, ◌≡◌, ◌≢◌, ap, leb→le, le→leb, Option, none, some, leb, ◌==◌,
  arith, Bool-cases, ==_iff, inl, inr,
}
use esp32_hydroponics_govern.Dht.{Line, Step, done, stuck, wait_loop, wait_level}

the_sample : (k : ℕ) → k + 2 * 0 + 1 ≡ k + 1
the_sample k = omega arith

next_sample : (k fuel : ℕ) → k + 2 * suc fuel + 1 ≡ k + 2 + 2 * fuel + 1
next_sample k fuel = omega arith

last_sample : (k fuel : ℕ) → k + 2 * fuel + 2 ≡ k + 1 + 2 * fuel + 1
last_sample k fuel = omega arith

module _ (line : Line) where
  -- How a wait that began at time `start` ended after its samples up to `k`.
  pub data Ended (target start timeout_us : ℕ) : Step (Option ℕ) → Type 0 where
    reached :
        (j : ℕ)
        → line.level j ≡ target
        → Ended target start timeout_us (done (some (line.time (j + 1) - start)) (j + 2))
    gave_up :
        (j : ℕ)
        → line.level j ≢ target
        → timeout_us ≤ line.time (j + 1) - start
        → Ended target start timeout_us (done none (j + 2))

  Ended-ne-stuck :
      {target start timeout_us : ℕ} (s : Step (Option ℕ))
      → Ended target start timeout_us s
      → s ≢ stuck
  Ended-ne-stuck _ (reached j h) e = cc
  Ended-ne-stuck _ (gave_up j h l) e = cc

  wait_loop_lem :
      (fuel target start timeout_us k : ℕ)
      → start + timeout_us ≤ line.time (k + 2 * fuel + 1)
      → Ended target start timeout_us (wait_loop line (suc fuel) target start timeout_us k)
  unfolding wait_loop
  wait_loop_lem zero target start timeout_us k h = elim (Bool-cases (line.level k == target)) [
    | inl hit ↦ rw hit (reached k ((==_iff (line.level k) target).0 hit))
    | inr miss ↦
        let late : timeout_us ≤ line.time (k + 1) - start =
          omega (arith, ap line.time (the_sample k)) in
        rw (miss, le→leb _ _ late) (gave_up k (ground arith) late)
  ]
  wait_loop_lem (suc fuel) target start timeout_us k h =
      elim (Bool-cases (line.level k == target)) [
        | inl hit ↦ rw hit (reached k ((==_iff (line.level k) target).0 hit))
        | inr miss ↦ elim (Bool-cases (leb timeout_us (line.time (k + 1) - start))) [
          | inl late ↦ rw (miss, late) (gave_up k (ground arith) (leb→le _ _ late))
          | inr early ↦
              rw (miss, early)
                (wait_loop_lem fuel target start timeout_us (k + 2)
                  (omega (arith, ap line.time (next_sample k fuel))))
        ]
      ]

  -- A wait for a level ends, if the clock passes the timeout within the samples that the fuel allows:
  -- it has then seen the level and returns the time from its start to just after that sample, or it
  -- has seen another level and afterwards a time at least the timeout from its start.
  pub wait_level_lem :
      (fuel target timeout_us k : ℕ)
      → line.time k + timeout_us ≤ line.time (k + 2 * fuel + 2)
      → Ended target (line.time k) timeout_us (wait_level line (suc fuel) target timeout_us k)
  unfolding wait_level
  wait_level_lem fuel target timeout_us k h =
      wait_loop_lem fuel target (line.time k) timeout_us (k + 1)
        (omega (arith, ap line.time (last_sample k fuel)))

  -- Such a wait does not run out of fuel.
  pub wait_level-ne-stuck :
      (fuel target timeout_us k : ℕ)
      → line.time k + timeout_us ≤ line.time (k + 2 * fuel + 2)
      → wait_level line (suc fuel) target timeout_us k ≢ stuck
  wait_level-ne-stuck fuel target timeout_us k h e =
      Ended-ne-stuck (wait_level line (suc fuel) target timeout_us k)
        (wait_level_lem fuel target timeout_us k h) e
