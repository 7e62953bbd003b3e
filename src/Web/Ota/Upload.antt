-- ===== src/Web/Ota/Upload.antt =====
-- src/web_server.c: what `ota_handler` promises of an upload.
use esp32_hydroponics_govern.Prelude.{
  ℕ, zero, suc, ◌+◌, ◌-◌, ◌≤◌, ◌≢◌, Bool, true, false, List, [], ◌∷◌, ◌++◌, none, length, arith,
}
use esp32_hydroponics_govern.Platform.{Call, ota_set_boot, ota_write}
use esp32_hydroponics_govern.Device.{Device, emit}
use esp32_hydroponics_govern.Web.Ota.{OtaAnswer, to_recv, ota_loop}

-- The bytes that were written to the partition, oldest first.
unfoldable pub written_bytes : List Call → List ℕ
written_bytes [] = []
written_bytes (c ∷ cs) =
    let rest = written_bytes cs in elim c [ ota_write bs ↦ rest ++ bs | _ ↦ rest ]

-- Whether the new image was made the one to boot.
unfoldable pub is_boot_set : List Call → Bool
is_boot_set [] = false
is_boot_set (c ∷ cs) = let rest = is_boot_set cs in elim c [ ota_set_boot ↦ true | _ ↦ rest ]

module _ {S : Type 0} where
  -- Whatever arrives and whatever the writes return, the receive loop ends within as many rounds as
  -- there are bytes to come.
  pub ota_loop-ends :
      (a : OtaAnswer) (fuel i remaining : ℕ) (d : Device S)
      → remaining ≤ fuel
      → ota_loop a fuel i remaining d ≢ none
  unfolding ota_loop
  ota_loop-ends a zero i remaining d enough = ground arith
  ota_loop-ends a (suc fuel) i remaining d enough =
      let chunk = a.recv i (to_recv remaining) in
      ground
        (arith, ota_loop-ends a fuel (i + 1) (remaining - length chunk) (emit (ota_write chunk) d))
