-- ===== src/Platform/Checks.antt =====
-- ESP_ERROR_CHECK and the runs that it may halt.
use esp32_hydroponics_govern.Prelude.{◌≡◌, ◌⊎◌, refl, inl, inr}
use esp32_hydroponics_govern.Platform.{
  EspErr, ok, fail, no_mem, invalid_state, not_found, timeout, invalid_crc, nvs_no_free_pages,
  nvs_new_version_found, other, Run, returned, aborted, check,
}

pub Run-cases :
    {D A : Type 0} (r : Run D A)
    → ((a : A) × (d : D) × (r ≡ returned a d)) ⊎ ((d : D) × (r ≡ aborted d))
Run-cases (returned a d) = inl (a, d, refl)
Run-cases (aborted d) = inr (d, refl)

-- ESP_ERROR_CHECK goes on or halts.
pub check-cases :
    {D A : Type 0} (e : EspErr) (d : D) (rest : Run D A)
    → (check e d rest ≡ rest) ⊎ (check e d rest ≡ aborted d)
check-cases ok d rest = inl refl
check-cases fail d rest = inr refl
check-cases no_mem d rest = inr refl
check-cases invalid_state d rest = inr refl
check-cases not_found d rest = inr refl
check-cases timeout d rest = inr refl
check-cases invalid_crc d rest = inr refl
check-cases nvs_no_free_pages d rest = inr refl
check-cases nvs_new_version_found d rest = inr refl
check-cases (other n) d rest = inr refl

-- What holds of the device when a run comes back.
abbrev pub Returns : {D A : Type 0} → (D → Type 0) → Run D A → Type 0
Returns P (returned _ d) = P d
Returns P (aborted d) = Unit

pub Returns-check :
    {D A : Type 0} (P : D → Type 0) (e : EspErr) (d : D) (rest : Run D A)
    → Returns P rest
    → Returns P (check e d rest)
Returns-check P e d rest v = elim (check-cases e d rest) [
  | inl on ↦ rw on v
  | inr halts ↦ rw halts tt
]
