-- ===== src/Wifi/Startup/Channel.antt =====
-- src/wifi_manager.c: the channel of the access point.
use esp32_hydroponics_govern.Prelude.{
  ℕ, ◌≡◌, ◌⊎◌, inl, inr, refl, sym, subst, ℤ, negsuc, ltb_ℤ, true, false, List, [], ◌∷◌, arith,
  Bool-cases,
}
use esp32_hydroponics_govern.Device.{ApRecord}
use esp32_hydroponics_govern.Wifi.Startup.{best_channel_from, best_channel}

-- A record of the scan on this channel with this strength.
unfoldable pub Seen : ℕ → ℤ → List ApRecord → Type 0
Seen chan rssi [] = ⊥
Seen chan rssi (r ∷ rs) = ((chan ≡ r.primary) × (rssi ≡ r.rssi)) ⊎ Seen chan rssi rs

-- Strength `rssi` is at least that of every record.
unfoldable pub Above : ℤ → List ApRecord → Type 0
Above rssi [] = Unit
Above rssi (r ∷ rs) = (ltb_ℤ rssi r.rssi ≡ false) × Above rssi rs

stronger :
    (chan : ℕ) (rssi : ℤ) (r : ApRecord) (rs : List ApRecord)
    → ltb_ℤ rssi r.rssi ≡ true
    → best_channel_from chan rssi (r ∷ rs) ≡ best_channel_from r.primary r.rssi rs
unfolding best_channel_from
stronger chan rssi r rs up = rw up refl

weaker :
    (chan : ℕ) (rssi : ℤ) (r : ApRecord) (rs : List ApRecord)
    → ltb_ℤ rssi r.rssi ≡ false
    → best_channel_from chan rssi (r ∷ rs) ≡ best_channel_from chan rssi rs
unfolding best_channel_from
weaker chan rssi r rs down = rw down refl

-- A channel that the loop may choose, from what it starts with.
abbrev pub IsChoice : ℕ → ℤ → List ApRecord → ℕ → Type 0
IsChoice chan rssi rs chosen =
    (strength : ℤ) × ((Seen chosen strength rs) ⊎ ((chosen ≡ chan) × (strength ≡ rssi)))
    × (ltb_ℤ strength rssi ≡ false)
    × Above strength rs

best_channel_from-IsChoice :
    (chan : ℕ) (rssi : ℤ) (rs : List ApRecord)
    → IsChoice chan rssi rs (best_channel_from chan rssi rs)
unfolding Seen Above
best_channel_from-IsChoice chan rssi [] =
    (rssi, inr (unfold best_channel_from in refl, refl), ground arith, tt)
best_channel_from-IsChoice chan rssi (r ∷ rs) = elim (Bool-cases (ltb_ℤ rssi r.rssi)) [
  | inl up ↦
      let (strength, where_from, over, above) = best_channel_from-IsChoice r.primary r.rssi rs in
      let kept : ltb_ℤ strength rssi ≡ false = ground arith in
      subst (IsChoice chan rssi (r ∷ rs)) (sym (stronger chan rssi r rs up)) (
        strength,
        elim where_from [ inl s ↦ inl (inr s) | inr first ↦ inl (inl first) ],
        kept,
        (over, above),
      )
  | inr down ↦
      let (strength, where_from, over, above) = best_channel_from-IsChoice chan rssi rs in
      let kept : ltb_ℤ strength r.rssi ≡ false = ground arith in
      subst (IsChoice chan rssi (r ∷ rs)) (sym (weaker chan rssi r rs down)) (
        strength,
        elim where_from [ inl s ↦ inl (inr s) | inr first ↦ inr first ],
        over,
        (kept, above),
      )
]

-- The portal opens on the channel of a record of the last scan than which no other is stronger, and
-- on channel 6 where no record is stronger than -128 dBm, as where nothing was found.
best_channel-IsChoice :
    (records : List ApRecord) → IsChoice 6 (negsuc 127) records (best_channel records)
unfolding best_channel
best_channel-IsChoice records = best_channel_from-IsChoice 6 (negsuc 127) records
