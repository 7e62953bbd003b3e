-- ===== src/Wifi/Scan/Lookup.antt =====
-- src/wifi_manager.c: the access point that a connection latches on to.
use esp32_hydroponics_govern.Prelude.{
  ◌≡◌, refl, ◌⊎◌, inl, inr, Text, text_eq, ltb_ℤ, ℤ, true, false, List, [], ◌∷◌, Option, none, some,
  Bool-cases, arith,
}
use esp32_hydroponics_govern.Device.{ApRecord}
use esp32_hydroponics_govern.Wifi.Scan.{better, find_from, find_scanned_ap}

abbrev pub All : (ApRecord → Type 0) → List ApRecord → Type 0
All P [] = Unit
All P (r ∷ rs) = P r × All P rs

abbrev pub Among : ApRecord → List ApRecord → Type 0
Among r [] = ⊥
Among r (q ∷ rs) = (q ≡ r) ⊎ Among r rs

-- Of those records that carry the name, none is stronger than the result.
abbrev pub IsStrongest : Text → ApRecord → ApRecord → Type 0
IsStrongest ssid r q = text_eq q.ssid ssid ≡ true → ltb_ℤ r.rssi q.rssi ≡ false

abbrev pub IsBest : Text → List ApRecord → Option ApRecord → Type 0
IsBest ssid records none = All (λ q. text_eq q.ssid ssid ≡ false) records
IsBest ssid records (some r) =
    Among r records × (text_eq r.ssid ssid ≡ true) × All (IsStrongest ssid r) records

-- The records that the loop has passed, the last first.
unfoldable passed : List ApRecord → List ApRecord → List ApRecord
passed [] seen = seen
passed (r ∷ rs) seen = passed rs (r ∷ seen)

All-map :
    (P Q : ApRecord → Type 0) (rs : List ApRecord)
    → ((r : ApRecord) → P r → Q r)
    → All P rs
    → All Q rs
All-map P Q [] f h = tt
All-map P Q (r ∷ rs) f h = (f r h.0, All-map P Q rs f h.1)

weaker : (a b c : ℤ) → ltb_ℤ a b ≡ true → ltb_ℤ a c ≡ false → ltb_ℤ b c ≡ false
weaker a b c h k = ground arith

better-IsBest :
    (ssid : Text) (seen : List ApRecord) (best : Option ApRecord) (r : ApRecord)
    → IsBest ssid seen best
    → IsBest ssid (r ∷ seen) (better ssid best r)
unfolding better
better-IsBest ssid seen none r h = elim (Bool-cases (text_eq r.ssid ssid)) [
  | inl same ↦
      rw same
        (inl refl, same, (λ _. ground arith, All-map _ (IsStrongest ssid r) seen (λ q n y. cc) h))
  | inr other ↦ rw other (other, h)
]
better-IsBest ssid seen (some b) r h = elim (Bool-cases (text_eq r.ssid ssid)) [
  | inr other ↦ rw other (inr h.0, h.1, (λ y. cc, h.2))
  | inl same ↦ elim (Bool-cases (ltb_ℤ b.rssi r.rssi)) [
    | inl up ↦
        rw (same, up)
          (
            inl refl,
            same,
            (λ _. ground arith, All-map _ (IsStrongest ssid r) seen (outdone up) h.2),
          )
    | inr down ↦ rw (same, down) (inr h.0, h.1, (λ _. down, h.2))
  ]
]
  where
    outdone :
        ltb_ℤ b.rssi r.rssi ≡ true → (q : ApRecord) → IsStrongest ssid b q → IsStrongest ssid r q
    outdone up q n y = weaker b.rssi r.rssi q.rssi up (n y)

All-passed :
    (P : ApRecord → Type 0) (rs seen : List ApRecord)
    → All P (passed rs seen)
    → All P rs × All P seen
unfolding passed
All-passed P [] seen h = (tt, h)
All-passed P (r ∷ rs) seen h =
    let (ahead, r_seen) = All-passed P rs (r ∷ seen) h in ((r_seen.0, ahead), r_seen.1)

Among-passed :
    (r : ApRecord) (rs seen : List ApRecord) → Among r (passed rs seen) → Among r rs ⊎ Among r seen
unfolding passed
Among-passed r [] seen h = inr h
Among-passed r (q ∷ rs) seen h = elim (Among-passed r rs (q ∷ seen) h) [
  | inl ahead ↦ inl (inr ahead)
  | inr (inl here) ↦ inl (inl here)
  | inr (inr behind) ↦ inr behind
]

find_from-IsBest :
    (ssid : Text) (rs seen : List ApRecord) (best : Option ApRecord)
    → IsBest ssid seen best
    → IsBest ssid (passed rs seen) (find_from ssid best rs)
unfolding find_from passed
find_from-IsBest ssid [] seen best h = h
find_from-IsBest ssid (r ∷ rs) seen best h =
    find_from-IsBest ssid rs (r ∷ seen) (better ssid best r) (better-IsBest ssid seen best r h)

in_order :
    (ssid : Text) (rs : List ApRecord) (o : Option ApRecord)
    → IsBest ssid (passed rs []) o
    → IsBest ssid rs o
in_order ssid rs none h = (All-passed (λ q. text_eq q.ssid ssid ≡ false) rs [] h).0
in_order ssid rs (some r) h = (
  elim (Among-passed r rs [] h.0) [ inl m ↦ m | inr m ↦ absurd m ],
  h.1,
  (All-passed (IsStrongest ssid r) rs [] h.2).0,
)

-- `find_scanned_ap` returns a record of the cache that carries the name and than which no other
-- record of that name is stronger, and NULL exactly if no record carries the name.
pub find_scanned_ap-IsBest :
    (records : List ApRecord) (ssid : Text) → IsBest ssid records (find_scanned_ap records ssid)
unfolding find_scanned_ap
find_scanned_ap-IsBest records ssid =
    in_order ssid records (find_from ssid none records) (find_from-IsBest ssid records [] none tt)
