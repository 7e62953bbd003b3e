-- ===== src/Wifi/Scan/Reader.antt =====
-- A reader of JSON for the list of networks, and what it makes of a string that src/wifi_manager.c
-- has escaped.
use esp32_hydroponics_govern.Prelude.{
  ℕ, zero, suc, ◌+◌, ◌*◌, ◌≤◌, ◌<◌, ◌≡◌, refl, Text, codes, decimal, signed_decimal, ℤ, pos, negsuc,
  Bool, true, false, ◌||◌, List, [], ◌∷◌, ◌++◌, Option, none, some, length, leb, ◌==◌, lt→ltb,
  arith, Bool-cases, inl, inr, if◌then◌else◌,
}
use esp32_hydroponics_govern.Device.{ApRecord}
use esp32_hydroponics_govern.Wifi.Credentials.{is_empty}
use esp32_hydroponics_govern.Wifi.Scan.{escape_char, escape, is_duplicate}

-- The reader: a string up to its closing quote, with what follows it. A control character is an error.
unfoldable pub read_string : Text → Option (Text × Text)
read_string [] = none
read_string (c ∷ []) = if c == b'"' then some ([], []) else none
read_string (c ∷ e ∷ s) =
    let literal = read_string (e ∷ s) in
    let escaped = read_string s in
    if c == b'"'
    then some ([], e ∷ s)
    else (if c == b'\\'
        then elim escaped [ none ↦ none | some (name, rest) ↦ some (e ∷ name, rest) ]
        else (if leb 0x20 c
            then elim literal [ none ↦ none | some (name, rest) ↦ some (c ∷ name, rest) ]
            else none))

-- What follows a given text.
unfoldable pub strip : Text → Text → Option Text
strip [] t = some t
strip (k ∷ key) [] = none
strip (k ∷ key) (c ∷ t) = if k == c then strip key t else none

-- What follows the end of an object.
unfoldable pub past_brace : Text → Text
past_brace [] = []
past_brace (c ∷ s) = let rest = past_brace s in if c == b'}' then s else rest

-- The name of an entry, and what follows the entry.
unfoldable pub read_entry : Text → Option (Text × Text)
unfolding read_string strip past_brace
read_entry t = elim (strip (codes "{\"ssid\":\"") t) [
  | none ↦ none
  | some t1 ↦ elim (read_string t1) [ none ↦ none | some (name, t2) ↦ some (name, past_brace t2) ]
]

-- The names of the entries up to the end of the array; the first of them has no comma before it.
unfoldable pub read_entries : ℕ → Bool → Text → Option (List Text)
unfolding read_entry
read_entries zero first t = none
read_entries (suc fuel) first [] = none
read_entries (suc fuel) first (c ∷ t) =
    if c == b']'
    then some []
    else elim (if first then some (c ∷ t) else strip (b',' ∷ []) (c ∷ t)) [
      | none ↦ none
      | some t1 ↦ elim (read_entry t1) [
        | none ↦ none
        | some (name, t2) ↦ elim (read_entries fuel false t2) [
          | none ↦ none
          | some names ↦ some (name ∷ names)
        ]
      ]
    ]

unfoldable pub read_names : ℕ → Text → Option (List Text)
unfolding read_entries
read_names fuel t = elim (strip (b'[' ∷ []) t) [ none ↦ none | some t1 ↦ read_entries fuel true t1 ]

-- A name as it can be shown: without its control characters.
unfoldable pub shown : Text → Text
shown [] = []
shown (c ∷ s) = let rest = shown s in if leb 0x20 c then c ∷ rest else rest

-- The names of the visible networks, each once, in the order of the scan.
unfoldable pub shown_names : List ApRecord → List ApRecord → List Text
unfolding shown
shown_names seen [] = []
shown_names seen (r ∷ rs) =
    let others = shown_names (r ∷ seen) rs in
    if is_empty r.ssid || is_duplicate r seen then others else shown r.ssid ∷ others

-- `rssi` is an int8_t.
abbrev pub RssiFits : ℤ → Type 0
RssiFits (pos n) = n < 128
RssiFits (negsuc n) = n < 128

abbrev pub AllRssiFit : List ApRecord → Type 0
AllRssiFit [] = Unit
AllRssiFit (r ∷ rs) = RssiFits r.rssi × AllRssiFit rs

read_string-literal :
    (c : ℕ) (t name rest : Text)
    → (c == b'"') ≡ false
    → (c == b'\\') ≡ false
    → leb 0x20 c ≡ true
    → read_string t ≡ some (name, rest)
    → read_string (c ∷ t) ≡ some (c ∷ name, rest)
unfolding read_string
read_string-literal c [] name rest quote slash plain h = absurd (ground (arith, h))
read_string-literal c (e ∷ t) name rest quote slash plain h = rw (quote, slash, plain) (rw h refl)

read_string-escaped :
    (c : ℕ) (t name rest : Text)
    → read_string t ≡ some (name, rest)
    → read_string (b'\\' ∷ c ∷ t) ≡ some (c ∷ name, rest)
unfolding read_string
read_string-escaped c t name rest h = rw h refl

special_shows : (c : ℕ) → (c == b'\\' || c == b'"') ≡ true → leb 0x20 c ≡ true
special_shows c h = ground (arith, h)

-- The string of an SSID ends at its own quote, whatever bytes it has.
pub read_string-escape :
    (out : ℕ) (s rest : Text)
    → out + 2 * length s ≤ 94
    → read_string (escape out s ++ b'"' ∷ rest) ≡ some (shown s, rest)
unfolding read_string escape escape_char shown
read_string-escape out [] [] h = refl
read_string-escape out [] (c ∷ rest) h = refl
read_string-escape out (c ∷ s) rest h = elim (Bool-cases (c == b'\\' || c == b'"')) [
  | inl special ↦
      rw (lt→ltb out 93 (omega arith), special, special_shows c special)
        (read_string-escaped c (escape (out + 2) s ++ b'"' ∷ rest) (shown s) rest
          (read_string-escape (out + 2) s rest (omega arith)))
  | inr ordinary ↦ elim (Bool-cases (leb 0x20 c)) [
    | inl plain ↦
        rw (lt→ltb out 93 (omega arith), ordinary, plain)
          (read_string-literal c (escape (out + 1) s ++ b'"' ∷ rest) (shown s) rest
            (ground (arith, ordinary)) (ground (arith, ordinary)) plain
            (read_string-escape (out + 1) s rest (omega arith)))
    | inr control ↦
        let same : out + 0 ≡ out = omega arith in
        rw (lt→ltb out 93 (omega arith), ordinary, control)
          (rw same (read_string-escape out s rest (omega arith)))
  ]
]

-- Text without the brace that ends an object.
unfoldable pub NoBrace : Text → Type 0
NoBrace [] = Unit
NoBrace (c ∷ s) = ((c == b'}') ≡ false) × NoBrace s

pub past_brace-append : (s rest : Text) → NoBrace s → past_brace (s ++ b'}' ∷ rest) ≡ rest
unfolding past_brace NoBrace
past_brace-append [] rest h = refl
past_brace-append (c ∷ s) rest h = rw h.0 (past_brace-append s rest h.1)

pub append-NoBrace : (s t : Text) → NoBrace s → NoBrace t → NoBrace (s ++ t)
unfolding NoBrace
append-NoBrace [] t h k = k
append-NoBrace (c ∷ s) t h k = (h.0, append-NoBrace s t h.1 k)

decimal-NoBrace : (n : ℕ) → n ≤ 128 → NoBrace (decimal n)
unfolding decimal NoBrace
decimal-NoBrace n h = ground arith

pub signed_decimal-NoBrace : (n : ℤ) → RssiFits n → NoBrace (signed_decimal n)
unfolding signed_decimal NoBrace
signed_decimal-NoBrace (pos n) h = decimal-NoBrace n (omega arith)
signed_decimal-NoBrace (negsuc n) h = (refl, decimal-NoBrace (suc n) (omega arith))

pub truth-NoBrace : (b : Bool) → NoBrace (if b then codes "true" else codes "false")
unfolding codes NoBrace
truth-NoBrace true = (refl, (refl, (refl, (refl, tt))))
truth-NoBrace false = (refl, (refl, (refl, (refl, (refl, tt)))))
