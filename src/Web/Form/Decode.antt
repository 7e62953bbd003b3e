-- ===== src/Web/Form/Decode.antt =====
-- src/web_server.c: `url_decode` stays in its buffer, and undoes the encoding of the portal's page.
use esp32_hydroponics_govern.Prelude.{
  ℕ, zero, suc, ◌+◌, ◌-◌, ◌/◌, ◌%◌, ◌≤◌, ◌<◌, ◌≡◌, refl, Text, Bool, true, false, ◌&&◌, ◌||◌, [],
  ◌∷◌, none, some, length, ltb, leb, Bool-cases, Option-cases, inl, inr, ◌==◌, arith, if◌then◌else◌,
}
use esp32_hydroponics_govern.Web.Form.{hex_digit, hex_pair, percent, decode, url_decode}

decode_literal :
    (room c : ℕ) (s : Text)
    → percent c s ≡ none
    → decode (suc room) (c ∷ s) ≡ (if c == b'+' then b' ' else c) ∷ decode room s
unfolding decode
decode_literal room c s e = rw (e, decode) refl

decode-percent :
    (room c v : ℕ) (s rest : Text)
    → percent c s ≡ some (v, rest)
    → decode (suc room) (c ∷ s) ≡ v ∷ decode room rest
unfolding decode
decode-percent room c v s rest e = rw (e, decode) refl

decode_nil : (room : ℕ) → decode room [] ≡ []
unfolding decode
decode_nil zero = refl
decode_nil (suc room) = refl

length-decode : (room : ℕ) (s : Text) → length (decode room s) ≤ room
unfolding decode
length-decode zero s = omega arith
length-decode (suc room) [] = omega arith
length-decode (suc room) (c ∷ s) = elim (Option-cases (percent c s)) [
  | inl e ↦ rw (decode_literal room c s e) (ground (arith, length-decode room s))
  | inr ((v, rest), e) ↦
      rw (decode-percent room c v s rest e) (ground (arith, length-decode room rest))
]

-- The bytes that are written, and the NUL after them, fit the destination, whatever is decoded.
pub length-url_decode :
    (src : Text) (dst_size : ℕ) → 0 < dst_size → length (url_decode src dst_size) < dst_size
unfolding url_decode
length-url_decode src dst_size room = ground (arith, length-decode (dst_size - 1) src)

-- A byte that `encodeURIComponent` leaves as it is.
unfoldable pub is_unreserved : ℕ → Bool
is_unreserved c =
    let alphanumeric =
      (leb b'0' c && leb c b'9') || ((leb b'A' c && leb c b'Z') || (leb b'a' c && leb c b'z')) in
    let hyphens = c == b'-' || (c == b'_' || (c == b'.' || c == b'~')) in
    let marks = c == b'!' || (c == b'*' || (c == 39 || (c == b'(' || c == b')'))) in
    alphanumeric || (hyphens || marks)

unfoldable pub upper_hex : ℕ → ℕ
upper_hex n = if ltb n 10 then b'0' + n else 55 + n

-- `encodeURIComponent` on the UTF-8 bytes of a string: every other byte is a `%` with two upper-case
-- digits.
unfoldable pub encode : Text → Text
unfolding is_unreserved upper_hex
encode [] = []
encode (c ∷ s) =
    if is_unreserved c
    then c ∷ encode s
    else b'%' ∷ upper_hex (c / 16) ∷ upper_hex (c % 16) ∷ encode s

pub data AreBytes : Text → Type 0 where
  nil : AreBytes []
  cons : {c : ℕ} {s : Text} → c < 256 → AreBytes s → AreBytes (c ∷ s)

hex_digit-upper_hex : (n : ℕ) → n < 16 → hex_digit (upper_hex n) ≡ some n
unfolding hex_digit upper_hex
hex_digit-upper_hex n h = ground arith

percent-encode :
    (c : ℕ) (s : Text)
    → c < 256
    → percent b'%' (upper_hex (c / 16) ∷ upper_hex (c % 16) ∷ s) ≡ some (c, s)
unfolding percent hex_pair
percent-encode c s h =
    rw (hex_digit-upper_hex (c % 16) (omega arith))
      (rw (hex_digit-upper_hex (c / 16) (omega arith)) (ground arith))

percent_other : (c : ℕ) (s : Text) → is_unreserved c ≡ true → percent c s ≡ none
unfolding percent is_unreserved
percent_other c [] h = refl
percent_other c (x ∷ []) h = refl
percent_other c (x ∷ y ∷ s) h = ground arith

pub not_plus : (c : ℕ) → is_unreserved c ≡ true → (c == b'+') ≡ false
unfolding is_unreserved
not_plus c h = ground arith

decode-encode : (room : ℕ) (s : Text) → AreBytes s → length s ≤ room → decode room (encode s) ≡ s
unfolding encode
decode-encode zero [] bytes fits = decode_nil zero
decode-encode (suc room) [] bytes fits = decode_nil (suc room)
decode-encode zero (c ∷ s) bytes fits = absurd (ground arith)
decode-encode (suc room) (c ∷ s) (cons byte bytes) fits = elim (Bool-cases (is_unreserved c)) [
  | inl plain ↦ rw plain (
      rw (decode_literal room c (encode s) (percent_other c (encode s) plain))
        (rw (decode-encode room s bytes (omega arith)) (rw (not_plus c plain) refl)))
  | inr escaped ↦ rw escaped (
      rw
        (decode-percent room b'%' c (upper_hex (c / 16) ∷ upper_hex (c % 16) ∷ encode s) (encode s)
          (percent-encode c (encode s) byte))
        (rw (decode-encode room s bytes (omega arith)) refl))
]

-- The portal's page encodes the network's name and the password with `encodeURIComponent`; decoding
-- gives back every string of bytes that leaves room for the NUL.
pub url_decode-encode :
    (s : Text) (dst_size : ℕ)
    → AreBytes s
    → length s < dst_size
    → url_decode (encode s) dst_size ≡ s
unfolding url_decode
url_decode-encode s dst_size bytes fits = decode-encode (dst_size - 1) s bytes (omega arith)
