-- ===== src/Web/Form.antt =====
-- src/web_server.c: `url_decode` and `extract_field`.
pub mod Decode
pub mod Field
use esp32_hydroponics_govern.Prelude.{
  ℕ, zero, suc, ◌+◌, ◌-◌, ◌*◌, ◌%◌, Text, strstr, starts_with, before, Bool, true, false, ◌&&◌,
  ◌||◌, List, [], ◌∷◌, ◌++◌, Option, none, some, length, take, drop, leb, ◌==◌, if◌then◌else◌,
}

-- The value of a hexadecimal digit.
unfoldable pub hex_digit : ℕ → Option ℕ
hex_digit c =
    if leb b'0' c && leb c b'9'
    then some (c - b'0')
    else (if leb b'A' c && leb c b'F'
        then some (c - 55)
        else (if leb b'a' c && leb c b'f' then some (c - 87) else none))

-- `isspace`
unfoldable pub is_space : ℕ → Bool
is_space c = c == 32 || (leb 9 c && leb c 13)

-- `strtol(hex, &end, 16)` on two characters, where `end == hex + 2`: the value as a `char`. It takes
-- white space or a sign in place of the first digit.
unfoldable pub hex_pair : ℕ → ℕ → Option ℕ
unfolding hex_digit is_space
hex_pair h l = elim (hex_digit l) [
  | none ↦ none
  | some low ↦ elim (hex_digit h) [
    | some high ↦ some (high * 16 + low)
    | none ↦
        if is_space h || h == b'+'
        then some low
        else (if h == b'-' then some ((256 - low) % 256) else none)
  ]
]

-- The first branch of the loop: a `%` with two characters after it that are a hexadecimal pair. The
-- byte, and what follows the pair.
unfoldable pub percent : ℕ → Text → Option (ℕ × Text)
unfolding hex_pair
percent c [] = none
percent c (h ∷ []) = none
percent c (h ∷ l ∷ rest) =
    if c == b'%' then elim (hex_pair h l) [ none ↦ none | some v ↦ some (v, rest) ] else none

-- The loop of `url_decode`, with room for so many more bytes.
unfoldable pub decode : ℕ → Text → Text
unfolding percent
decode zero s = []
decode (suc room) [] = []
decode (suc room) (c ∷ s) =
    let literal = (if c == b'+' then b' ' else c) ∷ decode room s in
    elim (percent c s) [ none ↦ literal | some (v, rest) ↦ v ∷ decode room rest ]

-- The bytes that are written to `dst`, without the NUL.
unfoldable pub url_decode : Text → ℕ → Text
unfolding decode
url_decode src dst_size = decode (dst_size - 1) src

-- `none` where it returns false and leaves `dst` alone.
unfoldable pub extract_field : Text → Text → ℕ → Option Text
unfolding url_decode
extract_field body field dst_size =
    let key = take 31 (field ++ b'=' ∷ []) in
    let value = λ (p : Text). url_decode (before b'&' (drop (length key) p)) dst_size in
    elim (strstr key body) [
      | some p ↦ some (value p)
      | none ↦ if starts_with key body then some (value body) else none
    ]
