-- ===== src/Web/Form/Field.antt =====
-- src/web_server.c: `extract_field` on the body that the portal's page posts (src/page_setup.html).
use esp32_hydroponics_govern.Prelude.{
  ℕ, ◌/◌, ◌%◌, ◌<◌, ◌≡◌, refl, ◌∙◌, Text, codes, strstr, starts_with, before, true, false, [], ◌∷◌,
  ◌++◌, some, length, Bool-cases, inl, inr, ◌==◌, arith,
}
use esp32_hydroponics_govern.Web.Form.{extract_field}
use esp32_hydroponics_govern.Web.Form.Decode.{
  is_unreserved, upper_hex, encode, AreBytes, cons, not_plus, url_decode-encode,
}

-- Text without `=` and `&`.
unfoldable pub IsPlain : Text → Type 0
IsPlain [] = Unit
IsPlain (c ∷ s) = ((c == b'=') ≡ false) × ((c == b'&') ≡ false) × IsPlain s

upper_hex_plain :
    (n : ℕ) → n < 16 → ((upper_hex n == b'=') ≡ false) × ((upper_hex n == b'&') ≡ false)
unfolding upper_hex
upper_hex_plain n h = ground arith

unreserved_plain : (c : ℕ) → is_unreserved c ≡ true → ((c == b'=') ≡ false) × ((c == b'&') ≡ false)
unfolding is_unreserved
unreserved_plain c h = ground arith

encode-IsPlain : (s : Text) → AreBytes s → IsPlain (encode s)
unfolding encode IsPlain
encode-IsPlain [] bytes = tt
encode-IsPlain (c ∷ s) (cons byte bytes) = elim (Bool-cases (is_unreserved c)) [
  | inl plain ↦ let (a, b) = unreserved_plain c plain in rw plain (a, b, encode-IsPlain s bytes)
  | inr escaped ↦
      let (a, b) = upper_hex_plain (c / 16) (omega arith) in
      let (a', b') = upper_hex_plain (c % 16) (omega arith) in
      rw escaped (refl, refl, (a, b, (a', b', encode-IsPlain s bytes)))
]

before-IsPlain : (s rest : Text) → IsPlain s → before b'&' (s ++ b'&' ∷ rest) ≡ s
unfolding before IsPlain
before-IsPlain [] rest h = refl
before-IsPlain (c ∷ s) rest h = rw (h.1, before-IsPlain s rest h.2) refl

-- The key of a field whose name is one character.
abbrev key_of : ℕ → Text
key_of k = k ∷ b'=' ∷ []

strstr_here : (k : ℕ) (rest : Text) → strstr (key_of k) (k ∷ b'=' ∷ rest) ≡ some (k ∷ b'=' ∷ rest)
unfolding strstr starts_with
strstr_here k [] = ground arith
strstr_here k (c ∷ rest) = ground arith

-- Neither a plain text nor the `&` after it holds a key.
strstr-IsPlain :
    (k : ℕ) (s rest : Text)
    → (k == b'&') ≡ false
    → IsPlain s
    → strstr (key_of k) (s ++ b'&' ∷ rest) ≡ strstr (key_of k) rest
unfolding strstr starts_with IsPlain
strstr-IsPlain k [] rest h plain = rw (h, strstr) refl
strstr-IsPlain k (c ∷ []) rest h plain = ground arith
strstr-IsPlain k (c ∷ e ∷ s) rest h plain = ground (arith, strstr-IsPlain k (e ∷ s) rest h plain.2)

extract_one :
    (k n : ℕ) (v body rest : Text)
    → strstr (key_of k) body ≡ some (k ∷ b'=' ∷ (encode v ++ b'&' ∷ rest))
    → AreBytes v
    → length v < n
    → extract_field body (k ∷ []) n ≡ some v
unfolding extract_field
extract_one k n v body rest found bytes fits =
    rw (found, extract_field)
      (rw (before-IsPlain (encode v) rest (encode-IsPlain v bytes))
        (rw (url_decode-encode v n bytes fits) refl))

extract_flag :
    (flag : ℕ) (body : Text)
    → strstr (key_of b'o') body ≡ some (b'o' ∷ b'=' ∷ flag ∷ [])
    → is_unreserved flag ≡ true
    → extract_field body (b'o' ∷ []) 4 ≡ some (flag ∷ [])
unfolding extract_field before
extract_flag flag body found plain =
    let (no_eq, no_amp) = unreserved_plain flag plain in
    rw (found, extract_field) (rw no_amp (rw (not_plus flag plain) refl))

-- The body that the page posts.
unfoldable pub portal_body : Text → Text → Text → Text
unfolding encode
portal_body ssid pass open_flag =
    b's'
    ∷ b'='
    ∷ (encode ssid ++ b'&' ∷ b'p' ∷ b'=' ∷ (encode pass ++ b'&' ∷ b'o' ∷ b'=' ∷ open_flag))

-- The three fields of the portal's form arrive as they were typed: for a name and a password of at
-- most 63 bytes, whatever the bytes, and a flag of one plain character.
pub extract_field-portal_body :
    (ssid pass : Text) (flag : ℕ)
    → AreBytes ssid
    → AreBytes pass
    → length ssid < 64
    → length pass < 64
    → is_unreserved flag ≡ true
    → let body = portal_body ssid pass (flag ∷ []) in
      (extract_field body (codes "s") 64 ≡ some ssid)
      × (extract_field body (codes "p") 64 ≡ some pass)
      × (extract_field body (codes "o") 4 ≡ some (flag ∷ []))
unfolding portal_body codes strstr starts_with
extract_field-portal_body ssid pass flag s_bytes p_bytes s_fits p_fits flag_plain =
    let flag_field = b'o' ∷ b'=' ∷ flag ∷ [] in
    let pass_field = b'p' ∷ b'=' ∷ (encode pass ++ b'&' ∷ flag_field) in
    let no_p : strstr (key_of b'p') (portal_body ssid pass (flag ∷ [])) ≡ some pass_field =
      strstr-IsPlain b'p' (encode ssid) pass_field refl (encode-IsPlain ssid s_bytes)
      ∙ strstr_here b'p' (encode pass ++ b'&' ∷ flag_field) in
    let no_o : strstr (key_of b'o') (portal_body ssid pass (flag ∷ [])) ≡ some flag_field =
      strstr-IsPlain b'o' (encode ssid) pass_field refl (encode-IsPlain ssid s_bytes)
      ∙ strstr-IsPlain b'o' (encode pass) flag_field refl (encode-IsPlain pass p_bytes)
      ∙ strstr_here b'o' (flag ∷ []) in
    (
      extract_one b's' 64 ssid (portal_body ssid pass (flag ∷ [])) pass_field
          (strstr_here b's' (encode ssid ++ b'&' ∷ pass_field)) s_bytes s_fits,
      extract_one b'p' 64 pass (portal_body ssid pass (flag ∷ [])) flag_field no_p p_bytes p_fits,
      extract_flag flag (portal_body ssid pass (flag ∷ [])) no_o flag_plain,
    )
