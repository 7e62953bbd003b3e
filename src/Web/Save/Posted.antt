-- ===== src/Web/Save/Posted.antt =====
-- src/web_server.c: the fields that `save_handler` reads from what the portal's page posts.
use esp32_hydroponics_govern.Prelude.{
  ℕ, ◌/◌, ◌%◌, ◌<◌, ◌≡◌, refl, Text, codes, cstr, true, false, [], ◌∷◌, ◌++◌, length, Bool-cases,
  inl, inr, ◌==◌, arith,
}
use esp32_hydroponics_govern.Web.Form.Decode.{is_unreserved, upper_hex, encode, AreBytes, cons}
use esp32_hydroponics_govern.Web.Form.Field.{portal_body, extract_field-portal_body}
use esp32_hydroponics_govern.Web.Save.{Request, field_string, recv_size}
use esp32_hydroponics_govern.Web.Save.Outcome.{posted}

-- No byte is NUL.
unfoldable IsString : Text → Type 0
IsString [] = Unit
IsString (c ∷ s) = ((c == 0) ≡ false) × IsString s

cstr-append : (s rest : Text) → IsString s → cstr (s ++ rest) ≡ s ++ cstr rest
unfolding cstr IsString
cstr-append [] rest h = refl
cstr-append (c ∷ s) rest h = rw (h.0, cstr-append s rest h.1) refl

upper_hex_string : (n : ℕ) → n < 16 → (upper_hex n == 0) ≡ false
unfolding upper_hex
upper_hex_string n h = ground arith

unreserved_string : (c : ℕ) → is_unreserved c ≡ true → (c == 0) ≡ false
unfolding is_unreserved
unreserved_string c h = ground arith

encode-IsString : (s : Text) → AreBytes s → IsString (encode s)
unfolding encode IsString
encode-IsString [] bytes = tt
encode-IsString (c ∷ s) (cons byte bytes) = elim (Bool-cases (is_unreserved c)) [
  | inl plain ↦ rw plain (unreserved_string c plain, encode-IsString s bytes)
  | inr escaped ↦ rw escaped (
    refl,
    (
      upper_hex_string (c / 16) (omega arith),
      (upper_hex_string (c % 16) (omega arith), encode-IsString s bytes),
    ),
  )
]

-- The body holds no NUL, so that nothing of it is lost.
cstr-portal_body :
    (ssid pass : Text) (flag : ℕ)
    → AreBytes ssid
    → AreBytes pass
    → is_unreserved flag ≡ true
    → cstr (portal_body ssid pass (flag ∷ [])) ≡ portal_body ssid pass (flag ∷ [])
unfolding portal_body cstr
cstr-portal_body ssid pass flag s_bytes p_bytes plain =
    let word = b'&' ∷ b'o' ∷ b'=' ∷ flag ∷ [] in
    let tail : cstr word ≡ word = rw (unreserved_string flag plain, cstr) refl in
    let middle = cstr-append (encode pass) word (encode-IsString pass p_bytes) in
    rw
      (cstr-append (encode ssid) (b'&' ∷ b'p' ∷ b'=' ∷ (encode pass ++ word))
        (encode-IsString ssid s_bytes))
      (rw (middle, cstr) (rw tail refl))

-- A form that arrives whole gives the handler the name, the password and the flag that were typed.
pub posted-portal_body :
    (req : Request) (ssid pass : Text) (flag : ℕ)
    → AreBytes ssid
    → AreBytes pass
    → cstr ssid ≡ ssid
    → cstr pass ≡ pass
    → length ssid < 64
    → length pass < 64
    → is_unreserved flag ≡ true
    → req.recv (recv_size req) ≡ portal_body ssid pass (flag ∷ [])
    → (posted req (codes "s") 64 ≡ ssid)
      × (posted req (codes "p") 64 ≡ pass)
      × (posted req (codes "o") 4 ≡ flag ∷ [])
unfolding posted field_string cstr
posted-portal_body req ssid pass flag s_bytes p_bytes s_str p_str s_fits p_fits plain whole =
    let (s, p, o) = extract_field-portal_body ssid pass flag s_bytes p_bytes s_fits p_fits plain in
    let body = cstr-portal_body ssid pass flag s_bytes p_bytes plain in
    let flag_str : cstr (flag ∷ []) ≡ flag ∷ [] = rw (unreserved_string flag plain, cstr) refl in
    (rw (whole, body, s) s_str, rw (whole, body, p) p_str, rw (whole, body, o) flag_str)
