-- ===== src/Dns/Reply.antt =====
-- src/dns_server.c: what a reply holds, and which packets overrun `resp[512]`.
use esp32_hydroponics_govern.Prelude.{
  ℕ, ◌+◌, ◌-◌, ◌≤◌, ◌<◌, ◌≡◌, refl, sym, ◌∙◌, ◌↔◌, ap, List, [], ◌∷◌, ◌++◌, none, some, length,
  length-append, length-drop, take, take_all, drop, get_or, arith,
}
use native.Mathlib.Nat.{suc-add}
use esp32_hydroponics_govern.Config.{ap_ip}
use esp32_hydroponics_govern.Dns.{hdr_size, reply_header, answer, build_reply}

-- A reply read by the layout of a DNS message whose question section takes `qlen` bytes.
pub record IsReplyTo (buf resp : List ℕ) : Type 0 where
  pub size : length resp ≡ length buf + 16
  pub id : take 2 resp ≡ get_or buf 0 0 ∷ get_or buf 1 0 ∷ []
  pub flags : take 2 (drop 2 resp) ≡ 0x81 ∷ 0x80 ∷ []
  pub questions : take 2 (drop 4 resp) ≡ get_or buf 4 0 ∷ get_or buf 5 0 ∷ []
  pub one_answer : take 2 (drop 6 resp) ≡ 0 ∷ 1 ∷ []
  pub question : take (length buf - 12) (drop 12 resp) ≡ drop 12 buf
  pub address : drop (length buf + 12) resp ≡ ap_ip

take-append {ℓ} : {A : Type ℓ} (xs ys : List A) → take (length xs) (xs ++ ys) ≡ xs
take-append [] ys = refl
take-append (x ∷ xs) ys = ap (λ t. x ∷ t) (take-append xs ys)

drop-append {ℓ} :
    {A : Type ℓ} (xs ys : List A) (k : ℕ) → drop (length xs + k) (xs ++ ys) ≡ drop k ys
drop-append [] ys k = ap (λ n. drop n ys) (omega arith)
drop-append (x ∷ xs) ys k = rw (suc-add) (drop-append xs ys k)

-- A query with a whole header that leaves room for the answer is answered by its identifier, its
-- question section unchanged, one answer, and the address of the access point.
pub build_reply_lem :
    (buf : List ℕ)
    → hdr_size ≤ length buf
    → length buf ≤ 496
    → (resp : List ℕ) × (build_reply buf ≡ some resp) × IsReplyTo buf resp
unfolding build_reply
build_reply_lem buf h k =
    let question = take (length buf - 12) (drop 12 buf) in
    let whole : question ≡ drop 12 buf =
      take_all (length buf - 12) (drop 12 buf) (omega (arith, length-drop 12 buf)) in
    let size : length question ≡ length buf - 12 =
      omega (arith, ap length whole, length-drop 12 buf) in
    let body : length (question ++ answer) ≡ length buf + 4 =
      omega (arith, length-append question answer, size) in
    let to_answer : length buf + 12 ≡ length (reply_header buf) + (length question + 12) =
      omega (arith, size) in
    (
      reply_header buf ++ (question ++ answer),
      ground arith,
      record {
        size = omega (arith, body);
        id = refl;
        flags = refl;
        questions = refl;
        one_answer = refl;
        question =
            ap (λ n. take n (question ++ answer)) (sym size)
            ∙ (take-append question answer ∙ whole);
        address =
            ap (λ n. drop n (reply_header buf ++ (question ++ answer))) to_answer
            ∙ (drop-append (reply_header buf) (question ++ answer) (length question + 12)
                ∙ drop-append question answer 12);
      },
    )

-- A packet with a whole header overruns the response buffer exactly if it is longer than 496 bytes,
-- although up to 512 are received.
pub build_reply_overrun :
    (buf : List ℕ) → hdr_size ≤ length buf → (build_reply buf ≡ none) ↔ (496 < length buf)
unfolding build_reply
build_reply_overrun buf h = ground arith
