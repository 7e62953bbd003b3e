-- ===== src/Dht/Frame.antt =====
-- src/dht_driver.c: forty bits make five bytes, most significant bit first.
use esp32_hydroponics_govern.Prelude.{
  ℕ, zero, suc, ◌+◌, ◌*◌, ◌/◌, ◌%◌, ◌<◌, ◌≡◌, refl, ◌∙◌, ◌&&◌, Bool, true, List, [], ◌∷◌, ◌++◌,
  ◌==◌, arith, Bool-cases, ==_iff, inl, inr, if◌then◌else◌,
}
use esp32_hydroponics_govern.Dht.{push_bit}

abbrev bit_at : ℕ → ℕ → Bool
bit_at weight b = b / weight % 2 == 1

-- The bits of a byte as the sensor sends them.
abbrev pub bits_of : ℕ → List Bool
bits_of b =
    bit_at 128 b
    ∷ bit_at 64 b
    ∷ bit_at 32 b
    ∷ bit_at 16 b
    ∷ bit_at 8 b
    ∷ bit_at 4 b
    ∷ bit_at 2 b
    ∷ bit_at 1 b
    ∷ []

-- The data of the loop over the bits.
unfoldable pub push_bits : ℕ → List Bool → List ℕ → List ℕ
push_bits i [] bytes = bytes
push_bits i (b ∷ bs) bytes = push_bits (i + 1) bs (push_bit bytes i b)

-- One byte's share of it.
unfoldable pub assemble : ℕ → List Bool → ℕ
assemble acc [] = acc
assemble acc (b ∷ bs) = assemble (acc * 2 % 256 + (if b then 1 else 0)) bs

-- Every byte is assembled from its bits, by evaluation.
all_assembled : ℕ → Bool
all_assembled zero = true
all_assembled (suc n) = assemble 0 (bits_of n) == n && all_assembled n

all_assembled_sound : (n b : ℕ) → all_assembled n ≡ true → b < n → assemble 0 (bits_of b) ≡ b
unfolding all_assembled
all_assembled_sound zero b h lt = absurd (omega arith)
all_assembled_sound (suc n) b h lt = elim (Bool-cases (b == n)) [
  | inl e ↦ rw ((==_iff b n).0 e) (ground arith)
  | inr e ↦ all_assembled_sound n b (ground arith) (ground arith)
]

assemble-bits_of : (b : ℕ) → b < 256 → assemble 0 (bits_of b) ≡ b
unfolding all_assembled assemble
assemble-bits_of b h = all_assembled_sound 256 b refl h

abbrev pub frame_bits : ℕ → ℕ → ℕ → ℕ → ℕ → List Bool
frame_bits b0 b1 b2 b3 b4 = bits_of b0 ++ (bits_of b1 ++ (bits_of b2 ++ (bits_of b3 ++ bits_of b4)))

frame_assembled :
    (b0 b1 b2 b3 b4 : ℕ)
    → push_bits 0 (frame_bits b0 b1 b2 b3 b4) (0 ∷ 0 ∷ 0 ∷ 0 ∷ 0 ∷ [])
      ≡ assemble 0 (bits_of b0)
        ∷ assemble 0 (bits_of b1)
        ∷ assemble 0 (bits_of b2)
        ∷ assemble 0 (bits_of b3)
        ∷ assemble 0 (bits_of b4)
        ∷ []
unfolding push_bits push_bit assemble
frame_assembled b0 b1 b2 b3 b4 = refl

-- The forty bits of a frame leave its five bytes in `data`.
pub push_bits_frame :
    (b0 b1 b2 b3 b4 : ℕ)
    → b0 < 256
    → b1 < 256
    → b2 < 256
    → b3 < 256
    → b4 < 256
    → push_bits 0 (frame_bits b0 b1 b2 b3 b4) (0 ∷ 0 ∷ 0 ∷ 0 ∷ 0 ∷ []) ≡ b0 ∷ b1 ∷ b2 ∷ b3 ∷ b4 ∷ []
push_bits_frame b0 b1 b2 b3 b4 h0 h1 h2 h3 h4 =
    frame_assembled b0 b1 b2 b3 b4
    ∙ rw (
      assemble-bits_of b0 h0,
      assemble-bits_of b1 h1,
      assemble-bits_of b2 h2,
      assemble-bits_of b3 h3,
      assemble-bits_of b4 h4,
    )
