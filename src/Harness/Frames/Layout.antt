-- ===== src/Harness/Frames/Layout.antt =====
-- The bytes of a frame of crates/stratamoto/src/frame.rs, and what can be read back from them.
use stratamoto.Base.{
  ℕ, ◌+◌, ◌*◌, ◌/◌, ◌%◌, ◌^◌, ◌<◌, ◌≡◌, refl, ap, sym, ◌∙◌, Bool, true, false, List, ◌∷◌, ◌++◌,
  length, ltb, leb, Bool-cases, inl, inr, Option, none, some, ok, >>=-eq-ok, arith,
}
use stratamoto.Harness.Frames.{
  u16_le_bytes, u24_le_bytes, frame_length, with_channel_bit, assemble, Header,
}

-- The header and the payload in the bytes of a frame, as the specification lays them out.
abbrev pub read_frame : List ℕ → Option (Header × List ℕ)
read_frame (x₀ ∷ x₁ ∷ m ∷ l₀ ∷ l₁ ∷ l₂ ∷ payload) = some (
  record {
    ext_type_without_channel_msg = (x₀ + 256 * x₁) % 2 ^ 15;
    channel_msg = leb (2 ^ 15) (x₀ + 256 * x₁);
    msg_type = m;
    payload_length = l₀ + 256 * l₁ + 65536 * l₂;
  },
  payload,
)
read_frame _ = none

frame_length_lem : (n : ℕ) → n < 2 ^ 24 → frame_length n ≡ ok n
unfolding frame_length
frame_length_lem n h =
    let small : ltb n (2 ^ 24) ≡ true = grind arith in
    let word : ltb n (2 ^ 32) ≡ true = grind arith in rw (word, small) refl

frame_length-bound : (n k : ℕ) → frame_length n ≡ ok k → (n < 2 ^ 24) × (k ≡ n)
unfolding frame_length
frame_length-bound n k h = elim (Bool-cases (ltb n (2 ^ 24))) [
  | inl small ↦
      let word : ltb n (2 ^ 32) ≡ true = grind arith in
      let same : ok n ≡ ok k = rw (word, small) at h in (grind arith, (let e : n ≡ k = cc in sym e))
  | inr big ↦ absurd (elim (Bool-cases (ltb n (2 ^ 32))) [
    | inl word ↦ let no = (rw (word, big) at h) in cc
    | inr long ↦ let no = (rw long at h) in cc
  ])
]

with_channel_bit_word : (x : ℕ) (b : Bool) → with_channel_bit x b < 2 ^ 16
unfolding with_channel_bit
with_channel_bit_word x true = omega arith
with_channel_bit_word x false = omega arith

-- What the two halves of an extension type are.
with_channel_bit_halves :
    (x : ℕ) (b : Bool)
    → (with_channel_bit x b % 2 ^ 15 ≡ x % 2 ^ 15) × (leb (2 ^ 15) (with_channel_bit x b) ≡ b)
unfolding with_channel_bit
with_channel_bit_halves x true = (omega arith, grind arith)
with_channel_bit_halves x false = (omega arith, grind arith)

-- A frame is assembled only of a payload whose length fits in three bytes, and is six bytes longer.
pub assemble-bound :
    (extension_type message_type : ℕ) (channel : Bool) (payload bytes : List ℕ)
    → assemble extension_type message_type channel payload ≡ ok bytes
    → (length payload < 2 ^ 24) × (length bytes ≡ 6 + length payload)
unfolding assemble
assemble-bound x m b payload bytes h =
    let (n, fits, made) = >>=-eq-ok _ _ h in
    let (bound, _) = frame_length-bound (length payload) n fits in
    let same : u16_le_bytes (with_channel_bit x b) ++ m ∷ u24_le_bytes n ++ payload ≡ bytes = cc in
    (bound, ap length (sym same) ∙ omega arith)

u16_read : (n : ℕ) → n < 2 ^ 16 → n % 256 + 256 * (n / 256 % 256) ≡ n
u16_read n h = omega arith

u24_read : (n : ℕ) → n < 2 ^ 24 → n % 256 + 256 * (n / 256 % 256) + 65536 * (n / 65536 % 256) ≡ n
u24_read n h = omega arith

-- A frame is assembled where the payload is shorter than 2^24 bytes, and the header and the payload
-- that are read from its bytes are those it was assembled of.
pub read_frame-assemble :
    (extension_type message_type : ℕ) (channel : Bool) (payload : List ℕ)
    → length payload < 2 ^ 24
    → (bytes : List ℕ) × (assemble extension_type message_type channel payload ≡ ok bytes)
      × (read_frame bytes
          ≡ some (
            record {
              ext_type_without_channel_msg = extension_type % 2 ^ 15;
              channel_msg = channel;
              msg_type = message_type;
              payload_length = length payload;
            },
            payload,
          ))
unfolding assemble
read_frame-assemble x m b payload h =
    let e = with_channel_bit x b in
    let n = length payload in
    let (low, top) = with_channel_bit_halves x b in
    let word = u16_read e (with_channel_bit_word x b) in
    let long = u24_read n h in rw (frame_length_lem n h) (_, refl, rw (word, low, top, long) refl)
