-- ===== src/Harness/Frames.antt =====
-- crates/stratamoto/src/frame.rs: the layout of a frame, and what the wire library makes of a
-- received one.
pub mod Layout
use stratamoto.Base.{
  ℕ, ◌+◌, ◌-◌, ◌*◌, ◌/◌, ◌%◌, ◌^◌, Bool, true, false, List, [], ◌∷◌, ◌++◌, length, ltb, leb,
  if◌then◌else◌, ◌⊎◌, Result, ok, err, ◌>>=◌,
}
use stratamoto.Harness.Errors.{Error, framing, payload_too_long}

-- `CHANNEL_MSG_MASK`, the top bit of the extension type
abbrev pub channel_msg_mask : ℕ
channel_msg_mask = 2 ^ 15

-- `to_le_bytes`, and its first three bytes of a longer word
abbrev pub u16_le_bytes : ℕ → List ℕ
u16_le_bytes n = n % 256 ∷ n / 256 % 256 ∷ []

abbrev pub u24_le_bytes : ℕ → List ℕ
u24_le_bytes n = n % 256 ∷ n / 256 % 256 ∷ n / 65536 % 256 ∷ []

-- `u32::try_from(payload.len()).ok().filter(|len| *len < 1 << 24)`
unfoldable pub frame_length : ℕ → Result Error ℕ
frame_length n =
    if ltb n (2 ^ 32)
    then (if ltb n (2 ^ 24) then ok n else err (framing payload_too_long))
    else err (framing payload_too_long)

-- an extension type with the channel bit set or cleared
unfoldable pub with_channel_bit : ℕ → Bool → ℕ
with_channel_bit extension_type true = extension_type % channel_msg_mask + channel_msg_mask
with_channel_bit extension_type false = extension_type % channel_msg_mask

unfoldable pub assemble : ℕ → ℕ → Bool → List ℕ → Result Error (List ℕ)
unfolding frame_length with_channel_bit
assemble extension_type message_type channel_msg payload = do
  payload_length ← frame_length (length payload)
  ok (
      u16_le_bytes (with_channel_bit extension_type channel_msg)
      ++ message_type ∷ u24_le_bytes payload_length
      ++ payload)

-- `Header` of the wire library: the extension type without its channel bit, the channel bit, the
-- message type and the payload's length
pub record Header : Type 0 where
  pub ext_type_without_channel_msg : ℕ
  pub channel_msg : Bool
  pub msg_type : ℕ
  pub payload_length : ℕ

-- What the harness tells apart of `AnyMessage`: texts are their bytes.
pub data MessageBody : Type 0 where
  setup_connection_success : ℕ → ℕ → MessageBody
  setup_connection_error : ℕ → List ℕ → MessageBody
  reconnect : List ℕ → ℕ → MessageBody
  other_message : MessageBody

pub record AnyMessage : Type 0 where
  pub channel_bit : Bool
  pub body : MessageBody

-- A received frame: its header, and the library's error or the message that it decodes to.
pub record Frame : Type 0 where
  pub header : Header
  pub message : Error ⊎ AnyMessage
