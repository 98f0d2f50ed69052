-- ===== src/Protocol/Framing.antt =====
-- rust/dynamod-common/src/protocol.rs: `encode` and `decode`. A byte is a number; the serializer
-- (rmp_serde) is a parameter.
pub mod RoundTrip
use dynamod.Common.{ℕ, ◌+◌, ◌*◌, ◌/◌, ◌%◌, ◌&&◌, List, [], ◌∷◌, ◌++◌, ltb, ◌==◌, if◌then◌else◌}
use dynamod.Common.Lists.{length, take}
use dynamod.Protocol.Message.{Message}

-- `Result<A, E>`.
pub data Result (E A : Type 0) : Type 0 where
  ok : A → Result E A
  err : E → Result E A

-- The functions of rmp_serde, which may fail with errors of their own.
pub record Serializer : Type 1 where
  pub SerializeError : Type 0
  pub DeserializeError : Type 0
  pub serialize : Message → Result SerializeError (List ℕ)
  pub from_slice : List ℕ → Result DeserializeError Message

abbrev pub magic : List ℕ
magic = 68 ∷ 77 ∷ []

abbrev pub max_message_size : ℕ
max_message_size = 64 * 1024

abbrev pub header_size : ℕ
header_size = 6

pub data EncodeError (s : Serializer) : Type 0 where
  serialize_failed : s.SerializeError → EncodeError s
  message_too_large : (size : ℕ) → EncodeError s

pub data DecodeError (s : Serializer) : Type 0 where
  incomplete bad_magic : DecodeError s
  too_large : (size : ℕ) → DecodeError s
  deserialize_failed : s.DeserializeError → DecodeError s

-- `(n as u32).to_le_bytes()`
unfoldable pub to_le_bytes : ℕ → List ℕ
to_le_bytes n = n % 256 ∷ n / 256 % 256 ∷ n / 65536 % 256 ∷ n / 16777216 % 256 ∷ []

-- `u32::from_le_bytes([b0, b1, b2, b3])`
unfoldable pub from_le_bytes : ℕ → ℕ → ℕ → ℕ → ℕ
from_le_bytes b0 b1 b2 b3 = b0 + 256 * b1 + 65536 * b2 + 16777216 * b3

-- The frame of a payload.
abbrev pub frame : List ℕ → List ℕ
frame payload = magic ++ (to_le_bytes (length payload) ++ payload)

encode_payload :
    (s : Serializer) → Result s.SerializeError (List ℕ) → Result (EncodeError s) (List ℕ)
encode_payload s (err e) = err (serialize_failed e)
encode_payload s (ok payload) =
    if ltb max_message_size (length payload)
    then err (message_too_large (length payload))
    else ok (frame payload)

unfoldable pub encode : (s : Serializer) → Message → Result (EncodeError s) (List ℕ)
unfolding encode_payload
encode s msg = encode_payload s (s.serialize msg)

deserialized :
    (s : Serializer) → ℕ → Result s.DeserializeError Message → Result (DecodeError s) (Message × ℕ)
deserialized s total (err e) = err (deserialize_failed e)
deserialized s total (ok msg) = ok (msg, total)

-- `decode` once the header is there: `len` is its length field and `rest` what follows the header.
pub decode_body : (s : Serializer) → ℕ → List ℕ → Result (DecodeError s) (Message × ℕ)
unfolding deserialized
decode_body s len rest =
    if ltb max_message_size len
    then err (too_large len)
    else (if ltb (header_size + length rest) (header_size + len)
        then err incomplete
        else deserialized s (header_size + len) (s.from_slice (take len rest)))

-- Six bytes or more are a header and the rest; fewer are incomplete.
unfoldable pub decode : (s : Serializer) → List ℕ → Result (DecodeError s) (Message × ℕ)
unfolding decode_body
decode s (m0 ∷ m1 ∷ b0 ∷ b1 ∷ b2 ∷ b3 ∷ rest) =
    if (m0 == 68) && (m1 == 77)
    then decode_body s (from_le_bytes b0 b1 b2 b3) rest
    else err bad_magic
decode s _ = err incomplete
