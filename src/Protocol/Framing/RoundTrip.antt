-- ===== src/Protocol/Framing/RoundTrip.antt =====
-- rust/dynamod-common/src/protocol.rs: reading back what was written, whole or in parts.
use dynamod.Common.{
  ℕ, ◌+◌, ◌/◌, ◌%◌, ◌≤◌, ◌≡◌, refl, sym, ap, subst, ◌∙◌, List, [], ◌∷◌, ◌++◌, arith,
}
use dynamod.Common.Lists.{length, length-append, take-append, take-append_within}
use dynamod.Protocol.Message.{Message}
use dynamod.Protocol.Framing.{
  Result, ok, err, Serializer, incomplete, encode, decode, decode_body, to_le_bytes, from_le_bytes,
  frame, max_message_size, header_size, encode_payload, deserialized,
}

-- The length field holds what was written to it.
from_le_bytes-to_le_bytes :
    (n : ℕ)
    → n ≤ 65536
    → from_le_bytes (n % 256) (n / 256 % 256) (n / 65536 % 256) (n / 16777216 % 256) ≡ n
unfolding from_le_bytes
from_le_bytes-to_le_bytes n h = omega arith

-- A message that is encoded is a frame of its payload, which is small enough.
encode_payload-frame :
    (s : Serializer) (r : Result s.SerializeError (List ℕ)) (bytes : List ℕ)
    → encode_payload s r ≡ ok bytes
    → (payload : List ℕ) × (r ≡ ok payload) × (length payload ≤ 65536) × (bytes ≡ frame payload)
unfolding encode_payload
encode_payload-frame s (err e) bytes h = absurd (cc)
encode_payload-frame s (ok payload) bytes h = (payload, refl, ground arith, ground arith)

decode-frame :
    (s : Serializer) (payload rest : List ℕ)
    → length payload ≤ 65536
    → decode s (frame payload ++ rest) ≡ decode_body s (length payload) (payload ++ rest)
unfolding decode to_le_bytes
decode-frame s payload rest small =
    ap (λ n. decode_body s n (payload ++ rest)) (from_le_bytes-to_le_bytes (length payload) small)

decode_written :
    (s : Serializer) (payload rest : List ℕ) (m : Message)
    → length payload ≤ 65536
    → s.from_slice payload ≡ ok m
    → decode s (frame payload ++ rest) ≡ ok (m, length (frame payload))
unfolding decode_body deserialized to_le_bytes
decode_written s payload rest m small read =
    decode-frame s payload rest small
    ∙ ground (arith, read, small, take-append payload rest, length-append payload rest)

prefix_of_frame :
    (s : Serializer) (payload : List ℕ)
    → length payload ≤ 65536
    → (part : List ℕ) (b : ℕ) (rest : List ℕ) → frame payload ≡ part ++ b ∷ rest
    → decode s part ≡ err incomplete
unfolding decode decode_body to_le_bytes
prefix_of_frame s payload small [] b rest e = refl
prefix_of_frame s payload small (m0 ∷ []) b rest e = refl
prefix_of_frame s payload small (m0 ∷ m1 ∷ []) b rest e = refl
prefix_of_frame s payload small (m0 ∷ m1 ∷ b0 ∷ []) b rest e = refl
prefix_of_frame s payload small (m0 ∷ m1 ∷ b0 ∷ b1 ∷ []) b rest e = refl
prefix_of_frame s payload small (m0 ∷ m1 ∷ b0 ∷ b1 ∷ b2 ∷ []) b rest e = refl
prefix_of_frame s payload small (m0 ∷ m1 ∷ b0 ∷ b1 ∷ b2 ∷ b3 ∷ l) b rest e =
    let body : payload ≡ l ++ b ∷ rest = cc in
    ground
      (arith, e, body, length-append l (b ∷ rest), from_le_bytes-to_le_bytes (length payload) small)

-- A decoded message lies within the buffer and the limit, and more bytes behind it change nothing.
decode_body-within :
    (s : Serializer) (len : ℕ) (rest more : List ℕ) (m : Message) (n : ℕ)
    → decode_body s len rest ≡ ok (m, n)
    → (n ≤ header_size + length rest)
      × (n ≤ header_size + max_message_size)
      × (decode_body s len (rest ++ more) ≡ ok (m, n))
unfolding decode_body deserialized
decode_body-within s len rest more m n h =
    ground (arith, length-append rest more, take-append_within len rest more)

-- A message that is decoded lies within the buffer, is no longer than the limit allows, and is
-- decoded in the same way when more bytes follow.
pub decode-within :
    (s : Serializer) (buf more : List ℕ) (m : Message) (n : ℕ)
    → decode s buf ≡ ok (m, n)
    → (n ≤ length buf) × (n ≤ header_size + max_message_size) × (decode s (buf ++ more) ≡ ok (m, n))
unfolding decode
decode-within s [] more m n h = absurd (cc)
decode-within s (m0 ∷ []) more m n h = absurd (cc)
decode-within s (m0 ∷ m1 ∷ []) more m n h = absurd (cc)
decode-within s (m0 ∷ m1 ∷ b0 ∷ []) more m n h = absurd (cc)
decode-within s (m0 ∷ m1 ∷ b0 ∷ b1 ∷ []) more m n h = absurd (cc)
decode-within s (m0 ∷ m1 ∷ b0 ∷ b1 ∷ b2 ∷ []) more m n h = absurd (cc)
decode-within s (m0 ∷ m1 ∷ b0 ∷ b1 ∷ b2 ∷ b3 ∷ rest) more m n h =
    ground (arith, decode_body-within s (from_le_bytes b0 b1 b2 b3) rest more m n)

module _ (s : Serializer)
    (law : (m : Message) (p : List ℕ) → s.serialize m ≡ ok p → s.from_slice p ≡ ok m) (m : Message)
    (bytes : List ℕ) (written : encode s m ≡ ok bytes) where
  -- If the deserializer reads back what the serializer writes, then decoding an encoded message,
  -- whatever follows it in the buffer, yields the message and the number of its bytes.
  pub decode-encode : (rest : List ℕ) → decode s (bytes ++ rest) ≡ ok (m, length bytes)
  unfolding encode
  decode-encode rest =
      let (payload, e, small, same) = encode_payload-frame s (s.serialize m) bytes written in
      subst (λ (l : List ℕ). decode s (l ++ rest) ≡ ok (m, length l)) (sym same)
        (decode_written s payload rest m small (law m payload e))

  -- If the deserializer reads back what the serializer writes, then a proper prefix of an encoded
  -- message is reported as incomplete, so that a reader waits for the rest.
  pub decode-prefix :
      (part : List ℕ) (b : ℕ) (rest : List ℕ)
      → bytes ≡ part ++ b ∷ rest
      → decode s part ≡ err incomplete
  unfolding encode
  decode-prefix part b rest split =
      let (payload, e, small, same) = encode_payload-frame s (s.serialize m) bytes written in
      prefix_of_frame s payload small part b rest (sym same ∙ split)
