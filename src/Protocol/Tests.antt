-- ===== src/Protocol/Tests.antt =====
-- Runs of the framing, and its theorems at them.
use dynamod.Common.{ℕ, ◌+◌, ◌≤◌, ◌≡◌, refl, List, [], ◌∷◌, ◌++◌, arith}
use dynamod.Common.Lists.{length, take}
use dynamod.InitChannel.{received, would_block}
use dynamod.InitChannel.Pieces.{recv_all, recv_all-encode, Delivers}
use dynamod.Protocol.Message.{Message, request, heartbeat, MessageBody, MessageKind}
use dynamod.Protocol.Framing.{
  Result, ok, err, Serializer, incomplete, bad_magic, too_large, encode, decode, to_le_bytes,
  from_le_bytes, header_size, max_message_size,
}
use dynamod.Protocol.Framing.RoundTrip.{decode-encode, decode-prefix, decode-within}

abbrev beat : Message
beat = record { id = 42; kind = request; body = heartbeat }

data ReadError : Type 0 where
  unreadable : ReadError

-- A serializer that writes requests that are heartbeats, and refuses the other messages.
write_beat : ℕ → MessageKind → MessageBody → Result ReadError (List ℕ)
write_beat id request heartbeat = ok (id ∷ [])
write_beat id _ _ = err unreadable

read_beat : List ℕ → Result ReadError Message
read_beat (id ∷ []) = ok (record { id = id; kind = request; body = heartbeat })
read_beat _ = err unreadable

abbrev beats : Serializer
beats = record {
  SerializeError = ReadError;
  DeserializeError = ReadError;
  serialize = λ m. write_beat m.id m.kind m.body;
  from_slice = read_beat;
}

read_beat-write_beat :
    (id : ℕ) (kind : MessageKind) (body : MessageBody) (p : List ℕ)
    → write_beat id kind body ≡ ok p
    → read_beat p ≡ ok (record { id = id; kind = kind; body = body })
unfolding write_beat read_beat
read_beat-write_beat id request heartbeat p h = ground (arith, h)
read_beat-write_beat id _ _ p h = absurd (cc)

reads_back : (m : Message) (p : List ℕ) → beats.serialize m ≡ ok p → beats.from_slice p ≡ ok m
reads_back m p h = read_beat-write_beat m.id m.kind m.body p h

-- What a run of the code computes with.
program : Unit {0}
unfolding encode decode to_le_bytes from_le_bytes write_beat read_beat take Delivers
program = tt

abbrev written : List ℕ
written = 68 ∷ 77 ∷ 1 ∷ 0 ∷ 0 ∷ 0 ∷ 42 ∷ []

encode-beat : encode beats beat ≡ ok written
unfolding program
encode-beat = refl

decode_empty : decode beats [] ≡ err incomplete
unfolding program
decode_empty = refl

decode_noise : decode beats (255 ∷ 255 ∷ 0 ∷ 0 ∷ 0 ∷ 0 ∷ []) ≡ err bad_magic
unfolding program
decode_noise = refl

decode_huge : decode beats (68 ∷ 77 ∷ 1 ∷ 0 ∷ 1 ∷ 0 ∷ []) ≡ err (too_large 65537)
unfolding program
decode_huge = refl

decode-encode_example : decode beats (written ++ 9 ∷ []) ≡ ok (beat, 7)
decode-encode_example = decode-encode beats reads_back beat written encode-beat (9 ∷ [])

decode-prefix_example : decode beats (68 ∷ 77 ∷ 1 ∷ 0 ∷ 0 ∷ 0 ∷ []) ≡ err incomplete
decode-prefix_example =
    decode-prefix beats reads_back beat written encode-beat (68 ∷ 77 ∷ 1 ∷ 0 ∷ 0 ∷ 0 ∷ []) 42 []
      refl

decode-within_example :
    (7 ≤ length written)
    × (7 ≤ header_size + max_message_size)
    × (decode beats (written ++ 9 ∷ []) ≡ ok (beat, 7))
unfolding program
decode-within_example = decode-within beats written (9 ∷ []) beat 7 refl

-- The message comes in two pieces, with a read between them that finds nothing.
recv_all-encode_example :
    recv_all beats
      (received (68 ∷ 77 ∷ 1 ∷ []) ∷ would_block ∷ received (0 ∷ 0 ∷ 0 ∷ 42 ∷ []) ∷ [])
      []
    ≡ ([], beat ∷ [])
unfolding program
recv_all-encode_example =
    recv_all-encode beats reads_back beat written encode-beat
      (received (68 ∷ 77 ∷ 1 ∷ []) ∷ would_block ∷ received (0 ∷ 0 ∷ 0 ∷ 42 ∷ []) ∷ []) tt refl
