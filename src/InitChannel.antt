-- ===== src/InitChannel.antt =====
-- rust/dynamod-svmgr/src/ipc/init_channel.rs: the channel to the init program. A read from the
-- stream returns what arrived, which may be a part of a message or several; at the end of the stream
-- it returns nothing.
pub mod Pieces
use dynamod.Common.{ℕ, List, [], ◌∷◌, ◌++◌, Option, none, some}
use dynamod.Common.Lists.{drop}
use dynamod.Protocol.Framing.{
  Result, ok, err, Serializer, DecodeError, incomplete, bad_magic, too_large, deserialize_failed,
  decode, EncodeError, encode,
}
use dynamod.Protocol.Message.{
  Message, MessageBody, MessageKind, request, heartbeat, request_shutdown, log_to_kmsg,
  ShutdownKind,
}

-- What `read` returns: `Ok`, `WouldBlock`, or another error.
pub data ReadOutcome : Type 0 where
  received : List ℕ → ReadOutcome
  would_block read_failed : ReadOutcome

-- "Try to decode", and drop what was decoded or what is no message.
abbrev pub take_message :
    (s : Serializer) → Result (DecodeError s) (Message × ℕ) → List ℕ → List ℕ × Option Message
take_message s (ok (msg, consumed)) read_buf = (drop consumed read_buf, some msg)
take_message s (err incomplete) read_buf = (read_buf, none)
take_message s (err _) read_buf = ([], none)

unfoldable pub try_recv : Serializer → ReadOutcome → List ℕ → List ℕ × Option Message
try_recv s (received []) read_buf = (read_buf, none)
try_recv s (received (b ∷ bytes)) read_buf =
    let buf = read_buf ++ b ∷ bytes in take_message s (decode s buf) buf
try_recv s would_block read_buf = take_message s (decode s read_buf) read_buf
try_recv s read_failed read_buf = (read_buf, none)

-- The message that is sent under an id of the counter.
abbrev pub next_message : ℕ → MessageBody → Message
next_message id body = record { id = id; kind = request; body = body }

-- The bytes that are written.
unfoldable pub send_message : (s : Serializer) → ℕ → MessageBody → Result (EncodeError s) (List ℕ)
send_message s id body = encode s (next_message id body)

unfoldable pub send_heartbeat : (s : Serializer) → ℕ → Result (EncodeError s) (List ℕ)
unfolding send_message
send_heartbeat s id = send_message s id heartbeat

unfoldable pub send_shutdown_request :
    (s : Serializer) → ℕ → ShutdownKind → Result (EncodeError s) (List ℕ)
unfolding send_message
send_shutdown_request s id kind = send_message s id (request_shutdown kind)
