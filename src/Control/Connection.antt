-- ===== src/Control/Connection.antt =====
-- rust/dynamod-svmgr/src/ipc/control.rs: the control socket. What the reads of a connection return
-- is an argument, and so is whether the answer can be written; an accept that finds no connection, or
-- fails, is the end of the list of connections. Setting up a stream does not fail here.
pub mod Served
mod Tests
use dynamod.Common.{ℕ, Bool, true, false, List, [], ◌∷◌, ◌++◌, Option, none, some}
use dynamod.Protocol.Framing.{
  Result, ok, err, Serializer, DecodeError, incomplete, EncodeError, decode, encode,
}
use dynamod.Protocol.Message.{Message, MessageBody, response}
use dynamod.Supervisor.Tree.{SupervisorTree}
use dynamod.Common.{String}
use dynamod.Control.{ControlAction, handle_request}

-- What `read` returns: bytes, none at the end of the stream, or an error.
pub data Read : Type 0 where
  got : List ℕ → Read
  read_failed : Read

pub record Connection : Type 0 where
  pub reads : List Read
  pub writable : Bool

pub data Heard : Type 0 where
  nothing broken : Heard
  heard : Message → Heard

abbrev pub at_end : List ℕ → Heard
at_end [] = nothing
at_end (b ∷ filled) = broken

abbrev pub decoded : (s : Serializer) → Result (DecodeError s) (Message × ℕ) → Heard → Heard
decoded s (ok (m, n)) rest = heard m
decoded s (err incomplete) rest = rest
decoded s (err _) rest = broken

-- "Read until we have a complete framed message".
unfoldable pub read_message : Serializer → List Read → List ℕ → Heard
read_message s [] filled = broken
read_message s (read_failed ∷ reads) filled = broken
read_message s (got [] ∷ reads) filled = at_end filled
read_message s (got (b ∷ bytes) ∷ reads) filled =
    let buf = filled ++ b ∷ bytes in decoded s (decode s buf) (read_message s reads buf)

-- `Ok(None)` before a request, the answer that is written with `Ok` of an action, or an error.
pub data Handled : Type 0 where
  silent failed : Handled
  answered : (bytes : List ℕ) → Option ControlAction → Handled

abbrev pub response_to : Message → MessageBody → Message
response_to m body = record { id = m.id; kind = response m.id; body = body }

abbrev pub written :
    (s : Serializer) → Bool → Option ControlAction → Result (EncodeError s) (List ℕ) → Handled
written s true action (ok bytes) = answered bytes action
written s false action (ok bytes) = failed
written s writable action (err e) = failed

abbrev pub answer : Serializer → (SupervisorTree → String) → Bool → SupervisorTree → Heard → Handled
answer s format_tree writable t nothing = silent
answer s format_tree writable t broken = failed
answer s format_tree writable t (heard m) =
    let (body, action) = handle_request format_tree m.body t in
    written s writable action (encode s (response_to m body))

unfoldable pub handle_connection :
    Serializer → (SupervisorTree → String) → Connection → SupervisorTree → Handled
unfolding read_message
handle_connection s format_tree c t = answer s format_tree c.writable t (read_message s c.reads [])

abbrev pub pushed : Handled → List ControlAction → List ControlAction
pushed (answered bytes (some action)) actions = action ∷ actions
pushed _ actions = actions

unfoldable pub poll :
    Serializer → (SupervisorTree → String) → List Connection → SupervisorTree → List ControlAction
unfolding handle_connection
poll s format_tree [] t = []
poll s format_tree (c ∷ connections) t =
    pushed (handle_connection s format_tree c t) (poll s format_tree connections t)
