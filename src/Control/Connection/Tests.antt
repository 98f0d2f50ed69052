-- ===== src/Control/Connection/Tests.antt =====
-- A request for a reload that arrives in two pieces.
use dynamod.Common.{ℕ, ◌≡◌, refl, true, List, [], ◌∷◌, some, arith}
use dynamod.Protocol.Framing.{Result, ok, err, Serializer, encode, to_le_bytes}
use dynamod.Protocol.Message.{Message, MessageKind, MessageBody, request, response, reload, ack}
use dynamod.Supervisor.Intensity
use dynamod.Supervisor.Tree
use dynamod.Supervisor.Tree.{SupervisorTree}
use dynamod.Config.Supervisor.{one_for_one}
use dynamod.Control.{handle_request, reload_configuration}
use dynamod.Control.Connection.{got, handle_connection, answered}
use dynamod.Control.Connection.Served.{Delivers, handle_connection-answered}

data ReadError : Type 0 where
  unreadable : ReadError

-- A serializer that writes requests to reload and their answers, and refuses the other messages.
write : ℕ → MessageKind → MessageBody → Result ReadError (List ℕ)
write id request reload = ok (id ∷ [])
write id (response n) ack = ok (id ∷ n ∷ [])
write id _ _ = err unreadable

read : List ℕ → Result ReadError Message
read (id ∷ []) = ok (record { id = id; kind = request; body = reload })
read (id ∷ n ∷ []) = ok (record { id = id; kind = response n; body = ack })
read _ = err unreadable

abbrev reloads : Serializer
reloads = record {
  SerializeError = ReadError;
  DeserializeError = ReadError;
  serialize = λ m. write m.id m.kind m.body;
  from_slice = read;
}

read-write :
    (id : ℕ) (kind : MessageKind) (body : MessageBody) (p : List ℕ)
    → write id kind body ≡ ok p
    → read p ≡ ok (record { id = id; kind = kind; body = body })
unfolding write read
read-write id request reload p h = ground (arith, h)
read-write id (response n) ack p h = ground (arith, h)
read-write id _ _ p h = absurd (cc)

reads_back : (m : Message) (p : List ℕ) → reloads.serialize m ≡ ok p → reloads.from_slice p ≡ ok m
reads_back m p h = read-write m.id m.kind m.body p h

abbrev asked : Message
asked = record { id = 5; kind = request; body = reload }

abbrev tree : SupervisorTree
tree = Tree.new "root" one_for_one (Intensity.new 3 60)

handle_connection-answered_example :
    handle_connection reloads
      (λ t. "")
      (record { reads = got (68 ∷ 77 ∷ 1 ∷ []) ∷ got (0 ∷ 0 ∷ 0 ∷ 5 ∷ []) ∷ []; writable = true })
      tree
    ≡ answered (68 ∷ 77 ∷ 2 ∷ 0 ∷ 0 ∷ 0 ∷ 5 ∷ 5 ∷ []) (some reload_configuration)
unfolding encode write to_le_bytes Delivers handle_request
handle_connection-answered_example =
    handle_connection-answered reloads reads_back asked (68 ∷ 77 ∷ 1 ∷ 0 ∷ 0 ∷ 0 ∷ 5 ∷ []) refl
      (got (68 ∷ 77 ∷ 1 ∷ []) ∷ got (0 ∷ 0 ∷ 0 ∷ 5 ∷ []) ∷ []) (λ t. "") tree
      (68 ∷ 77 ∷ 2 ∷ 0 ∷ 0 ∷ 0 ∷ 5 ∷ 5 ∷ []) tt refl refl
