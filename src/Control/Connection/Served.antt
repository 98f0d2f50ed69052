-- ===== src/Control/Connection/Served.antt =====
-- A request that arrives in pieces is answered once it is complete.
use dynamod.Common.{ℕ, String, ◌≡◌, refl, sym, ap, ◌∙◌, inl, inr, subst, true, List, [], ◌∷◌, ◌++◌}
use dynamod.Common.Lists.{length, List-cases}
use mathlib.Core.List.{append-nil, append_assoc}
use dynamod.Protocol.Framing.{ok, Serializer, decode, encode}
use dynamod.Protocol.Framing.RoundTrip.{decode-encode, decode-prefix}
use dynamod.Protocol.Message.{Message}
use dynamod.Supervisor.Tree.{SupervisorTree}
use dynamod.Control.{handle_request}
use dynamod.Control.Connection.{
  Read, got, read_failed, heard, read_message, response_to, answered, handle_connection,
}

-- Every read returns some bytes.
unfoldable pub Delivers : List Read → Type 0
Delivers [] = Unit {0}
Delivers (got [] ∷ reads) = ⊥
Delivers (got (b ∷ bytes) ∷ reads) = Delivers reads
Delivers (read_failed ∷ reads) = ⊥

abbrev pub arrived : List Read → List ℕ
arrived [] = []
arrived (got bytes ∷ reads) = bytes ++ arrived reads
arrived (read_failed ∷ reads) = arrived reads

module _ (s : Serializer)
    (law : (m : Message) (p : List ℕ) → s.serialize m ≡ ok p → s.from_slice p ≡ ok m) (m : Message)
    (bytes : List ℕ) (written : encode s m ≡ ok bytes) where
  whole : decode s bytes ≡ ok (m, length bytes)
  whole =
      subst (λ l. decode s l ≡ ok (m, length bytes)) (append-nil bytes)
        (decode-encode s law m bytes written [])

  -- From a proper part of the message in the buffer on.
  more :
      (reads : List Read) (buf : List ℕ) (b : ℕ) (rest : List ℕ)
      → Delivers reads
      → arrived reads ≡ b ∷ rest
      → buf ++ b ∷ rest ≡ bytes
      → read_message s reads buf ≡ heard m
  unfolding read_message Delivers
  more [] buf b rest fine e split = absurd (cc)
  more (got [] ∷ reads) buf b rest fine e split = absurd fine
  more (read_failed ∷ reads) buf b rest fine e split = absurd fine
  more (got (c ∷ cs) ∷ reads) buf b rest fine e split = elim (List-cases (arrived reads)) [
    | inl none_left ↦
        let all : buf ++ c ∷ cs ≡ bytes =
          ap (λ l. buf ++ c ∷ l) (sym (append-nil cs))
          ∙ (ap (λ l. buf ++ c ∷ (cs ++ l)) (sym none_left) ∙ (ap (λ l. buf ++ l) e ∙ split)) in
        rw (subst (λ l. decode s l ≡ ok (m, length bytes)) (sym all) whole) refl
    | inr (d, ds, some_left) ↦
        let all : (buf ++ c ∷ cs) ++ d ∷ ds ≡ bytes =
          append_assoc buf (c ∷ cs) (d ∷ ds)
          ∙ (ap (λ l. buf ++ c ∷ (cs ++ l)) (sym some_left) ∙ (ap (λ l. buf ++ l) e ∙ split)) in
        rw (decode-prefix s law m bytes written (buf ++ c ∷ cs) d ds (sym all))
          (more reads (buf ++ c ∷ cs) d ds fine some_left all)
  ]

  nonempty : bytes ≡ [] → ⊥
  unfolding decode
  nonempty h =
      let same : decode s [] ≡ ok (m, length bytes) =
        subst (λ l. decode s l ≡ ok (m, length bytes)) h whole in
      cc

  -- If the deserializer reads back what the serializer writes, then a request that arrives in pieces
  -- of any sizes is answered exactly as it asks for, if the answer can be encoded and written.
  pub handle_connection-answered :
      (reads : List Read) (format_tree : SupervisorTree → String) (t : SupervisorTree)
      (out : List ℕ)
      → Delivers reads
      → arrived reads ≡ bytes
      → encode s (response_to m (handle_request format_tree m.body t).0) ≡ ok out
      → handle_connection s format_tree (record { reads = reads; writable = true }) t
        ≡ answered out (handle_request format_tree m.body t).1
  unfolding handle_connection
  handle_connection-answered reads format_tree t out fine e sent = elim (List-cases bytes) [
    | inl h ↦ absurd (nonempty h)
    | inr (b, rest, h) ↦ rw (more reads [] b rest fine (e ∙ h) (sym h)) (rw sent refl)
  ]
