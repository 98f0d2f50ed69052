-- ===== src/InitChannel/Pieces.antt =====
-- A message that arrives in pieces.
use dynamod.Common.{
  ℕ, ◌≡◌, refl, sym, subst, ap, ◌∙◌, inl, inr, List, [], ◌∷◌, ◌++◌, Option, none, some,
}
use mathlib.Core.List.{append-nil, append_assoc}
use dynamod.Common.Lists.{length, drop_all, List-cases}
use dynamod.Protocol.Framing.{ok, Serializer, encode, decode}
use dynamod.Protocol.Framing.RoundTrip.{decode-encode, decode-prefix}
use dynamod.Protocol.Message.{Message}
use dynamod.InitChannel.{ReadOutcome, received, would_block, read_failed, try_recv, take_message}

abbrev pub push : Option Message → List Message → List Message
push none ms = ms
push (some m) ms = m ∷ ms

-- What the calls return that make the reads, and the buffer afterwards.
unfoldable pub recv_all : Serializer → List ReadOutcome → List ℕ → List ℕ × List Message
recv_all s [] buf = (buf, [])
recv_all s (o ∷ os) buf =
    let (buf', message) = try_recv s o buf in
    let (last, messages) = recv_all s os buf' in (last, push message messages)

-- No read fails or is at the end of the stream.
unfoldable pub Delivers : List ReadOutcome → Type 0
Delivers [] = Unit {0}
Delivers (received [] ∷ os) = ⊥
Delivers (received (b ∷ bytes) ∷ os) = Delivers os
Delivers (would_block ∷ os) = Delivers os
Delivers (read_failed ∷ os) = ⊥

abbrev pub arrived : List ReadOutcome → List ℕ
arrived [] = []
arrived (received bytes ∷ os) = bytes ++ arrived os
arrived (would_block ∷ os) = arrived os
arrived (read_failed ∷ os) = arrived os

-- Nothing comes out of an empty buffer.
quiet :
    (s : Serializer) (os : List ReadOutcome)
    → Delivers os
    → arrived os ≡ []
    → recv_all s os [] ≡ ([], [])
unfolding recv_all try_recv decode Delivers
quiet s [] fine e = refl
quiet s (received [] ∷ os) fine e = absurd fine
quiet s (received (b ∷ bytes) ∷ os) fine e = absurd (cc)
quiet s (would_block ∷ os) fine e = quiet s os fine e
quiet s (read_failed ∷ os) fine e = absurd fine

nothing : (s : Serializer) (r : Message × ℕ) → decode s [] ≡ ok r → ⊥
unfolding decode
nothing s r h = cc

module _ (s : Serializer)
    (law : (m : Message) (p : List ℕ) → s.serialize m ≡ ok p → s.from_slice p ≡ ok m) (m : Message)
    (bytes : List ℕ) (written : encode s m ≡ ok bytes) where
  whole : take_message s (decode s bytes) bytes ≡ ([], some m)
  whole =
      let decoded : decode s bytes ≡ ok (m, length bytes) =
        subst (λ l. decode s l ≡ ok (m, length bytes)) (append-nil bytes)
          (decode-encode s law m bytes written []) in
      rw decoded (ap (λ l. (l, some m)) (drop_all bytes))

  part :
      (buf : List ℕ) (b : ℕ) (rest : List ℕ)
      → bytes ≡ buf ++ b ∷ rest
      → take_message s (decode s buf) buf ≡ (buf, none)
  part buf b rest e = rw (decode-prefix s law m bytes written buf b rest e) refl

  nonempty : bytes ≡ [] → ⊥
  nonempty h =
      nothing s (m, length bytes)
        (subst (λ l. decode s (l ++ []) ≡ ok (m, length bytes)) h
          (decode-encode s law m bytes written []))

  -- From a proper part of the message in the buffer on.
  more :
      (os : List ReadOutcome) (buf : List ℕ) (b : ℕ) (rest : List ℕ)
      → Delivers os
      → arrived os ≡ b ∷ rest
      → buf ++ b ∷ rest ≡ bytes
      → recv_all s os buf ≡ ([], m ∷ [])
  unfolding recv_all try_recv Delivers
  more [] buf b rest fine e split = absurd (cc)
  more (received [] ∷ os) buf b rest fine e split = absurd fine
  more (read_failed ∷ os) buf b rest fine e split = absurd fine
  more (would_block ∷ os) buf b rest fine e split =
      rw (part buf b rest (sym split)) (rw (more os buf b rest fine e split) refl)
  more (received (c ∷ cs) ∷ os) buf b rest fine e split = elim (List-cases (arrived os)) [
    | inl none_left ↦
        let all : buf ++ c ∷ cs ≡ bytes =
          ap (λ l. buf ++ c ∷ l) (sym (append-nil cs))
          ∙ (ap (λ l. buf ++ c ∷ (cs ++ l)) (sym none_left) ∙ (ap (λ l. buf ++ l) e ∙ split)) in
        rw (subst (λ l. take_message s (decode s l) l ≡ ([], some m)) (sym all) whole)
          (rw (quiet s os fine none_left) refl)
    | inr (d, ds, some_left) ↦
        let all : (buf ++ c ∷ cs) ++ d ∷ ds ≡ bytes =
          append_assoc buf (c ∷ cs) (d ∷ ds)
          ∙ (ap (λ l. buf ++ c ∷ (cs ++ l)) (sym some_left) ∙ (ap (λ l. buf ++ l) e ∙ split)) in
        rw (part (buf ++ c ∷ cs) d ds (sym all))
          (rw (more os (buf ++ c ∷ cs) d ds fine some_left all) refl)
  ]

  -- If the deserializer reads back what the serializer writes, then an encoded message that arrives
  -- in pieces of any sizes, with any reads that find nothing between them, is received exactly once,
  -- and the buffer is empty afterwards.
  pub recv_all-encode :
      (os : List ReadOutcome) → Delivers os → arrived os ≡ bytes → recv_all s os [] ≡ ([], m ∷ [])
  recv_all-encode os fine e = go bytes refl
    where
      go : (l : List ℕ) → bytes ≡ l → recv_all s os [] ≡ ([], m ∷ [])
      go (b ∷ rest) h = more os [] b rest fine (e ∙ h) (sym h)
      go [] h = absurd (nonempty h)
