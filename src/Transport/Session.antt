-- ===== src/Transport/Session.antt =====
-- crates/transport/src/server.rs: `handle_connection`, as what it does in order. Between two of its
-- actions those of other connections may come.
use publisher.Base.{◌<◌, ◌≡◌, refl, ap, ◌∙◌, inl, inr, List, [], ◌∷◌, ◌++◌, map}
use publisher.Base.Lists.{All}
use publisher.Base.Words.{u32_mod}
use publisher.Base.Results.{Result, ok, err, Result-cases}
use publisher.Spec.Primitives.{Bytes, Text}
use publisher.Transport.Framing.{TransportError, quic, LengthPrefixCodec}
use publisher.Transport.Utf8.{from_utf8, from_utf8_ascii}
use publisher.Transport.Reading.{
  Stream, Connection, ◌>>=◌, read_frame, read_client_id, utf8_of, messages, add_message,
}
use publisher.Transport.Reading.Frames.{IsFrameOf, frame_read, read_frame-ok}
use publisher.Transport.Connections.{StableId}

-- The two changes of the registry and the three callbacks.
pub data Action : Type 0 where
  inserted : Text → StableId → Action
  on_connect : Text → Action
  on_message : Text → Bytes → Action
  removed : Text → StableId → Action
  on_disconnect : Text → Action

-- What a connection does once it has a name.
abbrev pub named : LengthPrefixCodec → StableId → List Stream → Text → List Action
named codec conn streams client_id =
    inserted client_id conn
      ∷ on_connect client_id
      ∷ map (on_message client_id) (messages codec streams)
    ++ removed client_id conn ∷ on_disconnect client_id ∷ []

abbrev first_stream :
    LengthPrefixCodec → StableId → Text → List Stream → Result TransportError (List Action)
first_stream codec conn closing [] = err (quic closing)
first_stream codec conn closing (s ∷ streams) =
    read_client_id codec s >>= λ client_id. ok (named codec conn streams client_id)

unfoldable pub handle_connection :
    LengthPrefixCodec → StableId → Connection → Result TransportError (List Action)
unfolding read_client_id messages
handle_connection codec conn c = first_stream codec conn c.closing c.streams

abbrev IsBytes : Stream → Type 0
IsBytes s = All (λ b. b < 256) s.bytes

-- The streams carry the payloads: a stream that begins with no frame of the allowed size carries
-- nothing, whatever else it holds.
pub data Carries (codec : LengthPrefixCodec) : List Stream → List Bytes → Type 0 where
  done : Carries codec [] []
  frame :
      {s : Stream} {streams : List Stream} {payload : Bytes} {payloads : List Bytes}
      → IsFrameOf codec payload s.bytes
      → Carries codec streams payloads
      → Carries codec (s ∷ streams) (payload ∷ payloads)
  junk :
      {s : Stream} {streams : List Stream} {payloads : List Bytes}
      → ((payload : Bytes) → ¬ IsFrameOf codec payload s.bytes)
      → Carries codec streams payloads
      → Carries codec (s ∷ streams) payloads

module _ (codec : LengthPrefixCodec) (small : codec.max_message_size < u32_mod) where
  messages-Carries :
      {streams : List Stream} {payloads : List Bytes}
      → All IsBytes streams
      → Carries codec streams payloads
      → messages codec streams ≡ payloads
  unfolding messages
  messages-Carries b done = refl
  messages-Carries b (frame {s} {streams} {payload} f c) =
      ap (λ r. add_message r (messages codec streams)) (frame_read codec s payload small f)
      ∙ ap (◌∷◌ payload) (messages-Carries b.1 c)
  messages-Carries b (junk {s} {streams} n c) = elim (Result-cases (read_frame codec s)) [
    | inl (p, e) ↦ absurd (n p (read_frame-ok codec s p b.0 e))
    | inr (x, e) ↦ ap (λ r. add_message r (messages codec streams)) e ∙ messages-Carries b.1 c
  ]

  read_client_id_ascii :
      (s : Stream) (client_id : Text)
      → All (λ c. c < 0x80) client_id
      → IsFrameOf codec client_id s.bytes
      → read_client_id codec s ≡ ok client_id
  unfolding read_client_id
  read_client_id_ascii s client_id ascii f =
      ap (λ r. r >>= λ id_buf. utf8_of (from_utf8 id_buf)) (frame_read codec s client_id small f)
      ∙ ap utf8_of (from_utf8_ascii client_id ascii)

-- Under a limit that fits into `u32`, a connection whose first stream is the frame of an ASCII name
-- is registered and announced under it, hands on exactly the payloads that its other streams carry,
-- in order, passing over the streams that carry none, and at last is taken from the registry and
-- announced as ended.
pub handle_connection_delivers :
    (codec : LengthPrefixCodec) (conn : StableId) (c : Connection) (s : Stream)
    (streams : List Stream) (client_id : Text) (payloads : List Bytes)
    → codec.max_message_size < u32_mod
    → c.streams ≡ s ∷ streams
    → All (λ b. b < 0x80) client_id
    → IsFrameOf codec client_id s.bytes
    → All IsBytes streams
    → Carries codec streams payloads
    → handle_connection codec conn c
      ≡ ok (
          inserted client_id conn
          ∷ on_connect client_id
          ∷ (map (on_message client_id) payloads
              ++ removed client_id conn ∷ on_disconnect client_id ∷ []))
unfolding handle_connection
handle_connection_delivers codec conn c s streams client_id payloads small e ascii f b carried =
    ap (first_stream codec conn c.closing) e
    ∙ ap (λ r. r >>= λ id. ok (named codec conn streams id))
        (read_client_id_ascii codec small s client_id ascii f)
    ∙ ap
        (λ ps. ok (
          inserted client_id conn
          ∷ on_connect client_id
          ∷ (map (on_message client_id) ps
              ++ removed client_id conn ∷ on_disconnect client_id ∷ [])))
        (messages-Carries codec small b carried)
