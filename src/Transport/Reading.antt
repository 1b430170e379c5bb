-- ===== src/Transport/Reading.antt =====
-- crates/transport/src/server.rs: what `handle_connection` reads from the streams of a connection. A
-- stream of quinn is the bytes that it yields and the reason that a read past them gets.
pub mod Frames
use publisher.Base.{ℕ, zero, suc, Option, none, some, List, [], ◌∷◌}
use publisher.Base.Results.{Result, ok, err}
use publisher.Spec.Primitives.{Bytes, Text, codes}
use publisher.Transport.Framing.{TransportError, quic, other, LengthPrefixCodec, decode_length}
use publisher.Transport.Utf8.{from_utf8}

pub record Stream : Type 0 where
  pub bytes : Bytes
  pub ending : Text

-- The streams that a client opens, in order; after the last one `accept_bi` fails with a reason.
pub record Connection : Type 0 where
  pub streams : List Stream
  pub closing : Text

-- The first `n` bytes and the rest, if there are as many.
unfoldable pub split_exact : ℕ → Bytes → Option (Bytes × Bytes)
split_exact zero bs = some ([], bs)
split_exact (suc n) [] = none
split_exact (suc n) (b ∷ bs) = elim (split_exact n bs) [
  | none ↦ none
  | some (front, rest) ↦ some (b ∷ front, rest)
]

abbrev pub read_of : Text → Option (Bytes × Bytes) → Result TransportError (Bytes × Stream)
read_of ending none = err (quic ending)
read_of ending (some (front, rest)) = ok (front, record { bytes = rest; ending = ending })

unfoldable pub read_exact : ℕ → Stream → Result TransportError (Bytes × Stream)
unfolding split_exact
read_exact n s = read_of s.ending (split_exact n s.bytes)

-- `?` on a result.
infixl 5 ◌>>=◌
abbrev pub ◌>>=◌ {ℓ κ} :
    {A : Type ℓ} {B : Type κ}
    → Result TransportError A
    → (A → Result TransportError B)
    → Result TransportError B
ok a >>= f = f a
err e >>= f = err e

-- The header, its length, and as many bytes.
unfoldable pub read_frame : LengthPrefixCodec → Stream → Result TransportError Bytes
unfolding read_exact decode_length
read_frame codec s = do
  (header, recv) ← read_exact 4 s
  len ← decode_length codec header
  (payload, rest) ← read_exact len recv
  ok payload

abbrev pub utf8_of : Option Text → Result TransportError Text
utf8_of none = err (other (codes "invalid UTF-8 in client ID"))
utf8_of (some client_id) = ok client_id

-- The first stream names the client.
unfoldable pub read_client_id : LengthPrefixCodec → Stream → Result TransportError Text
unfolding read_frame from_utf8
read_client_id codec s = read_frame codec s >>= λ id_buf. utf8_of (from_utf8 id_buf)

-- What a stream adds to the messages: an error only skips it.
abbrev pub add_message : Result TransportError Bytes → List Bytes → List Bytes
add_message (ok payload) rest = payload ∷ rest
add_message (err e) rest = rest

-- The loop of `handle_connection`: the payloads that `on_message` is called with.
unfoldable pub messages : LengthPrefixCodec → List Stream → List Bytes
unfolding read_frame
messages codec [] = []
messages codec (s ∷ streams) = add_message (read_frame codec s) (messages codec streams)
