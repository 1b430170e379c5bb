-- ===== src/Transport/Framing.antt =====
-- crates/transport/src/framing.rs: `[4-byte big-endian length][payload]`.
use publisher.Base.{ℕ, ◌*◌, ◌%◌, ◌≤◌, ◌<◌, ◌≡◌, ◌⊎◌, inl, inr, refl, ap, ◌∙◌, ◌++◌, arith}
use publisher.Base.Tests.{ltb, ltb→lt, ltb→le, if◌then◌else◌, Bool-cases}
use publisher.Base.Lists.{length}
use publisher.Base.Words.{
  u32_mod, to_be_bytes, from_be_bytes, length-to_be_bytes, from_be_bytes-to_be_bytes,
}
use publisher.Base.Results.{Result, ok, err}
use publisher.Spec.Primitives.{Bytes, Text}

-- `quic`, `tls` and `io` hold the text of another crate's error.
pub data TransportError : Type 0 where
  tls : Text → TransportError
  io : Text → TransportError
  quic : Text → TransportError
  other : Text → TransportError
  message_too_large : ℕ → ℕ → TransportError
  client_not_found : Text → TransportError

pub record LengthPrefixCodec : Type 0 where
  pub max_message_size : ℕ

abbrev pub default_codec : LengthPrefixCodec
default_codec = record { max_message_size = 4 * 1024 * 1024 }

-- `put_u32(payload.len() as u32)`, then the payload.
unfoldable pub encode : LengthPrefixCodec → Bytes → Result TransportError Bytes
unfolding to_be_bytes
encode codec payload =
    if ltb codec.max_message_size (length payload)
    then err (message_too_large (length payload) codec.max_message_size)
    else ok (to_be_bytes 4 (length payload % u32_mod) ++ payload)

-- `header` has four bytes, and `usize` holds a `u32`.
unfoldable pub decode_length : LengthPrefixCodec → Bytes → Result TransportError ℕ
unfolding from_be_bytes
decode_length codec header =
    let len = from_be_bytes header in
    if ltb codec.max_message_size len
    then err (message_too_large len codec.max_message_size)
    else ok len

-- Under a limit that `u32` holds, a payload is framed exactly if it is within the limit, and then
-- the frame is a header of four bytes that decodes to the payload's length, and the payload.
decode_length-encode :
    (codec : LengthPrefixCodec) (payload : Bytes)
    → codec.max_message_size < u32_mod
    → ((length payload ≤ codec.max_message_size)
        × ((header : Bytes) × ((encode codec payload ≡ ok (header ++ payload))
              × (length header ≡ 4)
              × (decode_length codec header ≡ ok (length payload)))))
      ⊎ ((codec.max_message_size < length payload)
          × (encode codec payload
              ≡ err (message_too_large (length payload) codec.max_message_size)))
unfolding encode decode_length
decode_length-encode codec payload small =
    elim (Bool-cases (ltb codec.max_message_size (length payload))) [
      | inl large ↦ inr (ltb→lt codec.max_message_size (length payload) large, rw large refl)
      | inr fits ↦
          let n = length payload in
          let within : n ≤ codec.max_message_size = ltb→le codec.max_message_size n fits in
          let whole : n % u32_mod ≡ n = omega arith in
          let read : from_be_bytes (to_be_bytes 4 (n % u32_mod)) ≡ n =
            ap (λ m. from_be_bytes (to_be_bytes 4 m)) whole
            ∙ from_be_bytes-to_be_bytes 4 n (omega arith) in
          inl (
            within,
            (
              to_be_bytes 4 (n % u32_mod),
              (rw fits refl, length-to_be_bytes 4 (n % u32_mod), rw read (rw fits refl)),
            ),
          )
    ]
