-- ===== src/Program/Tasks/Pairs.antt =====
-- A connection takes out of the registry what it has put in.
use publisher.Base.{ite, ◌≡◌, Bool, true, false, ◌&&◌, List, [], ◌∷◌, ◌++◌, map, arith}
use publisher.Base.Tests.{◌==◌}
use publisher.Base.Lists.{any}
use publisher.Base.Results.{Result, ok, err}
use publisher.Spec.Primitives.{Bytes, Text, text_discrete}
use publisher.Transport.Framing.{TransportError, LengthPrefixCodec}
use publisher.Transport.Connections.{StableId}
use publisher.Transport.Reading.{Stream, Connection, read_client_id, messages, ◌>>=◌}
use publisher.Transport.Session.{
  Action, inserted, on_message, removed, on_disconnect, handle_connection, named,
}
use publisher.Program.Tasks.Pool.{actions_of, session_of}

-- Does the action take this connection out of the registry?
unfoldable pub is_removal : Text → StableId → Action → Bool
is_removal client_id conn (removed id c) = ite (text_discrete id client_id) true false && c == conn
is_removal client_id conn other = false

unfoldable pub removes : Text → StableId → List Action → Bool
unfolding is_removal
removes client_id conn = any (is_removal client_id conn)

-- What is put into the registry is taken out later on.
abbrev pub IsPaired : List Action → Type 0
IsPaired [] = Unit
IsPaired (inserted client_id conn ∷ rest) = (removes client_id conn rest ≡ true) × IsPaired rest
IsPaired (other ∷ rest) = IsPaired rest

messages-IsPaired :
    (client_id : Text) (payloads : List Bytes) (rest : List Action)
    → IsPaired rest
    → IsPaired (map (on_message client_id) payloads ++ rest)
messages-IsPaired client_id [] rest h = h
messages-IsPaired client_id (p ∷ ps) rest h = messages-IsPaired client_id ps rest h

messages-removes :
    (client_id id : Text) (conn : StableId) (payloads : List Bytes) (rest : List Action)
    → removes id conn rest ≡ true
    → removes id conn (map (on_message client_id) payloads ++ rest) ≡ true
unfolding removes any is_removal
messages-removes client_id id conn [] rest h = h
messages-removes client_id id conn (p ∷ ps) rest h = messages-removes client_id id conn ps rest h

named-IsPaired :
    (codec : LengthPrefixCodec) (conn : StableId) (streams : List Stream) (client_id : Text)
    → IsPaired (named codec conn streams client_id)
unfolding removes any is_removal
named-IsPaired codec conn streams client_id = (
  messages-removes client_id client_id conn (messages codec streams)
      (removed client_id conn ∷ on_disconnect client_id ∷ []) (ground arith),
  messages-IsPaired client_id (messages codec streams)
      (removed client_id conn ∷ on_disconnect client_id ∷ []) tt,
)

bound-IsPaired :
    (codec : LengthPrefixCodec) (conn : StableId) (streams : List Stream)
    (r : Result TransportError Text)
    → IsPaired (actions_of (r >>= λ client_id. ok (named codec conn streams client_id)))
bound-IsPaired codec conn streams (ok client_id) = named-IsPaired codec conn streams client_id
bound-IsPaired codec conn streams (err e) = tt

pub session_of-IsPaired :
    (codec : LengthPrefixCodec) (conn : StableId) (incoming : Result Text Connection)
    → IsPaired (session_of codec conn incoming)
unfolding session_of handle_connection
session_of-IsPaired codec conn (err e) = tt
session_of-IsPaired codec conn (ok c) = by_streams c.streams
  where
    by_streams :
        (streams : List Stream)
        → IsPaired (session_of codec conn (ok (record c { streams = streams })))
    by_streams [] = tt
    by_streams (s ∷ streams) = bound-IsPaired codec conn streams (read_client_id codec s)
