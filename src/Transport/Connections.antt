-- ===== src/Transport/Connections.antt =====
-- crates/transport/src/server.rs: the registry of connections, which `handle_connection` changes when
-- a client has named itself and when its connection ends. A connection is known by its stable id.
use publisher.Base.{
  ℕ, ite, ◌≡◌, ◌≢◌, ◌⊎◌, refl, sym, ap, ◌∙◌, Option, none, some, List, [], ◌∷◌, map, arith,
}
use publisher.Base.Tests.{◌==◌, if◌then◌else◌}
use publisher.Base.Lists.{length, All}
use publisher.Base.Maps.{get, insert, remove, get-insert, get-remove}
use publisher.Base.Results.{Result, ok, err}
use publisher.Spec.Primitives.{Bytes, Text, text_discrete}
use publisher.Transport.Framing.{TransportError, client_not_found, LengthPrefixCodec, encode}

abbrev pub StableId : Type 0
StableId = ℕ

abbrev pub ConnectionRegistry : Type 0
ConnectionRegistry = List (Text × StableId)

-- The registry after the insertion, and the connection that is closed as replaced.
unfoldable pub connect : ConnectionRegistry → Text → StableId → ConnectionRegistry × Option StableId
connect reg client_id conn =
    (insert text_discrete client_id conn reg, get text_discrete client_id reg)

unfoldable pub disconnect : ConnectionRegistry → Text → StableId → ConnectionRegistry
disconnect reg client_id conn = elim (get text_discrete client_id reg) [
  | none ↦ reg
  | some stored ↦ if stored == conn then remove text_discrete client_id reg else reg
]

-- The connection and the frame that `send_raw` writes to it.
-- `send_frame`, once a stream of the connection is open.
unfoldable pub send_frame :
    StableId → Result TransportError Bytes → Result TransportError (StableId × Bytes)
send_frame conn (ok frame) = ok (conn, frame)
send_frame conn (err e) = err e

unfoldable pub send_to :
    LengthPrefixCodec → Option StableId → Text → Bytes → Result TransportError (StableId × Bytes)
unfolding send_frame encode
send_to codec none client_id payload = err (client_not_found client_id)
send_to codec (some conn) client_id payload = send_frame conn (encode codec payload)

unfoldable pub send_raw :
    LengthPrefixCodec → ConnectionRegistry → Text → Bytes → Result TransportError (StableId × Bytes)
unfolding send_to
send_raw codec reg client_id payload =
    send_to codec (get text_discrete client_id reg) client_id payload

-- The connections that `broadcast_raw` collects.
unfoldable pub recipients : ConnectionRegistry → Text → ConnectionRegistry
recipients [] exclude = []
recipients ((id, conn) ∷ reg) exclude =
    let others = recipients reg exclude in
    ite (text_discrete id exclude) others ((id, conn) ∷ others)

-- What each is sent; a failure is only logged.
unfoldable pub broadcast_raw :
    LengthPrefixCodec
    → ConnectionRegistry
    → Bytes
    → Text
    → List (Text × Result TransportError (StableId × Bytes))
unfolding recipients send_frame encode
broadcast_raw codec reg payload exclude =
    map (λ e. (e.0, send_frame e.1 (encode codec payload))) (recipients reg exclude)

unfoldable pub connection_count : ConnectionRegistry → ℕ
connection_count reg = length reg

pub data Event : Type 0 where
  connected : Text → StableId → Event
  disconnected : Text → StableId → Event

unfoldable pub step : ConnectionRegistry → Event → ConnectionRegistry
unfolding connect disconnect
step reg (connected client_id conn) = (connect reg client_id conn).0
step reg (disconnected client_id conn) = disconnect reg client_id conn

unfoldable pub run : ConnectionRegistry → List Event → ConnectionRegistry
unfolding step
run reg [] = reg
run reg (e ∷ es) = run (step reg e) es

-- An event that neither replaces nor ends the client's connection.
abbrev IsElsewhere : Text → StableId → Event → Type 0
IsElsewhere client_id conn (connected other c) = other ≢ client_id
IsElsewhere client_id conn (disconnected other c) = (other ≢ client_id) ⊎ (c ≢ conn)

pub step-keeps :
    (reg : ConnectionRegistry) (client_id : Text) (conn : StableId) (e : Event)
    → get text_discrete client_id reg ≡ some conn
    → IsElsewhere client_id conn e
    → get text_discrete client_id (step reg e) ≡ some conn
unfolding step
step-keeps reg client_id conn (connected other c) h n =
    ground (arith, get-insert text_discrete other client_id c reg)
step-keeps reg client_id conn (disconnected other c) h n =
    ground (arith, get-remove text_discrete other client_id reg)

run-keeps :
    (reg : ConnectionRegistry) (client_id : Text) (conn : StableId) (es : List Event)
    → get text_discrete client_id reg ≡ some conn
    → All (IsElsewhere client_id conn) es
    → get text_discrete client_id (run reg es) ≡ some conn
unfolding run
run-keeps reg client_id conn [] h a = h
run-keeps reg client_id conn (e ∷ es) h a =
    run-keeps (step reg e) client_id conn es (step-keeps reg client_id conn e h a.0) a.1

pub send_raw_found :
    (codec : LengthPrefixCodec) (reg : ConnectionRegistry) (client_id : Text) (conn : StableId)
    (payload frame : Bytes)
    → get text_discrete client_id reg ≡ some conn
    → encode codec payload ≡ ok frame
    → send_raw codec reg client_id payload ≡ ok (conn, frame)
unfolding send_raw
send_raw_found codec reg client_id conn payload frame found h =
    ap (λ o. send_to codec o client_id payload) found ∙ ap (send_frame conn) h

-- Once a client has connected it is sent to over that connection, whatever ends before or after,
-- until it connects anew or that connection ends: the end of a replaced one changes nothing.
connected_reachable :
    (reg : ConnectionRegistry) (codec : LengthPrefixCodec) (client_id : Text) (conn : StableId)
    (es : List Event) (payload frame : Bytes)
    → All (IsElsewhere client_id conn) es
    → encode codec payload ≡ ok frame
    → send_raw codec (run reg (connected client_id conn ∷ es)) client_id payload ≡ ok (conn, frame)
unfolding run step connect
connected_reachable reg codec client_id conn es payload frame a h =
    let first : get text_discrete client_id (insert text_discrete client_id conn reg) ≡ some conn =
      ground (arith, get-insert text_discrete client_id client_id conn reg) in
    let kept = run-keeps (insert text_discrete client_id conn reg) client_id conn es first a in
    send_raw_found codec (run (insert text_discrete client_id conn reg) es) client_id conn payload
      frame kept h

get-recipients :
    (reg : ConnectionRegistry) (exclude client_id : Text)
    → client_id ≢ exclude
    → get text_discrete client_id (recipients reg exclude) ≡ get text_discrete client_id reg
unfolding recipients get
get-recipients [] exclude client_id n = refl
get-recipients ((id, conn) ∷ reg) exclude client_id n =
    ground (arith, get-recipients reg exclude client_id n)

get-recipients_excluded :
    (reg : ConnectionRegistry) (exclude : Text)
    → get text_discrete exclude (recipients reg exclude) ≡ none
unfolding recipients get
get-recipients_excluded [] exclude = refl
get-recipients_excluded ((id, conn) ∷ reg) exclude =
    ground (arith, get-recipients_excluded reg exclude)

-- What a broadcast holds for a connection.
abbrev sent_to :
    LengthPrefixCodec
    → Bytes
    → ConnectionRegistry
    → List (Text × Result TransportError (StableId × Bytes))
sent_to codec payload m = map (λ e. (e.0, send_frame e.1 (encode codec payload))) m

get-sent_to :
    (codec : LengthPrefixCodec) (m : ConnectionRegistry) (payload : Bytes) (client_id : Text)
    (conn : StableId)
    → get text_discrete client_id m ≡ some conn
    → get text_discrete client_id (sent_to codec payload m)
      ≡ some (send_frame conn (encode codec payload))
unfolding get
get-sent_to codec [] payload client_id conn h = cc
get-sent_to codec ((id, c) ∷ m) payload client_id conn h =
    ground (arith, get-sent_to codec m payload client_id conn)

get-sent_to-none :
    (codec : LengthPrefixCodec) (m : ConnectionRegistry) (payload : Bytes) (client_id : Text)
    → get text_discrete client_id m ≡ none
    → get text_discrete client_id (sent_to codec payload m) ≡ none
unfolding get
get-sent_to-none codec [] payload client_id h = refl
get-sent_to-none codec ((id, c) ∷ m) payload client_id h =
    ground (arith, get-sent_to-none codec m payload client_id)

-- A broadcast sends to every connected client but the one left out what `send_raw` would send to it,
-- and to the one left out nothing.
broadcast_raw-send_raw :
    (codec : LengthPrefixCodec) (reg : ConnectionRegistry) (payload : Bytes)
    (exclude client_id : Text) (conn : StableId)
    → client_id ≢ exclude
    → get text_discrete client_id reg ≡ some conn
    → (get text_discrete client_id (broadcast_raw codec reg payload exclude)
        ≡ some (send_raw codec reg client_id payload))
      × (get text_discrete exclude (broadcast_raw codec reg payload exclude) ≡ none)
unfolding broadcast_raw send_raw
broadcast_raw-send_raw codec reg payload exclude client_id conn n h = (
  get-sent_to codec (recipients reg exclude) payload client_id conn
        (get-recipients reg exclude client_id n ∙ h)
      ∙ sym (ap (λ o. some (send_to codec o client_id payload)) h),
  get-sent_to-none codec (recipients reg exclude) payload exclude
      (get-recipients_excluded reg exclude),
)
