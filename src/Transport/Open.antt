-- ===== src/Transport/Open.antt =====
-- The registry of crates/transport/src/server.rs against the connections that are open.
use publisher.Base.{
  suc, ite, ◌≤◌, ◌≡◌, refl, ap, ◌&&◌, Bool, true, false, inl, inr, some, List, [], ◌∷◌, arith,
}
use publisher.Base.Tests.{◌==◌, if◌then◌else◌, Option-cases}
use publisher.Base.Lists.{length, contains, length-le}
use publisher.Base.Maps.{
  get, insert, keys, contains-keys, get-insert, get-remove, IsMap, insert-IsMap, remove-IsMap,
}
use publisher.Spec.Primitives.{Text, text_discrete}
use publisher.Transport.Connections.{
  StableId, ConnectionRegistry, connect, disconnect, Event, connected, disconnected, step, run,
  connection_count,
}

-- Is the connection of a client among the open ones?
abbrev is_open : Text → StableId → ConnectionRegistry → Bool
is_open client_id conn [] = false
is_open client_id conn ((id, c) ∷ opened) =
    if ite (text_discrete id client_id) true false && c == conn
    then true
    else is_open client_id conn opened

-- The list without one such connection.
abbrev pub closed : Text → StableId → ConnectionRegistry → ConnectionRegistry
closed client_id conn [] = []
closed client_id conn ((id, c) ∷ opened) =
    if ite (text_discrete id client_id) true false && c == conn
    then opened
    else (id, c) ∷ closed client_id conn opened

-- The connections that have begun and not ended.
abbrev open_after : ConnectionRegistry → List Event → ConnectionRegistry
open_after opened [] = opened
open_after opened (connected client_id conn ∷ es) = open_after ((client_id, conn) ∷ opened) es
open_after opened (disconnected client_id conn ∷ es) = open_after (closed client_id conn opened) es

abbrev IsLive : ConnectionRegistry → ConnectionRegistry → Type 0
IsLive reg opened =
    (client_id : Text) (conn : StableId)
    → get text_discrete client_id reg ≡ some conn
    → is_open client_id conn opened ≡ true

is_open-closed :
    (id client_id : Text) (c conn : StableId) (opened : ConnectionRegistry)
    → is_open id c opened ≡ true
    → ((id ≡ client_id) → (c ≡ conn) → ⊥)
    → is_open id c (closed client_id conn opened) ≡ true
is_open-closed id client_id c conn [] h n = h
is_open-closed id client_id c conn ((j, d) ∷ opened) h n =
    ground (arith, is_open-closed id client_id c conn opened)

connect-IsLive :
    (reg opened : ConnectionRegistry) (client_id : Text) (conn : StableId)
    → IsLive reg opened
    → IsLive (connect reg client_id conn).0 ((client_id, conn) ∷ opened)
unfolding connect
connect-IsLive reg opened client_id conn v id c e =
    ground (arith, v id c, get-insert text_discrete client_id id conn reg)

-- What the end of a connection leaves is not that connection.
disconnect-get :
    (reg : ConnectionRegistry) (client_id id : Text) (conn c : StableId)
    → get text_discrete id (disconnect reg client_id conn) ≡ some c
    → (get text_discrete id reg ≡ some c) × ((id ≡ client_id) → (c ≡ conn) → ⊥)
unfolding disconnect
disconnect-get reg client_id id conn c e = (
  ground (arith, get-remove text_discrete client_id id reg),
  λ same_id same_conn. ground (arith, get-remove text_discrete client_id id reg),
)

disconnect-IsLive :
    (reg opened : ConnectionRegistry) (client_id : Text) (conn : StableId)
    → IsLive reg opened
    → IsLive (disconnect reg client_id conn) (closed client_id conn opened)
disconnect-IsLive reg opened client_id conn v id c e =
    let (stored, elsewhere) = disconnect-get reg client_id id conn c e in
    is_open-closed id client_id c conn opened (v id c stored) elsewhere

run-IsLive :
    (reg opened : ConnectionRegistry) (es : List Event)
    → IsLive reg opened
    → IsLive (run reg es) (open_after opened es)
unfolding run step
run-IsLive reg opened [] v = v
run-IsLive reg opened (connected client_id conn ∷ es) v =
    run-IsLive (connect reg client_id conn).0 ((client_id, conn) ∷ opened) es
      (connect-IsLive reg opened client_id conn v)
run-IsLive reg opened (disconnected client_id conn ∷ es) v =
    run-IsLive (disconnect reg client_id conn) (closed client_id conn opened) es
      (disconnect-IsLive reg opened client_id conn v)

disconnect-IsMap :
    (reg : ConnectionRegistry) (client_id : Text) (conn : StableId)
    → IsMap text_discrete reg
    → IsMap text_discrete (disconnect reg client_id conn)
unfolding disconnect
disconnect-IsMap reg client_id conn v = ground (arith, remove-IsMap text_discrete client_id reg v)

length-keys : (m : ConnectionRegistry) → length (keys m) ≡ length m
length-keys [] = refl
length-keys (e ∷ m) = ap suc (length-keys m)

is_open-contains :
    (id : Text) (c : StableId) (opened : ConnectionRegistry)
    → is_open id c opened ≡ true
    → contains text_discrete (keys opened) id ≡ true
unfolding contains
is_open-contains id c [] h = cc
is_open-contains id c ((j, d) ∷ opened) h = ground (arith, is_open-contains id c opened)

-- Every name in the registry is that of an open connection.
names_open :
    (reg opened : ConnectionRegistry) (id : Text)
    → IsLive reg opened
    → contains text_discrete (keys reg) id ≡ true
    → contains text_discrete (keys opened) id ≡ true
names_open reg opened id v h = elim (Option-cases (get text_discrete id reg)) [
  | inl absent ↦ absurd (ground (arith, contains-keys text_discrete id reg))
  | inr (c, found) ↦ is_open-contains id c opened (v id c found)
]

count_open :
    (reg opened : ConnectionRegistry)
    → IsLive reg opened
    → IsMap text_discrete reg
    → connection_count reg ≤ length opened
unfolding connection_count
count_open reg opened v d = omega (
  arith,
  length-keys reg,
  length-keys opened,
  length-le text_discrete (keys reg) (keys opened) d (λ id h. names_open reg opened id v h),
)

run-IsMap :
    (reg : ConnectionRegistry) (es : List Event)
    → IsMap text_discrete reg
    → IsMap text_discrete (run reg es)
unfolding run step connect disconnect
run-IsMap reg [] v = v
run-IsMap reg (connected client_id conn ∷ es) v =
    run-IsMap (insert text_discrete client_id conn reg) es
      (insert-IsMap text_discrete client_id conn reg v)
run-IsMap reg (disconnected client_id conn ∷ es) v =
    run-IsMap (disconnect reg client_id conn) es (disconnect-IsMap reg client_id conn v)

-- Whatever connections begin and end and however their names repeat, the entry of a client in the
-- registry is an open connection of its, a client has at most one entry, and there are no more
-- entries than open connections.
registry-IsLive :
    (es : List Event)
    → IsLive (run [] es) (open_after [] es)
      × IsMap text_discrete (run [] es)
      × (connection_count (run [] es) ≤ length (open_after [] es))
unfolding get
registry-IsLive es =
    let live : IsLive (run [] es) (open_after [] es) = run-IsLive [] [] es (λ id c h. cc) in
    let single : IsMap text_discrete (run [] es) = run-IsMap [] es tt in
    (live, single, count_open (run [] es) (open_after [] es) live single)
