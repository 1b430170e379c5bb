-- ===== src/Tests/Network.antt =====
-- Runs of crates/transport, of crates/config and of `parse_chain_id`.
use publisher.Base.{◌≡◌, ◌↔◌, refl, none, some, [], ◌∷◌, arith}
use publisher.Base.Words.{to_be_bytes}
use publisher.Base.Results.{ok}
use publisher.Spec.Primitives.{Bytes, codes}
use publisher.Transport.Framing.{default_codec}
use publisher.Transport.Reading.{Stream, Connection, read_frame}
use publisher.Transport.Reading.Frames.{IsFrameOf, read_frame_iff}
use publisher.Transport.Session.{
  inserted, on_connect, on_message, removed, on_disconnect, handle_connection, done, frame,
  handle_connection_delivers,
}
use publisher.Config
use publisher.Config.{Config, Outside, default_config, load}
use publisher.Config.Loading.{IsValid, load-IsValid, load-load}
use publisher.Coordinator.ChainIds.{parse_chain_id, is_ascii_digit}
use publisher.Coordinator.ChainIds.Decimal.{parse_chain_id_lem}

abbrev framed : Stream
framed = record { bytes = 0 ∷ 0 ∷ 0 ∷ 2 ∷ 7 ∷ 9 ∷ []; ending = [] }

-- A header without the bytes that it promises.
abbrev cut : Stream
cut = record { bytes = 0 ∷ 0 ∷ 0 ∷ 2 ∷ 7 ∷ []; ending = [] }

abbrev payload : Bytes
payload = 7 ∷ 9 ∷ []

read_frame_iff_example :
    (read_frame default_codec framed ≡ ok payload) ↔ IsFrameOf default_codec payload framed.bytes
read_frame_iff_example =
    read_frame_iff default_codec framed payload (omega arith)
      (omega arith, (omega arith, (omega arith, (omega arith, (omega arith, (omega arith, tt))))))

abbrev name : Stream
name = record { bytes = 0 ∷ 0 ∷ 0 ∷ 1 ∷ b'5' ∷ []; ending = [] }

abbrev pub session : Connection
session = record { streams = name ∷ framed ∷ []; closing = [] }

framed-IsFrameOf : IsFrameOf default_codec payload framed.bytes
unfolding to_be_bytes
framed-IsFrameOf = (omega arith, ([], refl))

name-IsFrameOf : IsFrameOf default_codec (b'5' ∷ []) name.bytes
unfolding to_be_bytes
name-IsFrameOf = (omega arith, ([], refl))

handle_connection_delivers_example :
    handle_connection default_codec 3 session
    ≡ ok (
        inserted (b'5' ∷ []) 3
        ∷ on_connect (b'5' ∷ [])
        ∷ on_message (b'5' ∷ []) payload
        ∷ removed (b'5' ∷ []) 3
        ∷ on_disconnect (b'5' ∷ [])
        ∷ [])
handle_connection_delivers_example =
    handle_connection_delivers default_codec 3 session name (framed ∷ []) (b'5' ∷ []) (payload ∷ [])
      (omega arith) refl (omega arith, tt) name-IsFrameOf
      (
        (
          omega arith,
          (omega arith, (omega arith, (omega arith, (omega arith, (omega arith, tt))))),
        ),
        tt,
      )
      (frame framed-IsFrameOf done)

-- No variable is set, and the YAML is that of the configuration that the defaults load to.
abbrev pub loaded_default : Config
loaded_default = record default_config {
  server = record Config.default_server { listen_addr = codes "0.0.0.0:8080" };
  api = record Config.default_api { listen_addr = codes "0.0.0.0:8081" };
}

abbrev pub bare : Outside
bare = record { var = λ key. none; parse_duration = λ t. none; from_str = λ t. ok loaded_default }

defaults_load : load bare none ≡ ok loaded_default
unfolding load
defaults_load = refl

load-IsValid_example : IsValid loaded_default
load-IsValid_example = load-IsValid bare none loaded_default defaults_load

load-load_example : load bare (some (ok [])) ≡ ok loaded_default
load-load_example = load-load bare none loaded_default [] defaults_load refl

parse_chain_id_lem_example : parse_chain_id (codes "12-a") ≡ ok 12
unfolding is_ascii_digit
parse_chain_id_lem_example = parse_chain_id_lem (codes "12") (codes "-a") (refl, (refl, tt)) refl
