-- ===== src/Transport/Starting.antt =====
-- crates/transport/src/tls.rs, socket.rs, and `start` and `close` of server.rs. What rcgen, rustls,
-- the operating system and quinn answer is a parameter.
use publisher.Base.{
  ℕ, ◌*◌, ◌≡◌, refl, ap, Bool, true, false, inl, inr, Option, none, some, List, [], ◌∷◌,
}
use publisher.Base.Results.{Result, ok, err, Result-cases}
use publisher.Spec.Primitives.{Bytes, Text, codes}
use publisher.Transport.Framing.{TransportError, tls, io, other, LengthPrefixCodec}
use publisher.Transport.Connections.{ConnectionRegistry}
use publisher.Transport.Reading.{◌>>=◌}

-- The calls in the order in which they are made; a domain is whether it is that of IPv6.
pub record Platform (Tls Quic SocketAddr Socket Endpoint : Type 0) : Type 0 where
  pub generate_simple_self_signed : List Text → Result Text (Bytes × Bytes)
  pub with_single_cert : List Bytes → Bytes → Result Text Tls
  pub with_alpn_protocols : List Bytes → Tls → Tls
  pub quic_config : Tls → Result Text Quic
  pub parse : Text → Result Text SocketAddr
  pub is_ipv6 : SocketAddr → Bool
  pub new_socket : Bool → Result Text Socket
  pub set_recv_buffer_size : ℕ → Socket → Result Text Socket
  pub set_send_buffer_size : ℕ → Socket → Result Text Socket
  pub bind : SocketAddr → Socket → Result Text Socket
  pub has_runtime : Bool
  pub new_endpoint : Quic → Socket → Result Text Endpoint

pub record QuicServer (Endpoint : Type 0) : Type 0 where
  pub listen_addr : Text
  pub codec : LengthPrefixCodec
  pub registry : ConnectionRegistry
  pub endpoint : Option Endpoint

-- A call of `Endpoint::close`.
pub record Closing (Endpoint : Type 0) : Type 0 where
  pub endpoint : Endpoint
  pub error_code : ℕ
  pub reason : Bytes

abbrev pub alpn_ethera_quic : Bytes
alpn_ethera_quic = codes "ethera-quic"

abbrev pub socket_buffer_size : ℕ
socket_buffer_size = 7 * 1024 * 1024

abbrev map_err {ℓ} :
    {A : Type ℓ} → (Text → TransportError) → Result Text A → Result TransportError A
map_err f (ok a) = ok a
map_err f (err e) = err (f e)

abbrev pub runtime_of : Bool → Result TransportError (Unit {0})
runtime_of true = ok tt
runtime_of false = err (other (codes "no async runtime available"))

-- A failure to set the size of a buffer is only logged.
abbrev tuned : {Socket : Type 0} → Socket → Result Text Socket → Socket
tuned socket (ok resized) = resized
tuned socket (err e) = socket

module _ {Endpoint : Type 0} where
  abbrev pub new : Text → ℕ → QuicServer Endpoint
  new listen_addr max_message_size = record {
    listen_addr = listen_addr;
    codec = record { max_message_size = max_message_size };
    registry = [];
    endpoint = none;
  }

  -- `OnceLock::set`; the accept loop is spawned on the endpoint that is returned.
  unfoldable pub set_once :
      QuicServer Endpoint
      → Endpoint
      → Option Endpoint
      → QuicServer Endpoint × Result TransportError Endpoint
  set_once s endpoint none = (record s { endpoint = some endpoint }, ok endpoint)
  set_once s endpoint (some old) = (s, err (other (codes "server already started")))

  unfoldable pub set_endpoint :
      QuicServer Endpoint
      → Result TransportError Endpoint
      → QuicServer Endpoint × Result TransportError Endpoint
  unfolding set_once
  set_endpoint s (ok endpoint) = set_once s endpoint s.endpoint
  set_endpoint s (err e) = (s, err e)

  abbrev pub closing : Endpoint → Closing Endpoint
  closing endpoint = record {
    endpoint = endpoint;
    error_code = 0;
    reason = codes "server shutting down";
  }

  abbrev pub closings : Option Endpoint → List (Closing Endpoint)
  closings none = []
  closings (some endpoint) = closing endpoint ∷ []

  unfoldable pub close : QuicServer Endpoint → List (Closing Endpoint)
  close s = closings s.endpoint

  abbrev pub looping : Option Endpoint → List Endpoint
  looping none = []
  looping (some endpoint) = endpoint ∷ []

  abbrev earlier : Result TransportError Endpoint → Option Endpoint → Option Endpoint
  earlier (ok endpoint) later = some endpoint
  earlier (err e) later = later

  abbrev opened : Result TransportError Endpoint → List Endpoint → List Endpoint
  opened (ok endpoint) later = endpoint ∷ later
  opened (err e) later = later

module _ {Tls Quic SocketAddr Socket Endpoint : Type 0} where
  unfoldable pub self_signed_server_config :
      Platform Tls Quic SocketAddr Socket Endpoint → Result TransportError Tls
  self_signed_server_config p = do
    (cert_der, key_der) ← map_err tls (p.generate_simple_self_signed (codes "localhost" ∷ []))
    config ← map_err tls (p.with_single_cert (cert_der ∷ []) key_der)
    ok (p.with_alpn_protocols (alpn_ethera_quic ∷ []) config)

  abbrev pub bound :
      Platform Tls Quic SocketAddr Socket Endpoint
      → SocketAddr
      → Result Text Socket
      → Result Text Socket
  bound p addr (ok socket) =
      let receiving = tuned socket (p.set_recv_buffer_size socket_buffer_size socket) in
      p.bind addr (tuned receiving (p.set_send_buffer_size socket_buffer_size receiving))
  bound p addr (err e) = err e

  unfoldable pub build_udp_socket :
      Platform Tls Quic SocketAddr Socket Endpoint → SocketAddr → Result Text Socket
  build_udp_socket p addr = bound p addr (p.new_socket (p.is_ipv6 addr))

  -- `start` up to the endpoint.
  unfoldable pub open_endpoint :
      Platform Tls Quic SocketAddr Socket Endpoint → Text → Result TransportError Endpoint
  unfolding self_signed_server_config build_udp_socket
  open_endpoint p listen_addr = do
    tls_config ← self_signed_server_config p
    quic_config ← map_err tls (p.quic_config tls_config)
    addr ← map_err other (p.parse listen_addr)
    socket ← map_err io (build_udp_socket p addr)
    runtime ← runtime_of p.has_runtime
    map_err io (p.new_endpoint quic_config socket)

  unfoldable pub start :
      Platform Tls Quic SocketAddr Socket Endpoint
      → QuicServer Endpoint
      → QuicServer Endpoint × Result TransportError Endpoint
  unfolding open_endpoint set_endpoint
  start p s = set_endpoint s (open_endpoint p s.listen_addr)

  -- Attempts to start, one after the other, and the endpoints that then have an accept loop.
  unfoldable pub start_all :
      QuicServer Endpoint
      → List (Platform Tls Quic SocketAddr Socket Endpoint)
      → QuicServer Endpoint × List Endpoint
  unfolding start
  start_all s [] = (s, [])
  start_all s (p ∷ ps) =
      let (s', result) = start p s in
      let (s'', loops) = start_all s' ps in (s'', opened result loops)

  -- The endpoint of the first attempt for which one can be opened.
  abbrev pub first_opened :
      Text → List (Platform Tls Quic SocketAddr Socket Endpoint) → Option Endpoint
  first_opened listen_addr [] = none
  first_opened listen_addr (p ∷ ps) =
      earlier (open_endpoint p listen_addr) (first_opened listen_addr ps)

  started_stays :
      (s : QuicServer Endpoint) (e : Endpoint)
      (ps : List (Platform Tls Quic SocketAddr Socket Endpoint))
      → start_all (record s { endpoint = some e }) ps ≡ (record s { endpoint = some e }, [])
  unfolding start_all start set_endpoint set_once
  started_stays s e [] = refl
  started_stays s e (p ∷ ps) = elim (Result-cases (open_endpoint p s.listen_addr)) [
    | inl (x, opens) ↦ rw opens (started_stays s e ps)
    | inr (x, fails) ↦ rw fails (started_stays s e ps)
  ]

  -- However often the server is started and whatever the host answers, the one accept loop is on
  -- the endpoint of the first attempt for which an endpoint can be opened, if there is one, and
  -- `close` closes that endpoint and no other.
  pub start_all-close :
      (listen_addr : Text) (max_message_size : ℕ)
      (ps : List (Platform Tls Quic SocketAddr Socket Endpoint))
      → let (s, loops) = start_all (new listen_addr max_message_size) ps in
        let first = first_opened listen_addr ps in
        (loops ≡ looping first) × (close s ≡ closings first)
  unfolding start_all start set_endpoint set_once close
  start_all-close listen_addr max_message_size [] = (refl, refl)
  start_all-close listen_addr max_message_size (p ∷ ps) =
      elim (Result-cases (open_endpoint p listen_addr)) [
        | inl (x, opens) ↦
            let stays = started_stays (new listen_addr max_message_size) x ps in
            rw opens (ap (λ r. x ∷ r.1) stays, ap (λ r. closings r.0.endpoint) stays)
        | inr (x, fails) ↦ rw fails (start_all-close listen_addr max_message_size ps)
      ]
