-- ===== src/Proto/Messages.antt =====
-- crates/spec-proto/src/messages.rs: the messages, and the envelope with its payload. The encoding
-- is prost's. A field that the source calls `data` is `parts` here; an `i64` is its bit pattern.
use publisher.Base.{ℕ, Bool, Option, List}
use publisher.Spec.Primitives.{Bytes, Text}

pub record HandshakeRequest : Type 0 where
  pub timestamp : ℕ
  pub public_key : Bytes
  pub signature : Bytes
  pub client_id : Text
  pub nonce : Bytes

pub record HandshakeResponse : Type 0 where
  pub accepted : Bool
  pub error : Text
  pub session_id : Text

pub record Ping : Type 0 where
  pub timestamp : ℕ

pub record Pong : Type 0 where
  pub timestamp : ℕ

pub record TransactionRequest : Type 0 where
  pub chain_id : ℕ
  pub transaction : List Bytes

pub record XtRequest : Type 0 where
  pub transaction_requests : List TransactionRequest

pub record StartInstance : Type 0 where
  pub instance_id : Bytes
  pub period_id : ℕ
  pub sequence_number : ℕ
  pub xt_request : Option XtRequest

pub record Vote : Type 0 where
  pub instance_id : Bytes
  pub chain_id : ℕ
  pub vote : Bool

pub record Decided : Type 0 where
  pub instance_id : Bytes
  pub decision : Bool

pub record MailboxMessage : Type 0 where
  pub session_id : ℕ
  pub instance_id : Bytes
  pub source_chain : ℕ
  pub destination_chain : ℕ
  pub source : Bytes
  pub receiver : Bytes
  pub label : Text
  pub parts : List Bytes

pub record StartPeriod : Type 0 where
  pub period_id : ℕ
  pub superblock_number : ℕ

pub record Rollback : Type 0 where
  pub period_id : ℕ
  pub last_finalized_superblock_number : ℕ
  pub last_finalized_superblock_hash : Bytes

pub record Proof : Type 0 where
  pub period_id : ℕ
  pub superblock_number : ℕ
  pub proof_data : Bytes

pub record NativeDecided : Type 0 where
  pub instance_id : Bytes
  pub decision : Bool

pub record WsDecided : Type 0 where
  pub instance_id : Bytes
  pub decision : Bool

pub data Payload : Type 0 where
  handshake_request : HandshakeRequest → Payload
  handshake_response : HandshakeResponse → Payload
  ping : Ping → Payload
  pong : Pong → Payload
  xt_request : XtRequest → Payload
  start_instance : StartInstance → Payload
  vote : Vote → Payload
  decided : Decided → Payload
  mailbox_message : MailboxMessage → Payload
  start_period : StartPeriod → Payload
  rollback : Rollback → Payload
  proof : Proof → Payload
  native_decided : NativeDecided → Payload
  ws_decided : WsDecided → Payload

pub record Message : Type 0 where
  pub sender_id : Text
  pub payload : Option Payload
