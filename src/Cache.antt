-- ===== src/Cache.antt =====
-- src/cache/types.ts: the records of the cache. Identifiers are texts, times are milliseconds, a
-- payload is its bytes. The modules below model what the cache does with them.
pub mod Order
pub mod Merge
pub mod Inbound
pub mod Canonical
pub mod Push
pub mod OutboxTable
pub mod Database
use privchat_sdk_typescript.Prelude.{ℕ, Text, Option, Bool, List}

pub data TimePrecision : Type 0 where
  seconds milliseconds : TimePrecision

pub data MessageStatus : Type 0 where
  received pending sent failed : MessageStatus

pub record MessageRecord : Type 0 where
  pub id : Text
  pub channel_id : Text
  pub channel_type : ℕ
  pub server_message_id : Option Text
  pub local_message_id : Option Text
  pub pts : Option Text
  pub local_order_seq : Option ℕ
  pub from_uid : Text
  pub message_type : Text
  pub content : Text
  pub payload : List ℕ
  pub timestamp : ℕ
  pub timestamp_precision : Option TimePrecision
  pub status : MessageStatus
  pub revoked : Option Bool
  pub mime_type : Option Text

-- How one channel's confirmed rows are ordered.
pub data ChannelOrderMode : Type 0 where
  by_pts by_server_id : ChannelOrderMode

-- The life of an outgoing message. The last three mean that the server has the message.
pub data OutboxStatus : Type 0 where
  pending sending failed ack_pending integrity_error local_data_error : OutboxStatus

pub data PayloadEncoding : Type 0 where
  raw_utf8 message_envelope legacy_unknown : PayloadEncoding

pub data RepairKind : Type 0 where
  identity_conflict message_rehydrate : RepairKind

pub record OutboxEntry : Type 0 where
  pub outbox_id : Text
  pub message_id : Text
  pub channel_id : Text
  pub channel_type : ℕ
  pub local_message_id : Text
  pub from_uid : Text
  pub content_type : Text
  pub payload_encoding : Option PayloadEncoding
  pub payload : List ℕ
  pub created_at : ℕ
  pub updated_at : ℕ
  pub attempt_count : ℕ
  pub next_attempt_at : ℕ
  pub last_error : Option Text
  pub local_commit_failures : Option ℕ
  pub acked_server_message_id : Option Text
  pub acked_message_seq : Option ℕ
  pub lease_token : Option Text
  pub lease_until : Option ℕ
  pub repair_attempts : Option ℕ
  pub repair_kind : Option RepairKind
  pub conflicting_id : Option Text
  pub conflicting_channel_id : Option Text
  pub repair_lease_token : Option Text
  pub repair_lease_until : Option ℕ
  pub repair_next_attempt_at : Option ℕ
  pub status : OutboxStatus

pub record ChannelRecord : Type 0 where
  pub channel_id : Text
  pub channel_type : ℕ
  pub title : Option Text
  pub peer_user_id : Option Text
  pub latest_pts : Text
  pub read_pts : Text
  pub peer_read_pts : Option Text
  pub server_current_pts : Option Text
  pub unread_count : ℕ
  pub last_message_preview : Option Text
  pub last_message_type : Option Text
  pub last_message_pts : Option Text
  pub last_message_revoked : Option Bool
  pub pinned : Option Bool
  pub muted : Option Bool
  pub hidden : Option Bool
  pub updated_at : ℕ
  pub sync_version : ℕ

-- What an observer of a conversation is told has changed.
pub record ConversationPatch : Type 0 where
  pub channel_id : Text
  pub channel_type : ℕ
  pub upserted : List MessageRecord
  pub removed : List Text
  pub is_remote : Bool
