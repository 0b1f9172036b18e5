-- ===== src/Examples.antt =====
-- Concrete inputs for the properties: the data that the examples below share.
pub mod Messages
pub mod Rows
pub mod Profiles
pub mod Sends
pub mod Runs
pub mod Timelines
pub mod Pages
pub mod Rosters
pub mod Uploads
pub mod Sources
pub mod Displays
pub mod Refreshes
use privchat_sdk_typescript.Prelude.{ℕ, Text, Option, none, some, [], ◌∷◌, codes, true, false}
use privchat_sdk_typescript.Cache.{MessageRecord, OutboxEntry, pending, sent, received, raw_utf8}
use privchat_sdk_typescript.Cache.Database.{CacheDb}
use privchat_sdk_typescript.Cache.{by_pts}

abbrev pub alice : Text
alice = codes "100"

abbrev pub bob : Text
bob = codes "200"

abbrev pub room : Text
room = codes "7"

-- A message that the user has just written.
abbrev pub written : MessageRecord
written = record {
  id = codes "m-1";
  channel_id = room;
  channel_type = 1;
  server_message_id = none;
  local_message_id = some (codes "900");
  pts = none;
  local_order_seq = some 1;
  from_uid = alice;
  message_type = codes "text";
  content = codes "hi";
  payload = 104 ∷ 105 ∷ [];
  timestamp = 1700000000317;
  timestamp_precision = none;
  status = pending;
  revoked = none;
  mime_type = none;
}

-- The same message as the server acknowledges it.
abbrev pub acknowledged : MessageRecord
acknowledged = record written {
  server_message_id = some (codes "41");
  pts = some (codes "3");
  status = sent;
}

-- What another user sends.
abbrev pub incoming : MessageRecord
incoming = record written {
  id = codes "m-2";
  server_message_id = some (codes "42");
  local_message_id = none;
  pts = some (codes "4");
  local_order_seq = none;
  from_uid = bob;
  content = codes "yo";
  timestamp = 1700000001000;
  status = received;
}

abbrev pub empty_db : CacheDb
empty_db = record { messages = []; order_mode = λ c. by_pts; local_order_seq = 0 }

-- The send of `written`, not yet tried.
abbrev pub queued : OutboxEntry
queued = record {
  outbox_id = codes "o-1";
  message_id = codes "m-1";
  channel_id = room;
  channel_type = 1;
  local_message_id = codes "900";
  from_uid = alice;
  content_type = codes "text";
  payload_encoding = some raw_utf8;
  payload = 104 ∷ 105 ∷ [];
  created_at = 1000;
  updated_at = 1000;
  attempt_count = 0;
  next_attempt_at = 0;
  last_error = none;
  local_commit_failures = none;
  acked_server_message_id = none;
  acked_message_seq = none;
  lease_token = none;
  lease_until = none;
  repair_attempts = none;
  repair_kind = none;
  conflicting_id = none;
  conflicting_channel_id = none;
  repair_lease_token = none;
  repair_lease_until = none;
  repair_next_attempt_at = none;
  status = pending;
}
