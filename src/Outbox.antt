-- ===== src/Outbox.antt =====
-- src/outbox-engine.ts: what the engine is configured with, its state, and what it puts on the wire.
-- The clock, the lease tokens, the network and the other tabs are arguments of the operations.
pub mod Resolve
pub mod Attempt
pub mod Repair
pub mod Flush
use privchat_sdk_typescript.Prelude.{
  ℕ, ◌+◌, ◌*◌, ◌^◌, ◌/◌, min, Text, Option, none, some, Bool, true, false, List, [], ◌∷◌, or_else,
  Result, codes,
}
use privchat_sdk_typescript.Codes.{content_type_to_wire_tag}
use privchat_sdk_typescript.Cache.{MessageRecord, OutboxEntry}
use privchat_sdk_typescript.Cache.Database.{CacheDb, CacheError}
use privchat_sdk_typescript.Cache.OutboxTable.{Outbox}

-- `none` leaves a setting at its default.
pub record OutboxEngineConfig : Type 0 where
  pub initial_delay_ms : Option ℕ
  pub max_delay_ms : Option ℕ
  pub max_attempts : Option ℕ
  pub lease_ms : Option ℕ
  pub send_timeout_ms : Option ℕ
  pub max_repair_attempts : Option ℕ

pub record Settings : Type 0 where
  pub initial_delay_ms : ℕ
  pub max_delay_ms : ℕ
  pub max_attempts : ℕ
  pub lease_ms : ℕ
  pub send_timeout_ms : ℕ
  pub max_repair_attempts : ℕ

-- The constructor's settings: the timeout of a send is cut to half of the lease.
unfoldable pub configure : OutboxEngineConfig → Settings
configure config =
    let lease_ms = or_else config.lease_ms 60000 in
    record {
      initial_delay_ms = or_else config.initial_delay_ms 1000;
      max_delay_ms = or_else config.max_delay_ms 30000;
      max_attempts = or_else config.max_attempts 8;
      lease_ms = lease_ms;
      send_timeout_ms = min (or_else config.send_timeout_ms 30000) (lease_ms / 2);
      max_repair_attempts = or_else config.max_repair_attempts 3;
    }

abbrev pub frozen_next_attempt_at : ℕ
frozen_next_attempt_at = 9007199254740991

-- The delay before the next try, where `failures` tries have failed before this one.
unfoldable pub backoff : Settings → ℕ → ℕ
backoff settings failures = min (settings.initial_delay_ms * 2 ^ failures) settings.max_delay_ms

pub record SendMessageRequest : Type 0 where
  pub need_receipt : Bool
  pub signal : ℕ
  pub client_seq : ℕ
  pub local_message_id : Text
  pub stream_no : Text
  pub channel_id : Text
  pub message_type : ℕ
  pub expire : ℕ
  pub from_uid : Text
  pub topic : Text
  pub payload : List ℕ

pub record SendMessageResponse : Type 0 where
  pub client_seq : ℕ
  pub server_message_id : Text
  pub message_seq : ℕ
  pub reason_code : ℕ

unfoldable pub build_request : OutboxEntry → SendMessageRequest
build_request entry = record {
  need_receipt = false;
  signal = 0;
  client_seq = 0;
  local_message_id = entry.local_message_id;
  stream_no = [];
  channel_id = entry.channel_id;
  message_type = content_type_to_wire_tag entry.content_type;
  expire = 0;
  from_uid = entry.from_uid;
  topic = [];
  payload = entry.payload;
}

pub data EventStatus : Type 0 where
  pending sending sent failed discarded ack_pending integrity_error local_data_error : EventStatus

pub record OutboxStateChangedEvent : Type 0 where
  pub outbox_id : Text
  pub local_message_id : Text
  pub channel_id : Text
  pub channel_type : ℕ
  pub status : EventStatus
  pub server_message_id : Option Text
  pub last_error : Option Text

pub record Counters : Type 0 where
  pub attempted : ℕ
  pub sent : ℕ
  pub failed : ℕ
  pub skipped : ℕ

-- What the engine asks of the message store in memory, whose state is an `S`, and of code that is not
-- the repository's: the platform's UTF-8 decoder, the envelope decoder (an error is what it throws)
-- and the text of an error.
pub record OutboxEngineDeps (S : Type 0) : Type 0 where
  pub get_messages : S → Text → List MessageRecord
  pub replace_message : S → Text → Text → MessageRecord → S
  pub decode_utf8 : List ℕ → Text
  pub decode_message_payload_envelope : List ℕ → Result Text (Option Text)
  pub describe : CacheError → Text

-- The database, the memory, the events published and the requests sent so far, the newest first, and
-- the counters of the running flush.
pub record World (S : Type 0) : Type 0 where
  pub cache : CacheDb
  pub outbox : Outbox
  pub memory : S
  pub events : List OutboxStateChangedEvent
  pub wire : List SendMessageRequest
  pub counters : Counters

abbrev pub event : OutboxEntry → EventStatus → Option Text → Option Text → OutboxStateChangedEvent
event entry status server_message_id last_error = record {
  outbox_id = entry.outbox_id;
  local_message_id = entry.local_message_id;
  channel_id = entry.channel_id;
  channel_type = entry.channel_type;
  status = status;
  server_message_id = server_message_id;
  last_error = last_error;
}

abbrev pub emit : {S : Type 0} → World S → OutboxStateChangedEvent → World S
emit w e = record w { events = e ∷ w.events }

abbrev pub count_failed : {S : Type 0} → World S → World S
count_failed w = record w { counters = record w.counters { failed = w.counters.failed + 1 } }

abbrev pub count_sent : {S : Type 0} → World S → World S
count_sent w = record w { counters = record w.counters { sent = w.counters.sent + 1 } }

abbrev pub count_skipped : {S : Type 0} → World S → World S
count_skipped w = record w { counters = record w.counters { skipped = w.counters.skipped + 1 } }

abbrev pub count_attempted : {S : Type 0} → World S → World S
count_attempted w = record w {
  counters = record w.counters { attempted = w.counters.attempted + 1 };
}
