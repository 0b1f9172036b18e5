-- ===== src/Examples/Sends.antt =====
-- Examples for the outbox engine.
use mathlib.Core.List.{Perm}
use privchat_sdk_typescript.Prelude.{
  ◌+◌, ◌≡◌, ◌⊎◌, refl, ◌<◌, ◌≤◌, Text, none, some, true, false, not, ◌&&◌, [], ◌∷◌, ◌++◌, List,
  codes, arith, text_beq, keep, err, if◌then◌else◌,
}
use privchat_sdk_typescript.Table
use privchat_sdk_typescript.Cache.{MessageRecord, OutboxEntry, integrity_error}
use privchat_sdk_typescript.Cache.OutboxTable.{
  Outbox, claim_outbox_entry, get_outbox_entry, claimed_entry, apply_outbox_patch,
}
use privchat_sdk_typescript.Outbox.{
  OutboxEngineConfig, configure, OutboxEngineDeps, World, SendMessageResponse,
}
use privchat_sdk_typescript.Outbox.Attempt.{
  Circumstances, resolved, handle_transient, conclude_accepted, conclude, process_row,
  is_ack_pending,
}
use privchat_sdk_typescript.Outbox.Attempt.Fencing.{is_owner, conclude_fenced}
use privchat_sdk_typescript.Outbox.Attempt.Delivery.{
  Settled, conclude_accepted-Settled, conclude_never_resent,
}
use privchat_sdk_typescript.Outbox.Attempt.Wire.{sendable, process_row-wire}
use privchat_sdk_typescript.Outbox.Attempt.Retry.{
  send_timeout_within_lease, Rescheduled, handle_transient-Rescheduled,
}
use privchat_sdk_typescript.Outbox.Repair.{RepairCircumstances, repair_row}
use privchat_sdk_typescript.Outbox.Repair.Budget.{Repaired, repair_row-Repaired}
use privchat_sdk_typescript.Outbox.Flush.{group_by_channel}
use privchat_sdk_typescript.Outbox.Flush.Fifo.{
  group_by_channel-fifo, work_order, rows_of, of_channel,
}
use privchat_sdk_typescript.Examples.{queued, room, empty_db}
use privchat_sdk_typescript.Examples.Rows.{in_flight, delivered, claimed_ok}
use privchat_sdk_typescript.Client.{reset_outbox_entry, retry_patch, reset_outbox_entry-claimed}

abbrev defaults : OutboxEngineConfig
defaults = record {
  initial_delay_ms = none;
  max_delay_ms = none;
  max_attempts = none;
  lease_ms = none;
  send_timeout_ms = none;
  max_repair_attempts = none;
}

-- The memory is the list of the messages that it was given; no payload is an envelope.
abbrev list_memory : OutboxEngineDeps (List MessageRecord)
list_memory = record {
  get_messages = λ memory channel_id. memory;
  replace_message = λ memory channel_id replaced next. next ∷ memory;
  decode_utf8 = λ payload. payload;
  decode_message_payload_envelope = λ payload. err (codes "not an envelope");
  describe = λ e. codes "unique index";
}

abbrev world_of : Outbox → World (List MessageRecord)
world_of outbox = record {
  cache = empty_db;
  outbox = outbox;
  memory = [];
  events = [];
  wire = [];
  counters = record { attempted = 0; sent = 0; failed = 0; skipped = 0 };
}

abbrev taken : SendMessageResponse
taken = record { client_seq = 0; server_message_id = codes "41"; message_seq = 3; reason_code = 0 }

-- An attempt under a token, whose send is taken by the server.
abbrev attempt_of : Text → Circumstances (List MessageRecord)
attempt_of token = record {
  token = token;
  claims_at = 5000;
  concludes_at = 6000;
  authenticated = true;
  meanwhile = λ w. w;
  took = 200;
  outcome = resolved taken;
  fault = none;
  records = true;
  fresh_id = codes "m-9";
}

abbrev sending_world : World (List MessageRecord)
sending_world = world_of (in_flight ∷ [])

not-owner : is_owner sending_world.outbox queued.outbox_id (codes "tab-0") ≡ false
unfolding is_owner Table.get text_beq
not-owner = refl

owner : is_owner sending_world.outbox queued.outbox_id (codes "tab-1") ≡ true
unfolding is_owner Table.get text_beq
owner = refl

in_flight-found : get_outbox_entry sending_world.outbox in_flight.outbox_id ≡ some in_flight
unfolding Table.get text_beq
in_flight-found = refl

conclude_fenced_example :
    conclude list_memory
      (configure defaults)
      (attempt_of (codes "tab-0"))
      sending_world
      in_flight
      (resolved taken)
    ≡ sending_world
conclude_fenced_example =
    conclude_fenced list_memory (configure defaults) (attempt_of (codes "tab-0")) sending_world
      in_flight (resolved taken) not-owner

conclude_accepted-Settled_example :
    Settled
      (conclude_accepted list_memory
        (configure defaults)
        (attempt_of (codes "tab-1"))
        sending_world
        in_flight
        taken).outbox
      in_flight.outbox_id
      (codes "41")
      in_flight
    ⊎ (((attempt_of (codes "tab-1")).records ≡ false)
        × (conclude_accepted list_memory
              (configure defaults)
              (attempt_of (codes "tab-1"))
              sending_world
              in_flight
              taken
            ≡ sending_world))
conclude_accepted-Settled_example =
    conclude_accepted-Settled list_memory (configure defaults) (attempt_of (codes "tab-1"))
      sending_world in_flight in_flight taken in_flight-found owner

abbrev after_taken : Outbox
after_taken =
    (conclude list_memory (configure defaults) (attempt_of (codes "tab-1")) sending_world in_flight
      (resolved taken)).outbox

conclude_never_resent_example :
    claim_outbox_entry after_taken in_flight.outbox_id (codes "tab-2") 99000 60000
    ≡ (none, after_taken)
conclude_never_resent_example =
    conclude_never_resent list_memory (configure defaults) (attempt_of (codes "tab-1"))
      sending_world in_flight in_flight taken (codes "tab-2") 99000 60000 in_flight-found owner refl
      refl

process_row-wire_example :
    (process_row list_memory
      (configure defaults)
      (attempt_of (codes "tab-1"))
      (world_of (queued ∷ []))
      queued).wire
    ≡ (if not (is_ack_pending queued.status) && true
        then sendable (queued ∷ []) queued.outbox_id 5000 ++ []
        else [])
process_row-wire_example =
    process_row-wire list_memory (configure defaults) (attempt_of (codes "tab-1"))
      (world_of (queued ∷ [])) queued (λ v. refl)

abbrev slow : OutboxEngineConfig
slow = record defaults { send_timeout_ms = some 90000; lease_ms = some 60000 }

slow-lease : 0 < (configure slow).lease_ms
unfolding configure
slow-lease = omega arith

slow-claimed :
    claim_outbox_entry (queued ∷ []) queued.outbox_id (codes "tab-1") 5000 (configure slow).lease_ms
    ≡ (some in_flight, in_flight ∷ [])
unfolding configure
slow-claimed = claimed_ok

slow-early : 30000 ≤ 5000 + (configure slow).send_timeout_ms
unfolding configure
slow-early = omega arith

send_timeout_within_lease_example :
    claim_outbox_entry
      (in_flight ∷ [])
      queued.outbox_id
      (codes "tab-2")
      30000
      (configure slow).lease_ms
    ≡ (none, in_flight ∷ [])
send_timeout_within_lease_example =
    send_timeout_within_lease slow (queued ∷ []) (in_flight ∷ []) queued.outbox_id (codes "tab-1")
      (codes "tab-2") 5000 30000 in_flight slow-lease slow-claimed slow-early

handle_transient-Rescheduled_example :
    Rescheduled
      (configure defaults)
      6000
      in_flight
      (handle_transient
        (configure defaults)
        6000
        sending_world
        in_flight
        (codes "tab-1")
        (codes "Error: offline")).outbox
handle_transient-Rescheduled_example =
    handle_transient-Rescheduled (configure defaults) 6000 sending_world in_flight (codes "tab-1")
      (codes "Error: offline") owner

abbrev quarantined : OutboxEntry
quarantined = record queued {
  status = integrity_error;
  content_type = codes "image";
  acked_server_message_id = some (codes "41");
}

quarantined-found :
    get_outbox_entry (world_of (quarantined ∷ [])).outbox quarantined.outbox_id ≡ some quarantined
unfolding Table.get text_beq
quarantined-found = refl

abbrev repair_pass : RepairCircumstances (List MessageRecord)
repair_pass = record {
  token = codes "r-1";
  claims_at = 7000;
  concludes_at = 7100;
  on_integrity_fault = λ f w. w;
  fault = none;
  fresh_id = codes "m-9";
}

repair_row-Repaired_example :
    Repaired
      (configure defaults)
      (repair_row list_memory
        (configure defaults)
        repair_pass
        (world_of (quarantined ∷ []))
        quarantined).outbox
      quarantined.outbox_id
      1
repair_row-Repaired_example =
    repair_row-Repaired list_memory (configure defaults) repair_pass (world_of (quarantined ∷ []))
      quarantined quarantined-found refl (omega arith) (omega arith) (λ f v. refl)

group_by_channel-fifo_example :
    Perm (work_order (group_by_channel [] (queued ∷ quarantined ∷ []))) (queued ∷ quarantined ∷ [])
    × (rows_of room (group_by_channel [] (queued ∷ quarantined ∷ []))
        ≡ keep (of_channel room) (queued ∷ quarantined ∷ []))
group_by_channel-fifo_example = group_by_channel-fifo (queued ∷ quarantined ∷ []) room

-- A message that the server has, waiting for its local commit.
abbrev reset_delivered : Outbox
reset_delivered = elim (reset_outbox_entry 8000 (delivered ∷ []) delivered.outbox_id) [
  | none ↦ []
  | some r ↦ r.1
]

delivered-reset :
    reset_outbox_entry 8000 (delivered ∷ []) delivered.outbox_id ≡ some (delivered, reset_delivered)
unfolding reset_outbox_entry Table.get text_beq
delivered-reset = refl

reset_outbox_entry-claimed_example :
    (claim_outbox_entry reset_delivered delivered.outbox_id (codes "tab-1") 9000 60000).0
    ≡ some
        (claimed_entry (codes "tab-1") 9000 60000 (apply_outbox_patch 8000 delivered retry_patch))
reset_outbox_entry-claimed_example =
    reset_outbox_entry-claimed 8000 (delivered ∷ []) reset_delivered delivered.outbox_id
      (codes "tab-1") 9000 60000 delivered delivered-reset
