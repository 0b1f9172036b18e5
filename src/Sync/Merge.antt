-- ===== src/Sync/Merge.antt =====
-- src/sync-engine.ts: what a page of commits does to the cache and the memory. `none` is a transaction
-- that throws, which leaves everything as it was.
use privchat_sdk_typescript.Prelude.{
  ℕ, ◌+◌, Text, Option, none, some, Bool, true, false, not, ◌&&◌, List, [], ◌∷◌, ◌++◌, ◌==◌, nat_eq,
  text_eq, bool_eq, option_eq, or_else, coalesce, ltb, codes, some_by, if◌then◌else◌, big_int,
}
use privchat_sdk_typescript.Cache.{
  MessageRecord, MessageStatus, received, pending, sent, failed, milliseconds,
}
use privchat_sdk_typescript.Cache.Inbound.{normalize_sent_at_ms, natural}
use privchat_sdk_typescript.Cache.Database.{CacheDb, by_channel_smid, by_channel_lmid}
use privchat_sdk_typescript.Contents.{Json, string, object, has_own, field_of}
use privchat_sdk_typescript.Timeline.{same_status}
use privchat_sdk_typescript.Sync.{ServerCommit}

-- A canonical new-message event: its type's name, its text, if there is one, and its envelope, encoded
-- again.
pub record NewMessage : Type 0 where
  pub message_type : Text
  pub content : Option Text
  pub payload : List ℕ

-- Code that is not the repository's: the decoder of canonical events (nothing for a commit without
-- one that is a new message), JSON.stringify and the UTF-8 encoder; and the identifier that is drawn
-- at random for a commit's record.
pub record CommitDecoder : Type 0 where
  pub resolve_new_message : ServerCommit → Option NewMessage
  pub stringify : Json → Text
  pub encode_utf8 : Text → List ℕ
  pub next_local_message_record_id : ServerCommit → Text

abbrev pub text_field : Text → Json → Option Text
text_field key (object raw) = elim (field_of key raw) [ some (string s) ↦ some s | _ ↦ none ]
text_field key _ = none

abbrev pub is_own_commit : Option Text → ServerCommit → Bool
is_own_commit none commit = false
is_own_commit (some uid) commit = commit.sender_id == uid

module _ (decoder : CommitDecoder) where
  unfoldable pub extract_content : Json → Text
  extract_content (string s) = s
  extract_content value =
      or_else (coalesce (text_field (codes "text") value) (text_field (codes "content") value))
        (decoder.stringify value)

  -- The payload of a commit without a canonical event: its JSON where it carries metadata.
  unfoldable pub content_payload : Json → List ℕ
  content_payload (object raw) =
      if has_own raw (codes "metadata")
      then decoder.encode_utf8 (decoder.stringify (object raw))
      else []
  content_payload _ = []

  abbrev pub new_message_of : ServerCommit → NewMessage
  new_message_of commit = or_else (decoder.resolve_new_message commit) (record {
    message_type = commit.message_type;
    content = none;
    payload = content_payload commit.content;
  })

  unfoldable pub commit_to_message_record : ServerCommit → Text → ℕ → Option Text → MessageRecord
  commit_to_message_record commit channel_id channel_type self_uid =
      let message = new_message_of commit in
      record {
        id = decoder.next_local_message_record_id commit;
        channel_id = channel_id;
        channel_type = channel_type;
        server_message_id = some commit.server_msg_id;
        local_message_id = commit.local_message_id;
        pts = some commit.pts;
        local_order_seq = none;
        from_uid = commit.sender_id;
        message_type = message.message_type;
        content = or_else message.content (extract_content commit.content);
        payload = message.payload;
        timestamp = normalize_sent_at_ms (natural commit.server_timestamp);
        timestamp_precision = some milliseconds;
        status = if is_own_commit self_uid commit then sent else received;
        revoked = some false;
        mime_type = none;
      }

unfoldable pub message_equals : MessageRecord → MessageRecord → Bool
message_equals a b =
    a.server_message_id == b.server_message_id
    && a.pts == b.pts
    && a.from_uid == b.from_uid
    && a.message_type == b.message_type
    && a.content == b.content
    && a.timestamp == b.timestamp
    && same_status a.status b.status
    && or_else a.revoked false == or_else b.revoked false

-- What the loop over a page's commits collects.
pub record PageState : Type 0 where
  pub newly_inserted : ℕ
  pub unread_bump : ℕ
  pub max_pts_seen : ℕ
  pub max_timestamp_seen : ℕ
  pub to_upsert : List MessageRecord
  pub ack_swaps : List MessageRecord
  pub swapped : List Text

abbrev pub is_pending : MessageStatus → Bool
is_pending pending = true
is_pending received = false
is_pending sent = false
is_pending failed = false

-- The pending row that a commit acknowledges, unless an earlier commit of the page has.
unfoldable pub pending_row : CacheDb → Text → PageState → Option Text → Option MessageRecord
pending_row db c p none = none
pending_row db c p (some lid) = elim (by_channel_lmid db c lid) [
  | none ↦ none
  | some row ↦
      if not (some_by (λ l. l == lid) p.swapped) && is_pending row.row.status
      then some row.row
      else none
]

abbrev pub acked_row : MessageRecord → MessageRecord → MessageRecord
acked_row next row = record next {
  id = row.id;
  local_order_seq = row.local_order_seq;
  local_message_id = row.local_message_id;
  status = sent;
  payload = row.payload;
}

unfoldable pub is_unread : Option Text → ServerCommit → ℕ → ℕ → MessageRecord → Bool
is_unread self_uid commit pts read_pts next =
    not (is_own_commit self_uid commit) && ltb read_pts pts && not (next.revoked == some true)

-- A commit whose message is not a pending one of ours: skipped, updated or inserted.
unfoldable pub merge_commit :
    CacheDb
    → Text
    → Option Text
    → Text
    → PageState
    → ServerCommit
    → ℕ
    → MessageRecord
    → Option PageState
merge_commit db c self_uid read_pts p commit pts next =
    elim (by_channel_smid db c commit.server_msg_id) [
      | some existing ↦
          if message_equals existing.row next
          then some p
          else some (record p { to_upsert = p.to_upsert ++ next ∷ [] })
      | none ↦ elim (big_int read_pts) [
        | none ↦ none
        | some read ↦ some (record p {
          to_upsert = p.to_upsert ++ next ∷ [];
          newly_inserted = p.newly_inserted + 1;
          unread_bump =
              if is_unread self_uid commit pts read next then p.unread_bump + 1 else p.unread_bump;
        })
      ]
    ]

abbrev pub seen : PageState → ℕ → ℕ → PageState
seen p pts timestamp = record p {
  max_pts_seen = if ltb p.max_pts_seen pts then pts else p.max_pts_seen;
  max_timestamp_seen =
      if ltb p.max_timestamp_seen timestamp then timestamp else p.max_timestamp_seen;
}

-- `l:` rows that were swapped are gone from what the page has read.
abbrev pub swapped_with : List Text → Option Text → List Text
swapped_with swapped none = swapped
swapped_with swapped (some lid) = lid ∷ swapped

unfoldable pub merge_step :
    CacheDb
    → Text
    → Option Text
    → Text
    → PageState
    → ServerCommit
    → MessageRecord
    → Option PageState
merge_step db c self_uid read_pts p commit next = elim (big_int commit.pts) [
  | none ↦ none
  | some pts ↦
      let p' = seen p pts next.timestamp in
      elim (pending_row db c p commit.local_message_id) [
        | some row ↦ some (record p' {
          ack_swaps = p.ack_swaps ++ acked_row next row ∷ [];
          swapped = swapped_with p.swapped commit.local_message_id;
        })
        | none ↦ merge_commit db c self_uid read_pts p' commit pts next
      ]
]
