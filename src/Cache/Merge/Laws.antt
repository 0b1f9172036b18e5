-- ===== src/Cache/Merge/Laws.antt =====
-- src/cache/merge.ts: a push adds facts to the row that it matches, and erases none.
use privchat_sdk_typescript.Prelude.{
  ◌≡◌, ◌≢◌, ◌⊎◌, ◌==◌, inl, inr, Bool-cases, refl, Bool, Text, Option, none, some, true, false, [],
  arith, text_eq, text_beq_iff,
}
use privchat_sdk_typescript.Cache.{MessageRecord, MessageStatus, received, pending, sent, failed}
use privchat_sdk_typescript.Cache.Merge.{merge_on_push_absorb}

-- A fact that `a` states still holds in `b`.
abbrev pub Keeps : Option Text → Option Text → Type 0
Keeps none b = Unit {0}
Keeps (some s) b = b ≡ some s

abbrev pub KeepsRevoked : Option Bool → Option Bool → Type 0
KeepsRevoked (some true) b = b ≡ some true
KeepsRevoked (some false) b = Unit {0}
KeepsRevoked none b = Unit {0}

abbrev pub KeepsSent : MessageStatus → MessageStatus → Type 0
KeepsSent sent b = b ≡ sent
KeepsSent pending b = b ≡ sent
KeepsSent received b = Unit {0}
KeepsSent failed b = Unit {0}

-- The text with its type and its author: the row's, or the push's where the push has a text.
abbrev pub KeepsBody : MessageRecord → MessageRecord → MessageRecord → Type 0
KeepsBody m incoming n =
    ((n.content ≡ m.content) × (n.message_type ≡ m.message_type) × (n.from_uid ≡ m.from_uid))
    ⊎ ((incoming.content ≢ [])
        × (n.content ≡ incoming.content)
        × (n.message_type ≡ incoming.message_type)
        × (n.from_uid ≡ incoming.from_uid))

abbrev pub KeepsPayload : MessageRecord → MessageRecord → MessageRecord → Type 0
KeepsPayload m incoming n =
    (n.payload ≡ m.payload) ⊎ ((incoming.payload ≢ []) × (n.payload ≡ incoming.payload))

-- What a push may not change in a row `m` that becomes `n`.
pub record Protects (m incoming n : MessageRecord) : Type 0 where
  pub id : n.id ≡ m.id
  pub channel : n.channel_id ≡ m.channel_id
  pub position : n.local_order_seq ≡ m.local_order_seq
  pub sent_at : n.timestamp ≡ m.timestamp
  pub server_message_id : Keeps m.server_message_id n.server_message_id
  pub local_message_id : Keeps m.local_message_id n.local_message_id
  pub pts : Keeps m.pts n.pts
  pub status : KeepsSent m.status n.status
  pub revoked : KeepsRevoked m.revoked n.revoked
  pub body : KeepsBody m incoming n
  pub payload : KeepsPayload m incoming n

-- What a push without a body leaves as it was, besides.
pub record KeepsDisplay (m n : MessageRecord) : Type 0 where
  pub content : n.content ≡ m.content
  pub message_type : n.message_type ≡ m.message_type
  pub from_uid : n.from_uid ≡ m.from_uid

-- Any push keeps the matched row's identity, position, send time and known network identifiers,
-- never takes a pending or sent row back from `sent`, and never undoes a revocation; it replaces the
-- text with its type and its author only by those of a push with a text, and the payload only by one
-- that is not empty.
pub merge_on_push_absorb-Protects :
    (m incoming : MessageRecord) (uid : Option Text)
    → Protects m incoming (merge_on_push_absorb (some m) incoming uid)
unfolding merge_on_push_absorb
merge_on_push_absorb-Protects m incoming uid = record {
  id = refl;
  channel = refl;
  position = refl;
  sent_at = refl;
  server_message_id = ground arith;
  local_message_id = ground arith;
  pts = ground arith;
  status = ground arith;
  revoked = ground arith;
  body = elim (Bool-cases (incoming.content == [])) [
    | inl blank ↦ inl (ground (arith, blank))
    | inr text ↦ inr (ground (arith, text, text_beq_iff incoming.content []))
  ];
  payload = elim (Bool-cases (incoming.payload == [])) [
    | inl blank ↦ inl (ground (arith, blank))
    | inr bytes ↦ inr (ground (arith, bytes, text_beq_iff incoming.payload []))
  ];
}

-- A push with an empty content leaves the displayed text, its type and its author, and a push that
-- revokes marks the row revoked whatever else it carries.
pub merge_on_push_absorb_status_push :
    (m incoming : MessageRecord) (uid : Option Text)
    → incoming.content ≡ []
    → KeepsDisplay m (merge_on_push_absorb (some m) incoming uid)
      × KeepsRevoked incoming.revoked (merge_on_push_absorb (some m) incoming uid).revoked
unfolding merge_on_push_absorb
merge_on_push_absorb_status_push m incoming uid h =
    let e = (text_beq_iff incoming.content []).1 h in
    (
      record { content = ground arith; message_type = ground arith; from_uid = ground arith },
      ground arith,
    )

-- A push that is delivered twice changes nothing the second time.
pub merge_on_push_absorb_idem :
    (m incoming : MessageRecord) (uid : Option Text)
    → incoming.status ≡ received
    → merge_on_push_absorb (some (merge_on_push_absorb (some m) incoming uid)) incoming uid
      ≡ merge_on_push_absorb (some m) incoming uid
unfolding merge_on_push_absorb
merge_on_push_absorb_idem m incoming uid h = ground arith
