-- ===== src/Timeline/Views/Unchanged.antt =====
-- src/cache/message-store.ts: a batch for which `upsertMessages` stores nothing is what the store shows.
use privchat_sdk_typescript.Prelude.{
  ◌≡◌, refl, sym, ◌∙◌, subst, Option, none, some, Bool, true, List, [], ◌∷◌, arith, inl, inr,
  Bool-cases, ◌==◌, text_eq, text_beq_iff, nat_eq, option_eq, bool_eq, All,
}
use privchat_sdk_typescript.Table.{get}
use privchat_sdk_typescript.Maps.{get-set, kept, set}
use privchat_sdk_typescript.Cache.{MessageRecord, MessageStatus, received, pending, sent, failed}
use privchat_sdk_typescript.Timeline.{
  message_id_of, merge_rows, is_changed, message_equals, same_status,
}
use privchat_sdk_typescript.Timeline.Merging.{not_changed, merge_rows-upserted, merge_rows-same}

-- The two records say the same of their message.
pub record SaysSame (m r : MessageRecord) : Type 0 where
  pub server_message_id : m.server_message_id ≡ r.server_message_id
  pub local_message_id : m.local_message_id ≡ r.local_message_id
  pub pts : m.pts ≡ r.pts
  pub from_uid : m.from_uid ≡ r.from_uid
  pub message_type : m.message_type ≡ r.message_type
  pub content : m.content ≡ r.content
  pub timestamp : m.timestamp ≡ r.timestamp
  pub status : m.status ≡ r.status
  pub revoked : m.revoked ≡ r.revoked
  pub payload : m.payload ≡ r.payload

-- There is a row, and it says what the record says.
abbrev pub Shows : Option MessageRecord → MessageRecord → Type 0
Shows none r = ⊥
Shows (some m) r = SaysSame m r

status_lem : (a b : MessageStatus) → same_status a b ≡ true → a ≡ b
status_lem received received h = refl
status_lem pending pending h = refl
status_lem sent sent h = refl
status_lem failed failed h = refl
status_lem a b h = cc h

message_equals-SaysSame : (m r : MessageRecord) → message_equals m r ≡ true → SaysSame m r
unfolding message_equals
message_equals-SaysSame m r h = record {
  server_message_id =
      (option_eq.same_iff m.server_message_id r.server_message_id).0 (ground (arith, h));
  local_message_id =
      (option_eq.same_iff m.local_message_id r.local_message_id).0 (ground (arith, h));
  pts = (option_eq.same_iff m.pts r.pts).0 (ground (arith, h));
  from_uid = (text_beq_iff m.from_uid r.from_uid).0 (ground (arith, h));
  message_type = (text_beq_iff m.message_type r.message_type).0 (ground (arith, h));
  content = (text_beq_iff m.content r.content).0 (ground (arith, h));
  timestamp = (nat_eq.same_iff m.timestamp r.timestamp).0 (ground (arith, h));
  status = status_lem m.status r.status (ground (arith, h));
  revoked = (option_eq.same_iff m.revoked r.revoked).0 (ground (arith, h));
  payload = (text_beq_iff m.payload r.payload).0 (ground (arith, h));
}

then_same : (m r x : MessageRecord) → SaysSame m r → SaysSame r x → SaysSame m x
then_same m r x a b = record {
  server_message_id = a.server_message_id ∙ b.server_message_id;
  local_message_id = a.local_message_id ∙ b.local_message_id;
  pts = a.pts ∙ b.pts;
  from_uid = a.from_uid ∙ b.from_uid;
  message_type = a.message_type ∙ b.message_type;
  content = a.content ∙ b.content;
  timestamp = a.timestamp ∙ b.timestamp;
  status = a.status ∙ b.status;
  revoked = a.revoked ∙ b.revoked;
  payload = a.payload ∙ b.payload;
}

pub All-imp :
    (P Q : MessageRecord → Type 0) (xs : List MessageRecord)
    → ((x : MessageRecord) → P x → Q x)
    → All P xs
    → All Q xs
All-imp P Q [] f a = tt
All-imp P Q (x ∷ xs) f a = (f x a.0, All-imp P Q xs f a.1)

-- What a row that says the same as the one before it shows, that one showed.
Shows-set :
    (r x : MessageRecord) (rows : List MessageRecord)
    → Shows (get message_id_of r.id rows) r
    → Shows (get message_id_of x.id (set message_id_of r rows)) x
    → Shows (get message_id_of x.id rows) x
Shows-set r x rows held after = elim (Bool-cases (r.id == x.id)) [
  | inl same ↦
      let found : get message_id_of x.id (set message_id_of r rows) ≡ some r =
        ground (arith, get-set message_id_of x.id r rows, same) in
      at (get message_id_of r.id rows) held (subst (λ o. Shows o x) found after)
        (rw ((text_beq_iff r.id x.id).0 same) refl)
  | inr other ↦
      let found : get message_id_of x.id (set message_id_of r rows) ≡ get message_id_of x.id rows =
        ground (arith, get-set message_id_of x.id r rows, other) in
      subst (λ o. Shows o x) found after
]
  where
    at :
        (o : Option MessageRecord)
        → Shows o r
        → SaysSame r x
        → o ≡ get message_id_of x.id rows
        → Shows (get message_id_of x.id rows) x
    at none h s e = absurd h
    at (some m) h s e = subst (λ o. Shows o x) e (then_same m r x h s)

-- Where no record is new, every record of the batch is shown by the rows.
pub merge_rows-Shows :
    (rs rows : List MessageRecord)
    → (merge_rows rows rs).upserted ≡ []
    → All (λ r. Shows (get message_id_of r.id rows) r) rs
unfolding merge_rows is_changed
merge_rows-Shows [] rows h = tt
merge_rows-Shows (r ∷ rs) rows h = elim (Bool-cases (is_changed (get message_id_of r.id rows) r)) [
  | inl changed ↦ absurd (ground (arith, changed, merge_rows-upserted r rs rows changed))
  | inr same ↦
      let (prev, held, equal) = not_changed (get message_id_of r.id rows) r same in
      let shown : Shows (get message_id_of r.id rows) r =
        subst (λ o. Shows o r) (sym held) (message_equals-SaysSame prev r equal) in
      (
        shown,
        All-imp _ _ rs (λ x a. Shows-set r x rows shown a)
            (merge_rows-Shows rs (set message_id_of r rows)
              (sym (merge_rows-same r rs rows same) ∙ h)),
      )
]

pub Shows-kept :
    (p : MessageRecord → Bool) (o : Option MessageRecord) (r : MessageRecord)
    → Shows (kept p o) r
    → Shows o r
Shows-kept p none r h = h
Shows-kept p (some m) r h = elim (Bool-cases (p m)) [
  | inl passed ↦
      let same : kept p (some m) ≡ some m = ground (arith, passed) in subst (λ o. Shows o r) same h
  | inr dropped ↦
      let gone : kept p (some m) ≡ none = ground (arith, dropped) in
      absurd (subst (λ o. Shows o r) gone h)
]
