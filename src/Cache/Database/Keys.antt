-- ===== src/Cache/Database/Keys.antt =====
-- src/cache/indexeddb-store.ts: every persisted sort key is written under its channel's order mode,
-- and a channel with a gap is in the degraded mode.
use privchat_sdk_typescript.Prelude.{
  ℕ, ◌≤◌, ◌<◌, ◌≡◌, refl, ◌≢◌, Text, arith, All, Bool-cases, inl, inr, ◌==◌, text_eq, text_beq_iff,
  nat_eq, ◌&&◌, List, [], ◌∷◌, length, keep, sym, ap, ◌∙◌, subst, true, map, false, ok,
}
use privchat_sdk_typescript.Table
use privchat_sdk_typescript.Table.{
  All-put, All-delete, All-keep, length-keep-put, length-keep-delete, length-keep-keep,
}
use privchat_sdk_typescript.Cache.{MessageRecord, ChannelOrderMode, by_server_id, by_pts}
use privchat_sdk_typescript.Cache.Database.{
  CacheDb, StoredMessage, message_key, stamp, put_message, delete_message_by_id,
  clear_channel_messages, gaps, wanted_mode, same_mode, rekey, reconcile_order_mode, set_mode,
}

-- A row as it is written under the modes of the channels.
abbrev pub IsKeyed : (Text → ChannelOrderMode) → StoredMessage → Type 0
IsKeyed modes m = m ≡ stamp m.row (modes m.row.channel_id)

-- Every key follows its channel's mode, and no channel in pts order has a row without pts.
pub record IsWellKeyed (db : CacheDb) : Type 0 where
  pub keyed : All (IsKeyed db.order_mode) db.messages
  pub degraded : (c : Text) → 0 < gaps db c → db.order_mode c ≡ by_server_id

-- What a write to channel `c` does before the modes are decided anew.
pub record Writes (c : Text) (db after : CacheDb) : Type 0 where
  pub mode : after.order_mode ≡ db.order_mode
  pub keyed : All (IsKeyed db.order_mode) db.messages → All (IsKeyed db.order_mode) after.messages
  pub fewer : (k : Text) → k ≢ c → gaps after k ≤ gaps db k

pub Writes-refl : (c : Text) (db : CacheDb) → Writes c db db
Writes-refl c db = record { mode = refl; keyed = λ h. h; fewer = λ k ne. omega arith }

pub Writes-trans : (c : Text) (a b d : CacheDb) → Writes c a b → Writes c b d → Writes c a d
Writes-trans c a b d f g = record {
  mode = cc (f.mode, g.mode);
  keyed = λ h. rw f.mode at (g.keyed (rw f.mode (f.keyed h)));
  fewer = λ k ne. omega (arith, f.fewer k ne, g.fewer k ne);
}

other_channel-not-counted :
    (c k : Text) (m : StoredMessage)
    → k ≢ c
    → m.row.channel_id ≡ c
    → (m.row.channel_id == k && m.pts_gap == 1) ≡ false
other_channel-not-counted c k m ne e = ground (arith, text_beq_iff m.row.channel_id k)

pub put_message-Writes :
    (c : Text) (db after : CacheDb) (m : StoredMessage)
    → m.row.channel_id ≡ c
    → IsKeyed db.order_mode m
    → put_message db m ≡ ok after
    → Writes c db after
unfolding put_message
put_message-Writes c db after m e keyed h =
    let a : after ≡ record db { messages = Table.put message_key m db.messages } = ground arith in
    rw a (record {
      mode = refl;
      keyed = λ all. All-put message_key (IsKeyed db.order_mode) m db.messages keyed all;
      fewer = λ k ne.
          length-keep-put message_key _ m db.messages (other_channel-not-counted c k m ne e);
    })

pub delete_message_by_id-Writes :
    (c : Text) (db : CacheDb) (id : Text) → Writes c db (delete_message_by_id db id)
delete_message_by_id-Writes c db id = record {
  mode = refl;
  keyed = λ h. All-delete message_key (IsKeyed db.order_mode) id db.messages h;
  fewer = λ k ne. length-keep-delete message_key _ id db.messages;
}

pub clear_channel_messages-Writes :
    (c channel_id : Text) (db : CacheDb) → Writes c db (clear_channel_messages db channel_id)
unfolding clear_channel_messages
clear_channel_messages-Writes c channel_id db = record {
  mode = refl;
  keyed = λ h. All-keep (IsKeyed db.order_mode) _ db.messages h;
  fewer = λ k ne. length-keep-keep _ _ db.messages;
}

rekey-IsKeyed :
    (c : Text) (want : ChannelOrderMode) (modes : Text → ChannelOrderMode) (m : StoredMessage)
    → IsKeyed modes m
    → IsKeyed (set_mode modes c want) (rekey c want m)
unfolding stamp
rekey-IsKeyed c want modes m h =
    ground (arith, text_beq_iff m.row.channel_id c, text_beq_iff c m.row.channel_id)

map-rekey-IsKeyed :
    (c : Text) (want : ChannelOrderMode) (modes : Text → ChannelOrderMode) (t : List StoredMessage)
    → All (IsKeyed modes) t
    → All (IsKeyed (set_mode modes c want)) (map (rekey c want) t)
map-rekey-IsKeyed c want modes [] h = tt
map-rekey-IsKeyed c want modes (m ∷ t) h =
    (rekey-IsKeyed c want modes m h.0, map-rekey-IsKeyed c want modes t h.1)

length-keep-rekey :
    (k c : Text) (want : ChannelOrderMode) (t : List StoredMessage)
    → length (keep (λ m. m.row.channel_id == k && m.pts_gap == 1) (map (rekey c want) t))
      ≡ length (keep (λ m. m.row.channel_id == k && m.pts_gap == 1) t)
length-keep-rekey k c want [] = refl
length-keep-rekey k c want (m ∷ t) = elim (Bool-cases (m.row.channel_id == c)) [
  | inl here ↦ rw here (ground (arith, length-keep-rekey k c want t))
  | inr there ↦ rw there (ground (arith, length-keep-rekey k c want t))
]

-- What deciding a channel's mode does.
pub record Reconciles (c : Text) (db after : CacheDb) : Type 0 where
  pub exact : after.order_mode c ≡ wanted_mode (gaps after c)
  pub others : (k : Text) → k ≢ c → after.order_mode k ≡ db.order_mode k
  pub same_gaps : (k : Text) → gaps after k ≡ gaps db k
  pub keyed :
      All (IsKeyed db.order_mode) db.messages → All (IsKeyed after.order_mode) after.messages

rekeyed : CacheDb → Text → CacheDb
rekeyed db c = record db {
  messages = map (rekey c (wanted_mode (gaps db c))) db.messages;
  order_mode = set_mode db.order_mode c (wanted_mode (gaps db c));
}

rekeyed-Reconciles : (c : Text) (db : CacheDb) → Reconciles c db (rekeyed db c)
unfolding rekeyed
rekeyed-Reconciles c db = record {
  exact =
      ground (arith, text_beq_iff c c, length-keep-rekey c c (wanted_mode (gaps db c)) db.messages);
  others = λ k ne. ground (arith, text_beq_iff c k);
  same_gaps = λ k. length-keep-rekey k c (wanted_mode (gaps db c)) db.messages;
  keyed = λ h. map-rekey-IsKeyed c (wanted_mode (gaps db c)) db.order_mode db.messages h;
}

unchanged-Reconciles :
    (c : Text) (db : CacheDb) → db.order_mode c ≡ wanted_mode (gaps db c) → Reconciles c db db
unchanged-Reconciles c db h = record {
  exact = h;
  others = λ k ne. refl;
  same_gaps = λ k. refl;
  keyed = λ a. a;
}

same_mode-eq : (a b : ChannelOrderMode) → same_mode a b ≡ true → a ≡ b
same_mode-eq by_pts by_pts h = refl
same_mode-eq by_pts by_server_id h = cc
same_mode-eq by_server_id by_pts h = cc
same_mode-eq by_server_id by_server_id h = refl

pub reconcile_order_mode-Reconciles :
    (c : Text) (db : CacheDb) → Reconciles c db (reconcile_order_mode db c).1
unfolding reconcile_order_mode
reconcile_order_mode-Reconciles c db =
    elim (Bool-cases (same_mode (wanted_mode (gaps db c)) (db.order_mode c))) [
      | inl same ↦ rw same (unchanged-Reconciles c db (sym (same_mode-eq _ _ same)))
      | inr other ↦ rw other (unfold rekeyed in rekeyed-Reconciles c db)
    ]

pub stamp-IsKeyed :
    (modes : Text → ChannelOrderMode) (m : MessageRecord)
    → IsKeyed modes (stamp m (modes m.channel_id))
unfolding stamp
stamp-IsKeyed modes m = refl

pub stamp-row : (m : MessageRecord) (mode : ChannelOrderMode) → (stamp m mode).row ≡ m
unfolding stamp
stamp-row m mode = refl

pub wanted-degraded :
    (n : ℕ) (mode : ChannelOrderMode) → mode ≡ wanted_mode n → 0 < n → mode ≡ by_server_id
wanted-degraded n mode e h = ground arith

-- A row written under its channel's mode.
pub put_stamped-Writes :
    (db after : CacheDb) (m : MessageRecord)
    → put_message db (stamp m (db.order_mode m.channel_id)) ≡ ok after
    → Writes m.channel_id db after
put_stamped-Writes db after m h =
    put_message-Writes m.channel_id db after (stamp m (db.order_mode m.channel_id))
      (ap (λ (r : MessageRecord). r.channel_id) (stamp-row m _)) (stamp-IsKeyed db.order_mode m) h

-- A write to one channel and the decision of its mode.
pub reconciled-IsWellKeyed :
    (c : Text) (db written after : CacheDb)
    → IsWellKeyed db
    → Writes c db written
    → Reconciles c written after
    → IsWellKeyed after × (after.order_mode c ≡ wanted_mode (gaps after c))
reconciled-IsWellKeyed c db written after v w r = (
  record {
    keyed =
        r.keyed
          (subst (λ modes. All (IsKeyed modes) written.messages) (sym w.mode) (w.keyed v.keyed));
    degraded = λ k gap. elim (Bool-cases (k == c)) [
      | inl here ↦
          let e : k ≡ c = (text_beq_iff k c).0 here in
          rw e (wanted-degraded (gaps after c) (after.order_mode c) r.exact (rw e at gap))
      | inr there ↦
          let ne : k ≢ c = λ e. cc ((text_beq_iff k c).1 e, there) in
          r.others k ne
          ∙ ap (λ (modes : Text → ChannelOrderMode). modes k) w.mode
          ∙ v.degraded k (omega (arith, r.same_gaps k, w.fewer k ne))
    ];
  },
  r.exact,
)
