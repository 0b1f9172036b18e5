-- ===== src/Cache/Database/Users.antt =====
-- src/cache/indexeddb-store.ts: `upsertUsers`, the merge of user profiles by version and ownership.
use privchat_sdk_typescript.Prelude.{
  ℕ, ◌≤◌, ◌≡◌, ◌≢◌, refl, sym, ◌++◌, All, inl, inr, Option-cases, Text, Option, none, some, Bool,
  true, not, ◌&&◌, ◌||◌, List, [], ◌∷◌, ◌==◌, text_eq, bool_eq, option_eq, ◌∙◌, text_beq_iff,
  coalesce, ltb, max, arith, if◌then◌else◌,
}
use privchat_sdk_typescript.Table
use privchat_sdk_typescript.Table.{get-put, get_key}

pub record UserRecord : Type 0 where
  pub user_id : Text
  pub username : Text
  pub nickname : Option Text
  pub avatar_url : Option Text
  pub user_type : ℕ
  pub is_friend : Bool
  pub sync_version : ℕ
  pub profile_snapshot : Option Bool

abbrev pub user_key : UserRecord → Text
user_key u = u.user_id

abbrev pub is_versioned : UserRecord → Bool
is_versioned u = ltb 0 u.sync_version

abbrev pub has_snapshot : UserRecord → Bool
has_snapshot u = u.profile_snapshot == some true

-- The row to write, given the row that is held; `none` where the record is older than it.
unfoldable pub merge_user : Option UserRecord → UserRecord → Option UserRecord
merge_user none incoming =
    some (record incoming { profile_snapshot = some (is_versioned incoming) })
merge_user (some prev) incoming =
    let versioned = is_versioned incoming in
    let owned_locked = not versioned && has_snapshot prev in
    if versioned && ltb incoming.sync_version prev.sync_version
    then none
    else some (record prev {
      username =
          if not versioned && not (prev.username == []) then prev.username else incoming.username;
      nickname = if owned_locked then prev.nickname else coalesce incoming.nickname prev.nickname;
      avatar_url =
          if owned_locked then prev.avatar_url else coalesce incoming.avatar_url prev.avatar_url;
      user_type = if owned_locked then prev.user_type else incoming.user_type;
      is_friend = incoming.is_friend || prev.is_friend;
      sync_version = max prev.sync_version incoming.sync_version;
      profile_snapshot = some (has_snapshot prev || versioned);
    })

-- The rows are merged with those held before the batch, and then written in order.
unfoldable pub write_users : List UserRecord → List UserRecord → List UserRecord → List UserRecord
write_users held [] users = users
write_users held (r ∷ rs) users = elim (merge_user (Table.get user_key r.user_id held) r) [
  | none ↦ write_users held rs users
  | some merged ↦ write_users held rs (Table.put user_key merged users)
]

unfoldable pub upsert_users : List UserRecord → List UserRecord → List UserRecord
upsert_users users records = write_users users records users

-- What a merge never takes back of a row `prev` that becomes `next`.
pub record Advances (prev next : UserRecord) : Type 0 where
  pub same_user : next.user_id ≡ prev.user_id
  pub version : prev.sync_version ≤ next.sync_version
  pub friend : (prev.is_friend && next.is_friend) ≡ prev.is_friend
  pub snapshot : (has_snapshot prev && has_snapshot next) ≡ has_snapshot prev

-- What is written over a held row is the same user's, with a version not lower, and takes back neither
-- the friendship nor the mark of an authoritative profile.
pub merge_user-Advances :
    (prev incoming next : UserRecord)
    → merge_user (some prev) incoming ≡ some next
    → Advances prev next
unfolding merge_user
merge_user-Advances prev incoming next h = record {
  same_user = ground arith;
  version = ground arith;
  friend = ground arith;
  snapshot = ground arith;
}

-- Merging the same record a second time changes nothing.
pub merge_user_idem :
    (prev incoming next : UserRecord)
    → merge_user (some prev) incoming ≡ some next
    → merge_user (some next) incoming ≡ some next
unfolding merge_user
merge_user_idem prev incoming next h = ground arith

-- Records of other users leave a row as it is.
write_others :
    (held rs users : List UserRecord) (id : Text)
    → All (λ r. r.user_id ≢ id) rs
    → Table.get user_key id (write_users held rs users) ≡ Table.get user_key id users
unfolding write_users merge_user
write_others held [] users id apart = refl
write_others held (r ∷ rs) users id apart =
    elim (Option-cases (merge_user (Table.get user_key r.user_id held) r)) [
      | inl older ↦ rw (write_users, older) (write_others held rs users id apart.1)
      | inr (merged, taken) ↦
          let key : merged.user_id ≡ r.user_id =
            merged_id (Table.get user_key r.user_id held) r merged refl taken in
          let other : merged.user_id ≢ id = λ e. apart.0 (sym key ∙ e) in
          let kept : Table.get user_key id (Table.put user_key merged users)
              ≡ Table.get user_key id users =
            ground
              (arith, get-put user_key id merged users, text_beq_iff merged.user_id id, other) in
          rw (write_users, taken)
            (write_others held rs (Table.put user_key merged users) id apart.1 ∙ kept)
    ]
  where
    merged_id :
        (prev : Option UserRecord) (incoming next : UserRecord)
        → Table.get user_key incoming.user_id held ≡ prev
        → merge_user prev incoming ≡ some next
        → next.user_id ≡ incoming.user_id
    merged_id none incoming next at h = ground (arith, h)
    merged_id (some prev) incoming next at h =
        (merge_user-Advances prev incoming next h).same_user
        ∙ get_key user_key incoming.user_id held prev at

-- In a batch, the row of a user whose last record is accepted is that record merged with the row held
-- before the batch, whatever the records before it brought, even with a higher version.
pub upsert_users_last :
    (users before after : List UserRecord) (prev last merged : UserRecord)
    → Table.get user_key last.user_id users ≡ some prev
    → merge_user (some prev) last ≡ some merged
    → All (λ r. r.user_id ≢ last.user_id) after
    → Table.get user_key last.user_id (upsert_users users (before ++ last ∷ after)) ≡ some merged
unfolding upsert_users write_users
upsert_users_last users before after prev last merged held taken apart = run before users
  where
    key : merged.user_id ≡ last.user_id
    key =
        (merge_user-Advances prev last merged taken).same_user
        ∙ get_key user_key last.user_id users prev held

    run :
        (rs rows : List UserRecord)
        → Table.get user_key last.user_id (write_users users (rs ++ last ∷ after) rows)
          ≡ some merged
    run [] rows =
        let written : Table.get user_key last.user_id (Table.put user_key merged rows)
            ≡ some merged =
          ground (
            arith,
            get-put user_key last.user_id merged rows,
            text_beq_iff merged.user_id last.user_id,
            key,
          ) in
        rw (write_users, held, taken)
          (write_others users after (Table.put user_key merged rows) last.user_id apart ∙ written)
    run (r ∷ rs) rows = elim (Option-cases (merge_user (Table.get user_key r.user_id users) r)) [
      | inl older ↦ rw (write_users, older) (run rs rows)
      | inr (m, accepted) ↦ rw (write_users, accepted) (run rs (Table.put user_key m rows))
    ]
