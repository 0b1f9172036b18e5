-- ===== src/Examples/Profiles.antt =====
-- Examples for the user profiles.
use privchat_sdk_typescript.Prelude.{
  ℕ, ◌≡◌, refl, Text, none, some, true, false, [], ◌∷◌, codes, text_beq, arith,
}
use privchat_sdk_typescript.Table
use privchat_sdk_typescript.Cache.Database.Users.{
  UserRecord, user_key, merge_user, upsert_users, upsert_users_last,
}
use privchat_sdk_typescript.Profiles.{
  ProfileStore, applies_delta, apply, apply_delta, delete_ids, notify,
}
use privchat_sdk_typescript.Maps.{set, set_all}
use privchat_sdk_typescript.Profiles.Told.{Applied, apply-Applied}
use privchat_sdk_typescript.Examples.{alice, bob}

abbrev bob_at : ℕ → Text → UserRecord
bob_at version nickname = record {
  user_id = bob;
  username = codes "bob";
  nickname = some nickname;
  avatar_url = none;
  user_type = 0;
  is_friend = false;
  sync_version = version;
  profile_snapshot = some true;
}

abbrev held : UserRecord
held = bob_at 1 (codes "Bob")

abbrev newer : UserRecord
newer = bob_at 5 (codes "Robert")

-- A row of a channel's member list: an account name and no version.
abbrev versionless : UserRecord
versionless = record held { sync_version = 0; nickname = some []; profile_snapshot = none }

newer-merged : merge_user (some held) newer ≡ some newer
unfolding merge_user
newer-merged = refl

older-merged : merge_user (some held) (bob_at 3 (codes "Rob")) ≡ some (bob_at 3 (codes "Rob"))
unfolding merge_user
older-merged = refl

versionless-merged : merge_user (some held) versionless ≡ some held
unfolding merge_user text_beq
versionless-merged = refl

held-found : Table.get user_key newer.user_id (held ∷ []) ≡ some held
unfolding Table.get text_beq
held-found = refl

upsert_users_last_example :
    Table.get user_key newer.user_id
      (upsert_users (held ∷ []) (newer ∷ bob_at 3 (codes "Rob") ∷ []))
    ≡ some (bob_at 3 (codes "Rob"))
upsert_users_last_example =
    upsert_users_last (held ∷ []) (newer ∷ []) [] held (bob_at 3 (codes "Rob"))
      (bob_at 3 (codes "Rob")) held-found older-merged tt

abbrev other : UserRecord
other = record held { user_id = alice; username = codes "alice" }

-- Two users are held, and two listeners follow.
abbrev two_users : ProfileStore UserRecord
two_users = record { records = held ∷ other ∷ []; listeners = 1 ∷ 2 ∷ [] }

-- A page that renews one user and deletes the other: each listener hears of it once.
delta-told :
    (apply user_key two_users (applies_delta (newer ∷ []) (alice ∷ []))).1
    ≡ (1, newer ∷ []) ∷ (2, newer ∷ []) ∷ []
unfolding apply apply_delta delete_ids notify set_all set Table.delete Table.get text_beq
delta-told = refl

apply-Applied_example :
    Applied user_key two_users
      (applies_delta (newer ∷ []) (alice ∷ []))
      (apply user_key two_users (applies_delta (newer ∷ []) (alice ∷ [])))
unfolding text_beq
apply-Applied_example =
    apply-Applied user_key two_users (applies_delta (newer ∷ []) (alice ∷ []))
      (((λ e. ground (arith, e)), tt), (tt, tt))
