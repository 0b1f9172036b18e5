-- ===== src/Examples/Rosters.antt =====
-- Concrete rosters.
use privchat_sdk_typescript.Prelude.{
  ◌≡◌, refl, max, none, some, false, [], ◌∷◌, codes, ◌==◌, text_eq, if◌then◌else◌, text_beq,
}
use privchat_sdk_typescript.Members.{
  GroupMemberRecord, MemberDb, is_member, get_member, put_row, put_rows, is_accepted,
  upsert_group_members, group_member_sync_watermark, advance_group_member_watermark,
}
use privchat_sdk_typescript.Members.Roster.{Holds, upsert_group_members-Holds}
use privchat_sdk_typescript.Members.Watermark.{group_member_sync_watermark-advance}
use privchat_sdk_typescript.Examples.{bob, room}

abbrev member : GroupMemberRecord
member = record {
  group_id = room;
  user_id = bob;
  role = codes "member";
  alias = none;
  is_muted = false;
  joined_at = 10;
  sync_version = 5;
  cached_at = 100;
}

abbrev outdated : GroupMemberRecord
outdated = record member { sync_version = 3; cached_at = 200 }

abbrev roster : MemberDb
roster = record { group_members = member ∷ []; cache_metadata = [] }

roster_member : get_member roster room bob ≡ some member
unfolding get_member is_member text_beq
roster_member = refl

upsert_group_members-Holds_example :
    Holds 5 (get_member (upsert_group_members roster (outdated ∷ [])) room bob)
upsert_group_members-Holds_example =
    upsert_group_members-Holds roster (outdated ∷ []) room bob member roster_member

-- Two rows of one user in a page: the second is written over the first, whose version is greater.
page_overwrites :
    get_member
      (upsert_group_members (record roster { group_members = [] }) (member ∷ outdated ∷ []))
      room
      bob
    ≡ some outdated
unfolding get_member is_member text_beq upsert_group_members put_rows put_row is_accepted
page_overwrites = refl

group_member_sync_watermark-advance_example :
    group_member_sync_watermark (advance_group_member_watermark roster room 9) room ≡ (
      if room == room
      then max (group_member_sync_watermark roster room) 9
      else group_member_sync_watermark roster room)
group_member_sync_watermark-advance_example = group_member_sync_watermark-advance roster room room 9
