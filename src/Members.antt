-- ===== src/Members.antt =====
-- src/cache/group-member-store.ts: the cached roster of the groups. The table's key is the pair of the
-- group and the user; a watermark is the group's row in the metadata table, a number as a text.
pub mod Roster
pub mod Watermark
use privchat_sdk_typescript.Prelude.{
  ℕ, ◌+◌, ◌++◌, Text, Option, none, some, Bool, true, false, not, ◌&&◌, ◌||◌, List, [], ◌∷◌, map,
  ◌==◌, nat_eq, text_eq, bool_eq, coalesce, or_else, ltb, leb, length, keep, find_by, take,
  is_digit, value, to_decimal, codes, if◌then◌else◌, Ordering, compare, zero, suc, then_by,
}
use privchat_sdk_typescript.Table
use privchat_sdk_typescript.Sorting.{sort}
use privchat_sdk_typescript.Cache.Database.Users.{UserRecord}
use privchat_sdk_typescript.Contents.{trim}
use privchat_sdk_typescript.Timeline.{holds}

pub record GroupMemberRecord : Type 0 where
  pub group_id : Text
  pub user_id : Text
  pub role : Text
  pub alias : Option Text
  pub is_muted : Bool
  pub joined_at : ℕ
  pub sync_version : ℕ
  pub cached_at : ℕ

pub record Metadata : Type 0 where
  pub key : Text
  pub value : Text

abbrev pub metadata_key : Metadata → Text
metadata_key m = m.key

pub record MemberDb : Type 0 where
  pub group_members : List GroupMemberRecord
  pub cache_metadata : List Metadata

-- What a role is on the wire.
pub data WireRole : Type 0 where
  word : Text → WireRole
  numeric : ℕ → WireRole
  missing : WireRole

-- `to_lower_case` is the platform's.
unfoldable pub numeric_role_to_string : (Text → Text) → WireRole → Text
numeric_role_to_string to_lower_case (word role) = to_lower_case (trim role)
numeric_role_to_string to_lower_case (numeric role) =
    if role == 1 then codes "owner" else if role == 2 then codes "admin" else codes "member"
numeric_role_to_string to_lower_case missing = codes "member"

-- A text of blanks is as none.
unfoldable pub pick : Option Text → Option Text
pick none = none
pick (some s) = if trim s == [] then none else some (trim s)

abbrev pub nickname_of : Option UserRecord → Option Text
nickname_of none = none
nickname_of (some u) = u.nickname

abbrev pub username_of : Option UserRecord → Option Text
username_of none = none
username_of (some u) = some u.username

unfoldable pub resolve_member_display_name : Option Text → Option UserRecord → Text → Text
unfolding pick
resolve_member_display_name alias user user_id =
    or_else (coalesce (pick alias) (coalesce (pick (nickname_of user)) (pick (username_of user))))
      user_id

unfoldable pub is_newer : GroupMemberRecord → GroupMemberRecord → Bool
is_newer next prev =
    if next.sync_version == prev.sync_version
    then leb prev.cached_at next.cached_at
    else ltb prev.sync_version next.sync_version

unfoldable pub is_member : Text → Text → GroupMemberRecord → Bool
is_member g u r = r.group_id == g && r.user_id == u

unfoldable pub get_member : MemberDb → Text → Text → Option GroupMemberRecord
unfolding is_member
get_member db g u = find_by (is_member g u) db.group_members

unfoldable pub put_row : GroupMemberRecord → List GroupMemberRecord → List GroupMemberRecord
unfolding is_member
put_row row [] = row ∷ []
put_row row (r ∷ rs) = if is_member row.group_id row.user_id r then row ∷ rs else r ∷ put_row row rs

unfoldable pub put_rows : List GroupMemberRecord → List GroupMemberRecord → List GroupMemberRecord
unfolding put_row
put_rows [] t = t
put_rows (row ∷ rows) t = put_rows rows (put_row row t)

unfoldable pub is_accepted : MemberDb → GroupMemberRecord → Bool
unfolding get_member is_newer
is_accepted db row = elim (get_member db row.group_id row.user_id) [
  | none ↦ true
  | some prev ↦ is_newer row prev
]

-- Every row is compared with the one that was there before the page.
unfoldable pub upsert_group_members : MemberDb → List GroupMemberRecord → MemberDb
unfolding is_accepted put_rows
upsert_group_members db rows = record db {
  group_members = put_rows (keep (is_accepted db) rows) db.group_members;
}

unfoldable pub members_of : MemberDb → Text → List GroupMemberRecord
members_of db g = keep (λ r. r.group_id == g) db.group_members

-- Gives the number of rows that were deleted.
unfoldable pub prune_group_members : MemberDb → Text → List Text → ℕ × MemberDb
unfolding members_of
prune_group_members db g keep_user_ids =
    let stale = keep (λ r. not (holds keep_user_ids r.user_id)) (members_of db g) in
    (
      length stale,
      record db {
        group_members =
            keep (λ r. not (r.group_id == g && not (holds keep_user_ids r.user_id)))
              db.group_members;
      },
    )

unfoldable pub count_group_members : MemberDb → Text → ℕ
unfolding members_of
count_group_members db g = length (members_of db g)

abbrev pub watermark_key : Text → Text
watermark_key g = codes "group_member_watermark:" ++ g

-- Number.parseInt(s, 10): the digits in front; without one it is not a number. A sign or a blank in
-- front is not read here.
unfoldable pub leading_digits : Text → Text
leading_digits [] = []
leading_digits (c ∷ s) = if is_digit c then c ∷ leading_digits s else []

unfoldable pub parse_int : Text → Option ℕ
unfolding leading_digits
parse_int s = if leading_digits s == [] then none else some (value (leading_digits s))

unfoldable pub greatest_version : List GroupMemberRecord → ℕ → ℕ
greatest_version [] acc = acc
greatest_version (r ∷ rs) acc =
    greatest_version rs (if ltb acc r.sync_version then r.sync_version else acc)

abbrev pub saved_text : Option Metadata → Text
saved_text none = []
saved_text (some m) = m.value

unfoldable pub saved_watermark : MemberDb → Text → ℕ
unfolding parse_int
saved_watermark db g =
    or_else (parse_int (saved_text (Table.get metadata_key (watermark_key g) db.cache_metadata))) 0

-- The watermark that was saved; without one, the greatest version of the group's rows.
unfoldable pub group_member_sync_watermark : MemberDb → Text → ℕ
unfolding saved_watermark greatest_version members_of
group_member_sync_watermark db g =
    if ltb 0 (saved_watermark db g)
    then saved_watermark db g
    else greatest_version (members_of db g) 0

unfoldable pub advance_group_member_watermark : MemberDb → Text → ℕ → MemberDb
unfolding group_member_sync_watermark
advance_group_member_watermark db g version =
    if leb version (group_member_sync_watermark db g) then db else record db {
      cache_metadata =
          Table.put metadata_key (record { key = watermark_key g; value = to_decimal version })
            db.cache_metadata;
    }

-- A row with the fields that a reader adds.
pub record GroupMemberView : Type 0 where
  pub member : GroupMemberRecord
  pub display_name : Text
  pub avatar_url : Option Text
  pub user_type : ℕ
  pub username : Text

abbrev pub avatar_of : Option UserRecord → Option Text
avatar_of none = none
avatar_of (some u) = u.avatar_url

abbrev pub user_type_of : Option UserRecord → ℕ
user_type_of none = 0
user_type_of (some u) = u.user_type

abbrev pub drop : ℕ → List GroupMemberRecord → List GroupMemberRecord
drop zero rows = rows
drop (suc n) [] = []
drop (suc n) (r ∷ rows) = drop n rows

unfoldable pub view_of : (Text → Option UserRecord) → GroupMemberRecord → GroupMemberView
unfolding resolve_member_display_name
view_of users r = record {
  member = r;
  display_name = resolve_member_display_name r.alias (users r.user_id) r.user_id;
  avatar_url = avatar_of (users r.user_id);
  user_type = user_type_of (users r.user_id);
  username = [];
}

-- `locale_compare` is the platform's.
abbrev pub by_joining : (Text → Text → Ordering) → GroupMemberRecord → GroupMemberRecord → Ordering
by_joining locale_compare a b =
    then_by (compare a.joined_at b.joined_at) (locale_compare a.user_id b.user_id)

unfoldable pub read_group_member_page :
    (Text → Text → Ordering)
    → MemberDb
    → Text
    → (Text → Option UserRecord)
    → Option ℕ
    → Option ℕ
    → List GroupMemberView
unfolding members_of view_of
read_group_member_page locale_compare db g users limit offset =
    let rows = sort (by_joining locale_compare) (members_of db g) in
    map (view_of users) (take (or_else limit (length rows)) (drop (or_else offset 0) rows))
