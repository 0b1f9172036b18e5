-- ===== src/Members/Roster.antt =====
-- src/cache/group-member-store.ts: what a page of members and a full roster do to the cached rows.
use privchat_sdk_typescript.Prelude.{
  ℕ, ◌≤◌, ◌≡◌, refl, sym, ◌∙◌, ap, Text, Option, none, some, true, not, ◌&&◌, List, [], ◌∷◌, arith,
  ◌==◌, nat_eq, text_eq, text_beq_iff, inl, inr, Bool-cases, All, keep, find_by, if◌then◌else◌,
}
use privchat_sdk_typescript.Timeline.{holds}
use privchat_sdk_typescript.Members.{
  GroupMemberRecord, MemberDb, is_newer, is_member, get_member, put_row, put_rows, is_accepted,
  upsert_group_members, prune_group_members,
}

get-put_row :
    (g u : Text) (row : GroupMemberRecord) (t : List GroupMemberRecord)
    → find_by (is_member g u) (put_row row t)
      ≡ (if is_member g u row then some row else find_by (is_member g u) t)
unfolding put_row is_member
get-put_row g u row [] = refl
get-put_row g u row (r ∷ rs) = ground (
  arith,
  get-put_row g u row rs,
  text_beq_iff r.group_id row.group_id,
  text_beq_iff r.user_id row.user_id,
  text_beq_iff r.group_id g,
  text_beq_iff r.user_id u,
  text_beq_iff row.group_id g,
  text_beq_iff row.user_id u,
)

-- A row with at least a version.
pub record Holds (version : ℕ) (o : Option GroupMemberRecord) : Type 0 where
  pub member : GroupMemberRecord
  pub held : o ≡ some member
  pub newer : version ≤ member.sync_version

abbrev IsLater : ℕ → Text → Text → GroupMemberRecord → Type 0
IsLater version g u row = is_member g u row ≡ true → version ≤ row.sync_version

put_rows-Holds :
    (g u : Text) (version : ℕ) (rows t : List GroupMemberRecord)
    → All (IsLater version g u) rows
    → Holds version (find_by (is_member g u) t)
    → Holds version (find_by (is_member g u) (put_rows rows t))
unfolding put_rows
put_rows-Holds g u version [] t a h = h
put_rows-Holds g u version (row ∷ rows) t (later, more) h =
    put_rows-Holds g u version rows (put_row row t) more (elim (Bool-cases (is_member g u row)) [
      | inl here ↦ record {
        member = row;
        held = get-put_row g u row t ∙ rw here refl;
        newer = later here;
      }
      | inr other ↦ record {
        member = h.member;
        held = get-put_row g u row t ∙ rw other h.held;
        newer = h.newer;
      }
    ])

is_newer-version :
    (next prev : GroupMemberRecord)
    → is_newer next prev ≡ true
    → prev.sync_version ≤ next.sync_version
unfolding is_newer
is_newer-version next prev h = ground arith

is_member-key :
    (g u : Text) (row : GroupMemberRecord)
    → is_member g u row ≡ true
    → (row.group_id ≡ g) × (row.user_id ≡ u)
unfolding is_member
is_member-key g u row h = ground (arith, text_beq_iff row.group_id g, text_beq_iff row.user_id u)

is_accepted-held :
    (db : MemberDb) (row prev : GroupMemberRecord)
    → get_member db row.group_id row.user_id ≡ some prev
    → is_accepted db row ≡ is_newer row prev
unfolding is_accepted
is_accepted-held db row prev e = rw (is_accepted, e) refl

is_accepted-IsLater :
    (db : MemberDb) (g u : Text) (prev row : GroupMemberRecord)
    → get_member db g u ≡ some prev
    → is_accepted db row ≡ true
    → IsLater prev.sync_version g u row
is_accepted-IsLater db g u prev row held ok here =
    is_newer-version row prev (sym (is_accepted-held db row prev same) ∙ ok)
  where
    same : get_member db row.group_id row.user_id ≡ some prev
    same = let (group, user) = is_member-key g u row here in cc (group, user, held)

accepted-All :
    (db : MemberDb) (g u : Text) (prev : GroupMemberRecord) (rows : List GroupMemberRecord)
    → get_member db g u ≡ some prev
    → All (IsLater prev.sync_version g u) (keep (is_accepted db) rows)
accepted-All db g u prev [] held = tt
accepted-All db g u prev (row ∷ rows) held = elim (Bool-cases (is_accepted db row)) [
  | inl ok ↦ rw ok (is_accepted-IsLater db g u prev row held ok, accepted-All db g u prev rows held)
  | inr refused ↦ rw refused (accepted-All db g u prev rows held)
]

-- A page of members, in any order and with any repetitions, never takes a cached member away, and never
-- leaves a row whose version is lower than that of the row before the page.
pub upsert_group_members-Holds :
    (db : MemberDb) (rows : List GroupMemberRecord) (g u : Text) (prev : GroupMemberRecord)
    → get_member db g u ≡ some prev
    → Holds prev.sync_version (get_member (upsert_group_members db rows) g u)
unfolding upsert_group_members get_member
upsert_group_members-Holds db rows g u prev held =
    put_rows-Holds g u prev.sync_version (keep (is_accepted db) rows) db.group_members
      (accepted-All db g u prev rows held)
      (record { member = prev; held = held; newer = omega arith })

find_by-pruned :
    (g : Text) (user_ids : List Text) (h u : Text) (t : List GroupMemberRecord)
    → find_by
        (is_member h u)
        (keep (λ r. not (r.group_id == g && not (holds user_ids r.user_id))) t)
      ≡ (if (g == h) && not (holds user_ids u) then none else find_by (is_member h u) t)
find_by-pruned g user_ids h u [] = ground arith
find_by-pruned g user_ids h u (r ∷ rs) = elim (Bool-cases (is_member h u r)) [
  | inl here ↦
      let (group, user) = is_member-key h u r here in
      ground (
        arith,
        here,
        find_by-pruned g user_ids h u rs,
        group,
        user,
        ap (holds user_ids) user,
        text_beq_iff r.group_id g,
        text_beq_iff g h,
      )
  | inr other ↦ ground (arith, other, find_by-pruned g user_ids h u rs)
]

-- A full roster leaves of its group exactly the cached members that it lists, and the members of the
-- other groups as they were.
pub get_member-prune_group_members :
    (db : MemberDb) (g : Text) (user_ids : List Text) (h u : Text)
    → get_member (prune_group_members db g user_ids).1 h u
      ≡ (if (g == h) && not (holds user_ids u) then none else get_member db h u)
unfolding get_member prune_group_members is_member
get_member-prune_group_members db g user_ids h u = find_by-pruned g user_ids h u db.group_members
