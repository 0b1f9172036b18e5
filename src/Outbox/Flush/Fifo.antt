-- ===== src/Outbox/Flush/Fifo.antt =====
-- src/outbox-engine.ts: a flush keeps the rows of each channel in their order.
use mathlib.Core.List.{Perm, perm_middle, append-nil, append_assoc}
use mathlib.Core.List.Perm
use privchat_sdk_typescript.Prelude.{
  ◌≡◌, refl, sym, ◌∙◌, Text, Bool, List, [], ◌∷◌, ◌++◌, ◌==◌, text_eq, text_beq_iff, keep, arith,
  Bool-cases, inl, inr, if◌then◌else◌,
}
use privchat_sdk_typescript.Cache.{OutboxEntry}
use privchat_sdk_typescript.Outbox.Flush.{ChannelRows, add_row, group_by_channel}

abbrev pub of_channel : Text → OutboxEntry → Bool
of_channel k e = e.channel_id == k

-- The rows in the order in which the groups are worked off.
unfoldable pub work_order : List ChannelRows → List OutboxEntry
work_order [] = []
work_order (group ∷ groups) = group.rows ++ work_order groups

-- The rows of the group of channel `k`.
unfoldable pub rows_of : Text → List ChannelRows → List OutboxEntry
rows_of k [] = []
rows_of k (group ∷ groups) = if group.key == k then group.rows else rows_of k groups

rows_of-add_row :
    (k : Text) (row : OutboxEntry) (groups : List ChannelRows)
    → rows_of k (add_row row groups)
      ≡ (if row.channel_id == k then rows_of k groups ++ row ∷ [] else rows_of k groups)
unfolding rows_of add_row
rows_of-add_row k row [] = ground arith
rows_of-add_row k row (group ∷ groups) = ground (
  arith,
  rows_of-add_row k row groups,
  text_beq_iff group.key row.channel_id,
  text_beq_iff group.key k,
  text_beq_iff row.channel_id k,
)

rows_of-group_by_channel :
    (k : Text) (groups : List ChannelRows) (rows : List OutboxEntry)
    → rows_of k (group_by_channel groups rows) ≡ rows_of k groups ++ keep (of_channel k) rows
unfolding group_by_channel
rows_of-group_by_channel k groups [] = sym (append-nil (rows_of k groups))
rows_of-group_by_channel k groups (row ∷ rows) = elim (Bool-cases (row.channel_id == k)) [
  | inl this ↦
      rows_of-group_by_channel k (add_row row groups) rows
      ∙ rw (rows_of-add_row k row groups, this)
          (append_assoc (rows_of k groups) (row ∷ []) (keep (of_channel k) rows))
  | inr other ↦
      rows_of-group_by_channel k (add_row row groups) rows
      ∙ rw (rows_of-add_row k row groups, other) refl
]

work_order-add_row :
    (row : OutboxEntry) (groups : List ChannelRows)
    → Perm (work_order (add_row row groups)) (row ∷ work_order groups)
unfolding work_order add_row
work_order-add_row row [] = Perm.refl _
work_order-add_row row (group ∷ groups) = elim (Bool-cases (group.key == row.channel_id)) [
  | inl this ↦ rw this (
      rw (append_assoc group.rows (row ∷ []) (work_order groups))
        (perm_middle group.rows (work_order groups)))
  | inr other ↦ rw other (
      Perm.trans (Perm.append_left group.rows (work_order-add_row row groups))
        (perm_middle group.rows (work_order groups)))
]

work_order-group_by_channel :
    (groups : List ChannelRows) (rows : List OutboxEntry)
    → Perm (work_order (group_by_channel groups rows)) (work_order groups ++ rows)
unfolding group_by_channel
work_order-group_by_channel groups [] = rw (append-nil (work_order groups)) (Perm.refl _)
work_order-group_by_channel groups (row ∷ rows) =
    Perm.trans (work_order-group_by_channel (add_row row groups) rows) (
      Perm.trans (Perm.append_right rows (work_order-add_row row groups))
        (Perm.symm (perm_middle (work_order groups) rows)))

-- Grouping the due rows by channel loses and repeats none of them, and each channel's group holds
-- exactly the rows of that channel in the order in which they were due.
pub group_by_channel-fifo :
    (rows : List OutboxEntry) (k : Text)
    → Perm (work_order (group_by_channel [] rows)) rows
      × (rows_of k (group_by_channel [] rows) ≡ keep (of_channel k) rows)
unfolding work_order rows_of
group_by_channel-fifo rows k =
    (work_order-group_by_channel [] rows, rows_of-group_by_channel k [] rows)
