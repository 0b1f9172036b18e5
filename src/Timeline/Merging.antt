-- ===== src/Timeline/Merging.antt =====
-- src/cache/message-store.ts: what merging rows by their ids keeps.
use privchat_sdk_typescript.Prelude.{
  ◌≡◌, ◌≢◌, refl, sym, ◌∙◌, Text, Option, none, some, true, false, List, [], ◌∷◌, ◌++◌, arith, inl,
  inr, Bool-cases, text_eq, text_beq_iff, All, keep, option_beq_iff, nat_eq, All-append,
}
use privchat_sdk_typescript.Table.{get, All-keep}
use privchat_sdk_typescript.Maps.{
  IsDistinct, keep-IsDistinct, set-IsDistinct, All-set, set_all, set,
}
use privchat_sdk_typescript.Cache.{MessageRecord}
use privchat_sdk_typescript.Cache.Order.{has_pts_gap, pending_group}
use privchat_sdk_typescript.Timeline.{
  message_id_of, absorb_duplicates, survives, merge_rows, is_changed, message_equals, is_other,
}
use privchat_sdk_typescript.Timeline.Sorted.{HasNoGap}

pub All-set_all :
    (P : MessageRecord → Type 0) (rows t : List MessageRecord)
    → All P rows
    → All P t
    → All P (set_all message_id_of rows t)
unfolding set_all
All-set_all P [] t a b = b
All-set_all P (row ∷ rows) t a b =
    All-set_all P rows (set message_id_of row t) a.1 (All-set message_id_of P row t a.0 b)

pub IsDistinct-last :
    (next : MessageRecord) (ms : List MessageRecord)
    → IsDistinct message_id_of ms
    → All (λ m. m.id ≢ next.id) ms
    → IsDistinct message_id_of (ms ++ next ∷ [])
IsDistinct-last next [] d a = (tt, tt)
IsDistinct-last next (m ∷ ms) d a = (
  All-append (λ x. x.id ≢ m.id) ms (next ∷ []) d.0 ((λ e. a.0 (sym e)), tt),
  IsDistinct-last next ms d.1 a.1,
)

pub others :
    (replaced : Text) (next : MessageRecord) (ms : List MessageRecord)
    → All (λ m. m.id ≢ next.id) (keep (is_other replaced next) ms)
unfolding is_other
others replaced next [] = tt
others replaced next (m ∷ ms) = ground (arith, others replaced next ms, text_beq_iff m.id next.id)

-- Merging keeps the ids apart.
pub merge_rows-IsDistinct :
    (rs rows : List MessageRecord)
    → IsDistinct message_id_of rows
    → IsDistinct message_id_of (merge_rows rows rs).rows
unfolding merge_rows
merge_rows-IsDistinct [] rows d = d
merge_rows-IsDistinct (r ∷ rs) rows d = ground (
  arith,
  merge_rows-IsDistinct rs (set message_id_of r rows) (set-IsDistinct message_id_of r rows d),
)

pub merge_rows-All :
    (P : MessageRecord → Type 0) (rs rows : List MessageRecord)
    → All P rs
    → All P rows
    → All P (merge_rows rows rs).rows
unfolding merge_rows
merge_rows-All P [] rows a b = b
merge_rows-All P (r ∷ rs) rows a b = ground (
  arith,
  merge_rows-All P rs (set message_id_of r rows) a.1 (All-set message_id_of P r rows a.0 b),
)

has_pts_gap-message_equals :
    (a b : MessageRecord) → message_equals a b ≡ true → has_pts_gap a ≡ has_pts_gap b
unfolding message_equals has_pts_gap pending_group
has_pts_gap-message_equals a b e =
    ground
      (arith, option_beq_iff a.server_message_id b.server_message_id, option_beq_iff a.pts b.pts)

All-get :
    (P : MessageRecord → Type 0) (k : Text) (t : List MessageRecord) (m : MessageRecord)
    → All P t
    → get message_id_of k t ≡ some m
    → P m
unfolding get
All-get P k [] m a h = cc
All-get P k (r ∷ rs) m a h = ground (arith, All-get P k rs m a.1)

pub not_changed :
    (held : Option MessageRecord) (r : MessageRecord)
    → is_changed held r ≡ false
    → (prev : MessageRecord) × (held ≡ some prev) × (message_equals prev r ≡ true)
unfolding is_changed
not_changed none r h = cc
not_changed (some prev) r h = (prev, refl, ground arith)

pub merge_rows-upserted :
    (r : MessageRecord) (rs rows : List MessageRecord)
    → is_changed (get message_id_of r.id rows) r ≡ true
    → (merge_rows rows (r ∷ rs)).upserted ≡ r ∷ (merge_rows (set message_id_of r rows) rs).upserted
unfolding merge_rows
merge_rows-upserted r rs rows h = rw (merge_rows, h) refl

pub merge_rows-same :
    (r : MessageRecord) (rs rows : List MessageRecord)
    → is_changed (get message_id_of r.id rows) r ≡ false
    → (merge_rows rows (r ∷ rs)).upserted ≡ (merge_rows (set message_id_of r rows) rs).upserted
unfolding merge_rows
merge_rows-same r rs rows h = rw (merge_rows, h) refl

-- Where nothing changes, the records have no gap either.
pub merge_rows-whole :
    (rs rows : List MessageRecord)
    → All HasNoGap rows
    → (merge_rows rows rs).upserted ≡ []
    → All HasNoGap rs
unfolding merge_rows is_changed
merge_rows-whole [] rows a h = tt
merge_rows-whole (r ∷ rs) rows a h =
    elim (Bool-cases (is_changed (get message_id_of r.id rows) r)) [
      | inl changed ↦ absurd (ground (arith, changed, merge_rows-upserted r rs rows changed))
      | inr kept ↦
          let (prev, held, same) = not_changed (get message_id_of r.id rows) r kept in
          let whole : HasNoGap r =
            sym (has_pts_gap-message_equals prev r same) ∙ All-get HasNoGap r.id rows prev a held in
          (
            whole,
            merge_rows-whole rs (set message_id_of r rows)
                (All-set message_id_of HasNoGap r rows whole a)
                (sym (merge_rows-same r rs rows kept) ∙ h),
          )
    ]

pub absorb_duplicates-IsDistinct :
    (rows rs : List MessageRecord)
    → IsDistinct message_id_of rows
    → IsDistinct message_id_of (absorb_duplicates rows rs)
unfolding absorb_duplicates
absorb_duplicates-IsDistinct rows rs d = keep-IsDistinct message_id_of (survives rs) rows d

pub absorb_duplicates-All :
    (P : MessageRecord → Type 0) (rows rs : List MessageRecord)
    → All P rows
    → All P (absorb_duplicates rows rs)
unfolding absorb_duplicates
absorb_duplicates-All P rows rs a = All-keep P (survives rs) rows a
