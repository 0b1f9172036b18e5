-- ===== src/Cache/Order/Laws.antt =====
-- src/cache/types.ts: what the display order is.
use mathlib.Core.Option
use privchat_sdk_typescript.Prelude.{
  ℕ, ◌≤◌, ◌-◌, ◌≡◌, refl, sym, ◌∙◌, Text, Option, none, some, arith, length, replicate,
  length-append, length-replicate, All-append, All-replicate, ◌++◌, ◌∷◌, inl, inr, Bool-cases,
  IsDecimal, IsDigit, value, value-zeros, value_from, text_compare, text_compare-append,
  text_compare-value_from, then_by, compare, Ordering, to_decimal, leb,
}
use privchat_sdk_typescript.Cache.{MessageRecord, ChannelOrderMode, by_pts, by_server_id}
use privchat_sdk_typescript.Cache.Order.{
  encode_sort_key, pending_group, is_absent, order_field, display_sort_key, compare_display_order,
}

-- What a field of the sort key has to be: absent, or a numeral of at most twenty digits.
abbrev pub IsKey : Option Text → Type 0
IsKey none = Unit {0}
IsKey (some s) = IsDecimal s × (length s ≤ 20)

-- The number that a field of the sort key stands for.
abbrev pub key_value : Option Text → ℕ
key_value none = 0
key_value (some s) = value s

encode_sort_key-width : (k : Option Text) → IsKey k → length (encode_sort_key k) ≡ 20
unfolding encode_sort_key
encode_sort_key-width none h = refl
encode_sort_key-width (some s) h = ground (
  arith,
  length-append (replicate (20 - length s) 48) s,
  length-replicate {A = ℕ} (20 - length s) 48,
)

encode_sort_key-IsDecimal : (k : Option Text) → IsKey k → IsDecimal (encode_sort_key k)
unfolding encode_sort_key
encode_sort_key-IsDecimal none h = omega arith
encode_sort_key-IsDecimal (some s) h = elim (Bool-cases (leb 20 (length s))) [
  | inl wide ↦ rw wide h.0
  | inr narrow ↦
      rw narrow
        (All-append IsDigit _ s (All-replicate IsDigit (20 - length s) 48 (omega arith)) h.0)
]

encode_sort_key-value : (k : Option Text) → IsKey k → value (encode_sort_key k) ≡ key_value k
unfolding encode_sort_key
encode_sort_key-value none h = unfold value_from in refl
encode_sort_key-value (some s) h = ground (arith, value-zeros (20 - length s) s)

-- Two encoded fields compare as the numbers that they stand for.
pub text_compare-encode_sort_key :
    (j k : Option Text)
    → IsKey j
    → IsKey k
    → text_compare (encode_sort_key j) (encode_sort_key k) ≡ compare (key_value j) (key_value k)
text_compare-encode_sort_key j k hj hk =
    text_compare-value_from (encode_sort_key j) (encode_sort_key k) 0
      (encode_sort_key-width j hj ∙ sym (encode_sort_key-width k hk))
      (encode_sort_key-IsDecimal j hj) (encode_sort_key-IsDecimal k hk)
    ∙ cc (encode_sort_key-value j hj, encode_sort_key-value k hk)

-- The numbers that order a row: its identifiers are numerals of at most twenty digits.
pub record HasKeys (r : MessageRecord) : Type 0 where
  pub server_message_id : IsKey r.server_message_id
  pub pts : IsKey r.pts
  pub local_order_seq : IsKey (Option.map to_decimal r.local_order_seq)

order_field-IsKey :
    (mode : ChannelOrderMode) (r : MessageRecord) → HasKeys r → IsKey (order_field mode r)
order_field-IsKey by_pts r h = h.pts
order_field-IsKey by_server_id r h = h.server_message_id

pending_group-compare :
    (a b : MessageRecord)
    → text_compare (to_decimal (pending_group a)) (to_decimal (pending_group b))
      ≡ compare (pending_group a) (pending_group b)
unfolding pending_group
pending_group-compare a b = elim (Bool-cases (is_absent a.server_message_id)) [
  | inl pa ↦ elim (Bool-cases (is_absent b.server_message_id)) [
    | inl pb ↦ rw (pa, pb) (unfold to_decimal text_compare in refl)
    | inr cb ↦ rw (pa, cb) (unfold to_decimal text_compare in refl)
  ]
  | inr ca ↦ elim (Bool-cases (is_absent b.server_message_id)) [
    | inl pb ↦ rw (ca, pb) (unfold to_decimal text_compare in refl)
    | inr cb ↦ rw (ca, cb) (unfold to_decimal text_compare in refl)
  ]
]

length-pending_group : (a : MessageRecord) → length (to_decimal (pending_group a)) ≡ 1
unfolding pending_group
length-pending_group a = elim (Bool-cases (is_absent a.server_message_id)) [
  | inl p ↦ rw p (unfold to_decimal in refl)
  | inr c ↦ rw c (unfold to_decimal in refl)
]

-- The separator is one code unit, the same in both texts.
text_compare-separator :
    (s t s' t' : Text)
    → length s ≡ length t
    → text_compare (s ++ b'|' ∷ s') (t ++ b'|' ∷ t')
      ≡ then_by (text_compare s t) (text_compare s' t')
text_compare-separator s t s' t' e =
    text_compare-append s t (b'|' ∷ s') (b'|' ∷ t') e ∙ unfold text_compare in refl

-- The four numbers of a row in the order in which they decide: pending or not, pts or server
-- identifier, server identifier, local sequence.
abbrev pub compare_tuple : ChannelOrderMode → MessageRecord → MessageRecord → Ordering
compare_tuple mode a b = then_by (compare (pending_group a) (pending_group b)) (
    then_by (compare (key_value (order_field mode a)) (key_value (order_field mode b))) (
      then_by (compare (key_value a.server_message_id) (key_value b.server_message_id)) (
        compare (key_value (Option.map to_decimal a.local_order_seq))
          (key_value (Option.map to_decimal b.local_order_seq)))))

pub compare_display_order-text :
    (a b : MessageRecord) (mode : ChannelOrderMode)
    → compare_display_order a b mode
      ≡ text_compare (display_sort_key a mode) (display_sort_key b mode)
unfolding compare_display_order
compare_display_order-text a b mode = ground arith

encoded-width :
    (j k : Option Text)
    → IsKey j
    → IsKey k
    → length (encode_sort_key j) ≡ length (encode_sort_key k)
encoded-width j k hj hk = encode_sort_key-width j hj ∙ sym (encode_sort_key-width k hk)

-- Where the identifiers are numerals of at most twenty digits, comparing two rows by their sort keys
-- is comparing the four numbers one after the other.
pub compare_display_order-tuple :
    (a b : MessageRecord) (mode : ChannelOrderMode)
    → HasKeys a
    → HasKeys b
    → compare_display_order a b mode ≡ compare_tuple mode a b
unfolding display_sort_key
compare_display_order-tuple a b mode ha hb =
    let oa = order_field-IsKey mode a ha in
    let ob = order_field-IsKey mode b hb in
    rw (
      compare_display_order-text,
      text_compare-separator _ _ _ _ (length-pending_group a ∙ sym (length-pending_group b)),
      text_compare-separator _ _ _ _ (encoded-width _ _ oa ob),
      text_compare-separator _ _ _ _ (encoded-width _ _ ha.server_message_id hb.server_message_id),
      pending_group-compare,
      text_compare-encode_sort_key _ _ oa ob,
      text_compare-encode_sort_key _ _ ha.server_message_id hb.server_message_id,
      text_compare-encode_sort_key _ _ ha.local_order_seq hb.local_order_seq,
    )
