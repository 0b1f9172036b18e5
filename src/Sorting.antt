-- ===== src/Sorting.antt =====
-- Array.prototype.sort with a comparator: the stable sort of a list.
use privchat_sdk_typescript.Prelude.{
  Bool-cases, inl, inr, Text, ◌≡◌, ◌≢◌, refl, Bool, true, false, some, List, [], ◌∷◌, arith, ◌==◌,
  text_eq, text_beq_iff, if◌then◌else◌, All, keep, sym, text_compare, Ordering,
}
use privchat_sdk_typescript.Table.{get}
use privchat_sdk_typescript.Maps.{IsDistinct}

-- What a comparator's answer says: the first does not come after the second.
abbrev pub not_after : Ordering → Bool
not_after Ordering.lt = true
not_after Ordering.eq = true
not_after Ordering.gt = false

-- A comparator orders: of two one does not come after the other, and not to come after is transitive.
pub record IsComparator {A : Type 0} (cmp : A → A → Ordering) : Type 0 where
  pub total : (x y : A) → not_after (cmp x y) ≡ false → not_after (cmp y x) ≡ true
  pub trans :
      (x y z : A)
      → not_after (cmp x y) ≡ true
      → not_after (cmp y z) ≡ true
      → not_after (cmp x z) ≡ true

module _ {A : Type 0} (cmp : A → A → Ordering) where
  unfoldable pub insert : A → List A → List A
  insert row [] = row ∷ []
  insert row (r ∷ rs) = if not_after (cmp row r) then row ∷ r ∷ rs else r ∷ insert row rs

  unfoldable pub sort : List A → List A
  unfolding insert
  sort [] = []
  sort (r ∷ rs) = insert r (sort rs)

  abbrev pub IsSorted : List A → Type 0
  IsSorted [] = Unit {0}
  IsSorted (r ∷ rs) = All (λ x. not_after (cmp r x) ≡ true) rs × IsSorted rs

  module _ (P : A → Type 0) where
    insert-All : (row : A) (xs : List A) → P row → All P xs → All P (insert row xs)
    unfolding insert
    insert-All row [] p a = (p, tt)
    insert-All row (x ∷ xs) p a = ground (arith, insert-All row xs p a.1)

    pub sort-All : (xs : List A) → All P xs → All P (sort xs)
    unfolding sort
    sort-All [] a = tt
    sort-All (x ∷ xs) a = insert-All x (sort xs) a.0 (sort-All xs a.1)

    insert-All_inv : (row : A) (xs : List A) → All P (insert row xs) → P row × All P xs
    unfolding insert
    insert-All_inv row [] a = a
    insert-All_inv row (x ∷ xs) a = ground (arith, insert-All_inv row xs)

    pub sort-All_inv : (xs : List A) → All P (sort xs) → All P xs
    unfolding sort
    sort-All_inv [] a = tt
    sort-All_inv (x ∷ xs) a =
        let (p, rest) = insert-All_inv x (sort xs) a in (p, sort-All_inv xs rest)

  module _ (c : IsComparator cmp) where
    All-trans :
        (x y : A) (xs : List A)
        → not_after (cmp x y) ≡ true
        → All (λ z. not_after (cmp y z) ≡ true) xs
        → All (λ z. not_after (cmp x z) ≡ true) xs
    All-trans x y [] h a = tt
    All-trans x y (z ∷ zs) h a = (c.trans x y z h a.0, All-trans x y zs h a.1)

    insert-IsSorted : (row : A) (xs : List A) → IsSorted xs → IsSorted (insert row xs)
    unfolding insert
    insert-IsSorted row [] s = (tt, tt)
    insert-IsSorted row (x ∷ xs) s = elim (Bool-cases (not_after (cmp row x))) [
      | inl le ↦ rw le ((le, All-trans row x xs le s.0), s)
      | inr gt ↦ rw gt (
        insert-All (λ z. not_after (cmp x z) ≡ true) row xs (c.total row x gt) s.0,
        insert-IsSorted row xs s.1,
      )
    ]

    pub sort-IsSorted : (xs : List A) → IsSorted (sort xs)
    unfolding sort
    sort-IsSorted [] = tt
    sort-IsSorted (x ∷ xs) = insert-IsSorted x (sort xs) (sort-IsSorted xs)

  module _ (p : A → Bool) where
    All-keep_of : (P : A → Type 0) (xs : List A) → All P xs → All P (keep p xs)
    All-keep_of P [] a = tt
    All-keep_of P (x ∷ xs) a = ground (arith, All-keep_of P xs a.1)

    pub keep-IsSorted : (xs : List A) → IsSorted xs → IsSorted (keep p xs)
    keep-IsSorted [] s = tt
    keep-IsSorted (x ∷ xs) s =
        ground (arith, keep-IsSorted xs s.1, All-keep_of (λ z. not_after (cmp x z) ≡ true) xs s.0)

  -- Sorting changes no key and no value under a key.
  module _ (key : A → Text) where
    insert-IsDistinct :
        (row : A) (xs : List A)
        → All (λ x. key x ≢ key row) xs
        → IsDistinct key xs
        → IsDistinct key (insert row xs)
    unfolding insert
    insert-IsDistinct row [] a d = (tt, tt)
    insert-IsDistinct row (x ∷ xs) a d = elim (Bool-cases (not_after (cmp row x))) [
      | inl le ↦ rw le (a, d)
      | inr gt ↦ rw gt (
        insert-All (λ z. key z ≢ key x) row xs (λ e. a.0 (sym e)) d.0,
        insert-IsDistinct row xs a.1 d.1,
      )
    ]

    pub sort-IsDistinct : (xs : List A) → IsDistinct key xs → IsDistinct key (sort xs)
    unfolding sort
    sort-IsDistinct [] d = tt
    sort-IsDistinct (x ∷ xs) d =
        insert-IsDistinct x (sort xs) (sort-All (λ z. key z ≢ key x) xs d.0)
          (sort-IsDistinct xs d.1)

    get-insert :
        (k : Text) (row : A) (xs : List A)
        → All (λ x. key x ≢ key row) xs
        → get key k (insert row xs) ≡ (if key row == k then some row else get key k xs)
    unfolding insert get
    get-insert k row [] a = refl
    get-insert k row (x ∷ xs) a =
        ground (arith, get-insert k row xs a.1, text_beq_iff (key row) k, text_beq_iff (key x) k)

    pub get-sort : (k : Text) (xs : List A) → IsDistinct key xs → get key k (sort xs) ≡ get key k xs
    unfolding sort get
    get-sort k [] d = refl
    get-sort k (x ∷ xs) d =
        ground (
          arith,
          get-insert k x (sort xs) (sort-All (λ z. key z ≢ key x) xs d.0),
          get-sort k xs d.1,
        )

-- A comparator that compares texts read off the values.
text_total :
    (s t : Text) → not_after (text_compare s t) ≡ false → not_after (text_compare t s) ≡ true
unfolding text_compare
text_total [] t h = ground arith
text_total (x ∷ xs) [] h = ground arith
text_total (x ∷ xs) (y ∷ ys) h = ground (arith, text_total xs ys)

text_trans :
    (s t u : Text)
    → not_after (text_compare s t) ≡ true
    → not_after (text_compare t u) ≡ true
    → not_after (text_compare s u) ≡ true
unfolding text_compare
text_trans [] t [] h g = refl
text_trans [] t (z ∷ zs) h g = refl
text_trans (x ∷ xs) [] u h g = absurd (ground arith)
text_trans (x ∷ xs) (y ∷ ys) [] h g = absurd (ground arith)
text_trans (x ∷ xs) (y ∷ ys) (z ∷ zs) h g = ground (arith, text_trans xs ys zs)

pub by_text-IsComparator :
    {A : Type 0} (cmp : A → A → Ordering) (key : A → Text)
    → ((x y : A) → cmp x y ≡ text_compare (key x) (key y))
    → IsComparator cmp
by_text-IsComparator cmp key e = record {
  total = λ x y h. ground (arith, e x y, e y x, text_total (key x) (key y));
  trans = λ x y z h g. ground (arith, e x y, e y z, e x z, text_trans (key x) (key y) (key z));
}
