-- ===== src/Table.antt =====
-- A Dexie table, as the sources under src/cache use it: rows under a primary key, kept in the order of
-- the keys. A query by an index reads the rows in the order of the index, rows that tie in that of
-- their keys.
use mathlib.Core.List.{Perm, filter}
use mathlib.Core.List.Perm
use privchat_sdk_typescript.Prelude.{
  Bool-cases, leb→le, inl, inr, ℕ, Text, ◌≡◌, refl, Bool, true, false, Option, none, some, List, [],
  ◌∷◌, arith, ◌==◌, text_eq, text_beq_iff, text_compare, text_compare_eq, Ordering, if◌then◌else◌,
  leb, length, All, ◌≤◌, keep,
}

module _ {A : Type 0} (key : A → Text) where
  unfoldable pub get : Text → List A → Option A
  get k [] = none
  get k (r ∷ rs) = if key r == k then some r else get k rs

  -- A row with the same key is replaced.
  unfoldable pub put : A → List A → List A
  put row [] = row ∷ []
  put row (r ∷ rs) = elim (text_compare (key row) (key r)) [
    | Ordering.lt ↦ row ∷ r ∷ rs
    | Ordering.eq ↦ row ∷ rs
    | Ordering.gt ↦ r ∷ put row rs
  ]

  unfoldable pub delete : Text → List A → List A
  delete k [] = []
  delete k (r ∷ rs) = if key r == k then delete k rs else r ∷ delete k rs

  pub get-put :
      (k : Text) (row : A) (t : List A)
      → get k (put row t) ≡ (if key row == k then some row else get k t)
  unfolding get put
  get-put k row [] = refl
  get-put k row (r ∷ rs) = ground (
    arith,
    get-put k row rs,
    text_compare_eq (key row) (key r),
    text_beq_iff (key row) k,
    text_beq_iff (key r) k,
  )

  pub get-delete :
      (j k : Text) (t : List A) → get j (delete k t) ≡ (if k == j then none else get j t)
  unfolding get delete
  get-delete j k [] = ground arith
  get-delete j k (r ∷ rs) =
      ground
        (arith, get-delete j k rs, text_beq_iff (key r) k, text_beq_iff (key r) j, text_beq_iff k j)

  pub get_key : (k : Text) (t : List A) (r : A) → get k t ≡ some r → key r ≡ k
  unfolding get
  get_key k [] r h = cc
  get_key k (x ∷ t) r h = ground (arith, get_key k t r, text_beq_iff (key x) k)

  module _ (P : A → Type 0) where
    pub All-put : (row : A) (t : List A) → P row → All P t → All P (put row t)
    unfolding put
    All-put row [] p a = (p, tt)
    All-put row (r ∷ rs) p a = ground (arith, All-put row rs p a.1)

    pub All-delete : (k : Text) (t : List A) → All P t → All P (delete k t)
    unfolding delete
    All-delete k [] a = tt
    All-delete k (r ∷ rs) a = ground (arith, All-delete k rs a.1)

  module _ (p : A → Bool) where
    -- A row that the filter drops adds nothing, whichever row it replaces.
    pub length-keep-put :
        (row : A) (t : List A) → p row ≡ false → length (keep p (put row t)) ≤ length (keep p t)
    unfolding put
    length-keep-put row [] h = ground arith
    length-keep-put row (r ∷ rs) h = ground (arith, length-keep-put row rs)

    pub length-keep-delete :
        (k : Text) (t : List A) → length (keep p (delete k t)) ≤ length (keep p t)
    unfolding delete
    length-keep-delete k [] = omega arith
    length-keep-delete k (r ∷ rs) = ground (arith, length-keep-delete k rs)

  pub ruleset table_laws = (get-put, get-delete)

module _ {A : Type 0} (measure : A → ℕ) where
  insert_by : A → List A → List A
  insert_by row [] = row ∷ []
  insert_by row (r ∷ rs) =
      if leb (measure row) (measure r) then row ∷ r ∷ rs else r ∷ insert_by row rs

  -- Array.prototype.sort by a number, which is stable; also the order in which an index is read.
  unfoldable pub sort_by : List A → List A
  unfolding insert_by
  sort_by [] = []
  sort_by (r ∷ rs) = insert_by r (sort_by rs)

  abbrev pub IsSorted : List A → Type 0
  IsSorted [] = Unit {0}
  IsSorted (r ∷ rs) = All (λ x. measure r ≤ measure x) rs × IsSorted rs

  All-mono :
      (m n : ℕ) (xs : List A) → m ≤ n → All (λ x. n ≤ measure x) xs → All (λ x. m ≤ measure x) xs
  All-mono m n [] h a = tt
  All-mono m n (x ∷ xs) h a = (omega arith, All-mono m n xs h a.1)

  insert_by-All :
      (P : A → Type 0) (row : A) (xs : List A) → P row → All P xs → All P (insert_by row xs)
  unfolding insert_by
  insert_by-All P row [] p a = (p, tt)
  insert_by-All P row (x ∷ xs) p a = elim (Bool-cases (leb (measure row) (measure x))) [
    | inl le ↦ rw le (p, a)
    | inr gt ↦ rw gt (a.0, insert_by-All P row xs p a.1)
  ]

  insert_by-IsSorted : (row : A) (xs : List A) → IsSorted xs → IsSorted (insert_by row xs)
  unfolding insert_by
  insert_by-IsSorted row [] s = (tt, tt)
  insert_by-IsSorted row (x ∷ xs) s = elim (Bool-cases (leb (measure row) (measure x))) [
    | inl le ↦ rw le ((leb→le _ _ le, All-mono (measure row) (measure x) xs (leb→le _ _ le) s.0), s)
    | inr gt ↦ rw gt (
      insert_by-All (λ y. measure x ≤ measure y) row xs (ground arith) s.0,
      insert_by-IsSorted row xs s.1,
    )
  ]

  pub sort_by-IsSorted : (xs : List A) → IsSorted (sort_by xs)
  unfolding sort_by
  sort_by-IsSorted [] = tt
  sort_by-IsSorted (x ∷ xs) = insert_by-IsSorted x (sort_by xs) (sort_by-IsSorted xs)

  insert_by-perm : (row : A) (xs : List A) → Perm (insert_by row xs) (row ∷ xs)
  unfolding insert_by
  insert_by-perm row [] = Perm.refl _
  insert_by-perm row (x ∷ xs) = elim (Bool-cases (leb (measure row) (measure x))) [
    | inl le ↦ rw le (Perm.refl _)
    | inr gt ↦ rw gt (Perm.trans (Perm.cons x (insert_by-perm row xs)) (Perm.swap row x xs))
  ]

  pub sort_by-perm : (xs : List A) → Perm (sort_by xs) xs
  unfolding sort_by
  sort_by-perm [] = Perm.refl _
  sort_by-perm (x ∷ xs) = Perm.trans (insert_by-perm x (sort_by xs)) (Perm.cons x (sort_by-perm xs))

true_dec : (b : Bool) → Dec (b ≡ true)
true_dec true = yes refl
true_dec false = no (λ e. cc)

module _ {A : Type 0} (p : A → Bool) where
  keep-filter : (xs : List A) → keep p xs ≡ filter (λ x. true_dec (p x)) xs
  unfolding true_dec
  keep-filter [] = refl
  keep-filter (x ∷ xs) = ground (arith, keep-filter xs)

  -- Filtering does not depend on the order.
  pub keep-perm : {xs ys : List A} → Perm xs ys → Perm (keep p xs) (keep p ys)
  keep-perm {xs} {ys} h = rw (keep-filter xs, keep-filter ys) (Perm.filter (λ x. true_dec (p x)) h)

module _ {A : Type 0} (P : A → Type 0) where
  pub All-keep : (p : A → Bool) (xs : List A) → All P xs → All P (keep p xs)
  All-keep p [] a = tt
  All-keep p (x ∷ xs) a = ground (arith, All-keep p xs a.1)

module _ {A : Type 0} where
  pub length-keep-keep :
      (p q : A → Bool) (xs : List A) → length (keep p (keep q xs)) ≤ length (keep p xs)
  length-keep-keep p q [] = omega arith
  length-keep-keep p q (x ∷ xs) = ground (arith, length-keep-keep p q xs)
