-- ===== src/Maps.antt =====
-- A JavaScript Map from texts, as the list of its values in the order of insertion: the key of a value
-- is a function of it. Reading and deleting are those of a table.
use privchat_sdk_typescript.Prelude.{
  Bool-cases, inl, inr, Text, ◌≡◌, ◌≢◌, refl, Bool, Option, none, some, List, [], ◌∷◌, arith, ◌==◌,
  text_eq, text_beq_iff, if◌then◌else◌, All, keep, subst,
}
use privchat_sdk_typescript.Table.{get, All-keep}

-- The value that a filter keeps.
abbrev pub kept : {A : Type 0} → (A → Bool) → Option A → Option A
kept p none = none
kept p (some r) = if p r then some r else none

module _ {A : Type 0} (key : A → Text) where
  -- Map.prototype.set: a key that is there keeps its place.
  unfoldable pub set : A → List A → List A
  set row [] = row ∷ []
  set row (r ∷ rs) = if key r == key row then row ∷ rs else r ∷ set row rs

  unfoldable pub set_all : List A → List A → List A
  set_all [] t = t
  set_all (row ∷ rows) t = set_all rows (set row t)

  -- No two values under one key.
  abbrev pub IsDistinct : List A → Type 0
  IsDistinct [] = Unit {0}
  IsDistinct (r ∷ rs) = All (λ x. key x ≢ key r) rs × IsDistinct rs

  pub get-set :
      (k : Text) (row : A) (t : List A)
      → get key k (set row t) ≡ (if key row == k then some row else get key k t)
  unfolding get set
  get-set k row [] = refl
  get-set k row (r ∷ rs) = ground (
    arith,
    get-set k row rs,
    text_beq_iff (key r) (key row),
    text_beq_iff (key row) k,
    text_beq_iff (key r) k,
  )

  pub All-set : (P : A → Type 0) (row : A) (t : List A) → P row → All P t → All P (set row t)
  unfolding set
  All-set P row [] p a = (p, tt)
  All-set P row (r ∷ rs) p a = ground (arith, All-set P row rs p a.1)

  pub set-IsDistinct : (row : A) (t : List A) → IsDistinct t → IsDistinct (set row t)
  unfolding set
  set-IsDistinct row [] d = (tt, tt)
  set-IsDistinct row (r ∷ rs) d = elim (Bool-cases (key r == key row)) [
    | inl same ↦ rw same (All-key (key r) (key row) rs ((text_beq_iff _ _).0 same) d.0, d.1)
    | inr other ↦ rw other (
      All-set (λ x. key x ≢ key r) row rs (λ e. ground (arith, text_beq_iff (key r) (key row))) d.0,
      set-IsDistinct row rs d.1,
    )
  ]
    where
      All-key :
          (j k : Text) (xs : List A) → j ≡ k → All (λ x. key x ≢ j) xs → All (λ x. key x ≢ k) xs
      All-key j k xs e a = subst (λ h. All (λ x. key x ≢ h) xs) e a

  pub set_all-IsDistinct : (rows t : List A) → IsDistinct t → IsDistinct (set_all rows t)
  unfolding set_all
  set_all-IsDistinct [] t d = d
  set_all-IsDistinct (row ∷ rows) t d = set_all-IsDistinct rows (set row t) (set-IsDistinct row t d)

  pub keep-IsDistinct : (p : A → Bool) (t : List A) → IsDistinct t → IsDistinct (keep p t)
  keep-IsDistinct p [] d = tt
  keep-IsDistinct p (r ∷ rs) d =
      ground (arith, keep-IsDistinct p rs d.1, All-keep (λ x. key x ≢ key r) p rs d.0)

  pub get_absent : (k : Text) (t : List A) → All (λ x. key x ≢ k) t → get key k t ≡ none
  unfolding get
  get_absent k [] a = refl
  get_absent k (r ∷ rs) a = ground (arith, get_absent k rs a.1, text_beq_iff (key r) k)

  pub get-keep :
      (p : A → Bool) (k : Text) (t : List A)
      → IsDistinct t
      → get key k (keep p t) ≡ kept p (get key k t)
  unfolding get
  get-keep p k [] d = refl
  get-keep p k (r ∷ rs) d = elim (Bool-cases (key r == k)) [
    | inl same ↦
        let absent : get key k rs ≡ none =
          get_absent k rs (subst (λ h. All (λ x. key x ≢ h) rs) ((text_beq_iff _ _).0 same) d.0) in
        ground (arith, get-keep p k rs d.1, absent, same)
    | inr other ↦ ground (arith, get-keep p k rs d.1, other)
  ]
