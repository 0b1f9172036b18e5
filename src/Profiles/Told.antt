-- ===== src/Profiles/Told.antt =====
-- src/cache/profile-store.ts: the store of profiles is a map, and its listeners are told of every change.
use privchat_sdk_typescript.Prelude.{
  ℕ, Text, ◌≡◌, ◌≢◌, sym, refl, ap, ◌∙◌, ◌||◌, inl, inr, ◌⊎◌, Bool-cases, Option, some, none, Bool,
  true, false, List, [], ◌∷◌, ◌==◌, text_eq, nat_eq, some_by, keep, map, ◌&&◌, ◌++◌, arith, not,
  if◌then◌else◌,
}
use privchat_sdk_typescript.Table.{get, delete, get-delete, All-delete}
use privchat_sdk_typescript.Maps.{
  set, set_all, IsDistinct, get-set, set-IsDistinct, set_all-IsDistinct,
}
use privchat_sdk_typescript.Profiles.{
  ProfileStore, notify, add, find, has, is_empty, upsert, upsert_many, delete_ids, apply_delta,
  remove, observe, unobserve, clear, Call, upserts, upserts_many, applies_delta, removes, observes,
  unobserves, clears, apply,
}

module _ {T : Type 0} (id_of : T → Text) where
  -- The last of the rows with a key, or else what was there.
  abbrev pub written : Text → List T → Option T → Option T
  written k [] before = before
  written k (row ∷ rows) before = written k rows (if id_of row == k then some row else before)

  abbrev pub erased : Text → List Text → Option T → Option T
  erased k [] before = before
  erased k (id ∷ ids) before = erased k ids (if id == k then none else before)

  -- What a call makes of the record under a key.
  abbrev pub expected : Call T → Text → Option T → Option T
  expected (upserts row) k before = if id_of row == k then some row else before
  expected (upserts_many rows) k before = written k rows before
  expected (applies_delta rows ids) k before = erased k ids (written k rows before)
  expected (removes id) k before = if id == k then none else before
  expected clears k before = none
  expected _ k before = before

  get-set_all :
      (k : Text) (rows t : List T)
      → get id_of k (set_all id_of rows t) ≡ written k rows (get id_of k t)
  unfolding set_all
  get-set_all k [] t = refl
  get-set_all k (row ∷ rows) t =
      get-set_all k rows (set id_of row t) ∙ ap (written k rows) (get-set id_of k row t)

  get-delete_ids :
      (k : Text) (mutated : Bool) (t : List T) (ids : List Text)
      → get id_of k (delete_ids id_of mutated t ids).1 ≡ erased k ids (get id_of k t)
  unfolding delete_ids
  get-delete_ids k mutated t [] = refl
  get-delete_ids k mutated t (id ∷ ids) =
      get-delete_ids k (mutated || has id_of t id) (delete id_of id t) ids
      ∙ ap (erased k ids) (get-delete id_of k id t)

  delete-IsDistinct :
      (k : Text) (t : List T) → IsDistinct id_of t → IsDistinct id_of (delete id_of k t)
  unfolding delete
  delete-IsDistinct k [] d = tt
  delete-IsDistinct k (r ∷ rs) d =
      ground (arith, delete-IsDistinct k rs d.1, All-delete id_of (λ x. id_of x ≢ id_of r) k rs d.0)

  delete_ids-IsDistinct :
      (mutated : Bool) (t : List T) (ids : List Text)
      → IsDistinct id_of t
      → IsDistinct id_of (delete_ids id_of mutated t ids).1
  unfolding delete_ids
  delete_ids-IsDistinct mutated t [] d = d
  delete_ids-IsDistinct mutated t (id ∷ ids) d =
      delete_ids-IsDistinct (mutated || has id_of t id) (delete id_of id t) ids
        (delete-IsDistinct id t d)

  -- A key that is not there is deleted without a change.
  delete_absent : (k : Text) (t : List T) → has id_of t k ≡ false → delete id_of k t ≡ t
  unfolding delete get
  delete_absent k [] h = refl
  delete_absent k (r ∷ rs) h = elim (Bool-cases (id_of r == k)) [
    | inl same ↦ ground (arith, same)
    | inr other ↦ rw other (ap (λ xs. r ∷ xs) (delete_absent k rs (ground (arith, other))))
  ]

  -- A delta that is quiet has changed nothing.
  delete_ids_quiet :
      (mutated : Bool) (t : List T) (ids : List Text)
      → (delete_ids id_of mutated t ids).0 ≡ false
      → (mutated ≡ false) × ((delete_ids id_of mutated t ids).1 ≡ t)
  unfolding delete_ids
  delete_ids_quiet mutated t [] h = (h, refl)
  delete_ids_quiet mutated t (id ∷ ids) h =
      let rest = delete_ids_quiet (mutated || has id_of t id) (delete id_of id t) ids h in
      elim (Bool-cases (has id_of t id)) [
        | inl there ↦ ground (arith, there, rest.0)
        | inr absent ↦ (ground (arith, rest.0, absent), rest.1 ∙ delete_absent id t absent)
      ]

  -- Whether the listener is registered.
  abbrev pub hears : ℕ → List ℕ → Bool
  hears j listeners = some_by (λ cb. cb == j) listeners

  -- What a call makes of the listeners, whatever the order of their registration: a new one is told
  -- last, and one that is taken away is the only one that goes.
  abbrev pub Listens : Call T → List ℕ → List ℕ → Type 0
  Listens (observes cb) before after =
      after ≡ (if hears cb before then before else before ++ cb ∷ [])
  Listens (unobserves cb) before after = (j : ℕ) → hears j after ≡ (not (cb == j) && hears j before)
  Listens _ before after = after ≡ before

  -- The store after a call beside the store before it, with what the listeners were told.
  pub record Applied (s : ProfileStore T) (call : Call T) (r : ProfileStore T × List (ℕ × List T))
      : Type 0 where
    pub view : (k : Text) → find id_of r.0 k ≡ expected call k (find id_of s k)
    pub distinct : IsDistinct id_of r.0.records
    pub listens : Listens call s.listeners r.0.listeners
    pub told :
        ((r.1 ≡ []) × (r.0.records ≡ s.records))
        ⊎ (r.1 ≡ map (λ cb. (cb, r.0.records)) r.0.listeners)

  set_none : (rows t : List T) → not (is_empty rows) ≡ false → set_all id_of rows t ≡ t
  unfolding set_all
  set_none [] t h = refl
  set_none (row ∷ rows) t h = ground arith

  add-Listens :
      (cb : ℕ) (before : List ℕ)
      → add cb before ≡ (if hears cb before then before else before ++ cb ∷ [])
  add-Listens cb [] = refl
  add-Listens cb (other ∷ others) = ground (arith, add-Listens cb others)

  keep-Listens :
      (cb : ℕ) (before : List ℕ) (j : ℕ)
      → hears j (keep (λ other. not (other == cb)) before) ≡ (not (cb == j) && hears j before)
  keep-Listens cb [] j = ground arith
  keep-Listens cb (other ∷ others) j = ground (arith, keep-Listens cb others j)

  apply_delta-Applied :
      (s : ProfileStore T) (rows : List T) (ids : List Text)
      → IsDistinct id_of s.records
      → Applied s (applies_delta rows ids) (apply_delta id_of s rows ids)
  unfolding apply_delta notify delete_ids
  apply_delta-Applied s rows ids d =
      let t = set_all id_of rows s.records in
      let flag = not (is_empty rows) in
      let after : (k : Text)
          → get id_of k (delete_ids id_of flag t ids).1
            ≡ expected (applies_delta rows ids) k (find id_of s k) =
        λ k. get-delete_ids k flag t ids ∙ ap (erased k ids) (get-set_all k rows s.records) in
      let apart = delete_ids-IsDistinct flag t ids (set_all-IsDistinct id_of rows s.records d) in
      elim (Bool-cases (delete_ids id_of flag t ids).0) [
        | inl changed ↦
            rw changed (record { view = after; distinct = apart; listens = refl; told = inr refl })
        | inr same ↦
            let still = delete_ids_quiet flag t ids same in
            rw same (record {
              view = after;
              distinct = apart;
              listens = refl;
              told = inl (refl, still.1 ∙ set_none rows s.records still.0);
            })
      ]

  is_empty-nil : (t : List T) → is_empty t ≡ true → t ≡ []
  is_empty-nil [] h = refl
  is_empty-nil (r ∷ rs) h = ground arith

  -- On records with no two under one key, after any call: a key holds what the call makes of what it
  -- held; no two records are under one key; `observe` adds its listener at the end if it is not there,
  -- what `observe` gives back takes it away and no other, and no other call changes the listeners; and
  -- either the records are as they were and nobody was told, or the listeners were told, in their
  -- order, the records as they now are.
  pub apply-Applied :
      (s : ProfileStore T) (call : Call T)
      → IsDistinct id_of s.records
      → Applied s call (apply id_of s call)
  unfolding apply upsert upsert_many remove observe unobserve clear notify get
  apply-Applied s (upserts row) d = record {
    view = λ k. get-set id_of k row s.records;
    distinct = set-IsDistinct id_of row s.records d;
    listens = refl;
    told = inr refl;
  }
  apply-Applied s (upserts_many []) d = record {
    view = λ k. refl;
    distinct = d;
    listens = refl;
    told = inl (refl, refl);
  }
  apply-Applied s (upserts_many (row ∷ rows)) d = record {
    view = λ k. get-set_all k (row ∷ rows) s.records;
    distinct = set_all-IsDistinct id_of (row ∷ rows) s.records d;
    listens = refl;
    told = inr refl;
  }
  apply-Applied s (applies_delta rows ids) d = apply_delta-Applied s rows ids d
  apply-Applied s (removes id) d = elim (Bool-cases (has id_of s.records id)) [
    | inl there ↦ rw there (record {
      view = λ k. get-delete id_of k id s.records;
      distinct = delete-IsDistinct id s.records d;
      listens = refl;
      told = inr refl;
    })
    | inr absent ↦ rw absent (record {
      view = λ k.
          sym (ap (get id_of k) (delete_absent id s.records absent))
          ∙ get-delete id_of k id s.records;
      distinct = d;
      listens = refl;
      told = inl (refl, refl);
    })
  ]
  apply-Applied s (observes cb) d = record {
    view = λ k. refl;
    distinct = d;
    listens = add-Listens cb s.listeners;
    told = inl (refl, refl);
  }
  apply-Applied s (unobserves cb) d = record {
    view = λ k. refl;
    distinct = d;
    listens = keep-Listens cb s.listeners;
    told = inl (refl, refl);
  }
  apply-Applied s clears d = elim (Bool-cases (is_empty s.records)) [
    | inr some_records ↦
        rw some_records
          (record { view = λ k. refl; distinct = tt; listens = refl; told = inr refl })
    | inl no_records ↦ rw no_records (elim (Bool-cases (is_empty s.listeners)) [
      | inr some_listeners ↦
          rw some_listeners
            (record { view = λ k. refl; distinct = tt; listens = refl; told = inr refl })
      | inl no_listeners ↦ rw no_listeners (record {
        view = λ k. ap (get id_of k) (is_empty-nil s.records no_records);
        distinct = d;
        listens = refl;
        told = inl (refl, refl);
      })
    ])
  ]
