-- ===== src/Profiles.antt =====
-- src/cache/profile-store.ts: ProfileStore, the profiles that are held in memory. UserStore, GroupStore
-- and FriendshipStore are this store for their records, with `id_of` their key. A record is a `T` with
-- its `version_of`, sync_version. A listener is a number; it does not call the store. An operation also
-- gives what the listeners were told, in order. The source ignores what a listener throws.

pub mod Told
use privchat_sdk_typescript.Prelude.{
  ℕ, Text, Option, some, none, Bool, true, false, List, [], ◌∷◌, ◌++◌, ◌==◌, text_eq, nat_eq, ◌||◌,
  map, ltb, length, keep, not, if◌then◌else◌,
}
use privchat_sdk_typescript.Table.{get, delete}
use privchat_sdk_typescript.Maps.{set, set_all}

pub record ProfileStore (T : Type 0) : Type 0 where
  pub records : List T
  pub listeners : List ℕ

-- What the listeners are told: a snapshot each.
abbrev pub Told : Type 0 → Type 0
Told T = List (ℕ × List T)

-- A call on the store.
pub data Call (T : Type 0) : Type 0 where
  upserts : T → Call T
  upserts_many : List T → Call T
  applies_delta : List T → List Text → Call T
  removes : Text → Call T
  observes : ℕ → Call T
  unobserves : ℕ → Call T
  clears : Call T

abbrev pub is_empty : {A : Type 0} → List A → Bool
is_empty [] = true
is_empty (_ ∷ _) = false

-- A Set of listeners: one that is there stays where it is.
abbrev pub add : ℕ → List ℕ → List ℕ
add cb [] = cb ∷ []
add cb (other ∷ others) = if other == cb then other ∷ others else other ∷ add cb others

module _ {T : Type 0} where
  abbrev pub list : ProfileStore T → List T
  list s = s.records

  abbrev pub size : ProfileStore T → ℕ
  size s = length s.records

  unfoldable pub notify : ProfileStore T → Told T
  notify s = map (λ cb. (cb, list s)) s.listeners

  abbrev pub published : ProfileStore T → ProfileStore T × Told T
  unfolding notify
  published s = (s, notify s)

  abbrev quiet : ProfileStore T → ProfileStore T × Told T
  quiet s = (s, [])

  unfoldable pub observe : ProfileStore T → ℕ → ProfileStore T × Told T
  observe s cb = quiet (record s { listeners = add cb s.listeners })

  unfoldable pub unobserve : ProfileStore T → ℕ → ProfileStore T × Told T
  unobserve s cb = quiet (record s { listeners = keep (λ other. not (other == cb)) s.listeners })

  -- Nothing is told where there is nothing to clear and nobody to tell.
  unfoldable pub clear : ProfileStore T → ProfileStore T × Told T
  unfolding notify
  clear s =
      if is_empty s.records
      then (if is_empty s.listeners then quiet s else published (record s { records = [] }))
      else published (record s { records = [] })

module _ {T : Type 0} (id_of : T → Text) where
  abbrev pub find : ProfileStore T → Text → Option T
  find s id = get id_of id s.records

  unfoldable pub upsert : ProfileStore T → T → ProfileStore T × Told T
  unfolding notify
  upsert s row = published (record s { records = set id_of row s.records })

  unfoldable pub upsert_many : ProfileStore T → List T → ProfileStore T × Told T
  unfolding notify
  upsert_many s [] = quiet s
  upsert_many s (row ∷ rows) =
      published (record s { records = set_all id_of (row ∷ rows) s.records })

  -- Map.prototype.delete says whether the key was there.
  abbrev pub has : List T → Text → Bool
  has rows id = elim (get id_of id rows) [ none ↦ false | some _ ↦ true ]

  -- The deletions of a delta, with whether the records have changed.
  unfoldable pub delete_ids : Bool → List T → List Text → Bool × List T
  delete_ids mutated rows [] = (mutated, rows)
  delete_ids mutated rows (id ∷ ids) =
      delete_ids (mutated || has rows id) (delete id_of id rows) ids

  unfoldable pub apply_delta : ProfileStore T → List T → List Text → ProfileStore T × Told T
  unfolding notify delete_ids
  apply_delta s upserted deleted_ids =
      let changed =
        delete_ids (not (is_empty upserted)) (set_all id_of upserted s.records) deleted_ids in
      let s' : ProfileStore T = record s { records = changed.1 } in
      if changed.0 then published s' else quiet s'

  unfoldable pub remove : ProfileStore T → Text → ProfileStore T × Told T
  unfolding notify
  remove s id =
      if has s.records id
      then published (record s { records = delete id_of id s.records })
      else quiet s

  unfoldable pub apply : ProfileStore T → Call T → ProfileStore T × Told T
  unfolding upsert upsert_many apply_delta remove observe unobserve clear notify delete_ids
  apply s (upserts row) = upsert s row
  apply s (upserts_many rows) = upsert_many s rows
  apply s (applies_delta upserted deleted_ids) = apply_delta s upserted deleted_ids
  apply s (removes id) = remove s id
  apply s (observes cb) = observe s cb
  apply s (unobserves cb) = unobserve s cb
  apply s clears = clear s

module _ {T : Type 0} (version_of : T → ℕ) where
  abbrev pub max_from : ℕ → List T → ℕ
  max_from max [] = max
  max_from max (row ∷ rows) =
      max_from (if ltb max (version_of row) then version_of row else max) rows

  abbrev pub max_sync_version : ProfileStore T → ℕ
  max_sync_version s = max_from 0 s.records
