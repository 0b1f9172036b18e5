-- ===== src/Avatars.antt =====
-- src/runtime/avatar-model.ts, resolveAvatarModel: which picture of a user is shown. `user_id` is
-- String(userId). src/runtime/user-display.ts, userDisplayName: which name is shown.
use privchat_sdk_typescript.Prelude.{
  ℕ, ◌≡◌, ◌≢◌, ◌⊎◌, inl, inr, sym, ◌∙◌, refl, Text, Option, some, none, Bool, true, false, [], ◌++◌,
  ◌==◌, ◌||◌, text_eq, nat_eq, option_eq, codes, or_else, coalesce, if◌then◌else◌, arith,
  Bool-cases, text_beq,
}
use privchat_sdk_typescript.Contents.{trim, trim_start, trim_end}

unfoldable pub non_blank : Option Text → Option Text
non_blank none = none
non_blank (some v) = let t = trim v in if t == [] then none else some t

pub data AvatarFreshness : Type 0 where
  fresh_local : AvatarFreshness
  stale_local : AvatarFreshness
  remote_only : AvatarFreshness
  fallback : AvatarFreshness

pub record AvatarModel : Type 0 where
  pub user_id : Text
  pub display_name : Option Text
  pub username : Option Text
  pub local_url : Option Text
  pub remote_url : Option Text
  pub version : Option Text
  pub freshness : AvatarFreshness
  pub seed : Text

pub record ResolveAvatarInput : Type 0 where
  pub user_id : Text
  pub remote_url : Option Text
  pub cached_url : Option Text
  pub local_url : Option Text
  pub display_name : Option Text
  pub username : Option Text

-- The local copy, the remote URL, and the URL that the copy came from.
unfoldable pub freshness_of : Option Text → Option Text → Option Text → AvatarFreshness
freshness_of (some local) remote (some version) =
    if remote == some version then fresh_local else stale_local
freshness_of (some local) remote none = stale_local
freshness_of none (some remote) version = remote_only
freshness_of none none version = fallback

unfoldable pub resolve_avatar_model : ResolveAvatarInput → AvatarModel
unfolding freshness_of non_blank
resolve_avatar_model input =
    let local = non_blank input.local_url in
    let remote = non_blank input.remote_url in
    let version = non_blank input.cached_url in
    record {
      user_id = input.user_id;
      display_name = input.display_name;
      username = input.username;
      local_url = local;
      remote_url = remote;
      version = version;
      freshness = freshness_of local remote version;
      seed = codes "u:" ++ input.user_id;
    }

pub record UserDisplayInput : Type 0 where
  pub username : Option Text
  pub nickname : Option Text
  pub remark : Option Text
  pub user_id : Option Text
  pub user_type : Option ℕ
  pub system_name : Option Text

abbrev pub user_type_system : ℕ
user_type_system = 1

abbrev pub is_system_user : UserDisplayInput → Bool
is_system_user input =
    input.user_type == some user_type_system
    || input.username == some (codes "system")
    || input.username == some (codes "__system_1__")

unfoldable pub user_display_name : UserDisplayInput → Text
unfolding non_blank
user_display_name input =
    if is_system_user input
    then or_else (coalesce (non_blank input.system_name) (non_blank input.nickname))
        (codes "System Messages")
    else or_else
        (coalesce (non_blank input.remark)
          (coalesce (non_blank input.nickname) (non_blank input.username)))
        (or_else input.user_id [])

-- What a freshness says of the local copy, the remote URL and the URL that the copy came from.
abbrev Means : AvatarFreshness → Option Text → Option Text → Option Text → Type 0
Means fresh_local local remote version = (local ≢ none) × ((version ≢ none) × (version ≡ remote))
Means stale_local local remote version = (local ≢ none) × ((version ≡ none) ⊎ (version ≢ remote))
Means remote_only local remote version = (local ≡ none) × (remote ≢ none)
Means fallback local remote version = (local ≡ none) × (remote ≡ none)

true-false : true ≢ false
true-false e = ground (arith, e)

some-none : {v : Text} → some v ≢ none
some-none e = ground (arith, e)

freshness_of-Means :
    (local remote version : Option Text)
    → Means (freshness_of local remote version) local remote version
unfolding freshness_of
freshness_of-Means (some l) remote (some v) = elim (Bool-cases (remote == some v)) [
  | inl same ↦ rw same (some-none, (some-none, sym ((option_eq.same_iff remote (some v)).0 same)))
  | inr other ↦ rw other (
    some-none,
    inr (λ e.
        let yes : (remote == some v) ≡ true = (option_eq.same_iff remote (some v)).1 (sym e) in
        true-false (sym yes ∙ other)),
  )
]
freshness_of-Means (some l) remote none = (some-none, inl refl)
freshness_of-Means none (some r) version = (refl, some-none)
freshness_of-Means none none version = (refl, refl)

-- Whatever the input, the freshness of the model says which of its pictures there are: a fresh copy
-- is of the current remote URL, a stale one is of another or of an unknown one.
pub resolve_avatar_model-Means :
    (input : ResolveAvatarInput)
    → Means
        (resolve_avatar_model input).freshness
        (resolve_avatar_model input).local_url
        (resolve_avatar_model input).remote_url
        (resolve_avatar_model input).version
unfolding resolve_avatar_model
resolve_avatar_model-Means input =
    freshness_of-Means (non_blank input.local_url) (non_blank input.remote_url)
      (non_blank input.cached_url)

-- A name of blanks is no name.
blank_remark :
    user_display_name (record {
      username = some (codes "bob");
      nickname = some (codes " Bob ");
      remark = some (codes "  ");
      user_id = some (codes "7");
      user_type = some 0;
      system_name = none;
    })
    ≡ codes "Bob"
unfolding user_display_name text_beq trim_start trim_end
blank_remark = refl
