-- ===== src/Uploads/Acts.antt =====
-- The errors that src/chunked-upload.ts throws, and its calls as functions of what they change.
use privchat_sdk_typescript.Prelude.{ℕ, ◌≡◌, refl, Option, Result, err, ok}

pub data UploadError : Type 0 where
  session_gone aborted unreachable unreadable_url insecure_url no_data bad_geometry : UploadError
  still_exists no_attachment_key no_chunk_size incomplete_token : UploadError
  status_failed complete_failed part_urls_failed : Option ℕ → UploadError
  chunk_rejected part_omitted part_failed still_missing : ℕ → UploadError
  no_progress wrong_length : ℕ → ℕ → UploadError
  rpc_failed : Option ℕ → UploadError

-- A call that may throw, and what it changes.
abbrev pub Act : Type 0 → Type 0 → Type 0
Act S A = S → Result UploadError A × S

abbrev pub after :
    {S A B : Type 0} → Result UploadError A × S → (A → Act S B) → Result UploadError B × S
after (err e, s) next = (err e, s)
after (ok a, s) next = next a s

infixl 5 ◌>>=◌ ◌>>◌
abbrev pub ◌>>=◌ : {S A B : Type 0} → Act S A → (A → Act S B) → Act S B
◌>>=◌ first next s = after (first s) next

abbrev pub ◌>>◌ : {S A : Type 0} → Act S (Unit {0}) → Act S A → Act S A
first >> next = first >>= λ _. next

abbrev pub give : {S A : Type 0} → A → Act S A
give a s = (ok a, s)

abbrev pub throw : {S A : Type 0} → UploadError → Act S A
throw e s = (err e, s)

-- A call that cannot throw.
abbrev pub run : {S A : Type 0} → (S → A × S) → Act S A
run f s = let (a, s') = f s in (ok a, s')

abbrev pub does : {S : Type 0} → (S → S) → Act S (Unit {0})
does f s = (ok tt, f s)

-- What holds of the value and the state, where nothing is thrown.
abbrev pub On : {S A : Type 0} → (A → S → Type 0) → Result UploadError A × S → Type 0
On P (err e, s) = Unit {0}
On P (ok a, s) = P a s

module _ {S A : Type 0} where
  pub On-after :
      {B : Type 0} (P : A → S → Type 0) (Q : B → S → Type 0) (r : Result UploadError A × S)
      (next : A → Act S B)
      → On P r
      → ((a : A) (s : S) → P a s → On Q (next a s))
      → On Q (after r next)
  On-after P Q (err e, s) next p f = tt
  On-after P Q (ok a, s) next p f = f a s p

  pub On-intro :
      (P : A → S → Type 0) (r : Result UploadError A × S)
      → ((a : A) → r.0 ≡ ok a → P a r.1)
      → On P r
  On-intro P (err e, s) f = tt
  On-intro P (ok a, s) f = f a refl
