-- ===== src/Uploads/Parts/Batches.antt =====
-- The batches in which uploadS3Parts of src/chunked-upload.ts asks for URLs.
use privchat_sdk_typescript.Prelude.{
  ℕ, zero, suc, ◌-◌, ◌≤◌, ◌<◌, ◌≡◌, refl, List, [], ◌∷◌, ◌++◌, arith, length, take, All, ◌∙◌, ap,
}
use privchat_sdk_typescript.Uploads.{drop}
use privchat_sdk_typescript.Uploads.Parts.{batches}

take-drop : (n : ℕ) (xs : List ℕ) → take n xs ++ drop n xs ≡ xs
take-drop zero xs = refl
take-drop (suc n) [] = refl
take-drop (suc n) (x ∷ xs) = ap (λ ys. x ∷ ys) (take-drop n xs)

length-take_le : (n : ℕ) (xs : List ℕ) → length (take n xs) ≤ n
length-take_le zero xs = omega arith
length-take_le (suc n) [] = omega arith
length-take_le (suc n) (x ∷ xs) = omega (arith, length-take_le n xs)

length-drop : (n : ℕ) (xs : List ℕ) → length (drop n xs) ≡ length xs - n
length-drop zero xs = omega arith
length-drop (suc n) [] = omega arith
length-drop (suc n) (x ∷ xs) = omega (arith, length-drop n xs)

abbrev pub concat : List (List ℕ) → List ℕ
concat [] = []
concat (xs ∷ rest) = xs ++ concat rest

abbrev IsBatching : ℕ → List ℕ → List (List ℕ) → Type 0
IsBatching size numbers bs = (concat bs ≡ numbers) × All (λ batch. length batch ≤ size) bs

module _ (size : ℕ) (some_size : 0 < size) where
  -- With a round for each number, the batches are the numbers in their order, none left out, and no
  -- batch is larger than the size.
  pub concat-batches :
      (fuel : ℕ) (numbers : List ℕ)
      → length numbers ≤ fuel
      → IsBatching size numbers (batches size fuel numbers)
  unfolding batches
  concat-batches zero [] h = (refl, tt)
  concat-batches zero (n ∷ ns) h = absurd (omega arith)
  concat-batches (suc fuel) [] h = (refl, tt)
  concat-batches (suc fuel) (n ∷ ns) h =
      let rest =
        concat-batches fuel (drop size (n ∷ ns)) (omega (arith, length-drop size (n ∷ ns))) in
      (
        ap (λ ms. take size (n ∷ ns) ++ ms) rest.0 ∙ take-drop size (n ∷ ns),
        (length-take_le size (n ∷ ns), rest.1),
      )
