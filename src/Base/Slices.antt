-- ===== src/Base/Slices.antt =====
-- Parts of a buffer at fixed offsets: what a chain of appended fields holds where.
use Prim.Native.Nat.{ℕ, zero, suc, ◌+◌}
use mathlib.Core.Path.{◌≡◌, refl, sym, ap, ◌∙◌}
use mathlib.Core.List.{List, [], ◌∷◌, ◌++◌}
use encrypted_backup_client.Base.Lists.{length, take, drop, drop_add, take-append, drop-append}
use native.Mathlib.Omega.{arith}

-- The n elements from an offset on.
abbrev pub slice {ℓ} : {A : Type ℓ} → ℕ → ℕ → List A → List A
slice offset n xs = take n (drop offset xs)

module _ {ℓ} {A : Type ℓ} (d : List A) (offset n : ℕ) (xs ys : List A) where
  -- Past a field of n elements stands the rest.
  pub drop_next : drop offset d ≡ xs ++ ys → length xs ≡ n → drop (offset + n) d ≡ ys
  drop_next at l = sym (drop_add offset n d) ∙ ap (drop n) at ∙ drop-append n xs ys l

  pub slice_here : drop offset d ≡ xs ++ ys → length xs ≡ n → slice offset n d ≡ xs
  slice_here at l = ap (take n) at ∙ take-append n xs ys l

module _ {ℓ} {A : Type ℓ} where
  pub take_add : (m n : ℕ) (xs : List A) → take (m + n) xs ≡ take m xs ++ take n (drop m xs)
  take_add zero n xs = ap (λ k. take k xs) (let e : zero + n ≡ n = omega arith in e)
  take_add (suc m) zero [] = ap (λ k. take k []) (let e : suc m + 0 ≡ suc m = omega arith in e)
  take_add (suc m) (suc n) [] =
      ap (λ k. take k []) (let e : suc m + suc n ≡ suc (m + suc n) = omega arith in e)
  take_add (suc m) n (x ∷ xs) =
      ap (λ k. take k (x ∷ xs)) (let e : suc m + n ≡ suc (m + n) = omega arith in e)
      ∙ ap (◌∷◌ x) (take_add m n xs)

  pub drop-take : (m n : ℕ) (xs : List A) → drop m (take (m + n) xs) ≡ take n (drop m xs)
  drop-take zero n xs = ap (λ k. take k xs) (let e : zero + n ≡ n = omega arith in e)
  drop-take (suc m) zero [] =
      ap (λ k. drop (suc m) (take k [])) (let e : suc m + 0 ≡ suc m = omega arith in e)
  drop-take (suc m) (suc n) [] =
      ap (λ k. drop (suc m) (take k []))
        (let e : suc m + suc n ≡ suc (m + suc n) = omega arith in e)
  drop-take (suc m) n (x ∷ xs) =
      ap (λ k. drop (suc m) (take k (x ∷ xs))) (let e : suc m + n ≡ suc (m + n) = omega arith in e)
      ∙ drop-take m n xs

  pub take-take : (n : ℕ) (xs : List A) → take n (take n xs) ≡ take n xs
  take-take zero xs = refl
  take-take (suc n) [] = refl
  take-take (suc n) (x ∷ xs) = ap (◌∷◌ x) (take-take n xs)
