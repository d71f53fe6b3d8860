-- ===== src/Prelude/Back.antt =====
-- A list and its last element, and a removal that fills the hole with it.
use videoalarmclock.Prelude.Lists.{length, length-append, set, get_or, take}
use Prim.Native.Nat.{ℕ, zero, suc, ◌-◌, ◌<◌, ◌≤◌}
use mathlib.Core.Path.{◌≡◌, refl, ap}
use mathlib.Core.List.{List, [], ◌∷◌, ◌++◌}
use native.Mathlib.Omega.{arith}

module _ {ℓ} {A : Type ℓ} where
  -- the list with its last element taken off, and that element
  pub unsnoc : (x : A) (xs : List A) → (front : List A) × (back : A) × (x ∷ xs ≡ front ++ back ∷ [])
  unsnoc x [] = ([], x, refl)
  unsnoc x (y ∷ xs) = let (front, back, e) = unsnoc y xs in (x ∷ front, back, ap (λ l. x ∷ l) e)

  pub get_or-back :
      (front : List A) (back d : A) → get_or (front ++ back ∷ []) (length front) d ≡ back
  get_or-back [] back d = refl
  get_or-back (x ∷ front) back d = get_or-back front back d

  pub get_or-front :
      (front : List A) (back : A) (k : ℕ) (d : A)
      → k < length front
      → get_or (front ++ back ∷ []) k d ≡ get_or front k d
  get_or-front [] back k d h = absurd (omega arith)
  get_or-front (x ∷ front) back zero d h = refl
  get_or-front (x ∷ front) back (suc k) d h = get_or-front front back k d (omega arith)

  take-front : (front : List A) (back : A) → take (length front) (front ++ back ∷ []) ≡ front
  take-front [] back = refl
  take-front (x ∷ front) back = ap (λ l. x ∷ l) (take-front front back)

  pub take-set-back :
      (front : List A) (back x : A) (k : ℕ)
      → take (length front) (set (front ++ back ∷ []) k x) ≡ set front k x
  take-set-back [] back x k = refl
  take-set-back (y ∷ front) back x zero = ap (λ l. x ∷ l) (take-front front back)
  take-set-back (y ∷ front) back x (suc k) = ap (λ l. y ∷ l) (take-set-back front back x k)

  pub set_past : (xs : List A) (k : ℕ) (x : A) → length xs ≤ k → set xs k x ≡ xs
  set_past [] k x h = refl
  set_past (y ∷ xs) zero x h = absurd (omega arith)
  set_past (y ∷ xs) (suc k) x h = ap (λ l. y ∷ l) (set_past xs k x (omega arith))

  -- the list with its last element in the place of the one at `k`, and one shorter
  abbrev pub filled : List A → ℕ → A → List A
  filled xs k d = take (length xs - 1) (set xs k (get_or xs (length xs - 1) d))

  pub filled-append :
      (front : List A) (back : A) (k : ℕ) (d : A)
      → filled (front ++ back ∷ []) k d ≡ set front k back
  filled-append front back k d =
      let last : length (front ++ back ∷ []) - 1 ≡ length front =
        omega (arith, length-append front (back ∷ [])) in
      rw (last, get_or-back front back d) (take-set-back front back back k)
