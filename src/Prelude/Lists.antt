-- ===== src/Prelude/Lists.antt =====
-- Lists measured by native numbers, predicates on all items, and lists that evolve item by item.
use Prim.Native.Nat.{ℕ, zero, suc, ◌+◌}
use mathlib.Core.Path.{◌≡◌}
use mathlib.Core.Bool.{Bool, true, false, ◌&&◌, ◌||◌}
use mathlib.Core.List.{List, [], ◌∷◌, ◌++◌, map}
use native.Mathlib.Omega.{arith}

module _ {ℓ} {A : Type ℓ} where
  abbrev pub length : List A → ℕ
  length [] = 0
  length (x ∷ xs) = suc (length xs)

  abbrev pub any : (A → Bool) → List A → Bool
  any p [] = false
  any p (x ∷ xs) = p x || any p xs

  abbrev pub all : (A → Bool) → List A → Bool
  all p [] = true
  all p (x ∷ xs) = p x && all p xs

  abbrev pub take : ℕ → List A → List A
  take zero xs = []
  take (suc n) [] = []
  take (suc n) (x ∷ xs) = x ∷ take n xs

  pub length-append : (xs ys : List A) → length (xs ++ ys) ≡ length xs + length ys
  length-append [] ys = omega arith
  length-append (x ∷ xs) ys = omega (arith, length-append xs ys)

module _ {ℓ κ} {A : Type ℓ} (P : A → Type κ) where
  abbrev pub All : List A → Type κ
  All [] = Unit
  All (x ∷ xs) = P x × All xs

  pub All-append : (xs ys : List A) → All xs → All ys → All (xs ++ ys)
  All-append [] ys _ k = k
  All-append (x ∷ xs) ys (p, h) k = (p, All-append xs ys h k)

-- Every item of the first list has, at its place in the second, a related one; the second list may
-- have further items at its end, which satisfy `Q`.
module _ {ℓ} {A : Type ℓ} (R : A → A → Type 0) (Q : A → Type 0) where
  abbrev pub Evolves : List A → List A → Type 0
  Evolves [] ys = All Q ys
  Evolves (x ∷ xs) [] = ⊥
  Evolves (x ∷ xs) (y ∷ ys) = R x y × Evolves xs ys

  pub Evolves-map : (f : A → A) → ((a : A) → R a (f a)) → (xs : List A) → Evolves xs (map f xs)
  Evolves-map f h [] = tt
  Evolves-map f h (x ∷ xs) = (h x, Evolves-map f h xs)

  module _ (R_refl : (a : A) → R a a) where
    pub Evolves-refl : (xs : List A) → Evolves xs xs
    Evolves-refl [] = tt
    Evolves-refl (x ∷ xs) = (R_refl x, Evolves-refl xs)

    pub Evolves-append : (xs ys : List A) → All Q ys → Evolves xs (xs ++ ys)
    Evolves-append [] ys h = h
    Evolves-append (x ∷ xs) ys h = (R_refl x, Evolves-append xs ys h)

  module _ (R_trans : (a b c : A) → R a b → R b c → R a c)
      (R-Q : (a b : A) → R a b → Q a → Q b) where
    pub Evolves-All : (xs ys : List A) → Evolves xs ys → All Q xs → All Q ys
    Evolves-All [] ys h k = h
    Evolves-All (x ∷ xs) [] h k = absurd h
    Evolves-All (x ∷ xs) (y ∷ ys) (p, h) (q, k) = (R-Q x y p q, Evolves-All xs ys h k)

    pub Evolves-trans : (xs ys zs : List A) → Evolves xs ys → Evolves ys zs → Evolves xs zs
    Evolves-trans [] ys zs h k = Evolves-All ys zs k h
    Evolves-trans (x ∷ xs) [] zs h k = absurd h
    Evolves-trans (x ∷ xs) (y ∷ ys) [] h k = absurd k
    Evolves-trans (x ∷ xs) (y ∷ ys) (z ∷ zs) (p, h) (q, k) =
        (R_trans x y z p q, Evolves-trans xs ys zs h k)
