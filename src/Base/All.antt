-- ===== src/Base/All.antt =====
-- A property of all elements of a list.
use Prim.Native.Nat.{ℕ, zero, suc}
use mathlib.Core.Path.{◌≡◌, subst}
use mathlib.Core.List.{List, [], ◌∷◌, map}
use mathlib.Core.Option.{some, some-injective}
use native.Mathlib.Omega.{arith}
use omniportal.Base.Lists.{get_elem?, get_or, set, replicate, take, drop}

module _ {ℓ κ} {A : Type ℓ} where
  abbrev pub All : (A → Type κ) → List A → Type κ
  All P [] = Unit
  All P (x ∷ xs) = P x × All P xs

  pub All-replicate : (P : A → Type κ) (n : ℕ) (a : A) → P a → All P (replicate n a)
  All-replicate P zero a h = tt
  All-replicate P (suc n) a h = (h, All-replicate P n a h)

  pub All-set : (P : A → Type κ) (xs : List A) (i : ℕ) (a : A) → P a → All P xs → All P (set xs i a)
  All-set P [] i a h all = tt
  All-set P (x ∷ xs) zero a h all = (h, all.1)
  All-set P (x ∷ xs) (suc i) a h all = (all.0, All-set P xs i a h all.1)

  pub All-get_elem? :
      (P : A → Type κ) (xs : List A) (i : ℕ) (a : A) → All P xs → get_elem? xs i ≡ some a → P a
  All-get_elem? P [] i a all h = absurd (ground arith)
  All-get_elem? P (x ∷ xs) zero a all h = subst P (some-injective x a h) all.0
  All-get_elem? P (x ∷ xs) (suc i) a all h = All-get_elem? P xs i a all.1 h

  pub All-map :
      (P : A → Type κ) (f : A → A) (xs : List A)
      → ((a : A) → P a → P (f a))
      → All P xs
      → All P (map f xs)
  All-map P f [] keep all = tt
  All-map P f (x ∷ xs) keep all = (keep x all.0, All-map P f xs keep all.1)

  pub All-take : (P : A → Type κ) (n : ℕ) (xs : List A) → All P xs → All P (take n xs)
  All-take P zero xs all = tt
  All-take P (suc n) [] all = tt
  All-take P (suc n) (x ∷ xs) all = (all.0, All-take P n xs all.1)

  pub All-drop : (P : A → Type κ) (n : ℕ) (xs : List A) → All P xs → All P (drop n xs)
  All-drop P zero xs all = all
  All-drop P (suc n) [] all = tt
  All-drop P (suc n) (x ∷ xs) all = All-drop P n xs all.1

  pub All-get_or :
      (P : A → Type κ) (xs : List A) (i : ℕ) (a : A) → P a → All P xs → P (get_or xs i a)
  All-get_or P [] i a h all = h
  All-get_or P (x ∷ xs) zero a h all = all.0
  All-get_or P (x ∷ xs) (suc i) a h all = All-get_or P xs i a h all.1
