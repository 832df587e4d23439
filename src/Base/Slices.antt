-- ===== src/Base/Slices.antt =====
-- Rust's slices of a byte array: `xs[off..off + n]` and `copy_from_slice` into such a range.
use Prim.Native.Nat.{ℕ, zero, suc, ◌+◌, ◌≤◌, ◌<◌}
use mathlib.Core.Path.{◌≡◌, refl, ap}
use mathlib.Core.List.{List, [], ◌∷◌, ◌++◌}
use mathlib.Core.Option.{Option, none, some}
use omniportal.Base.Tests.{ltb, ◌==◌, if◌then◌else◌}
use native.Mathlib.Omega.{arith}
use omniportal.Base.Lists.{length, take, drop, take-append, get_or, set, take-set}

module _ {ℓ} {A : Type ℓ} where
  -- `xs[off..off + n]`, cut short at the end of `xs`.
  abbrev pub slice : ℕ → ℕ → List A → List A
  slice off n xs = take n (drop off xs)

  -- `xs[..src.len()].copy_from_slice(src)`; what does not fit is left out.
  abbrev pub overwrite : List A → List A → List A
  overwrite [] xs = xs
  overwrite (s ∷ src) [] = []
  overwrite (s ∷ src) (x ∷ xs) = s ∷ overwrite src xs

  -- `xs[off..off + src.len()].copy_from_slice(src)`.
  abbrev pub splice : ℕ → List A → List A → List A
  splice zero src xs = overwrite src xs
  splice (suc off) src [] = []
  splice (suc off) src (x ∷ xs) = x ∷ splice off src xs

  pub length-overwrite : (src xs : List A) → length (overwrite src xs) ≡ length xs
  length-overwrite [] xs = refl
  length-overwrite (s ∷ src) [] = refl
  length-overwrite (s ∷ src) (x ∷ xs) = ap suc (length-overwrite src xs)

  pub length-splice : (off : ℕ) (src xs : List A) → length (splice off src xs) ≡ length xs
  length-splice zero src xs = length-overwrite src xs
  length-splice (suc off) src [] = refl
  length-splice (suc off) src (x ∷ xs) = ap suc (length-splice off src xs)

  -- What was copied in is read back.
  pub take-overwrite :
      (src xs : List A) → length src ≤ length xs → take (length src) (overwrite src xs) ≡ src
  take-overwrite [] xs h = refl
  take-overwrite (s ∷ src) [] h = absurd (omega arith)
  take-overwrite (s ∷ src) (x ∷ xs) h = ap (◌∷◌ s) (take-overwrite src xs (omega arith))

  pub slice-splice :
      (off : ℕ) (src xs : List A)
      → off + length src ≤ length xs
      → slice off (length src) (splice off src xs) ≡ src
  slice-splice zero src xs h = take-overwrite src xs (omega arith)
  slice-splice (suc off) src [] h = absurd (omega arith)
  slice-splice (suc off) src (x ∷ xs) h = slice-splice off src xs (omega arith)

  -- Behind what was copied in nothing changes.
  pub drop-overwrite :
      (n : ℕ) (src xs : List A) → length src ≤ n → drop n (overwrite src xs) ≡ drop n xs
  drop-overwrite n [] xs h = refl
  drop-overwrite zero (s ∷ src) xs h = absurd (omega arith)
  drop-overwrite (suc n) (s ∷ src) [] h = refl
  drop-overwrite (suc n) (s ∷ src) (x ∷ xs) h = drop-overwrite n src xs (omega arith)

  -- A range of an array in three parts.
  pub slice-append :
      (pre xs post : List A) → slice (length pre) (length xs) (pre ++ (xs ++ post)) ≡ xs
  slice-append [] xs post = take-append xs post
  slice-append (p ∷ pre) xs post = slice-append pre xs post

  pub splice-append :
      (pre src old post : List A)
      → length src ≡ length old
      → splice (length pre) src (pre ++ (old ++ post)) ≡ pre ++ (src ++ post)
  splice-append [] [] [] post h = refl
  splice-append [] [] (o ∷ old) post h = absurd (omega arith)
  splice-append [] (s ∷ src) [] post h = absurd (omega arith)
  splice-append [] (s ∷ src) (o ∷ old) post h =
      ap (◌∷◌ s) (splice-append [] src old post (omega arith))
  splice-append (p ∷ pre) src old post h = ap (◌∷◌ p) (splice-append pre src old post h)

  take-splice_before :
      (n off : ℕ) (src xs : List A) → n ≤ off → take n (splice off src xs) ≡ take n xs
  take-splice_before zero off src xs h = refl
  take-splice_before (suc n) zero src xs h = absurd (omega arith)
  take-splice_before (suc n) (suc off) src [] h = refl
  take-splice_before (suc n) (suc off) src (x ∷ xs) h =
      ap (◌∷◌ x) (take-splice_before n off src xs (omega arith))

  -- Before what was copied in nothing changes.
  pub slice-splice_before :
      (off' n off : ℕ) (src xs : List A)
      → off' + n ≤ off
      → slice off' n (splice off src xs) ≡ slice off' n xs
  slice-splice_before zero n off src xs h = take-splice_before n off src xs (omega arith)
  slice-splice_before (suc off') n zero src xs h = absurd (omega arith)
  slice-splice_before (suc off') n (suc off) src [] h = refl
  slice-splice_before (suc off') n (suc off) src (x ∷ xs) h =
      slice-splice_before off' n off src xs (omega arith)

  -- `xs[off..off + src.len()].copy_from_slice(src)` with its bounds check; `none` is the panic.
  unfoldable pub copy_into : ℕ → List A → List A → Option (List A)
  copy_into off src xs =
      if ltb (length xs) (off + length src) then none else some (splice off src xs)

  pub copy_into-some :
      (off : ℕ) (src xs : List A)
      → off + length src ≤ length xs
      → copy_into off src xs ≡ some (splice off src xs)
  unfolding copy_into
  copy_into-some off src xs h = ground arith

  pub copy_into-none :
      (off : ℕ) (src xs : List A) → length xs < off + length src → copy_into off src xs ≡ none
  unfolding copy_into
  copy_into-none off src xs h = ground arith

  -- `xs[off..off + n]` with its bounds check; `none` is the panic.
  unfoldable pub get_range : ℕ → ℕ → List A → Option (List A)
  get_range off n xs = if ltb (length xs) (off + n) then none else some (slice off n xs)

  pub get_range-some :
      (off n : ℕ) (xs : List A) → off + n ≤ length xs → get_range off n xs ≡ some (slice off n xs)
  unfolding get_range
  get_range-some off n xs h = ground arith

  -- `xs.copy_from_slice(src)`, which panics where the lengths differ.
  unfoldable pub copy_all : List A → List A → Option (List A)
  copy_all src xs = if length src == length xs then some src else none

  pub copy_all-some : (src xs : List A) → length src ≡ length xs → copy_all src xs ≡ some src
  unfolding copy_all
  copy_all-some src xs h = ground arith

  -- Behind what was copied in nothing changes.
  pub drop-splice_after :
      (off n : ℕ) (src xs : List A) → off + length src ≤ n → drop n (splice off src xs) ≡ drop n xs
  drop-splice_after zero n src xs h = drop-overwrite n src xs (omega arith)
  drop-splice_after (suc off) zero src xs h = absurd (omega arith)
  drop-splice_after (suc off) (suc n) src [] h = refl
  drop-splice_after (suc off) (suc n) src (x ∷ xs) h = drop-splice_after off n src xs (omega arith)

  -- A copy that covers the whole array.
  pub overwrite_all : (src xs : List A) → length src ≡ length xs → overwrite src xs ≡ src
  overwrite_all [] [] h = refl
  overwrite_all [] (x ∷ xs) h = absurd (omega arith)
  overwrite_all (s ∷ src) [] h = absurd (omega arith)
  overwrite_all (s ∷ src) (x ∷ xs) h = ap (◌∷◌ s) (overwrite_all src xs (omega arith))

  pub get_or-splice_before :
      (xs src : List A) (off j : ℕ) (d : A)
      → j < off
      → get_or (splice off src xs) j d ≡ get_or xs j d
  get_or-splice_before xs src zero j d h = absurd (omega arith)
  get_or-splice_before [] src (suc off) j d h = refl
  get_or-splice_before (x ∷ xs) src (suc off) zero d h = refl
  get_or-splice_before (x ∷ xs) src (suc off) (suc j) d h =
      get_or-splice_before xs src off j d (omega arith)

  pub slice-set_before :
      (off n i : ℕ) (v : A) (xs : List A) → off + n ≤ i → slice off n (set xs i v) ≡ slice off n xs
  slice-set_before zero n i v xs h = take-set xs n i v (omega arith)
  slice-set_before (suc off) n i v [] h = refl
  slice-set_before (suc off) n zero v (x ∷ xs) h = absurd (omega arith)
  slice-set_before (suc off) n (suc i) v (x ∷ xs) h = slice-set_before off n i v xs (omega arith)
