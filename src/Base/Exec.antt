-- ===== src/Base/Exec.antt =====
-- Code that changes a state and may stop with an error: `&mut` and `?`. What was changed before an
-- error stays changed, so the state comes back beside the error too.
use omniportal.Base.Result.{Result, ok, err}

abbrev pub Exec {ℓ} : Type ℓ → Type ℓ → Type ℓ → Type ℓ
Exec S E A = S → S × Result E A

module _ {ℓ} {S E A : Type ℓ} where
  unfoldable pub pure : A → Exec S E A
  pure a s = (s, ok a)

  unfoldable pub raise : E → Exec S E A
  raise e s = (s, err e)

  unfoldable pub lift : Result E A → Exec S E A
  lift r s = (s, r)

  unfoldable pub gets : (S → A) → Exec S E A
  gets f s = (s, ok (f s))

  -- An operation that always succeeds.
  unfoldable pub update : (S → S × A) → Exec S E A
  update f s = let (s', a) = f s in (s', ok a)

module _ {ℓ} {S E A B : Type ℓ} where
  abbrev pub continue : S × Result E A → (A → Exec S E B) → S × Result E B
  continue (s, ok a) f = f a s
  continue (s, err e) f = (s, err e)

  infixl 10 ◌>>=◌ ◌>>◌
  unfoldable pub ◌>>=◌ : Exec S E A → (A → Exec S E B) → Exec S E B
  ◌>>=◌ m f s = continue (m s) f

  abbrev pub ◌>>◌ : Exec S E A → Exec S E B → Exec S E B
  m >> n = m >>= λ _. n
