-- ===== src/Storage/Store/Synced/Served.antt =====
-- Requests that leave the store in step with its flash: a rule for each way to build one.
use omniportal.Base.{◌≡◌, refl, inr, Bool, true, false, Option, none, some, if◌then◌else◌}
use omniportal.Base.Result.{Result, ok, err}
use omniportal.Base.Exec.{Exec, pure, raise, lift, ◌>>=◌, continue}
use omniportal.Storage.Journal.{Store}
use omniportal.Storage.Store.{Fault, Action, with_store_mut}
use omniportal.Storage.Store.Edit.{with_store}
use omniportal.Storage.Store.Synced.{Synced, Outcome}
use omniportal.Storage.Store.Synced.Rules.{Safe, Any}

-- The store stays in its place, and the outcome is that of a safe operation.
abbrev pub InPlace : {A : Type 0} → Option Store × Result Fault A → Type 0
InPlace (none, r) = ⊥
InPlace (some s, r) = Outcome Any (s, r)

pub record Served {A : Type 0} (m : Exec (Option Store) Fault A) : Type 0 where
  pub at : (s : Store) → Synced s → InPlace (m (some s))

module _ {A : Type 0} where
  pub Served-pure : (a : A) → Served (pure a)
  unfolding pure
  Served-pure a = record { at = λ s z. (z, tt) }

  pub Served-raise : (e : Fault) → Served {A = A} (raise e)
  unfolding raise
  Served-raise e = record { at = λ s z. inr z }

  pub Served-if :
      (b : Bool) (m n : Exec (Option Store) Fault A)
      → Served m
      → Served n
      → Served (if b then m else n)
  Served-if true m n km kn = km
  Served-if false m n km kn = kn

  stored :
      (Q : A → Type 0) (r : Store × Result Fault A)
      → Outcome Q r
      → InPlace (let (s, a) = r in (some s, a))
  stored Q (s, ok a) h = (h.0, tt)
  stored Q (s, err e) h = h

  pub Served-store : {Q : A → Type 0} → (m : Action A) → Safe m Q → Served (with_store_mut m)
  unfolding with_store_mut
  Served-store {Q = Q} m k = record { at = λ s z. stored Q (m s) (k.at s z) }

module _ {A B : Type 0} where
  InPlace-bind :
      (r : Option Store × Result Fault A) (f : A → Exec (Option Store) Fault B)
      → InPlace r
      → ((a : A) → Served (f a))
      → InPlace (continue r f)
  InPlace-bind (none, r) f h k = absurd h
  InPlace-bind (some s, ok a) f h k = (k a).at s h.0
  InPlace-bind (some s, err e) f h k = h

  pub Served-bind :
      (m : Exec (Option Store) Fault A) (f : A → Exec (Option Store) Fault B)
      → Served m
      → ((a : A) → Served (f a))
      → Served (m >>= f)
  unfolding ◌>>=◌
  Served-bind m f km kf = record { at = λ s z. InPlace-bind (m (some s)) f (km.at s z) kf }

  -- A parameter that is read.
  pub Served-lift :
      (r : Result Fault A) (f : A → Exec (Option Store) Fault B)
      → ((a : A) → r ≡ ok a → Served (f a))
      → Served (lift r >>= f)
  unfolding ◌>>=◌ lift
  Served-lift (ok a) f kf = record { at = λ s z. (kf a refl).at s z }
  Served-lift (err e) f kf = record { at = λ s z. inr z }

  pub Served-look :
      (look : Store → A) (f : A → Exec (Option Store) Fault B)
      → ((a : A) → Served (f a))
      → Served (with_store look >>= f)
  unfolding ◌>>=◌
  Served-look look f kf = record { at = λ s z. (kf (look s)).at s z }
