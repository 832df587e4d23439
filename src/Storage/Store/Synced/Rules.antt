-- ===== src/Storage/Store/Synced/Rules.antt =====
-- Operations that keep a store in step with its flash: a rule for each way to build one.
use omniportal.Base.{
  ℕ, ◌^◌, ◌<◌, ◌≡◌, refl, ◌∙◌, inr, Bool, true, false, Option, none, some, if◌then◌else◌, arith,
}
use omniportal.Base.Bytes.{add32}
use omniportal.Base.Result.{Result, ok, err}
use omniportal.Base.Exec.{pure, raise, lift, gets, ◌>>=◌, continue}
use omniportal.Storage.Table.{StorageError}
use omniportal.Storage.Catalog.{Catalog, take_record_id, take_blob_id, take_generation}
use omniportal.Storage.Journal.{Store}
use omniportal.Storage.Store.{Fault, Action, take_next, set_catalog, find, or_fail}
use omniportal.Storage.Store.Synced.{Synced, Outcome, Valid, SameTables}

-- `m` is safe on a store in step, and what it returns satisfies `Q`.
pub record Safe {A : Type 0} (m : Action A) (Q : A → Type 0) : Type 0 where
  pub at : (s : Store) → Synced s → Outcome Q (m s)

abbrev pub Any : {A : Type 0} → A → Type 0
Any a = Unit

abbrev pub IsU32 : ℕ → Type 0
IsU32 n = n < 2 ^ 32

module _ {A : Type 0} {Q : A → Type 0} where
  pub Safe-pure : (a : A) → Q a → Safe (pure a) Q
  unfolding pure
  Safe-pure a q = record { at = λ s z. (z, q) }

  pub Safe-raise : (e : Fault) → Safe (raise e) Q
  unfolding raise
  Safe-raise e = record { at = λ s z. inr z }

  pub Safe-lift : (r : Result Fault A) → ((a : A) → r ≡ ok a → Q a) → Safe (lift r) Q
  unfolding lift
  Safe-lift (ok a) q = record { at = λ s z. (z, q a refl) }
  Safe-lift (err e) q = record { at = λ s z. inr z }

  pub Safe-gets : (f : Store → A) → ((s : Store) → Synced s → Q (f s)) → Safe (gets f) Q
  unfolding gets
  Safe-gets f q = record { at = λ s z. (z, q s z) }

  pub Safe-if : (b : Bool) (m n : Action A) → Safe m Q → Safe n Q → Safe (if b then m else n) Q
  Safe-if true m n km kn = km
  Safe-if false m n km kn = kn

  Outcome-looked_up :
      (s : Store) (o : Option A) (e : StorageError)
      → Synced s
      → ((a : A) → o ≡ some a → Q a)
      → Outcome Q (s, or_fail o e)
  Outcome-looked_up s none e z q = inr z
  Outcome-looked_up s (some a) e z q = (z, q a refl)

  pub Safe-find :
      (f : Catalog → Option A) (e : StorageError)
      → ((c : Catalog) (a : A) → Valid c → f c ≡ some a → Q a)
      → Safe (find f e) Q
  unfolding find
  Safe-find f e q = record {
    at = λ s z. Outcome-looked_up s (f s.catalog) e z (λ a. q s.catalog a z.valid);
  }

  Outcome-weaken :
      {P : A → Type 0}
      → (r : Store × Result Fault A) → Outcome P r
      → ((a : A) → P a → Q a)
      → Outcome Q r
  Outcome-weaken (s, ok a) h q = (h.0, q a h.1)
  Outcome-weaken (s, err e) h q = h

  pub Safe-weaken : {P : A → Type 0} → (m : Action A) → Safe m P → ((a : A) → P a → Q a) → Safe m Q
  Safe-weaken m k q = record { at = λ s z. Outcome-weaken (m s) (k.at s z) q }

module _ {A B : Type 0} {P : A → Type 0} {Q : B → Type 0} where
  pub Outcome-bind :
      (r : Store × Result Fault A) (f : A → Action B)
      → Outcome P r
      → ((a : A) → P a → Safe (f a) Q)
      → Outcome Q (continue r f)
  Outcome-bind (s, ok a) f h k = (k a h.1).at s h.0
  Outcome-bind (s, err e) f h k = h

  pub Safe-bind :
      (m : Action A) (f : A → Action B)
      → Safe m P
      → ((a : A) → P a → Safe (f a) Q)
      → Safe (m >>= f) Q
  unfolding ◌>>=◌
  Safe-bind m f km kf = record { at = λ s z. Outcome-bind (m s) f (km.at s z) kf }

module _ {A B C : Type 0} (Q : C → Type 0) where
  pub Outcome-assoc :
      (r : Store × Result Fault A) (f : A → Action B) (g : B → Action C)
      → Outcome Q (continue (continue r f) g)
      → Outcome Q (continue r (λ a s. continue (f a s) g))
  Outcome-assoc (s, ok a) f g h = h
  Outcome-assoc (s, err e) f g h = h

  -- The first two steps may be proved safe together.
  pub Safe-assoc :
      (m : Action A) (f : A → Action B) (g : B → Action C)
      → Safe ((m >>= f) >>= g) Q
      → Safe (m >>= λ a. f a >>= g) Q
  unfolding ◌>>=◌
  Safe-assoc m f g k = record { at = λ s z. Outcome-assoc (m s) f g (k.at s z) }

-- A store with another catalog, which has the same tables and the same place to write.
pub Synced-same :
    (s : Store) (c : Catalog)
    → Synced s
    → SameTables s.catalog c
    → Valid c
    → c.write_offset ≡ s.catalog.write_offset
    → c.needs_format ≡ s.catalog.needs_format
    → Synced (record s { catalog = c })
Synced-same s c z same valid w f = record {
  written = z.written;
  represents = record {
    free = z.represents.free;
    stored = z.represents.stored;
    size = z.represents.size;
    offset = w ∙ z.represents.offset;
    records = z.represents.records;
  };
  booted = z.booted;
  replayed = z.replayed;
  same = record {
    identities_eq = z.same.identities_eq ∙ same.identities_eq;
    entities_eq = z.same.entities_eq ∙ same.entities_eq;
    blobs_eq = z.same.blobs_eq ∙ same.blobs_eq;
  };
  formatted = f ∙ z.formatted;
  valid = valid;
}

-- The tables and the place to write stay as they are.
pub record KeepsTables (c c' : Catalog) : Type 0 where
  pub same : SameTables c c'
  pub valid : Valid c'
  pub offset_eq : c'.write_offset ≡ c.write_offset
  pub format_eq : c'.needs_format ≡ c.needs_format

pub Safe-set_catalog :
    (f : Catalog → Catalog)
    → ((c : Catalog) → Valid c → KeepsTables c (f c))
    → Safe (set_catalog f) Any
unfolding set_catalog
Safe-set_catalog f k = record {
  at = λ s z.
      let h = k s.catalog z.valid in
      (Synced-same s (f s.catalog) z h.same h.valid h.offset_eq h.format_eq, tt);
}

Safe-take_next :
    (f : Catalog → ℕ × Catalog)
    → ((c : Catalog) → Valid c → KeepsTables c (f c).1 × IsU32 (f c).0)
    → Safe (take_next f) IsU32
unfolding take_next
Safe-take_next f k = record {
  at = λ s z.
      let h = k s.catalog z.valid in
      (Synced-same s (f s.catalog).1 z h.0.same h.0.valid h.0.offset_eq h.0.format_eq, h.1);
}

-- Another value of the three counters.
abbrev counted : Catalog → ℕ → ℕ → ℕ → Catalog
counted c record_id blob_id generation = record c {
  next_record_id = record_id;
  next_blob_id = blob_id;
  next_generation = generation;
}

counted-KeepsTables :
    (c : Catalog) (record_id blob_id generation : ℕ)
    → Valid c
    → IsU32 record_id
    → IsU32 blob_id
    → IsU32 generation
    → KeepsTables c (counted c record_id blob_id generation)
counted-KeepsTables c record_id blob_id generation v r b g = record {
  same = record { identities_eq = refl; entities_eq = refl; blobs_eq = refl };
  valid = record {
    record_id_lt = r;
    blob_id_lt = b;
    generation_lt = g;
    identities = v.identities;
    entities = v.entities;
    blobs = v.blobs;
  };
  offset_eq = refl;
  format_eq = refl;
}

pub Safe-take_record_id : Safe (take_next take_record_id) IsU32
unfolding take_record_id
Safe-take_record_id = Safe-take_next take_record_id (λ c v. (
  counted-KeepsTables c (add32 c.next_record_id 1) c.next_blob_id c.next_generation v (omega arith)
      v.blob_id_lt v.generation_lt,
  v.record_id_lt,
))

pub Safe-take_blob_id : Safe (take_next take_blob_id) IsU32
unfolding take_blob_id
Safe-take_blob_id = Safe-take_next take_blob_id (λ c v. (
  counted-KeepsTables c c.next_record_id (add32 c.next_blob_id 1) c.next_generation v v.record_id_lt
      (omega arith) v.generation_lt,
  v.blob_id_lt,
))

pub Safe-take_generation : Safe (take_next take_generation) IsU32
unfolding take_generation
Safe-take_generation = Safe-take_next take_generation (λ c v. (
  counted-KeepsTables c c.next_record_id c.next_blob_id (add32 c.next_generation 1) v v.record_id_lt
      v.blob_id_lt (omega arith),
  v.generation_lt,
))
