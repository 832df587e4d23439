-- ===== src/Storage/Table/Contents.antt =====
-- What is in the arrays of src/storage/catalog.rs after an operation.
use mathlib.Core.Path.{subst}
use omniportal.Base.{
  ℕ, ◌≡◌, refl, sym, ap, ◌∙◌, ==_iff, ◌⊎◌, inl, inr, List, [], ◌∷◌, Option, none, some, ◌==◌, arith,
  Option-cases, Bool-cases,
}
use omniportal.Base.All.{All}
use omniportal.Storage.Table.{
  full, find_by_id, replace_found, fill_empty, upsert_by_id, delete_by_id, holds,
}

abbrev pub Held : {A : Type 0} → (A → Type 0) → Option A → Type 0
Held P none = Unit
Held P (some a) = P a

module _ {T : Type 0} (id_of : T → ℕ) (P : T → Type 0) where
  pub find_by_id-All :
      (id : ℕ) (items : List (Option T)) (a : T)
      → All (Held P) items
      → find_by_id id_of id items ≡ some a
      → P a × (id_of a ≡ id)
  unfolding find_by_id
  find_by_id-All id [] a all h = absurd (ground arith)
  find_by_id-All id (none ∷ items) a all h = find_by_id-All id items a all.1 h
  find_by_id-All id (some b ∷ items) a all h = elim (Bool-cases (id_of b == id)) [
    | inl e ↦
        let same : b ≡ a = ground (arith, e) in
        (subst P same all.0, sym (ap id_of same) ∙ (==_iff (id_of b) id).0 e)
    | inr e ↦ find_by_id-All id items a all.1 (ground (arith, e))
  ]

  replace_found-All :
      (id : ℕ) (value : Option T) (items items' : List (Option T))
      → Held P value
      → All (Held P) items
      → replace_found id_of id value items ≡ some items'
      → All (Held P) items'
  unfolding replace_found
  replace_found-All id value [] items' v all h = absurd (ground arith)
  replace_found-All id value (slot ∷ items) items' v all h =
      elim (Bool-cases (holds id_of id slot)) [
        | inl e ↦ subst (All (Held P)) {x = value ∷ items} (ground (arith, e)) (found v all)
        | inr e ↦ elim (Option-cases (replace_found id_of id value items)) [
          | inl q ↦ absurd (ground (arith, e, q))
          | inr (r, q) ↦
              subst (All (Held P)) {x = slot ∷ r} (ground (arith, e, q))
                (behind r all (replace_found-All id value items r v all.1 q))
        ]
      ]
    where
      found : Held P value → All (Held P) (slot ∷ items) → All (Held P) (value ∷ items)
      found v all = (v, all.1)

      behind :
          (r : List (Option T))
          → All (Held P) (slot ∷ items)
          → All (Held P) r
          → All (Held P) (slot ∷ r)
      behind r all ih = (all.0, ih)

  fill_empty-All :
      (value : T) (items items' : List (Option T))
      → P value
      → All (Held P) items
      → fill_empty id_of value items ≡ some items'
      → All (Held P) items'
  unfolding fill_empty
  fill_empty-All value [] items' v all h = absurd (ground arith)
  fill_empty-All value (none ∷ items) items' v all h =
      let here : All (Held P) (some value ∷ items) = (v, all.1) in
      subst (All (Held P)) {x = some value ∷ items} (ground arith) here
  fill_empty-All value (some a ∷ items) items' v all h =
      elim (Option-cases (fill_empty id_of value items)) [
        | inl q ↦ absurd (ground (arith, q))
        | inr (r, q) ↦
            let there : All (Held P) (some a ∷ r) =
              (all.0, fill_empty-All value items r v all.1 q) in
            subst (All (Held P)) {x = some a ∷ r} (ground (arith, q)) there
      ]

  -- What holds of all records holds of all of them after an insertion of one more.
  pub upsert_by_id-All :
      (value : T) (items : List (Option T))
      → P value
      → All (Held P) items
      → All (Held P) (upsert_by_id id_of value items).0
  unfolding upsert_by_id
  upsert_by_id-All value items v all =
      elim (Option-cases (replace_found id_of (id_of value) (some value) items)) [
        | inr (r, q) ↦ rw (q, upsert_by_id) (replace_found-All _ (some value) items r v all q)
        | inl q ↦ elim (Option-cases (fill_empty id_of value items)) [
          | inl p ↦ rw (q, p, upsert_by_id) all
          | inr (r, p) ↦ rw (q, p, upsert_by_id) (fill_empty-All value items r v all p)
        ]
      ]

  -- So it does after a deletion.
  pub delete_by_id-All :
      (id : ℕ) (items : List (Option T))
      → All (Held P) items
      → All (Held P) (delete_by_id id_of id items).0
  unfolding delete_by_id
  delete_by_id-All id items all = elim (Option-cases (replace_found id_of id none items)) [
    | inl q ↦ rw (q, delete_by_id) all
    | inr (r, q) ↦ rw (q, delete_by_id) (replace_found-All id none items r tt all q)
  ]

module _ {ℓ} {T : Type ℓ} (id_of : T → ℕ) where
  -- An insertion has no error but `full`.
  pub upsert_by_id_error :
      (value : T) (items : List (Option T))
      → ((upsert_by_id id_of value items).1 ≡ none)
        ⊎ ((upsert_by_id id_of value items).1 ≡ some full)
  unfolding upsert_by_id
  upsert_by_id_error value items =
      elim (Option-cases (replace_found id_of (id_of value) (some value) items)) [
        | inr (r, q) ↦ inl (rw (q, upsert_by_id) refl)
        | inl q ↦ elim (Option-cases (fill_empty id_of value items)) [
          | inl p ↦ inr (rw (q, p, upsert_by_id) refl)
          | inr (r, p) ↦ inl (rw (q, p, upsert_by_id) refl)
        ]
      ]
