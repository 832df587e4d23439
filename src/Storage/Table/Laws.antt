-- ===== src/Storage/Table/Laws.antt =====
-- The array operations of src/storage/catalog.rs keep ids unique, and are those of a map.
use omniportal.Base.{
  ℕ, ◌↔◌, ◌≡◌, refl, inl, inr, List, [], ◌∷◌, Option, none, some, ◌==◌, if◌then◌else◌, length,
  arith, Option-cases,
}
use omniportal.Storage.Table.{
  full, find_by_id, replace_found, fill_empty, upsert_by_id, delete_by_id,
}

module _ {ℓ} {T : Type ℓ} (id_of : T → ℕ) where
  -- No two slots hold the same id.
  abbrev pub Unique : List (Option T) → Type ℓ
  Unique [] = Unit
  Unique (none ∷ items) = Unique items
  Unique (some item ∷ items) = (find_by_id id_of (id_of item) items ≡ none) × Unique items

  -- Every slot is taken.
  abbrev pub IsFull : List (Option T) → Type 0
  IsFull [] = Unit
  IsFull (none ∷ items) = ⊥
  IsFull (some item ∷ items) = IsFull items

  replace_found-none :
      (id : ℕ) (value : Option T) (items : List (Option T))
      → replace_found id_of id value items ≡ none
      → find_by_id id_of id items ≡ none
  unfolding replace_found find_by_id
  replace_found-none id value [] h = refl
  replace_found-none id value (none ∷ items) h = ground (arith, replace_found-none id value items)
  replace_found-none id value (some item ∷ items) h =
      ground (arith, replace_found-none id value items)

  find-replace_found :
      (id j : ℕ) (value : T) (items items' : List (Option T))
      → id_of value ≡ id
      → replace_found id_of id (some value) items ≡ some items'
      → find_by_id id_of j items' ≡ (if id == j then some value else find_by_id id_of j items)
  unfolding replace_found find_by_id
  find-replace_found id j value [] items' e h = ground arith
  find-replace_found id j value (none ∷ items) items' e h =
      elim (Option-cases (replace_found id_of id (some value) items)) [
        | inl q ↦ ground (arith, q)
        | inr (r, q) ↦ ground (arith, q, find-replace_found id j value items r e q)
      ]
  find-replace_found id j value (some item ∷ items) items' e h =
      elim (Option-cases (replace_found id_of id (some value) items)) [
        | inl q ↦ ground (arith, q)
        | inr (r, q) ↦ ground (arith, q, find-replace_found id j value items r e q)
      ]

  find-fill_empty :
      (j : ℕ) (value : T) (items items' : List (Option T))
      → find_by_id id_of (id_of value) items ≡ none
      → fill_empty id_of value items ≡ some items'
      → find_by_id id_of j items'
        ≡ (if id_of value == j then some value else find_by_id id_of j items)
  unfolding fill_empty find_by_id
  find-fill_empty j value [] items' a h = ground arith
  find-fill_empty j value (none ∷ items) items' a h = ground arith
  find-fill_empty j value (some item ∷ items) items' a h =
      elim (Option-cases (fill_empty id_of value items)) [
        | inl q ↦ ground (arith, q)
        | inr (r, q) ↦ ground (arith, q, find-fill_empty j value items r, q)
      ]

  fill_empty-IsFull :
      (value : T) (items : List (Option T)) → fill_empty id_of value items ≡ none → IsFull items
  unfolding fill_empty
  fill_empty-IsFull value [] h = tt
  fill_empty-IsFull value (none ∷ items) h = ground arith
  fill_empty-IsFull value (some item ∷ items) h = ground (arith, fill_empty-IsFull value items)

  IsFull-fill_empty :
      (value : T) (items : List (Option T)) → IsFull items → fill_empty id_of value items ≡ none
  unfolding fill_empty
  IsFull-fill_empty value [] h = refl
  IsFull-fill_empty value (none ∷ items) h = absurd h
  IsFull-fill_empty value (some item ∷ items) h = ground (arith, IsFull-fill_empty value items h)

  find-none-replace_found :
      (id : ℕ) (value : Option T) (items : List (Option T))
      → find_by_id id_of id items ≡ none
      → replace_found id_of id value items ≡ none
  unfolding replace_found find_by_id
  find-none-replace_found id value [] h = refl
  find-none-replace_found id value (none ∷ items) h =
      ground (arith, find-none-replace_found id value items)
  find-none-replace_found id value (some item ∷ items) h =
      ground (arith, find-none-replace_found id value items)

  -- An insertion that succeeds changes what is found under its own id, and nothing else.
  pub find-upsert_by_id :
      (j : ℕ) (value : T) (items items' : List (Option T))
      → upsert_by_id id_of value items ≡ (items', none)
      → find_by_id id_of j items'
        ≡ (if id_of value == j then some value else find_by_id id_of j items)
  unfolding upsert_by_id
  find-upsert_by_id j value items items' h =
      elim (Option-cases (replace_found id_of (id_of value) (some value) items)) [
        | inr (r, q) ↦ ground (arith, q, find-replace_found (id_of value) j value items r refl q)
        | inl q ↦ elim (Option-cases (fill_empty id_of value items)) [
          | inl p ↦ ground (arith, p, q)
          | inr (r, p) ↦ ground (
            arith,
            p,
            q,
            find-fill_empty j value items r (replace_found-none _ (some value) items q) p,
          )
        ]
      ]

  -- An insertion fails exactly when no slot is free and the id is not there; it then says that
  -- the storage is full, and changes nothing.
  pub upsert_by_id_fails :
      (value : T) (items : List (Option T))
      → (upsert_by_id id_of value items ≡ (items, some full))
        ↔ (IsFull items × (find_by_id id_of (id_of value) items ≡ none))
  unfolding upsert_by_id
  upsert_by_id_fails value items = (fails, succeeds)
    where
      fails :
          upsert_by_id id_of value items ≡ (items, some full)
          → IsFull items × (find_by_id id_of (id_of value) items ≡ none)
      fails h = elim (Option-cases (replace_found id_of (id_of value) (some value) items)) [
        | inr (r, q) ↦ ground (arith, q)
        | inl q ↦ elim (Option-cases (fill_empty id_of value items)) [
          | inl p ↦ (fill_empty-IsFull value items p, replace_found-none _ (some value) items q)
          | inr (r, p) ↦ ground (arith, p, q)
        ]
      ]

      succeeds :
          IsFull items × (find_by_id id_of (id_of value) items ≡ none)
          → upsert_by_id id_of value items ≡ (items, some full)
      succeeds h = ground (
        arith,
        find-none-replace_found (id_of value) (some value) items h.1,
        IsFull-fill_empty value items h.0,
      )

  find-delete :
      (id j : ℕ) (items items' : List (Option T))
      → Unique items
      → replace_found id_of id none items ≡ some items'
      → find_by_id id_of j items' ≡ (if id == j then none else find_by_id id_of j items)
  unfolding replace_found find_by_id
  find-delete id j [] items' u h = ground arith
  find-delete id j (none ∷ items) items' u h =
      elim (Option-cases (replace_found id_of id none items)) [
        | inl q ↦ ground (arith, q)
        | inr (r, q) ↦ ground (arith, q, find-delete id j items r u q)
      ]
  find-delete id j (some item ∷ items) items' u h =
      elim (Option-cases (replace_found id_of id none items)) [
        | inl q ↦ ground (arith, q)
        | inr (r, q) ↦ ground (arith, q, find-delete id j items r u.1 q)
      ]

  -- With unique ids a deletion that succeeds removes what is found under its id, and nothing else.
  pub find-delete_by_id :
      (id j : ℕ) (items items' : List (Option T))
      → Unique items
      → delete_by_id id_of id items ≡ (items', none)
      → find_by_id id_of j items' ≡ (if id == j then none else find_by_id id_of j items)
  unfolding delete_by_id
  find-delete_by_id id j items items' u h =
      elim (Option-cases (replace_found id_of id none items)) [
        | inl q ↦ ground (arith, q)
        | inr (r, q) ↦ ground (arith, q, find-delete id j items r u q)
      ]

  replace_found-Unique :
      (id : ℕ) (value : T) (items items' : List (Option T))
      → id_of value ≡ id
      → Unique items
      → replace_found id_of id (some value) items ≡ some items'
      → Unique items'
  unfolding replace_found
  replace_found-Unique id value [] items' e u h = ground arith
  replace_found-Unique id value (none ∷ items) items' e u h =
      elim (Option-cases (replace_found id_of id (some value) items)) [
        | inl q ↦ ground (arith, q)
        | inr (r, q) ↦ ground (arith, q, replace_found-Unique id value items r e u q)
      ]
  replace_found-Unique id value (some item ∷ items) items' e u h =
      elim (Option-cases (replace_found id_of id (some value) items)) [
        | inl q ↦ ground (arith, q)
        | inr (r, q) ↦ ground (
          arith,
          q,
          replace_found-Unique id value items r e u.1 q,
          find-replace_found id (id_of item) value items r e q,
        )
      ]

  fill_empty-Unique :
      (value : T) (items items' : List (Option T))
      → find_by_id id_of (id_of value) items ≡ none
      → Unique items
      → fill_empty id_of value items ≡ some items'
      → Unique items'
  unfolding fill_empty find_by_id
  fill_empty-Unique value [] items' a u h = ground arith
  fill_empty-Unique value (none ∷ items) items' a u h = ground arith
  fill_empty-Unique value (some item ∷ items) items' a u h =
      elim (Option-cases (fill_empty id_of value items)) [
        | inl q ↦ ground (arith, q)
        | inr (r, q) ↦ ground (
          arith,
          q,
          fill_empty-Unique value items r,
          find-fill_empty (id_of item) value items r,
          q,
        )
      ]

  -- An insertion keeps the ids unique, whether it succeeds or not.
  pub upsert_by_id-Unique :
      (value : T) (items : List (Option T))
      → Unique items
      → Unique (upsert_by_id id_of value items).0
  unfolding upsert_by_id
  upsert_by_id-Unique value items u =
      elim (Option-cases (replace_found id_of (id_of value) (some value) items)) [
        | inr (r, q) ↦ rw (q, upsert_by_id) (replace_found-Unique _ value items r refl u q)
        | inl q ↦ elim (Option-cases (fill_empty id_of value items)) [
          | inl p ↦ rw (q, p, upsert_by_id) u
          | inr (r, p) ↦
              rw (q, p, upsert_by_id)
                (fill_empty-Unique value items r (replace_found-none _ (some value) items q) u p)
        ]
      ]

  delete-Unique :
      (id : ℕ) (items items' : List (Option T))
      → Unique items
      → replace_found id_of id none items ≡ some items'
      → Unique items'
  unfolding replace_found
  delete-Unique id [] items' u h = ground arith
  delete-Unique id (none ∷ items) items' u h =
      elim (Option-cases (replace_found id_of id none items)) [
        | inl q ↦ ground (arith, q)
        | inr (r, q) ↦ ground (arith, q, delete-Unique id items r u q)
      ]
  delete-Unique id (some item ∷ items) items' u h =
      elim (Option-cases (replace_found id_of id none items)) [
        | inl q ↦ ground (arith, q)
        | inr (r, q) ↦
            ground
              (arith, q, delete-Unique id items r u.1 q, find-delete id (id_of item) items r u.1 q)
      ]

  -- So does a deletion.
  pub delete_by_id-Unique :
      (id : ℕ) (items : List (Option T)) → Unique items → Unique (delete_by_id id_of id items).0
  unfolding delete_by_id
  delete_by_id-Unique id items u = elim (Option-cases (replace_found id_of id none items)) [
    | inl q ↦ rw (q, delete_by_id) u
    | inr (r, q) ↦ rw (q, delete_by_id) (delete-Unique id items r u q)
  ]

  length-replace_found :
      (id : ℕ) (value : Option T) (items items' : List (Option T))
      → replace_found id_of id value items ≡ some items'
      → length items' ≡ length items
  unfolding replace_found
  length-replace_found id value [] items' h = ground arith
  length-replace_found id value (slot ∷ items) items' h =
      elim (Option-cases (replace_found id_of id value items)) [
        | inl q ↦ ground (arith, q)
        | inr (r, q) ↦ ground (arith, q, length-replace_found id value items r q)
      ]
