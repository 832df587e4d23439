-- ===== src/Usb/Infinity/Orders.antt =====
-- The orders of the figures on the Infinity base, by which the host names them: src/usb/infinity.rs.
use mathlib.Core.Option.{some-injective}
use omniportal.Base.{
  ℕ, zero, suc, ◌≤◌, ◌<◌, ◌≡◌, ◌≢◌, refl, sym, ap, ◌∙◌, List, [], ◌∷◌, Bool, true, false, some,
  arith, length, get_elem?, get_or, set, ◌==◌, ==_iff, length-set, Bool-cases, inl, inr, ◌⊎◌,
  if◌then◌else◌, replicate,
}
use omniportal.Base.Bytes.{add8}
use omniportal.Usb.Infinity.Position.{FigurePosition, index, index_lt}
use omniportal.Usb.Infinity.{
  FigureSlot, InfinityBaseState, new_slot, new_state, figure_at, add_figure, push_change_response,
  load_figure, remove_figure,
}

-- How many places have an order: 0xff stands for none.
unfoldable pub assigned : List FigureSlot → ℕ
assigned [] = 0
assigned (figure ∷ figures) =
    let rest = assigned figures in if figure.order_added == 0xff then rest else suc rest

-- The orders that are given out are below `next_order`, and no two places have the same.
pub record IsBase (state : InfinityBaseState) : Type 0 where
  pub figure_count : length state.figures ≡ 9
  pub next_order_eq : state.next_order ≡ assigned state.figures
  pub order_lt :
      (i : ℕ) (figure : FigureSlot)
      → get_elem? state.figures i ≡ some figure
      → figure.order_added ≢ 0xff
      → figure.order_added < state.next_order
  pub order_unique :
      (i j : ℕ) (a b : FigureSlot)
      → get_elem? state.figures i ≡ some a
      → get_elem? state.figures j ≡ some b
      → a.order_added ≡ b.order_added
      → a.order_added ≢ 0xff
      → i ≡ j

assigned_le : (figures : List FigureSlot) → assigned figures ≤ length figures
unfolding assigned
assigned_le [] = omega arith
assigned_le (figure ∷ figures) = ground (arith, assigned_le figures)

-- A place whose order is changed from none to one counts once more.
assigned-set_fresh :
    (figures : List FigureSlot) (i : ℕ) (old new : FigureSlot)
    → get_elem? figures i ≡ some old
    → old.order_added ≡ 0xff
    → new.order_added ≢ 0xff
    → assigned (set figures i new) ≡ suc (assigned figures)
unfolding assigned
assigned-set_fresh [] i old new h is_none ne = ground arith
assigned-set_fresh (f ∷ figures) zero old new h is_none ne =
    let same = ap (λ g. g.order_added) (some-injective f old h) in ground arith
assigned-set_fresh (f ∷ figures) (suc i) old new h is_none ne =
    ground (arith, assigned-set_fresh figures i old new h is_none ne)

assigned-set_same :
    (figures : List FigureSlot) (i : ℕ) (old new : FigureSlot)
    → get_elem? figures i ≡ some old
    → old.order_added ≡ new.order_added
    → assigned (set figures i new) ≡ assigned figures
unfolding assigned
assigned-set_same [] i old new h same = refl
assigned-set_same (f ∷ figures) zero old new h same =
    let own = ap (λ g. g.order_added) (some-injective f old h) in ground arith
assigned-set_same (f ∷ figures) (suc i) old new h same =
    ground (arith, assigned-set_same figures i old new h same)

get_elem?-set_cases :
    (xs : List FigureSlot) (i j : ℕ) (v a : FigureSlot)
    → get_elem? (set xs i v) j ≡ some a
    → ((i ≡ j) × (v ≡ a)) ⊎ (get_elem? xs j ≡ some a)
get_elem?-set_cases [] i j v a h = inr h
get_elem?-set_cases (x ∷ xs) zero zero v a h = inl (refl, some-injective v a h)
get_elem?-set_cases (x ∷ xs) zero (suc j) v a h = inr h
get_elem?-set_cases (x ∷ xs) (suc i) zero v a h = inr h
get_elem?-set_cases (x ∷ xs) (suc i) (suc j) v a h = elim (get_elem?-set_cases xs i j v a h) [
  | inl e ↦ inl (ap suc e.0, e.1)
  | inr e ↦ inr e
]

get_or-some :
    (xs : List FigureSlot) (i : ℕ) (d : FigureSlot)
    → i < length xs
    → get_elem? xs i ≡ some (get_or xs i d)
get_or-some [] i d h = absurd (omega arith)
get_or-some (x ∷ xs) zero d h = refl
get_or-some (x ∷ xs) (suc i) d h = get_or-some xs i d (omega arith)

next_order_le : (state : InfinityBaseState) → IsBase state → state.next_order ≤ 9
next_order_le state v = omega (arith, assigned_le state.figures, v.next_order_eq, v.figure_count)

-- A place whose figure changes and keeps its order.
keep-IsBase :
    (state : InfinityBaseState) (i : ℕ) (old new : FigureSlot)
    → IsBase state
    → get_elem? state.figures i ≡ some old
    → old.order_added ≡ new.order_added
    → IsBase (record state { figures = set state.figures i new })
keep-IsBase state i old new v at_place same = record {
  figure_count = length-set state.figures i new ∙ v.figure_count;
  next_order_eq = v.next_order_eq ∙ sym (assigned-set_same state.figures i old new at_place same);
  order_lt = λ j f h ne. elim (get_elem?-set_cases state.figures i j new f h) [
    | inl e ↦
        let own = same ∙ ap (λ g. g.order_added) e.1 in
        let lt = v.order_lt i old at_place (λ n. ne (sym own ∙ n)) in omega (arith, own, lt)
    | inr e ↦ v.order_lt j f e ne
  ];
  order_unique = λ j k a b ha hb eq ne. elim (get_elem?-set_cases state.figures i j new a ha) [
    | inl e ↦ elim (get_elem?-set_cases state.figures i k new b hb) [
      | inl f ↦ sym e.0 ∙ f.0
      | inr f ↦
          let own = same ∙ ap (λ g. g.order_added) e.1 in
          sym e.0 ∙ v.order_unique i k old b at_place f (own ∙ eq) (λ n. ne (sym own ∙ n))
    ]
    | inr e ↦ elim (get_elem?-set_cases state.figures i k new b hb) [
      | inl f ↦
          let own = same ∙ ap (λ g. g.order_added) f.1 in
          v.order_unique j i a old e at_place (eq ∙ sym own) ne ∙ f.0
      | inr f ↦ v.order_unique j k a b e f eq ne
    ]
  ];
}

-- A place whose figure gets the next order.
fresh-IsBase :
    (state : InfinityBaseState) (i : ℕ) (old new : FigureSlot)
    → IsBase state
    → get_elem? state.figures i ≡ some old
    → old.order_added ≡ 0xff
    → new.order_added ≡ state.next_order
    → IsBase
        (record state { figures = set state.figures i new; next_order = add8 state.next_order 1 })
fresh-IsBase state i old new v at_place is_none own = record {
  figure_count = length-set state.figures i new ∙ v.figure_count;
  next_order_eq =
      let bound = next_order_le state v in
      let counted =
        assigned-set_fresh state.figures i old new at_place is_none
          (λ n. omega (arith, n, own, bound)) in
      omega (arith, counted, v.next_order_eq, bound);
  order_lt = λ j f h ne. elim (get_elem?-set_cases state.figures i j new f h) [
    | inl e ↦ let eq = ap (λ g. g.order_added) e.1 in omega (arith, own, eq, next_order_le state v)
    | inr e ↦ omega (arith, v.order_lt j f e ne, next_order_le state v)
  ];
  order_unique = λ j k a b ha hb eq ne. elim (get_elem?-set_cases state.figures i j new a ha) [
    | inl e ↦ elim (get_elem?-set_cases state.figures i k new b hb) [
      | inl f ↦ sym e.0 ∙ f.0
      | inr f ↦
          let mine = ap (λ g. g.order_added) e.1 in
          let lt = v.order_lt k b f (λ n. ne (eq ∙ n)) in absurd (omega (arith, mine, lt, own, eq))
    ]
    | inr e ↦ elim (get_elem?-set_cases state.figures i k new b hb) [
      | inl f ↦
          let mine = ap (λ g. g.order_added) f.1 in
          let lt = v.order_lt j a e ne in absurd (omega (arith, mine, lt, own, eq))
      | inr f ↦ v.order_unique j k a b e f eq ne
    ]
  ];
}

pub at_position :
    (position : FigurePosition) (state : InfinityBaseState)
    → IsBase state
    → get_elem? state.figures (index position) ≡ some (figure_at position state)
at_position position state v =
    get_or-some state.figures (index position) new_slot
      (omega (arith, v.figure_count, index_lt position))

add_figure-IsBase :
    (position : FigurePosition) (image : List ℕ) (state : InfinityBaseState)
    → IsBase state
    → IsBase (add_figure position image state)
unfolding add_figure
add_figure-IsBase position image state v =
    elim (Bool-cases ((figure_at position state).order_added == 0xff)) [
      | inl e ↦
          rw (e, add_figure)
            (fresh-IsBase state (index position) (figure_at position state) _ v
              (at_position position state v) ((==_iff _ 0xff).0 e) refl)
      | inr e ↦
          rw (e, add_figure)
            (keep-IsBase state (index position) (figure_at position state) _ v
              (at_position position state v) refl)
    ]

push_change_response-IsBase :
    (position : FigurePosition) (was_removed : Bool) (state : InfinityBaseState)
    → IsBase state
    → IsBase (push_change_response position was_removed state)
unfolding push_change_response
push_change_response-IsBase position was_removed state v = record {
  figure_count = v.figure_count;
  next_order_eq = v.next_order_eq;
  order_lt = v.order_lt;
  order_unique = v.order_unique;
}

-- Placing a figure keeps the orders of the places distinct and below the next one, and the next
-- one equal to their number, whatever the position and the image are.
pub load_figure-IsBase :
    (position : FigurePosition) (image : List ℕ) (state : InfinityBaseState)
    → IsBase state
    → IsBase (load_figure position image state).0
unfolding load_figure
load_figure-IsBase position image state v = elim (Bool-cases (length image == 320)) [
  | inl e ↦
      rw (e, load_figure)
        (push_change_response-IsBase position false (add_figure position image state)
          (add_figure-IsBase position image state v))
  | inr e ↦ rw (e, load_figure) v
]

-- Removing a figure does so too.
pub remove_figure-IsBase :
    (position : FigurePosition) (state : InfinityBaseState)
    → IsBase state
    → IsBase (remove_figure position state)
unfolding remove_figure
remove_figure-IsBase position state v = elim (Bool-cases (figure_at position state).present) [
  | inr e ↦ rw (e, remove_figure) v
  | inl e ↦
      rw (e, remove_figure)
        (push_change_response-IsBase position true _ (
          keep-IsBase state (index position) (figure_at position state) _ v
            (at_position position state v) refl))
]

replicate_order :
    (n i : ℕ) (f : FigureSlot) → get_elem? (replicate n new_slot) i ≡ some f → f.order_added ≡ 0xff
unfolding new_slot
replicate_order zero i f h = ground arith
replicate_order (suc n) zero f h = ap (λ a. a.order_added) (sym (some-injective new_slot f h))
replicate_order (suc n) (suc i) f h = replicate_order n i f h

pub new_state-IsBase : IsBase new_state
unfolding new_state assigned new_slot
new_state-IsBase = record {
  figure_count = refl;
  next_order_eq = refl;
  order_lt = λ i f h ne. absurd (ne (replicate_order 9 i f h));
  order_unique = λ i j a b ha hb eq ne. absurd (ne (replicate_order 9 i a ha));
}
