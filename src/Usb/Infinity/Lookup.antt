-- ===== src/Usb/Infinity/Lookup.antt =====
-- Finding a figure on the Infinity base by its order: src/usb/infinity.rs.
use mathlib.Core.Option.{some-injective}
use omniportal.Base.{
  ℕ, zero, suc, ◌≡◌, ◌≢◌, refl, sym, ap, ◌∙◌, List, [], ◌∷◌, true, ◌&&◌, some, arith, get_elem?,
  ◌==◌, Bool-cases, Option-cases, inl, inr,
}
use omniportal.Usb.Infinity.Position.{FigurePosition, index, figure_position_from_index-index}
use omniportal.Usb.Infinity.{
  FigureSlot, InfinityBaseState, find_order, figure_at, figure_position_by_order,
}
use omniportal.Usb.Infinity.Orders.{IsBase, at_position}

find_order_sound :
    (order i : ℕ) (figures : List FigureSlot)
    → find_order order figures ≡ some i
    → (f : FigureSlot) × (get_elem? figures i ≡ some f) × (f.order_added ≡ order)
unfolding find_order
find_order_sound order i [] h = ground arith
find_order_sound order zero (f ∷ figures) h =
    let own : f.order_added ≡ order = elim (Option-cases (find_order order figures)) [
      | inl r ↦ ground (arith, r)
      | inr (j, r) ↦ ground (arith, r)
    ] in
    (f, refl, own)
find_order_sound order (suc i) (f ∷ figures) h =
    let behind : find_order order figures ≡ some i =
      elim (Option-cases (find_order order figures)) [
        | inl r ↦ ground (arith, r)
        | inr (j, r) ↦ ground (arith, r)
      ] in
    find_order_sound order i figures behind

find_order_complete :
    (order i : ℕ) (figures : List FigureSlot) (f : FigureSlot)
    → get_elem? figures i ≡ some f
    → f.present ≡ true
    → f.order_added ≡ order
    → (j : ℕ) × (find_order order figures ≡ some j)
unfolding find_order
find_order_complete order i [] f h shown own = ground arith
find_order_complete order zero (g ∷ figures) f h shown own =
    let same = some-injective g f h in
    let shown' : g.present ≡ true = ap (λ a. a.present) same ∙ shown in
    let own' : g.order_added ≡ order = ap (λ a. a.order_added) same ∙ own in (zero, ground arith)
find_order_complete order (suc i) (g ∷ figures) f h shown own =
    let behind = find_order_complete order i figures f h shown own in
    elim (Bool-cases (g.present && (g.order_added == order))) [
      | inl e ↦ (zero, ground (arith, e))
      | inr e ↦ (suc behind.0, ground (arith, e, behind.1))
    ]

-- In a state whose orders are distinct, the order of a figure on the base names its place: the
-- search for a present figure with that order gives the position of that figure.
pub figure_position_by_order-order_added :
    (position : FigurePosition) (state : InfinityBaseState)
    → IsBase state
    → (figure_at position state).present ≡ true
    → (figure_at position state).order_added ≢ 0xff
    → figure_position_by_order (figure_at position state).order_added state ≡ some position
unfolding figure_position_by_order
figure_position_by_order-order_added position state v shown ne =
    let own = at_position position state v in
    let found =
      find_order_complete (figure_at position state).order_added (index position) state.figures
        (figure_at position state) own shown refl in
    let right =
      find_order_sound (figure_at position state).order_added found.0 state.figures found.1 in
    let place =
      v.order_unique (index position) found.0 (figure_at position state) right.0 own right.1
        (sym right.2) ne in
    rw (found.1, ← place, figure_position_by_order) (figure_position_from_index-index position)
