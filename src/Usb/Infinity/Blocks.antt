-- ===== src/Usb/Infinity/Blocks.antt =====
-- Blocks that the host writes and reads: src/usb/infinity.rs.
use mathlib.Core.Path.{subst}
use mathlib.Core.Option
use mathlib.Core.Option.{some-injective}
use omniportal.Base.{
  ℕ, zero, suc, ◌*◌, ◌≤◌, ◌<◌, ◌≡◌, refl, ap, List, [], ◌∷◌, true, ◌&&◌, some, arith, length,
  get_elem?, set, take, slice, splice, leb, ◌==◌, length-take, slice-splice, get_elem?-set_self,
  get_elem?-lt, sym, if◌then◌else◌, le→leb,
}
use omniportal.Usb.Infinity.Packets.{response_head, seal}
use omniportal.Usb.Infinity.{
  FigureSlot, InfinityBaseState, find_order, figure_by_order, command_block_to_file_block,
}
use omniportal.Usb.Infinity.Commands.{
  write_figure, write_block_response, query_block_response, file_block_of,
}

-- A change of a figure's data alone does not change who has which order.
find_order-set :
    (order i : ℕ) (figures : List FigureSlot) (figure : FigureSlot) (bytes : List ℕ)
    → get_elem? figures i ≡ some figure
    → find_order order (set figures i (record figure { figure_data = bytes }))
      ≡ find_order order figures
unfolding find_order
find_order-set order i [] figure bytes h = refl
find_order-set order zero (f ∷ figures) figure bytes h =
    ap
      (λ g.
        if g.present && (g.order_added == order)
        then some zero
        else Option.map suc (find_order order figures))
      (sym (some-injective f figure h))
find_order-set order (suc i) (f ∷ figures) figure bytes h =
    ap (λ r. if f.present && (f.order_added == order) then some zero else Option.map suc r)
      (find_order-set order i figures figure bytes h)

file_block_lt :
    (block file_block : ℕ) → command_block_to_file_block block ≡ some file_block → file_block < 20
unfolding command_block_to_file_block
file_block_lt block file_block h = ground arith

module _ (state : InfinityBaseState) (order block sequence : ℕ) (bytes : List ℕ) (i file_block : ℕ)
    (figure : FigureSlot) (has_order : find_order order state.figures ≡ some i)
    (at_place : get_elem? state.figures i ≡ some figure)
    (in_image : command_block_to_file_block block ≡ some file_block)
    (size : length figure.figure_data ≡ 320) (enough : 16 ≤ length bytes) where
  abbrev written : FigureSlot
  written = record figure {
    figure_data = splice (file_block * 16) (take 16 bytes) figure.figure_data;
  }

  write_figure-some : write_figure order block bytes state.figures ≡ set state.figures i written
  unfolding write_figure
  write_figure-some = rw (has_order, at_place, in_image, write_figure) refl

  figure_by_order-written : figure_by_order order (set state.figures i written) ≡ some written
  unfolding figure_by_order
  figure_by_order-written =
      rw
        (
          find_order-set order i state.figures figure written.figure_data at_place,
          has_order,
          figure_by_order,
        )
        (get_elem?-set_self state.figures i written (get_elem?-lt state.figures i figure at_place))

  sixteen : length (take 16 bytes) ≡ 16
  sixteen = omega (arith, length-take 16 bytes)

  file_block_of-written : file_block_of file_block written.figure_data ≡ take 16 bytes
  file_block_of-written =
      subst (λ n. slice (file_block * 16) n written.figure_data ≡ take 16 bytes) sixteen
        (slice-splice (file_block * 16) (take 16 bytes) figure.figure_data
          (omega (arith, sixteen, file_block_lt block file_block in_image)))

  abbrev after : InfinityBaseState
  after = record state { figures = set state.figures i written }

  write_block_response-after : (write_block_response order block bytes sequence state).0 ≡ after
  unfolding write_block_response
  write_block_response-after =
      let long_enough : leb 16 (length bytes) ≡ true = le→leb 16 (length bytes) enough in
      rw (long_enough, write_figure-some) refl

  query_block_response-after :
      query_block_response order block sequence after
      ≡ seal 20 (splice 4 (take 16 bytes) (response_head 0x12 sequence))
  unfolding query_block_response
  query_block_response-after =
      rw (figure_by_order-written, in_image, query_block_response)
        (ap (λ b. seal 20 (splice 4 b (response_head 0x12 sequence))) file_block_of-written)

  -- For an order that a figure with data of 320 bytes has, a block that maps into the image, and 16
  -- bytes at least: after the write, a query of the block returns the first 16 bytes.
  pub query_block_response-write_block_response :
      query_block_response order block sequence
        (write_block_response order block bytes sequence state).0
      ≡ seal 20 (splice 4 (take 16 bytes) (response_head 0x12 sequence))
  query_block_response-write_block_response =
      rw write_block_response-after query_block_response-after
