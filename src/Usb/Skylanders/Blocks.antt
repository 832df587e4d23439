-- ===== src/Usb/Skylanders/Blocks.antt =====
-- Blocks that the host writes and reads: `write_block` and `query_block` of src/usb/skylanders.rs.
use mathlib.Core.Path.{subst}
use mathlib.Core.Option
use omniportal.Base.{
  ℕ, ◌*◌, ◌≤◌, ◌<◌, ◌≡◌, ◌≢◌, refl, sym, ap, ◌∙◌, List, true, false, some, arith, length, get_elem?,
  set, take, slice, splice, leb, ltb, ◌==◌, length-take, slice-splice, slice-splice_before,
  get_range, get_range-some, copy_into, copy_into-some, length-splice, drop-splice_after,
  get_elem?-set_self, get_elem?-set_ne, get_elem?-lt, ==_iff, Bool-cases, inl, inr, ◌⊎◌,
}
use omniportal.Base.Bytes.{bytes_eq, bytes_eq_sound}
use omniportal.Usb.Skylanders.Slot.{PortalSlot, ready, is_present}
use omniportal.Usb.Skylanders.Reports.{Report, query_response, write_response}
use omniportal.Usb.Skylanders.{
  PortalState, write_block, write_to_slot, write_in_range, overwrite_block, read_block, query_block,
  block_of,
}

pub query_block-ready :
    (state : PortalState) (slot block : ℕ) (s : PortalSlot)
    → get_elem? state.slots slot ≡ some s
    → s.slot_status ≡ ready
    → block < 64
    → length s.image ≡ 1024
    → query_block slot block state ≡ some (query_response slot block (block_of block s.image))
unfolding query_block
query_block-ready state slot block s at_slot is_ready block_lt size =
    let read = get_range-some (block * 16) 16 s.image (omega arith) in
    let in_range : leb 64 block ≡ false = ground arith in
    rw (at_slot, in_range, query_block, read_block, read, is_ready) refl

module _ (state : PortalState) (slot block : ℕ) (source : List ℕ) (s : PortalSlot)
    (at_slot : get_elem? state.slots slot ≡ some s) (is_ready : s.slot_status ≡ ready)
    (size : length s.image ≡ 1024) (enough : 16 ≤ length source) (block_lt : block < 64) where
  abbrev written : PortalSlot
  written = record s { image = splice (block * 16) (take 16 source) s.image; dirty = true }

  sixteen : length (take 16 source) ≡ 16
  sixteen = omega (arith, length-take 16 source)

  -- The written block is the data.
  block_of-written : block_of block written.image ≡ take 16 source
  block_of-written =
      let read = slice-splice (block * 16) (take 16 source) s.image (omega (arith, sixteen)) in
      subst (λ n. slice (block * 16) n written.image ≡ take 16 source) sixteen read

  in_range : leb 64 block ≡ false
  in_range = ground arith

  long_enough : ltb (length source) 16 ≡ false
  long_enough = ground arith

  old_read : get_range (block * 16) 16 s.image ≡ some (block_of block s.image)
  old_read = get_range-some (block * 16) 16 s.image (omega arith)

  data_read : get_range 0 16 source ≡ some (take 16 source)
  data_read = get_range-some 0 16 source enough

  copied : copy_into (block * 16) (take 16 source) s.image ≡ some written.image
  copied = copy_into-some (block * 16) (take 16 source) s.image (omega (arith, sixteen))

  present : is_present s.slot_status ≡ true
  unfolding is_present
  present = ap is_present is_ready

  write_block-same :
      bytes_eq (block_of block s.image) (take 16 source) ≡ true
      → write_block slot block source state ≡ some (state, write_response slot block true)
  unfolding write_block write_to_slot write_in_range
  write_block-same h =
      rw
        (
          at_slot, in_range, present, long_enough, old_read, data_read, h, write_block,
          write_to_slot, write_in_range,
        )
        refl

  write_block-new :
      bytes_eq (block_of block s.image) (take 16 source) ≡ false
      → write_block slot block source state
        ≡ some
            (record state { slots = set state.slots slot written }, write_response slot block true)
  unfolding write_block write_to_slot write_in_range
  write_block-new h =
      rw
        (
          at_slot, in_range, present, long_enough, old_read, data_read, h, overwrite_block, copied,
          write_block, write_to_slot, write_in_range,
        )
        refl

  -- For a slot of the portal whose figure is ready and has an image of 1,024 bytes, a block below
  -- 64, and data of 16 bytes at least: the write of the block does not panic and is acknowledged,
  -- and a query of the block then returns the first 16 bytes of the data.
  pub query_block-write_block :
      (state' : PortalState) × (write_block slot block source state
        ≡ some (state', write_response slot block true))
      × (query_block slot block state' ≡ some (query_response slot block (take 16 source)))
  query_block-write_block = elim (Bool-cases (bytes_eq (block_of block s.image) (take 16 source))) [
    | inl h ↦ (
      state,
      write_block-same h,
      query_block-ready state slot block s at_slot is_ready block_lt size
          ∙ ap (λ new_bytes. some (query_response slot block new_bytes))
              (bytes_eq_sound (block_of block s.image) (take 16 source) h),
    )
    | inr h ↦ (
      record state { slots = set state.slots slot written },
      write_block-new h,
      query_block-ready (record state { slots = set state.slots slot written }) slot block written
            (get_elem?-set_self state.slots slot written (get_elem?-lt state.slots slot s at_slot))
            is_ready block_lt (length-splice (block * 16) (take 16 source) s.image ∙ size)
          ∙ ap (λ new_bytes. some (query_response slot block new_bytes)) block_of-written,
    )
  ]

  other_block :
      (block' : ℕ) → block' ≢ block → block_of block' written.image ≡ block_of block' s.image
  other_block block' ne =
      let side : (block' < block) ⊎ (block < block') = ground arith in
      elim side [
        | inl lt ↦
            slice-splice_before (block' * 16) 16 (block * 16) (take 16 source) s.image
              (omega (arith, lt))
        | inr gt ↦ ap (take 16) (
            drop-splice_after (block * 16) (block' * 16) (take 16 source) s.image
              (omega (arith, gt, sixteen)))
      ]

  block_of-set :
      (slot' block' : ℕ)
      → (slot' ≢ slot) ⊎ (block' ≢ block)
      → Option.map (λ s'. block_of block' s'.image) (get_elem? (set state.slots slot written) slot')
        ≡ Option.map (λ s'. block_of block' s'.image) (get_elem? state.slots slot')
  block_of-set slot' block' (inl ne) =
      ap (Option.map (λ s'. block_of block' s'.image))
        (get_elem?-set_ne state.slots slot slot' written (λ e. ne (sym e)))
  block_of-set slot' block' (inr ne) = elim (Bool-cases (slot == slot')) [
    | inr e ↦
        ap (Option.map (λ s'. block_of block' s'.image))
          (get_elem?-set_ne state.slots slot slot' written (ground arith))
    | inl e ↦
        subst
          (λ i.
            Option.map (λ s'. block_of block' s'.image) (get_elem? (set state.slots slot written) i)
            ≡ Option.map (λ s'. block_of block' s'.image) (get_elem? state.slots i))
          ((==_iff slot slot').0 e)
          (rw
            (
              get_elem?-set_self state.slots slot written (get_elem?-lt state.slots slot s at_slot),
              at_slot,
            )
            (ap some (other_block block' ne)))
  ]

  -- Under the same conditions the write does not panic, and leaves every other block of the figure
  -- as it is, and every block of every other slot.
  pub block_of-write_block :
      (slot' block' : ℕ)
      → (slot' ≢ slot) ⊎ (block' ≢ block)
      → (result : PortalState × Report) × (write_block slot block source state ≡ some result)
        × (Option.map (λ s'. block_of block' s'.image) (get_elem? result.0.slots slot')
            ≡ Option.map (λ s'. block_of block' s'.image) (get_elem? state.slots slot'))
  block_of-write_block slot' block' other =
      elim (Bool-cases (bytes_eq (block_of block s.image) (take 16 source))) [
        | inl h ↦ ((state, write_response slot block true), write_block-same h, refl)
        | inr h ↦ (
          (record state { slots = set state.slots slot written }, write_response slot block true),
          write_block-new h,
          block_of-set slot' block' other,
        )
      ]
