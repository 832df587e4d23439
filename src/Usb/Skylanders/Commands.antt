-- ===== src/Usb/Skylanders/Commands.antt =====
-- The operations of src/usb/skylanders.rs that index arrays, and the commands: none panics.
use mathlib.Core.Path.{subst}
use mathlib.Core.Option.{some-injective}
use omniportal.Usb.Skylanders.Reports.{Report, query_response, query_error_response, write_response}
use omniportal.Base.{
  sym, length-take, if◌then◌else◌, get_range, get_range-some, copy_into, copy_into-some, copy_all,
  copy_all-some,
}
use omniportal.Base.{
  ℕ, zero, suc, ◌+◌, ◌-◌, ◌*◌, ◌≤◌, ◌<◌, ◌≡◌, refl, ap, ◌∙◌, List, [], ◌∷◌, ◌++◌, Bool, true, false,
  Option, none, some, map, length, get_elem?, set, splice, length-splice, length-set, length-map,
  length-append, arith, Option-cases, Bool-cases, inl, inr, ◌==◌, leb, ltb, ◌||◌, not,
}
use omniportal.Base.Bytes.{bytes_eq}
use omniportal.Base.All.{All-get_elem?}
use omniportal.Usb.Skylanders.Slot.{PortalSlot, is_present}
use omniportal.Usb.Skylanders.{
  PortalState, place, load_entity_into_slot, write_block, write_to_slot, handle_op, handle_command,
  write_command, query_command, query_block, read_block, is_ready, written, overwrite_block,
  write_in_range, CommandResponse, respond_read, respond_written, command_slot, block_of,
}
use omniportal.Usb.Skylanders.Invariant.{
  IsSlot, IsPortal, set-IsPortal, place-IsSlot, next_status_report-IsPortal,
  activate_command-IsPortal,
}

three_tests : (a b c : Bool) → (a || b || c) ≡ false → (a ≡ false) × (c ≡ false)
three_tests true b c h = absurd (ground arith)
three_tests false true c h = absurd (ground arith)
three_tests false false c h = (refl, h)

first_of_two : (a b : Bool) → (a || b) ≡ false → a ≡ false
first_of_two true b h = h
first_of_two false b h = refl

-- The operation does not panic, and the portal keeps its shape.
unfoldable pub Returns : {A : Type 0} → Option (PortalState × A) → Type 0
Returns {A} o = (result : PortalState × A) × (o ≡ some result) × IsPortal result.0

returns : {A : Type 0} → (state : PortalState) (a : A) → IsPortal state → Returns (some (state, a))
unfolding Returns
returns state a v = ((state, a), refl, v)

if-Returns :
    {A : Type 0}
    → (b : Bool) (x y : Option (PortalState × A)) → Returns x
    → Returns y
    → Returns (if b then x else y)
if-Returns true x y hx hy = hx
if-Returns false x y hx hy = hy

-- Placing a figure does not panic and keeps the portal well formed, whatever the slot, the id and
-- the image are.
pub load_entity_into_slot-Returns :
    (slot id : ℕ) (image : List ℕ) (state : PortalState)
    → IsPortal state
    → Returns (load_entity_into_slot slot id image state)
unfolding load_entity_into_slot
load_entity_into_slot-Returns slot id image state v = elim (Bool-cases (length image == 1024)) [
  | inr e ↦ rw (e, load_entity_into_slot) (returns state false v)
  | inl h ↦ elim (Option-cases (get_elem? state.slots slot)) [
    | inl e ↦ rw (h, e, load_entity_into_slot) (returns state false v)
    | inr (s, e) ↦
        let w = All-get_elem? IsSlot state.slots slot s v.all_slots e in
        let whole : length image ≡ length s.image = ground (arith, w.image_size) in
        rw (h, e, copy_all-some image s.image whole, load_entity_into_slot)
          (returns (record state { slots = set state.slots slot (place id image s) }) true
            (set-IsPortal state slot (place id image s) v (place-IsSlot id image s w)))
  ]
]

module _ (state : PortalState) (slot block : ℕ) (source : List ℕ) (s : PortalSlot)
    (v : IsPortal state) (w : IsSlot s) where
  abbrev new_bytes : List ℕ
  new_bytes = omniportal.Base.take 16 source

  write_in_range-Returns :
      block < 64 → 16 ≤ length source → Returns (write_in_range state slot block source s)
  unfolding write_in_range
  write_in_range-Returns block_lt enough =
      let size = w.image_size in
      let sixteen : length new_bytes ≡ 16 = omega (arith, length-take 16 source) in
      let image' = splice (block * 16) new_bytes s.image in
      let changed =
        set-IsPortal state slot (record s { image = image'; dirty = true }) v
          (record {
            image_size = length-splice (block * 16) new_bytes s.image ∙ size;
            queue_size = w.queue_size;
            hold_le = w.hold_le;
          }) in
      rw
        (
          write_in_range,
          get_range-some (block * 16) 16 s.image (omega arith),
          get_range-some 0 16 source enough,
          overwrite_block,
          copy_into-some (block * 16) new_bytes s.image (omega arith),
        )
        (if-Returns (bytes_eq (block_of block s.image) new_bytes) _ _
          (returns state (write_response slot block true) v)
          (returns (written state slot s image') (write_response slot block true) changed))

  write_to_slot-Returns : Returns (write_to_slot state slot block source s)
  unfolding write_to_slot
  write_to_slot-Returns =
      elim (Bool-cases (leb 64 block || not (is_present s.slot_status) || ltb (length source) 16)) [
        | inl e ↦ rw (e, write_to_slot) (returns state (write_response 0xff block false) v)
        | inr e ↦
            let in_range = three_tests (leb 64 block) _ (ltb (length source) 16) e in
            rw (e, write_to_slot)
              (write_in_range-Returns (ground (arith, in_range)) (ground (arith, in_range)))
      ]

pub write_block-Returns :
    (slot block : ℕ) (source : List ℕ) (state : PortalState)
    → IsPortal state
    → Returns (write_block slot block source state)
unfolding write_block
write_block-Returns slot block source state v = elim (Option-cases (get_elem? state.slots slot)) [
  | inl e ↦ rw (e, write_block) (returns state (write_response 0xff block false) v)
  | inr (s, e) ↦
      rw (e, write_block)
        (write_to_slot-Returns state slot block source s v
          (All-get_elem? IsSlot state.slots slot s v.all_slots e))
]

write_command-Returns :
    (command : List ℕ) (state : PortalState)
    → IsPortal state
    → Returns (write_command command state)
unfolding write_command
write_command-Returns command state v =
    elim (Option-cases (command_slot (omniportal.Base.get_or command 1 0xff))) [
      | inl e ↦ rw (e, write_command) (returns state _ v)
      | inr (slot, e) ↦
          rw (e, write_command)
            (write_block-Returns slot (omniportal.Base.get_or command 2 0)
              (omniportal.Base.drop 3 command) state v)
    ]

-- A query does not panic.
Answers : Option Report → Type 0
Answers o = (report : Report) × (o ≡ some report)

query_block-Answers :
    (slot block : ℕ) (state : PortalState) → IsPortal state → Answers (query_block slot block state)
unfolding Answers query_block
query_block-Answers slot block state v = elim (Option-cases (get_elem? state.slots slot)) [
  | inl e ↦ (query_error_response block, rw (query_block, e) refl)
  | inr (s, e) ↦
      let w = All-get_elem? IsSlot state.slots slot s v.all_slots e in
      let size = w.image_size in
      elim (Bool-cases (leb 64 block || not (is_ready s.slot_status))) [
        | inl t ↦ (query_error_response block, rw (query_block, e, t) refl)
        | inr t ↦
            let in_range = first_of_two (leb 64 block) (not (is_ready s.slot_status)) t in
            let read = get_range-some (block * 16) 16 s.image (ground (arith, size, in_range)) in
            (
              query_response slot block (block_of block s.image),
              rw (query_block, e, t, read_block, read) refl,
            )
      ]
]

query_command-Answers :
    (command : List ℕ) (state : PortalState)
    → IsPortal state
    → Answers (query_command command state)
unfolding query_command Answers
query_command-Answers command state v =
    elim (Option-cases (command_slot (omniportal.Base.get_or command 1 0xff))) [
      | inl e ↦
          (query_error_response (omniportal.Base.get_or command 2 0), rw (query_command, e) refl)
      | inr (slot, e) ↦
          let answer = query_block-Answers slot (omniportal.Base.get_or command 2 0) state v in
          (answer.0, rw (query_command, e) answer.1)
    ]

respond_read-Returns :
    (state : PortalState) (o : Option Report)
    → IsPortal state
    → Answers o
    → Returns (respond_read state o)
unfolding Answers
respond_read-Returns state none v a = absurd (ground (arith, a.1))
respond_read-Returns state (some report) v a = returns state _ v

respond_written-Returns :
    (o : Option (PortalState × Report)) → Returns o → Returns (respond_written o)
unfolding Returns
respond_written-Returns none r = absurd (ground (arith, r.1))
respond_written-Returns (some result) r =
    let kept = subst (λ x. IsPortal x.0) (sym (some-injective _ _ r.1)) r.2 in
    ((result.0, _), refl, kept)

handle_op-Returns :
    (op : ℕ) (command : List ℕ) (state : PortalState)
    → IsPortal state
    → Returns (handle_op op command state)
unfolding handle_op
handle_op-Returns op command state v =
    if-Returns (op == b'A') _ _ (returns _ _ (activate_command-IsPortal command state v)) (
      if-Returns (op == b'R') _ _ (returns state _ v) (
        if-Returns (op == b'S') _ _ (returns _ _ (next_status_report-IsPortal state v)) (
          if-Returns (op == b'Q') _ _
            (respond_read-Returns state (query_command command state) v
              (query_command-Answers command state v))
            (if-Returns (op == b'W') _ _
              (respond_written-Returns (write_command command state)
                (write_command-Returns command state v))
              (if-Returns (op == b'M') _ _ (returns state _ v) (
                if-Returns (op == b'J') _ _ (returns state _ v) (
                  if-Returns (op == b'C') _ _ (returns state _ v) (
                    if-Returns ((op == b'L') || (op == b'V') || (op == b'Z')) _ _
                      (returns state _ v) (returns state _ v)))))))))

-- From a portal of that shape, no command from the host, well formed or not, makes the portal panic,
-- and the state keeps the shape: sixteen slots with whole images and status queues of eight places,
-- a hold below eight, and a counter that fits a byte.
pub handle_command-IsPortal :
    (command : List ℕ) (state : PortalState)
    → IsPortal state
    → (result : PortalState × Option CommandResponse) × (handle_command command state ≡ some result)
      × IsPortal result.0
unfolding handle_command Returns
handle_command-IsPortal [] state v = returns state none v
handle_command-IsPortal (op ∷ rest) state v = handle_op-Returns op (op ∷ rest) state v
