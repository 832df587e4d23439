-- ===== src/Storage/Journal/Identity/RoundTrip.antt =====
-- `encode_identity` and `decode_identity` of src/storage/journal.rs together.
use mathlib.Core.Option.{some-injective}
use omniportal.Base.{
  sym, ap, Bool-cases, leb, ℕ, ◌+◌, ◌≤◌, ◌<◌, ◌^◌, ◌≡◌, refl, ◌∙◌, ◌⊎◌, inl, inr, List, [], true,
  none, some, get_or, slice, splice, length, get_or_else, is_some, arith, length-splice,
  slice-splice, slice-splice_before, copy_into-some, copy_into-none, le→not_ltb,
}
use omniportal.Base.Bytes.{to_le_bytes, from_bool, from_le_bytes-to_le_bytes}
use omniportal.Base.Result.{ok}
use omniportal.Base.Utf8.{is_utf8, from_utf8}
use omniportal.Domain.{game_line_as_u8, figure_kind_as_u8, image_format_as_u8}
use omniportal.Domain.Codes.{
  game_line_from_u8-as_u8, figure_kind_from_u8-as_u8, image_format_from_u8-as_u8,
}
use omniportal.Storage.Records.{CharacterIdentity, FixedText, from_str, raw_bytes, empty_text}
use omniportal.Storage.Records.Text.{from_str-IsText, raw_bytes-from_str}
use omniportal.Storage.Journal.Fields.{Fits, flagged-Fits}
use omniportal.Storage.Journal.Identity.{
  identity_fields, encode_identity, decode_source, decode_identity,
}

-- The notes were made from the text `source`; they may be empty.
abbrev pub NotesMade : List ℕ → FixedText → Type 0
NotesMade source notes =
    ((source ≡ []) × (notes ≡ empty_text 96))
    ⊎ ((from_str 96 source ≡ ok notes) × (is_utf8 source ≡ true))

-- The identity's numbers fit their fields, and its texts were made from `text` and `source`.
pub record IsIdentity (text source : List ℕ) (i : CharacterIdentity) : Type 0 where
  pub name_made : from_str 64 text ≡ ok i.name
  pub name_utf8 : is_utf8 text ≡ true
  pub notes_made : NotesMade source i.source_notes
  pub variant_fits : Fits (2 ^ 32) i.variant_id
  pub notes_fit : length source ≤ 92
  pub character_fits : i.character_id < 2 ^ 32
  pub checksum_fits : i.checksum < 2 ^ 32

notes_raw :
    (source : List ℕ) (notes : FixedText)
    → NotesMade source notes
    → (raw_bytes notes ≡ source) × (notes.len ≡ length source) × (length source ≤ 96)
unfolding raw_bytes empty_text
notes_raw source notes (inl (e, n)) = (ground arith, ground arith, ground arith)
notes_raw source notes (inr (h, u)) =
    let t = from_str-IsText 96 source notes h in
    (raw_bytes-from_str 96 source notes h, t.len_eq, t.fits)

decode_source-NotesMade :
    (source p : List ℕ) (notes : FixedText)
    → NotesMade source notes
    → slice 84 (length source) p ≡ source
    → decode_source (length source) p ≡ some notes
unfolding decode_source from_utf8
decode_source-NotesMade source p notes (inl (e, n)) h = ground arith
decode_source-NotesMade source p notes (inr (m, u)) h =
    let positive = (from_str-IsText 96 source notes m).nonempty in ground (arith, h, m, u)

-- Where `encode_identity` puts each field.
record Layout (text source : List ℕ) (i : CharacterIdentity) (p : List ℕ) : Type 0 where
  size : length p ≡ 176
  name_len : get_or p 16 0 ≡ length text
  source_len : get_or p 17 0 ≡ length source
  name : slice 20 (length text) p ≡ text
  notes : slice 84 (length source) p ≡ source
  game_line : get_or p 0 0 ≡ game_line_as_u8 i.game_line
  kind : get_or p 1 0 ≡ figure_kind_as_u8 i.kind
  image_format : get_or p 2 0 ≡ image_format_as_u8 i.image_format
  has_variant : get_or p 3 0 ≡ from_bool (is_some i.variant_id)
  character : slice 4 4 p ≡ to_le_bytes i.character_id
  variant : slice 8 4 p ≡ to_le_bytes (get_or_else i.variant_id 0)
  checksum : slice 12 4 p ≡ to_le_bytes i.checksum

module _ (text source : List ℕ) (i : CharacterIdentity) (v : IsIdentity text source i) where
  abbrev with_name : List ℕ
  with_name = splice 20 text (identity_fields i)

  abbrev encoded : List ℕ
  encoded = splice 84 source with_name

  length-with_name : length with_name ≡ 176
  unfolding identity_fields
  length-with_name = length-splice 20 text (identity_fields i)

  encode_identity-encoded : encode_identity i ≡ some encoded
  unfolding encode_identity
  encode_identity-encoded =
      let fits = (from_str-IsText 64 text i.name v.name_made).fits in
      rw
        (
          encode_identity,
          raw_bytes-from_str 64 text i.name v.name_made,
          copy_into-some 20 text (identity_fields i) (omega arith),
          (notes_raw source i.source_notes v.notes_made).0,
        )
        (copy_into-some 84 source with_name (omega (arith, length-with_name, v.notes_fit)))

  name_field : slice 20 (length text) encoded ≡ text
  unfolding identity_fields
  name_field =
      let fits = (from_str-IsText 64 text i.name v.name_made).fits in
      slice-splice_before 20 (length text) 84 source with_name (omega arith)
      ∙ slice-splice 20 text (identity_fields i) (omega arith)

  encoded-Layout : Layout text source i encoded
  unfolding identity_fields
  encoded-Layout = record {
    size = length-splice 84 source with_name ∙ length-with_name;
    name_len = (from_str-IsText 64 text i.name v.name_made).len_eq;
    source_len = (notes_raw source i.source_notes v.notes_made).1;
    name = name_field;
    notes = slice-splice 84 source with_name (omega (arith, length-with_name, v.notes_fit));
    game_line = refl;
    kind = refl;
    image_format = refl;
    has_variant = refl;
    character = refl;
    variant = refl;
    checksum = refl;
  }

  decode_identity-Layout :
      (p : List ℕ) → Layout text source i p → decode_identity i.id i.generation p ≡ some i
  unfolding decode_identity from_utf8
  decode_identity-Layout p l =
      let fits = (from_str-IsText 64 text i.name v.name_made).fits in
      let notes = notes_raw source i.source_notes v.notes_made in
      simp (
        decode_identity,
        l.size,
        l.name_len,
        l.source_len,
        l.name,
        l.game_line,
        l.kind,
        l.image_format,
        l.has_variant,
        l.character,
        l.variant,
        l.checksum,
        le→not_ltb 64 (length text) fits,
        le→not_ltb 96 (length source) notes.2,
        le→not_ltb 84 (20 + length text) (omega arith),
        le→not_ltb 176 (84 + length source) (omega (arith, v.notes_fit)),
        decode_source-NotesMade source p i.source_notes v.notes_made l.notes,
        v.name_utf8,
        v.name_made,
        game_line_from_u8-as_u8,
        image_format_from_u8-as_u8,
        figure_kind_from_u8-as_u8,
        flagged-Fits i.variant_id v.variant_fits,
        from_le_bytes-to_le_bytes i.character_id v.character_fits,
        from_le_bytes-to_le_bytes i.checksum v.checksum_fits,
      )

  -- An identity whose texts are valid UTF-8, whose numbers fit their fields and whose notes have at
  -- most 92 bytes is written without a panic, and what was written is read back, under its id and
  -- its generation, with all its fields.
  pub decode_identity-encode_identity :
      (out : List ℕ) × (encode_identity i ≡ some out)
      × (decode_identity i.id i.generation out ≡ some i)
  decode_identity-encode_identity =
      (encoded, encode_identity-encoded, decode_identity-Layout encoded encoded-Layout)

-- For an identity whose name and notes were accepted as texts of up to 64 and 96 bytes, notes of
-- more than 92 bytes make the encoder panic: they run past the end of its 176 bytes.
pub encode_identity_panics :
    (text source : List ℕ) (i : CharacterIdentity)
    → from_str 64 text ≡ ok i.name
    → from_str 96 source ≡ ok i.source_notes
    → 92 < length source
    → encode_identity i ≡ none
unfolding encode_identity
encode_identity_panics text source i name notes long =
    let fits = (from_str-IsText 64 text i.name name).fits in
    let size = length-splice 20 text (identity_fields i) in
    rw
      (
        encode_identity,
        raw_bytes-from_str 64 text i.name name,
        copy_into-some 20 text (identity_fields i) (omega arith),
        raw_bytes-from_str 96 source i.source_notes notes,
      )
      (copy_into-none 84 source (splice 20 text (identity_fields i)) (omega (arith, size)))

-- What the encoder has written without a panic is read back.
pub encode_identity_fits :
    (text source p : List ℕ) (i : CharacterIdentity)
    → from_str 64 text ≡ ok i.name
    → NotesMade source i.source_notes
    → encode_identity i ≡ some p
    → length source ≤ 92
encode_identity_fits text source p i name (inl (e, n)) h = rw e (omega arith)
encode_identity_fits text source p i name (inr (notes, u)) h =
    elim (Bool-cases (leb (length source) 92)) [
      | inl short ↦ ground (arith, short)
      | inr long ↦ absurd (
          some_none
            (sym h ∙ encode_identity_panics text source i name notes (ground (arith, long))))
    ]
  where
    some_none : some p ≡ none → ⊥
    some_none e = ground (arith, e)

pub encode_identity_back :
    (text source p : List ℕ) (i : CharacterIdentity)
    → IsIdentity text source i
    → encode_identity i ≡ some p
    → (length p ≡ 176) × (decode_identity i.id i.generation p ≡ some i)
encode_identity_back text source p i v h =
    let whole = encoded-Layout text source i v in
    let same : encoded text source i v ≡ p =
      some-injective _ _ (sym (encode_identity-encoded text source i v) ∙ h) in
    (
      ap length (sym same) ∙ whole.size,
      ap (decode_identity i.id i.generation) (sym same)
          ∙ decode_identity-Layout text source i v (encoded text source i v) whole,
    )
