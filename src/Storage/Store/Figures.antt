-- ===== src/Storage/Store/Figures.antt =====
-- What src/storage/mod.rs uses of src/figures, as an interface, and its own tests on the kinds of
-- figures.
use omniportal.Base.{
  ◌≡◌, ◌<◌, ◌^◌, length, ℕ, ◌+◌, List, Bool, true, false, ◌&&◌, ◌||◌, not, Option, some, ltb, leb,
  ◌==◌, if◌then◌else◌, is_some,
}
use omniportal.Domain.{GameLine, FigureKind, is_character_like}
use omniportal.Storage.Records.{Entity, is_swapper_combo, is_swapper}
use omniportal.Storage.Catalog.{max_figures}

-- An entry of the two tables of figures.
pub record SkylandersCatalogEntry : Type 0 where
  pub index : ℕ
  pub game_line : GameLine
  pub kind : FigureKind
  pub series : List ℕ
  pub name : List ℕ
  pub character_id : ℕ
  pub variant_id : ℕ

pub record InfinityCatalogEntry : Type 0 where
  pub index : ℕ
  pub game_line : GameLine
  pub kind : FigureKind
  pub series : List ℕ
  pub name : List ℕ
  pub figure_number : ℕ

-- The functions of src/figures, by their names there. The arguments are a character, its variant
-- and the id of the entity; `validate_image` says whether the source's validation succeeds.
pub record Figures : Type 0 where
  pub skylanders_catalog_entry : ℕ → Option SkylandersCatalogEntry
  pub find_skylanders_catalog_entry : ℕ → ℕ → Option SkylandersCatalogEntry
  pub infinity_catalog_entry : ℕ → Option InfinityCatalogEntry
  pub find_infinity_catalog_entry : ℕ → Option InfinityCatalogEntry
  pub initialize_skylanders : ℕ → Option ℕ → ℕ → List ℕ
  pub initialize_mutable_skylanders : ℕ → Option ℕ → ℕ → FigureKind → List ℕ
  pub rekey_skylanders : List ℕ → ℕ → Option ℕ → ℕ → List ℕ
  pub initialize_infinity : ℕ → ℕ → List ℕ
  pub validate_image : List ℕ → Bool
  pub infinity_figure_number : List ℕ → ℕ

abbrev pub is_skylanders : GameLine → Bool
is_skylanders GameLine.skylanders = true
is_skylanders GameLine.infinity = false

unfoldable pub entity_kind_is_mutable : FigureKind → Bool
entity_kind_is_mutable FigureKind.item = false
entity_kind_is_mutable FigureKind.level_piece = false
entity_kind_is_mutable FigureKind.power_disc = false
entity_kind_is_mutable FigureKind.unknown = false
entity_kind_is_mutable _ = true

abbrev is_whole_swapper : Entity → Bool
is_whole_swapper e =
    is_skylanders e.game_line
    && is_swapper e.kind
    && not (is_some e.swapper_top_entity_id)
    && not (is_some e.swapper_bottom_entity_id)

unfoldable pub is_swapper_top : Entity → Bool
is_swapper_top e = is_whole_swapper e && leb 2000 e.character_id && leb e.character_id 2015

unfoldable pub is_swapper_bottom : Entity → Bool
is_swapper_bottom e = is_whole_swapper e && leb 1000 e.character_id && leb e.character_id 1015

unfoldable pub is_swapper_half : Entity → Bool
unfolding is_swapper_top is_swapper_bottom
is_swapper_half e = is_swapper_top e || is_swapper_bottom e

abbrev is_unknown : FigureKind → Bool
is_unknown FigureKind.unknown = true
is_unknown _ = false

abbrev can_use : GameLine → Entity → ℕ → Bool
can_use GameLine.skylanders e slot =
    if is_swapper_combo e
    then ltb (slot + 1) max_figures
    else if is_swapper_half e
    then false
    else ltb slot max_figures
can_use GameLine.infinity e slot =
    if is_character_like e.kind || is_unknown e.kind then ltb slot 2 else slot == 2

unfoldable pub entity_can_use_active_slot : Entity → ℕ → Bool
unfolding is_swapper_combo is_swapper_half
entity_can_use_active_slot e slot = can_use e.game_line e slot

module _ (figures : Figures) where
  unfoldable pub initialize_new_entity_image : FigureKind → ℕ → Option ℕ → ℕ → List ℕ
  unfolding entity_kind_is_mutable
  initialize_new_entity_image kind character_id variant_id entity_id =
      if entity_kind_is_mutable kind
      then figures.initialize_mutable_skylanders character_id variant_id entity_id kind
      else figures.initialize_skylanders character_id variant_id entity_id

  unfoldable pub generated : GameLine → Entity → List ℕ
  generated GameLine.skylanders e = figures.initialize_skylanders e.character_id e.variant_id e.id
  generated GameLine.infinity e = figures.initialize_infinity e.character_id e.id

  unfoldable pub generated_entity_image : Entity → List ℕ
  unfolding generated
  generated_entity_image e = generated e.game_line e

-- What the operations rely on: numbers that fit the fields of the records, and images of the two
-- fixed sizes.
pub record SkylandersEntryFits (e : SkylandersCatalogEntry) : Type 0 where
  pub index_lt : e.index < 2 ^ 16
  pub character_lt : e.character_id < 2 ^ 32
  pub variant_lt : e.variant_id < 2 ^ 32

pub record InfinityEntryFits (e : InfinityCatalogEntry) : Type 0 where
  pub index_lt : e.index < 2 ^ 16
  pub figure_lt : e.figure_number < 2 ^ 32

pub record FiguresFit (figures : Figures) : Type 0 where
  pub skylanders_entry :
      (index : ℕ) (e : SkylandersCatalogEntry)
      → figures.skylanders_catalog_entry index ≡ some e
      → SkylandersEntryFits e
  pub find_skylanders :
      (character_id variant_id : ℕ) (e : SkylandersCatalogEntry)
      → figures.find_skylanders_catalog_entry character_id variant_id ≡ some e
      → SkylandersEntryFits e
  pub infinity_entry :
      (index : ℕ) (e : InfinityCatalogEntry)
      → figures.infinity_catalog_entry index ≡ some e
      → InfinityEntryFits e
  pub find_infinity :
      (figure_number : ℕ) (e : InfinityCatalogEntry)
      → figures.find_infinity_catalog_entry figure_number ≡ some e
      → InfinityEntryFits e
  pub length-initialize :
      (character_id : ℕ) (variant_id : Option ℕ) (entity_id : ℕ)
      → length (figures.initialize_skylanders character_id variant_id entity_id) ≡ 1024
  pub length-initialize_mutable :
      (character_id : ℕ) (variant_id : Option ℕ) (entity_id : ℕ) (kind : FigureKind)
      → length (figures.initialize_mutable_skylanders character_id variant_id entity_id kind) ≡ 1024
  pub length-rekey :
      (image : List ℕ) (character_id : ℕ) (variant_id : Option ℕ) (entity_id : ℕ)
      → length (figures.rekey_skylanders image character_id variant_id entity_id) ≡ length image
  pub length-initialize_infinity :
      (figure_number entity_id : ℕ)
      → length (figures.initialize_infinity figure_number entity_id) ≡ 320
  pub length-valid : (image : List ℕ) → figures.validate_image image ≡ true → length image ≡ 1024
  pub figure_number_lt : (image : List ℕ) → figures.infinity_figure_number image < 2 ^ 32
