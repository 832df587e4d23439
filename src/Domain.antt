-- ===== src/Domain.antt =====
-- src/domain/entity.rs and src/domain/placement.rs: the enumerations that records and USB code
-- share, with their byte codes and their names on the wire.
pub mod Codes
use Prim.Native.String.{String}
use omniportal.Base.{ℕ, Bool, true, false, Option, none, some, ◌==◌, if◌then◌else◌}

pub data GameLine : Type 0 where
  skylanders infinity : GameLine

pub data FigureKind : Type 0 where
  character giant swapper trap_master mini vehicle item : FigureKind
  trap creation_crystal level_piece trophy power_disc unknown : FigureKind

pub data ImageFormat : Type 0 where
  skylanders_mifare1k infinity_unknown : ImageFormat

unfoldable pub game_line_as_u8 : GameLine → ℕ
game_line_as_u8 skylanders = 1
game_line_as_u8 infinity = 2

unfoldable pub game_line_from_u8 : ℕ → Option GameLine
game_line_from_u8 value =
    if value == 1 then some skylanders else if value == 2 then some infinity else none

unfoldable pub game_line_wire_name : GameLine → String
game_line_wire_name skylanders = "skylanders"
game_line_wire_name infinity = "infinity"

unfoldable pub figure_kind_as_u8 : FigureKind → ℕ
figure_kind_as_u8 character = 1
figure_kind_as_u8 vehicle = 2
figure_kind_as_u8 item = 3
figure_kind_as_u8 trap = 4
figure_kind_as_u8 creation_crystal = 5
figure_kind_as_u8 level_piece = 6
figure_kind_as_u8 trophy = 7
figure_kind_as_u8 power_disc = 8
figure_kind_as_u8 giant = 9
figure_kind_as_u8 swapper = 10
figure_kind_as_u8 trap_master = 11
figure_kind_as_u8 mini = 12
figure_kind_as_u8 unknown = 255

unfoldable pub figure_kind_from_u8 : ℕ → FigureKind
figure_kind_from_u8 value =
    if value == 1
    then character
    else if value == 2
    then vehicle
    else if value == 3
    then item
    else if value == 4
    then trap
    else if value == 5
    then creation_crystal
    else if value == 6
    then level_piece
    else if value == 7
    then trophy
    else if value == 8
    then power_disc
    else if value == 9
    then giant
    else if value == 10
    then swapper
    else if value == 11
    then trap_master
    else if value == 12
    then mini
    else unknown

unfoldable pub figure_kind_wire_name : FigureKind → String
figure_kind_wire_name character = "character"
figure_kind_wire_name giant = "giant"
figure_kind_wire_name swapper = "swapper"
figure_kind_wire_name trap_master = "trap-master"
figure_kind_wire_name mini = "mini"
figure_kind_wire_name vehicle = "vehicle"
figure_kind_wire_name item = "item"
figure_kind_wire_name trap = "trap"
figure_kind_wire_name creation_crystal = "creation-crystal"
figure_kind_wire_name level_piece = "level-piece"
figure_kind_wire_name trophy = "trophy"
figure_kind_wire_name power_disc = "power-disc"
figure_kind_wire_name unknown = "unknown"

unfoldable pub is_character_like : FigureKind → Bool
is_character_like character = true
is_character_like giant = true
is_character_like swapper = true
is_character_like trap_master = true
is_character_like mini = true
is_character_like _ = false

unfoldable pub image_format_as_u8 : ImageFormat → ℕ
image_format_as_u8 skylanders_mifare1k = 1
image_format_as_u8 infinity_unknown = 2

unfoldable pub image_format_from_u8 : ℕ → Option ImageFormat
image_format_from_u8 value =
    if value == 1
    then some skylanders_mifare1k
    else if value == 2
    then some infinity_unknown
    else none

unfoldable pub image_format_wire_name : ImageFormat → String
image_format_wire_name skylanders_mifare1k = "skylanders-mifare-1k"
image_format_wire_name infinity_unknown = "infinity-unknown"

pub record SkylandersEntity : Type 0 where
  pub catalog_index : Option ℕ
  pub figure_id : ℕ
  pub variant_id : Option ℕ
  pub kind : FigureKind
  pub image_format : ImageFormat

pub record InfinityEntity : Type 0 where
  pub catalog_index : Option ℕ
  pub figure_number : ℕ
  pub kind : FigureKind
  pub image_format : ImageFormat

pub data EntityPayload : Type 0 where
  skylanders_payload : SkylandersEntity → EntityPayload
  infinity_payload : InfinityEntity → EntityPayload

pub record CollectionEntity : Type 0 where
  pub id : ℕ
  pub game_line : GameLine
  pub payload : EntityPayload
  pub blob_id : Option ℕ
