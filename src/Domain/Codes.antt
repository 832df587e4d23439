-- ===== src/Domain/Codes.antt =====
-- The byte codes of src/domain/entity.rs in both directions.
use omniportal.Base.{ℕ, ◌≡◌, refl, some, arith}
use omniportal.Domain.{
  GameLine, FigureKind, ImageFormat, game_line_as_u8, game_line_from_u8, figure_kind_as_u8,
  figure_kind_from_u8, image_format_as_u8, image_format_from_u8,
}

pub game_line_from_u8-as_u8 : (g : GameLine) → game_line_from_u8 (game_line_as_u8 g) ≡ some g
unfolding game_line_from_u8 game_line_as_u8
game_line_from_u8-as_u8 GameLine.skylanders = refl
game_line_from_u8-as_u8 _ = refl

-- A byte that decodes to a game line is the code of that line.
pub game_line_as_u8-from_u8 :
    (b : ℕ) (g : GameLine) → game_line_from_u8 b ≡ some g → game_line_as_u8 g ≡ b
unfolding game_line_from_u8 game_line_as_u8
game_line_as_u8-from_u8 b GameLine.skylanders h = ground arith
game_line_as_u8-from_u8 b _ h = ground arith

pub figure_kind_from_u8-as_u8 : (k : FigureKind) → figure_kind_from_u8 (figure_kind_as_u8 k) ≡ k
unfolding figure_kind_from_u8 figure_kind_as_u8
figure_kind_from_u8-as_u8 FigureKind.character = refl
figure_kind_from_u8-as_u8 _ = refl

pub image_format_from_u8-as_u8 :
    (f : ImageFormat) → image_format_from_u8 (image_format_as_u8 f) ≡ some f
unfolding image_format_from_u8 image_format_as_u8
image_format_from_u8-as_u8 ImageFormat.skylanders_mifare1k = refl
image_format_from_u8-as_u8 _ = refl
