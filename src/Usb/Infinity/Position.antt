-- ===== src/Usb/Infinity/Position.antt =====
-- The places of the Infinity base: `FigurePosition` and `BasePosition` of src/usb/infinity.rs.
use native.Mathlib.Omega.{arith}
use omniportal.Base.{ℕ, ◌<◌, ◌≡◌, refl, Option, none, some, ◌==◌, if◌then◌else◌}

pub data FigurePosition : Type 0 where
  hexagon_disc_one hexagon_disc_two hexagon_disc_three : FigurePosition
  player_one player_one_ability_one player_one_ability_two : FigurePosition
  player_two player_two_ability_one player_two_ability_two : FigurePosition

pub data BasePosition : Type 0 where
  unknown hexagon player_one player_two : BasePosition

unfoldable pub index : FigurePosition → ℕ
index hexagon_disc_one = 0
index hexagon_disc_two = 1
index hexagon_disc_three = 2
index player_one = 3
index player_one_ability_one = 4
index player_one_ability_two = 5
index player_two = 6
index player_two_ability_one = 7
index player_two_ability_two = 8

unfoldable pub figure_position_from_index : ℕ → Option FigurePosition
figure_position_from_index i =
    if i == 0
    then some hexagon_disc_one
    else if i == 1
    then some hexagon_disc_two
    else if i == 2
    then some hexagon_disc_three
    else if i == 3
    then some FigurePosition.player_one
    else if i == 4
    then some player_one_ability_one
    else if i == 5
    then some player_one_ability_two
    else if i == 6
    then some FigurePosition.player_two
    else if i == 7
    then some player_two_ability_one
    else if i == 8
    then some player_two_ability_two
    else none

unfoldable pub from_portal_index : ℕ → Option FigurePosition
from_portal_index i =
    if i == 0
    then some FigurePosition.player_one
    else if i == 1
    then some FigurePosition.player_two
    else if i == 2
    then some hexagon_disc_one
    else if i == 3
    then some player_one_ability_one
    else if i == 4
    then some player_one_ability_two
    else if i == 5
    then some player_two_ability_one
    else if i == 6
    then some player_two_ability_two
    else if i == 7
    then some hexagon_disc_two
    else if i == 8
    then some hexagon_disc_three
    else none

unfoldable pub portal_index : FigurePosition → ℕ
portal_index player_one = 0
portal_index player_two = 1
portal_index hexagon_disc_one = 2
portal_index player_one_ability_one = 3
portal_index player_one_ability_two = 4
portal_index player_two_ability_one = 5
portal_index player_two_ability_two = 6
portal_index hexagon_disc_two = 7
portal_index hexagon_disc_three = 8

unfoldable pub derive_base_position : FigurePosition → BasePosition
derive_base_position hexagon_disc_one = hexagon
derive_base_position hexagon_disc_two = hexagon
derive_base_position hexagon_disc_three = hexagon
derive_base_position player_one = BasePosition.player_one
derive_base_position player_one_ability_one = BasePosition.player_one
derive_base_position player_one_ability_two = BasePosition.player_one
derive_base_position player_two = BasePosition.player_two
derive_base_position player_two_ability_one = BasePosition.player_two
derive_base_position player_two_ability_two = BasePosition.player_two

-- `BasePosition as u8`.
unfoldable pub base_code : BasePosition → ℕ
base_code unknown = 0
base_code hexagon = 1
base_code player_one = 2
base_code player_two = 3

abbrev base_byte : BasePosition → ℕ
base_byte hexagon = 0x10
base_byte player_one = 0x20
base_byte player_two = 0x30
base_byte unknown = 0x00

unfoldable pub presence_position_byte : FigurePosition → ℕ
unfolding derive_base_position
presence_position_byte position = base_byte (derive_base_position position)

-- The number that the portal has for a position is decoded as that position.
pub from_portal_index-portal_index :
    (position : FigurePosition) → from_portal_index (portal_index position) ≡ some position
unfolding from_portal_index portal_index
from_portal_index-portal_index hexagon_disc_one = refl
from_portal_index-portal_index hexagon_disc_two = refl
from_portal_index-portal_index hexagon_disc_three = refl
from_portal_index-portal_index player_one = refl
from_portal_index-portal_index player_one_ability_one = refl
from_portal_index-portal_index player_one_ability_two = refl
from_portal_index-portal_index player_two = refl
from_portal_index-portal_index player_two_ability_one = refl
from_portal_index-portal_index player_two_ability_two = refl

-- The same for the place in the array of figures.
pub figure_position_from_index-index :
    (position : FigurePosition) → figure_position_from_index (index position) ≡ some position
unfolding figure_position_from_index index
figure_position_from_index-index hexagon_disc_one = refl
figure_position_from_index-index hexagon_disc_two = refl
figure_position_from_index-index hexagon_disc_three = refl
figure_position_from_index-index player_one = refl
figure_position_from_index-index player_one_ability_one = refl
figure_position_from_index-index player_one_ability_two = refl
figure_position_from_index-index player_two = refl
figure_position_from_index-index player_two_ability_one = refl
figure_position_from_index-index player_two_ability_two = refl

pub index_lt : (position : FigurePosition) → index position < 9
unfolding index
index_lt hexagon_disc_one = omega arith
index_lt hexagon_disc_two = omega arith
index_lt hexagon_disc_three = omega arith
index_lt player_one = omega arith
index_lt player_one_ability_one = omega arith
index_lt player_one_ability_two = omega arith
index_lt player_two = omega arith
index_lt player_two_ability_one = omega arith
index_lt player_two_ability_two = omega arith
