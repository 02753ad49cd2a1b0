-- ===== src/Level.antt =====
-- class Map::TileTemplate (client/Map.h, client/Map.cpp): the flags of the tiles of a map. `Walls`
-- parses them, `Loading` makes bodies and shadow casters of them. `Drawing` has the vertices of a
-- layer, `Layers` parses them, `Maps` parses a whole map; `Lights` has the texture that light sources
-- share, `Casters` the lists of the shadow layer. `Shapes` is the shadow caster, `Shadows` the geometry
-- of the shadow layer, `Opening` and `LightLayer` the tile sets and the lights of a parsed map,
-- `Rendering` the calls of OpenGL that draw the lights, `Stencil` what they do to a pixel, `Fan` the
-- arrays of the shared texture, `Owning` what the shadow layer makes and deletes, and
-- `LayerRender` what is drawn of a layer of the map. `Order`, `Grid`,
-- `Parsed`, `Bodies`, `Drawn`, `Layered`, `Sharing`, `Removal`, `Boxes`, `ShadowShapes`, `Shown`,
-- `Quads`, `Casting`, `Lit`, `PlayerLight`, `Visible`, `Rendered`, `FanShape` and `Owned` have the
-- proofs.
pub mod Walls
pub mod Order
pub mod Grid
pub mod Parsed
pub mod Loading
pub mod Bodies
pub mod Lights
pub mod Sharing
pub mod Casters
pub mod Shapes
pub mod Boxes
pub mod ShadowShapes
pub mod Shadows
pub mod Quads
pub mod Shown
pub mod Casting
pub mod Rendering
pub mod Stencil
pub mod Visible
pub mod Rendered
pub mod Fan
pub mod FanShape
pub mod LayerRender
pub mod Owning
pub mod Owned
pub mod Opening
pub mod LightLayer
pub mod Lit
pub mod PlayerLight
pub mod Removal
pub mod Drawing
pub mod Layers
pub mod Drawn
pub mod Maps
pub mod Layered
use legendofstealth.Prelude.{
  ℕ, List, Option, none, some, Outcome, done, faults, ◌*◌, ◌+◌, bit_or, bit_and, get_elem?, set,
  replicate, or_fault, Bool, not, ◌==◌,
}

-- enum TileFlags
abbrev pub tile_wall : ℕ
tile_wall = 1

abbrev pub tile_vent : ℕ
tile_vent = 2

abbrev pub tile_shadow : ℕ
tile_shadow = 4

pub record TileTemplate : Type 0 where
  pub w : ℕ
  pub h : ℕ
  pub tiles : List ℕ

-- TileTemplate(mapWidth, mapHeight)
unfoldable pub new_tile_template : ℕ → ℕ → TileTemplate
new_tile_template map_width map_height = record {
  w = map_width;
  h = map_height;
  tiles = replicate (map_width * map_height) 0;
}

-- The index `y * _w + x`.
abbrev pub tile_index : TileTemplate → ℕ → ℕ → ℕ
tile_index t x y = y * t.w + x

abbrev pub or_flag : TileTemplate → ℕ → ℕ → Option ℕ → Outcome TileTemplate
or_flag t i flag none = faults
or_flag t i flag (some old) = done (record t { tiles = set t.tiles i (bit_or old flag) })

-- AddFlag(x, y, flag)
unfoldable pub add_flag : ℕ → ℕ → ℕ → TileTemplate → Outcome TileTemplate
add_flag x y flag t = or_flag t (tile_index t x y) flag (get_elem? t.tiles (tile_index t x y))

-- GetFlags(x, y)
unfoldable pub get_flags : ℕ → ℕ → TileTemplate → Outcome ℕ
get_flags x y t = or_fault (get_elem? t.tiles (tile_index t x y))

-- `flags & flag`, as the condition of an `if`.
abbrev pub has_flag : ℕ → ℕ → Bool
has_flag flags flag = not (bit_and flags flag == 0)
