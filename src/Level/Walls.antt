-- ===== src/Level/Walls.antt =====
-- MapParser::ParseWallLayer and MapParser::FlipY (client/MapParser.cpp). The layer is what TmxParser
-- read of the map's file: a parameter.
use legendofstealth.Level.{TileTemplate, add_flag, tile_shadow, tile_wall, tile_vent}
use legendofstealth.Prelude.{ℕ, zero, suc, ◌-◌, ◌==◌, if◌then◌else◌, Outcome, done, ◌>>=◌, bit_or}

-- Tmx::MapTile: its gid and its id.
pub record MapTile : Type 0 where
  pub gid : ℕ
  pub id : ℕ

-- enum ObjectsetTileID
abbrev pub id_wall : ℕ
id_wall = 5

abbrev pub id_vent : ℕ
id_vent = 6

-- FlipY(mapY), for a row of the map: there it is not negative.
abbrev pub flip_y : ℕ → ℕ → ℕ
flip_y ycount map_y = ycount - map_y - 1

-- The body of the loops.
unfoldable pub parse_tile : ℕ → ℕ → ℕ → MapTile → TileTemplate → Outcome TileTemplate
parse_tile height x map_y tile tt =
    let y = flip_y height map_y in
    if tile.gid == 0
    then done tt
    else if tile.id == id_wall
    then add_flag x y (bit_or tile_shadow tile_wall) tt
    else if tile.id == id_vent
    then add_flag x y tile_vent tt
    else done tt

module _ (get_tile : ℕ → ℕ → MapTile) where
  -- The inner loop from `map_y` on, with the number of rounds that are left.
  unfoldable pub parse_rows : ℕ → ℕ → ℕ → ℕ → TileTemplate → Outcome TileTemplate
  parse_rows height zero x map_y tt = done tt
  parse_rows height (suc left) x map_y tt =
      parse_tile height x map_y (get_tile x map_y) tt >>= parse_rows height left x (suc map_y)

  -- The outer loop from `x` on.
  unfoldable pub parse_columns : ℕ → ℕ → ℕ → TileTemplate → Outcome TileTemplate
  parse_columns height zero x tt = done tt
  parse_columns height (suc left) x tt =
      parse_rows height height x 0 tt >>= parse_columns height left (suc x)

  -- ParseWallLayer(layer, tt), for a map of this size.
  unfoldable pub parse_wall_layer : ℕ → ℕ → TileTemplate → Outcome TileTemplate
  parse_wall_layer width height tt = parse_columns height width 0 tt
