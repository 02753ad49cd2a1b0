-- ===== src/Level/Loading.antt =====
-- class MapLoader (client/MapLoader.cpp, client/Physics.h): the shadow casters and the bodies that are
-- made of the tiles. The physics of Box2D and the scene are lists of what was added to them.
use legendofstealth.Level.{TileTemplate, get_flags, has_flag, tile_shadow, tile_wall, tile_vent}
use legendofstealth.Prelude.{
  ℕ, List, Bool, if◌then◌else◌, ◌++◌, [], ◌∷◌, ◌*◌, ◌+◌, Outcome, done, ◌>>=◌, zero, suc,
}

-- enum ColliderGroups
abbrev pub group_wall : ℕ
group_wall = 1

abbrev pub group_ventilation : ℕ
group_ventilation = 2

abbrev pub group_player : ℕ
group_player = 240

abbrev pub map_tile_size : ℕ
map_tile_size = 64

-- The static body of a tile. Its centre is in meters: (64 * (x + 0.5)) / 32 is 2 * x + 1. Its box
-- reaches `half_width` meters to each side.
pub record Body : Type 0 where
  pub center_x : ℕ
  pub center_y : ℕ
  pub half_width : ℕ
  pub category_bits : ℕ
  pub mask_bits : ℕ

-- A game object with a ShadowCaster: its position in pixels, and the side of its square.
pub record Caster : Type 0 where
  pub position_x : ℕ
  pub position_y : ℕ
  pub side : ℕ

-- What the loader has added to the shadow layer and to the map.
pub record Loaded : Type 0 where
  pub shadow_casters : List Caster
  pub global_bodies : List Body

-- LoadShadowCaster(x, y)
unfoldable pub load_shadow_caster : ℕ → ℕ → Loaded → Loaded
load_shadow_caster x y l = record l {
  shadow_casters =
      l.shadow_casters
      ++ (record {
        position_x = x * map_tile_size;
        position_y = y * map_tile_size;
        side = map_tile_size;
      }
          ∷ []);
}

-- LoadWall(x, y, isVentilation)
unfoldable pub load_wall : ℕ → ℕ → Bool → Loaded → Loaded
load_wall x y is_ventilation l = record l {
  global_bodies =
      l.global_bodies
      ++ (record {
        center_x = 2 * x + 1;
        center_y = 2 * y + 1;
        half_width = 1;
        category_bits = if is_ventilation then group_wall else group_ventilation;
        mask_bits = group_player;
      }
          ∷ []);
}

-- The body of the loops of LoadMap, for the flags of the tile.
unfoldable pub load_flags : ℕ → ℕ → ℕ → Loaded → Loaded
load_flags x y flags l =
    let l' = if has_flag flags tile_shadow then load_shadow_caster x y l else l in
    if has_flag flags tile_wall then load_wall x y (has_flag flags tile_vent) l' else l'

-- The inner loop of LoadMap from `y` on, with the number of rounds that are left.
unfoldable pub load_rows : TileTemplate → ℕ → ℕ → ℕ → Loaded → Outcome Loaded
load_rows tt zero x y l = done l
load_rows tt (suc left) x y l =
    get_flags x y tt >>= λ flags. load_rows tt left x (suc y) (load_flags x y flags l)

unfoldable pub load_columns : TileTemplate → ℕ → ℕ → Loaded → Outcome Loaded
load_columns tt zero x l = done l
load_columns tt (suc left) x l = load_rows tt tt.h x 0 l >>= load_columns tt left (suc x)

-- LoadMap(map, gameLayer), for the template of the map.
unfoldable pub load_map : TileTemplate → Loaded → Outcome Loaded
load_map tt l = load_columns tt tt.w 0 l
