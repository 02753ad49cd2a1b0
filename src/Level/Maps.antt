-- ===== src/Level/Maps.antt =====
-- MapParser::ParseMap and the layers and the template of class Map (client/MapParser.cpp,
-- client/Map.cpp). The loop over the object groups is that of `LightLayer`.
use legendofstealth.Level.LightLayer.{parse_groups, Scene, TmxObjectGroup}
use legendofstealth.Level.Shapes.{Reals}
use legendofstealth.Level.{TileTemplate, new_tile_template}
use legendofstealth.Level.Walls.{MapTile, parse_wall_layer}
use legendofstealth.Level.Drawing.{MapLayer, Buffers}
use legendofstealth.Level.Layers.{Tileset, Floats, parse_drawable_layer}
use legendofstealth.Prelude.{[], ◌∷◌, done, ◌>>=◌, Outcome, some, Option, List, ℕ}

-- The names that ParseMap tells apart.
pub data LayerName : Type 0 where
  background foreground walls other_name : LayerName

-- Tmx::Layer
pub record TmxLayer : Type 0 where
  pub name : LayerName
  pub tile_gid : ℕ → ℕ → ℕ
  pub tile : ℕ → ℕ → MapTile

-- Tmx::Map, with the tile set named mapset.
pub record TmxMap : Type 0 where
  pub width : ℕ
  pub height : ℕ
  pub layers : List TmxLayer
  pub mapset : Tileset

-- `_bgLayer`, `_fgLayer` and `_tileTemplate` of class Map.
pub record GameMap (A : Type 0) : Type 0 where
  pub bg_layer : Option (MapLayer A)
  pub fg_layer : Option (MapLayer A)
  pub tile_template : TileTemplate

-- SetBackgroundLayer, SetForegroundLayer and SetTileTemplate; the layers' place among the children of
-- the map is left out.
unfoldable pub set_background_layer : {A : Type 0} → MapLayer A → GameMap A → GameMap A
set_background_layer layer m = record m { bg_layer = some layer }

unfoldable pub set_foreground_layer : {A : Type 0} → MapLayer A → GameMap A → GameMap A
set_foreground_layer layer m = record m { fg_layer = some layer }

unfoldable pub set_tile_template : {A : Type 0} → TileTemplate → GameMap A → GameMap A
set_tile_template tt1 m = record m { tile_template = tt1 }

module _ {A : Type 0} (float : Floats A) (gl : Buffers A) (tmx : TmxMap) where
  open gl use {World}

  -- The map, the template that is being filled, and the world.
  abbrev pub State : Type 0
  State = GameMap A × TileTemplate × World

  abbrev pub draw_layer : TmxLayer → World → Outcome (MapLayer A × World)
  draw_layer layer w =
      parse_drawable_layer float layer.tile_gid tmx.mapset gl tmx.width tmx.height w

  -- The body of the loop over the layers.
  abbrev pub parse_named : LayerName → TmxLayer → State → Outcome State
  parse_named background layer (m, tt1, w) =
      draw_layer layer w >>= λ r. done (set_background_layer r.0 m, tt1, r.1)
  parse_named foreground layer (m, tt1, w) =
      draw_layer layer w >>= λ r. done (set_foreground_layer r.0 m, tt1, r.1)
  parse_named walls layer (m, tt1, w) =
      parse_wall_layer layer.tile tmx.width tmx.height tt1 >>= λ tt2. done (m, tt2, w)
  parse_named other_name layer s = done s

  unfoldable pub parse_layers : List TmxLayer → State → Outcome State
  parse_layers [] s = done s
  parse_layers (layer ∷ layers) s = parse_named layer.name layer s >>= parse_layers layers

  abbrev pub templated : State → Outcome (GameMap A × World)
  templated (m, tt1, w) = done (set_tile_template tt1 m, w)

  -- ParseMap: the layers, the object groups, and the template.
  unfoldable pub parse_map :
      {B : Type 0}
      → Reals B
      → (B → ℕ)
      → ℕ
      → List (TmxObjectGroup B)
      → GameMap A
      → Scene B
      → World
      → Outcome ((GameMap A × World) × Scene B)
  parse_map reals digits tile_height groups m s w =
      parse_layers tmx.layers (m, new_tile_template tmx.width tmx.height, w) >>= λ state.
      parse_groups reals digits tmx.height tile_height groups s >>= λ s'.
      templated state >>= λ r. done (r, s')
