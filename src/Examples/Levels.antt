-- ===== src/Examples/Levels.antt =====
-- A small level: the theorems on the map, its loader, its layers, lights and shadows at concrete tiles.
use legendofstealth.Examples.Lighting.{dark_scene-IsLit, dark_scene, lit_group, thirteen}
use legendofstealth.Level.Lit.{IsLit, all_lights, all_fit}
use legendofstealth.Level.LightLayer.{message_length, Scene, fits}
use legendofstealth.Level.LayerRender.{all_drawn, layer_calls, draws, IsBuffered}
use legendofstealth.Level.Layered.{NoWalls, parse_map-flags_of}
use legendofstealth.Level.Maps.{
  foreground, walls, parse_map, background, TmxLayer, GameMap, TmxMap, LayerName,
}
use legendofstealth.Level.Drawn.{parse_drawable_layer-all_drawn}
use legendofstealth.Prelude.Int.{ℤ}
use legendofstealth.Level.Layers.{parse_drawable_layer, Floats, HasTiles, Tileset}
use legendofstealth.Examples.Shadows.{grid}
use legendofstealth.Level.Parsed.{flags_of}
use legendofstealth.Level.Removal.{remove_shadow_caster-without, remove_light_source-faults}
use legendofstealth.Level.Bodies.{
  load_map-walls, IsWallAt, wall_caster, wall_body, OfWall, nothing_loaded,
}
use legendofstealth.Level.Drawing.{Buffers, IsDrawable, MapLayer}
use legendofstealth.Level.Casters.{remove_shadow_caster, remove_light_source, ShadowLayer}
use legendofstealth.Level.Loading.{load_map, Loaded}
use legendofstealth.Level.Walls.{parse_tile, parse_rows, parse_columns, parse_wall_layer, MapTile}
use legendofstealth.Prelude.{
  ◌++◌, true, leb, List, ◌-◌, ◌<◌, All, ◌+◌, faults, done, ◌==◌, none, arith, ◌≡◌, [],
  if◌then◌else◌, ◌∷◌, refl, ℕ,
}
use mathlib.Core.List.{Mem}
use legendofstealth.Level.{add_flag, TileTemplate, get_flags, new_tile_template}

-- A layer of two columns and two rows: a wall at the top left, a vent below it.
abbrev small_layer : ℕ → ℕ → MapTile
small_layer x map_y =
    if x == 0 then record { gid = 9; id = 5 + map_y } else record { gid = 0; id = 0 }

abbrev small_template : TileTemplate
small_template = record { w = 2; h = 2; tiles = 2 ∷ 0 ∷ 5 ∷ 0 ∷ [] }

small_parsed : parse_wall_layer small_layer 2 2 (new_tile_template 2 2) ≡ done small_template
unfolding parse_wall_layer parse_columns parse_rows parse_tile add_flag new_tile_template
small_parsed = refl

load_map-walls_example :
    (l : Loaded) × (load_map small_template nothing_loaded ≡ done l)
    × All (OfWall small_layer 2 2 wall_body) l.global_bodies
    × All (OfWall small_layer 2 2 wall_caster) l.shadow_casters
    × ((x y : ℕ)
        → IsWallAt small_layer 2 2 x y
        → Mem (wall_body x y) l.global_bodies × Mem (wall_caster x y) l.shadow_casters)
load_map-walls_example = load_map-walls small_layer 2 2 small_template small_parsed

-- Two lights and three shadow casters.
abbrev dark_layer : ShadowLayer
dark_layer = record { light_sources = 1 ∷ 2 ∷ []; shadow_casters = 7 ∷ 8 ∷ 7 ∷ [] }

remove_shadow_caster-without_example :
    remove_shadow_caster 7 dark_layer ≡ done (record dark_layer { shadow_casters = 8 ∷ [] })
remove_shadow_caster-without_example = remove_shadow_caster-without 7 dark_layer

remove_light_source-faults_example : remove_light_source 1 dark_layer ≡ faults
remove_light_source-faults_example = remove_light_source-faults 1 dark_layer (omega arith)

-- An image of four tiles by four, with the ids of the tiles from 1 on.
abbrev four_by_four : Tileset
four_by_four = record {
  image_width = 256;
  image_height = 256;
  tile_width = 64;
  tile_height = 64;
  first_gid = 1;
}

four_by_four-HasTiles : HasTiles four_by_four
four_by_four-HasTiles = record {
  wide = omega arith;
  tall = omega arith;
  columns = omega arith;
  rows = omega arith;
}

-- Numbers in place of floats.
abbrev whole : Floats ℤ
whole = record { of_int = λ n. n; add = λ a _. a; divide = λ a _. a }

-- The number of handles and what the buffers hold.
abbrev handles : Buffers ℤ
handles = record {
  World = ℕ × (ℕ → List ℤ);
  gen_buffer = λ w. (w.0 + 1, (w.0 + 1, w.1));
  delete_buffer = λ _ w. w;
  buffer_data = λ h data_of w. (w.0, λ k. if h == k then data_of else w.1 k);
}

handles-IsBuffered : IsBuffered handles
handles-IsBuffered = record {
  content = λ w. w.1;
  in_use = λ w m. leb m w.0;
  some_handle = λ w. ground arith;
  new_handle = λ w. ground arith;
  used_handle = λ w. ground arith;
  content-buffer_data = λ h data_of w k. refl;
}

abbrev no_buffers : ℕ × (ℕ → List ℤ)
no_buffers = (0, λ _. [])

abbrev small_gids : ℕ → ℕ → ℕ
small_gids x y = if x == 0 then 1 + y else 0

parse_drawable_layer-all_drawn_example :
    (r : MapLayer ℤ × (ℕ × (ℕ → List ℤ))) × (parse_drawable_layer whole small_gids four_by_four
        handles 2 2 no_buffers
      ≡ done r)
    × IsDrawable r.0
    × (r.0.num_tiles ≡ 2)
    × (draws (IsBuffered.content handles-IsBuffered r.1) 0 0 0 (layer_calls r.0)
        ≡ all_drawn handles handles-IsBuffered r.0)
parse_drawable_layer-all_drawn_example =
    parse_drawable_layer-all_drawn whole small_gids four_by_four four_by_four-HasTiles handles
      handles-IsBuffered 2 2 no_buffers

abbrev named_layer : LayerName → TmxLayer
named_layer name = record { name = name; tile_gid = small_gids; tile = small_layer }

abbrev small_map : TmxMap
small_map = record {
  width = 2;
  height = 2;
  layers = named_layer background ∷ named_layer walls ∷ named_layer foreground ∷ [];
  mapset = four_by_four;
}

abbrev blank_map : GameMap ℤ
blank_map = record { bg_layer = none; fg_layer = none; tile_template = small_template }

not_walls_background : NoWalls (named_layer background)
not_walls_background e = cc

not_walls_foreground : NoWalls (named_layer foreground)
not_walls_foreground e = cc

small_lights_fit : all_fit grid thirteen 2 8 (all_lights grid thirteen 2 8 (lit_group ∷ [])) ≡ true
unfolding fits message_length
small_lights_fit = refl

parse_map-flags_of_example :
    (m' : GameMap ℤ) × (s' : Scene ℕ) × (w' : ℕ × (ℕ → List ℤ)) × (parse_map whole handles small_map
        grid thirteen 8
        (lit_group ∷ [])
        blank_map
        dark_scene
        no_buffers
      ≡ done ((m', w'), s'))
    × ((x y : ℕ)
        → x < 2
        → y < 2
        → get_flags x y m'.tile_template ≡ done (flags_of (small_layer x (2 - y - 1))))
    × IsLit s'
    × (s'.properties ≡ [] ++ all_lights grid thirteen 2 8 (lit_group ∷ []))
parse_map-flags_of_example =
    parse_map-flags_of whole handles small_map four_by_four-HasTiles grid thirteen 8
      (lit_group ∷ []) (named_layer background ∷ []) (named_layer foreground ∷ [])
      (named_layer walls) blank_map dark_scene no_buffers refl (not_walls_background, tt) refl
      (not_walls_foreground, tt) dark_scene-IsLit small_lights_fit
