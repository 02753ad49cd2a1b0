-- ===== src/Level/Layered.antt =====
-- The template that MapParser::ParseMap gives to the map (client/MapParser.cpp, client/Map.cpp).
use legendofstealth.Level.Lit.{parse_groups-IsLit, all_lights, all_fit, IsLit}
use legendofstealth.Level.LightLayer.{parse_groups, Scene, TmxObjectGroup}
use legendofstealth.Level.Shapes.{Reals}
use legendofstealth.Level.Walls.{parse_wall_layer}
use legendofstealth.Level.{TileTemplate, get_flags, new_tile_template}
use legendofstealth.Level.Parsed.{flags_of, parse_wall_layer-flags_of}
use legendofstealth.Level.Drawing.{Buffers}
use legendofstealth.Level.Layers.{Floats, HasTiles}
use legendofstealth.Level.Drawn.{parse_drawable_layer-IsDrawable}
use legendofstealth.Level.Maps.{
  State, LayerName, background, foreground, walls, other_name, TmxLayer, TmxMap, GameMap,
  parse_named, parse_layers, parse_map, templated, set_background_layer, set_foreground_layer,
  set_tile_template,
}
use legendofstealth.Prelude.{
  Outcome, true, [], ◌-◌, ◌∙◌, ◌<◌, ◌>>=◌, ◌∷◌, ap, ◌++◌, done, All, ◌≡◌, List, ◌≢◌, ℕ, refl,
}

-- A layer of another name than walls.
abbrev pub NoWalls : TmxLayer → Type 0
NoWalls layer = layer.name ≢ walls

module _ {A : Type 0} (float : Floats A) (gl : Buffers A) (tmx : TmxMap)
    (tiles : HasTiles tmx.mapset) where
  open gl use {World}

  named_other :
      (name : LayerName) (layer : TmxLayer) (m : GameMap A) (tt1 : TileTemplate) (w : World)
      → name ≢ walls
      → (m' : GameMap A) × (w' : World) × (parse_named float gl tmx name layer (m, tt1, w)
          ≡ done (m', tt1, w'))
  named_other background layer m tt1 w n =
      let (r, e, _, _) =
        parse_drawable_layer-IsDrawable float layer.tile_gid tmx.mapset tiles gl tmx.width
          tmx.height w in
      (_, _, ap (λ o. o >>= λ q. done (set_background_layer q.0 m, tt1, q.1)) e)
  named_other foreground layer m tt1 w n =
      let (r, e, _, _) =
        parse_drawable_layer-IsDrawable float layer.tile_gid tmx.mapset tiles gl tmx.width
          tmx.height w in
      (_, _, ap (λ o. o >>= λ q. done (set_foreground_layer q.0 m, tt1, q.1)) e)
  named_other walls layer m tt1 w n = absurd (n refl)
  named_other other_name layer m tt1 w n = (m, w, refl)

  layers_other :
      (layers : List TmxLayer) (m : GameMap A) (tt1 : TileTemplate) (w : World)
      → All NoWalls layers
      → (m' : GameMap A) × (w' : World) × (parse_layers float gl tmx layers (m, tt1, w)
          ≡ done (m', tt1, w'))
  unfolding parse_layers
  layers_other [] m tt1 w h = (m, w, refl)
  layers_other (layer ∷ layers) m tt1 w h =
      let (m1, w1, e) = named_other layer.name layer m tt1 w h.0 in
      let (m2, w2, e') = layers_other layers m1 tt1 w1 h.1 in
      (m2, w2, ap (λ o. o >>= parse_layers float gl tmx layers) e ∙ e')

  layers_wall :
      (front back : List TmxLayer) (wall : TmxLayer) (m : GameMap A) (tt1 tt2 : TileTemplate)
      (w : World)
      → All NoWalls front
      → wall.name ≡ walls
      → All NoWalls back
      → parse_wall_layer wall.tile tmx.width tmx.height tt1 ≡ done tt2
      → (m' : GameMap A) × (w' : World) × (parse_layers float gl tmx
            (front ++ wall ∷ back)
            (m, tt1, w)
          ≡ done (m', tt2, w'))
  unfolding parse_layers
  layers_wall [] back wall m tt1 tt2 w hf n hb e =
      let (m', w', e') = layers_other back m tt2 w hb in
      (
        m',
        w',
        ap (λ k. parse_named float gl tmx k wall (m, tt1, w) >>= parse_layers float gl tmx back) n
            ∙ ap (λ o. o >>= (λ t. done (m, t, w)) >>= parse_layers float gl tmx back) e
            ∙ e',
      )
  layers_wall (layer ∷ front) back wall m tt1 tt2 w hf n hb e =
      let (m1, w1, q) = named_other layer.name layer m tt1 w hf.0 in
      let (m2, w2, q') = layers_wall front back wall m1 tt1 tt2 w1 hf.1 n hb e in
      (m2, w2, ap (λ o. o >>= parse_layers float gl tmx (front ++ wall ∷ back)) q ∙ q')

  -- What ParseMap does after the layers.
  abbrev grouped :
      {B : Type 0}
      → Reals B
      → (B → ℕ)
      → ℕ
      → List (TmxObjectGroup B)
      → Scene B
      → State float gl tmx
      → Outcome ((GameMap A × World) × Scene B)
  grouped reals digits tile_height groups s state =
      parse_groups reals digits tmx.height tile_height groups s >>= λ s'.
      templated float gl tmx state >>= λ r. done (r, s')

  -- ParseMap of a map with exactly one layer that is named walls, with an image that holds a tile in
  -- each direction, and with lights whose messages fit into the 256 bytes of AddLight, into a scene in
  -- which every light source stands in the shadow layer once, in the order in which they were made,
  -- uses the shared texture and is counted by it: it returns, whatever stood in the map before; in the
  -- template of the map each tile, with the rows counted from the bottom, has the flags of the tile of
  -- that layer, which the layers that are drawn do not change; and the scene is such a one again, with
  -- the lights of the groups named lights behind those that were there.
  pub parse_map-flags_of :
      {B : Type 0} (reals : Reals B) (digits : B → ℕ) (tile_height : ℕ)
      (groups : List (TmxObjectGroup B)) (front back : List TmxLayer) (wall : TmxLayer)
      (m : GameMap A) (s : Scene B) (w : World)
      → tmx.layers ≡ front ++ wall ∷ back
      → All NoWalls front
      → wall.name ≡ walls
      → All NoWalls back
      → IsLit s
      → all_fit reals digits tmx.height tile_height
          (all_lights reals digits tmx.height tile_height groups)
        ≡ true
      → (m' : GameMap A) × (s' : Scene B) × (w' : World) × (parse_map float gl tmx reals digits
            tile_height groups m s w
          ≡ done ((m', w'), s'))
        × ((x y : ℕ)
            → x < tmx.width
            → y < tmx.height
            → get_flags x y m'.tile_template ≡ done (flags_of (wall.tile x (tmx.height - y - 1))))
        × IsLit s'
        × (s'.properties ≡ s.properties ++ all_lights reals digits tmx.height tile_height groups)
  unfolding parse_map set_tile_template
  parse_map-flags_of reals digits tile_height groups front back wall m s w layers hf n hb v fit =
      let blank = new_tile_template tmx.width tmx.height in
      let (t, e, _, flags) = parse_wall_layer-flags_of wall.tile tmx.width tmx.height in
      let (m', w', q) = layers_wall front back wall m blank t w hf n hb e in
      let (s', lit, v', has) =
        parse_groups-IsLit reals digits tmx.height tile_height groups s v fit in
      (
        set_tile_template t m',
        s',
        w',
        ap
              (λ l.
                parse_layers float gl tmx l (m, blank, w)
                >>= grouped reals digits tile_height groups s)
              layers
            ∙ ap (λ o. o >>= grouped reals digits tile_height groups s) q
            ∙ ap (λ o. o >>= λ s2. done ((set_tile_template t m', w'), s2)) lit,
        flags,
        v',
        has,
      )
