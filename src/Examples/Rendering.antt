-- ===== src/Examples/Rendering.antt =====
-- A frame of client/ShadowLayer.cpp at one pixel of a small grid.
use legendofstealth.Level.Rendered.{Drawn, all_cast, render-lights_seen}
use legendofstealth.Level.Shadows.{should_draw_light}
use legendofstealth.Examples.Shadows.{grid, grid-IsStill, owners, casters, boxy-IsReady, lamp}
use legendofstealth.Level.Rendering.{
  one_minus_src_alpha, src_alpha, render, never, keep, Lamp, Screen,
}
use legendofstealth.Level.Stencil.{bytes, Blend, Raster, Pixel, Gl, IsDocumented, documented}
use legendofstealth.Level.Shapes.{
  calculate_global_vertices, get_shadow_shape, lowest, widest, get_aabb, Vec2,
}
use legendofstealth.Prelude.{
  ◌&&◌, ◌≡◌, ◌%◌, ◌/◌, leb, ◌∷◌, true, none, some, [], ◌+◌, Bool, List, false, ℕ, refl,
}

-- The pixel is the column 9, and a matrix moves to the right.
abbrev covers_column : ℕ → List (Vec2 ℕ) → Bool
covers_column m (v ∷ _ ∷ u ∷ _) = leb ((v.x + m) % 256) 9 && leb 9 ((u.x + m) % 256)
covers_column m _ = false

abbrev column : Raster ℕ
column = record {
  Matrix = ℕ;
  identity = 0;
  translated = λ x y z m. x + m;
  rotated = λ a x y z m. m;
  layered = λ m. m;
  covers = covers_column;
  own_texture = 7;
}

-- The factors that trutle has set.
abbrev plain : Blend
plain = record { source = src_alpha; destination = one_minus_src_alpha }

abbrev blank : Pixel column
blank = record {
  bound = false;
  testing = false;
  comparison = never;
  reference = 0;
  mask = 0;
  failing = keep;
  passing = keep;
  stencil = 0;
  matrix = 0;
  matrices = [];
  texturing = true;
  texture = 7;
  vertices_on = false;
  vertices = [];
  color = bytes 0 0 0 0;
  blend = plain;
  painted = [];
}

abbrev card : Gl column
card = record { World = Pixel column; perform = documented column; pixel = λ p. p }

card-IsDocumented : IsDocumented column card
card-IsDocumented = record { follows = λ c w. refl }

abbrev screen : Screen ℕ
screen = record {
  shadow_color = record { r = 0; g = 0; b = 0; a = 0 };
  resolution = record { x = 100; y = 100 };
  layer_position = record { x = 250; y = 250 };
}

-- Two lights with the shared texture 3 and one that has none.
abbrev lit : Lamp ℕ
lit = record { light = lamp; world_rotation = 0; shared = some 3; texture = none }

abbrev unlit : Lamp ℕ
unlit = record { light = lamp; world_rotation = 0; shared = none; texture = none }

abbrev far : Lamp ℕ
far = record lit { light = record lamp { world_position = record { x = 200; y = 200 } } }

-- The two lights that are drawn have a shadow.
lamps_cast :
    all_cast grid
      (λ a b. a / 2)
      column
      plain
      owners
      screen
      (1 ∷ 2 ∷ [])
      casters
      (lit ∷ unlit ∷ far ∷ [])
    ≡ true
unfolding should_draw_light get_aabb widest lowest get_shadow_shape calculate_global_vertices
lamps_cast = refl

render-lights_seen_example :
    Drawn grid
      (λ a b. a / 2)
      column
      plain
      owners
      screen
      (1 ∷ 2 ∷ [])
      (lit ∷ unlit ∷ far ∷ [])
      casters
      card
      blank
      (render grid (λ a b. a / 2) owners screen (1 ∷ 2 ∷ []) (lit ∷ unlit ∷ far ∷ []) casters)
render-lights_seen_example =
    render-lights_seen grid (λ a b. a / 2) column plain owners screen (1 ∷ 2 ∷ [])
      (lit ∷ unlit ∷ far ∷ []) casters card blank card-IsDocumented refl grid-IsStill
      (boxy-IsReady, (boxy-IsReady, tt))
