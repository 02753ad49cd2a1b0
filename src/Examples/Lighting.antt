-- ===== src/Examples/Lighting.antt =====
-- A map with lights and one without: the theorems on the light layer at concrete objects.
use legendofstealth.Level.FanShape.{fan_vertices-closed, clear_white, fan}
use legendofstealth.Level.Fan.{fan_colors, triangles_of_fan, fan_vertices, Circle}
use legendofstealth.Level.PlayerLight.{player_light-dangling}
use legendofstealth.Level.Lights.{Textures, LightSource}
use legendofstealth.Level.Lit.{parse_groups-Added, Added, all_lights, IsLit}
use legendofstealth.Examples.Shadows.{grid}
use legendofstealth.Level.LightLayer.{
  player_light, parse_groups, Scene, TmxObject, TmxObjectGroup, Ellipse, LightProperties,
}
use legendofstealth.Prelude.Int.{pos}
use legendofstealth.Prelude.{
  ◌>>=◌, arith, ◌-◌, map, done, ◌≡◌, some, inl, false, List, true, Option, none, [], ◌∷◌, ℕ, refl,
}

abbrev pub dark_scene : Scene ℕ
dark_scene = record {
  properties = [];
  sources = [];
  textures = record {
    render_texture = none;
    refs = 0;
    live = λ _. false;
    next_texture = 1;
    retained = λ _. 0;
  };
  layer = record { light_sources = []; shadow_casters = [] };
}

pub dark_scene-IsLit : IsLit dark_scene
dark_scene-IsLit = record {
  paired = refl;
  listed = refl;
  counted = refl;
  shared = tt;
  alive = inl (refl, refl);
}

abbrev ellipse_of : ℕ → ℕ → Ellipse ℕ
ellipse_of rx ry = record { center_x = pos 3; center_y = pos 4; radius_x = rx; radius_y = ry }

abbrev object_of : Option (Ellipse ℕ) → TmxObject ℕ
object_of e = record { type = 108 ∷ []; ellipse = e; r = some 1; g = some 1; b = some 1; a = none }

-- A rectangle and an ellipse that is not round.
abbrev unlit_group : TmxObjectGroup ℕ
unlit_group = record {
  is_lights = true;
  objects = object_of none ∷ object_of (some (ellipse_of 5 6)) ∷ [];
}

abbrev pub lit_group : TmxObjectGroup ℕ
lit_group = record {
  is_lights = true;
  objects =
      object_of (some (ellipse_of 5 5)) ∷ object_of none ∷ object_of (some (ellipse_of 7 7)) ∷ [];
}

-- Each number is printed in at most 13 characters.
abbrev pub thirteen : ℕ → ℕ
thirteen _ = 13

abbrev lamps : List (LightProperties ℕ)
lamps = all_lights grid thirteen 10 8 (unlit_group ∷ lit_group ∷ [])

parse_groups-Added_example :
    Added grid thirteen 10 8 dark_scene lamps
      (parse_groups grid thirteen 10 8 (unlit_group ∷ lit_group ∷ []) dark_scene)
parse_groups-Added_example =
    parse_groups-Added grid thirteen 10 8 (unlit_group ∷ lit_group ∷ []) dark_scene dark_scene-IsLit

player_light-dangling_example :
    (a : ℕ) × (l : LightSource) × (g : Textures) × ((parse_groups grid thirteen 10 8
          (unlit_group ∷ [])
          dark_scene
        >>= λ s'. player_light 9 s'.textures)
      ≡ done (l, g))
    × (g.render_texture ≡ some a)
    × (g.live a ≡ false)
player_light-dangling_example =
    player_light-dangling grid thirteen 10 8 9 (unlit_group ∷ []) dark_scene dark_scene-IsLit refl

-- Coordinates of the fan on the grid: the cosine and the sine of i are i and 2.
abbrev round : Circle ℕ
round = record { div = λ a b. a; cos = λ a. a; sin = λ _. 2; pi2 = 1 }

fan_vertices-closed_example :
    (fan_vertices grid round triangles_of_fan ≡ done (map some (fan grid round triangles_of_fan)))
    × (fan_colors triangles_of_fan
        ≡ done (map some (255 ∷ 255 ∷ 255 ∷ 255 ∷ clear_white (triangles_of_fan - 1))))
fan_vertices-closed_example = fan_vertices-closed grid round triangles_of_fan (omega arith)
