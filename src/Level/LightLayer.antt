-- ===== src/Level/LightLayer.antt =====
-- The lights of a map: MapParser::ParseLightLayer and FlipPixelY (client/MapParser.cpp), the loop of
-- ParseMap over the object groups, GameLayer::AddLight (client/GameLayer.cpp), and the light that the
-- constructor of Player makes (client/Player.cpp). What TmxParser read is a parameter.
use legendofstealth.Level.Layers.{minus_int}
use legendofstealth.Prelude.Int.{ℤ}
use legendofstealth.Level.Lights.{
  set_texture, new_light_source, set_light_properties, LightSource, Textures,
}
use legendofstealth.Level.Casters.{add_light_source, ShadowLayer}
use legendofstealth.Level.Shapes.{Vec2, Reals}
use legendofstealth.Prelude.{
  ◌>>=◌, faults, suc, done, ltb, ◌+◌, ◌==◌, none, length, if◌then◌else◌, some, ◌*◌, Outcome, ◌++◌,
  List, Bool, Option, [], ◌∷◌, ℕ,
}

pub record Color (A : Type 0) : Type 0 where
  pub r : A
  pub g : A
  pub b : A
  pub a : A

-- Tmx::Ellipse; the radii are what they are as floats.
pub record Ellipse (A : Type 0) : Type 0 where
  pub center_x : ℤ
  pub center_y : ℤ
  pub radius_x : A
  pub radius_y : A

-- Tmx::Object: the bytes of its type, its ellipse, NULL where it is none, and the properties r, g, b
-- and a that it has.
pub record TmxObject (A : Type 0) : Type 0 where
  pub type : List ℕ
  pub ellipse : Option (Ellipse A)
  pub r : Option A
  pub g : Option A
  pub b : Option A
  pub a : Option A

-- Tmx::ObjectGroup, and whether it is named lights.
pub record TmxObjectGroup (A : Type 0) : Type 0 where
  pub is_lights : Bool
  pub objects : List (TmxObject A)

-- What AddLight is given: LightSource::Properties, the position and the type.
pub record LightProperties (A : Type 0) : Type 0 where
  pub radius : A
  pub color : Color A
  pub position : Vec2 A
  pub type : List ℕ

-- The light sources in the order in which they were made, which is their address, what they hold of
-- textures, and the shadow layer.
pub record Scene (A : Type 0) : Type 0 where
  pub properties : List (LightProperties A)
  pub sources : List LightSource
  pub textures : Textures
  pub layer : ShadowLayer

abbrev pub with_light :
    {A : Type 0} → LightProperties A → Scene A → LightSource × Textures → Scene A
with_light props s (l, g) = record s {
  properties = s.properties ++ (props ∷ []);
  sources = s.sources ++ (l ∷ []);
  textures = g;
  layer = add_light_source (length s.sources) s.layer;
}

-- The bytes that %s prints: up to the first 0.
abbrev pub c_length : List ℕ → ℕ
c_length [] = 0
c_length (b ∷ bytes) = if b == 0 then 0 else suc (c_length bytes)

-- The characters of the message of AddLight: 70 of the format, those that %g prints of the seven
-- numbers, which `digits` counts, and the type.
unfoldable pub message_length : {A : Type 0} → (A → ℕ) → LightProperties A → ℕ
message_length digits props =
    70
    + digits props.radius
    + digits props.color.r
    + digits props.color.g
    + digits props.color.b
    + digits props.color.a
    + digits props.position.x
    + digits props.position.y
    + c_length props.type

-- `sprintf(str, ...)` into `char str[256]`: the message and a 0 behind it must not be longer.
unfoldable pub fits : {A : Type 0} → (A → ℕ) → LightProperties A → Bool
fits digits props = ltb (message_length digits props) 256

-- GameLayer::AddLight(lightProps, pos, type)
unfoldable pub add_light : {A : Type 0} → (A → ℕ) → LightProperties A → Scene A → Outcome (Scene A)
add_light digits props s =
    if fits digits props
    then done (with_light props s (set_light_properties new_light_source s.textures))
    else faults

-- FlipPixelY(mapY), for a map of this many rows of this height.
unfoldable pub flip_pixel_y : ℕ → ℕ → ℤ → ℤ
flip_pixel_y height tile_height map_y = minus_int (height * tile_height) map_y

module _ {A : Type 0} (reals : Reals A) (digits : A → ℕ) (height tile_height : ℕ) where
  open reals use {sub, fabs, less, hundredth, half, whole, of_int}

  -- The color of an object that has all four properties, and white otherwise.
  abbrev pub color_of : Option A → Option A → Option A → Option A → Color A
  color_of (some r) (some g) (some b) (some a) = record { r = r; g = g; b = b; a = a }
  color_of _ _ _ _ = record { r = whole 1; g = whole 1; b = whole 1; a = half }

  -- `abs(rx - ry) > 0.01`
  abbrev pub is_oval : Ellipse A → Bool
  is_oval e = less hundredth (fabs (sub e.radius_x e.radius_y))

  abbrev pub light_of : Ellipse A → TmxObject A → LightProperties A
  light_of e o = record {
    radius = e.radius_x;
    color = color_of o.r o.g o.b o.a;
    position = record {
      x = of_int e.center_x;
      y = of_int (flip_pixel_y height tile_height e.center_y);
    };
    type = o.type;
  }

  -- The body of the loop.
  abbrev pub parse_ellipse : Option (Ellipse A) → TmxObject A → Scene A → Outcome (Scene A)
  parse_ellipse none o s = done s
  parse_ellipse (some e) o s = if is_oval e then done s else add_light digits (light_of e o) s

  -- ParseLightLayer(group)
  unfoldable pub parse_light_layer : List (TmxObject A) → Scene A → Outcome (Scene A)
  parse_light_layer [] s = done s
  parse_light_layer (o ∷ objects) s = parse_ellipse o.ellipse o s >>= parse_light_layer objects

  -- The loop of ParseMap over the object groups.
  unfoldable pub parse_groups : List (TmxObjectGroup A) → Scene A → Outcome (Scene A)
  parse_groups [] s = done s
  parse_groups (group ∷ groups) s =
      let lit = parse_light_layer group.objects s >>= parse_groups groups in
      let passed = parse_groups groups s in if group.is_lights then lit else passed

-- The light of Player::Player: SetLightProperties and then SetTexture(texture).
unfoldable pub player_light : ℕ → Textures → Outcome (LightSource × Textures)
player_light texture g =
    let r = set_light_properties new_light_source g in set_texture texture r.0 r.1
