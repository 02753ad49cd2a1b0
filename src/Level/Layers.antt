-- ===== src/Level/Layers.antt =====
-- MapParser::ParseDrawableLayer with GetTextureClip and GetWorldClip (client/MapParser.cpp). The layer
-- and the tile set are what TmxParser read of the map's file; the arithmetic of floats is a parameter.
use legendofstealth.Prelude.Int.{sub_ℕ, negsuc, pos, ℤ}
use legendofstealth.Level.Walls.{flip_y}
use legendofstealth.Level.Drawing.{MapLayer, Rect, Buffers, add_tile, create_vbo, new_map_layer}
use legendofstealth.Prelude.{
  zero, ◌+◌, ◌==◌, done, ◌>>=◌, faults, ◌*◌, ◌%◌, ◌/◌, ◌<◌, suc, if◌then◌else◌, Outcome, ℕ,
}

-- Tmx::Tileset, with the size of its image.
pub record Tileset : Type 0 where
  pub image_width : ℕ
  pub image_height : ℕ
  pub tile_width : ℕ
  pub tile_height : ℕ
  pub first_gid : ℕ

-- The conversion of an int to a float, and the operators on floats.
pub record Floats (A : Type 0) : Type 0 where
  pub of_int : ℤ → A
  pub add : A → A → A
  pub divide : A → A → A

abbrev pub negated : ℕ → ℤ
negated zero = pos 0
negated (suc n) = negsuc n

-- `a / b` and `a % b` on ints, for a positive divisor: rounded towards 0.
abbrev pub divided : ℤ → ℕ → ℤ
divided (pos n) k = pos (n / k)
divided (negsuc n) k = negated (suc n / k)

abbrev pub remainder : ℤ → ℕ → ℤ
remainder (pos n) k = pos (n % k)
remainder (negsuc n) k = negated (suc n % k)

-- `a - b` and `a * b`, where one of the ints is not negative.
abbrev pub minus_int : ℕ → ℤ → ℤ
minus_int a (pos b) = sub_ℕ a b
minus_int a (negsuc b) = pos (a + suc b)

abbrev pub times : ℤ → ℕ → ℤ
times (pos a) b = pos (a * b)
times (negsuc a) b = negated (suc a * b)

module _ {A : Type 0} (float : Floats A) where
  open float use {of_int, add, divide}

  -- `texClip`, from the column and the row of the tile in the image.
  abbrev pub texture_rect : Tileset → ℤ → ℤ → Rect A
  texture_rect set tilex tiley = record {
    x = divide (of_int (times tilex set.tile_width)) (of_int (pos set.image_width));
    y = divide (of_int (times tiley set.tile_height)) (of_int (pos set.image_height));
    w = divide (of_int (pos set.tile_width)) (of_int (pos set.image_width));
    h = divide (of_int (pos set.tile_height)) (of_int (pos set.image_height));
  }

  -- GetTextureClip, given `xcount` and `ycount`. A division of ints by 0 is a fault.
  abbrev pub counted_clip : Tileset → ℤ → ℕ → ℕ → Outcome (Rect A)
  counted_clip set id xcount zero = faults
  counted_clip set id zero (suc ycount) = faults
  counted_clip set id (suc xcount) (suc ycount) = done (
      texture_rect set (remainder id (suc xcount))
        (minus_int (suc ycount) (divided id (suc ycount))))

  -- GetTextureClip(set, gid), for the tile set of the map.
  abbrev pub sized_clip : Tileset → ℕ → ℕ → ℕ → Outcome (Rect A)
  sized_clip set gid tile_width zero = faults
  sized_clip set gid zero (suc tile_height) = faults
  sized_clip set gid (suc tile_width) (suc tile_height) =
      counted_clip set (sub_ℕ gid set.first_gid) (set.image_width / suc tile_width)
        (set.image_height / suc tile_height)

  unfoldable pub get_texture_clip : Tileset → ℕ → Outcome (Rect A)
  get_texture_clip set gid = sized_clip set gid set.tile_width set.tile_height

  -- GetWorldClip(set, x, y)
  unfoldable pub get_world_clip : Tileset → ℕ → ℕ → ℕ → Rect A
  get_world_clip set height x y = record {
    x = of_int (pos (x * set.tile_width));
    y = of_int (pos (flip_y height y * set.tile_height));
    w = of_int (pos set.tile_width);
    h = of_int (pos set.tile_height);
  }

  -- The body of the loops.
  unfoldable pub draw_tile : Tileset → ℕ → ℕ → ℕ → ℕ → MapLayer A → Outcome (MapLayer A)
  draw_tile set height x y gid l =
      let drawn = get_texture_clip set gid >>= λ tex_clip.
      done (add_tile add (get_world_clip set height x y) tex_clip l) in
      if gid == 0 then done l else drawn

  module _ (get_tile_gid : ℕ → ℕ → ℕ) (set : Tileset) where
    -- The inner loop from `y` on, with the number of rounds that are left, and the outer loop.
    unfoldable pub draw_rows : ℕ → ℕ → ℕ → ℕ → MapLayer A → Outcome (MapLayer A)
    draw_rows height zero x y l = done l
    draw_rows height (suc left) x y l =
        draw_tile set height x y (get_tile_gid x y) l >>= draw_rows height left x (suc y)

    unfoldable pub draw_columns : ℕ → ℕ → ℕ → MapLayer A → Outcome (MapLayer A)
    draw_columns height zero x l = done l
    draw_columns height (suc left) x l =
        draw_rows height height x 0 l >>= draw_columns height left (suc x)

    -- ParseDrawableLayer(layer), for a map of this size.
    unfoldable pub parse_drawable_layer :
        (gl : Buffers A) → ℕ → ℕ → Buffers.World gl → Outcome (MapLayer A × Buffers.World gl)
    parse_drawable_layer gl width height w =
        draw_columns height width 0 new_map_layer >>= λ l. done (create_vbo gl l w)

-- The tiles of a layer that are drawn, counted.
abbrev pub drawn : ℕ → ℕ
drawn gid = if gid == 0 then 0 else 1

abbrev pub drawn_rows : (ℕ → ℕ → ℕ) → ℕ → ℕ → ℕ → ℕ
drawn_rows gids zero x y = 0
drawn_rows gids (suc left) x y = drawn (gids x y) + drawn_rows gids left x (suc y)

abbrev pub drawn_columns : (ℕ → ℕ → ℕ) → ℕ → ℕ → ℕ → ℕ
drawn_columns gids height zero x = 0
drawn_columns gids height (suc left) x =
    drawn_rows gids height x 0 + drawn_columns gids height left (suc x)

-- An image that holds a tile in each direction.
pub record HasTiles (set : Tileset) : Type 0 where
  pub wide : 0 < set.tile_width
  pub tall : 0 < set.tile_height
  pub columns : 0 < set.image_width / set.tile_width
  pub rows : 0 < set.image_height / set.tile_height
