-- ===== src/Level/Drawing.antt =====
-- class MapLayer (client/MapLayer.h, client/MapLayer.cpp): the vertices of a layer of the map. The
-- coordinates are of any type with an addition, which in the source is that of floats, and OpenGL's
-- buffers are a parameter. `_tileSize`, which nothing reads, is left out; `LayerRender` has Render.
use legendofstealth.Prelude.{
  ℕ, List, [], ◌∷◌, ◌++◌, ◌+◌, ◌*◌, ◌==◌, if◌then◌else◌, not, ◌||◌, ◌≡◌, length, length-append,
  arith,
}

pub record Rect (A : Type 0) : Type 0 where
  pub x : A
  pub y : A
  pub w : A
  pub h : A

-- The handles of the buffers are numbers, and 0 is none.
pub record MapLayer (A : Type 0) : Type 0 where
  pub tex_coords : List A
  pub vertices : List A
  pub num_tiles : ℕ
  pub tex_buf : ℕ
  pub vert_buf : ℕ

-- glGenBuffers, glDeleteBuffers and glBufferData.
pub record Buffers (A : Type 0) : Type 1 where
  pub World : Type 0
  pub gen_buffer : World → ℕ × World
  pub delete_buffer : ℕ → World → World
  pub buffer_data : ℕ → List A → World → World

-- MapLayer::MapLayer, without its texture.
unfoldable pub new_map_layer : {A : Type 0} → MapLayer A
new_map_layer = record { tex_coords = []; vertices = []; num_tiles = 0; tex_buf = 0; vert_buf = 0 }

module _ {A : Type 0} (add : A → A → A) where
  -- The four corners, in the order in which AddTile pushes them.
  abbrev pub corners : Rect A → List A
  corners r = r.x ∷ r.y ∷ add r.x r.w ∷ r.y ∷ add r.x r.w ∷ add r.y r.h ∷ r.x ∷ add r.y r.h ∷ []

  -- AddTile(worldClip, texClip)
  unfoldable pub add_tile : Rect A → Rect A → MapLayer A → MapLayer A
  add_tile world_clip tex_clip l = record l {
    vertices = l.vertices ++ corners world_clip;
    tex_coords = l.tex_coords ++ corners tex_clip;
    num_tiles = l.num_tiles + 1;
  }

module _ {A : Type 0} (gl : Buffers A) where
  open gl use {World, gen_buffer, delete_buffer, buffer_data}

  -- DestroyBuffers
  unfoldable pub destroy_buffers : MapLayer A → World → MapLayer A × World
  destroy_buffers l w =
      let w' = if l.tex_buf == 0 then w else delete_buffer l.tex_buf w in
      (
        record l { tex_buf = 0; vert_buf = 0 },
        if l.vert_buf == 0 then w' else delete_buffer l.vert_buf w',
      )

  abbrev pub generated : MapLayer A × World → MapLayer A × World
  generated (l, w) =
      let (vert_buf, w') = gen_buffer w in
      let (tex_buf, w'') = gen_buffer w' in
      (record l { vert_buf = vert_buf; tex_buf = tex_buf }, w'')

  -- CreateBuffers
  unfoldable pub create_buffers : MapLayer A → World → MapLayer A × World
  create_buffers l w =
      let destroyed = generated (destroy_buffers l w) in
      let fresh = generated (l, w) in
      if not (l.tex_buf == 0) || not (l.vert_buf == 0) then destroyed else fresh

  -- FillBuffers
  abbrev pub fill_buffers : MapLayer A × World → MapLayer A × World
  fill_buffers (l, w) =
      (l, buffer_data l.vert_buf l.vertices (buffer_data l.tex_buf l.tex_coords w))

  -- CreateVBO
  unfoldable pub create_vbo : MapLayer A → World → MapLayer A × World
  create_vbo l w =
      let (l', w') = if (l.vert_buf == 0) || (l.tex_buf == 0) then create_buffers l w else (l, w) in
      let filled = fill_buffers (l', w') in if l.num_tiles == 0 then (l, w) else filled

-- What Render relies on: it draws four vertices of two coordinates for each tile.
pub record IsDrawable {A : Type 0} (l : MapLayer A) : Type 0 where
  pub vertex_count : length l.vertices ≡ l.num_tiles * 4 * 2
  pub tex_count : length l.tex_coords ≡ l.num_tiles * 4 * 2

module _ {A : Type 0} (add : A → A → A) where
  pub add_tile-IsDrawable :
      (world_clip tex_clip : Rect A) (l : MapLayer A)
      → IsDrawable l
      → IsDrawable (add_tile add world_clip tex_clip l)
  unfolding add_tile
  add_tile-IsDrawable world_clip tex_clip l v = record {
    vertex_count = omega (arith, length-append l.vertices (corners add world_clip), v.vertex_count);
    tex_count = omega (arith, length-append l.tex_coords (corners add tex_clip), v.tex_count);
  }
