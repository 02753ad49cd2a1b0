-- ===== src/Level/LayerRender.antt =====
-- MapLayer::Render (client/MapLayer.cpp): the calls of OpenGL that it makes, and what they draw from
-- the buffers.
use legendofstealth.Level.Drawing.{MapLayer, Buffers, create_vbo, create_buffers, IsDrawable}
use legendofstealth.Prelude.{
  inr, ==_iff, zero, ◌∙◌, sym, ap, true-ne-false, suc, inl, arith, Bool-cases, ◌∷◌, ◌*◌, true, [],
  false, length, take, Bool, if◌then◌else◌, ◌≡◌, ◌==◌, List, ℕ, refl,
}

-- The calls of Render. Pointers are NULL, which is the start of the buffer that is bound; the arrays
-- are drawn as quads, from the first vertex on.
pub data LayerCall : Type 0 where
  push_layer pop_layer : LayerCall
  texturing_on texturing_off : LayerCall
  bind_layer_texture unbind_layer_texture : LayerCall
  vertex_array_on tex_coord_array_on : LayerCall
  bind_buffer : ℕ → LayerCall
  vertex_start tex_coord_start : LayerCall
  draw_quads : ℕ → LayerCall

-- Render(renderer)
unfoldable pub layer_calls : {A : Type 0} → MapLayer A → List LayerCall
layer_calls l =
    if l.num_tiles == 0
    then []
    else push_layer
      ∷ texturing_on
      ∷ bind_layer_texture
      ∷ vertex_array_on
      ∷ tex_coord_array_on
      ∷ bind_buffer l.vert_buf
      ∷ vertex_start
      ∷ bind_buffer l.tex_buf
      ∷ tex_coord_start
      ∷ draw_quads (l.num_tiles * 4)
      ∷ unbind_layer_texture
      ∷ bind_buffer 0
      ∷ texturing_off
      ∷ pop_layer
      ∷ []

-- What is relied on of OpenGL: a handle that is generated is neither 0 nor in use, and a buffer holds
-- the data that it was given last.
pub record IsBuffered {A : Type 0} (gl : Buffers A) : Type 0 where
  pub content : Buffers.World gl → ℕ → List A
  pub in_use : Buffers.World gl → ℕ → Bool
  pub some_handle : (w : Buffers.World gl) → ((Buffers.gen_buffer gl w).0 == 0) ≡ false
  pub new_handle : (w : Buffers.World gl) → in_use w (Buffers.gen_buffer gl w).0 ≡ false
  pub used_handle :
      (w : Buffers.World gl) → in_use (Buffers.gen_buffer gl w).1 (Buffers.gen_buffer gl w).0 ≡ true
  pub content-buffer_data :
      (h : ℕ) (data_of : List A) (w : Buffers.World gl) (k : ℕ)
      → content (Buffers.buffer_data gl h data_of w) k ≡ (if h == k then data_of else content w k)

module _ {A : Type 0} (content : ℕ → List A) where
  -- What the calls draw: the coordinates and the texture coordinates, two numbers for each vertex,
  -- from the buffers that were bound when the pointers were set.
  unfoldable pub draws : ℕ → ℕ → ℕ → List LayerCall → List (List A × List A)
  draws bound vert tex [] = []
  draws bound vert tex (bind_buffer h ∷ calls) = draws h vert tex calls
  draws bound vert tex (vertex_start ∷ calls) = draws bound bound tex calls
  draws bound vert tex (tex_coord_start ∷ calls) = draws bound vert bound calls
  draws bound vert tex (draw_quads n ∷ calls) =
      (take (n * 2) (content vert), take (n * 2) (content tex)) ∷ draws bound vert tex calls
  draws bound vert tex (_ ∷ calls) = draws bound vert tex calls

module _ {A : Type 0} (gl : Buffers A) (buffered : IsBuffered gl) where
  open gl use {World, gen_buffer}
  open buffered use {content, in_use}

  take-all : {B : Type 0} (n : ℕ) (xs : List B) → length xs ≡ n → take n xs ≡ xs
  take-all zero [] e = refl
  take-all zero (x ∷ xs) e = absurd (omega (arith, e))
  take-all (suc n) [] e = refl
  take-all (suc n) (x ∷ xs) e = ap (◌∷◌ x) (take-all n xs (omega (arith, e)))

  -- The two handles that CreateBuffers generates.
  abbrev first : World → ℕ
  first w = (gen_buffer w).0

  abbrev second : World → ℕ
  second w = (gen_buffer (gen_buffer w).1).0

  distinct : (w : World) → (first w == second w) ≡ false
  distinct w = elim (Bool-cases (first w == second w)) [
    | inl same ↦ absurd (
        true-ne-false (
          sym (buffered.used_handle w)
          ∙ ap (in_use (gen_buffer w).1) ((==_iff (first w) (second w)).0 same)
          ∙ buffered.new_handle (gen_buffer w).1))
    | inr other ↦ other
  ]

  same_handle : (h : ℕ) → (h == h) ≡ true
  same_handle h = (==_iff h h).1 refl

  -- CreateVBO of a layer with tiles and without buffers.
  create_vbo-new :
      (l : MapLayer A) (w : World)
      → l.vert_buf ≡ 0
      → l.tex_buf ≡ 0
      → (l.num_tiles == 0) ≡ false
      → ((create_vbo gl l w).0 ≡ record l { vert_buf = first w; tex_buf = second w })
        × (content (create_vbo gl l w).1 (first w) ≡ l.vertices)
        × (content (create_vbo gl l w).1 (second w) ≡ l.tex_coords)
  unfolding create_vbo create_buffers
  create_vbo-new l w v t n =
      rw (n, v, t)
        (
          refl,
          buffered.content-buffer_data (first w) l.vertices _ (first w)
              ∙ rw (same_handle (first w)) refl,
          buffered.content-buffer_data (first w) l.vertices _ (second w)
              ∙ rw (distinct w) (
                  buffered.content-buffer_data (second w) l.tex_coords _ (second w)
                  ∙ rw (same_handle (second w)) refl),
        )

  -- A layer with tiles, that is drawable and has no buffers yet: after CreateVBO, Render draws once,
  -- and it draws exactly the vertices and the texture coordinates of the tiles, where a handle that is
  -- generated is neither 0 nor in use and a buffer holds what it was given last.
  pub draws-layer_calls :
      (l : MapLayer A) (w : World)
      → l.vert_buf ≡ 0
      → l.tex_buf ≡ 0
      → (l.num_tiles == 0) ≡ false
      → IsDrawable l
      → draws (content (create_vbo gl l w).1) 0 0 0 (layer_calls (create_vbo gl l w).0)
        ≡ (l.vertices, l.tex_coords) ∷ []
  unfolding layer_calls draws
  draws-layer_calls l w v t n d =
      let (made, vertices, tex_coords) = create_vbo-new l w v t n in
      rw
        (
          made,
          n,
          vertices,
          tex_coords,
          take-all (l.num_tiles * 4 * 2) l.vertices d.vertex_count,
          take-all (l.num_tiles * 4 * 2) l.tex_coords d.tex_count,
        )
        refl

  -- What Render draws of a layer: nothing, where there are no tiles, and all its vertices.
  abbrev pub all_drawn : MapLayer A → List (List A × List A)
  all_drawn l = if l.num_tiles == 0 then [] else (l.vertices, l.tex_coords) ∷ []

  pub create_vbo-all_drawn :
      (l : MapLayer A) (w : World)
      → l.vert_buf ≡ 0
      → l.tex_buf ≡ 0
      → IsDrawable l
      → draws (content (create_vbo gl l w).1) 0 0 0 (layer_calls (create_vbo gl l w).0)
        ≡ all_drawn (create_vbo gl l w).0
  unfolding create_vbo layer_calls draws
  create_vbo-all_drawn l w v t d = elim (Bool-cases (l.num_tiles == 0)) [
    | inl bare ↦ rw (bare, bare) refl
    | inr n ↦
        draws-layer_calls l w v t n d ∙ sym (ap all_drawn (create_vbo-new l w v t n).0 ∙ rw n refl)
  ]
