-- ===== src/Level/Drawn.antt =====
-- What comes of MapParser::ParseDrawableLayer (client/MapParser.cpp, client/MapLayer.cpp).
use legendofstealth.Level.LayerRender.{
  create_vbo-all_drawn, all_drawn, layer_calls, draws, IsBuffered,
}
use legendofstealth.Prelude.Int.{ℤ}
use legendofstealth.Level.Drawing.{
  add_tile-IsDrawable, destroy_buffers, create_buffers, MapLayer, Rect, Buffers, add_tile,
  create_vbo, new_map_layer, IsDrawable,
}
use legendofstealth.Level.Layers.{
  get_world_clip, Tileset, Floats, HasTiles, get_texture_clip, sized_clip, counted_clip, draw_tile,
  draw_rows, draw_columns, parse_drawable_layer, drawn, drawn_rows, drawn_columns,
}
use legendofstealth.Prelude.{
  ◌||◌, not, ◌∙◌, ◌>>=◌, ap, inr, zero, inl, ◌==◌, suc, Bool-cases, arith, ◌+◌, ◌/◌, done, ◌≡◌, ◌<◌,
  ℕ, refl,
}

module _ {A : Type 0} (float : Floats A) where
  counted_clip_done :
      (set : Tileset) (id : ℤ) (xcount ycount : ℕ)
      → 0 < xcount
      → 0 < ycount
      → (r : Rect A) × (counted_clip float set id xcount ycount ≡ done r)
  counted_clip_done set id xcount zero hx hy = absurd (omega arith)
  counted_clip_done set id zero (suc ycount) hx hy = absurd (omega arith)
  counted_clip_done set id (suc xcount) (suc ycount) hx hy = (_, refl)

  sized_clip_done :
      (set : Tileset) (gid tile_width tile_height : ℕ)
      → 0 < tile_width
      → 0 < tile_height
      → 0 < set.image_width / tile_width
      → 0 < set.image_height / tile_height
      → (r : Rect A) × (sized_clip float set gid tile_width tile_height ≡ done r)
  sized_clip_done set gid tile_width zero hw hh hx hy = absurd (omega arith)
  sized_clip_done set gid zero (suc tile_height) hw hh hx hy = absurd (omega arith)
  sized_clip_done set gid (suc tile_width) (suc tile_height) hw hh hx hy =
      counted_clip_done set _ _ _ hx hy

  get_texture_clip_done :
      (set : Tileset) (gid : ℕ)
      → HasTiles set
      → (r : Rect A) × (get_texture_clip float set gid ≡ done r)
  unfolding get_texture_clip
  get_texture_clip_done set gid v =
      sized_clip_done set gid set.tile_width set.tile_height v.wide v.tall v.columns v.rows

  -- The layer after some tiles have been drawn on it.
  record IsDrawn (n : ℕ) (l l' : MapLayer A) : Type 0 where
    pub drawable : IsDrawable l'
    pub more : l'.num_tiles ≡ l.num_tiles + n
    pub vert_buffer : l'.vert_buf ≡ l.vert_buf
    pub tex_buffer : l'.tex_buf ≡ l.tex_buf

  draw_tile-IsDrawn :
      (set : Tileset) (height x y gid : ℕ) (l : MapLayer A)
      → HasTiles set
      → IsDrawable l
      → (l' : MapLayer A) × (draw_tile float set height x y gid l ≡ done l')
        × IsDrawn (drawn gid) l l'
  unfolding draw_tile add_tile
  draw_tile-IsDrawn set height x y gid l v d = elim (Bool-cases (gid == 0)) [
    | inl empty ↦ (
      l,
      rw empty refl,
      rw empty (record { drawable = d; more = omega arith; vert_buffer = refl; tex_buffer = refl }),
    )
    | inr filled ↦
        let (r, e) = get_texture_clip_done set gid v in
        (
          add_tile float.add (get_world_clip float set height x y) r l,
          rw filled (
              ap
                (λ o.
                  o >>= λ t. done (add_tile float.add (get_world_clip float set height x y) t l))
                e),
          rw filled (record {
            drawable = add_tile-IsDrawable float.add (get_world_clip float set height x y) r l d;
            more = refl;
            vert_buffer = refl;
            tex_buffer = refl;
          }),
        )
  ]

  then-IsDrawn :
      (n k : ℕ) (l l1 l2 : MapLayer A) → IsDrawn n l l1 → IsDrawn k l1 l2 → IsDrawn (n + k) l l2
  then-IsDrawn n k l l1 l2 a b = record {
    drawable = b.drawable;
    more = omega (arith, a.more, b.more);
    vert_buffer = b.vert_buffer ∙ a.vert_buffer;
    tex_buffer = b.tex_buffer ∙ a.tex_buffer;
  }

  module _ (gids : ℕ → ℕ → ℕ) (set : Tileset) (v : HasTiles set) where
    draw_rows-IsDrawn :
        (height left x y : ℕ) (l : MapLayer A)
        → IsDrawable l
        → (l' : MapLayer A) × (draw_rows float gids set height left x y l ≡ done l')
          × IsDrawn (drawn_rows gids left x y) l l'
    unfolding draw_rows
    draw_rows-IsDrawn height zero x y l d = (
      l,
      refl,
      record { drawable = d; more = omega arith; vert_buffer = refl; tex_buffer = refl },
    )
    draw_rows-IsDrawn height (suc left) x y l d =
        let (l1, e, a) = draw_tile-IsDrawn set height x y (gids x y) l v d in
        let (l2, e', b) = draw_rows-IsDrawn height left x (suc y) l1 a.drawable in
        (
          l2,
          ap (λ o. o >>= draw_rows float gids set height left x (suc y)) e ∙ e',
          then-IsDrawn _ _ l l1 l2 a b,
        )

    draw_columns-IsDrawn :
        (height left x : ℕ) (l : MapLayer A)
        → IsDrawable l
        → (l' : MapLayer A) × (draw_columns float gids set height left x l ≡ done l')
          × IsDrawn (drawn_columns gids height left x) l l'
    unfolding draw_columns
    draw_columns-IsDrawn height zero x l d = (
      l,
      refl,
      record { drawable = d; more = omega arith; vert_buffer = refl; tex_buffer = refl },
    )
    draw_columns-IsDrawn height (suc left) x l d =
        let (l1, e, a) = draw_rows-IsDrawn height height x 0 l d in
        let (l2, e', b) = draw_columns-IsDrawn height left (suc x) l1 a.drawable in
        (
          l2,
          ap (λ o. o >>= draw_columns float gids set height left (suc x)) e ∙ e',
          then-IsDrawn _ _ l l1 l2 a b,
        )

    module _ (gl : Buffers A) where
      abbrev Kept : MapLayer A → MapLayer A × Buffers.World gl → Type 0
      Kept l r = IsDrawable r.0 × (r.0.num_tiles ≡ l.num_tiles)

      create_buffers-Kept :
          (l : MapLayer A) (w : Buffers.World gl) → IsDrawable l → Kept l (create_buffers gl l w)
      unfolding create_buffers destroy_buffers
      create_buffers-Kept l w d =
          elim (Bool-cases (not (l.tex_buf == 0) || not (l.vert_buf == 0))) [
            | inl e ↦ rw e (drawable_again, refl)
            | inr e ↦ rw e (drawable_again, refl)
          ]
        where
          drawable_again : {a b : ℕ} → IsDrawable (record l { tex_buf = a; vert_buf = b })
          drawable_again = record { vertex_count = d.vertex_count; tex_count = d.tex_count }

      create_vbo-Kept :
          (l : MapLayer A) (w : Buffers.World gl) → IsDrawable l → Kept l (create_vbo gl l w)
      unfolding create_vbo
      create_vbo-Kept l w d = elim (Bool-cases (l.num_tiles == 0)) [
        | inl e ↦ rw e (d, refl)
        | inr e ↦ elim (Bool-cases ((l.vert_buf == 0) || (l.tex_buf == 0))) [
          | inl e' ↦ rw (e, e') (create_buffers-Kept l w d)
          | inr e' ↦ rw (e, e') (d, refl)
        ]
      ]

      -- ParseDrawableLayer, for an image that holds a tile in each direction: it returns, its layer has
      -- as many tiles as the layer of the map has cells whose gid is not 0, and its buffers hold four
      -- vertices of two coordinates for each.
      pub parse_drawable_layer-IsDrawable :
          (width height : ℕ) (w : Buffers.World gl)
          → (r : MapLayer A × Buffers.World gl) × (parse_drawable_layer float gids set gl width
                height w
              ≡ done r)
            × IsDrawable r.0
            × (r.0.num_tiles ≡ drawn_columns gids height width 0)
      unfolding parse_drawable_layer new_map_layer
      parse_drawable_layer-IsDrawable width height w =
          let (l, e, a) =
            draw_columns-IsDrawn height width 0 new_map_layer
              (record { vertex_count = refl; tex_count = refl }) in
          let (d, n) = create_vbo-Kept l w a.drawable in
          (
            create_vbo gl l w,
            ap (λ o. o >>= λ m. done (create_vbo gl m w)) e,
            d,
            n ∙ a.more ∙ omega arith,
          )

      -- ParseDrawableLayer and then Render, for an image that holds a tile in each direction, where a
      -- handle that is generated is neither 0 nor in use and a buffer holds what it was given last:
      -- the layer is made, it has as many tiles as the layer of the map has cells whose gid is not 0,
      -- four vertices of two coordinates and as many texture coordinates for each, and Render draws
      -- exactly these, or nothing where there is no tile.
      pub parse_drawable_layer-all_drawn :
          (buffered : IsBuffered gl) (width height : ℕ) (w : Buffers.World gl)
          → (r : MapLayer A × Buffers.World gl) × (parse_drawable_layer float gids set gl width
                height w
              ≡ done r)
            × IsDrawable r.0
            × (r.0.num_tiles ≡ drawn_columns gids height width 0)
            × (draws (IsBuffered.content buffered r.1) 0 0 0 (layer_calls r.0)
                ≡ all_drawn gl buffered r.0)
      unfolding parse_drawable_layer new_map_layer
      parse_drawable_layer-all_drawn buffered width height w =
          let (l, e, a) =
            draw_columns-IsDrawn height width 0 new_map_layer
              (record { vertex_count = refl; tex_count = refl }) in
          let (d, n) = create_vbo-Kept l w a.drawable in
          (
            create_vbo gl l w,
            ap (λ o. o >>= λ m. done (create_vbo gl m w)) e,
            d,
            n ∙ a.more ∙ omega arith,
            create_vbo-all_drawn gl buffered l w a.vert_buffer a.tex_buffer a.drawable,
          )
