-- ===== src/Level/Rendered.antt =====
-- What ShadowLayer::Render draws over a pixel of its render texture (client/ShadowLayer.cpp).
use legendofstealth.Level.ShadowShapes.{IsStill}
use legendofstealth.Level.Shown.{Alike-refl, Alike}
use legendofstealth.Level.Shadows.{should_draw_light, get_shadow_vertices, Casters}
use legendofstealth.Level.Casting.{IsReady-Alike, all_shadows-Alike, all_shadows, loop, IsReady}
use legendofstealth.Level.Rendering.{
  shadow_calls, one, one_minus_dst_alpha, before_lights, render, render_light, render_shadows,
  screen_square, after_lights, GlCall, render_loop, draw_render_texture, draw_fill_shadow, Lamp,
  Screen,
}
use legendofstealth.Level.Stencil.{
  floats, Stroke, Blend, perform_all-step_all, perform_all, IsDocumented, Gl, step_all-append,
  step_all, documented, Raster, Pixel,
}
use legendofstealth.Level.Visible.{current, light-IsLitting, current_after, seen, IsLitting}
use legendofstealth.Level.Shapes.{Vec2, Owner, Reals}
use legendofstealth.Prelude.{
  ◌⊎◌, ◌&&◌, faults, false, true, Bool, ◌>>=◌, ap, ◌∙◌, append_assoc, sym, subst, inr, inl,
  Bool-cases, append-nil, [], All, done, ◌++◌, ◌≡◌, if◌then◌else◌, Outcome, ◌∷◌, List, ℕ, refl,
}

module _ {A : Type 0} (reals : Reals A) (div : A → A → A) (raster : Raster A) (blend : Blend) where
  open raster use {Matrix, layered, covers}

  -- What DrawFillShadow draws: the shadow color, weakened by what is there.
  abbrev pub fill_stroke : Screen A → ℕ → Stroke A
  fill_stroke screen texture = record {
    texture = texture;
    color = floats screen.shadow_color;
    blend = record { source = one_minus_dst_alpha; destination = one };
  }

  -- DrawFillShadow reaches the pixel without the stencil test, under the matrix that was before the
  -- lights; what follows is drawn to the screen.
  after_lights-painted :
      (screen : Screen A) (m m0 : Matrix) (ms : List Matrix) (painted : List (Stroke A))
      (texture : ℕ) (p : Pixel raster)
      → IsLitting reals div raster blend m (m0 ∷ ms) painted texture p
      → (step_all raster (after_lights reals div screen) p).painted
        ≡ painted
          ++ (if covers m0 (screen_square reals div screen)
              then fill_stroke screen texture ∷ []
              else [])
  unfolding draw_fill_shadow draw_render_texture documented
  after_lights-painted screen m m0 ms painted texture p h =
      elim (Bool-cases (covers m0 (screen_square reals div screen))) [
        | inl c ↦ rw (h.bound, h.matrices, c, h.texture_is, h.painted_is) refl
        | inr c ↦ rw (h.bound, h.matrices, c, h.painted_is, append-nil painted) refl
      ]

  abbrev pub has_vertex : List (Vec2 A) → Bool
  has_vertex [] = false
  has_vertex (v ∷ vs) = true

  render_shadows-has_vertex :
      (screen : Screen A) (shadow : List (Vec2 A))
      → render_shadows reals div screen shadow
        ≡ (if has_vertex shadow then done (shadow_calls reals div screen shadow) else faults)
  unfolding render_shadows
  render_shadows-has_vertex screen [] = refl
  render_shadows-has_vertex screen (v ∷ vs) = refl

  module _ (owners : ℕ → Owner A) (screen : Screen A) (list : List ℕ) where
    -- The lights that are seen at the pixel, each behind its own shadows only.
    abbrev pub lights_seen : Matrix → Casters reals → List (Lamp A) → List (Stroke A)
    lights_seen m casters [] = []
    lights_seen m casters (lamp ∷ rest) =
        (if should_draw_light reals screen.layer_position lamp.light
          then seen reals div raster blend m lamp (all_shadows reals owners lamp.light list casters)
          else [])
        ++ lights_seen m casters rest

    -- The texture that is left to draw with.
    abbrev pub last_texture : List (Lamp A) → ℕ → ℕ
    last_texture [] t = t
    last_texture (lamp ∷ rest) t = last_texture rest (
        if should_draw_light reals screen.layer_position lamp.light
        then current_after reals div raster blend lamp t
        else t)

    -- Whether every light that is drawn has a shadow.
    abbrev pub all_cast : Casters reals → List (Lamp A) → Bool
    all_cast casters [] = true
    all_cast casters (lamp ∷ rest) =
        if should_draw_light reals screen.layer_position lamp.light
        then has_vertex (all_shadows reals owners lamp.light list casters) && all_cast casters rest
        else all_cast casters rest

    all_cast-Alike :
        (casters casters' : Casters reals) (lamps : List (Lamp A))
        → ((b : ℕ) → Alike reals (owners b) (casters b) (casters' b))
        → all_cast casters' lamps ≡ all_cast casters lamps
    all_cast-Alike casters casters' [] same = refl
    all_cast-Alike casters casters' (lamp ∷ rest) same =
        rw
          (
            all_shadows-Alike reals owners lamp.light list casters casters' same,
            all_cast-Alike casters casters' rest same,
          )
          refl

    lights_seen-Alike :
        (m : Matrix) (casters casters' : Casters reals) (lamps : List (Lamp A))
        → ((b : ℕ) → Alike reals (owners b) (casters b) (casters' b))
        → lights_seen m casters' lamps ≡ lights_seen m casters lamps
    lights_seen-Alike m casters casters' [] same = refl
    lights_seen-Alike m casters casters' (lamp ∷ rest) same =
        rw
          (
            all_shadows-Alike reals owners lamp.light list casters casters' same,
            lights_seen-Alike m casters casters' rest same,
          )
          refl

    -- Where all lights that are drawn have a shadow, the calls that are made leave the pixel as it
    -- should be.
    abbrev Rendered :
        Pixel raster
        → Matrix
        → List Matrix
        → List (Stroke A)
        → ℕ
        → Bool
        → Outcome (List (GlCall A) × Casters reals)
        → Type 0
    Rendered start m ms painted texture cast o =
        ((cast ≡ true)
          × (calls : List (GlCall A)) × (casters' : Casters reals) × (o ≡ done (calls, casters'))
          × IsLitting reals div raster blend m ms painted texture (step_all raster calls start))
        ⊎ ((cast ≡ false) × (o ≡ faults))

    -- A light is drawn, which paints what is seen of it, and then the others.
    lit_light :
        (start : Pixel raster) (m : Matrix) (ms : List Matrix) (painted : List (Stroke A))
        (texture : ℕ) (lamp : Lamp A) (rest : List (Lamp A)) (casters casters' : Casters reals)
        (calls : List (GlCall A))
        → ((b : ℕ) → Alike reals (owners b) (casters b) (casters' b))
        → Rendered start m ms
            ((painted
                ++ seen reals div raster blend m lamp
                    (all_shadows reals owners lamp.light list casters))
              ++ lights_seen m casters' rest)
            (last_texture rest (current_after reals div raster blend lamp texture))
            (all_cast casters' rest)
            (render_loop reals div owners screen list rest casters' (
              calls
              ++ (shadow_calls reals div screen (all_shadows reals owners lamp.light list casters)
                  ++ render_light reals div lamp)))
        → Rendered start m ms
            (painted
              ++ (seen reals div raster blend m lamp
                    (all_shadows reals owners lamp.light list casters)
                  ++ lights_seen m casters rest))
            (last_texture rest (current_after reals div raster blend lamp texture))
            (has_vertex (all_shadows reals owners lamp.light list casters) && all_cast casters rest)
            (render_shadows reals div screen (all_shadows reals owners lamp.light list casters)
              >>= λ shadows.
                  render_loop reals div owners screen list rest casters'
                    (calls ++ (shadows ++ render_light reals div lamp)))
    lit_light start m ms painted texture lamp rest casters casters' calls same next =
        let shadow = all_shadows reals owners lamp.light list casters in
        let here = seen reals div raster blend m lamp shadow in
        elim (Bool-cases (has_vertex shadow)) [
          | inl some_vertex ↦
              rw
                (
                  render_shadows-has_vertex screen shadow,
                  some_vertex,
                  ← append_assoc painted here (lights_seen m casters rest),
                  ← lights_seen-Alike m casters casters' rest same,
                  ← all_cast-Alike casters casters' rest same,
                )
                next
          | inr none_left ↦
              rw (render_shadows-has_vertex screen shadow, none_left) (inr (refl, refl))
        ]

    render_loop-Rendered :
        (start : Pixel raster) (m : Matrix) (ms : List Matrix) (painted : List (Stroke A))
        (texture : ℕ) (lamps : List (Lamp A)) (casters : Casters reals) (calls : List (GlCall A))
        → IsStill reals
        → All (λ a. IsReady reals (casters a)) list
        → IsLitting reals div raster blend m ms painted texture (step_all raster calls start)
        → Rendered start m ms
            (painted ++ lights_seen m casters lamps)
            (last_texture lamps texture)
            (all_cast casters lamps)
            (render_loop reals div owners screen list lamps casters calls)
    unfolding render_loop get_shadow_vertices
    render_loop-Rendered start m ms painted texture [] casters calls still ready h =
        rw (append-nil painted) (inl (refl, calls, casters, refl, h))
    render_loop-Rendered start m ms painted texture (lamp ∷ rest) casters calls still ready h =
        elim (Bool-cases (should_draw_light reals screen.layer_position lamp.light)) [
          | inl drawn ↦
              let shadow = all_shadows reals owners lamp.light list casters in
              let r =
                loop reals owners lamp.light still list casters casters [] ready
                  (λ b. Alike-refl reals (owners b) (casters b)) in
              let more = shadow_calls reals div screen shadow ++ render_light reals div lamp in
              let next =
                render_loop-Rendered start m ms
                  (painted ++ seen reals div raster blend m lamp shadow)
                  (current_after reals div raster blend lamp texture) rest r.0 (calls ++ more) still
                  (IsReady-Alike reals owners list casters r.0 r.2 ready)
                  (subst (IsLitting reals div raster blend m ms _ _)
                    (sym (step_all-append raster calls more start))
                    (light-IsLitting reals div raster blend screen lamp shadow m ms painted texture
                      (step_all raster calls start) h)) in
              rw (drawn, r.1)
                (lit_light start m ms painted texture lamp rest casters r.0 calls r.2 next)
          | inr dark ↦
              rw dark
                (render_loop-Rendered start m ms painted texture rest casters calls still ready h)
        ]

    -- What comes of Render: where all lights that are drawn have a shadow, it returns calls, which
    -- paint over the pixel the lights that are seen and then what fills the rest; otherwise it faults.
    abbrev pub Drawn :
        List (Lamp A)
        → Casters reals
        → (gl : Gl raster) → Gl.World gl
        → Outcome (List (GlCall A) × Casters reals)
        → Type 0
    Drawn lamps casters gl w o =
        let p = Gl.pixel gl w in
        ((all_cast casters lamps ≡ true)
          × (calls : List (GlCall A)) × (casters' : Casters reals) × (o ≡ done (calls, casters'))
          × ((Gl.pixel gl (perform_all raster gl calls w)).painted
              ≡ lights_seen (layered p.matrix) casters lamps
                ++ (if covers p.matrix (screen_square reals div screen)
                    then fill_stroke screen (last_texture lamps (current reals div raster blend p))
                      ∷ []
                    else [])))
        ⊎ ((all_cast casters lamps ≡ false) × (o ≡ faults))

    -- Where OpenGL does to a pixel of the render texture what its documentation says, the shadow
    -- casters have vertices and a right cache, and a position is at no distance above 0.001 from
    -- itself: either each light source that ShouldDrawLight accepts has a shadow, and
    -- ShadowLayer::Render returns, and its calls clear the pixel and draw over it: in the order of the
    -- light sources, in white and blended as it was set before, the texture of each light that is
    -- accepted, that has a texture, whose rectangle covers the pixel, and whose own shadows, whatever
    -- the other lights cast, do not cover it; and then, where the square of the resolution covers the
    -- pixel, the shadow color with its alpha, blended by GL_ONE_MINUS_DST_ALPHA and GL_ONE, with no
    -- texture, or with the one bound before where no light with a texture is accepted and texturing
    -- was on; or one that is accepted has no shadow, and Render reads the first of no vertices.
    pub render-lights_seen :
        (lamps : List (Lamp A)) (casters : Casters reals) (gl : Gl raster) (w : Gl.World gl)
        → IsDocumented raster gl
        → (Gl.pixel gl w).blend ≡ blend
        → IsStill reals
        → All (λ a. IsReady reals (casters a)) list
        → Drawn lamps casters gl w (render reals div owners screen list lamps casters)
    unfolding render documented
    render-lights_seen lamps casters gl w d blended still ready =
        let p = Gl.pixel gl w in
        let r =
          render_loop-Rendered p (layered p.matrix) (p.matrix ∷ p.matrices) []
            (current reals div raster blend p) lamps casters (before_lights reals div) still ready
            (record {
              bound = refl;
              testing = refl;
              matrix = refl;
              matrices = refl;
              painted_is = refl;
              texture_is = refl;
              blend_is = blended;
            }) in
        elim r [
          | inl (cast, calls, casters', e, h) ↦ inl (
            cast,
            calls ++ after_lights reals div screen,
            casters',
            ap (λ o. o >>= λ q. done (q.0 ++ after_lights reals div screen, q.1)) e,
            ap Pixel.painted (
                  perform_all-step_all raster gl d (calls ++ after_lights reals div screen) w
                  ∙ step_all-append raster calls (after_lights reals div screen) p)
                ∙ after_lights-painted screen (layered p.matrix) p.matrix p.matrices
                    (lights_seen (layered p.matrix) casters lamps)
                    (last_texture lamps (current reals div raster blend p))
                    (step_all raster calls p) h,
          )
          | inr (missing, e) ↦
              inr (missing, ap (λ o. o >>= λ q. done (q.0 ++ after_lights reals div screen, q.1)) e)
        ]
