-- ===== src/Level/Stencil.antt =====
-- One pixel of the render texture that ShadowLayer::Render draws into (client/ShadowLayer.cpp), and
-- what the documentation of OpenGL says that the calls do to it. OpenGL itself is a parameter.
use legendofstealth.Level.LightLayer.{Color}
use legendofstealth.Prelude.{
  take, ap, ◌&&◌, ◌==◌, ◌∙◌, [], not, ◌∷◌, ◌++◌, bit_and, false, ◌≡◌, true, if◌then◌else◌, ℕ, Bool,
  List,
}
use legendofstealth.Level.Rendering.{
  never, not_equal, keep, replace, stencil_test, texture_2d, vertex_array, bind_fbo, unbind_fbo,
  bind_tex, push_transform, apply_transform, pop_transform, enable, disable, clear_both,
  clear_stencil, stencil_func, stencil_op, enable_client_state, disable_client_state,
  vertex_pointer, draw_arrays, bind_texture, push_matrix, pop_matrix, load_identity, translatef,
  rotatef, color4f, color4ub, blend_func, GlCall, BlendFactor, Comparison, StencilAction,
}
use legendofstealth.Level.Shapes.{Vec2}
use legendofstealth.Prelude.{refl}

-- The matrices of OpenGL, the transform of the game layer, and whether the quads over the vertices,
-- under a matrix, cover the pixel.
pub record Raster (A : Type 0) : Type 1 where
  pub Matrix : Type 0
  pub identity : Matrix
  pub translated : A → A → A → Matrix → Matrix
  pub rotated : A → A → A → A → Matrix → Matrix
  pub layered : Matrix → Matrix
  pub covers : Matrix → List (Vec2 A) → Bool
  -- the texture that the render texture draws into
  pub own_texture : ℕ

-- The color that is current: floats of glColor4f, or bytes of glColor4ub.
pub data Paint (A : Type 0) : Type 0 where
  floats : Color A → Paint A
  bytes : ℕ → ℕ → ℕ → ℕ → Paint A

-- The factors of glBlendFunc, of what is drawn and of what was there.
pub record Blend : Type 0 where
  pub source : BlendFactor
  pub destination : BlendFactor

-- What is drawn over a pixel: a texture, where 0 is none, in a color and blended so.
pub record Stroke (A : Type 0) : Type 0 where
  pub texture : ℕ
  pub color : Paint A
  pub blend : Blend

module _ {A : Type 0} (raster : Raster A) where
  open raster use {Matrix, identity, translated, rotated, layered, covers, own_texture}

  -- The state of OpenGL that matters to the pixel. The pixel is of the render texture: what is drawn while
  -- that is not bound does not reach it. `painted` is what was drawn over the pixel since it was
  -- cleared.
  pub record Pixel : Type 0 where
    pub bound : Bool
    pub testing : Bool
    pub comparison : Comparison
    pub reference : ℕ
    pub mask : ℕ
    pub failing : StencilAction
    pub passing : StencilAction
    pub stencil : ℕ
    pub matrix : Matrix
    pub matrices : List Matrix
    pub texturing : Bool
    pub texture : ℕ
    pub vertices_on : Bool
    pub vertices : List (Vec2 A)
    pub color : Paint A
    pub blend : Blend
    pub painted : List (Stroke A)

  abbrev compares : Comparison → ℕ → ℕ → Bool
  compares never r s = false
  compares not_equal r s = not (r == s)

  abbrev acted : StencilAction → ℕ → ℕ → ℕ
  acted keep r s = s
  acted replace r s = r

  -- The stencil test: the masked reference value is compared with the masked stencil value.
  abbrev passes : Pixel → Bool
  passes p =
      if p.testing
      then compares p.comparison (bit_and p.reference p.mask) (bit_and p.stencil p.mask)
      else true

  abbrev drawn : Pixel → Pixel
  drawn p = record p {
    stencil =
        if p.testing
        then acted (if passes p then p.passing else p.failing) p.reference p.stencil
        else p.stencil;
    painted =
        if passes p
        then p.painted
          ++ record {
            texture = if p.texturing then p.texture else 0;
            color = p.color;
            blend = p.blend;
          }
            ∷ []
        else p.painted;
  }

  abbrev popped : Pixel → List Matrix → Pixel
  popped p [] = p
  popped p (m ∷ ms) = record p { matrix = m; matrices = ms }

  -- What a call does.
  unfoldable pub documented : GlCall A → Pixel → Pixel
  documented bind_fbo p = record p { bound = true }
  documented unbind_fbo p = record p { bound = false }
  documented (enable stencil_test) p = record p { testing = true }
  documented (enable texture_2d) p = record p { texturing = true }
  documented (disable stencil_test) p = record p { testing = false }
  documented (disable texture_2d) p = record p { texturing = false }
  documented clear_both p = if p.bound then record p { stencil = 0; painted = [] } else p
  documented clear_stencil p = if p.bound then record p { stencil = 0 } else p
  documented (stencil_func c r m) p = record p { comparison = c; reference = r; mask = m }
  documented (stencil_op f d s) p = record p { failing = f; passing = s }
  documented (enable_client_state vertex_array) p = record p { vertices_on = true }
  documented (disable_client_state vertex_array) p = record p { vertices_on = false }
  documented (vertex_pointer vs) p = record p { vertices = vs }
  documented (draw_arrays n) p =
      if p.bound && (p.vertices_on && covers p.matrix (take n p.vertices)) then drawn p else p
  documented (color4f c) p = record p { color = floats c }
  documented (color4ub r g b a) p = record p { color = bytes r g b a }
  documented (blend_func s d) p = record p { blend = record { source = s; destination = d } }
  documented (bind_texture t) p = record p { texture = t }
  documented bind_tex p = record p { texture = own_texture }
  documented push_matrix p = record p { matrices = p.matrix ∷ p.matrices }
  documented push_transform p = record p { matrices = p.matrix ∷ p.matrices }
  documented pop_matrix p = popped p p.matrices
  documented pop_transform p = popped p p.matrices
  documented load_identity p = record p { matrix = identity }
  documented apply_transform p = record p { matrix = layered p.matrix }
  documented (translatef x y z) p = record p { matrix = translated x y z p.matrix }
  documented (rotatef a x y z) p = record p { matrix = rotated a x y z p.matrix }
  documented _ p = p

  abbrev pub step_all : List (GlCall A) → Pixel → Pixel
  step_all [] p = p
  step_all (c ∷ cs) p = step_all cs (documented c p)

  pub step_all-append :
      (cs ds : List (GlCall A)) (p : Pixel) → step_all (cs ++ ds) p ≡ step_all ds (step_all cs p)
  step_all-append [] ds p = refl
  step_all-append (c ∷ cs) ds p = step_all-append cs ds (documented c p)

  -- OpenGL as the code sees it: it performs calls on a state, in which a pixel is seen.
  pub record Gl : Type 1 where
    pub World : Type 0
    pub perform : GlCall A → World → World
    pub pixel : World → Pixel

  abbrev pub perform_all : (gl : Gl) → List (GlCall A) → Gl.World gl → Gl.World gl
  perform_all gl [] w = w
  perform_all gl (c ∷ cs) w = perform_all gl cs (Gl.perform gl c w)

  -- The calls do to the pixel what the documentation says.
  pub record IsDocumented (gl : Gl) : Type 0 where
    pub follows :
        (c : GlCall A) (w : Gl.World gl)
        → Gl.pixel gl (Gl.perform gl c w) ≡ documented c (Gl.pixel gl w)

  pub perform_all-step_all :
      (gl : Gl)
      → IsDocumented gl
      → (cs : List (GlCall A)) (w : Gl.World gl)
      → Gl.pixel gl (perform_all gl cs w) ≡ step_all cs (Gl.pixel gl w)
  perform_all-step_all gl d [] w = refl
  perform_all-step_all gl d (c ∷ cs) w =
      perform_all-step_all gl d cs (Gl.perform gl c w) ∙ ap (step_all cs) (d.follows c w)
