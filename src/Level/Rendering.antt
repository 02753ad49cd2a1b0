-- ===== src/Level/Rendering.antt =====
-- ShadowLayer::Render with RenderShadows, RenderLight, DrawFillShadow and DrawRenderTexture
-- (client/ShadowLayer.cpp), and LightSource::RenderLight (client/LightSource.cpp): the calls of OpenGL
-- and of the engine trutle that they make, in their order.
use legendofstealth.Level.LightLayer.{Color}
use legendofstealth.Level.Shadows.{get_shadow_vertices, should_draw_light, Casters, Light}
use legendofstealth.Level.Shapes.{Vec2, Reals, Owner}
use legendofstealth.Prelude.{
  faults, length, none, some, Option, done, ◌>>=◌, Outcome, ◌++◌, if◌then◌else◌, ◌∷◌, [], List, ℕ,
}

-- The constants of OpenGL that the code uses.
pub data Capability : Type 0 where
  stencil_test : Capability
  texture_2d : Capability

pub data ClientArray : Type 0 where
  vertex_array : ClientArray
  tex_coord_array : ClientArray

pub data Comparison : Type 0 where
  never : Comparison
  not_equal : Comparison

pub data StencilAction : Type 0 where
  keep : StencilAction
  replace : StencilAction

pub data BlendFactor : Type 0 where
  one : BlendFactor
  one_minus_dst_alpha : BlendFactor
  src_alpha : BlendFactor
  one_minus_src_alpha : BlendFactor

-- The calls, with their arguments. A pointer to vertices is the vertices; all are pairs of floats,
-- and all arrays are drawn as GL_QUADS from the first vertex on.
pub data GlCall (A : Type 0) : Type 0 where
  bind_fbo : GlCall A
  unbind_fbo : GlCall A
  bind_tex : GlCall A
  push_transform : GlCall A
  apply_transform : GlCall A
  pop_transform : GlCall A
  enable_shader : GlCall A
  disable_shader : GlCall A
  enable : Capability → GlCall A
  disable : Capability → GlCall A
  clear_color : Color A → GlCall A
  -- glClear(GL_COLOR_BUFFER_BIT | GL_STENCIL_BUFFER_BIT) and glClear(GL_STENCIL_BUFFER_BIT)
  clear_both : GlCall A
  clear_stencil : GlCall A
  stencil_func : Comparison → ℕ → ℕ → GlCall A
  stencil_op : StencilAction → StencilAction → StencilAction → GlCall A
  blend_func : BlendFactor → BlendFactor → GlCall A
  color4f : Color A → GlCall A
  color4ub : ℕ → ℕ → ℕ → ℕ → GlCall A
  enable_client_state : ClientArray → GlCall A
  disable_client_state : ClientArray → GlCall A
  vertex_pointer : List (Vec2 A) → GlCall A
  tex_coord_pointer : List (Vec2 A) → GlCall A
  draw_arrays : ℕ → GlCall A
  bind_texture : ℕ → GlCall A
  push_matrix : GlCall A
  pop_matrix : GlCall A
  load_identity : GlCall A
  translatef : A → A → A → GlCall A
  rotatef : A → A → A → A → GlCall A

-- What RenderLight reads of a light source: WorldRotation(), the shared texture's GetTex() where it
-- is used, and GetTextureID() and GetDimensions() of its texture where it has one.
pub record Lamp (A : Type 0) : Type 0 where
  pub light : Light A
  pub world_rotation : A
  pub shared : Option ℕ
  pub texture : Option (ℕ × Vec2 A)

-- `_shadowColor`, `_renderTexture->GetResolution()` and the position of `_gameLayer`.
pub record Screen (A : Type 0) : Type 0 where
  pub shadow_color : Color A
  pub resolution : Vec2 A
  pub layer_position : Vec2 A

module _ {A : Type 0} (reals : Reals A) (div : A → A → A) where
  open reals use {zero_float, negate, whole}

  abbrev pub rectangle : A → A → A → A → List (Vec2 A)
  rectangle left bottom right top =
      record { x = left; y = bottom }
      ∷ record { x = right; y = bottom }
      ∷ record { x = right; y = top }
      ∷ record { x = left; y = top }
      ∷ []

  -- The array `v` of LightSource::RenderLight, with the shared texture and with one of its own.
  abbrev pub shared_square : A → List (Vec2 A)
  shared_square radius = rectangle (negate radius) (negate radius) radius radius

  abbrev pub texture_square : Vec2 A → List (Vec2 A)
  texture_square d = rectangle zero_float (div (negate d.y) (whole 2)) d.x (div d.y (whole 2))

  -- The array `t`.
  abbrev unit_square : List (Vec2 A)
  unit_square = rectangle zero_float zero_float (whole 1) (whole 1)

  abbrev pub textured : Lamp A → ℕ → List (Vec2 A) → List (GlCall A)
  textured lamp tex v =
      push_matrix
      ∷ translatef lamp.light.world_position.x lamp.light.world_position.y zero_float
      ∷ rotatef lamp.world_rotation zero_float zero_float (whole 1)
      ∷ enable texture_2d
      ∷ bind_texture tex
      ∷ enable_client_state vertex_array
      ∷ enable_client_state tex_coord_array
      ∷ color4ub 255 255 255 255
      ∷ vertex_pointer v
      ∷ tex_coord_pointer unit_square
      ∷ draw_arrays 4
      ∷ disable_client_state vertex_array
      ∷ disable_client_state tex_coord_array
      ∷ bind_texture 0
      ∷ disable texture_2d
      ∷ pop_matrix
      ∷ []

  -- LightSource::RenderLight(renderer)
  unfoldable pub light_calls : Lamp A → List (GlCall A)
  light_calls lamp = elim lamp.shared [
    | some tex ↦ textured lamp tex (shared_square lamp.light.radius)
    | none ↦ elim lamp.texture [ some t ↦ textured lamp t.0 (texture_square t.1) | none ↦ [] ]
  ]

  -- RenderLight(source, renderer)
  unfoldable pub render_light : Lamp A → List (GlCall A)
  render_light lamp = stencil_func not_equal 1 1 ∷ stencil_op keep keep keep ∷ light_calls lamp

  -- The calls of RenderShadows.
  unfoldable pub shadow_calls : Screen A → List (Vec2 A) → List (GlCall A)
  shadow_calls screen shadowverts =
      clear_stencil
      ∷ stencil_func never 1 0
      ∷ stencil_op replace replace replace
      ∷ color4f (record screen.shadow_color { a = whole 1 })
      ∷ enable_client_state vertex_array
      ∷ vertex_pointer shadowverts
      ∷ draw_arrays (length shadowverts)
      ∷ disable_client_state vertex_array
      ∷ color4ub 255 255 255 255
      ∷ []

  -- RenderShadows(source, renderer), with what GetShadowVertices returns: `shadowverts[0]` is beyond
  -- the end of a vector without elements.
  unfoldable pub render_shadows : Screen A → List (Vec2 A) → Outcome (List (GlCall A))
  render_shadows screen [] = faults
  render_shadows screen (v ∷ vs) = done (shadow_calls screen (v ∷ vs))

  abbrev pub screen_square : Screen A → List (Vec2 A)
  screen_square screen = rectangle zero_float zero_float screen.resolution.x screen.resolution.y

  unfoldable pub draw_fill_shadow : Screen A → List (GlCall A)
  draw_fill_shadow screen =
      color4f screen.shadow_color
      ∷ blend_func one_minus_dst_alpha one
      ∷ enable_client_state vertex_array
      ∷ vertex_pointer (screen_square screen)
      ∷ draw_arrays 4
      ∷ disable_client_state vertex_array
      ∷ color4ub 255 255 255 255
      ∷ blend_func src_alpha one_minus_src_alpha
      ∷ []

  unfoldable pub draw_render_texture : Screen A → List (GlCall A)
  draw_render_texture screen =
      enable texture_2d
      ∷ bind_tex
      ∷ enable_shader
      ∷ enable_client_state vertex_array
      ∷ enable_client_state tex_coord_array
      ∷ color4ub 255 255 255 255
      ∷ vertex_pointer (screen_square screen)
      ∷ tex_coord_pointer unit_square
      ∷ draw_arrays 4
      ∷ disable_client_state vertex_array
      ∷ disable_client_state tex_coord_array
      ∷ disable_shader
      ∷ []

  -- The loop of Render over the light sources that are left, with the calls that are made.
  unfoldable pub render_loop :
      (ℕ → Owner A)
      → Screen A
      → List ℕ
      → List (Lamp A)
      → Casters reals
      → List (GlCall A)
      → Outcome (List (GlCall A) × Casters reals)
  render_loop owners screen shadow_casters [] casters calls = done (calls, casters)
  render_loop owners screen shadow_casters (lamp ∷ rest) casters calls =
      let lit = get_shadow_vertices reals owners lamp.light shadow_casters casters >>= λ r.
      render_shadows screen r.0 >>= λ shadows.
      render_loop owners screen shadow_casters rest r.1 (calls ++ (shadows ++ render_light lamp)) in
      let dark = render_loop owners screen shadow_casters rest casters calls in
      if should_draw_light reals screen.layer_position lamp.light then lit else dark

  abbrev pub before_lights : List (GlCall A)
  before_lights =
      bind_fbo
      ∷ enable stencil_test
      ∷ clear_color (record { r = zero_float; g = zero_float; b = zero_float; a = zero_float })
      ∷ clear_both
      ∷ push_transform
      ∷ apply_transform
      ∷ []

  abbrev pub after_lights : Screen A → List (GlCall A)
  after_lights screen =
      disable stencil_test ∷ pop_transform ∷ draw_fill_shadow screen
      ++ unbind_fbo ∷ push_matrix ∷ load_identity ∷ draw_render_texture screen
      ++ pop_matrix ∷ []

  -- Render(renderer)
  unfoldable pub render :
      (ℕ → Owner A)
      → Screen A
      → List ℕ
      → List (Lamp A)
      → Casters reals
      → Outcome (List (GlCall A) × Casters reals)
  render owners screen shadow_casters lamps casters =
      render_loop owners screen shadow_casters lamps casters before_lights >>= λ r.
      done (r.0 ++ after_lights screen, r.1)
