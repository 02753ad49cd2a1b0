-- ===== src/Level/Owning.antt =====
-- The constructor and the destructor of ShadowLayer and SetShadowColor (client/ShadowLayer.cpp): the
-- objects that the layer owns. The render textures of the engine trutle are a parameter.
use legendofstealth.Prelude.{done, inr, ◌>>=◌, inl, ◌⊎◌, [], ◌∷◌, Bool, Outcome, List, ℕ}
use legendofstealth.Level.LightLayer.{Color}
use legendofstealth.Level.Casters.{ShadowLayer}
use legendofstealth.Shader.Loading.{new_shader, destroy_shader}
use legendofstealth.Shader.Uniforms.{set_uniform_1i, set_uniform_1f, set_uniform_4f}
use legendofstealth.Shader.{Shader, OpenGl}
use legendofstealth.Prelude.Int.{pos}

-- `new RenderTexture(resolution)` and `delete`; `live` says whether there is one at an address.
pub record RenderTextures : Type 1 where
  pub Store : Type 0
  pub new_texture : Store → ℕ × Store
  pub delete_texture : ℕ → Store → Store
  pub live : Store → ℕ → Bool

-- The bytes of the names of the files and of the uniforms.
abbrev pub light_frag : List ℕ
light_frag =
    114 ∷ 101 ∷ 115 ∷ 47 ∷ 115 ∷ 104 ∷ 100 ∷ 47 ∷ 108 ∷ 105 ∷ 103 ∷ 104 ∷ 116 ∷ 46 ∷ 102 ∷ 114 ∷ 97
    ∷ 103 ∷ []

abbrev pub light_vert : List ℕ
light_vert =
    114 ∷ 101 ∷ 115 ∷ 47 ∷ 115 ∷ 104 ∷ 100 ∷ 47 ∷ 108 ∷ 105 ∷ 103 ∷ 104 ∷ 116 ∷ 46 ∷ 118 ∷ 101 ∷ 114
    ∷ 116 ∷ []

abbrev pub tex : List ℕ
tex = 116 ∷ 101 ∷ 120 ∷ []

abbrev pub lalpha : List ℕ
lalpha = 108 ∷ 97 ∷ 108 ∷ 112 ∷ 104 ∷ 97 ∷ []

abbrev pub ulcolor : List ℕ
ulcolor = 117 ∷ 108 ∷ 99 ∷ 111 ∷ 108 ∷ 111 ∷ 114 ∷ []

-- The numbers 0.f, 0.8f and 0.9f.
pub record Shades (A : Type 0) : Type 0 where
  pub none_of : A
  pub four_fifths : A
  pub nine_tenths : A

module _ (gl : OpenGl) (textures : RenderTextures) (shades : Shades (OpenGl.GlFloat gl)) where
  open gl use {World, GlFloat}
  open textures use {Store, new_texture, delete_texture}

  -- `_shader`, `_renderTexture`, `_shadowColor` and the lists.
  pub record OwningLayer : Type 0 where
    pub shader : Shader
    pub render_texture : ℕ
    pub shadow_color : Color GlFloat
    pub lists : ShadowLayer

  -- SetShadowColor(c)
  unfoldable pub set_shadow_color : Color GlFloat → OwningLayer → World → OwningLayer × World
  set_shadow_color c l w =
      let (shader, w') = set_uniform_4f gl ulcolor c.r c.g c.b c.a l.shader w in
      (record l { shadow_color = c; shader = shader }, w')

  -- The constructor, from the uniforms on.
  abbrev pub dark : Color GlFloat
  dark = record {
    r = shades.none_of;
    g = shades.none_of;
    b = shades.none_of;
    a = shades.nine_tenths;
  }

  abbrev pub uniforms_set : ℕ → Shader × World → OwningLayer × World
  uniforms_set texture (shader, w) =
      let (s1, w1) = set_uniform_1i gl tex (pos 0) shader w in
      let (s2, w2) = set_uniform_1f gl lalpha shades.four_fifths s1 w1 in
      set_shadow_color dark
        (record {
          shader = s2;
          render_texture = texture;
          shadow_color = dark;
          lists = record { light_sources = []; shadow_casters = [] };
        })
        w2

  -- Where the constructor of Shader throws, so does this one, and as the layer is not complete its
  -- destructor does not run. `inr` is what the exception leaves.
  abbrev pub layer_built :
      ℕ × Store → (Shader × World) ⊎ World → (OwningLayer × World × Store) ⊎ (World × Store)
  layer_built (texture, store) (inl r) = let l = uniforms_set texture r in inl (l.0, l.1, store)
  layer_built (texture, store) (inr w) = inr (w, store)

  -- ShadowLayer(gameLayer)
  unfoldable pub new_shadow_layer :
      World → Store → Outcome ((OwningLayer × World × Store) ⊎ (World × Store))
  new_shadow_layer w store =
      new_shader gl light_frag light_vert w >>= λ r. done (layer_built (new_texture store) r)

  -- ~ShadowLayer. Both members are set in the constructor and never to NULL.
  unfoldable pub delete_shadow_layer : OwningLayer → World → Store → World × Store
  delete_shadow_layer l w store =
      (destroy_shader gl l.shader w, delete_texture l.render_texture store)

  -- Any number of calls of SetShadowColor.
  abbrev pub recolored : List (Color GlFloat) → OwningLayer × World → OwningLayer × World
  recolored [] (l, w) = (l, w)
  recolored (c ∷ cs) (l, w) = recolored cs (set_shadow_color c l w)
