-- ===== src/Level/Visible.antt =====
-- Which lights ShadowLayer::RenderShadows and RenderLight draw over a pixel
-- (client/ShadowLayer.cpp, client/LightSource.cpp).
use legendofstealth.Level.Rendering.{
  render_light, stencil_op, stencil_func, textured, light_calls, GlCall, never, not_equal, replace,
  keep, texture_square, shared_square, shadow_calls, Lamp, Screen,
}
use legendofstealth.Level.Stencil.{
  bytes, Stroke, Blend, step_all-append, step_all, documented, Raster, Pixel,
}
use legendofstealth.Level.Shapes.{Vec2, Reals}
use legendofstealth.Prelude.{
  ap₂, subst, append-nil, sym, ◌∙◌, ◌++◌, inr, inl, Bool-cases, false, ap, none, true, ◌∷◌, length,
  ◌≡◌, if◌then◌else◌, [], some, take, Bool, ℕ, Option, List, refl,
}

take-length : {A : Type 0} (xs : List A) → take (length xs) xs ≡ xs
take-length [] = refl
take-length (x ∷ xs) = ap (◌∷◌ x) (take-length xs)

module _ {A : Type 0} (reals : Reals A) (div : A → A → A) (raster : Raster A) (blend : Blend) where
  open raster use {Matrix, translated, rotated, covers}
  open reals use {zero_float, whole}

  -- The texture of a light and the rectangle it is drawn on, around the light.
  abbrev pub image_of : Lamp A → Option (ℕ × List (Vec2 A))
  image_of lamp = elim lamp.shared [
    | some tex ↦ some (tex, shared_square reals div lamp.light.radius)
    | none ↦ elim lamp.texture [ some t ↦ some (t.0, texture_square reals div t.1) | none ↦ none ]
  ]

  -- The matrix at the light.
  abbrev pub placed : Matrix → Lamp A → Matrix
  placed m lamp =
      rotated lamp.world_rotation zero_float zero_float (whole 1)
        (translated lamp.light.world_position.x lamp.light.world_position.y zero_float m)

  -- A light is drawn in white.
  abbrev pub lit_stroke : ℕ → Stroke A
  lit_stroke tex = record { texture = tex; color = bytes 255 255 255 255; blend = blend }

  -- A light is seen at the pixel where its rectangle covers the pixel and the shadows do not.
  abbrev pub image_seen :
      Matrix → Lamp A → List (Vec2 A) → Option (ℕ × List (Vec2 A)) → List (Stroke A)
  image_seen m lamp shadow none = []
  image_seen m lamp shadow (some (tex, square)) =
      if covers m shadow
      then []
      else if covers (placed m lamp) square
      then lit_stroke tex ∷ []
      else []

  abbrev pub seen : Matrix → Lamp A → List (Vec2 A) → List (Stroke A)
  seen m lamp shadow = image_seen m lamp shadow (image_of lamp)

  -- The texture that is drawn with, and 0 for none.
  abbrev pub current : Pixel raster → ℕ
  current p = if p.texturing then p.texture else 0

  abbrev left_by : Option (ℕ × List (Vec2 A)) → ℕ → ℕ
  left_by none t = t
  left_by (some _) t = 0

  -- What is left after a light: no texture, where it has one.
  abbrev pub current_after : Lamp A → ℕ → ℕ
  current_after lamp t = left_by (image_of lamp) t

  -- The pixel while lights are drawn.
  pub record IsLitting (m : Matrix) (ms : List Matrix) (painted : List (Stroke A)) (texture : ℕ)
      (p : Pixel raster) : Type 0 where
    pub bound : p.bound ≡ true
    pub testing : p.testing ≡ true
    pub matrix : p.matrix ≡ m
    pub matrices : p.matrices ≡ ms
    pub painted_is : p.painted ≡ painted
    pub texture_is : current p ≡ texture
    pub blend_is : p.blend ≡ blend

  -- RenderShadows marks the pixel where the shadows cover it.
  abbrev marked : Bool → Pixel raster → List (Vec2 A) → Pixel raster
  marked covered p shadow = record p {
    stencil = if covered then 1 else 0;
    comparison = never;
    reference = 1;
    mask = 0;
    failing = replace;
    passing = replace;
    vertices = shadow;
    color = bytes 255 255 255 255;
    vertices_on = false;
  }

  shadow_calls-marked :
      (screen : Screen A) (p : Pixel raster) (shadow : List (Vec2 A))
      → p.bound ≡ true
      → p.testing ≡ true
      → step_all raster (shadow_calls reals div screen shadow) p
        ≡ marked (covers p.matrix shadow) p shadow
  unfolding shadow_calls documented
  shadow_calls-marked screen p shadow b t = elim (Bool-cases (covers p.matrix shadow)) [
    | inl c ↦ rw (b, take-length shadow, c, t) refl
    | inr c ↦ rw (b, take-length shadow, c, t) refl
  ]

  abbrev image_calls : Lamp A → Option (ℕ × List (Vec2 A)) → List (GlCall A)
  image_calls lamp none = []
  image_calls lamp (some (tex, square)) = textured reals div lamp tex square

  light_calls-image_calls :
      (lamp : Lamp A) → light_calls reals div lamp ≡ image_calls lamp (image_of lamp)
  unfolding light_calls
  light_calls-image_calls lamp = by_textures lamp.shared lamp.texture
    where
      by_textures :
          (shared : Option ℕ) (texture : Option (ℕ × Vec2 A))
          → light_calls reals div (record lamp { shared = shared; texture = texture })
            ≡ image_calls lamp (image_of (record lamp { shared = shared; texture = texture }))
      by_textures none none = refl
      by_textures none (some (tex, d)) = refl
      by_textures (some tex) texture = refl

  -- The pixel after a light with a texture.
  abbrev shone : Bool → List (Stroke A) → List (Vec2 A) → Pixel raster → Pixel raster
  shone covered more square p = record p {
    stencil = if covered then 1 else 0;
    comparison = not_equal;
    reference = 1;
    mask = 1;
    failing = keep;
    passing = keep;
    vertices = square;
    vertices_on = false;
    texturing = false;
    texture = 0;
    color = bytes 255 255 255 255;
    painted = p.painted ++ more;
  }

  abbrev passing_by : List (GlCall A) → List (GlCall A)
  passing_by calls = stencil_func not_equal 1 1 ∷ stencil_op keep keep keep ∷ calls

  textured-shone :
      (lamp : Lamp A) (tex : ℕ) (square shadow : List (Vec2 A)) (covered visible : Bool)
      (p : Pixel raster)
      → p.bound ≡ true
      → p.testing ≡ true
      → p.blend ≡ blend
      → covers (placed p.matrix lamp) (take 4 square) ≡ visible
      → step_all raster (passing_by (textured reals div lamp tex square)) (marked covered p shadow)
        ≡ shone covered
            (if covered then [] else if visible then lit_stroke tex ∷ [] else [])
            square
            p
  unfolding documented
  textured-shone lamp tex square shadow true true p b t m v =
      rw (b, v, t, m, append-nil p.painted) refl
  textured-shone lamp tex square shadow true false p b t m v =
      rw (b, v, t, m, append-nil p.painted) refl
  textured-shone lamp tex square shadow false true p b t m v = rw (b, v, t, m) refl
  textured-shone lamp tex square shadow false false p b t m v =
      rw (b, v, t, m, append-nil p.painted) refl

  abbrev IsQuad : Option (ℕ × List (Vec2 A)) → Type 0
  IsQuad none = Unit
  IsQuad (some (tex, square)) = take 4 square ≡ square

  image_of-IsQuad : (lamp : Lamp A) → IsQuad (image_of lamp)
  image_of-IsQuad lamp = by_textures lamp.shared lamp.texture
    where
      by_textures :
          (shared : Option ℕ) (texture : Option (ℕ × Vec2 A))
          → IsQuad (image_of (record lamp { shared = shared; texture = texture }))
      by_textures none none = tt
      by_textures none (some (tex, d)) = refl
      by_textures (some tex) texture = refl

  -- LightSource::RenderLight, where RenderShadows has marked the pixel.
  image_calls-IsLitting :
      (lamp : Lamp A) (image : Option (ℕ × List (Vec2 A))) (shadow : List (Vec2 A)) (m : Matrix)
      (ms : List Matrix) (painted : List (Stroke A)) (texture : ℕ) (p : Pixel raster)
      → IsQuad image
      → IsLitting m ms painted texture p
      → IsLitting m ms (painted ++ image_seen m lamp shadow image) (left_by image texture) (
          step_all raster (passing_by (image_calls lamp image)) (marked (covers m shadow) p shadow))
  unfolding documented
  image_calls-IsLitting lamp none shadow m ms painted texture p q h = record {
    bound = h.bound;
    testing = h.testing;
    matrix = h.matrix;
    matrices = h.matrices;
    painted_is = h.painted_is ∙ sym (append-nil painted);
    texture_is = h.texture_is;
    blend_is = h.blend_is;
  }
  image_calls-IsLitting lamp (some (tex, square)) shadow m ms painted texture p q h =
      subst (IsLitting m ms _ 0)
        (sym (
          textured-shone lamp tex square shadow (covers m shadow) (covers (placed m lamp) square) p
            h.bound h.testing h.blend_is (ap₂ (λ n vs. covers (placed n lamp) vs) h.matrix q)))
        (record {
          bound = h.bound;
          testing = h.testing;
          matrix = h.matrix;
          matrices = h.matrices;
          painted_is = ap (λ l. l ++ image_seen m lamp shadow (some (tex, square))) h.painted_is;
          texture_is = refl;
          blend_is = h.blend_is;
        })

  -- RenderShadows and RenderLight, one after the other.
  pub light-IsLitting :
      (screen : Screen A) (lamp : Lamp A) (shadow : List (Vec2 A)) (m : Matrix) (ms : List Matrix)
      (painted : List (Stroke A)) (texture : ℕ) (p : Pixel raster)
      → IsLitting m ms painted texture p
      → IsLitting m ms
          (painted ++ seen m lamp shadow)
          (current_after lamp texture)
          (step_all raster (shadow_calls reals div screen shadow ++ render_light reals div lamp) p)
  unfolding render_light
  light-IsLitting screen lamp shadow m ms painted texture p h =
      subst (IsLitting m ms _ _)
        (sym (
          step_all-append raster (shadow_calls reals div screen shadow)
            (render_light reals div lamp) p
          ∙ ap₂ (λ cs q. step_all raster (passing_by cs) q) (light_calls-image_calls lamp)
              (shadow_calls-marked screen p shadow h.bound h.testing
                ∙ ap (λ n. marked (covers n shadow) p shadow) h.matrix)))
        (image_calls-IsLitting lamp (image_of lamp) shadow m ms painted texture p
          (image_of-IsQuad lamp) h)
