-- ===== src/Level/Owned.antt =====
-- What the constructor of ShadowLayer makes is deleted by its destructor, or lost
-- (client/ShadowLayer.cpp).
use legendofstealth.Prelude.Int.{pos}
use legendofstealth.Shader.Objects.{new_shader-Loaded}
use legendofstealth.Shader.Loading.{new_shader}
use legendofstealth.Shader.Uniforms.{set_uniform_1f, set_uniform_4f, set_uniform_1i}
use legendofstealth.Level.LightLayer.{Color}
use legendofstealth.Level.Owning.{
  layer_built, tex, lalpha, light_vert, dark, ulcolor, light_frag, uniforms_set, recolored,
  delete_shadow_layer, new_shadow_layer, set_shadow_color, OwningLayer, RenderTextures, Shades,
}
use legendofstealth.Shader.Handles.{Objects, Loaded, destroyed}
use legendofstealth.Shader.Setting.{set_uniform_xi-Loaded, set_uniform_xf-Loaded, IsUntouched}
use legendofstealth.Shader.{Shader, OpenGl}
use legendofstealth.Prelude.{
  out_of_fuel, throws, faults, sym, ==_iff, Bool-cases, true, ◌>>=◌, ◌&&◌, [], ap₂, not, false,
  subst, Outcome, inr, ◌∷◌, ap, ◌||◌, done, Ensures, inl, ◌∙◌, ◌==◌, ◌⊎◌, List, ◌≡◌, ℕ, refl,
}

-- A new render texture is at an address where there was none, and deleting one deletes no other.
pub record IsStore (textures : RenderTextures) : Type 0 where
  pub live-new_texture :
      (s : RenderTextures.Store textures) (m : ℕ)
      → RenderTextures.live textures (RenderTextures.new_texture textures s).1 m
        ≡ ((RenderTextures.new_texture textures s).0 == m) || RenderTextures.live textures s m
  pub new_address :
      (s : RenderTextures.Store textures)
      → RenderTextures.live textures s (RenderTextures.new_texture textures s).0 ≡ false
  pub live-delete_texture :
      (a : ℕ) (s : RenderTextures.Store textures) (m : ℕ)
      → RenderTextures.live textures (RenderTextures.delete_texture textures a s) m
        ≡ not (a == m) && RenderTextures.live textures s m

module _ (gl : OpenGl) (objects : Objects gl) (textures : RenderTextures)
    (shades : Shades (OpenGl.GlFloat gl)) where
  open gl use {World, GlFloat}
  open textures use {Store, new_texture, delete_texture, live}
  open objects use {held}

  live-deleted :
      (store : Store) (m : ℕ)
      → IsStore textures
      → live (delete_texture (new_texture store).0 (new_texture store).1) m ≡ live store m
  live-deleted store m is =
      is.live-delete_texture (new_texture store).0 (new_texture store).1 m
      ∙ (ap (λ b. not ((new_texture store).0 == m) && b) (is.live-new_texture store m)
          ∙ (elim (Bool-cases ((new_texture store).0 == m)) [
            | inl same ↦ rw same (
                sym (is.new_address store)
                ∙ ap (live store) ((==_iff (new_texture store).0 m).0 same))
            | inr other ↦ rw other refl
          ]))

  module _ (untouched : IsUntouched gl objects) where
    -- The layer has the objects of its shader and the texture that was made.
    abbrev IsOwner : World → Store → OwningLayer gl textures shades × World → Type 0
    IsOwner w store (l, w') =
        Loaded gl objects w l.shader w' × (l.render_texture ≡ (new_texture store).0)

    set_shadow_color-IsOwner :
        (c : Color GlFloat) (l : OwningLayer gl textures shades) (w w' : World) (store : Store)
        → IsOwner w store (l, w')
        → IsOwner w store (set_shadow_color gl textures shades c l w')
    unfolding set_shadow_color set_uniform_4f
    set_shadow_color-IsOwner c l w w' store h = (
      set_uniform_xf-Loaded gl objects untouched ulcolor 4 (c.r ∷ c.g ∷ c.b ∷ c.a ∷ []) l.shader w
          w' refl h.0,
      h.1,
    )

    recolored-IsOwner :
        (cs : List (Color GlFloat)) (l : OwningLayer gl textures shades) (w w' : World)
        (store : Store)
        → IsOwner w store (l, w')
        → IsOwner w store (recolored gl textures shades cs (l, w'))
    recolored-IsOwner [] l w w' store h = h
    recolored-IsOwner (c ∷ cs) l w w' store h =
        recolored-IsOwner cs (set_shadow_color gl textures shades c l w').0 w
          (set_shadow_color gl textures shades c l w').1 store
          (set_shadow_color-IsOwner c l w w' store h)

    uniforms_set-IsOwner :
        (s : Shader) (w w' : World) (store : Store)
        → Loaded gl objects w s w'
        → IsOwner w store (uniforms_set gl textures shades (new_texture store).0 (s, w'))
    unfolding set_uniform_1i set_uniform_1f
    uniforms_set-IsOwner s w w' store h =
        set_shadow_color-IsOwner (dark gl textures shades) _ w _ store (
          set_uniform_xf-Loaded gl objects untouched lalpha 1 (shades.four_fifths ∷ []) _ w _ refl
              (set_uniform_xi-Loaded gl objects untouched tex 1 (pos 0 ∷ []) s w w' refl h),
          refl,
        )

    abbrev Built :
        World → Store → (OwningLayer gl textures shades × World × Store) ⊎ (World × Store) → Type 0
    Built w store (inl (l, w', store')) = IsOwner w store (l, w') × (store' ≡ (new_texture store).1)
    Built w store (inr r) = Unit

    new_shadow_layer-Built :
        (w : World) (store : Store)
        → Ensures (Built w store) (new_shadow_layer gl textures shades w store)
    unfolding new_shadow_layer
    new_shadow_layer-Built w store = by_result (new_shader gl light_frag light_vert w) refl
      where
        by_result :
            (o : Outcome ((Shader × World) ⊎ World))
            → new_shader gl light_frag light_vert w ≡ o
            → Ensures
                (Built w store)
                (o >>= λ r. done (layer_built gl textures shades (new_texture store) r))
        by_result (done (inl (s, w'))) e = (
          uniforms_set-IsOwner s w w' store
              (new_shader-Loaded gl objects light_frag light_vert w w' s e),
          refl,
        )
        by_result (done (inr w')) e = tt
        by_result faults e = tt
        by_result throws e = tt
        by_result out_of_fuel e = tt

    -- A shadow layer whose constructor returns, any calls of SetShadowColor, and then its destructor:
    -- of the shaders and programs of OpenGL and of the render textures there are the same as before
    -- the constructor, where what is made is new or 0 and only making and deleting an object changes
    -- which there are.
    pub delete_shadow_layer-new_shadow_layer :
        (w w' : World) (store store' : Store) (l : OwningLayer gl textures shades)
        (cs : List (Color GlFloat)) (m : ℕ)
        → IsStore textures
        → new_shadow_layer gl textures shades w store ≡ done (inl (l, w', store'))
        → (held
              (delete_shadow_layer gl textures shades
                (recolored gl textures shades cs (l, w')).0
                (recolored gl textures shades cs (l, w')).1
                store').0
              m
            ≡ held w m)
          × (live
                (delete_shadow_layer gl textures shades
                  (recolored gl textures shades cs (l, w')).0
                  (recolored gl textures shades cs (l, w')).1
                  store').1
                m
              ≡ live store m)
    unfolding delete_shadow_layer
    delete_shadow_layer-new_shadow_layer w w' store store' l cs m is e =
        let b : Built w store (inl (l, w', store')) =
          subst (Ensures (Built w store)) e (new_shadow_layer-Built w store) in
        let owner = recolored-IsOwner cs l w w' store b.0 in
        (
          destroyed gl objects _ w _ m owner.0,
          ap₂ (λ a s. live (delete_texture a s) m) owner.1 b.1 ∙ live-deleted store m is,
        )

  -- Where the constructor of Shader throws, the render texture that was made before is left.
  new_shadow_layer-leak :
      (w w' : World) (store : Store)
      → IsStore textures
      → new_shader gl light_frag light_vert w ≡ done (inr w')
      → (new_shadow_layer gl textures shades w store ≡ done (inr (w', (new_texture store).1)))
        × (live (new_texture store).1 (new_texture store).0 ≡ true)
        × (live store (new_texture store).0 ≡ false)
  unfolding new_shadow_layer
  new_shadow_layer-leak w w' store is e = (
    rw e refl,
    is.live-new_texture store (new_texture store).0
        ∙ ap (λ b. b || live store (new_texture store).0)
            ((==_iff (new_texture store).0 (new_texture store).0).1 refl),
    is.new_address store,
  )
