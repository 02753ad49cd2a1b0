-- ===== src/Level/PlayerLight.antt =====
-- The light of the player among those of the map (client/Player.cpp, client/GameLayer.cpp).
use legendofstealth.Level.Sharing.{release_kept, use_taken}
use legendofstealth.Level.Lights.{
  retained_by, delete_shared_texture, release_texture, release_shared_texture, set_texture,
  new_light_source, create_shared_texture, retain_shared_texture, get_shared_texture,
  is_using_shared_texture, use_shared_texture, with_value, set_light_properties, LightSource,
  Textures,
}
use legendofstealth.Level.LightLayer.{
  LightProperties, parse_groups, player_light, Scene, TmxObjectGroup,
}
use legendofstealth.Level.Lit.{all_fit, IsLit, parse_groups-IsLit, all_lights}
use legendofstealth.Level.Shapes.{Reals}
use legendofstealth.Prelude.{
  arith, inr, inl, sym, ◌∙◌, ◌>>=◌, ◌++◌, length, ap, List, suc, ==_self, false, true, done, ◌≡◌,
  ◌+◌, none, some, [], ◌∷◌, ℕ, refl,
}

-- A light source with a texture of its own, which has been retained.
abbrev pub with_own : ℕ → Textures → LightSource × Textures
with_own texture g = (
  record { texture = some texture; shared_texture = none },
  record g { retained = with_value g.retained texture (g.retained texture + 1) },
)

-- The first user of the shared texture is its last one.
alone :
    (texture : ℕ) (g : Textures)
    → g.refs ≡ 0
    → g.render_texture ≡ none
    → player_light texture g
      ≡ done (
          with_own texture (record g {
            render_texture = some g.next_texture;
            refs = 0;
            live = with_value (with_value g.live g.next_texture true) g.next_texture false;
            next_texture = g.next_texture + 1;
          }))
unfolding player_light set_light_properties use_shared_texture is_using_shared_texture
    get_shared_texture retain_shared_texture create_shared_texture new_light_source set_texture
    release_shared_texture release_texture delete_shared_texture
alone texture g counted missing = rw (counted, missing) (rw (==_self g.next_texture) refl)

-- Others use the shared texture.
among_others :
    (texture a n : ℕ) (g : Textures)
    → g.refs ≡ suc n
    → g.render_texture ≡ some a
    → player_light texture g ≡ done (with_own texture g)
unfolding player_light set_light_properties set_texture new_light_source
among_others texture a n g counted there =
    ap (λ r. release_shared_texture r.0 r.1 >>= retained_by texture)
      (use_taken a new_light_source g there refl)
    ∙ ap (λ o. o >>= retained_by texture)
        (release_kept a a n (record { texture = none; shared_texture = some a })
          (record g { refs = g.refs + 1 }) (omega arith) refl)
    ∙ ap (λ k. done (with_own texture (record g { refs = k }))) (sym counted)

module _ {A : Type 0} (reals : Reals A) (digits : A → ℕ) (height tile_height : ℕ) where
  -- The references to the shared texture in a scene.
  count :
      (s : Scene A) (lights : List (LightProperties A))
      → IsLit s
      → s.properties ≡ lights
      → s.textures.refs ≡ length lights
  count s lights lit has = lit.counted ∙ sym lit.paired ∙ ap length has

  append-none : {B : Type 0} (xs ys : List B) → xs ++ ys ≡ [] → ys ≡ []
  append-none [] ys e = e
  append-none (x ∷ xs) ys e = cc

  -- The light of the player, in a scene in which every light source stands in the shadow layer once,
  -- in the order in which they were made, uses the shared texture and is counted by it, and
  -- to which the object groups of a map add no light, as there was none before: the loop over the groups
  -- returns, and SetTexture releases the texture that SetLightProperties has made, so it is deleted, and
  -- the pointer to it is kept.
  pub player_light-dangling :
      (texture : ℕ) (groups : List (TmxObjectGroup A)) (s : Scene A)
      → IsLit s
      → s.properties ++ all_lights reals digits height tile_height groups ≡ []
      → (a : ℕ) × (l : LightSource) × (g : Textures) × ((parse_groups reals digits height
              tile_height groups s
            >>= λ s'. player_light texture s'.textures)
          ≡ done (l, g))
        × (g.render_texture ≡ some a)
        × (g.live a ≡ false)
  player_light-dangling texture groups s v dark =
      let (s', e, lit, has) =
        parse_groups-IsLit reals digits height tile_height groups s v
          (ap (all_fit reals digits height tile_height) (append-none s.properties _ dark)) in
      let none_counted = count s' [] lit (has ∙ dark) in
      elim lit.alive [
        | inl (empty, missing) ↦ (
          s'.textures.next_texture,
          _,
          _,
          ap (λ o. o >>= λ t. player_light texture t.textures) e
              ∙ alone texture s'.textures none_counted missing,
          refl,
          rw (==_self s'.textures.next_texture) refl,
        )
        | inr (a, some_users, there, live) ↦
            absurd (omega (arith, some_users, lit.counted, none_counted))
      ]

  -- The light of the player, in such a scene, where there is a light p: the textures that the others
  -- use are as before.
  pub player_light-among :
      (texture : ℕ) (s : Scene A) (p : LightProperties A) (ps : List (LightProperties A))
      → IsLit s
      → s.properties ≡ p ∷ ps
      → player_light texture s.textures ≡ done (with_own texture s.textures)
  player_light-among texture s p ps lit bright =
      let some_counted = count s (p ∷ ps) lit bright in
      elim lit.alive [
        | inl (empty, missing) ↦ absurd (omega (arith, empty, lit.counted, some_counted))
        | inr (a, some_users, there, live) ↦
            among_others texture a (length ps) s.textures some_counted there
      ]
