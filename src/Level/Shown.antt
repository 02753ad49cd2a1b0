-- ===== src/Level/Shown.antt =====
-- ShadowCaster::GetShadowShape called again shows the same shape (client/ShadowCaster.cpp).
use legendofstealth.Level.ShadowShapes.{IsCache-IsShape, IsCache, IsStill}
use legendofstealth.Level.Shapes.{
  is_position_dirty, moved, calculate_global_vertices, is_empty, get_shadow_shape, Vec2, Reals,
  Owner, ShadowCaster,
}
use legendofstealth.Prelude.{
  inr, [], inl, ap, ◌||◌, ◌∷◌, Bool-cases, false, map, List, ◌∙◌, ◌≡◌, refl,
}

module _ {A : Type 0} (reals : Reals A) where
  -- Another state of a shadow caster, with the same vertices and the same shape to show.
  pub record Alike (owner : Owner A) (c d : ShadowCaster A) : Type 0 where
    pub local_verts : d.local_verts ≡ c.local_verts
    pub shape : (get_shadow_shape reals owner d).0 ≡ (get_shadow_shape reals owner c).0
    pub cache : IsCache reals c → IsCache reals d

  pub Alike-refl : (owner : Owner A) (c : ShadowCaster A) → Alike owner c c
  Alike-refl owner c = record { local_verts = refl; shape = refl; cache = λ h. h }

  pub Alike-trans :
      {owner : Owner A} {c d e : ShadowCaster A}
      → Alike owner c d
      → Alike owner d e
      → Alike owner c e
  Alike-trans a b = record {
    local_verts = b.local_verts ∙ a.local_verts;
    shape = b.shape ∙ a.shape;
    cache = λ h. b.cache (a.cache h);
  }

  is_empty-map :
      (p : Vec2 A) (vs : List (Vec2 A))
      → is_empty reals (map (moved reals p) vs) ≡ is_empty reals vs
  is_empty-map p [] = refl
  is_empty-map p (v ∷ vs) = refl

  kept_verts :
      (owner : Owner A) (c : ShadowCaster A)
      → is_empty reals c.local_verts ≡ false
      → (get_shadow_shape reals owner c).1.local_verts ≡ c.local_verts
  unfolding get_shadow_shape calculate_global_vertices
  kept_verts owner c e =
      elim (Bool-cases (is_empty reals c.global_verts || is_position_dirty reals owner c)) [
        | inl stale ↦ rw (e, stale) refl
        | inr good ↦ rw (e, good) refl
      ]

  -- Showing what is fresh changes nothing.
  fresh_shape :
      (owner : Owner A) (c : ShadowCaster A)
      → is_empty reals c.local_verts ≡ false
      → is_empty reals c.global_verts ≡ false
      → is_position_dirty reals owner c ≡ false
      → (get_shadow_shape reals owner c).0 ≡ c.global_verts
  unfolding get_shadow_shape
  fresh_shape owner c some_local some_global near = rw (some_local, some_global, near) refl

  pub shown-Alike :
      (owner : Owner A) (c : ShadowCaster A)
      → IsStill reals
      → IsCache reals c
      → is_empty reals c.local_verts ≡ false
      → Alike owner c (get_shadow_shape reals owner c).1
  unfolding get_shadow_shape
  shown-Alike owner c still h e =
      let s = IsCache-IsShape reals owner c still h in
      record {
        local_verts = kept_verts owner c e;
        shape =
            fresh_shape owner (get_shadow_shape reals owner c).1 s.some_verts
              (ap (is_empty reals) s.shape ∙ is_empty-map _ _ ∙ s.some_verts) s.near;
        cache = λ _. s.cache;
      }
