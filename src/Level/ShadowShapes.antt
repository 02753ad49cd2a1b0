-- ===== src/Level/ShadowShapes.antt =====
-- What ShadowCaster::GetShadowShape caches (client/ShadowCaster.cpp).
use legendofstealth.Level.Drawing.{Rect}
use legendofstealth.Level.Shapes.{
  moved, is_position_dirty, set_shadow_rectangle, new_shadow_caster, get_shadow_shape,
  create_shadow_vertices, calculate_global_vertices, is_empty, Vec2, Reals, Owner, ShadowCaster,
}
use legendofstealth.Prelude.{
  ◌∷◌, ◌∙◌, sym, ap, true-ne-false, map, ◌⊎◌, inr, inl, Bool-cases, true, ◌||◌, [], false,
  if◌then◌else◌, Bool, List, ◌≡◌, refl,
}

-- What is relied on of the floats and of Vec2::Length: where the position has not changed, its
-- distance is not above 0.001.
pub record IsStill {A : Type 0} (reals : Reals A) : Type 0 where
  pub unmoved :
      (a b : A)
      → Reals.less reals (Reals.thousandth reals) (
          Reals.length_of reals (record {
            x = Reals.fabs reals (Reals.sub reals a a);
            y = Reals.fabs reals (Reals.sub reals b b);
          }))
        ≡ false

module _ {A : Type 0} (reals : Reals A) where
  -- The global vertices are none, or the local ones moved to `_calcPos`.
  abbrev pub IsCache : ShadowCaster A → Type 0
  IsCache c = (c.global_verts ≡ []) ⊎ (c.global_verts ≡ map (moved reals c.calc_pos) c.local_verts)

  -- What GetShadowShape promises: its shape is not empty, and it is where the game object is, but for
  -- a distance that does not count.
  pub record IsShape (owner : Owner A) (r : List (Vec2 A) × ShadowCaster A) : Type 0 where
    pub some_verts : is_empty reals r.1.local_verts ≡ false
    pub shape : r.0 ≡ map (moved reals r.1.calc_pos) r.1.local_verts
    pub near : is_position_dirty reals owner r.1 ≡ false
    pub cache : IsCache r.1

  or_both : (a b : Bool) → (a || b) ≡ false → (a ≡ false) × (b ≡ false)
  or_both true b e = cc
  or_both false b e = (refl, e)

  -- The second half of GetShadowShape.
  abbrev refreshed : Owner A → ShadowCaster A → ShadowCaster A
  refreshed owner c =
      if is_empty reals c.global_verts || is_position_dirty reals owner c
      then calculate_global_vertices reals owner c
      else c

  cached :
      (c : ShadowCaster A)
      → IsCache c
      → is_empty reals c.global_verts ≡ false
      → c.global_verts ≡ map (moved reals c.calc_pos) c.local_verts
  cached c (inl none) e = absurd (true-ne-false (ap (is_empty reals) (sym none) ∙ e))
  cached c (inr moved) e = moved

  refreshed-IsShape :
      (owner : Owner A) (c : ShadowCaster A)
      → IsStill reals
      → IsCache c
      → is_empty reals c.local_verts ≡ false
      → IsShape owner ((refreshed owner c).global_verts, refreshed owner c)
  unfolding calculate_global_vertices is_position_dirty
  refreshed-IsShape owner c still h some_verts =
      elim (Bool-cases (is_empty reals c.global_verts || is_position_dirty reals owner c)) [
        | inl stale ↦ rw stale (record {
          some_verts = some_verts;
          shape = refl;
          near = still.unmoved owner.world_position.x owner.world_position.y;
          cache = inr refl;
        })
        | inr fresh ↦
            let (full, near) =
              or_both (is_empty reals c.global_verts) (is_position_dirty reals owner c) fresh in
            rw fresh
              (record { some_verts = some_verts; shape = cached c h full; near = near; cache = h })
      ]

  created-IsCache :
      (owner : Owner A) (c : ShadowCaster A)
      → IsCache c
      → is_empty reals c.local_verts ≡ true
      → IsCache (create_shadow_vertices reals owner c)
  unfolding create_shadow_vertices
  created-IsCache owner c (inl none) e = inl none
  created-IsCache owner c (inr same) e =
      inl (same ∙ ap (map (moved reals c.calc_pos)) (no_verts c.local_verts e))
    where
      no_verts : (vs : List (Vec2 A)) → is_empty reals vs ≡ true → vs ≡ []
      no_verts [] e = refl
      no_verts (v ∷ vs) e = cc

  pub IsCache-IsShape :
      (owner : Owner A) (c : ShadowCaster A)
      → IsStill reals
      → IsCache c
      → IsShape owner (get_shadow_shape reals owner c)
  unfolding get_shadow_shape create_shadow_vertices
  IsCache-IsShape owner c still h = elim (Bool-cases (is_empty reals c.local_verts)) [
    | inl e ↦ rw e (
        refreshed-IsShape owner (create_shadow_vertices reals owner c) still
          (created-IsCache owner c h e) refl)
    | inr e ↦ rw e (refreshed-IsShape owner c still h e)
  ]

  -- The shadow casters that the calls of the class lead to, in any order, wherever the game object is
  -- at each of them.
  pub data Reachable : ShadowCaster A → Type 0 where
    fresh : Reachable (new_shadow_caster reals)
    sets :
        {c : ShadowCaster A} (owner : Owner A) (srect : Rect A)
        → Reachable c
        → Reachable (set_shadow_rectangle reals owner srect c)
    shows :
        {c : ShadowCaster A} (owner : Owner A)
        → Reachable c
        → Reachable (get_shadow_shape reals owner c).1

  Reachable-IsCache : {c : ShadowCaster A} → IsStill reals → Reachable c → IsCache c
  unfolding new_shadow_caster set_shadow_rectangle calculate_global_vertices
  Reachable-IsCache still fresh = inl refl
  Reachable-IsCache still (sets owner srect r) = inr refl
  Reachable-IsCache still (shows {c = c} owner r) =
      (IsCache-IsShape owner c still (Reachable-IsCache still r)).cache

  -- GetShadowShape of a shadow caster that calls of SetShadowRectangle and GetShadowShape have led to,
  -- in any order and wherever the game object was at each of them, where a position is at no distance
  -- above 0.001 from itself: there are local vertices, the shape is the local vertices moved to
  -- `_calcPos`, which is at most 0.001 from where the game object is now, and the global vertices
  -- that stay in the cache are none or the same.
  pub get_shadow_shape-IsShape :
      (owner : Owner A) (c : ShadowCaster A)
      → IsStill reals
      → Reachable c
      → IsShape owner (get_shadow_shape reals owner c)
  get_shadow_shape-IsShape owner c still r =
      IsCache-IsShape owner c still (Reachable-IsCache still r)
