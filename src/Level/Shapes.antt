-- ===== src/Level/Shapes.antt =====
-- class ShadowCaster (client/ShadowCaster.h, client/ShadowCaster.cpp). The coordinates are of any
-- type with the operations of floats; the game object and its texture belong to the engine trutle,
-- and are what they return.
use legendofstealth.Level.Drawing.{Rect}
use legendofstealth.Prelude.Int.{ℤ}
use legendofstealth.Prelude.{
  done, ◌||◌, false, faults, if◌then◌else◌, true, ◌∷◌, Outcome, map, [], List, Bool, ℕ,
}

pub record Vec2 (A : Type 0) : Type 0 where
  pub x : A
  pub y : A

-- The operations on floats and, of trutle, Vec2::Vec2, Vec2::Length and Rect::Overlaps.
pub record Reals (A : Type 0) : Type 0 where
  pub zero_float : A
  -- 0.001f, 0.01, 0.5f, -1500.f, and whole numbers such as 1280.f
  pub thousandth : A
  pub hundredth : A
  pub half : A
  pub nowhere : A
  pub whole : ℕ → A
  pub of_int : ℤ → A
  pub add : A → A → A
  pub sub : A → A → A
  pub mul : A → A → A
  pub negate : A → A
  pub fabs : A → A
  pub less : A → A → Bool
  pub new_vec2 : Vec2 A
  pub length_of : Vec2 A → A
  pub overlaps : Rect A → Rect A → Bool

-- What a component reads of its game object: WorldPosition(), GetTexture()->GetDimensions(),
-- Scale() and Pivot().
pub record Owner (A : Type 0) : Type 0 where
  pub world_position : Vec2 A
  pub dimensions : Vec2 A
  pub scale : Vec2 A
  pub pivot : Vec2 A

pub record ShadowCaster (A : Type 0) : Type 0 where
  pub local_verts : List (Vec2 A)
  pub global_verts : List (Vec2 A)
  pub calc_pos : Vec2 A

module _ {A : Type 0} (reals : Reals A) where
  open reals use {zero_float, thousandth, nowhere, add, sub, mul, fabs, less, length_of}

  -- ShadowCaster::ShadowCaster
  unfoldable pub new_shadow_caster : ShadowCaster A
  new_shadow_caster = record {
    local_verts = [];
    global_verts = [];
    calc_pos = record { x = nowhere; y = nowhere };
  }

  -- The four corners that SetShadowRectangle and CreateShadowVertices push.
  abbrev pub corner_verts : Rect A → List (Vec2 A)
  corner_verts r =
      record { x = r.x; y = r.y }
      ∷ record { x = add r.x r.w; y = r.y }
      ∷ record { x = add r.x r.w; y = add r.y r.h }
      ∷ record { x = r.x; y = add r.y r.h }
      ∷ []

  abbrev pub moved : Vec2 A → Vec2 A → Vec2 A
  moved p v = record { x = add v.x p.x; y = add v.y p.y }

  -- CalculateGlobalVertices
  unfoldable pub calculate_global_vertices : Owner A → ShadowCaster A → ShadowCaster A
  calculate_global_vertices owner c = record c {
    global_verts = map (moved owner.world_position) c.local_verts;
    calc_pos = owner.world_position;
  }

  -- SetShadowRectangle(srect)
  unfoldable pub set_shadow_rectangle : Owner A → Rect A → ShadowCaster A → ShadowCaster A
  set_shadow_rectangle owner srect c =
      calculate_global_vertices owner (record c { local_verts = corner_verts srect })

  -- GetShadowRect
  unfoldable pub get_shadow_rect : Owner A → Rect A
  get_shadow_rect owner =
      let dim_x = mul owner.dimensions.x owner.scale.x in
      let dim_y = mul owner.dimensions.y owner.scale.y in
      record {
        x = sub owner.world_position.x (mul owner.pivot.x dim_x);
        y = sub owner.world_position.y (mul owner.pivot.y dim_y);
        w = dim_x;
        h = dim_y;
      }

  -- CreateShadowVertices
  unfoldable pub create_shadow_vertices : Owner A → ShadowCaster A → ShadowCaster A
  create_shadow_vertices owner c = record c { local_verts = corner_verts (get_shadow_rect owner) }

  -- IsPositionDirty
  unfoldable pub is_position_dirty : Owner A → ShadowCaster A → Bool
  is_position_dirty owner c = less thousandth (
      length_of (record {
        x = fabs (sub owner.world_position.x c.calc_pos.x);
        y = fabs (sub owner.world_position.y c.calc_pos.y);
      }))

  abbrev pub is_empty : {B : Type 0} → List B → Bool
  is_empty [] = true
  is_empty (x ∷ xs) = false

  -- GetShadowShape: the shape, which is a reference to `_globalVerts`.
  unfoldable pub get_shadow_shape : Owner A → ShadowCaster A → List (Vec2 A) × ShadowCaster A
  get_shadow_shape owner c =
      let c' = if is_empty c.local_verts then create_shadow_vertices owner c else c in
      let c'' =
        if is_empty c'.global_verts || is_position_dirty owner c'
        then calculate_global_vertices owner c'
        else c' in
      (c''.global_verts, c'')

  -- The two loops of GetAABB.
  unfoldable pub lowest : List (Vec2 A) → Rect A → Rect A
  lowest [] r = r
  lowest (v ∷ vs) r =
      lowest vs
        (record r { x = if less v.x r.x then v.x else r.x; y = if less v.y r.y then v.y else r.y })

  unfoldable pub widest : List (Vec2 A) → Rect A → Rect A
  widest [] r = r
  widest (v ∷ vs) r = widest vs (record r {
    w = if less (add r.x r.w) v.x then sub v.x r.x else r.w;
    h = if less (add r.y r.h) v.y then sub v.y r.y else r.h;
  })

  abbrev pub point_box : Vec2 A → Rect A
  point_box v = record { x = v.x; y = v.y; w = zero_float; h = zero_float }

  -- GetAABB: `_localVerts[0]` is read, whether it exists or not.
  abbrev pub boxed : Vec2 A → List (Vec2 A) → Outcome (Rect A)
  boxed p [] = faults
  boxed p (v ∷ vs) =
      let low = lowest vs (point_box v) in
      let r = widest (v ∷ vs) low in done (record r { x = add r.x p.x; y = add r.y p.y })

  unfoldable pub get_aabb : Owner A → ShadowCaster A → Outcome (Rect A)
  get_aabb owner c = boxed owner.world_position c.local_verts
