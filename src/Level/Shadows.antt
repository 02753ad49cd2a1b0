-- ===== src/Level/Shadows.antt =====
-- The geometry of class ShadowLayer (client/ShadowLayer.cpp): which lights and shadow casters count,
-- and the quads of the shadows. Shadow casters and light sources are found under their addresses.
use legendofstealth.Level.Drawing.{Rect}
use legendofstealth.Level.Shapes.{get_shadow_shape, get_aabb, Vec2, Reals, Owner, ShadowCaster}
use legendofstealth.Prelude.{
  zero, length, ◌++◌, ◌%◌, suc, ◌+◌, get_elem?, [], ◌==◌, done, ◌>>=◌, or_fault, ◌∷◌, if◌then◌else◌,
  List, Outcome, Bool, ℕ,
}

-- What is read of a light source: Position(), GetGameObject()->WorldPosition() and
-- GetLightRadius().
pub record Light (A : Type 0) : Type 0 where
  pub position : Vec2 A
  pub world_position : Vec2 A
  pub radius : A

module _ {A : Type 0} (reals : Reals A) where
  open reals use {new_vec2, add, sub, mul, negate, whole, overlaps}

  -- ShouldDrawLight(source), given the position of the game layer.
  unfoldable pub should_draw_light : Vec2 A → Light A → Bool
  should_draw_light layer light =
      overlaps
        (record {
          x = sub light.position.x light.radius;
          y = sub light.position.y light.radius;
          w = light.radius;
          h = light.radius;
        })
        (record { x = negate layer.x; y = negate layer.y; w = whole 1280; h = whole 720 })

  -- The square of a light, as WillLightHitCaster and LightSource::GetAABB have it.
  abbrev pub light_rect : Light A → Rect A
  light_rect light = record {
    x = sub light.position.x light.radius;
    y = sub light.position.y light.radius;
    w = mul light.radius (whole 2);
    h = mul light.radius (whole 2);
  }

  -- WillLightHitCaster(source, caster)
  unfoldable pub will_light_hit_caster : Light A → Owner A → ShadowCaster A → Outcome Bool
  will_light_hit_caster light owner c =
      get_aabb reals owner c >>= λ r. done (overlaps (light_rect light) r)

  -- The `d` of a vertex.
  abbrev pub delta : Vec2 A → Vec2 A → Vec2 A
  delta p v = record {
    x = mul (add new_vec2.x (sub v.x p.x)) (whole 1000);
    y = mul (add new_vec2.y (sub v.y p.y)) (whole 1000);
  }

  -- The loop over `k`: `quad[k]` is the vertex, `quad[3 - k]` its delta.
  abbrev pub quad_of : Vec2 A → Vec2 A → Vec2 A → List (Vec2 A)
  quad_of p v0 v1 = v0 ∷ v1 ∷ delta p v1 ∷ delta p v0 ∷ []

  -- `shape[(k + j) % shape.size()]`. A remainder by 0 and a read out of bounds are faults.
  abbrev pub vertex_at : List (Vec2 A) → ℕ → Outcome (Vec2 A)
  vertex_at shape i = or_fault (get_elem? shape (i % length shape))

  abbrev pub quad_at : List (Vec2 A) → Vec2 A → ℕ → Outcome (List (Vec2 A))
  quad_at shape p j =
      vertex_at shape j >>= λ v0. vertex_at shape (j + 1) >>= λ v1. done (quad_of p v0 v1)

  -- The loop over `j`, with the number of rounds that are left.
  unfoldable pub push_quads :
      ℕ → List (Vec2 A) → Vec2 A → ℕ → List (Vec2 A) → Outcome (List (Vec2 A))
  push_quads zero shape p j shadow = done shadow
  push_quads (suc left) shape p j shadow =
      quad_at shape p j >>= λ quad. push_quads left shape p (j + 1) (shadow ++ quad)

  abbrev pub Casters : Type 0
  Casters = ℕ → ShadowCaster A

  abbrev pub with_caster : Casters → ℕ → ShadowCaster A → Casters
  with_caster casters a c b = if a == b then c else casters b

  -- The loop of GetShadowVertices over the shadow casters that are left. GetShadowShape changes the caster.
  unfoldable pub shadow_loop :
      (ℕ → Owner A) → Light A → List ℕ → Casters → List (Vec2 A) → Outcome (List (Vec2 A) × Casters)
  shadow_loop owners light [] casters shadow = done (shadow, casters)
  shadow_loop owners light (a ∷ rest) casters shadow =
      let (shape, c) = get_shadow_shape reals (owners a) (casters a) in
      let hit = push_quads (length shape) shape light.world_position 0 shadow >>= λ shadow'.
      shadow_loop owners light rest (with_caster casters a c) shadow' in
      let missed = shadow_loop owners light rest casters shadow in
      will_light_hit_caster light (owners a) (casters a) >>= λ hits. if hits then hit else missed

  -- GetShadowVertices(source)
  unfoldable pub get_shadow_vertices :
      (ℕ → Owner A) → Light A → List ℕ → Casters → Outcome (List (Vec2 A) × Casters)
  get_shadow_vertices owners light shadow_casters casters =
      shadow_loop owners light shadow_casters casters []
