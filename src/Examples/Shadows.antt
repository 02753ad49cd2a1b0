-- ===== src/Examples/Shadows.antt =====
-- Shadow casters of a scene on a small grid: the theorems on client/ShadowCaster.cpp and
-- client/ShadowLayer.cpp at concrete shapes.
use legendofstealth.Level.Quads.{push_quads-quads, quads}
use legendofstealth.Level.Casting.{
  get_shadow_vertices-faults, get_shadow_vertices-all_shadows, all_shadows, IsReady,
}
use legendofstealth.Level.Shadows.{get_shadow_vertices, Casters, Light, push_quads}
use legendofstealth.Level.ShadowShapes.{
  fresh, sets, shows, get_shadow_shape-IsShape, IsShape, IsStill,
}
use legendofstealth.Level.Boxes.{get_aabb-Inside, Inside, IsOrder}
use legendofstealth.Level.Drawing.{Rect}
use legendofstealth.Prelude.Int.{ℤ, pos, negsuc}
use legendofstealth.Level.Shapes.{
  set_shadow_rectangle, new_shadow_caster, get_shadow_shape, get_aabb, corner_verts, Reals, Owner,
  ShadowCaster,
}
use legendofstealth.Prelude.{
  suc, faults, inl, ◌==◌, All, done, ◌*◌, ◌&&◌, ◌-◌, ◌≡◌, arith, ◌%◌, ltb, leb, ◌+◌, Bool,
  if◌then◌else◌, [], ◌∷◌, ℕ, refl,
}

-- Coordinates below 256, whose differences wrap around.
abbrev minus_wrapped : ℕ → ℕ → ℕ
minus_wrapped a b = if leb b a then a - b else a + 256 - b

abbrev absolute : ℤ → ℕ
absolute (pos n) = n
absolute (negsuc n) = suc n

abbrev crossing : Rect ℕ → Rect ℕ → Bool
crossing r s =
    ltb r.x (s.x + s.w) && (ltb s.x (r.x + r.w) && (ltb r.y (s.y + s.h) && ltb s.y (r.y + r.h)))

abbrev pub grid : Reals ℕ
grid = record {
  zero_float = 0;
  thousandth = 0;
  hundredth = 0;
  half = 0;
  nowhere = 100;
  whole = λ n. n;
  of_int = absolute;
  add = λ a b. (a + b) % 256;
  sub = minus_wrapped;
  mul = λ a b. a * b;
  negate = λ a. 256 - a;
  fabs = λ a. a;
  less = ltb;
  new_vec2 = record { x = 0; y = 0 };
  length_of = λ v. v.x + v.y;
  overlaps = crossing;
}

grid-IsOrder : IsOrder grid
grid-IsOrder = record { irreflexive = λ a. ground arith; transitive = λ a b c e f. ground arith }

pub grid-IsStill : IsStill grid
grid-IsStill = record { unmoved = λ a b. ground arith }

abbrev owner_at : ℕ → ℕ → Owner ℕ
owner_at x y = record {
  world_position = record { x = x; y = y };
  dimensions = record { x = 4; y = 2 };
  scale = record { x = 1; y = 1 };
  pivot = record { x = 0; y = 0 };
}

-- A shadow caster with a rectangle of 4 to 2.
abbrev box : Rect ℕ
box = record { x = 1; y = 3; w = 4; h = 2 }

abbrev boxy : ShadowCaster ℕ
boxy = record {
  local_verts = corner_verts grid box;
  global_verts = [];
  calc_pos = record { x = 100; y = 100 };
}

get_aabb-Inside_example :
    (r : Rect ℕ) × (get_aabb grid (owner_at 10 20) boxy
      ≡ done (record r { x = (r.x + 10) % 256; y = (r.y + 20) % 256 }))
    × All (Inside grid r) boxy.local_verts
get_aabb-Inside_example =
    get_aabb-Inside grid (owner_at 10 20) boxy (record { x = 1; y = 3 })
      (record { x = 5; y = 3 } ∷ record { x = 5; y = 5 } ∷ record { x = 1; y = 5 } ∷ [])
      grid-IsOrder refl (omega arith)

-- A shadow caster that is set, shown and moved.
abbrev moved_box : ShadowCaster ℕ
moved_box =
    (get_shadow_shape grid (owner_at 1 1)
      (set_shadow_rectangle grid (owner_at 0 0) box (new_shadow_caster grid))).1

get_shadow_shape-IsShape_example :
    IsShape grid (owner_at 10 20) (get_shadow_shape grid (owner_at 10 20) moved_box)
get_shadow_shape-IsShape_example =
    get_shadow_shape-IsShape grid (owner_at 10 20) moved_box grid-IsStill
      (shows (owner_at 1 1) (sets (owner_at 0 0) box fresh))

push_quads-quads_example :
    push_quads grid 4 (corner_verts grid box) (record { x = 0; y = 0 }) 0 []
    ≡ done (quads grid (record { x = 0; y = 0 }) (corner_verts grid box))
push_quads-quads_example =
    push_quads-quads grid (corner_verts grid box) (record { x = 0; y = 0 }) []

abbrev pub lamp : Light ℕ
lamp = record {
  position = record { x = 8; y = 8 };
  world_position = record { x = 8; y = 8 };
  radius = 8;
}

-- The shadow casters 1 and 2, of which the second is too far away, and 3, which has no vertices.
abbrev pub owners : ℕ → Owner ℕ
owners a = if a == 2 then owner_at 100 100 else owner_at 0 0

abbrev pub casters : Casters grid
casters a = if a == 3 then new_shadow_caster grid else boxy

pub boxy-IsReady : IsReady grid boxy
boxy-IsReady = (inl refl, refl)

get_shadow_vertices-all_shadows_example :
    (casters' : Casters grid) × (get_shadow_vertices grid owners lamp (1 ∷ 2 ∷ 1 ∷ []) casters
      ≡ done (all_shadows grid owners lamp (1 ∷ 2 ∷ 1 ∷ []) casters, casters'))
get_shadow_vertices-all_shadows_example =
    get_shadow_vertices-all_shadows grid owners lamp (1 ∷ 2 ∷ 1 ∷ []) casters grid-IsStill
      (boxy-IsReady, (boxy-IsReady, (boxy-IsReady, tt)))

bare : (casters 3).local_verts ≡ []
unfolding new_shadow_caster
bare = refl

get_shadow_vertices-faults_example :
    get_shadow_vertices grid owners lamp (1 ∷ 3 ∷ 2 ∷ []) casters ≡ faults
get_shadow_vertices-faults_example =
    get_shadow_vertices-faults grid owners lamp (1 ∷ []) 3 (2 ∷ []) casters grid-IsStill
      (boxy-IsReady, tt) bare
