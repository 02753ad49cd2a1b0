-- ===== src/Level/Fan.antt =====
-- LightTexture::CreateSharedTexture (client/LightSource.cpp): the arrays of the triangle fan that it
-- draws into the shared texture. The operations on floats are a parameter; the calls of OpenGL that
-- draw the arrays are left out.
use legendofstealth.Prelude.{
  zero, [], none, ◌+◌, or_fault, ◌*◌, suc, some, ◌∷◌, replicate, ◌>>=◌, done, get_elem?, faults,
  ◌-◌, Outcome, ℕ, Option, List,
}
use legendofstealth.Level.Shapes.{Vec2, Reals}

-- The division of floats, cosine, sine, and 2.f * M_PI.
pub record Circle (A : Type 0) : Type 0 where
  pub div : A → A → A
  pub cos : A → A
  pub sin : A → A
  pub pi2 : A

-- An array on the stack: an element is none until it is written. A write out of bounds is a fault.
abbrev pub write : {A : Type 0} → List (Option A) → ℕ → A → Outcome (List (Option A))
write [] i a = faults
write (x ∷ xs) zero a = done (some a ∷ xs)
write (x ∷ xs) (suc i) a = write xs i a >>= λ ys. done (x ∷ ys)

-- So is a read of what is out of bounds or was never written.
abbrev pub initialized : {A : Type 0} → Option (Option A) → Outcome A
initialized none = faults
initialized (some o) = or_fault o

abbrev pub read : {A : Type 0} → List (Option A) → ℕ → Outcome A
read xs i = initialized (get_elem? xs i)

-- `triangles`
abbrev pub triangles_of_fan : ℕ
triangles_of_fan = 101

module _ {A : Type 0} (reals : Reals A) (circle : Circle A) where
  open reals use {add, mul, whole}
  open circle use {div, cos, sin, pi2}

  -- c_lightRadius, and the center `p`.
  abbrev pub light_radius : A
  light_radius = whole 256

  abbrev pub center : Vec2 A
  center = record { x = light_radius; y = light_radius }

  -- `rad`, and the two coordinates that are written for it.
  abbrev pub rad : ℕ → ℕ → A
  rad triangles i = mul (div (whole i) (whole (triangles - 1))) pi2

  abbrev pub ring_x : ℕ → ℕ → A
  ring_x triangles i = add center.x (mul light_radius (cos (rad triangles i)))

  abbrev pub ring_y : ℕ → ℕ → A
  ring_y triangles i = add center.y (mul light_radius (sin (rad triangles i)))

  -- The loop over the vertices, with the number of rounds that are left.
  unfoldable pub vertex_loop : ℕ → ℕ → ℕ → List (Option A) → Outcome (List (Option A))
  vertex_loop triangles zero i v = done v
  vertex_loop triangles (suc left) i v =
      (write v (i * 2 + 0) (ring_x triangles i) >>= λ v'. write v' (i * 2 + 1) (ring_y triangles i))
      >>= λ v'. vertex_loop triangles left (i + 1) v'

  -- `v[2*(triangles-1) + 0] = v[2]`, and the same for the other coordinate.
  abbrev pub close_ring : ℕ → List (Option A) → Outcome (List (Option A))
  close_ring triangles v = read v 2 >>= λ x. write v (2 * (triangles - 1) + 0) x >>= λ v'.
      read v' 3 >>= λ y. write v' (2 * (triangles - 1) + 1) y

  unfoldable pub fan_vertices : ℕ → Outcome (List (Option A))
  fan_vertices triangles =
      (write (replicate (2 * triangles) none) 0 center.x >>= λ v. write v 1 center.y) >>= λ v.
      vertex_loop triangles (triangles - 1) 1 v >>= λ v. close_ring triangles v

-- The loop over the colors.
unfoldable pub color_loop : ℕ → ℕ → List (Option ℕ) → Outcome (List (Option ℕ))
color_loop zero i c = done c
color_loop (suc left) i c =
    (write c (i * 4 + 0) 255 >>= λ c'.
    write c' (i * 4 + 1) 255 >>= λ c'. write c' (i * 4 + 2) 255 >>= λ c'. write c' (i * 4 + 3) 0)
    >>= λ c'. color_loop left (i + 1) c'

unfoldable pub fan_colors : ℕ → Outcome (List (Option ℕ))
fan_colors triangles =
    (write (replicate (4 * triangles) none) 0 255 >>= λ c.
    write c 1 255 >>= λ c. write c 2 255 >>= λ c. write c 3 255)
    >>= λ c. color_loop (triangles - 1) 1 c
