-- ===== src/Shader/Uniforms.antt =====
-- The uniforms of a shader: Enable, Disable, GetUniformLocation and the setters (client/Shader.cpp).
use legendofstealth.Shader.{Shader, OpenGl}
use legendofstealth.Prelude.Int.{ℤ}
use legendofstealth.Prelude.{
  ◌==◌, false, none, true, [], take, ◌&&◌, some, ◌∷◌, if◌then◌else◌, ltb, Option, Bool, List, ℕ,
}

-- Names of uniforms and of files are bytes.
abbrev pub same_name : List ℕ → List ℕ → Bool
same_name [] [] = true
same_name [] (b ∷ bs) = false
same_name (a ∷ as1) [] = false
same_name (a ∷ as1) (b ∷ bs) = (a == b) && same_name as1 bs

abbrev pub with_location : (List ℕ → Option ℤ) → List ℕ → ℤ → List ℕ → Option ℤ
with_location ids name loc other = if same_name name other then some loc else ids other

module _ (gl : OpenGl) where
  open gl use {World, GlFloat, use_program, uniform_location, uniform_i, uniform_f}

  -- Enable, Disable
  unfoldable pub enable : Shader → World → World
  enable s w = use_program s.prog w

  unfoldable pub disable : World → World
  disable w = use_program 0 w

  -- GetUniformLocation(uniform)
  abbrev pub location_of : List ℕ → Shader → World → Option ℤ → ℤ × Shader
  location_of uniform s w none =
      let loc = uniform_location s.prog uniform w in
      (loc, record s { uniform_id = with_location s.uniform_id uniform loc })
  location_of uniform s w (some loc) = (loc, s)

  unfoldable pub get_uniform_location : List ℕ → Shader → World → ℤ × Shader
  get_uniform_location uniform s w = location_of uniform s w (s.uniform_id uniform)

  -- SetUniformXi(name, len, arr), SetUniformXf(name, len, arr): for a length from 1 to 4 the first
  -- elements of the array are handed over.
  abbrev pub is_length : ℕ → Bool
  is_length len = ltb 0 len && ltb len 5

  unfoldable pub set_uniform_xi : List ℕ → ℕ → List ℤ → Shader → World → Shader × World
  set_uniform_xi name len arr s w =
      let w' = use_program s.prog w in
      let (loc, s') = get_uniform_location name s w' in
      if is_length len
      then (s', use_program 0 (uniform_i loc (take len arr) w'))
      else (s, use_program 0 w')

  unfoldable pub set_uniform_xf : List ℕ → ℕ → List GlFloat → Shader → World → Shader × World
  set_uniform_xf name len arr s w =
      let w' = use_program s.prog w in
      let (loc, s') = get_uniform_location name s w' in
      if is_length len
      then (s', use_program 0 (uniform_f loc (take len arr) w'))
      else (s, use_program 0 w')

  -- SetUniform1i to SetUniform4i, SetUniform1f to SetUniform4f
  unfoldable pub set_uniform_1i : List ℕ → ℤ → Shader → World → Shader × World
  set_uniform_1i n a s w = set_uniform_xi n 1 (a ∷ []) s w

  unfoldable pub set_uniform_2i : List ℕ → ℤ → ℤ → Shader → World → Shader × World
  set_uniform_2i n a b s w = set_uniform_xi n 2 (a ∷ b ∷ []) s w

  unfoldable pub set_uniform_3i : List ℕ → ℤ → ℤ → ℤ → Shader → World → Shader × World
  set_uniform_3i n a b c s w = set_uniform_xi n 3 (a ∷ b ∷ c ∷ []) s w

  unfoldable pub set_uniform_4i : List ℕ → ℤ → ℤ → ℤ → ℤ → Shader → World → Shader × World
  set_uniform_4i n a b c d s w = set_uniform_xi n 4 (a ∷ b ∷ c ∷ d ∷ []) s w

  unfoldable pub set_uniform_1f : List ℕ → GlFloat → Shader → World → Shader × World
  set_uniform_1f n a s w = set_uniform_xf n 1 (a ∷ []) s w

  unfoldable pub set_uniform_2f : List ℕ → GlFloat → GlFloat → Shader → World → Shader × World
  set_uniform_2f n a b s w = set_uniform_xf n 2 (a ∷ b ∷ []) s w

  unfoldable pub set_uniform_3f :
      List ℕ → GlFloat → GlFloat → GlFloat → Shader → World → Shader × World
  set_uniform_3f n a b c s w = set_uniform_xf n 3 (a ∷ b ∷ c ∷ []) s w

  unfoldable pub set_uniform_4f :
      List ℕ → GlFloat → GlFloat → GlFloat → GlFloat → Shader → World → Shader × World
  set_uniform_4f n a b c d s w = set_uniform_xf n 4 (a ∷ b ∷ c ∷ d ∷ []) s w
