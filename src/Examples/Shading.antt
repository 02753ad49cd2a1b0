-- ===== src/Examples/Shading.antt =====
-- An OpenGL whose world is the list of its objects: the theorems on client/Shader.cpp and on
-- the constructor of client/ShadowLayer.cpp at concrete files.
use legendofstealth.Level.LightLayer.{Color}
use legendofstealth.Shader.Setting.{IsUntouched}
use legendofstealth.Level.Owned.{delete_shadow_layer-new_shadow_layer, IsStore}
use legendofstealth.Level.Owning.{
  delete_shadow_layer, recolored, set_shadow_color, uniforms_set, new_shadow_layer, OwningLayer,
  Shades, RenderTextures,
}
use legendofstealth.Shader.Leaks.{new_shader-leak}
use legendofstealth.Shader.Lines.{get_shader_source-source_text}
use legendofstealth.Shader.Uniforms.{
  set_uniform_xf, set_uniform_4f, set_uniform_1f, set_uniform_1i, get_uniform_location,
  set_uniform_xi,
}
use legendofstealth.Shader.Loading.{link, load_shader, compile_shader_file, new_shader}
use legendofstealth.Shader.Locations.{made, set_i, get_uniform_location-uniform_location, IsFixed}
use legendofstealth.Shader.Handles.{Objects}
use legendofstealth.Prelude.Int.{pos}
use legendofstealth.Shader.{getline, source_loop, get_shader_source, Shader, OpenGl}
use legendofstealth.Prelude.{
  inl, inr, done, none, zero, some, ◌&&◌, arith, length, ◌||◌, not, ==_ne, ◌==◌, ◌≡◌, ◌<◌, true,
  suc, ◌+◌, if◌then◌else◌, false, Bool, List, [], ◌∷◌, ℕ, refl,
}

abbrev among : ℕ → List ℕ → Bool
among m [] = false
among m (n ∷ ns) = (n == m) || among m ns

abbrev removed : ℕ → List ℕ → List ℕ
removed m [] = []
removed m (n ∷ ns) = if n == m then removed m ns else n ∷ removed m ns

abbrev total : List ℕ → ℕ
total [] = 0
total (n ∷ ns) = n + total ns

-- A number that none of the objects has.
abbrev next_object : List ℕ → ℕ × List ℕ
next_object ns = (suc (total ns), suc (total ns) ∷ ns)

-- `compiles` says which shaders compile.
abbrev listed : (ℕ → Bool) → OpenGl
listed compiles = record {
  World = List ℕ;
  GlFloat = ℕ;
  create_shader = λ _ w. next_object w;
  create_program = λ w. next_object w;
  shader_source = λ _ _ w. w;
  compile_shader = λ _ w. w;
  compile_status = λ n _. compiles n;
  attach_shader = λ _ _ w. w;
  link_program = λ _ w. w;
  link_status = λ _ _. true;
  delete_shader = λ n w. removed n w;
  delete_program = λ n w. removed n w;
  use_program = λ _ w. w;
  uniform_location = λ p name _. pos (length name);
  uniform_i = λ _ _ w. w;
  uniform_f = λ _ _ w. w;
  file_content = λ name _. some name;
}

among-total : (m : ℕ) (ns : List ℕ) → total ns < m → among m ns ≡ false
among-total m [] h = refl
among-total m (n ∷ ns) h = rw (==_ne n m (λ e. omega arith)) (among-total m ns (omega arith))

among-next :
    (ns : List ℕ) (m : ℕ)
    → among m (next_object ns).1 ≡ (((next_object ns).0 == m) && not (m == 0)) || among m ns
among-next ns zero = ground arith
among-next ns (suc m) = ground arith

among-removed : (n : ℕ) (ns : List ℕ) (m : ℕ) → among m (removed n ns) ≡ not (n == m) && among m ns
among-removed n [] m = ground arith
among-removed n (k ∷ ns) m = ground (arith, among-removed n ns m)

abbrev listed-Objects : (compiles : ℕ → Bool) → Objects (listed compiles)
listed-Objects compiles = record {
  held = λ w m. among m w;
  held-create_shader = λ _ w m. among-next w m;
  new_shader_handle = λ _ w. among-total (suc (total w)) w (omega arith);
  held-create_program = λ w m. among-next w m;
  new_program_handle = λ w. among-total (suc (total w)) w (omega arith);
  held-delete_shader = λ n w m. among-removed n w m;
  held-delete_program = λ n w m. among-removed n w m;
  held-shader_source = λ _ _ _ _. refl;
  held-compile_shader = λ _ _ _. refl;
  held-attach_shader = λ _ _ _ _. refl;
  held-link_program = λ _ _ _. refl;
}

listed-IsFixed : (compiles : ℕ → Bool) → IsFixed (listed compiles)
listed-IsFixed compiles = record {
  on_use = λ _ _ _ _. refl;
  on_set_i = λ _ _ _ _ _. refl;
  on_set_f = λ _ _ _ _ _. refl;
}

abbrev good : OpenGl
good = listed (λ _. true)

-- Only the fragment shader compiles, which is the object 1.
abbrev bad : OpenGl
bad = listed (λ n. n == 1)

get_shader_source-source_text_example :
    get_shader_source (some (97 ∷ 10 ∷ 98 ∷ [])) ≡ done (97 ∷ 10 ∷ 98 ∷ 10 ∷ 10 ∷ [])
get_shader_source-source_text_example = get_shader_source-source_text (some (97 ∷ 10 ∷ 98 ∷ []))

abbrev shader : Shader
shader = record { vert = 2; frag = 1; prog = 4; uniform_id = λ _. none }

first_compiles : compile_shader_file bad 1 (97 ∷ []) (2 ∷ 1 ∷ []) ≡ done (true, 1, 2 ∷ 1 ∷ [])
unfolding compile_shader_file get_shader_source source_loop getline
first_compiles = refl

second_fails : compile_shader_file bad 2 (98 ∷ []) (2 ∷ 1 ∷ []) ≡ done (false, 0, 1 ∷ [])
unfolding compile_shader_file get_shader_source source_loop getline
second_fails = refl

new_shader-leak_example :
    (new_shader bad (97 ∷ []) (98 ∷ []) [] ≡ done (inr (1 ∷ [])))
    × (among 1 (1 ∷ []) ≡ true)
    × (among 2 (1 ∷ []) ≡ false)
new_shader-leak_example =
    new_shader-leak bad (listed-Objects (λ n. n == 1)) (97 ∷ []) (98 ∷ []) [] (2 ∷ 1 ∷ []) (1 ∷ [])
      refl refl first_compiles second_fails

-- The shader after a uniform has been set and another asked for.
abbrev set_once : Shader × List ℕ
set_once = set_uniform_xi good (116 ∷ []) 1 (pos 0 ∷ []) shader (4 ∷ 2 ∷ 1 ∷ [])

get_uniform_location-uniform_location_example :
    (get_uniform_location good (116 ∷ []) set_once.0 set_once.1).0 ≡ pos 1
unfolding get_uniform_location set_uniform_xi
get_uniform_location-uniform_location_example =
    get_uniform_location-uniform_location good (116 ∷ []) (listed-IsFixed (λ _. true))
      (set_i (116 ∷ []) 1 (pos 0 ∷ []) (made shader (4 ∷ 2 ∷ 1 ∷ []) (λ _. refl)))

-- Render textures are a list of addresses.
abbrev shelf : RenderTextures
shelf = record {
  Store = List ℕ;
  new_texture = next_object;
  delete_texture = removed;
  live = λ ns m. among m ns;
}

shelf-IsStore : IsStore shelf
shelf-IsStore = record {
  live-new_texture = λ ns m. refl;
  new_address = λ ns. among-total (suc (total ns)) ns (omega arith);
  live-delete_texture = λ a ns m. among-removed a ns m;
}

good-IsUntouched : IsUntouched good (listed-Objects (λ _. true))
good-IsUntouched = record {
  on_use = λ _ _ _. refl;
  on_set_i = λ _ _ _ _. refl;
  on_set_f = λ _ _ _ _. refl;
}

abbrev shades : Shades ℕ
shades = record { none_of = 0; four_fifths = 8; nine_tenths = 9 }

abbrev dark_layer : OwningLayer good shelf shades
dark_layer = (uniforms_set good shelf shades 6 (shader, 4 ∷ 2 ∷ 1 ∷ [])).0

makes_layer :
    new_shadow_layer good shelf shades [] (5 ∷ [])
    ≡ done (inl (dark_layer, 4 ∷ 2 ∷ 1 ∷ [], 6 ∷ 5 ∷ []))
unfolding new_shadow_layer new_shader load_shader compile_shader_file get_shader_source source_loop
    getline link set_shadow_color set_uniform_1i set_uniform_1f set_uniform_4f set_uniform_xi
    set_uniform_xf get_uniform_location
makes_layer = refl

abbrev red : Color ℕ
red = record { r = 1; g = 0; b = 0; a = 1 }

abbrev red_layer : OwningLayer good shelf shades × List ℕ
red_layer = recolored good shelf shades (red ∷ []) (dark_layer, 4 ∷ 2 ∷ 1 ∷ [])

delete_shadow_layer-new_shadow_layer_example :
    (among 2 (delete_shadow_layer good shelf shades red_layer.0 red_layer.1 (6 ∷ 5 ∷ [])).0
      ≡ among 2 [])
    × (among 2 (delete_shadow_layer good shelf shades red_layer.0 red_layer.1 (6 ∷ 5 ∷ [])).1
        ≡ among 2 (5 ∷ []))
delete_shadow_layer-new_shadow_layer_example =
    delete_shadow_layer-new_shadow_layer good (listed-Objects (λ _. true)) shelf shades
      good-IsUntouched [] (4 ∷ 2 ∷ 1 ∷ []) (5 ∷ []) (6 ∷ 5 ∷ []) dark_layer (red ∷ []) 2
      shelf-IsStore makes_layer
