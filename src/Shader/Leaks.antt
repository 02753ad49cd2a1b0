-- ===== src/Shader/Leaks.antt =====
-- An object of OpenGL that a failed constructor of Shader leaves behind (client/Shader.cpp).
use legendofstealth.Shader.Loading.{new_shader, load_shader, compile_source, compile_shader_file}
use legendofstealth.Shader.{vertex_shader, fragment_shader, get_shader_source, OpenGl}
use legendofstealth.Prelude.{
  ==_self, ==_iff, ap, subst, true-ne-false, inr, inl, sym, ◌∙◌, Bool-cases, out_of_fuel, throws,
  faults, done, ◌||◌, Outcome, not, false, Ensures, true, ◌&&◌, List, ◌≡◌, ◌==◌, Bool, ℕ, refl,
}
use legendofstealth.Shader.Handles.{Objects}
use legendofstealth.Shader.Objects.{Compiled, compile_shader_file-Compiled, made_frag, made_vert}

module _ (gl : OpenGl) (objects : Objects gl) where
  open gl use {World, create_shader, compile_status, delete_shader}
  open objects use {held}

  -- What is left where a shader does not compile.
  abbrev Failed : ℕ → World → Bool × ℕ × World → Type 0
  Failed shader w r = r.0 ≡ false → (m : ℕ) → held r.2 m ≡ not (shader == m) && held w m

  compiled-Failed :
      (shader : ℕ) (file : List ℕ) (w : World)
      → Ensures (Failed shader w) (compile_shader_file gl shader file w)
  unfolding compile_shader_file
  compiled-Failed shader file w = by_source (get_shader_source (gl.file_content file w))
    where
      by_source : (o : Outcome (List ℕ)) → Ensures (Failed shader w) (compile_source gl shader w o)
      by_source (done source) =
          let w' = gl.compile_shader shader (gl.shader_source shader source w) in
          elim (Bool-cases (compile_status shader w')) [
            | inl ok ↦ rw ok (λ e. absurd (true-ne-false e))
            | inr failed ↦ rw failed (λ e m.
                objects.held-delete_shader shader w' m
                ∙ ap (λ b. not (shader == m) && b)
                    (objects.held-compile_shader shader _ m
                      ∙ objects.held-shader_source shader source w m))
          ]
      by_source faults = tt
      by_source throws = tt
      by_source out_of_fuel = tt

  or-true : (a b : Bool) → b ≡ true → (a || b) ≡ true
  or-true true b e = refl
  or-true false b e = e

  held_first :
      (w : World)
      → ((made_frag gl objects w).0 == 0) ≡ false
      → held (made_frag gl objects w).1 (made_frag gl objects w).0 ≡ true
  held_first w some_frag =
      objects.held-create_shader fragment_shader w (made_frag gl objects w).0
      ∙ rw (==_self (made_frag gl objects w).0, some_frag) refl

  -- The new fragment shader is there, and the vertex shader is another one.
  held_frag :
      (w : World)
      → ((made_frag gl objects w).0 == 0) ≡ false
      → held (made_vert gl objects w).1 (made_frag gl objects w).0 ≡ true
  held_frag w some_frag =
      objects.held-create_shader vertex_shader (made_frag gl objects w).1 (made_frag gl objects w).0
      ∙ or-true _ _ (held_first w some_frag)

  other_vert :
      (w : World)
      → ((made_frag gl objects w).0 == 0) ≡ false
      → ((made_vert gl objects w).0 == (made_frag gl objects w).0) ≡ false
  other_vert w some_frag =
      elim (Bool-cases ((made_vert gl objects w).0 == (made_frag gl objects w).0)) [
        | inl same ↦ absurd (
            true-ne-false (
              sym (held_first w some_frag)
              ∙ ap (held (made_frag gl objects w).1) (sym ((==_iff _ _).0 same))
              ∙ objects.new_shader_handle vertex_shader (made_frag gl objects w).1))
        | inr e ↦ e
      ]

  -- The constructor of Shader, where the fragment shader compiles and the vertex shader does not: it
  -- throws, and as the destructor does not run for it, the fragment shader is still there; the
  -- vertex shader is not.
  pub new_shader-leak :
      (fragfile vertfile : List ℕ) (w w3 w4 : World)
      → ((made_frag gl objects w).0 == 0) ≡ false
      → ((made_vert gl objects w).0 == 0) ≡ false
      → compile_shader_file gl (made_frag gl objects w).0 fragfile (made_vert gl objects w).1
        ≡ done (true, (made_frag gl objects w).0, w3)
      → compile_shader_file gl (made_vert gl objects w).0 vertfile w3 ≡ done (false, 0, w4)
      → (new_shader gl fragfile vertfile w ≡ done (inr w4))
        × (held w4 (made_frag gl objects w).0 ≡ true)
        × (held w4 (made_vert gl objects w).0 ≡ false)
  unfolding new_shader load_shader
  new_shader-leak fragfile vertfile w w3 w4 some_frag some_vert compiles fails =
      let frag = made_frag gl objects w in
      let vert = made_vert gl objects w in
      let first =
        subst (Ensures (Compiled gl objects frag.0 vert.1)) compiles
          (compile_shader_file-Compiled gl objects frag.0 fragfile vert.1) in
      let second = subst (Ensures (Failed vert.0 w3)) fails (compiled-Failed vert.0 vertfile w3) in
      (
        rw (some_frag, some_vert, compiles, fails) refl,
        second refl frag.0
            ∙ rw (other_vert w some_frag) ((first refl).1 frag.0 ∙ held_frag w some_frag),
        second refl vert.0 ∙ rw (==_self vert.0) refl,
      )
