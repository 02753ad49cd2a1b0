-- ===== src/Shader/Handles.antt =====
-- The objects of OpenGL that ~Shader deletes (client/Shader.cpp).
use legendofstealth.Shader.Loading.{destroy_shader}
use legendofstealth.Shader.{Shader, OpenGl, Stage}
use legendofstealth.Prelude.{
  ==_iff, ap, inr, inl, sym, ◌∙◌, Bool-cases, ◌||◌, not, false, true, ◌&&◌, List, ◌≡◌, ◌==◌, Bool,
  ℕ, refl,
}

-- Which shaders and programs are there to be deleted, and what is relied on of OpenGL: what is made
-- is new or 0, and only making and deleting an object changes which there are.
pub record Objects (gl : OpenGl) : Type 0 where
  pub held : OpenGl.World gl → ℕ → Bool
  pub held-create_shader :
      (stage : Stage) (w : OpenGl.World gl) (m : ℕ)
      → held (OpenGl.create_shader gl stage w).1 m
        ≡ (((OpenGl.create_shader gl stage w).0 == m) && not (m == 0)) || held w m
  pub new_shader_handle :
      (stage : Stage) (w : OpenGl.World gl) → held w (OpenGl.create_shader gl stage w).0 ≡ false
  pub held-create_program :
      (w : OpenGl.World gl) (m : ℕ)
      → held (OpenGl.create_program gl w).1 m
        ≡ (((OpenGl.create_program gl w).0 == m) && not (m == 0)) || held w m
  pub new_program_handle : (w : OpenGl.World gl) → held w (OpenGl.create_program gl w).0 ≡ false
  pub held-delete_shader :
      (n : ℕ) (w : OpenGl.World gl) (m : ℕ)
      → held (OpenGl.delete_shader gl n w) m ≡ not (n == m) && held w m
  pub held-delete_program :
      (n : ℕ) (w : OpenGl.World gl) (m : ℕ)
      → held (OpenGl.delete_program gl n w) m ≡ not (n == m) && held w m
  pub held-shader_source :
      (n : ℕ) (source : List ℕ) (w : OpenGl.World gl) (m : ℕ)
      → held (OpenGl.shader_source gl n source w) m ≡ held w m
  pub held-compile_shader :
      (n : ℕ) (w : OpenGl.World gl) (m : ℕ) → held (OpenGl.compile_shader gl n w) m ≡ held w m
  pub held-attach_shader :
      (p n : ℕ) (w : OpenGl.World gl) (m : ℕ) → held (OpenGl.attach_shader gl p n w) m ≡ held w m
  pub held-link_program :
      (p : ℕ) (w : OpenGl.World gl) (m : ℕ) → held (OpenGl.link_program gl p w) m ≡ held w m

module _ (gl : OpenGl) (objects : Objects gl) where
  open gl use {World, create_shader, create_program, compile_status, delete_shader, delete_program}
  open objects use {held}

  -- What LoadShader leaves, where it succeeds: three objects, that are new and there.
  pub record Loaded (w : World) (s : Shader) (w' : World) : Type 0 where
    pub some_vert : (s.vert == 0) ≡ false
    pub some_frag : (s.frag == 0) ≡ false
    pub some_prog : (s.prog == 0) ≡ false
    pub new_vert : held w s.vert ≡ false
    pub new_frag : held w s.frag ≡ false
    pub new_prog : held w s.prog ≡ false
    pub others :
        (m : ℕ)
        → (s.vert == m) ≡ false
        → (s.frag == m) ≡ false
        → (s.prog == m) ≡ false
        → held w' m ≡ held w m

  -- What is left of the objects after ~Shader.
  held-destroyed :
      (s : Shader) (w w' : World) (m : ℕ)
      → Loaded w s w'
      → held (destroy_shader gl s w') m
        ≡ not (s.prog == m) && (not (s.frag == m) && (not (s.vert == m) && held w' m))
  unfolding destroy_shader
  held-destroyed s w w' m l =
      rw (l.some_vert, l.some_frag, l.some_prog)
        (objects.held-delete_program s.prog _ m
          ∙ ap (λ b. not (s.prog == m) && b)
              (objects.held-delete_shader s.frag _ m
                ∙ ap (λ b. not (s.frag == m) && b) (objects.held-delete_shader s.vert w' m)))

  was_new : (w : World) (n m : ℕ) → (n == m) ≡ true → held w n ≡ false → false ≡ held w m
  was_new w n m e h = sym h ∙ ap (held w) ((==_iff n m).0 e)

  and_false : (a : Bool) → (a && false) ≡ false
  and_false true = refl
  and_false false = refl

  pub destroyed :
      (s : Shader) (w w' : World) (m : ℕ)
      → Loaded w s w'
      → held (destroy_shader gl s w') m ≡ held w m
  destroyed s w w' m l = held-destroyed s w w' m l ∙ (elim (Bool-cases (s.prog == m)) [
    | inl p ↦ rw p (was_new w s.prog m p l.new_prog)
    | inr p ↦ elim (Bool-cases (s.frag == m)) [
      | inl f ↦ rw (p, f) (was_new w s.frag m f l.new_frag)
      | inr f ↦ elim (Bool-cases (s.vert == m)) [
        | inl v ↦ rw (p, f, v) (was_new w s.vert m v l.new_vert)
        | inr v ↦ rw (p, f, v) (l.others m v f p)
      ]
    ]
  ])
