-- ===== src/Shader/Objects.antt =====
-- The objects of OpenGL that the constructor of Shader makes (client/Shader.cpp).
use legendofstealth.Shader.Loading.{
  constructed, new_shader, destroy_shader, load_shader, frag_compiled, vert_compiled, programmed,
  link, compile_source, compile_shader_file,
}
use legendofstealth.Shader.{
  vertex_shader, fragment_shader, get_shader_source, Shader, OpenGl, Stage,
}
use legendofstealth.Prelude.{
  ◌⊎◌, Ensures-bind, subst, true-ne-false, inr, inl, sym, ◌∙◌, Bool-cases, out_of_fuel, throws,
  faults, done, ◌||◌, Outcome, false, Ensures, true, List, ◌≡◌, ◌==◌, Bool, ℕ, refl,
}
use legendofstealth.Shader.Handles.{Objects, Loaded, destroyed}

module _ (gl : OpenGl) (objects : Objects gl) where
  open gl use {World, create_shader, create_program, compile_status, delete_shader, delete_program}
  open objects use {held}

  -- What compiling leaves, where it succeeds.
  abbrev pub Compiled : ℕ → World → Bool × ℕ × World → Type 0
  Compiled shader w r = r.0 ≡ true → (r.1 ≡ shader) × ((m : ℕ) → held r.2 m ≡ held w m)

  pub compile_shader_file-Compiled :
      (shader : ℕ) (file : List ℕ) (w : World)
      → Ensures (Compiled shader w) (compile_shader_file gl shader file w)
  unfolding compile_shader_file
  compile_shader_file-Compiled shader file w =
      by_source (get_shader_source (gl.file_content file w))
    where
      by_source :
          (o : Outcome (List ℕ)) → Ensures (Compiled shader w) (compile_source gl shader w o)
      by_source (done source) =
          let w' = gl.compile_shader shader (gl.shader_source shader source w) in
          elim (Bool-cases (compile_status shader w')) [
            | inl ok ↦ rw ok (λ e. (
              refl,
              λ m.
                  objects.held-compile_shader shader _ m
                  ∙ objects.held-shader_source shader source w m,
            ))
            | inr failed ↦ rw failed (λ e. absurd (true-ne-false (sym e)))
          ]
      by_source faults = tt
      by_source throws = tt
      by_source out_of_fuel = tt

  pub or-right : (a b : Bool) → (a || b) ≡ false → b ≡ false
  or-right true b e = cc
  or-right false b e = e

  or-left : (a b : Bool) → (a || b) ≡ false → a ≡ false
  or-left true b e = cc
  or-left false b e = refl

  -- An object that is not the new one.
  held-created :
      (stage : Stage) (w : World) (m : ℕ)
      → ((create_shader stage w).0 == m) ≡ false
      → held (create_shader stage w).1 m ≡ held w m
  held-created stage w m e = objects.held-create_shader stage w m ∙ rw e refl

  held-program :
      (w : World) (m : ℕ)
      → ((create_program w).0 == m) ≡ false
      → held (create_program w).1 m ≡ held w m
  held-program w m e = objects.held-create_program w m ∙ rw e refl

  not_before :
      (stage : Stage) (w : World) (m : ℕ)
      → held (create_shader stage w).1 m ≡ false
      → held w m ≡ false
  not_before stage w m e = or-right _ _ (sym (objects.held-create_shader stage w m) ∙ e)

  -- What the second half of LoadShader leaves, where it succeeds, given the new program.
  record Programmed (s : Shader) (p : ℕ × World) (r : Bool × Shader × World) : Type 0 where
    same : r.1 ≡ record s { prog = p.0 }
    some_prog : (p.0 == 0) ≡ false
    kept : (m : ℕ) → held r.2 m ≡ held p.1 m

  programmed-Programmed :
      (s : Shader) (p : ℕ × World)
      → (programmed gl s p).0 ≡ true
      → Programmed s p (programmed gl s p)
  unfolding link
  programmed-Programmed s (prog, w) = elim (Bool-cases (prog == 0)) [
    | inl null ↦ rw null (λ e. absurd (true-ne-false (sym e)))
    | inr some_prog ↦
        let w' =
          gl.link_program prog (gl.attach_shader prog s.frag (gl.attach_shader prog s.vert w)) in
        elim (Bool-cases (gl.link_status prog w')) [
          | inl ok ↦
              rw (some_prog, ok)
                (λ e. record {
                  same = refl;
                  some_prog = some_prog;
                  kept = λ m.
                      objects.held-link_program prog _ m
                      ∙ objects.held-attach_shader prog s.frag _ m
                      ∙ objects.held-attach_shader prog s.vert w m;
                })
          | inr failed ↦ rw (some_prog, failed) (λ e. absurd (true-ne-false (sym e)))
        ]
  ]

  -- The objects in the order in which LoadShader makes them.
  abbrev pub made_frag : World → ℕ × World
  made_frag w = create_shader fragment_shader w

  abbrev pub made_vert : World → ℕ × World
  made_vert w = create_shader vertex_shader (made_frag w).1

  module _ (w w3 : World) (same : (m : ℕ) → held w3 m ≡ held (made_vert w).1 m) where
    vert_is_new : held w (made_vert w).0 ≡ false
    vert_is_new =
        not_before fragment_shader w (made_vert w).0
          (objects.new_shader_handle vertex_shader (made_frag w).1)

    prog_is_new : held w (create_program w3).0 ≡ false
    prog_is_new = not_before fragment_shader w (create_program w3).0 (
        not_before vertex_shader (made_frag w).1 (create_program w3).0
          (sym (same (create_program w3).0) ∙ objects.new_program_handle w3))

    nothing_else :
        (m : ℕ)
        → ((made_vert w).0 == m) ≡ false
        → ((made_frag w).0 == m) ≡ false
        → ((create_program w3).0 == m) ≡ false
        → held (create_program w3).1 m ≡ held w m
    nothing_else m v f p =
        held-program w3 m p
        ∙ same m
        ∙ held-created vertex_shader (made_frag w).1 m v
        ∙ held-created fragment_shader w m f

    loaded :
        (s s' : Shader) (w' : World)
        → s ≡ record s' {
          frag = (made_frag w).0;
          vert = (made_vert w).0;
          prog = (create_program w3).0;
        }
        → ((made_frag w).0 == 0) ≡ false
        → ((made_vert w).0 == 0) ≡ false
        → ((create_program w3).0 == 0) ≡ false
        → ((m : ℕ) → held w' m ≡ held (create_program w3).1 m)
        → Loaded gl objects w s w'
    loaded s s' w' e some_frag some_vert some_prog kept =
        subst (λ s. Loaded gl objects w s w') (sym e)
          (record {
            some_vert = some_vert;
            some_frag = some_frag;
            some_prog = some_prog;
            new_vert = vert_is_new;
            new_frag = objects.new_shader_handle fragment_shader w;
            new_prog = prog_is_new;
            others = λ m v f p. kept m ∙ nothing_else m v f p;
          })

  -- What LoadShader leaves.
  abbrev Success : World → Bool × Shader × World → Type 0
  Success w r = r.0 ≡ true → Loaded gl objects w r.1 r.2

  vert-Success :
      (w : World) (s : Shader) (r : Bool × ℕ × World)
      → s.frag ≡ (made_frag w).0
      → s.vert ≡ (made_vert w).0
      → ((made_frag w).0 == 0) ≡ false
      → ((made_vert w).0 == 0) ≡ false
      → (r.0 ≡ true → (r.1 ≡ s.vert) × ((m : ℕ) → held r.2 m ≡ held (made_vert w).1 m))
      → Success w (vert_compiled gl s r)
  vert-Success w s (false, vert, w3) f v some_frag some_vert h = λ e. absurd (true-ne-false (sym e))
  vert-Success w s (true, vert, w3) f v some_frag some_vert h = λ e.
      let (same_vert, same) = h refl in
      let p = programmed-Programmed (record s { vert = vert }) (create_program w3) e in
      loaded w w3 same _ s _ (p.same ∙ rw (f, same_vert ∙ v) refl) some_frag some_vert p.some_prog
        p.kept

  -- The object with both shaders.
  abbrev with_both : World → Shader → Shader
  with_both w s = record s { frag = (made_frag w).0; vert = (made_vert w).0 }

  frag-Success :
      (w : World) (vertfile : List ℕ) (s : Shader) (r : Bool × ℕ × World)
      → ((made_frag w).0 == 0) ≡ false
      → ((made_vert w).0 == 0) ≡ false
      → Compiled (made_frag w).0 (made_vert w).1 r
      → Ensures (Success w) (frag_compiled gl vertfile (with_both w s) r)
  frag-Success w vertfile s (false, frag, w3) some_frag some_vert h =
      λ e. absurd (true-ne-false (sym e))
  frag-Success w vertfile s (true, frag, w3) some_frag some_vert h =
      let (same_frag, kept) = h refl in
      Ensures-bind (Compiled (made_vert w).0 w3) (Success w)
        (compile_shader_file gl (made_vert w).0 vertfile w3) _
        (compile_shader_file-Compiled (made_vert w).0 vertfile w3)
        (λ r2 h2.
          vert-Success w (record (with_both w s) { frag = frag }) r2 same_frag refl some_frag
            some_vert (λ e. ((h2 e).0, λ m. (h2 e).1 m ∙ kept m)))

  load_shader-Success :
      (fragfile vertfile : List ℕ) (s : Shader) (w : World)
      → Ensures (Success w) (load_shader gl fragfile vertfile s w)
  unfolding load_shader
  load_shader-Success fragfile vertfile s w =
      elim (Bool-cases (((made_frag w).0 == 0) || ((made_vert w).0 == 0))) [
        | inl null ↦ rw null (λ e. absurd (true-ne-false (sym e)))
        | inr both ↦ rw both (
            Ensures-bind (Compiled (made_frag w).0 (made_vert w).1) (Success w)
              (compile_shader_file gl (made_frag w).0 fragfile (made_vert w).1)
              (frag_compiled gl vertfile (with_both w s))
              (compile_shader_file-Compiled (made_frag w).0 fragfile (made_vert w).1)
              (λ r h. frag-Success w vertfile s r (or-left _ _ both) (or-right _ _ both) h))
      ]

  abbrev Constructed : World → (Shader × World) ⊎ World → Type 0
  Constructed w (inl (s, w')) = Loaded gl objects w s w'
  Constructed w (inr w') = Unit

  constructed-Constructed :
      (w : World) (r : Bool × Shader × World) → Success w r → Constructed w (constructed gl r)
  constructed-Constructed w (true, s, w') h = h refl
  constructed-Constructed w (false, s, w') h = tt

  pub new_shader-Loaded :
      (fragfile vertfile : List ℕ) (w w' : World) (s : Shader)
      → new_shader gl fragfile vertfile w ≡ done (inl (s, w'))
      → Loaded gl objects w s w'
  unfolding new_shader
  new_shader-Loaded fragfile vertfile w w' s e = subst (Ensures (Constructed w)) e (
      Ensures-bind (Success w) (Constructed w) (load_shader gl fragfile vertfile _ w) _
        (load_shader-Success fragfile vertfile _ w) (λ r h. constructed-Constructed w r h))

  -- A shader whose constructor returns, and then its destructor: of the shaders and programs of OpenGL
  -- there are the same as before the constructor, where what OpenGL makes is new or 0, and only
  -- making and deleting an object changes which there are.
  pub destroy_shader-new_shader :
      (fragfile vertfile : List ℕ) (w w' : World) (s : Shader) (m : ℕ)
      → new_shader gl fragfile vertfile w ≡ done (inl (s, w'))
      → held (destroy_shader gl s w') m ≡ held w m
  destroy_shader-new_shader fragfile vertfile w w' s m e =
      destroyed gl objects s w w' m (new_shader-Loaded fragfile vertfile w w' s e)
