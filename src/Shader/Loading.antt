-- ===== src/Shader/Loading.antt =====
-- Shader::Shader, LoadShader, CompileShader, LinkProgram and ~Shader (client/Shader.cpp).
use legendofstealth.Shader.{Shader, OpenGl, fragment_shader, vertex_shader, get_shader_source}
use legendofstealth.Prelude.{
  out_of_fuel, throws, inr, faults, none, inl, ◌||◌, ◌⊎◌, ◌>>=◌, false, ◌==◌, done, true,
  if◌then◌else◌, List, Outcome, Bool, ℕ,
}

module _ (gl : OpenGl) where
  open gl use {
    World, GlFloat, create_shader, create_program, shader_source, compile_shader, compile_status,
    attach_shader, link_program, link_status, delete_shader, delete_program, use_program,
    uniform_location, uniform_i, uniform_f, file_content,
  }

  -- CompileShader(shader, sourcefile): the shader that is left in the member, 0 where it is deleted.
  -- The text of the error is left out.
  abbrev pub compiled : ℕ → World → Bool × ℕ × World
  compiled shader w =
      if compile_status shader w then (true, shader, w) else (false, 0, delete_shader shader w)

  abbrev pub compile_source : ℕ → World → Outcome (List ℕ) → Outcome (Bool × ℕ × World)
  compile_source shader w (done source) =
      done (compiled shader (compile_shader shader (shader_source shader source w)))
  compile_source shader w faults = faults
  compile_source shader w throws = throws
  compile_source shader w out_of_fuel = out_of_fuel

  unfoldable pub compile_shader_file : ℕ → List ℕ → World → Outcome (Bool × ℕ × World)
  compile_shader_file shader sourcefile w =
      compile_source shader w (get_shader_source (file_content sourcefile w))

  -- LinkProgram
  unfoldable pub link : Shader → World → Bool × Shader × World
  link s w =
      let w' = link_program s.prog w in
      let lost = delete_program s.prog (delete_shader s.vert (delete_shader s.frag w')) in
      if s.prog == 0
      then (false, s, w)
      else if link_status s.prog w'
      then (true, s, w')
      else (false, record s { prog = 0; frag = 0; vert = 0 }, lost)

  -- LoadShader(fragfile, vertfile), from the creation of the program on.
  abbrev pub programmed : Shader → ℕ × World → Bool × Shader × World
  programmed s (prog, w) =
      let s' = record s { prog = prog } in
      let attached = link s' (attach_shader prog s.frag (attach_shader prog s.vert w)) in
      if prog == 0 then (false, s', w) else attached

  abbrev pub vert_compiled : Shader → Bool × ℕ × World → Bool × Shader × World
  vert_compiled s (ok, vert, w) =
      let s' = record s { vert = vert } in
      let rest = programmed s' (create_program w) in if ok then rest else (false, s', w)

  abbrev pub frag_compiled : List ℕ → Shader → Bool × ℕ × World → Outcome (Bool × Shader × World)
  frag_compiled vertfile s (ok, frag, w) =
      let s' = record s { frag = frag } in
      let rest = compile_shader_file s.vert vertfile w >>= λ r. done (vert_compiled s' r) in
      if ok then rest else done (false, s', w)

  abbrev pub created : List ℕ → List ℕ → Shader → ℕ × ℕ × World → Outcome (Bool × Shader × World)
  created fragfile vertfile s (frag, vert, w) =
      let s' = record s { frag = frag; vert = vert } in
      let rest = compile_shader_file frag fragfile w >>= frag_compiled vertfile s' in
      if (frag == 0) || (vert == 0) then done (false, s', w) else rest

  abbrev pub create_both : World → ℕ × ℕ × World
  create_both w =
      let (frag, w') = create_shader fragment_shader w in
      let (vert, w'') = create_shader vertex_shader w' in (frag, vert, w'')

  -- LoadShader(fragfile, vertfile)
  unfoldable pub load_shader : List ℕ → List ℕ → Shader → World → Outcome (Bool × Shader × World)
  load_shader fragfile vertfile s w = created fragfile vertfile s (create_both w)

  -- Shader(fragfile, vertfile): where LoadShader fails it throws, and as the object is not complete its
  -- destructor does not run. `inr` is the world that the exception leaves.
  abbrev pub constructed : Bool × Shader × World → (Shader × World) ⊎ World
  constructed (true, s, w) = inl (s, w)
  constructed (false, s, w) = inr w

  unfoldable pub new_shader : List ℕ → List ℕ → World → Outcome ((Shader × World) ⊎ World)
  new_shader fragfile vertfile w =
      load_shader fragfile vertfile
        (record { vert = 0; frag = 0; prog = 0; uniform_id = λ _. none }) w
      >>= λ r. done (constructed r)

  -- ~Shader
  unfoldable pub destroy_shader : Shader → World → World
  destroy_shader s w =
      let w1 = if s.vert == 0 then w else delete_shader s.vert w in
      let w2 = if s.frag == 0 then w1 else delete_shader s.frag w1 in
      if s.prog == 0 then w2 else delete_program s.prog w2
