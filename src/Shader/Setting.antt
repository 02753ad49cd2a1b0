-- ===== src/Shader/Setting.antt =====
-- Setting uniforms leaves the objects of a shader as they are (client/Shader.cpp).
use legendofstealth.Shader.Handles.{Objects, Loaded}
use legendofstealth.Shader.Uniforms.{
  is_length, set_uniform_xi, set_uniform_xf, get_uniform_location,
}
use legendofstealth.Shader.{Shader, OpenGl}
use legendofstealth.Prelude.Int.{ℤ}
use legendofstealth.Prelude.{sym, inr, ◌∙◌, true, inl, ◌==◌, Option-cases, ap, List, ◌≡◌, ℕ, refl}

-- Choosing a program and setting a uniform makes and deletes no object.
pub record IsUntouched (gl : OpenGl) (objects : Objects gl) : Type 0 where
  pub on_use :
      (p : ℕ) (w : OpenGl.World gl) (m : ℕ)
      → Objects.held objects (OpenGl.use_program gl p w) m ≡ Objects.held objects w m
  pub on_set_i :
      (loc : ℤ) (arr : List ℤ) (w : OpenGl.World gl) (m : ℕ)
      → Objects.held objects (OpenGl.uniform_i gl loc arr w) m ≡ Objects.held objects w m
  pub on_set_f :
      (loc : ℤ) (arr : List (OpenGl.GlFloat gl)) (w : OpenGl.World gl) (m : ℕ)
      → Objects.held objects (OpenGl.uniform_f gl loc arr w) m ≡ Objects.held objects w m

module _ (gl : OpenGl) (objects : Objects gl) (untouched : IsUntouched gl objects) where
  open gl use {World, GlFloat, use_program}
  open objects use {held}

  -- Only locations and the world change, and the world has the same objects.
  kept :
      (w w' w'' : World) (s s' : Shader)
      → (s'.vert ≡ s.vert) × (s'.frag ≡ s.frag) × (s'.prog ≡ s.prog)
      → ((m : ℕ) → held w'' m ≡ held w' m)
      → Loaded gl objects w s w'
      → Loaded gl objects w s' w''
  kept w w' w'' s s' (v, f, p) same l = record {
    some_vert = ap (λ n. n == 0) v ∙ l.some_vert;
    some_frag = ap (λ n. n == 0) f ∙ l.some_frag;
    some_prog = ap (λ n. n == 0) p ∙ l.some_prog;
    new_vert = ap (held w) v ∙ l.new_vert;
    new_frag = ap (held w) f ∙ l.new_frag;
    new_prog = ap (held w) p ∙ l.new_prog;
    others = λ m dv df dp.
        same m
        ∙ l.others m (ap (λ n. n == m) (sym v) ∙ dv) (ap (λ n. n == m) (sym f) ∙ df)
            (ap (λ n. n == m) (sym p) ∙ dp);
  }

  handles :
      (name : List ℕ) (s : Shader) (w : World)
      → ((get_uniform_location gl name s w).1.vert ≡ s.vert)
        × ((get_uniform_location gl name s w).1.frag ≡ s.frag)
        × ((get_uniform_location gl name s w).1.prog ≡ s.prog)
  unfolding get_uniform_location
  handles name s w = elim (Option-cases (s.uniform_id name)) [
    | inl missing ↦ rw missing (refl, refl, refl)
    | inr there ↦ rw there.1 (refl, refl, refl)
  ]

  pub set_uniform_xi-Loaded :
      (name : List ℕ) (len : ℕ) (arr : List ℤ) (s : Shader) (w w' : World)
      → is_length gl len ≡ true
      → Loaded gl objects w s w'
      → Loaded gl objects w
          (set_uniform_xi gl name len arr s w').0
          (set_uniform_xi gl name len arr s w').1
  unfolding set_uniform_xi
  set_uniform_xi-Loaded name len arr s w w' right l = rw right (
      kept w w' _ s _ (handles name s (use_program s.prog w'))
        (λ m. untouched.on_use 0 _ m ∙ (untouched.on_set_i _ _ _ m ∙ untouched.on_use s.prog w' m))
        l)

  pub set_uniform_xf-Loaded :
      (name : List ℕ) (len : ℕ) (arr : List GlFloat) (s : Shader) (w w' : World)
      → is_length gl len ≡ true
      → Loaded gl objects w s w'
      → Loaded gl objects w
          (set_uniform_xf gl name len arr s w').0
          (set_uniform_xf gl name len arr s w').1
  unfolding set_uniform_xf
  set_uniform_xf-Loaded name len arr s w w' right l = rw right (
      kept w w' _ s _ (handles name s (use_program s.prog w'))
        (λ m. untouched.on_use 0 _ m ∙ (untouched.on_set_f _ _ _ m ∙ untouched.on_use s.prog w' m))
        l)
