-- ===== src/Shader/Locations.antt =====
-- The locations that Shader keeps are those of OpenGL (client/Shader.cpp).
use legendofstealth.Prelude.Int.{ℤ}
use legendofstealth.Shader.Uniforms.{
  is_length, set_uniform_xf, set_uniform_xi, disable, with_location, enable, same_name,
  get_uniform_location,
}
use legendofstealth.Shader.{Shader, OpenGl}
use mathlib.Core.Option.{some_inj, none-ne-some}
use legendofstealth.Prelude.{
  false, take, true-ne-false, ==_iff, ap, ap₂, if◌then◌else◌, sym, ◌==◌, Bool, ◌∙◌, none,
  Bool-cases, [], ◌∷◌, inr, inl, Option-cases, some, true, ◌≡◌, List, ℕ, refl,
}

-- What is relied on of OpenGL: choosing a program and setting uniforms does not move uniforms.
pub record IsFixed (gl : OpenGl) : Type 0 where
  pub on_use :
      (prog p : ℕ) (name : List ℕ) (w : OpenGl.World gl)
      → OpenGl.uniform_location gl prog name (OpenGl.use_program gl p w)
        ≡ OpenGl.uniform_location gl prog name w
  pub on_set_i :
      (prog : ℕ) (name : List ℕ) (loc : ℤ) (arr : List ℤ) (w : OpenGl.World gl)
      → OpenGl.uniform_location gl prog name (OpenGl.uniform_i gl loc arr w)
        ≡ OpenGl.uniform_location gl prog name w
  pub on_set_f :
      (prog : ℕ) (name : List ℕ) (loc : ℤ) (arr : List (OpenGl.GlFloat gl)) (w : OpenGl.World gl)
      → OpenGl.uniform_location gl prog name (OpenGl.uniform_f gl loc arr w)
        ≡ OpenGl.uniform_location gl prog name w

same_name-eq : (as1 bs : List ℕ) → same_name as1 bs ≡ true → as1 ≡ bs
same_name-eq [] [] e = refl
same_name-eq [] (b ∷ bs) e = cc
same_name-eq (a ∷ as1) [] e = cc
same_name-eq (a ∷ as1) (b ∷ bs) e = elim (Bool-cases (a == b)) [
  | inl same ↦ ap₂ (λ x xs. x ∷ xs) ((==_iff a b).0 same) (same_name-eq as1 bs (rw same at e))
  | inr other ↦ absurd (true-ne-false (sym (rw other at e)))
]

module _ (gl : OpenGl) where
  open gl use {World, GlFloat, uniform_location, use_program, uniform_i, uniform_f}

  -- The locations that are kept are right.
  abbrev IsKept : Shader → World → Type 0
  IsKept s w =
      (name : List ℕ) (loc : ℤ)
      → s.uniform_id name ≡ some loc
      → loc ≡ uniform_location s.prog name w

  new_location :
      (name : List ℕ) (s : Shader) (w : World)
      → IsKept s w
      → s.uniform_id name ≡ none
      → (other : List ℕ) (loc : ℤ)
      → with_location s.uniform_id name (uniform_location s.prog name w) other ≡ some loc
      → loc ≡ uniform_location s.prog other w
  new_location name s w h missing other loc e = elim (Bool-cases (same_name name other)) [
    | inl same ↦
        sym (some_inj.0 (rw same at e))
        ∙ ap (λ n. uniform_location s.prog n w) (same_name-eq name other same)
    | inr differs ↦ h other loc (rw differs at e)
  ]

  IsKept-get :
      (name : List ℕ) (s : Shader) (w : World)
      → IsKept s w
      → ((get_uniform_location gl name s w).0 ≡ uniform_location s.prog name w)
        × ((get_uniform_location gl name s w).1.prog ≡ s.prog)
        × IsKept (get_uniform_location gl name s w).1 w
  unfolding get_uniform_location
  IsKept-get name s w h = elim (Option-cases (s.uniform_id name)) [
    | inl missing ↦ rw missing (refl, refl, new_location name s w h missing)
    | inr (loc, known) ↦ rw known (h name loc known, refl, h)
  ]

  IsKept-on :
      (s : Shader) (w w' : World)
      → ((name : List ℕ) → uniform_location s.prog name w' ≡ uniform_location s.prog name w)
      → IsKept s w
      → IsKept s w'
  IsKept-on s w w' same h name loc e = h name loc e ∙ sym (same name)

  -- What the calls of the class make of a shader that has just been made.
  pub data Used : Shader → World → Type 0 where
    made : (s : Shader) (w : World) → ((name : List ℕ) → s.uniform_id name ≡ none) → Used s w
    enabled : {s : Shader} {w : World} → Used s w → Used s (enable gl s w)
    disabled : {s : Shader} {w : World} → Used s w → Used s (disable gl w)
    asked :
        {s : Shader} {w : World} (name : List ℕ)
        → Used s w
        → Used (get_uniform_location gl name s w).1 w
    set_i :
        {s : Shader} {w : World} (name : List ℕ) (len : ℕ) (arr : List ℤ)
        → Used s w
        → Used (set_uniform_xi gl name len arr s w).0 (set_uniform_xi gl name len arr s w).1
    set_f :
        {s : Shader} {w : World} (name : List ℕ) (len : ℕ) (arr : List GlFloat)
        → Used s w
        → Used (set_uniform_xf gl name len arr s w).0 (set_uniform_xf gl name len arr s w).1

  module _ (fixed : IsFixed gl) where
    IsKept-use : (s : Shader) (p : ℕ) (w : World) → IsKept s w → IsKept s (use_program p w)
    IsKept-use s p w h = IsKept-on s w (use_program p w) (λ name. fixed.on_use s.prog p name w) h

    -- A setter: it asks for the location, hands something over and unbinds the program.
    IsKept-set :
        (name : List ℕ) (s : Shader) (w : World) (set : World → World) (b : Bool)
        → ((p : ℕ) (n : List ℕ) (v : World) → uniform_location p n (set v) ≡ uniform_location p n v)
        → IsKept s w
        → let w' = use_program s.prog w in
          let r =
            if◌then◌else◌ {A = Shader × World} b
              ((get_uniform_location gl name s w').1, use_program 0 (set w'))
              (s, use_program 0 w') in
          IsKept r.0 r.1
    IsKept-set name s w set false same h = IsKept-use s 0 _ (IsKept-use s s.prog w h)
    IsKept-set name s w set true same h =
        let w' = use_program s.prog w in
        let s' = (get_uniform_location gl name s w').1 in
        IsKept-use s' 0 _ (
          IsKept-on s' w' (set w') (λ n. same s'.prog n w')
            (IsKept-get name s w' (IsKept-use s s.prog w h)).2)

    Used-IsKept : {s : Shader} {w : World} → Used s w → IsKept s w
    unfolding enable disable set_uniform_xi set_uniform_xf
    Used-IsKept (made s w empty) = λ name loc e. absurd (none-ne-some loc (sym (empty name) ∙ e))
    Used-IsKept (enabled {s = s} {w = w} u) = IsKept-use s s.prog w (Used-IsKept u)
    Used-IsKept (disabled {s = s} {w = w} u) = IsKept-use s 0 w (Used-IsKept u)
    Used-IsKept (asked {s = s} {w = w} name u) = (IsKept-get name s w (Used-IsKept u)).2
    Used-IsKept (set_i {s = s} {w = w} name len arr u) =
        IsKept-set name s w
          (uniform_i (get_uniform_location gl name s (use_program s.prog w)).0 (take len arr))
          (is_length gl len) (λ p n v. fixed.on_set_i p n _ _ v) (Used-IsKept u)
    Used-IsKept (set_f {s = s} {w = w} name len arr u) =
        IsKept-set name s w
          (uniform_f (get_uniform_location gl name s (use_program s.prog w)).0 (take len arr))
          (is_length gl len) (λ p n v. fixed.on_set_f p n _ _ v) (Used-IsKept u)

  -- GetUniformLocation of a shader that has been used in any way since it was made, with no locations
  -- kept, where using a program and setting uniforms moves none: it returns what OpenGL would.
  pub get_uniform_location-uniform_location :
      (name : List ℕ) {s : Shader} {w : World}
      → IsFixed gl
      → Used s w
      → (get_uniform_location gl name s w).0 ≡ uniform_location s.prog name w
  get_uniform_location-uniform_location name {s} {w} fixed u =
      (IsKept-get name s w (Used-IsKept fixed u)).0
