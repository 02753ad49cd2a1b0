-- ===== src/Level/Quads.antt =====
-- The quads of the shadows that ShadowLayer::GetShadowVertices pushes (client/ShadowLayer.cpp).
use legendofstealth.Level.Shapes.{Vec2, Reals}
use legendofstealth.Level.Shadows.{quad_of, vertex_at, quad_at, push_quads}
use native.Mathlib.Nat.{mod_self, mod-eq_of_lt}
use legendofstealth.Prelude.{
  arith, subst, ◌*◌, append_assoc, suc, length-append, ◌∙◌, get_elem?-append, ◌+◌, ◌>>=◌,
  append-nil, sym, ap, get_elem?-lt, done, ◌++◌, length, some, [], ◌≡◌, get_elem?, ◌∷◌, List, ℕ,
  refl,
}

module _ {A : Type 0} (reals : Reals A) where
  -- The quads over the edges of a path, whose last edge goes to `first`.
  abbrev pub quads_to : Vec2 A → List (Vec2 A) → Vec2 A → List (Vec2 A)
  quads_to p [] first = []
  quads_to p (v ∷ vs) first = elim vs [
    | [] ↦ quad_of reals p v first
    | ◌∷◌ u us ↦ quad_of reals p v u ++ quads_to p vs first
  ]

  -- The quads over the edges of a closed shape.
  abbrev pub quads : Vec2 A → List (Vec2 A) → List (Vec2 A)
  quads p [] = []
  quads p (v ∷ vs) = quads_to p (v ∷ vs) v

  vertex_in :
      (shape : List (Vec2 A)) (i : ℕ) (v : Vec2 A)
      → get_elem? shape i ≡ some v
      → vertex_at reals shape i ≡ done v
  vertex_in shape i v e = rw (mod-eq_of_lt (get_elem?-lt shape i v e), e) refl

  vertex_wraps :
      (shape : List (Vec2 A)) (i : ℕ) (v : Vec2 A)
      → i ≡ length shape
      → get_elem? shape 0 ≡ some v
      → vertex_at reals shape i ≡ done v
  vertex_wraps shape i v last e = rw (last, mod_self (length shape), e) refl

  -- One round, where the vertices are known.
  one_quad :
      (left : ℕ) (shape : List (Vec2 A)) (p v0 v1 : Vec2 A) (j : ℕ) (shadow : List (Vec2 A))
      → vertex_at reals shape j ≡ done v0
      → vertex_at reals shape (j + 1) ≡ done v1
      → push_quads reals (suc left) shape p j shadow
        ≡ push_quads reals left shape p (j + 1) (shadow ++ quad_of reals p v0 v1)
  unfolding push_quads
  one_quad left shape p v0 v1 j shadow a b =
      ap (λ o. o >>= λ quad. push_quads reals left shape p (j + 1) (shadow ++ quad)) quad
    where
      quad : quad_at reals shape p j ≡ done (quad_of reals p v0 v1)
      quad = rw (a, b) refl

  -- The loop from the vertex behind `passed` on.
  push_quads-rest :
      (passed todo : List (Vec2 A)) (first p : Vec2 A) (shadow : List (Vec2 A))
      → get_elem? (passed ++ todo) 0 ≡ some first
      → push_quads reals (length todo) (passed ++ todo) p (length passed) shadow
        ≡ done (shadow ++ quads_to p todo first)
  unfolding push_quads
  push_quads-rest passed [] first p shadow e = ap done (sym (append-nil shadow))
  push_quads-rest passed (v ∷ []) first p shadow e =
      one_quad 0 (passed ++ v ∷ []) p v first (length passed) shadow
        (vertex_in (passed ++ v ∷ []) (length passed) v (get_elem?-append passed [] v))
        (vertex_wraps (passed ++ v ∷ []) (length passed + 1) first
          (sym (length-append passed (v ∷ []))) e)
  push_quads-rest passed (v ∷ u ∷ us) first p shadow e =
      one_quad (suc (length us)) (passed ++ v ∷ u ∷ us) p v u (length passed) shadow
        (vertex_in (passed ++ v ∷ u ∷ us) (length passed) v (get_elem?-append passed (u ∷ us) v))
        (vertex_in (passed ++ v ∷ u ∷ us) (length passed + 1) u next)
      ∙ subst
          (λ (s : List (Vec2 A) × ℕ).
            push_quads reals (suc (length us)) s.0 p s.1 shadow'
            ≡ done (shadow' ++ quads_to p (u ∷ us) first))
          here
          (push_quads-rest (passed ++ v ∷ []) (u ∷ us) first p shadow'
            (subst (λ s. get_elem? s 0 ≡ some first) (sym assoc) e))
      ∙ ap done (append_assoc shadow (quad_of reals p v u) (quads_to p (u ∷ us) first))
    where
      shadow' : List (Vec2 A)
      shadow' = shadow ++ quad_of reals p v u

      assoc : (passed ++ v ∷ []) ++ (u ∷ us) ≡ passed ++ v ∷ u ∷ us
      assoc = append_assoc passed (v ∷ []) (u ∷ us)

      len : length (passed ++ v ∷ []) ≡ length passed + 1
      len = length-append passed (v ∷ [])

      here :
          ◌≡◌ {A = List (Vec2 A) × ℕ}
            ((passed ++ v ∷ []) ++ (u ∷ us), length (passed ++ v ∷ []))
            (passed ++ v ∷ u ∷ us, length passed + 1)
      here = rw (assoc, len) refl

      next : get_elem? (passed ++ v ∷ u ∷ us) (length passed + 1) ≡ some u
      next =
          subst (λ (s : List (Vec2 A) × ℕ). get_elem? s.0 s.1 ≡ some u) here
            (get_elem?-append (passed ++ v ∷ []) us u)

  -- The loops of GetShadowVertices over a shape, started with the number of its vertices: they stay
  -- inside the shape and push, behind what is there, the quads over its edges, in which each vertex
  -- goes with the next one and the last with the first.
  pub push_quads-quads :
      (shape : List (Vec2 A)) (p : Vec2 A) (shadow : List (Vec2 A))
      → push_quads reals (length shape) shape p 0 shadow ≡ done (shadow ++ quads p shape)
  unfolding push_quads
  push_quads-quads [] p shadow = ap done (sym (append-nil shadow))
  push_quads-quads (v ∷ vs) p shadow = push_quads-rest [] (v ∷ vs) v p shadow refl

  length-quads_to :
      (p : Vec2 A) (vs : List (Vec2 A)) (first : Vec2 A)
      → length (quads_to p vs first) ≡ 4 * length vs
  length-quads_to p [] first = refl
  length-quads_to p (v ∷ []) first = refl
  length-quads_to p (v ∷ u ∷ us) first = omega (arith, length-quads_to p (u ∷ us) first)

  pub length-quads : (p : Vec2 A) (vs : List (Vec2 A)) → length (quads p vs) ≡ 4 * length vs
  length-quads p [] = refl
  length-quads p (v ∷ vs) = length-quads_to p (v ∷ vs) v
