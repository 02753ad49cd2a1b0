-- ===== src/Level/Casting.antt =====
-- The shadows that ShadowLayer::GetShadowVertices finds (client/ShadowLayer.cpp).
use legendofstealth.Level.Quads.{push_quads-quads, quads}
use legendofstealth.Level.Drawing.{Rect}
use legendofstealth.Level.ShadowShapes.{IsCache, IsStill}
use legendofstealth.Level.Shapes.{
  boxed, get_aabb, is_empty, get_shadow_shape, Vec2, Reals, Owner, ShadowCaster,
}
use legendofstealth.Level.Shadows.{
  get_shadow_vertices, with_caster, shadow_loop, will_light_hit_caster, Light, Casters, light_rect,
}
use legendofstealth.Prelude.{
  ==_iff, subst, append_assoc, ◌==◌, sym, append-nil, true, ap₂, out_of_fuel, throws, ◌>>=◌, faults,
  All, done, Bool, ◌++◌, if◌then◌else◌, Outcome, inr, [], inl, ap, ◌∷◌, Bool-cases, false, List,
  ◌∙◌, ◌≡◌, ℕ, refl,
}
use legendofstealth.Level.Shown.{Alike, Alike-refl, Alike-trans, shown-Alike}

module _ {A : Type 0} (reals : Reals A) where
  open reals use {overlaps}

  -- Whether the square of the light overlaps the box of the shadow caster, if it has one.
  abbrev pub overlapping : Light A → Outcome (Rect A) → Bool
  overlapping light (done r) = overlaps (light_rect reals light) r
  overlapping light faults = false
  overlapping light throws = false
  overlapping light out_of_fuel = false

  abbrev pub shadow_of : Light A → Owner A → ShadowCaster A → List (Vec2 A)
  shadow_of light owner c =
      if overlapping light (get_aabb reals owner c)
      then quads reals light.world_position (get_shadow_shape reals owner c).0
      else []

  abbrev pub all_shadows : (ℕ → Owner A) → Light A → List ℕ → Casters reals → List (Vec2 A)
  all_shadows owners light [] casters = []
  all_shadows owners light (a ∷ rest) casters =
      shadow_of light (owners a) (casters a) ++ all_shadows owners light rest casters

  -- A shadow caster with vertices, whose cache is right.
  abbrev pub IsReady : ShadowCaster A → Type 0
  IsReady c = IsCache reals c × (is_empty reals c.local_verts ≡ false)

  hits :
      (light : Light A) (owner : Owner A) (c : ShadowCaster A)
      → is_empty reals c.local_verts ≡ false
      → will_light_hit_caster reals light owner c
        ≡ done (overlapping light (get_aabb reals owner c))
  unfolding will_light_hit_caster get_aabb
  hits light owner c e = by_verts c.local_verts e
    where
      by_verts :
          (vs : List (Vec2 A))
          → is_empty reals vs ≡ false
          → (boxed reals owner.world_position vs >>= λ r.
              done (overlaps (light_rect reals light) r))
            ≡ done (overlapping light (boxed reals owner.world_position vs))
      by_verts [] e = cc
      by_verts (v ∷ vs) e = refl

  same_shadow :
      (light : Light A) (owner : Owner A) (c d : ShadowCaster A)
      → Alike reals owner c d
      → shadow_of light owner d ≡ shadow_of light owner c
  unfolding get_aabb
  same_shadow light owner c d a =
      ap₂
        (λ vs shape.
          if overlapping light (boxed reals owner.world_position vs)
          then quads reals light.world_position shape
          else [])
        a.local_verts a.shape

  module _ (owners : ℕ → Owner A) (light : Light A) (still : IsStill reals) where
    with_caster-Alike :
        (casters : Casters reals) (a : ℕ)
        → IsReady (casters a)
        → (b : ℕ)
        → Alike reals
            (owners b)
            (casters b)
            (with_caster reals casters a (get_shadow_shape reals (owners a) (casters a)).1 b)
    with_caster-Alike casters a ready b = elim (Bool-cases (a == b)) [
      | inl e ↦ rw e (
          subst
            (λ b.
              Alike reals (owners b) (casters b) (get_shadow_shape reals (owners a) (casters a)).1)
            ((==_iff a b).0 e) (shown-Alike reals (owners a) (casters a) still ready.0 ready.1))
      | inr e ↦ rw e (Alike-refl reals (owners b) (casters b))
    ]

    -- One round, where it is known whether the light hits the shadow caster.
    round_hit :
        (a : ℕ) (rest : List ℕ) (casters : Casters reals) (shadow : List (Vec2 A))
        → is_empty reals (casters a).local_verts ≡ false
        → overlapping light (get_aabb reals (owners a) (casters a)) ≡ true
        → shadow_loop reals owners light (a ∷ rest) casters shadow
          ≡ shadow_loop reals owners light rest
              (with_caster reals casters a (get_shadow_shape reals (owners a) (casters a)).1)
              (shadow ++ shadow_of light (owners a) (casters a))
    unfolding shadow_loop
    round_hit a rest casters shadow some_verts hit =
        rw
          (
            hits light (owners a) (casters a) some_verts,
            hit,
            push_quads-quads reals (get_shadow_shape reals (owners a) (casters a)).0
                light.world_position shadow,
          )
          refl

    round_missed :
        (a : ℕ) (rest : List ℕ) (casters : Casters reals) (shadow : List (Vec2 A))
        → is_empty reals (casters a).local_verts ≡ false
        → overlapping light (get_aabb reals (owners a) (casters a)) ≡ false
        → shadow_loop reals owners light (a ∷ rest) casters shadow
          ≡ shadow_loop reals owners light rest casters
              (shadow ++ shadow_of light (owners a) (casters a))
    unfolding shadow_loop
    round_missed a rest casters shadow some_verts missed =
        rw (hits light (owners a) (casters a) some_verts, missed, append-nil shadow) refl

    -- One round over a shadow caster that is ready, with what follows in the state it leaves.
    round_on :
        (P : Outcome (List (Vec2 A) × Casters reals) → Type 0) (a : ℕ) (rest : List ℕ)
        (start casters : Casters reals) (shadow : List (Vec2 A))
        → IsReady (start a)
        → ((b : ℕ) → Alike reals (owners b) (start b) (casters b))
        → ((next : Casters reals) (shadow' : List (Vec2 A))
            → ((b : ℕ) → Alike reals (owners b) (start b) (next b))
            → shadow' ≡ shadow ++ shadow_of light (owners a) (start a)
            → P (shadow_loop reals owners light rest next shadow'))
        → P (shadow_loop reals owners light (a ∷ rest) casters shadow)
    round_on P a rest start casters shadow ready same k =
        elim (Bool-cases (overlapping light (get_aabb reals (owners a) (casters a)))) [
          | inl hit ↦ subst P (sym (round_hit a rest casters shadow now.1 hit)) (
              k (with_caster reals casters a (get_shadow_shape reals (owners a) (casters a)).1)
                (shadow ++ shadow_of light (owners a) (casters a))
                (λ b. Alike-trans reals (same b) (with_caster-Alike casters a now b)) pushed)
          | inr missed ↦
              subst P (sym (round_missed a rest casters shadow now.1 missed))
                (k casters (shadow ++ shadow_of light (owners a) (casters a)) same pushed)
        ]
      where
        now : IsReady (casters a)
        now = ((same a).cache ready.0, ap (is_empty reals) (same a).local_verts ∙ ready.1)

        pushed :
            shadow ++ shadow_of light (owners a) (casters a)
            ≡ shadow ++ shadow_of light (owners a) (start a)
        pushed = ap (◌++◌ shadow) (same_shadow light (owners a) (start a) (casters a) (same a))

    -- The shadow casters that the loop leaves are still alike.
    abbrev Shadowed :
        Casters reals → List (Vec2 A) → Outcome (List (Vec2 A) × Casters reals) → Type 0
    Shadowed start shadow o =
        (casters' : Casters reals) × (o ≡ done (shadow, casters'))
        × ((b : ℕ) → Alike reals (owners b) (start b) (casters' b))

    pub loop :
        (list : List ℕ) (start casters : Casters reals) (shadow : List (Vec2 A))
        → All (λ a. IsReady (start a)) list
        → ((b : ℕ) → Alike reals (owners b) (start b) (casters b))
        → Shadowed start
            (shadow ++ all_shadows owners light list start)
            (shadow_loop reals owners light list casters shadow)
    unfolding shadow_loop
    loop [] start casters shadow ready same =
        (casters, ap (λ s. done (s, casters)) (sym (append-nil shadow)), same)
    loop (a ∷ rest) start casters shadow ready same =
        round_on (Shadowed start (shadow ++ all_shadows owners light (a ∷ rest) start)) a rest start
          casters shadow ready.0 same
          (λ next shadow' same' e.
            let r = loop rest start next shadow' ready.1 same' in
            (
              r.0,
              r.1
                  ∙ ap (λ s. done (s, r.0))
                      (ap (λ s. s ++ all_shadows owners light rest start) e
                        ∙ append_assoc shadow (shadow_of light (owners a) (start a))
                            (all_shadows owners light rest start)),
              r.2,
            ))

    loop-faults :
        (before : List ℕ) (a : ℕ) (after : List ℕ) (start casters : Casters reals)
        (shadow : List (Vec2 A))
        → All (λ b. IsReady (start b)) before
        → (start a).local_verts ≡ []
        → ((b : ℕ) → Alike reals (owners b) (start b) (casters b))
        → shadow_loop reals owners light (before ++ a ∷ after) casters shadow ≡ faults
    unfolding shadow_loop will_light_hit_caster get_aabb
    loop-faults [] a after start casters shadow ready bare same =
        rw ((same a).local_verts ∙ bare) refl
    loop-faults (b ∷ before) a after start casters shadow ready bare same =
        round_on (λ o. o ≡ faults) b (before ++ a ∷ after) start casters shadow ready.0 same
          (λ next shadow' same' e. loop-faults before a after start next shadow' ready.1 bare same')

  -- GetShadowVertices, for shadow casters that have vertices and whose cache is right, whether or not
  -- one stands in the list twice, where a position is at no distance above 0.001 from itself: it
  -- returns, and the vertices are, for each of the shadow casters whose box overlaps the square of
  -- the light, in their order, the quads over the edges of its shape.
  pub get_shadow_vertices-all_shadows :
      (owners : ℕ → Owner A) (light : Light A) (list : List ℕ) (casters : Casters reals)
      → IsStill reals
      → All (λ a. IsReady (casters a)) list
      → (casters' : Casters reals) × (get_shadow_vertices reals owners light list casters
          ≡ done (all_shadows owners light list casters, casters'))
  unfolding get_shadow_vertices
  get_shadow_vertices-all_shadows owners light list casters still ready =
      let r =
        loop owners light still list casters casters [] ready
          (λ b. Alike-refl reals (owners b) (casters b)) in
      (r.0, r.1)

  -- GetShadowVertices, where behind shadow casters that have vertices and whose cache is right there
  -- stands one without local vertices, on which neither SetShadowRectangle nor GetShadowShape has
  -- been called, and where a position is at no distance above 0.001 from itself: GetAABB reads a
  -- vertex that does not exist, before GetShadowShape could make it.
  pub get_shadow_vertices-faults :
      (owners : ℕ → Owner A) (light : Light A) (before : List ℕ) (a : ℕ) (after : List ℕ)
      (casters : Casters reals)
      → IsStill reals
      → All (λ b. IsReady (casters b)) before
      → (casters a).local_verts ≡ []
      → get_shadow_vertices reals owners light (before ++ a ∷ after) casters ≡ faults
  unfolding get_shadow_vertices
  get_shadow_vertices-faults owners light before a after casters still ready bare =
      loop-faults owners light still before a after casters casters [] ready bare
        (λ b. Alike-refl reals (owners b) (casters b))

  -- The shadows are the same in another state of the shadow casters that is alike.
  pub all_shadows-Alike :
      (owners : ℕ → Owner A) (light : Light A) (list : List ℕ) (casters casters' : Casters reals)
      → ((b : ℕ) → Alike reals (owners b) (casters b) (casters' b))
      → all_shadows owners light list casters' ≡ all_shadows owners light list casters
  all_shadows-Alike owners light [] casters casters' same = refl
  all_shadows-Alike owners light (a ∷ rest) casters casters' same =
      ap₂ ◌++◌ (same_shadow light (owners a) (casters a) (casters' a) (same a))
        (all_shadows-Alike owners light rest casters casters' same)

  pub IsReady-Alike :
      (owners : ℕ → Owner A) (list : List ℕ) (casters casters' : Casters reals)
      → ((b : ℕ) → Alike reals (owners b) (casters b) (casters' b))
      → All (λ a. IsReady (casters a)) list
      → All (λ a. IsReady (casters' a)) list
  IsReady-Alike owners [] casters casters' same ready = tt
  IsReady-Alike owners (a ∷ rest) casters casters' same ready = (
    ((same a).cache ready.0.0, ap (is_empty reals) (same a).local_verts ∙ ready.0.1),
    IsReady-Alike owners rest casters casters' same ready.1,
  )
