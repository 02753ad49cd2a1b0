-- ===== src/Level/Boxes.antt =====
-- The box that ShadowCaster::GetAABB finds holds every vertex (client/ShadowCaster.cpp).
use legendofstealth.Level.Drawing.{Rect}
use legendofstealth.Level.Shapes.{
  point_box, get_aabb, widest, lowest, Vec2, Reals, Owner, ShadowCaster,
}
use legendofstealth.Prelude.{
  subst, [], done, ap, ◌∷◌, ◌∙◌, sym, inr, true-ne-false, inl, Bool-cases, true, All, false,
  if◌then◌else◌, List, ◌≡◌, refl,
}

-- What is relied on of the comparison of floats; it holds of numbers and of NaN.
pub record IsOrder {A : Type 0} (reals : Reals A) : Type 0 where
  pub irreflexive : (a : A) → Reals.less reals a a ≡ false
  pub transitive :
      (a b c : A)
      → Reals.less reals a b ≡ true
      → Reals.less reals b c ≡ true
      → Reals.less reals a c ≡ true

module _ {A : Type 0} (reals : Reals A) where
  open reals use {add, sub, less}

  -- Adding the difference of two coordinates gives back the one.
  abbrev pub Exact : A → A → Type 0
  Exact a b = add a (sub b a) ≡ b

  abbrev pub ExactFor : List (Vec2 A) → Vec2 A → Type 0
  ExactFor vs u = All (λ v. Exact u.x v.x) vs × All (λ v. Exact u.y v.y) vs

  -- The vertex is in the box.
  pub record Inside (r : Rect A) (v : Vec2 A) : Type 0 where
    pub left : less v.x r.x ≡ false
    pub below : less v.y r.y ≡ false
    pub right : less (add r.x r.w) v.x ≡ false
    pub above : less (add r.y r.h) v.y ≡ false

  module _ (order : IsOrder reals) where
    -- A bound that has moved over `b` still bounds `a`.
    less_than : (a b c : A) → less a c ≡ false → less b c ≡ true → less a b ≡ false
    less_than a b c low lower = elim (Bool-cases (less a b)) [
      | inl e ↦ absurd (true-ne-false (sym (order.transitive a b c e lower) ∙ low))
      | inr e ↦ e
    ]

    greater_than : (a b c : A) → less c a ≡ false → less c b ≡ true → less b a ≡ false
    greater_than a b c high higher = elim (Bool-cases (less b a)) [
      | inl e ↦ absurd (true-ne-false (sym (order.transitive c b a higher e) ∙ high))
      | inr e ↦ e
    ]

    abbrev lower : A → A → A
    lower a b = if less a b then a else b

    lower-old : (u a b : A) → less u b ≡ false → less u (lower a b) ≡ false
    lower-old u a b low = elim (Bool-cases (less a b)) [
      | inl e ↦ rw e (less_than u a b low e)
      | inr e ↦ rw e low
    ]

    lower-new : (a b : A) → less a (lower a b) ≡ false
    lower-new a b = elim (Bool-cases (less a b)) [
      | inl e ↦ rw e (order.irreflexive a)
      | inr e ↦ rw e e
    ]

    abbrev wider : A → A → A → A
    wider x w a = if less (add x w) a then sub a x else w

    wider-old :
        (x w u a : A) → Exact x a → less (add x w) u ≡ false → less (add x (wider x w a)) u ≡ false
    wider-old x w u a exact high = elim (Bool-cases (less (add x w) a)) [
      | inl e ↦ rw (e, exact) (greater_than u a (add x w) high e)
      | inr e ↦ rw e high
    ]

    wider-new : (x w a : A) → Exact x a → less (add x (wider x w a)) a ≡ false
    wider-new x w a exact = elim (Bool-cases (less (add x w) a)) [
      | inl e ↦ rw (e, exact) (order.irreflexive a)
      | inr e ↦ rw e e
    ]

    lower-all : (P : A → Type 0) (a b : A) → P a → P b → P (lower a b)
    lower-all P a b p q = elim (Bool-cases (less a b)) [ inl e ↦ rw e p | inr e ↦ rw e q ]

    abbrev lowered : Vec2 A → Rect A → Rect A
    lowered v r = record r { x = lower v.x r.x; y = lower v.y r.y }

    abbrev widened : Vec2 A → Rect A → Rect A
    widened v r = record r { w = wider r.x r.w v.x; h = wider r.y r.h v.y }

    abbrev corner : Rect A → Vec2 A
    corner r = record { x = r.x; y = r.y }

    abbrev AtLeast : Rect A → Vec2 A → Type 0
    AtLeast r v = (less v.x r.x ≡ false) × (less v.y r.y ≡ false)

    abbrev AtMost : Rect A → Vec2 A → Type 0
    AtMost r v = (less (add r.x r.w) v.x ≡ false) × (less (add r.y r.h) v.y ≡ false)

    lowest-old :
        (vs : List (Vec2 A)) (r : Rect A) (u : Vec2 A) → AtLeast r u → AtLeast (lowest reals vs r) u
    unfolding lowest
    lowest-old [] r u h = h
    lowest-old (v ∷ vs) r u h =
        lowest-old vs (lowered v r) u (lower-old u.x v.x r.x h.0, lower-old u.y v.y r.y h.1)

    lowest-new : (vs : List (Vec2 A)) (r : Rect A) → All (AtLeast (lowest reals vs r)) vs
    unfolding lowest
    lowest-new [] r = tt
    lowest-new (v ∷ vs) r = (
      lowest-old vs (lowered v r) v (lower-new v.x r.x, lower-new v.y r.y),
      lowest-new vs (lowered v r),
    )

    lowest-Exact :
        (all vs : List (Vec2 A)) (r : Rect A)
        → All (ExactFor all) vs
        → ExactFor all (corner r)
        → ExactFor all (corner (lowest reals vs r))
    unfolding lowest
    lowest-Exact all [] r each h = h
    lowest-Exact all (v ∷ vs) r each h = lowest-Exact all vs (lowered v r) each.1 (
      lower-all (λ a. All (λ u. Exact a u.x) all) v.x r.x each.0.0 h.0,
      lower-all (λ a. All (λ u. Exact a u.y) all) v.y r.y each.0.1 h.1,
    )

    widest-corner : (vs : List (Vec2 A)) (r : Rect A) → corner (widest reals vs r) ≡ corner r
    unfolding widest
    widest-corner [] r = refl
    widest-corner (v ∷ vs) r = widest-corner vs (widened v r)

    widest-old :
        (vs : List (Vec2 A)) (r : Rect A) (u : Vec2 A)
        → ExactFor vs (corner r)
        → AtMost r u
        → AtMost (widest reals vs r) u
    unfolding widest
    widest-old [] r u exact h = h
    widest-old (v ∷ vs) r u exact h =
        widest-old vs (widened v r) u (exact.0.1, exact.1.1)
          (wider-old r.x r.w u.x v.x exact.0.0 h.0, wider-old r.y r.h u.y v.y exact.1.0 h.1)

    widest-new :
        (vs : List (Vec2 A)) (r : Rect A)
        → ExactFor vs (corner r)
        → All (AtMost (widest reals vs r)) vs
    unfolding widest
    widest-new [] r exact = tt
    widest-new (v ∷ vs) r exact = (
      widest-old vs (widened v r) v (exact.0.1, exact.1.1)
          (wider-new r.x r.w v.x exact.0.0, wider-new r.y r.h v.y exact.1.0),
      widest-new vs (widened v r) (exact.0.1, exact.1.1),
    )

    Inside-all :
        (vs : List (Vec2 A)) (low r : Rect A)
        → corner r ≡ corner low
        → All (AtLeast low) vs
        → All (AtMost r) vs
        → All (Inside r) vs
    Inside-all [] low r same a b = tt
    Inside-all (v ∷ vs) low r same a b = (
      record {
        left = rw (ap (λ (c : Vec2 A). c.x) same) a.0.0;
        below = rw (ap (λ (c : Vec2 A). c.y) same) a.0.1;
        right = b.0.0;
        above = b.0.1;
      },
      Inside-all vs low r same a.1 b.1,
    )

  -- GetAABB of a shadow caster with a vertex, where `<` is irreflexive and transitive, and where adding
  -- the difference of the coordinates of two of its vertices to the one gives the other: it returns
  -- a box that holds every local vertex, moved by the position of the game object.
  pub get_aabb-Inside :
      (owner : Owner A) (c : ShadowCaster A) (v : Vec2 A) (vs : List (Vec2 A))
      → IsOrder reals
      → c.local_verts ≡ v ∷ vs
      → All (ExactFor (v ∷ vs)) (v ∷ vs)
      → (r : Rect A) × (get_aabb reals owner c
          ≡ done
              (record r { x = add r.x owner.world_position.x; y = add r.y owner.world_position.y }))
        × All (Inside r) c.local_verts
  unfolding get_aabb
  get_aabb-Inside owner c v vs order e exact =
      let start = point_box reals v in
      let low = lowest reals vs start in
      let low_exact = lowest-Exact order (v ∷ vs) vs start exact.1 exact.0 in
      let r = widest reals (v ∷ vs) low in
      (
        r,
        rw e refl,
        subst (All (Inside r)) (sym e) (
            Inside-all order (v ∷ vs) low r (widest-corner order (v ∷ vs) low)
              (
                lowest-old order vs start v (order.irreflexive v.x, order.irreflexive v.y),
                lowest-new order vs start,
              )
              (widest-new order (v ∷ vs) low low_exact)),
      )
