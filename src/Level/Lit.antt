-- ===== src/Level/Lit.antt =====
-- The lights that a parsed map has (client/MapParser.cpp, client/GameLayer.cpp).
use legendofstealth.Level.Casters.{add_light_source}
use legendofstealth.Level.Lights.{
  new_light_source, create_shared_texture, retain_shared_texture, get_shared_texture,
  is_using_shared_texture, use_shared_texture, set_light_properties, LightSource, Textures,
}
use legendofstealth.Level.Shapes.{Reals}
use legendofstealth.Level.LightLayer.{
  fits, message_length, light_of, parse_ellipse, is_oval, with_light, parse_groups,
  parse_light_layer, add_light, Ellipse, TmxObject, TmxObjectGroup, LightProperties, Scene,
}
use legendofstealth.Prelude.{
  ltb, faults, true-ne-false, ◌>>=◌, false, done, Outcome, ◌&&◌, Bool, ◌<◌, All-append,
  append_assoc, Bool-cases, length-append, append-nil, if◌then◌else◌, Option, ==_self, inr, sym,
  subst, inl, true, ◌∙◌, some, ap, ◌⊎◌, arith, ◌++◌, All, none, ◌+◌, length, ◌≡◌, List, [], ◌∷◌, ℕ,
  refl,
}

-- The addresses of so many light sources.
abbrev pub addresses : {B : Type 0} → ℕ → List B → List ℕ
addresses n [] = []
addresses n (x ∷ xs) = n ∷ addresses (n + 1) xs

-- The shared texture of so many light sources: with none it has not been made, otherwise it is alive.
abbrev pub IsShared : ℕ → Textures → Type 0
IsShared n g =
    ((n ≡ 0) × (g.render_texture ≡ none))
    ⊎ ((a : ℕ) × (0 < n) × (g.render_texture ≡ some a) × (g.live a ≡ true))

-- Every light source stands in the shadow layer once, in the order in which they were made, uses the
-- shared texture and is counted by it.
pub record IsLit {A : Type 0} (s : Scene A) : Type 0 where
  pub paired : length s.properties ≡ length s.sources
  pub listed : s.layer.light_sources ≡ addresses 0 s.sources
  pub counted : s.textures.refs ≡ length s.sources
  pub shared :
      All (λ l. (l.texture ≡ none) × (l.shared_texture ≡ s.textures.render_texture)) s.sources
  pub alive : IsShared (length s.sources) s.textures

addresses-append :
    {B : Type 0} (n : ℕ) (xs : List B) (x : B)
    → addresses n (xs ++ x ∷ []) ≡ addresses n xs ++ (n + length xs) ∷ []
addresses-append n [] x = ap (λ k. k ∷ []) (omega arith)
addresses-append n (y ∷ xs) x =
    ap (λ l. n ∷ l)
      (addresses-append (n + 1) xs x ∙ ap (λ k. addresses (n + 1) xs ++ k ∷ []) (omega arith))

no_sources : {B : Type 0} (xs : List B) → length xs ≡ 0 → xs ≡ []
no_sources [] e = refl
no_sources (x ∷ xs) e = absurd (omega arith)

-- The texture that a new light source uses, and the textures after that.
abbrev Used : {A : Type 0} → Scene A → LightSource × Textures → Type 0
Used s (l, g) =
    (l.texture ≡ none)
    × (l.shared_texture ≡ g.render_texture)
    × (g.refs ≡ s.textures.refs + 1)
    × All (λ k. (k.texture ≡ none) × (k.shared_texture ≡ g.render_texture)) s.sources
    × IsShared (length s.sources + 1) g

module _ {A : Type 0} where
  used : (s : Scene A) → IsLit s → Used s (set_light_properties new_light_source s.textures)
  unfolding set_light_properties use_shared_texture is_using_shared_texture get_shared_texture
      retain_shared_texture create_shared_texture new_light_source
  used s v = elim v.alive [
    | inl (empty, missing) ↦ rw missing (
      refl,
      refl,
      refl,
      subst (All _) (sym (no_sources s.sources empty)) tt,
      inr (s.textures.next_texture, omega arith, refl, rw (==_self s.textures.next_texture) refl),
    )
    | inr (a, some_users, there, live) ↦ rw there (
      refl,
      refl,
      refl,
      subst (λ t. All (λ k. (k.texture ≡ none) × (k.shared_texture ≡ t)) s.sources) there v.shared,
      inr (a, omega arith, refl, live),
    )
  ]

  with_light-IsLit :
      (props : LightProperties A) (s : Scene A) (r : LightSource × Textures)
      → IsLit s
      → Used s r
      → IsLit (with_light props s r)
  unfolding add_light_source
  with_light-IsLit props s (l, g) v (bare, shares, count, others, alive) = record {
    paired =
        length-append s.properties (props ∷ [])
        ∙ ap (λ n. n + 1) v.paired
        ∙ sym (length-append s.sources (l ∷ []));
    listed =
        ap (λ ns. ns ++ length s.sources ∷ []) v.listed
        ∙ sym (
            addresses-append 0 s.sources l
            ∙ ap (λ n. addresses 0 s.sources ++ n ∷ []) (omega arith));
    counted = omega (arith, count, v.counted, length-append s.sources (l ∷ []));
    shared = All-append _ s.sources (l ∷ []) others ((bare, shares), tt);
    alive = subst (λ n. IsShared n g) (sym (length-append s.sources (l ∷ []))) alive;
  }

module _ {A : Type 0} (reals : Reals A) (digits : A → ℕ) (height tile_height : ℕ) where
  -- The lights of a list of objects: those that are round ellipses.
  abbrev pub light_in : Option (Ellipse A) → TmxObject A → List (LightProperties A)
  light_in none o = []
  light_in (some e) o =
      if is_oval reals digits height tile_height e
      then []
      else light_of reals digits height tile_height e o ∷ []

  abbrev pub lights_in : List (TmxObject A) → List (LightProperties A)
  lights_in [] = []
  lights_in (o ∷ objects) = light_in o.ellipse o ++ lights_in objects

  abbrev pub all_lights : List (TmxObjectGroup A) → List (LightProperties A)
  all_lights [] = []
  all_lights (group ∷ groups) =
      if group.is_lights then lights_in group.objects ++ all_lights groups else all_lights groups

  -- Whether the messages of all lights are shorter than 256, so that there is room for the 0 behind
  -- them.
  abbrev pub all_fit : List (LightProperties A) → Bool
  all_fit [] = true
  all_fit (props ∷ lights) = ltb (message_length digits props) 256 && all_fit lights

  all_fit-append :
      (ps qs : List (LightProperties A)) → all_fit (ps ++ qs) ≡ (all_fit ps && all_fit qs)
  all_fit-append [] qs = refl
  all_fit-append (p ∷ ps) qs =
      ap (λ b. ltb (message_length digits p) 256 && b) (all_fit-append ps qs)
      ∙ and_assoc (ltb (message_length digits p) 256) (all_fit ps) (all_fit qs)
    where
      and_assoc : (a b c : Bool) → (a && (b && c)) ≡ ((a && b) && c)
      and_assoc true b c = refl
      and_assoc false b c = refl

  -- What comes of adding lights to a scene in which every light source stands in the shadow layer
  -- once, in the order in which they were made, uses the shared texture and is counted by it: where
  -- all their messages fit, a scene of that kind with these lights behind the others, and otherwise a
  -- fault.
  abbrev pub Added : Scene A → List (LightProperties A) → Outcome (Scene A) → Type 0
  Added s lights o =
      ((all_fit lights ≡ true)
        × (s' : Scene A) × (o ≡ done s')
        × IsLit s'
        × (s'.properties ≡ s.properties ++ lights))
      ⊎ ((all_fit lights ≡ false) × (o ≡ faults))

  Added-nil : (s : Scene A) → IsLit s → Added s [] (done s)
  Added-nil s v = inl (refl, s, refl, v, sym (append-nil s.properties))

  Added-bind :
      (s : Scene A) (ps qs : List (LightProperties A)) (o : Outcome (Scene A))
      (f : Scene A → Outcome (Scene A))
      → Added s ps o
      → ((s' : Scene A) → IsLit s' → Added s' qs (f s'))
      → Added s (ps ++ qs) (o >>= f)
  Added-bind s ps qs o f (inl (fit, s', e, v, has)) k = elim (k s' v) [
    | inl (fit', s'', e', v', has') ↦ inl (
      all_fit-append ps qs ∙ rw (fit, fit') refl,
      s'',
      rw e e',
      v',
      has' ∙ ap (λ l. l ++ qs) has ∙ append_assoc s.properties ps qs,
    )
    | inr (long, e') ↦ inr (all_fit-append ps qs ∙ rw (fit, long) refl, rw e e')
  ]
  Added-bind s ps qs o f (inr (long, e)) k = inr (all_fit-append ps qs ∙ rw long refl, rw e refl)

  add_light-Added :
      (o : TmxObject A) (e : Option (Ellipse A)) (s : Scene A)
      → IsLit s
      → Added s (light_in e o) (parse_ellipse reals digits height tile_height e o s)
  unfolding add_light fits
  add_light-Added o none s v = Added-nil s v
  add_light-Added o (some e) s v = elim (Bool-cases (is_oval reals digits height tile_height e)) [
    | inl oval ↦ rw oval (Added-nil s v)
    | inr round ↦
        elim (Bool-cases
          (ltb (message_length digits (light_of reals digits height tile_height e o)) 256)) [
            | inl fit ↦
                rw (round, fit)
                  (inl (
                    refl,
                    _,
                    refl,
                    with_light-IsLit (light_of reals digits height tile_height e o) s _ v
                        (used s v),
                    refl,
                  ))
            | inr long ↦ rw (round, long) (inr (refl, refl))
          ]
  ]

  parse_light_layer-Added :
      (objects : List (TmxObject A)) (s : Scene A)
      → IsLit s
      → Added s (lights_in objects) (parse_light_layer reals digits height tile_height objects s)
  unfolding parse_light_layer
  parse_light_layer-Added [] s v = Added-nil s v
  parse_light_layer-Added (o ∷ objects) s v =
      Added-bind s (light_in o.ellipse o) (lights_in objects)
        (parse_ellipse reals digits height tile_height o.ellipse o s)
        (parse_light_layer reals digits height tile_height objects)
        (add_light-Added o o.ellipse s v) (λ s' v'. parse_light_layer-Added objects s' v')

  -- The loop of ParseMap over the object groups, from a scene in which every light source stands in the
  -- shadow layer once, in the order in which they were made, uses the shared texture and is counted by
  -- it. The lights are those of the groups named lights: the ellipses among their objects that are
  -- round, in their order. Either the messages that AddLight prints of them all fit into 256 bytes,
  -- and the loop returns, the scene is such a one again, and these lights are behind those that were
  -- there; or one does not, and AddLight writes beyond its array.
  pub parse_groups-Added :
      (groups : List (TmxObjectGroup A)) (s : Scene A)
      → IsLit s
      → Added s (all_lights groups) (parse_groups reals digits height tile_height groups s)
  unfolding parse_groups
  parse_groups-Added [] s v = Added-nil s v
  parse_groups-Added (group ∷ groups) s v = elim (Bool-cases group.is_lights) [
    | inl lit ↦ rw lit (
        Added-bind s (lights_in group.objects) (all_lights groups)
          (parse_light_layer reals digits height tile_height group.objects s)
          (parse_groups reals digits height tile_height groups)
          (parse_light_layer-Added group.objects s v) (λ s' v'. parse_groups-Added groups s' v'))
    | inr dark ↦ rw dark (parse_groups-Added groups s v)
  ]

  -- Where the messages fit.
  pub parse_groups-IsLit :
      (groups : List (TmxObjectGroup A)) (s : Scene A)
      → IsLit s
      → all_fit (all_lights groups) ≡ true
      → (s' : Scene A) × (parse_groups reals digits height tile_height groups s ≡ done s')
        × IsLit s'
        × (s'.properties ≡ s.properties ++ all_lights groups)
  parse_groups-IsLit groups s v fit = elim (parse_groups-Added groups s v) [
    | inl (_, s', e, v', has) ↦ (s', e, v', has)
    | inr (long, e) ↦ absurd (true-ne-false (sym fit ∙ long))
  ]
