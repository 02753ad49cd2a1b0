-- ===== src/Level/Bodies.antt =====
-- What MapLoader::LoadMap makes of the walls that MapParser::ParseWallLayer has parsed
-- (client/MapLoader.cpp, client/MapParser.cpp).
use legendofstealth.Level.Order.{before_end, before_start, before_column, before_step, before}
use legendofstealth.Level.Grid.{IsGrid}
use mathlib.Core.List.{Mem, mem-append_left, mem-append_right, mem-cons_self}
use legendofstealth.Level.{TileTemplate, get_flags, new_tile_template}
use legendofstealth.Level.Walls.{MapTile, parse_wall_layer}
use legendofstealth.Level.Parsed.{flags_of, parse_wall_layer-flags_of}
use legendofstealth.Level.Loading.{
  Loaded, Body, Caster, load_flags, load_wall, load_shadow_caster, load_rows, load_columns,
  load_map, group_ventilation, group_player,
}
use legendofstealth.Prelude.{
  true-ne-false, zero, ◌>>=◌, ap₂, ap, ◌∷◌, ◌∙◌, arith, sym, ◌++◌, done, subst, inr, inl, ◌&&◌,
  All-append, Bool-cases, ◌==◌, false, true, if◌then◌else◌, ◌+◌, not, suc, All, ◌<◌, ◌-◌, ◌≡◌, [],
  ◌*◌, Bool, refl, ℕ,
}

-- A tile of the layer that is a wall.
abbrev pub is_wall : MapTile → Bool
is_wall tile = not (tile.gid == 0) && tile.id == 5

-- The body of the wall in column `x` and row `y` from the bottom, and its shadow caster.
abbrev pub wall_body : ℕ → ℕ → Body
wall_body x y = record {
  center_x = 2 * x + 1;
  center_y = 2 * y + 1;
  half_width = 1;
  category_bits = group_ventilation;
  mask_bits = group_player;
}

abbrev pub wall_caster : ℕ → ℕ → Caster
wall_caster x y = record { position_x = x * 64; position_y = y * 64; side = 64 }

-- What the loader starts with.
abbrev pub nothing_loaded : Loaded
nothing_loaded = record { shadow_casters = []; global_bodies = [] }

load_flags-flags_of :
    (x y : ℕ) (tile : MapTile) (l : Loaded)
    → load_flags x y (flags_of tile) l
      ≡ (if is_wall tile then load_wall x y false (load_shadow_caster x y l) else l)
unfolding load_flags
load_flags-flags_of x y tile l = elim (Bool-cases (tile.gid == 0)) [
  | inl empty ↦ rw empty refl
  | inr filled ↦ elim (Bool-cases (tile.id == 5)) [
    | inl wall ↦ rw (filled, wall) refl
    | inr no_wall ↦ elim (Bool-cases (tile.id == 6)) [
      | inl vent ↦ rw (filled, no_wall, vent) refl
      | inr no_vent ↦ rw (filled, no_wall, no_vent) refl
    ]
  ]
]

module _ (get_tile : ℕ → ℕ → MapTile) (w h : ℕ) where
  -- The tile of the layer in column `x` and row `y` from the bottom.
  abbrev pub tile_at : ℕ → ℕ → MapTile
  tile_at x y = get_tile x (h - y - 1)

  -- A wall in this place of the map.
  abbrev pub IsWallAt : ℕ → ℕ → Type 0
  IsWallAt x y = (x < w) × (y < h) × (is_wall (tile_at x y) ≡ true)

  -- The body, or the caster, of some wall.
  abbrev pub OfWall : {A : Type 0} → (ℕ → ℕ → A) → A → Type 0
  OfWall made a = (x y : ℕ) × IsWallAt x y × (a ≡ made x y)

  -- The loops of LoadMap have come to the column `x` and the row `y`.
  pub record Stands (x y : ℕ) (l : Loaded) : Type 0 where
    pub bodies : All (OfWall wall_body) l.global_bodies
    pub casters : All (OfWall wall_caster) l.shadow_casters
    pub every :
        (x' y' : ℕ)
        → IsWallAt x' y'
        → before x' y' x y ≡ true
        → Mem (wall_body x' y') l.global_bodies × Mem (wall_caster x' y') l.shadow_casters

  skip_step :
      (x y : ℕ) (l : Loaded) → Stands x y l → is_wall (tile_at x y) ≡ false → Stands x (suc y) l
  skip_step x y l v e = record {
    bodies = v.bodies;
    casters = v.casters;
    every = λ x' y' wall b. elim (before_step x' y' x y b) [
      | inr earlier ↦ v.every x' y' wall earlier
      | inl (ex, ey) ↦
          absurd (true-ne-false (sym (wall.2) ∙ ap₂ (λ a b. is_wall (tile_at a b)) ex ey ∙ e))
    ];
  }

  wall_step :
      (x y : ℕ) (l : Loaded)
      → Stands x y l
      → IsWallAt x y
      → Stands x (suc y) (load_wall x y false (load_shadow_caster x y l))
  unfolding load_wall load_shadow_caster
  wall_step x y l v wall = record {
    bodies = All-append (OfWall wall_body) l.global_bodies _ v.bodies ((x, y, wall, refl), tt);
    casters = All-append (OfWall wall_caster) l.shadow_casters _ v.casters ((x, y, wall, refl), tt);
    every = λ x' y' there b. elim (before_step x' y' x y b) [
      | inr earlier ↦
          let (m, n) = v.every x' y' there earlier in (mem-append_left _ m, mem-append_left _ n)
      | inl (ex, ey) ↦ (
        subst (λ o. Mem o (l.global_bodies ++ (wall_body x y ∷ [])))
            (ap₂ wall_body (sym ex) (sym ey)) (mem-append_right l.global_bodies mem-cons_self),
        subst (λ o. Mem o (l.shadow_casters ++ (wall_caster x y ∷ [])))
            (ap₂ wall_caster (sym ex) (sym ey)) (mem-append_right l.shadow_casters mem-cons_self),
      )
    ];
  }

  -- What has been loaded after a tile, if it is a wall or not.
  abbrev loaded_if : ℕ → ℕ → Loaded → Bool → Loaded
  loaded_if x y l b = if b then load_wall x y false (load_shadow_caster x y l) else l

  flags_step :
      (x y : ℕ) (l : Loaded)
      → Stands x y l
      → x < w
      → y < h
      → Stands x (suc y) (load_flags x y (flags_of (tile_at x y)) l)
  flags_step x y l v hx hy =
      subst (Stands x (suc y)) (sym (load_flags-flags_of x y (tile_at x y) l))
        (elim (Bool-cases (is_wall (tile_at x y))) [
          | inl wall ↦
              subst (λ b. Stands x (suc y) (loaded_if x y l b)) (sym wall)
                (wall_step x y l v (hx, hy, wall))
          | inr other ↦
              subst (λ b. Stands x (suc y) (loaded_if x y l b)) (sym other)
                (skip_step x y l v other)
        ])

  module _ (tt1 : TileTemplate) (width : tt1.w ≡ w) (height : tt1.h ≡ h)
      (flags : (x y : ℕ) → x < w → y < h → get_flags x y tt1 ≡ done (flags_of (tile_at x y))) where
    rows_load :
        (left x y : ℕ) (l : Loaded)
        → Stands x y l
        → x < w
        → y + left ≡ h
        → (l' : Loaded) × (load_rows tt1 left x y l ≡ done l') × Stands x h l'
    unfolding load_rows
    rows_load zero x y l v hx hy = (l, refl, subst (λ n. Stands x n l) (omega arith) v)
    rows_load (suc left) x y l v hx hy =
        let (l', e, v') =
          rows_load left x (suc y) (load_flags x y (flags_of (tile_at x y)) l)
            (flags_step x y l v hx (omega arith)) hx (omega arith) in
        (
          l',
          ap (λ o. o >>= λ f. load_rows tt1 left x (suc y) (load_flags x y f l))
                (flags x y hx (omega arith))
              ∙ e,
          v',
        )

    columns_load :
        (left x : ℕ) (l : Loaded)
        → Stands x 0 l
        → x + left ≡ w
        → (l' : Loaded) × (load_columns tt1 left x l ≡ done l') × Stands w 0 l'
    unfolding load_columns
    columns_load zero x l v hx = (l, refl, subst (λ n. Stands n 0 l) (omega arith) v)
    columns_load (suc left) x l v hx =
        let (l1, e, v1) = rows_load tt1.h x 0 l v (omega arith) (omega (arith, height)) in
        let (l2, e', v2) =
          columns_load left (suc x) l1
            (record {
              bodies = v1.bodies;
              casters = v1.casters;
              every = λ x' y' wall b. v1.every x' y' wall (before_column x' y' x h wall.1 ∙ b);
            })
            (omega arith) in
        (l2, ap (λ o. o >>= load_columns tt1 left (suc x)) e ∙ e', v2)

  start_Stands : Stands 0 0 nothing_loaded
  start_Stands = record {
    bodies = tt;
    casters = tt;
    every = λ x' y' wall b. absurd (true-ne-false (sym b ∙ before_start x' y'));
  }

  abbrev Walled : TileTemplate → Type 0
  Walled t =
      (l : Loaded) × (load_map t nothing_loaded ≡ done l)
      × All (OfWall wall_body) l.global_bodies
      × All (OfWall wall_caster) l.shadow_casters
      × ((x y : ℕ)
          → IsWallAt x y
          → Mem (wall_body x y) l.global_bodies × Mem (wall_caster x y) l.shadow_casters)

  loaded_from :
      (t : TileTemplate)
      → IsGrid w h t
      → ((x y : ℕ) → x < w → y < h → get_flags x y t ≡ done (flags_of (tile_at x y)))
      → Walled t
  unfolding load_map
  loaded_from t grid flags =
      let (l, e, v) =
        columns_load t grid.width grid.height flags t.w 0 nothing_loaded start_Stands
          (omega (arith, grid.width)) in
      (l, e, v.bodies, v.casters, λ x y wall. v.every x y wall (before_end x y w wall.0))

  done_inj : (a b : TileTemplate) → done a ≡ done b → a ≡ b
  done_inj a b q = cc

  -- LoadMap, starting with nothing loaded, of the template that ParseWallLayer has made of a layer
  -- in an empty template of the size of the map: it returns; every body that it adds is that of a
  -- wall of the layer, in the group VENTILATION, every shadow caster stands on a wall of the
  -- layer, and every wall of the layer has both.
  pub load_map-walls :
      (tt1 : TileTemplate)
      → parse_wall_layer get_tile w h (new_tile_template w h) ≡ done tt1
      → (l : Loaded) × (load_map tt1 nothing_loaded ≡ done l)
        × All (OfWall wall_body) l.global_bodies
        × All (OfWall wall_caster) l.shadow_casters
        × ((x y : ℕ)
            → IsWallAt x y
            → Mem (wall_body x y) l.global_bodies × Mem (wall_caster x y) l.shadow_casters)
  load_map-walls tt1 e =
      let (t, parsed, grid, flags) = parse_wall_layer-flags_of get_tile w h in
      subst Walled (done_inj t tt1 (sym parsed ∙ e)) (loaded_from t grid flags)
