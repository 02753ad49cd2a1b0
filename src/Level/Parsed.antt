-- ===== src/Level/Parsed.antt =====
-- What MapParser::ParseWallLayer makes of a layer (client/MapParser.cpp).
use legendofstealth.Level.Order.{
  before_other, before_end, before_self, before_start, before_column, before,
}
use legendofstealth.Level.{add_flag, TileTemplate, get_flags, new_tile_template}
use legendofstealth.Level.Walls.{
  MapTile, parse_tile, parse_rows, parse_columns, parse_wall_layer, flip_y,
}
use legendofstealth.Level.Grid.{get_flags-new, new_tile_template-IsGrid, IsGrid, add_flag-Flagged}
use legendofstealth.Prelude.{
  Outcome, eq_cases, zero, ◌>>=◌, sym, ap, subst, ◌∙◌, ◌-◌, ◌+◌, suc, Bool, bit_or, inr, inl,
  Bool-cases, arith, ◌⊎◌, ◌≢◌, done, ◌==◌, ◌<◌, ◌≡◌, if◌then◌else◌, refl, ℕ,
}

-- The flags that a tile of the layer stands for: 5 is shadow and wall, 2 is vent.
abbrev pub flags_of : MapTile → ℕ
flags_of tile =
    if tile.gid == 0 then 0 else if tile.id == 5 then 5 else if tile.id == 6 then 2 else 0

-- A tile of an empty cell has been parsed: the others are as they were.
record Marked (w h x y flags : ℕ) (t t' : TileTemplate) : Type 0 where
  pub grid : IsGrid w h t'
  pub self : get_flags x y t ≡ done 0 → get_flags x y t' ≡ done flags
  pub other : (x' y' : ℕ) → x' < w → (x ≢ x') ⊎ (y ≢ y') → get_flags x' y' t' ≡ get_flags x' y' t

parse_tile-Marked :
    (w h x map_y : ℕ) (tile : MapTile) (t : TileTemplate)
    → IsGrid w h t
    → x < w
    → map_y < h
    → (t' : TileTemplate) × (parse_tile h x map_y tile t ≡ done t')
      × Marked w h x (flip_y h map_y) (flags_of tile) t t'
unfolding parse_tile
parse_tile-Marked w h x map_y tile t g hx hy = elim (Bool-cases (tile.gid == 0)) [
  | inl empty ↦ (t, rw empty refl, rw empty unchanged)
  | inr filled ↦ elim (Bool-cases (tile.id == 5)) [
    | inl wall ↦ rw (filled, wall) (flagged 5 refl)
    | inr no_wall ↦ elim (Bool-cases (tile.id == 6)) [
      | inl vent ↦ rw (filled, no_wall, vent) (flagged 2 refl)
      | inr no_vent ↦
          (t, rw (filled, no_wall, no_vent) refl, rw (filled, no_wall, no_vent) unchanged)
    ]
  ]
]
  where
    unchanged : Marked w h x (flip_y h map_y) 0 t t
    unchanged = record { grid = g; self = λ e. e; other = λ x' y' _ _. refl }

    flagged :
        (flag : ℕ)
        → bit_or 0 flag ≡ flag
        → (t' : TileTemplate) × (add_flag x (flip_y h map_y) flag t ≡ done t')
          × Marked w h x (flip_y h map_y) flag t t'
    flagged flag zero_or =
        let (t', e, f) = add_flag-Flagged w h x (flip_y h map_y) flag t g hx (omega arith) in
        (t', e, record { grid = f.grid; self = λ q. f.self 0 q ∙ ap done zero_or; other = f.other })

module _ (get_tile : ℕ → ℕ → MapTile) (w h : ℕ) where
  -- The flags of a tile of the layer, if the loops have come to it.
  abbrev shown : ℕ → ℕ → Bool → Outcome ℕ
  shown x m b = done (if b then flags_of (get_tile x m) else 0)

  -- The loops have come to the column `x` and the row `m`.
  record Progress (x m : ℕ) (t : TileTemplate) : Type 0 where
    pub grid : IsGrid w h t
    pub value :
        (x' m' : ℕ)
        → x' < w
        → m' < h
        → get_flags x' (flip_y h m') t ≡ shown x' m' (before x' m' x m)

  tile_step :
      (x m : ℕ) (t : TileTemplate)
      → Progress x m t
      → x < w
      → m < h
      → (t' : TileTemplate) × (parse_tile h x m (get_tile x m) t ≡ done t') × Progress x (suc m) t'
  tile_step x m t v hx hm =
      let (t', e, k) = parse_tile-Marked w h x m (get_tile x m) t v.grid hx hm in
      (t', e, record { grid = k.grid; value = value t' k })
    where
      here_now :
          (t' : TileTemplate)
          → Marked w h x (flip_y h m) (flags_of (get_tile x m)) t t'
          → get_flags x (flip_y h m) t' ≡ shown x m (before x m x (suc m))
      here_now t' k =
          k.self (v.value x m hx hm ∙ ap (shown x m) (before_self x m).0)
          ∙ ap (shown x m) (sym (before_self x m).1)

      there :
          (t' : TileTemplate) (x' m' : ℕ)
          → Marked w h x (flip_y h m) (flags_of (get_tile x m)) t t'
          → x' < w
          → m' < h
          → (x ≢ x') ⊎ (m ≢ m')
          → (x ≢ x') ⊎ (flip_y h m ≢ flip_y h m')
          → get_flags x' (flip_y h m') t' ≡ shown x' m' (before x' m' x (suc m))
      there t' x' m' k hx' hm' d d' =
          k.other x' (flip_y h m') hx' d'
          ∙ v.value x' m' hx' hm'
          ∙ ap (shown x' m') (sym (before_other x' m' x m d))

      value :
          (t' : TileTemplate)
          → Marked w h x (flip_y h m) (flags_of (get_tile x m)) t t'
          → (x' m' : ℕ) → x' < w
          → m' < h
          → get_flags x' (flip_y h m') t' ≡ shown x' m' (before x' m' x (suc m))
      value t' k x' m' hx' hm' = elim (eq_cases x x') [
        | inl ex ↦ elim (eq_cases m m') [
          | inl em ↦
              subst (λ a. get_flags a (flip_y h m') t' ≡ shown a m' (before a m' x (suc m))) ex
                (subst (λ b. get_flags x (flip_y h b) t' ≡ shown x b (before x b x (suc m))) em
                  (here_now t' k))
          | inr nm ↦ there t' x' m' k hx' hm' (inr nm) (inr (λ q. nm (omega arith)))
        ]
        | inr nx ↦ there t' x' m' k hx' hm' (inl nx) (inl nx)
      ]

  rows_step :
      (left x m : ℕ) (t : TileTemplate)
      → Progress x m t
      → x < w
      → m + left ≡ h
      → (t' : TileTemplate) × (parse_rows get_tile h left x m t ≡ done t') × Progress x h t'
  unfolding parse_rows
  rows_step zero x m t v hx hm = (t, refl, subst (λ n. Progress x n t) (omega arith) v)
  rows_step (suc left) x m t v hx hm =
      let (t1, e, v1) = tile_step x m t v hx (omega arith) in
      let (t2, e', v2) = rows_step left x (suc m) t1 v1 hx (omega arith) in
      (t2, ap (λ o. o >>= parse_rows get_tile h left x (suc m)) e ∙ e', v2)

  columns_step :
      (left x : ℕ) (t : TileTemplate)
      → Progress x 0 t
      → x + left ≡ w
      → (t' : TileTemplate) × (parse_columns get_tile h left x t ≡ done t') × Progress w 0 t'
  unfolding parse_columns
  columns_step zero x t v hx = (t, refl, subst (λ n. Progress n 0 t) (omega arith) v)
  columns_step (suc left) x t v hx =
      let (t1, e, v1) = rows_step h x 0 t v (omega arith) (omega arith) in
      let (t2, e', v2) =
        columns_step left (suc x) t1
          (record {
            grid = v1.grid;
            value = λ x' m' hx' hm'.
                v1.value x' m' hx' hm' ∙ ap (shown x' m') (before_column x' m' x h hm');
          })
          (omega arith) in
      (t2, ap (λ o. o >>= parse_columns get_tile h left (suc x)) e ∙ e', v2)

  -- ParseWallLayer on the empty template of the map's size: it stays inside the template, and in the
  -- result the tile in each column and row, counted from the bottom, has the flags that the tile of
  -- the layer in that column and that row, counted from the top, stands for: shadow and wall for
  -- id 5, vent for id 6, and none for any other id or for gid 0.
  pub parse_wall_layer-flags_of :
      (t' : TileTemplate) × (parse_wall_layer get_tile w h (new_tile_template w h) ≡ done t')
      × IsGrid w h t'
      × ((x y : ℕ) → x < w → y < h → get_flags x y t' ≡ done (flags_of (get_tile x (h - y - 1))))
  unfolding parse_wall_layer
  parse_wall_layer-flags_of =
      let (t', e, v) = columns_step w 0 (new_tile_template w h) start_progress (omega arith) in
      (t', e, v.grid, finished t' v)
    where
      start_progress : Progress 0 0 (new_tile_template w h)
      start_progress = record {
        grid = new_tile_template-IsGrid w h;
        value = λ x' m' hx' hm'.
            get_flags-new w h x' (flip_y h m') hx' (omega arith)
            ∙ ap (shown x' m') (sym (before_start x' m'));
      }

      finished :
          (t' : TileTemplate)
          → Progress w 0 t'
          → (x y : ℕ) → x < w
          → y < h
          → get_flags x y t' ≡ done (flags_of (get_tile x (h - y - 1)))
      finished t' v x y hx hy =
          ap (λ n. get_flags x n t') (omega arith)
          ∙ v.value x (h - y - 1) hx (omega arith)
          ∙ ap (shown x (h - y - 1)) (before_end x (h - y - 1) w hx)
