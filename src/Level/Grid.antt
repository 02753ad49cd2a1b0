-- ===== src/Level/Grid.antt =====
-- The tiles of a TileTemplate as a grid (client/Map.cpp): where AddFlag stays inside it, and what it
-- changes.
use native.Mathlib.Decide.{dec_lt}
use legendofstealth.Level.{
  TileTemplate, add_flag, get_flags, or_flag, tile_index, new_tile_template,
}
use legendofstealth.Prelude.{
  get_elem?-set_ne, sym, get_elem?-set_self, ◌∙◌, length-set, some, get_elem?, set, inr,
  get_elem?-of_lt, inl, zero, get_elem?-replicate, suc, or_fault, arith, bit_or, ap, ◌⊎◌, ◌+◌, done,
  length, ◌≢◌, ◌*◌, length-replicate, ◌≡◌, ◌<◌, refl, ℕ,
}

row_step : (w x y y' : ℕ) → x < w → y < y' → y * w + x < y' * w
row_step w x y zero hx hy = absurd (omega arith)
row_step w x y (suc y') hx hy = elim (dec_lt y y') [
  | yes below ↦ omega (arith, row_step w x y y' hx below)
  | no not_below ↦ same (omega arith)
]
  where
    same : y ≡ y' → y * w + x < suc y' * w
    same e = rw e (omega arith)

pub index_lt : (w h x y : ℕ) → x < w → y < h → y * w + x < w * h
index_lt w h x y hx hy = omega (arith, row_step w x y h hx hy)

pub index_ne : (w x y x' y' : ℕ) → x < w → x' < w → (x ≢ x') ⊎ (y ≢ y') → y * w + x ≢ y' * w + x'
index_ne w x y x' y' hx hx' d e = elim (dec_lt y y') [
  | yes below ↦ omega (arith, row_step w x y y' hx below)
  | no not_below ↦ elim (dec_lt y' y) [
    | yes above ↦ omega (arith, row_step w x' y' y hx' above)
    | no not_above ↦ differ (omega arith) d
  ]
]
  where
    differ : y ≡ y' → (x ≢ x') ⊎ (y ≢ y') → ⊥
    differ q (inl n) = n (omega (arith, ap (λ n. n * w) q))
    differ q (inr n) = n q

-- A template of this size.
pub record IsGrid (w h : ℕ) (t : TileTemplate) : Type 0 where
  pub width : t.w ≡ w
  pub height : t.h ≡ h
  pub full : length t.tiles ≡ w * h

pub new_tile_template-IsGrid : (w h : ℕ) → IsGrid w h (new_tile_template w h)
unfolding new_tile_template
new_tile_template-IsGrid w h = record {
  width = refl;
  height = refl;
  full = length-replicate (w * h) 0;
}

pub get_flags-new : (w h x y : ℕ) → x < w → y < h → get_flags x y (new_tile_template w h) ≡ done 0
unfolding new_tile_template get_flags
get_flags-new w h x y hx hy =
    ap or_fault (get_elem?-replicate (w * h) (y * w + x) 0 (index_lt w h x y hx hy))

-- AddFlag inside the grid: it succeeds, it sets the flag of its tile, and no other tile changes.
pub record Flagged (w h x y flag : ℕ) (t t' : TileTemplate) : Type 0 where
  pub grid : IsGrid w h t'
  pub self : (old : ℕ) → get_flags x y t ≡ done old → get_flags x y t' ≡ done (bit_or old flag)
  pub other : (x' y' : ℕ) → x' < w → (x ≢ x') ⊎ (y ≢ y') → get_flags x' y' t' ≡ get_flags x' y' t

pub add_flag-Flagged :
    (w h x y flag : ℕ) (t : TileTemplate)
    → IsGrid w h t
    → x < w
    → y < h
    → (t' : TileTemplate) × (add_flag x y flag t ≡ done t') × Flagged w h x y flag t t'
unfolding add_flag get_flags
add_flag-Flagged w h x y flag t g hx hy =
    let (old, e) = get_elem?-of_lt t.tiles (tile_index t x y) inside in
    (
      record t { tiles = set t.tiles (tile_index t x y) (bit_or old flag) },
      ap (or_flag t (tile_index t x y) flag) e,
      flagged old e,
    )
  where
    inside : tile_index t x y < length t.tiles
    inside = rw (g.full, g.width) (index_lt w h x y hx hy)

    done_inj : {a b : ℕ} → done a ≡ done b → a ≡ b
    done_inj q = cc

    flagged :
        (old : ℕ)
        → get_elem? t.tiles (tile_index t x y) ≡ some old
        → Flagged w h x y flag t
            (record t { tiles = set t.tiles (tile_index t x y) (bit_or old flag) })
    flagged old e = record {
      grid = record {
        width = g.width;
        height = g.height;
        full = length-set t.tiles (tile_index t x y) (bit_or old flag) ∙ g.full;
      };
      self = λ o q.
          ap or_fault (get_elem?-set_self t.tiles (tile_index t x y) (bit_or old flag) inside)
          ∙ ap (λ n. done (bit_or n flag)) (done_inj (sym (ap or_fault e) ∙ q));
      other = λ x' y' hx' d. ap or_fault (
          get_elem?-set_ne t.tiles (tile_index t x y) (tile_index t x' y') (bit_or old flag)
            (index_ne t.w x y x' y' (rw g.width hx) (rw g.width hx') d));
    }
