-- ===== src/Level/Order.antt =====
-- The order in which two nested loops, columns outside and rows inside, come to the tiles of a map
-- (client/MapParser.cpp, client/MapLoader.cpp).
use legendofstealth.Prelude.{
  ◌∙◌, inl, sym, ◌&&◌, inr, ◌==◌, eq_cases, ◌||◌, true, arith, ◌⊎◌, false, ltb, suc, ◌<◌, ◌≢◌, ◌≡◌,
  Bool, ℕ,
}

-- The tile in column `x'`, row `m'` of the layer comes before the loops reach `x` and `m`.
abbrev pub before : ℕ → ℕ → ℕ → ℕ → Bool
before x' m' x m = ltb x' x || (x' == x && ltb m' m)

pub before_self : (x m : ℕ) → (before x m x m ≡ false) × (before x m x (suc m) ≡ true)
before_self x m = ground arith

pub before_other : (x' m' x m : ℕ) → (x ≢ x') ⊎ (m ≢ m') → before x' m' x (suc m) ≡ before x' m' x m
before_other x' m' x m d = ground arith

pub before_column : (x' m' x h : ℕ) → m' < h → before x' m' x h ≡ before x' m' (suc x) 0
before_column x' m' x h l = ground arith

pub before_start : (x' m' : ℕ) → before x' m' 0 0 ≡ false
before_start x' m' = ground arith

pub before_end : (x' m' w : ℕ) → x' < w → before x' m' w 0 ≡ true
before_end x' m' w l = ground arith

pub before_step :
    (x' y' x y : ℕ)
    → before x' y' x (suc y) ≡ true
    → ((x' ≡ x) × (y' ≡ y)) ⊎ (before x' y' x y ≡ true)
before_step x' y' x y b = elim (eq_cases x x') [
  | inr nx ↦ inr (sym (before_other x' y' x y (inl nx)) ∙ b)
  | inl ex ↦ elim (eq_cases y y') [
    | inr ny ↦ inr (sym (before_other x' y' x y (inr ny)) ∙ b)
    | inl ey ↦ inl (sym ex, sym ey)
  ]
]
