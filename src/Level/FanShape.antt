-- ===== src/Level/FanShape.antt =====
-- The triangle fan of LightTexture::CreateSharedTexture (client/LightSource.cpp).
use legendofstealth.Level.Fan.{
  fan_colors, color_loop, fan_vertices, close_ring, light_radius, ring_y, ring_x, vertex_loop,
  write, read, Circle,
}
use legendofstealth.Level.Shapes.{Reals}
use legendofstealth.Prelude.{
  ◌≤◌, map-append, ◌-◌, length-append, ◌∙◌, append_assoc, arith, zero, some, ◌>>=◌, ap, ◌++◌, none,
  done, ◌∷◌, length, ◌*◌, ◌+◌, suc, ◌≡◌, [], replicate, Option, ℕ, List, refl, map,
}

-- A write behind a part of the array.
write-append :
    {A : Type 0} (xs ys zs : List (Option A)) (i k : ℕ) (a : A)
    → i ≡ length xs + k
    → write ys k a ≡ done zs
    → write (xs ++ ys) i a ≡ done (xs ++ zs)
write-append [] ys zs i k a at e = ap (λ j. write ys j a) (omega (arith, at)) ∙ e
write-append (x ∷ xs) ys zs zero k a at e = absurd (omega (arith, at))
write-append (x ∷ xs) ys zs (suc i) k a at e =
    rw (write-append xs ys zs i k a (omega (arith, at)) e) refl

-- An array of blocks of a size, that nothing was written to.
abbrev blank : {A : Type 0} → ℕ → ℕ → List (Option A)
blank size zero = []
blank size (suc n) = replicate size none ++ blank size n

replicate-append :
    {A : Type 0} (a : A) (m n : ℕ) → replicate (m + n) a ≡ replicate m a ++ replicate n a
replicate-append a zero n = let e : 0 + n ≡ n = omega arith in ap (λ k. replicate k a) e
replicate-append a (suc m) n =
    let e : suc m + n ≡ suc (m + n) = omega arith in
    ap (λ k. replicate k a) e ∙ ap (◌∷◌ a) (replicate-append a m n)

replicate-blank : {A : Type 0} (size n : ℕ) → replicate (size * n) none ≡ blank {A = A} size n
replicate-blank size zero = let e : size * 0 ≡ 0 = ground arith in ap (λ k. replicate k none) e
replicate-blank size (suc n) =
    let e : size * suc n ≡ size + size * n = ground arith in
    ap (λ k. replicate k none) e
    ∙ (replicate-append none size (size * n)
        ∙ ap (◌++◌ (replicate size none)) (replicate-blank size n))

module _ {A : Type 0} (reals : Reals A) (circle : Circle A) where
  -- The points from one on, and how many.
  abbrev pub points : ℕ → ℕ → ℕ → List A
  points triangles zero i = []
  points triangles (suc n) i =
      ring_x reals circle triangles i ∷ ring_y reals circle triangles i ∷ points triangles n (i + 1)

  vertex_round :
      (xs ys : List (Option A)) (i : ℕ) (a b : A)
      → length xs ≡ i * 2
      → (write (xs ++ none ∷ none ∷ ys) (i * 2 + 0) a >>= λ v. write v (i * 2 + 1) b)
        ≡ done (xs ++ some a ∷ some b ∷ ys)
  vertex_round xs ys i a b e =
      rw
        (write-append xs (none ∷ none ∷ ys) (some a ∷ none ∷ ys) (i * 2 + 0) 0 a (omega arith) refl)
        (write-append xs (some a ∷ none ∷ ys) (some a ∷ some b ∷ ys) (i * 2 + 1) 1 b (omega arith)
          refl)

  abbrev point : ℕ → ℕ → List A
  point triangles i = ring_x reals circle triangles i ∷ ring_y reals circle triangles i ∷ []

  vertex_loop-points :
      (triangles n i : ℕ) (xs : List (Option A))
      → length xs ≡ i * 2
      → vertex_loop reals circle triangles n i (xs ++ blank 2 n)
        ≡ done (xs ++ map some (points triangles n i))
  unfolding vertex_loop
  vertex_loop-points triangles zero i xs e = refl
  vertex_loop-points triangles (suc n) i xs e =
      rw
        (
          vertex_round xs (blank 2 n) i (ring_x reals circle triangles i)
              (ring_y reals circle triangles i) e,
          ← append_assoc xs (map some (point triangles i)) (blank 2 n),
          ← append_assoc xs (map some (point triangles i)) (map some (points triangles n (i + 1))),
        )
        (vertex_loop-points triangles n (i + 1) (xs ++ map some (point triangles i))
          (length-append xs (map some (point triangles i)) ∙ omega arith))

  points-last :
      (triangles n i : ℕ)
      → points triangles (suc n) i ≡ points triangles n i ++ point triangles (i + n)
  points-last triangles zero i = let e : i ≡ i + 0 = omega arith in ap (point triangles) e
  points-last triangles (suc n) i =
      let e : i + 1 + n ≡ i + suc n = omega arith in
      ap (λ l. point triangles i ++ l)
        (points-last triangles n (i + 1)
          ∙ ap (λ k. points triangles n (i + 1) ++ point triangles k) e)

  length-points : (triangles n i : ℕ) → length (map some (points triangles n i)) ≡ 2 * n
  length-points triangles zero i = omega arith
  length-points triangles (suc n) i = omega (arith, length-points triangles n (i + 1))

  -- The corners of the fan: the center, the points of the ring, and its first point again.
  abbrev pub fan : ℕ → List A
  fan triangles =
      light_radius reals circle ∷ light_radius reals circle ∷ points triangles (triangles - 2) 1
      ++ point triangles 1

  module _ (triangles : ℕ) (x0 y0 : A) where
    -- The array without the last point.
    abbrev front : ℕ → List (Option A)
    front n = map some (x0 ∷ y0 ∷ points triangles n 1)

    abbrev x1 : A
    x1 = ring_x reals circle triangles 1

    abbrev y1 : A
    y1 = ring_y reals circle triangles 1

    read-y1 :
        (n : ℕ)
        → read (front n ++ some x1 ∷ some (ring_y reals circle triangles (1 + n)) ∷ []) 3 ≡ done y1
    read-y1 zero = refl
    read-y1 (suc n) = refl

    write_x :
        (n i : ℕ)
        → i ≡ 2 * suc n + 0
        → write (front (suc n)) i x1
          ≡ done (front n ++ some x1 ∷ some (ring_y reals circle triangles (1 + n)) ∷ [])
    write_x n i e =
        ap (λ l. write (map some (x0 ∷ y0 ∷ l)) i x1) (points-last triangles n 1)
        ∙ ap (λ l. write (some x0 ∷ some y0 ∷ l) i x1)
            (map-append some (points triangles n 1) (point triangles (1 + n)))
        ∙ write-append (front n) (map some (point triangles (1 + n)))
            (some x1 ∷ some (ring_y reals circle triangles (1 + n)) ∷ []) i 0 x1
            (omega (arith, e, length-points triangles n 1)) refl

    close_ring-fan :
        (n : ℕ)
        → triangles ≡ n + 2
        → close_ring reals circle triangles (front (suc n))
          ≡ done (map some (x0 ∷ y0 ∷ points triangles n 1 ++ point triangles 1))
    close_ring-fan n e =
        rw
          (
            write_x n (2 * (triangles - 1) + 0) (omega (arith, e)),
            read-y1 n,
            write-append (front n) (some x1 ∷ some (ring_y reals circle triangles (1 + n)) ∷ [])
                (some x1 ∷ some y1 ∷ []) (2 * (triangles - 1) + 1) 1 y1
                (omega (arith, e, length-points triangles n 1)) refl,
            map-append some (points triangles n 1) (point triangles 1),
          )
          refl

  fan_vertices-fan :
      (triangles : ℕ)
      → 2 ≤ triangles
      → fan_vertices reals circle triangles ≡ done (map some (fan triangles))
  unfolding fan_vertices
  fan_vertices-fan zero h = absurd (omega (arith, h))
  fan_vertices-fan (suc zero) h = absurd (omega (arith, h))
  fan_vertices-fan (suc (suc n)) h =
      let one_less : suc (suc n) - 1 ≡ suc n = omega arith in
      let two_less : suc (suc n) - 2 ≡ n = omega arith in
      let r = light_radius reals circle in
      rw
        (
          replicate-blank {A = A} 2 (suc (suc n)),
          two_less,
          ap (λ k. vertex_loop reals circle (suc (suc n)) k 1 (some r ∷ some r ∷ blank 2 (suc n)))
              one_less,
          vertex_loop-points (suc (suc n)) (suc n) 1 (some r ∷ some r ∷ []) (omega arith),
        )
        (close_ring-fan (suc (suc n)) r r n (omega arith))

color_round :
    (xs ys : List (Option ℕ)) (i : ℕ)
    → length xs ≡ i * 4
    → (write (xs ++ none ∷ none ∷ none ∷ none ∷ ys) (i * 4 + 0) 255 >>= λ c.
        write c (i * 4 + 1) 255 >>= λ c. write c (i * 4 + 2) 255 >>= λ c. write c (i * 4 + 3) 0)
      ≡ done (xs ++ some 255 ∷ some 255 ∷ some 255 ∷ some 0 ∷ ys)
color_round xs ys i e =
    let full : Option ℕ = some 255 in
    rw
      (
        write-append xs (none ∷ none ∷ none ∷ none ∷ ys) (full ∷ none ∷ none ∷ none ∷ ys)
            (i * 4 + 0) 0 255 (omega arith) refl,
        write-append xs (full ∷ none ∷ none ∷ none ∷ ys) (full ∷ full ∷ none ∷ none ∷ ys)
            (i * 4 + 1) 1 255 (omega arith) refl,
        write-append xs (full ∷ full ∷ none ∷ none ∷ ys) (full ∷ full ∷ full ∷ none ∷ ys)
            (i * 4 + 2) 2 255 (omega arith) refl,
      )
      (write-append xs (full ∷ full ∷ full ∷ none ∷ ys) (full ∷ full ∷ full ∷ some 0 ∷ ys)
        (i * 4 + 3) 3 0 (omega arith) refl)

-- The colors of points: white that is not seen.
abbrev pub clear_white : ℕ → List ℕ
clear_white zero = []
clear_white (suc n) = 255 ∷ 255 ∷ 255 ∷ 0 ∷ clear_white n

color_loop-clear_white :
    (n i : ℕ) (xs : List (Option ℕ))
    → length xs ≡ i * 4
    → color_loop n i (xs ++ blank 4 n) ≡ done (xs ++ map some (clear_white n))
unfolding color_loop
color_loop-clear_white zero i xs e = refl
color_loop-clear_white (suc n) i xs e =
    let four : List (Option ℕ) = map some (255 ∷ 255 ∷ 255 ∷ 0 ∷ []) in
    rw
      (
        color_round xs (blank 4 n) i e,
        ← append_assoc xs four (blank 4 n),
        ← append_assoc xs four (map some (clear_white n)),
      )
      (color_loop-clear_white n (i + 1) (xs ++ four) (length-append xs four ∙ omega arith))

fan_colors-clear_white :
    (triangles : ℕ)
    → 1 ≤ triangles
    → fan_colors triangles ≡ done (map some (255 ∷ 255 ∷ 255 ∷ 255 ∷ clear_white (triangles - 1)))
unfolding fan_colors
fan_colors-clear_white zero h = absurd (omega (arith, h))
fan_colors-clear_white (suc n) h =
    let one_less : suc n - 1 ≡ n = omega arith in
    let inner : List (Option ℕ) = map some (255 ∷ 255 ∷ 255 ∷ 255 ∷ []) in
    rw (replicate-blank {A = ℕ} 4 (suc n), one_less)
      (color_loop-clear_white n 1 inner (omega arith))

-- CreateSharedTexture, for two triangles and more, whatever cosine and sine give: no write is out of
-- bounds and every element of both arrays is written. The vertices are the center, the points of the
-- ring in order but the last, and the first point again; the center is white, and the color of all
-- points is not seen.
pub fan_vertices-closed :
    {A : Type 0} (reals : Reals A) (circle : Circle A) (triangles : ℕ)
    → 2 ≤ triangles
    → (fan_vertices reals circle triangles ≡ done (map some (fan reals circle triangles)))
      × (fan_colors triangles
          ≡ done (map some (255 ∷ 255 ∷ 255 ∷ 255 ∷ clear_white (triangles - 1))))
fan_vertices-closed reals circle triangles h =
    (fan_vertices-fan reals circle triangles h, fan_colors-clear_white triangles (omega (arith, h)))
