-- ===== src/Shader/Lines.antt =====
-- What Shader::GetShaderSource makes of a file (client/Shader.cpp).
use legendofstealth.Shader.{get_shader_source, scanned, getline, IfStream, scan, source_loop}
use legendofstealth.Prelude.{
  none, some, Option, append_assoc, length-append, sym, zero, ◌∙◌, arith, ==_iff, ◌≤◌, suc, done,
  inl, ◌⊎◌, ap, if◌then◌else◌, ◌+◌, true, false, Bool-cases, ◌≡◌, [], length, ◌<◌, inr, ◌==◌, ◌++◌,
  ◌∷◌, List, ℕ, refl,
}

-- The content with a line feed behind its last line, if it has one without.
abbrev pub closed : List ℕ → List ℕ
closed [] = []
closed (b ∷ bytes) = elim bytes [
  | [] ↦ if b == 10 then b ∷ [] else b ∷ 10 ∷ []
  | ◌∷◌ c rest ↦ b ∷ closed bytes
]

closed-line : (line rest : List ℕ) → closed (line ++ 10 ∷ rest) ≡ line ++ 10 ∷ closed rest
closed-line [] [] = refl
closed-line [] (b ∷ rest) = refl
closed-line (a ∷ []) rest = ap (λ l. a ∷ l) (closed-line [] rest)
closed-line (a ∷ b ∷ line) rest = ap (λ l. a ∷ l) (closed-line (b ∷ line) rest)

-- The last line, with a line feed.
abbrev ended : List ℕ → List ℕ
ended [] = []
ended (b ∷ bytes) = b ∷ bytes ++ 10 ∷ []

-- How a line ends: with a line feed, or with the content.
abbrev Ends : List ℕ → Type 0
Ends xs =
    ((line : List ℕ) × (rest : List ℕ) × (scan xs ≡ (line, rest, true)) × (xs ≡ line ++ 10 ∷ rest))
    ⊎ ((scan xs ≡ (xs, [], false)) × (closed xs ≡ ended xs))

closed-more :
    (b : ℕ) (bytes : List ℕ)
    → (b == 10) ≡ false
    → closed bytes ≡ ended bytes
    → closed (b ∷ bytes) ≡ b ∷ bytes ++ 10 ∷ []
closed-more b [] e c = rw e refl
closed-more b (a ∷ bytes) e c = ap (λ l. b ∷ l) c

scan-Ends : (xs : List ℕ) → Ends xs
scan-Ends [] = inr (refl, refl)
scan-Ends (b ∷ bytes) = elim (Bool-cases (b == 10)) [
  | inl e ↦ inl ([], bytes, rw e refl, ap (λ c. c ∷ bytes) ((==_iff b 10).0 e))
  | inr e ↦ elim (scan-Ends bytes) [
    | inl (line, rest, s, same) ↦ inl (b ∷ line, rest, rw (e, s) refl, ap (λ l. b ∷ l) same)
    | inr (s, c) ↦ inr (rw (e, s) refl, closed-more b bytes e c)
  ]
]

abbrev at : List ℕ → IfStream
at xs = record { rest = xs; eof = false; fail = false }

-- A round on the last line, and one behind it.
ended_loop :
    (fuel : ℕ) (rest source : List ℕ)
    → 0 < fuel
    → source_loop fuel (record { rest = rest; eof = true; fail = true }) source ≡ done source
unfolding source_loop
ended_loop zero rest source h = absurd (omega arith)
ended_loop (suc fuel) rest source h = refl

line_loop :
    (fuel : ℕ) (xs line rest source : List ℕ)
    → scan xs ≡ (line, rest, true)
    → source_loop (suc fuel) (at xs) source
      ≡ source_loop fuel (at rest) (source ++ (line ++ 10 ∷ []))
unfolding source_loop getline
line_loop fuel xs line rest source s =
    ap (λ r. source_loop fuel (scanned r).1 (source ++ ((scanned r).0 ++ 10 ∷ []))) s

last_loop :
    (fuel : ℕ) (xs source : List ℕ)
    → scan xs ≡ (xs, [], false)
    → length xs + 1 ≤ fuel
    → source_loop (suc fuel) (at xs) source ≡ done (source ++ (ended xs ++ 10 ∷ []))
unfolding source_loop getline
last_loop fuel [] source s h = ended_loop fuel [] (source ++ 10 ∷ []) (omega arith)
last_loop zero (b ∷ bytes) source s h = absurd (omega arith)
last_loop (suc fuel) (b ∷ bytes) source s h =
    ap (λ r. source_loop (suc fuel) (scanned r).1 (source ++ ((scanned r).0 ++ 10 ∷ []))) s
    ∙ ended_loop fuel [] ((source ++ (b ∷ bytes ++ 10 ∷ [])) ++ 10 ∷ []) (omega arith)
    ∙ ap done (append_assoc source (b ∷ bytes ++ 10 ∷ []) (10 ∷ []))

lines_loop :
    (fuel : ℕ) (xs source : List ℕ)
    → length xs + 2 ≤ fuel
    → source_loop fuel (at xs) source ≡ done (source ++ (closed xs ++ 10 ∷ []))
lines_loop zero xs source h = absurd (omega arith)
lines_loop (suc fuel) xs source h = elim (scan-Ends xs) [
  | inl (line, rest, s, same) ↦
      line_loop fuel xs line rest source s
      ∙ lines_loop fuel rest (source ++ (line ++ 10 ∷ []))
          (omega (arith, h, ap length same, length-append line (10 ∷ rest)))
      ∙ ap done (
          append_assoc source (line ++ 10 ∷ []) (closed rest ++ 10 ∷ [])
          ∙ ap (λ l. source ++ l)
              (append_assoc line (10 ∷ []) (closed rest ++ 10 ∷ [])
                ∙ sym (append_assoc line (10 ∷ closed rest) (10 ∷ []))
                ∙ ap (λ l. l ++ 10 ∷ []) (sym (closed-line line rest) ∙ ap closed (sym same))))
  | inr (s, c) ↦
      last_loop fuel xs source s (omega (arith, h))
      ∙ ap (λ l. done (source ++ (l ++ 10 ∷ []))) (sym c)
]

-- What is handed to OpenGL: nothing for a file that cannot be opened.
abbrev pub source_text : Option (List ℕ) → List ℕ
source_text none = []
source_text (some content) = closed content ++ 10 ∷ []

-- GetShaderSource ends, and returns the lines of the file, each with a line feed, and one line feed
-- more; and nothing where the file cannot be opened.
pub get_shader_source-source_text :
    (content : Option (List ℕ)) → get_shader_source content ≡ done (source_text content)
unfolding get_shader_source source_loop
get_shader_source-source_text none = refl
get_shader_source-source_text (some content) =
    lines_loop (length content + 2) content [] (omega arith)
