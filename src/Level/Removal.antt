-- ===== src/Level/Removal.antt =====
-- What the removals of class ShadowLayer do (client/ShadowLayer.cpp).
use legendofstealth.Level.Casters.{
  ShadowLayer, remove_shadow_caster, remove_caster_loop, caster_at, remove_light_source,
  remove_light_loop, light_at,
}
use legendofstealth.Prelude.{
  subst, Outcome, false, true, Option, ltb, inr, erase_at-append, erase_at, inl, Bool-cases,
  append_assoc, zero, append-nil, length-append, sym, get_elem?-append, faults, arith, ◌∙◌, ap,
  ◌==◌, ◌<◌, ◌≤◌, ◌+◌, [], some, none, suc, if◌then◌else◌, done, length, ◌++◌, get_elem?, ◌∷◌, ◌≡◌,
  List, refl, ℕ,
}

-- The list without any occurrence of `obj`, in order.
abbrev pub without : ℕ → List ℕ → List ℕ
without obj [] = []
without obj (a ∷ l) = if a == obj then without obj l else a ∷ without obj l

-- The list without the occurrences of `obj` that stand before the n-th of the others.
abbrev pub without_before : ℕ → ℕ → List ℕ → List ℕ
without_before n obj [] = []
without_before zero obj (a ∷ l) = a ∷ l
without_before (suc n) obj (a ∷ l) =
    let rest = without_before (suc n) obj l in
    let next = a ∷ without_before n obj l in if a == obj then rest else next

get_past : (l : List ℕ) → get_elem? l (length l) ≡ none
get_past [] = refl
get_past (a ∷ l) = get_past l

get_at :
    (passed todo l : List ℕ) (a : ℕ) → l ≡ passed ++ a ∷ todo → get_elem? l (length passed) ≡ some a
get_at passed todo l a e = ap (λ k. get_elem? k (length passed)) e ∙ get_elem?-append passed todo a

snoc : (passed todo l : List ℕ) (a : ℕ) → l ≡ passed ++ a ∷ todo → l ≡ (passed ++ (a ∷ [])) ++ todo
snoc passed todo l a e = e ∙ sym (append_assoc passed (a ∷ []) todo)

snoc_length : (passed : List ℕ) (a : ℕ) → length passed + 1 ≡ length (passed ++ (a ∷ []))
snoc_length passed a = omega (arith, length-append passed (a ∷ []))

caster_loop :
    (fuel obj : ℕ) (passed todo : List ℕ) (s : ShadowLayer)
    → length todo ≤ fuel
    → s.shadow_casters ≡ passed ++ todo
    → remove_caster_loop fuel obj (length passed) s
      ≡ done (record s { shadow_casters = passed ++ without obj todo })
unfolding remove_caster_loop
caster_loop zero obj passed [] s h e =
    rw (all_seen) (ap (λ l. done (record s { shadow_casters = l })) e)
  where
    all_seen : ltb (length passed) (length s.shadow_casters) ≡ false
    all_seen = ground (arith, ap length e, length-append passed [])
caster_loop zero obj passed (a ∷ todo) s h e = absurd (omega arith)
caster_loop (suc fuel) obj passed [] s h e =
    ap (caster_at (λ j t. remove_caster_loop fuel obj j t) obj (length passed) s)
      (ap (λ l. get_elem? l (length passed)) (e ∙ append-nil passed) ∙ get_past passed)
    ∙ ap (λ l. done (record s { shadow_casters = l })) e
caster_loop (suc fuel) obj passed (a ∷ todo) s h e =
    ap (caster_at (λ j t. remove_caster_loop fuel obj j t) obj (length passed) s)
      (get_at passed todo s.shadow_casters a e)
    ∙ elim (Bool-cases (a == obj)) [
      | inl hit ↦ rw hit (
          caster_loop fuel obj passed todo
            (record s { shadow_casters = erase_at s.shadow_casters (length passed) }) (omega arith)
            (ap (λ l. erase_at l (length passed)) e ∙ erase_at-append passed todo a))
      | inr other ↦ rw other (
          ap (λ i. remove_caster_loop fuel obj i s) (snoc_length passed a)
          ∙ caster_loop fuel obj (passed ++ (a ∷ [])) todo s (omega arith)
              (snoc passed todo s.shadow_casters a e)
          ∙ ap (λ l. done (record s { shadow_casters = l }))
              (append_assoc passed (a ∷ []) (without obj todo)))
    ]

-- RemoveShadowCaster: it returns, every occurrence of the object is gone, and the other shadow casters
-- keep their order. The light sources are as they were.
pub remove_shadow_caster-without :
    (obj : ℕ) (s : ShadowLayer)
    → remove_shadow_caster obj s ≡ done (record s { shadow_casters = without obj s.shadow_casters })
unfolding remove_shadow_caster
remove_shadow_caster-without obj s =
    caster_loop (length s.shadow_casters) obj [] s.shadow_casters s (omega arith) refl

more : (passed : List ℕ) (n k : ℕ) → k ≡ length passed + suc n → ltb (length passed) k ≡ true
more passed n k c = ground arith

no_more : (passed : List ℕ) (k : ℕ) → k ≡ length passed + 0 → ltb (length passed) k ≡ false
no_more passed k c = ground arith

-- The rest of the loop of RemoveLightSource, from a round that is run on.
abbrev light_round : ℕ → ℕ → List ℕ → ShadowLayer → Option ℕ → Outcome ShadowLayer
light_round fuel obj passed s o =
    light_at (λ j t. remove_light_loop fuel obj j t) obj (length passed) s o

round_on :
    (fuel obj n : ℕ) (passed : List ℕ) (s : ShadowLayer) (o : Option ℕ)
    → length s.shadow_casters ≡ length passed + suc n
    → get_elem? s.light_sources (length passed) ≡ o
    → remove_light_loop (suc fuel) obj (length passed) s ≡ light_round fuel obj passed s o
unfolding remove_light_loop
round_on fuel obj n passed s o c e =
    rw (more passed n (length s.shadow_casters) c) (ap (light_round fuel obj passed s) e)

round_off :
    (fuel obj : ℕ) (passed : List ℕ) (s : ShadowLayer)
    → length s.shadow_casters ≡ length passed + 0
    → remove_light_loop (suc fuel) obj (length passed) s ≡ done s
unfolding remove_light_loop
round_off fuel obj passed s c = rw (no_more passed (length s.shadow_casters) c) refl

abbrev light_erased : List ℕ → ShadowLayer → ShadowLayer
light_erased passed s = record s { light_sources = erase_at s.light_sources (length passed) }

light_loop-faults :
    (fuel obj n : ℕ) (passed todo : List ℕ) (s : ShadowLayer)
    → length todo < fuel
    → s.light_sources ≡ passed ++ todo
    → length s.shadow_casters ≡ length passed + n
    → length (without obj todo) < n
    → remove_light_loop fuel obj (length passed) s ≡ faults
light_loop-faults zero obj n passed todo s h e c few = absurd (omega arith)
light_loop-faults (suc fuel) obj zero passed todo s h e c few = absurd (omega arith)
light_loop-faults (suc fuel) obj (suc n) passed [] s h e c few =
    round_on fuel obj n passed s none c
      (ap (λ l. get_elem? l (length passed)) (e ∙ append-nil passed) ∙ get_past passed)
light_loop-faults (suc fuel) obj (suc n) passed (a ∷ todo) s h e c few =
    round_on fuel obj n passed s (some a) c (get_at passed todo s.light_sources a e)
    ∙ elim (Bool-cases (a == obj)) [
      | inl hit ↦ rw hit (
          light_loop-faults fuel obj (suc n) passed todo (light_erased passed s) (omega arith)
            (ap (λ l. erase_at l (length passed)) e ∙ erase_at-append passed todo a) c
            (fewer_hit hit))
      | inr other ↦ rw other (
          ap (λ i. remove_light_loop fuel obj i s) (snoc_length passed a)
          ∙ light_loop-faults fuel obj n (passed ++ (a ∷ [])) todo s (omega arith)
              (snoc passed todo s.light_sources a e) (omega (arith, c, snoc_length passed a))
              (fewer_other other))
    ]
  where
    fewer_hit : a == obj ≡ true → length (without obj todo) < suc n
    fewer_hit hit =
        subst (λ b. length (if b then without obj todo else a ∷ without obj todo) < suc n) hit few

    fewer_other : a == obj ≡ false → length (without obj todo) < n
    fewer_other other =
        let k =
          subst (λ b. length (if b then without obj todo else a ∷ without obj todo) < suc n) other
            few in
        omega arith

light_loop-done :
    (fuel obj n : ℕ) (passed todo : List ℕ) (s : ShadowLayer)
    → length todo < fuel
    → s.light_sources ≡ passed ++ todo
    → length s.shadow_casters ≡ length passed + n
    → n ≤ length (without obj todo)
    → remove_light_loop fuel obj (length passed) s
      ≡ done (record s { light_sources = passed ++ without_before n obj todo })
light_loop-done zero obj n passed todo s h e c enough = absurd (omega arith)
light_loop-done (suc fuel) obj zero passed todo s h e c enough =
    round_off fuel obj passed s c
    ∙ ap (λ l. done (record s { light_sources = l })) (e ∙ ap (◌++◌ passed) (none_before todo))
  where
    none_before : (l : List ℕ) → l ≡ without_before zero obj l
    none_before [] = refl
    none_before (a ∷ l) = refl
light_loop-done (suc fuel) obj (suc n) passed [] s h e c enough = absurd (omega arith)
light_loop-done (suc fuel) obj (suc n) passed (a ∷ todo) s h e c enough =
    round_on fuel obj n passed s (some a) c (get_at passed todo s.light_sources a e)
    ∙ elim (Bool-cases (a == obj)) [
      | inl hit ↦ rw hit (
          light_loop-done fuel obj (suc n) passed todo (light_erased passed s) (omega arith)
            (ap (λ l. erase_at l (length passed)) e ∙ erase_at-append passed todo a) c
            (enough_hit hit))
      | inr other ↦ rw other (
          ap (λ i. remove_light_loop fuel obj i s) (snoc_length passed a)
          ∙ light_loop-done fuel obj n (passed ++ (a ∷ [])) todo s (omega arith)
              (snoc passed todo s.light_sources a e) (omega (arith, c, snoc_length passed a))
              (enough_other other)
          ∙ ap (λ l. done (record s { light_sources = l }))
              (append_assoc passed (a ∷ []) (without_before n obj todo)))
    ]
  where
    enough_hit : a == obj ≡ true → suc n ≤ length (without obj todo)
    enough_hit hit =
        subst (λ b. suc n ≤ length (if b then without obj todo else a ∷ without obj todo)) hit
          enough

    enough_other : a == obj ≡ false → n ≤ length (without obj todo)
    enough_other other =
        let k =
          subst (λ b. suc n ≤ length (if b then without obj todo else a ∷ without obj todo)) other
            enough in
        omega arith

-- RemoveLightSource, where fewer light sources than there are shadow casters would be left: the loop,
-- which runs to the number of shadow casters, reads beyond the end of the light sources.
pub remove_light_source-faults :
    (obj : ℕ) (s : ShadowLayer)
    → length (without obj s.light_sources) < length s.shadow_casters
    → remove_light_source obj s ≡ faults
unfolding remove_light_source
remove_light_source-faults obj s few =
    light_loop-faults (length s.light_sources + 1) obj (length s.shadow_casters) [] s.light_sources
      s (omega arith) refl (omega arith) few

-- RemoveLightSource, where at least as many light sources as there are shadow casters would be left:
-- it returns, but only the occurrences of the object are gone that stand before as many other light
-- sources as there are shadow casters. The shadow casters are as they were.
pub remove_light_source-partial :
    (obj : ℕ) (s : ShadowLayer)
    → length s.shadow_casters ≤ length (without obj s.light_sources)
    → remove_light_source obj s
      ≡ done (record s {
        light_sources = without_before (length s.shadow_casters) obj s.light_sources;
      })
unfolding remove_light_source
remove_light_source-partial obj s enough =
    light_loop-done (length s.light_sources + 1) obj (length s.shadow_casters) [] s.light_sources s
      (omega arith) refl (omega arith) enough
