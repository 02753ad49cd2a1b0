-- ===== src/Level/Casters.antt =====
-- The lists of class ShadowLayer (client/ShadowLayer.h, client/ShadowLayer.cpp). Light sources and
-- shadow casters are addresses.
use legendofstealth.Prelude.{
  ℕ, List, [], ◌∷◌, ◌++◌, Option, none, some, ◌==◌, ◌+◌, zero, suc, if◌then◌else◌, get_elem?,
  erase_at, length, ltb, Outcome, done, faults, out_of_fuel,
}

pub record ShadowLayer : Type 0 where
  pub light_sources : List ℕ
  pub shadow_casters : List ℕ

-- AddLightSource(obj), AddShadowCaster(obj)
unfoldable pub add_light_source : ℕ → ShadowLayer → ShadowLayer
add_light_source obj s = record s { light_sources = s.light_sources ++ (obj ∷ []) }

unfoldable pub add_shadow_caster : ℕ → ShadowLayer → ShadowLayer
add_shadow_caster obj s = record s { shadow_casters = s.shadow_casters ++ (obj ∷ []) }

-- The body of the loop of RemoveShadowCaster at the index `i`: after an erase the index stays.
abbrev pub caster_at :
    (ℕ → ShadowLayer → Outcome ShadowLayer) → ℕ → ℕ → ShadowLayer → Option ℕ → Outcome ShadowLayer
caster_at again obj i s none = done s
caster_at again obj i s (some a) =
    let erased = again i (record s { shadow_casters = erase_at s.shadow_casters i }) in
    let kept = again (i + 1) s in if a == obj then erased else kept

-- Each round leaves one shadow caster fewer to come.
unfoldable pub remove_caster_loop : ℕ → ℕ → ℕ → ShadowLayer → Outcome ShadowLayer
remove_caster_loop zero obj i s = if ltb i (length s.shadow_casters) then out_of_fuel else done s
remove_caster_loop (suc fuel) obj i s =
    caster_at (λ j t. remove_caster_loop fuel obj j t) obj i s (get_elem? s.shadow_casters i)

-- RemoveShadowCaster(obj)
unfoldable pub remove_shadow_caster : ℕ → ShadowLayer → Outcome ShadowLayer
remove_shadow_caster obj s = remove_caster_loop (length s.shadow_casters) obj 0 s

-- The body of the loop of RemoveLightSource at the index `i`: a read of `_lightSources` beyond its end
-- is a fault.
abbrev pub light_at :
    (ℕ → ShadowLayer → Outcome ShadowLayer) → ℕ → ℕ → ShadowLayer → Option ℕ → Outcome ShadowLayer
light_at again obj i s none = faults
light_at again obj i s (some a) =
    let erased = again i (record s { light_sources = erase_at s.light_sources i }) in
    let kept = again (i + 1) s in if a == obj then erased else kept

-- The loop runs to the number of shadow casters. Each round that does not fault uses up an index or
-- a light source.
unfoldable pub remove_light_loop : ℕ → ℕ → ℕ → ShadowLayer → Outcome ShadowLayer
remove_light_loop zero obj i s = if ltb i (length s.shadow_casters) then out_of_fuel else done s
remove_light_loop (suc fuel) obj i s =
    let round =
      light_at (λ j t. remove_light_loop fuel obj j t) obj i s (get_elem? s.light_sources i) in
    if ltb i (length s.shadow_casters) then round else done s

-- RemoveLightSource(obj)
unfoldable pub remove_light_source : ℕ → ShadowLayer → Outcome ShadowLayer
remove_light_source obj s = remove_light_loop (length s.light_sources + 1) obj 0 s
