-- ===== src/Level/Lights.antt =====
-- class LightTexture and the textures of class LightSource (client/LightSource.h,
-- client/LightSource.cpp). The radius and the color of a light are left out; `Level.Rendering` has its drawing.
use legendofstealth.Prelude.{
  ◌>>=◌, ℕ, Option, none, some, Bool, true, false, ◌==◌, ◌-◌, ◌+◌, if◌then◌else◌, Outcome, done,
  faults,
}

-- The static members of LightTexture, with the render textures that are allocated: `live` says of an
-- address whether the texture there has not been deleted, `next_texture` is the address of the next one,
-- and `retained` counts the references to each Texture that SetTexture is given.
pub record Textures : Type 0 where
  pub render_texture : Option ℕ
  pub refs : ℕ
  pub live : ℕ → Bool
  pub next_texture : ℕ
  pub retained : ℕ → ℕ

-- `_texture` and `_sharedTexture`; none is NULL.
pub record LightSource : Type 0 where
  pub texture : Option ℕ
  pub shared_texture : Option ℕ

abbrev pub with_value : {A : Type 0} → (ℕ → A) → ℕ → A → ℕ → A
with_value f a v b = if a == b then v else f b

-- LightSource::LightSource
unfoldable pub new_light_source : LightSource
new_light_source = record { texture = none; shared_texture = none }

-- CreateSharedTexture, where there is no texture: a new one. `Level.Fan` has what it draws.
unfoldable pub create_shared_texture : Textures → Textures
create_shared_texture g = record g {
  render_texture = some g.next_texture;
  live = with_value g.live g.next_texture true;
  next_texture = g.next_texture + 1;
}

-- GetSharedTexture
abbrev pub if_missing : Option ℕ → Textures → Textures
if_missing none g = create_shared_texture g
if_missing (some a) g = g

unfoldable pub get_shared_texture : Textures → Option ℕ × Textures
get_shared_texture g = let g' = if_missing g.render_texture g in (g'.render_texture, g')

-- RetainSharedTexture
unfoldable pub retain_shared_texture : Textures → Textures
retain_shared_texture g = record g { refs = g.refs + 1 }

-- DeleteSharedTexture: the pointer is kept. Deleting a texture twice is a fault.
abbrev pub delete_texture : Option ℕ → Textures → Outcome Textures
delete_texture none g = done g
delete_texture (some a) g =
    if g.live a then done (record g { live = with_value g.live a false }) else faults

unfoldable pub delete_shared_texture : Textures → Outcome Textures
delete_shared_texture g = delete_texture g.render_texture g

-- LightTexture::ReleaseSharedTexture
unfoldable pub release_texture : Textures → Outcome Textures
unfolding delete_shared_texture
release_texture g =
    let g' = if g.refs == 0 then g else record g { refs = g.refs - 1 } in
    let deleted = delete_shared_texture g' in if g'.refs == 0 then deleted else done g'

-- IsUsingSharedTexture
unfoldable pub is_using_shared_texture : LightSource → Bool
is_using_shared_texture l = elim l.shared_texture [ none ↦ false | some a ↦ true ]

-- UseSharedTexture: a texture of the light's own is dropped without a release.
abbrev pub taken_from : LightSource → Option ℕ × Textures → LightSource × Textures
taken_from l (shared, g) = (record l { shared_texture = shared }, retain_shared_texture g)

unfoldable pub use_shared_texture : LightSource → Textures → LightSource × Textures
use_shared_texture l g =
    let l' = record l { texture = none } in
    if is_using_shared_texture l' then (l', g) else taken_from l' (get_shared_texture g)

-- LightSource::ReleaseSharedTexture
abbrev pub released : LightSource → Outcome Textures → Outcome (LightSource × Textures)
released l (done g) = done (record l { shared_texture = none }, g)
released l faults = faults
released l Outcome.throws = Outcome.throws
released l Outcome.out_of_fuel = Outcome.out_of_fuel

unfoldable pub release_shared_texture : LightSource → Textures → Outcome (LightSource × Textures)
release_shared_texture l g =
    if is_using_shared_texture l then released l (release_texture g) else done (l, g)

-- SetLightProperties: the properties are left out.
unfoldable pub set_light_properties : LightSource → Textures → LightSource × Textures
unfolding use_shared_texture
set_light_properties l g = use_shared_texture l g

-- SetTexture(texture): the light's former texture is dropped without a release.
abbrev pub retained_by : ℕ → LightSource × Textures → Outcome (LightSource × Textures)
retained_by a (l, g) = done (
  record l { texture = some a },
  record g { retained = with_value g.retained a (g.retained a + 1) },
)

unfoldable pub set_texture : ℕ → LightSource → Textures → Outcome (LightSource × Textures)
set_texture a l g = release_shared_texture l g >>= retained_by a

-- ~LightSource: a texture of the light's own is released.
abbrev pub dropped_by : LightSource × Textures → Outcome Textures
dropped_by (l, g) = elim l.texture [
  | none ↦ done g
  | some a ↦ done (record g { retained = with_value g.retained a (g.retained a - 1) })
]

unfoldable pub delete_light_source : LightSource → Textures → Outcome Textures
delete_light_source l g = release_shared_texture l g >>= dropped_by
