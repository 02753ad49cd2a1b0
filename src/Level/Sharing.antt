-- ===== src/Level/Sharing.antt =====
-- The texture that the light sources share (client/LightSource.cpp).
use legendofstealth.Level.Lights.{
  LightSource, Textures, with_value, use_shared_texture, release_shared_texture, release_texture,
  is_using_shared_texture, get_shared_texture, retain_shared_texture, delete_shared_texture,
}
use legendofstealth.Prelude.{
  ◌∙◌, sym, ◌-◌, zero, ==_self, subst, ==_ne, ap, arith, faults, ◌==◌, false, ◌+◌, true, done, none,
  ◌<◌, suc, some, ◌≡◌, refl, ℕ,
}

-- The state of LightTexture while light sources use the texture at this address.
pub record InUse (a : ℕ) (g : Textures) : Type 0 where
  pub pointer : g.render_texture ≡ some a
  pub counted : 0 < g.refs
  pub alive : g.live a ≡ true

pub use_taken :
    (a : ℕ) (l : LightSource) (g : Textures)
    → g.render_texture ≡ some a
    → l.shared_texture ≡ none
    → use_shared_texture l g
      ≡ (record { texture = none; shared_texture = some a }, record g { refs = g.refs + 1 })
unfolding use_shared_texture get_shared_texture retain_shared_texture is_using_shared_texture
use_taken a l g p n = rw n (rw p refl)

pub release_kept :
    (a b n : ℕ) (l : LightSource) (g : Textures)
    → g.refs ≡ suc (suc n)
    → l.shared_texture ≡ some b
    → release_shared_texture l g
      ≡ done (record l { shared_texture = none }, record g { refs = suc n })
unfolding release_shared_texture release_texture is_using_shared_texture
release_kept a b n l g r s = rw s (
    rw r (
      rw (first, second)
        (ap (λ k. done (record l { shared_texture = none }, record g { refs = k })) (omega arith))))
  where
    first : suc (suc n) == 0 ≡ false
    first = ==_ne (suc (suc n)) 0 (λ e. omega arith)

    second : suc (suc n) - 1 == 0 ≡ false
    second = ==_ne (suc (suc n) - 1) 0 (λ e. omega arith)

abbrev gone : ℕ → Textures → Textures
gone a g = record g { refs = 0; live = with_value g.live a false }

release_twice :
    (a b : ℕ) (l : LightSource) (g : Textures)
    → g.render_texture ≡ some a
    → g.live a ≡ false
    → g.refs ≡ 1
    → l.shared_texture ≡ some b
    → release_shared_texture l g ≡ faults
unfolding release_shared_texture release_texture is_using_shared_texture delete_shared_texture
release_twice a b l g p v r s = rw s (rw r (rw p (rw v refl)))

release_last :
    (a b : ℕ) (l : LightSource) (g : Textures)
    → g.render_texture ≡ some a
    → g.live a ≡ true
    → g.refs ≡ 1
    → l.shared_texture ≡ some b
    → release_shared_texture l g
      ≡ done (
        record l { shared_texture = none },
        record g { refs = 0; live = with_value g.live a false },
      )
unfolding release_shared_texture release_texture is_using_shared_texture delete_shared_texture
release_last a b l g p v r s = rw s (rw r (rw p (rw v refl)))

positive : (k : ℕ) → 0 < k → (n : ℕ) × (k ≡ suc n)
positive zero h = absurd (omega arith)
positive (suc n) h = (n, refl)

-- A light source that starts to use the shared texture while others use it, and then releases it:
-- it gets their texture, which stays alive, and the release leaves the count and the texture as they
-- were before.
pub release_shared_texture-use :
    (a : ℕ) (l : LightSource) (g : Textures)
    → InUse a g
    → l.shared_texture ≡ none
    → ((use_shared_texture l g).0.shared_texture ≡ some a)
      × InUse a (use_shared_texture l g).1
      × (release_shared_texture (use_shared_texture l g).0 (use_shared_texture l g).1
          ≡ done (record { texture = none; shared_texture = none }, g))
release_shared_texture-use a l g v s =
    let (n, r) = positive g.refs v.counted in
    let used = use_taken a l g v.pointer s in
    (
      ap (λ x. x.0.shared_texture) used,
      subst (λ x. InUse a x.1) (sym used)
          (record { pointer = v.pointer; counted = omega arith; alive = v.alive }),
      ap (λ x. release_shared_texture x.0 x.1) used
          ∙ release_kept a a n (record { texture = none; shared_texture = some a })
              (record g { refs = g.refs + 1 }) (omega arith) refl
          ∙ ap (λ k. done (record { texture = none; shared_texture = none }, record g { refs = k }))
              (sym r),
    )

-- The last light source that uses the shared texture, while it is alive, releases it, and a light
-- source that does not use it asks for it: that gets the texture that has been deleted by the
-- release, and if it releases that, then the texture is deleted a second time, which is a fault.
pub release_shared_texture-dangling :
    (a b : ℕ) (l next : LightSource) (g : Textures)
    → InUse a g
    → g.refs ≡ 1
    → l.shared_texture ≡ some b
    → next.shared_texture ≡ none
    → (g' : Textures) × (release_shared_texture l g ≡ done (record l { shared_texture = none }, g'))
      × ((use_shared_texture next g').0.shared_texture ≡ some a)
      × ((use_shared_texture next g').1.live a ≡ false)
      × (release_shared_texture (use_shared_texture next g').0 (use_shared_texture next g').1
          ≡ faults)
release_shared_texture-dangling a b l next g v one s s' =
    let used = use_taken a next (gone a g) v.pointer s' in
    (
      gone a g,
      release_last a b l g v.pointer v.alive one s,
      ap (λ x. x.0.shared_texture) used,
      ap (λ x. x.1.live a) used ∙ dead,
      ap (λ x. release_shared_texture x.0 x.1) used
          ∙ release_twice a a (record { texture = none; shared_texture = some a })
              (record (gone a g) { refs = 0 + 1 }) v.pointer dead (omega arith) refl,
    )
  where
    dead : with_value g.live a false a ≡ false
    dead = rw (==_self a) refl
