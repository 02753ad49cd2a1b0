-- ===== src/Level/Opening.antt =====
-- MapParser::MapParser (client/MapParser.cpp): the tile sets of a map. What TmxParser read is a
-- parameter.
use legendofstealth.Level.Layers.{Tileset}
use legendofstealth.Prelude.{
  ap, ap₂, ◌∙◌, throws, false, none, done, ◌≡◌, if◌then◌else◌, true, Outcome, Bool, List, some,
  Option, [], ◌∷◌, refl,
}

-- The names that the constructor tells apart.
pub data TilesetName : Type 0 where
  mapset objectset other_tileset : TilesetName

pub record NamedTileset : Type 0 where
  pub name : TilesetName
  pub tileset : Tileset

-- `_mapset` and `_objset`, NULL at first.
pub record Tilesets : Type 0 where
  pub mapset : Option Tileset
  pub objset : Option Tileset

abbrev pub noted_tileset : TilesetName → Tileset → Tilesets → Tilesets
noted_tileset mapset t s = record s { mapset = some t }
noted_tileset objectset t s = record s { objset = some t }
noted_tileset other_tileset t s = s

-- The loop over the tile sets.
unfoldable pub locate : List NamedTileset → Tilesets → Tilesets
locate [] s = s
locate (t ∷ ts) s = locate ts (noted_tileset t.name t.tileset s)

abbrev pub required : Option Tileset → Option Tileset → Outcome (Tileset × Tileset)
required (some m) (some o) = done (m, o)
required (some m) none = throws
required none o = throws

-- MapParser(mapFile, map): `has_error` is what Tmx::Map::HasError returns.
unfoldable pub new_map_parser : Bool → List NamedTileset → Outcome (Tileset × Tileset)
new_map_parser has_error sets =
    let s = locate sets (record { mapset = none; objset = none }) in
    if has_error then throws else required s.mapset s.objset

-- The last tile set of a name, or the one that was there before.
abbrev pub is_named : TilesetName → TilesetName → Bool
is_named mapset mapset = true
is_named objectset objectset = true
is_named other_tileset other_tileset = true
is_named _ _ = false

abbrev pub last_named : TilesetName → List NamedTileset → Option Tileset → Option Tileset
last_named name [] before = before
last_named name (t ∷ ts) before =
    last_named name ts (if is_named t.name name then some t.tileset else before)

noted-mapset :
    (n : TilesetName) (t : Tileset) (s : Tilesets)
    → (noted_tileset n t s).mapset ≡ (if is_named n mapset then some t else s.mapset)
noted-mapset mapset t s = refl
noted-mapset objectset t s = refl
noted-mapset other_tileset t s = refl

noted-objset :
    (n : TilesetName) (t : Tileset) (s : Tilesets)
    → (noted_tileset n t s).objset ≡ (if is_named n objectset then some t else s.objset)
noted-objset mapset t s = refl
noted-objset objectset t s = refl
noted-objset other_tileset t s = refl

locate-mapset :
    (ts : List NamedTileset) (s : Tilesets) → (locate ts s).mapset ≡ last_named mapset ts s.mapset
unfolding locate
locate-mapset [] s = refl
locate-mapset (t ∷ ts) s =
    locate-mapset ts (noted_tileset t.name t.tileset s)
    ∙ ap (last_named mapset ts) (noted-mapset t.name t.tileset s)

locate-objset :
    (ts : List NamedTileset) (s : Tilesets)
    → (locate ts s).objset ≡ last_named objectset ts s.objset
unfolding locate
locate-objset [] s = refl
locate-objset (t ∷ ts) s =
    locate-objset ts (noted_tileset t.name t.tileset s)
    ∙ ap (last_named objectset ts) (noted-objset t.name t.tileset s)

-- The constructor of MapParser throws where the file has an error, or where no tile set is named
-- mapset or none objectset; otherwise it takes the last one of each name.
pub new_map_parser-last_named :
    (has_error : Bool) (sets : List NamedTileset)
    → new_map_parser has_error sets ≡ (
        if has_error
        then throws
        else required (last_named mapset sets none) (last_named objectset sets none))
unfolding new_map_parser
new_map_parser-last_named has_error sets =
    ap₂ (λ m o. if has_error then throws else required m o)
      (locate-mapset sets (record { mapset = none; objset = none }))
      (locate-objset sets (record { mapset = none; objset = none }))
