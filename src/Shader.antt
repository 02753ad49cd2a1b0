-- ===== src/Shader.antt =====
-- class Shader (client/Shader.h, client/Shader.cpp): a program of OpenGL. OpenGL and the files are a
-- parameter. `Loading` makes and destroys a shader, `Uniforms` has its uniforms; `Lines`, `Handles`,
-- `Objects`, `Leaks`, `Locations` and `Setting` have the proofs.
pub mod Lines
pub mod Loading
pub mod Uniforms
pub mod Locations
pub mod Setting
pub mod Handles
pub mod Objects
pub mod Leaks
use legendofstealth.Prelude.Int.{ℤ}
use legendofstealth.Prelude.{
  zero, done, ◌++◌, ◌==◌, none, suc, ◌∷◌, true, ◌+◌, length, out_of_fuel, ◌||◌, false, some,
  Outcome, if◌then◌else◌, [], Bool, Option, List, ℕ,
}

-- GL_FRAGMENT_SHADER and GL_VERTEX_SHADER
pub data Stage : Type 0 where
  fragment_shader vertex_shader : Stage

-- What the class calls of OpenGL, and the contents of a file, none where it cannot be opened. Shaders
-- and programs are numbers, and 0 is none.
pub record OpenGl : Type 1 where
  pub World : Type 0
  pub GlFloat : Type 0
  pub create_shader : Stage → World → ℕ × World
  pub create_program : World → ℕ × World
  pub shader_source : ℕ → List ℕ → World → World
  pub compile_shader : ℕ → World → World
  pub compile_status : ℕ → World → Bool
  pub attach_shader : ℕ → ℕ → World → World
  pub link_program : ℕ → World → World
  pub link_status : ℕ → World → Bool
  pub delete_shader : ℕ → World → World
  pub delete_program : ℕ → World → World
  pub use_program : ℕ → World → World
  pub uniform_location : ℕ → List ℕ → World → ℤ
  -- glUniform1i to glUniform4i, and glUniform1f to glUniform4f.
  pub uniform_i : ℤ → List ℤ → World → World
  pub uniform_f : ℤ → List GlFloat → World → World
  pub file_content : List ℕ → World → Option (List ℕ)

-- `_uniformID` is a function on names.
pub record Shader : Type 0 where
  pub vert : ℕ
  pub frag : ℕ
  pub prog : ℕ
  pub uniform_id : List ℕ → Option ℤ

-- ifstream, with its flags eofbit and failbit.
pub record IfStream : Type 0 where
  pub rest : List ℕ
  pub eof : Bool
  pub fail : Bool

-- `file.open(filename)`
abbrev pub opened : Option (List ℕ) → IfStream
opened none = record { rest = []; eof = false; fail = true }
opened (some content) = record { rest = content; eof = false; fail = false }

-- The line up to the first line feed, what comes behind it, and whether there was one.
abbrev pub scan : List ℕ → List ℕ × List ℕ × Bool
scan [] = ([], [], false)
scan (b ∷ bytes) = let r = scan bytes in if b == 10 then ([], bytes, true) else (b ∷ r.0, r.1, r.2)

-- getline(file, line): at the end of the file eofbit is set, and failbit where nothing was read; a
-- stream with a flag reads nothing and gets failbit.
abbrev pub scanned : List ℕ × List ℕ × Bool → List ℕ × IfStream
scanned (line, rest, true) = (line, record { rest = rest; eof = false; fail = false })
scanned ([], rest, false) = ([], record { rest = rest; eof = true; fail = true })
scanned (b ∷ line, rest, false) = (b ∷ line, record { rest = rest; eof = true; fail = false })

unfoldable pub getline : IfStream → List ℕ × IfStream
getline s = if s.eof || s.fail then ([], record s { fail = true }) else scanned (scan s.rest)

-- The loop of GetShaderSource.
unfoldable pub source_loop : ℕ → IfStream → List ℕ → Outcome (List ℕ)
source_loop zero s source = out_of_fuel
source_loop (suc fuel) s source =
    let (line, s') = getline s in
    let more = source_loop fuel s' (source ++ (line ++ 10 ∷ [])) in
    if s.fail then done source else more

-- A file of n bytes has at most n lines.
abbrev pub size_of : Option (List ℕ) → ℕ
size_of none = 0
size_of (some content) = length content

-- GetShaderSource, given what the file holds.
unfoldable pub get_shader_source : Option (List ℕ) → Outcome (List ℕ)
get_shader_source content = source_loop (size_of content + 2) (opened content) []
