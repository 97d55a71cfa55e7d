-- ===== src/Prelude/Text.antt =====
-- Texts: white space, `strip`, the order of code points, and f-strings as the list of their parts.
use Prim.Native.Nat.{ℕ}
use Prim.Native.Char.{Char, code}
use Prim.Native.String
use Prim.Native.String.{String}
use mathlib.Core.Bool.{Bool, true, false, ◌&&◌, ◌||◌}
use mathlib.Core.List.{List, [], ◌∷◌}
use analysis_loop.Prelude.Tests.{ltb, leb, eqb, ℤ, if◌then◌else◌}

-- The code points of a text.
abbrev pub codes : String → List ℕ
codes String.[] = []
codes (String.◌∷◌ c s) = code c ∷ codes s

infixr 66 ◌<>◌
-- `s + t` on texts.
abbrev pub ◌<>◌ : String → String → String
s <> t = String.◌++◌ s t

-- `str.isspace` of one code point.
unfoldable pub is_space : ℕ → Bool
is_space c =
    leb 9 c && leb c 13
    || leb 28 c && leb c 32
    || eqb c 133
    || eqb c 160
    || eqb c 5760
    || leb 8192 c && leb c 8202
    || leb 8232 c && leb c 8233
    || eqb c 8239
    || eqb c 8287
    || eqb c 12288

-- `not s.strip()`.
unfoldable pub is_blank : String → Bool
unfolding is_space
is_blank String.[] = true
is_blank (String.◌∷◌ c s) = is_space (code c) && is_blank s

pub lstrip : String → String
unfolding is_space
lstrip String.[] = String.[]
lstrip (String.◌∷◌ c s) = if is_space (code c) then lstrip s else String.◌∷◌ c s

drop_blank : Char → String → String
drop_blank c String.[] = if is_space (code c) then String.[] else String.◌∷◌ c String.[]
drop_blank c (String.◌∷◌ d s) = String.◌∷◌ c (String.◌∷◌ d s)

pub rstrip : String → String
unfolding is_space drop_blank
rstrip String.[] = String.[]
rstrip (String.◌∷◌ c s) = drop_blank c (rstrip s)

-- `s.strip()`.
unfoldable pub strip : String → String
unfolding lstrip rstrip
strip s = rstrip (lstrip s)

-- `" ".join(s.split())`: white space is cut at the ends and one space elsewhere.
pub collapse : Bool → Bool → String → String
unfolding is_space
collapse started gap String.[] = String.[]
collapse started gap (String.◌∷◌ c s) =
    let skip = collapse started true s in
    let rest = String.◌∷◌ c (collapse true false s) in
    if is_space (code c) then skip else if started && gap then " " <> rest else rest

unfoldable pub join_split : String → String
unfolding collapse
join_split s = collapse false false s

-- The lexicographic order of code points, which `sorted` uses on texts.
abbrev pub codes_leb : List ℕ → List ℕ → Bool
codes_leb [] ys = true
codes_leb (x ∷ xs) [] = false
codes_leb (x ∷ xs) (y ∷ ys) = let rest = codes_leb xs ys in ltb x y || (eqb x y && rest)

-- A part of an f-string: literal text, an interpolated text, number, integer or list.
pub data Piece : Type 0 where
  lit : String → Piece
  arg : String → Piece
  num : ℕ → Piece
  int : ℤ → Piece
  strs : List String → Piece

-- An f-string is the list of its parts; how a part is printed is not modelled.
abbrev pub Message : Type 0
Message = List Piece

abbrev pub say : String → Message
say s = lit s ∷ []

-- A printed number or list is never blank.
unfoldable pub is_blank_piece : Piece → Bool
unfolding is_blank
is_blank_piece (lit s) = is_blank s
is_blank_piece (arg s) = is_blank s
is_blank_piece _ = false

-- `not message.strip()`.
unfoldable pub is_blank_message : Message → Bool
unfolding is_blank_piece
is_blank_message [] = true
is_blank_message (p ∷ ps) = is_blank_piece p && is_blank_message ps
