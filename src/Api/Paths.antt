-- ===== src/Api/Paths.antt =====
-- The paths of the server's routes: words and identifiers behind slashes.
use revlm.Base.{
  String, ℕ, ◌≡◌, refl, ap, Bool, true, false, not, ◌&&◌, Option, none, some, List, [], ◌∷◌, map,
  arith, if◌then◌else◌, All, All-imp, Text, codes, text_eq, includes_char, split, join, Lacks,
  value, to_text, value-to_text, All-to_text,
}
use revlm.Api.Http.{Method, Request}
use revlm.Channels.Csv.Splits.{split-join}

pub data Piece : Type 0 where
  word : String → Piece
  id : ℕ → Piece

abbrev piece_text : Piece → Text
piece_text (word w) = codes w
piece_text (id n) = to_text n

-- No word holds a slash.
abbrev are_words : List Piece → Bool
are_words [] = true
are_words (word w ∷ ps) = not (includes_char (codes w) b'/') && are_words ps
are_words (id n ∷ ps) = are_words ps

abbrev pub path : List Piece → Text
path ps = join ([] ∷ map piece_text ps) b'/'

Lacks-char : (c : ℕ) (t : Text) → includes_char t c ≡ false → Lacks c t
Lacks-char c [] h = tt
Lacks-char c (d ∷ t) h = (ground arith, Lacks-char c t (ground arith))

and_left : (a b : Bool) → (not a && b) ≡ true → (a ≡ false) × (b ≡ true)
and_left true b h = cc
and_left false b h = (refl, h)

Lacks-pieces : (ps : List Piece) → are_words ps ≡ true → All (Lacks b'/') (map piece_text ps)
Lacks-pieces [] h = tt
Lacks-pieces (word w ∷ ps) h =
    let (plain, rest) = and_left _ _ h in (Lacks-char b'/' (codes w) plain, Lacks-pieces ps rest)
Lacks-pieces (id n ∷ ps) h =
    (All-imp (λ c d. omega arith) (to_text n) (All-to_text n), Lacks-pieces ps h)

-- A path is cut at its slashes into the pieces that it was made of.
split-path : (ps : List Piece) → are_words ps ≡ true → split (path ps) b'/' ≡ [] ∷ map piece_text ps
split-path ps h = split-join b'/' [] (map piece_text ps) (tt, Lacks-pieces ps h)

-- What is left behind the first pieces of a path.
abbrev pub behind : List Text → List Text → Option (List Text)
behind [] ts = some ts
behind (p ∷ ps) [] = none
behind (p ∷ ps) (t ∷ ts) = if text_eq p t then behind ps ts else none

module _ {R : Type 0} where
  abbrev read_behind : (Method → List Text → Option R) → Method → Option (List Text) → Option R
  read_behind on m none = none
  read_behind on m (some ts) = on m ts

  -- A request as a server reads it: by its method and what its path has behind `root`.
  abbrev pub route_of : List Text → (Method → List Text → Option R) → Request → Option R
  route_of root on r = read_behind on r.method (behind root (split r.url b'/'))

  -- It is read by the pieces of its path.
  pub route_of-path :
      (root : List Text) (on : Method → List Text → Option R) (m : Method) (ps : List Piece)
      → are_words ps ≡ true
      → read_behind on m (behind root (split (path ps) b'/'))
        ≡ read_behind on m (behind root ([] ∷ map piece_text ps))
  route_of-path root on m ps h = ap (λ ts. read_behind on m (behind root ts)) (split-path ps h)

  -- An identifier in the path is read back.
  pub numbered : (f : ℕ → R) (n : ℕ) → some (f (value (to_text n))) ≡ some (f n)
  numbered f n = ap (λ k. some (f k)) (value-to_text n)
