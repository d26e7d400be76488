-- ===== src/Text.antt =====
-- `str.strip` and `str.lower`, for ASCII: other white space and other capitals are left alone.
use Prim.Native.Char.{Char, code}
use webui_hub.Prelude.{String, Bool, ◌||◌, ◌&&◌, leb, eqb, if◌then◌else◌, ◌==◌}

unfoldable pub is_space : Char → Bool
is_space c = eqb (code c) 32 || (leb 9 (code c) && leb (code c) 13)

unfoldable pub lstrip : String → String
unfolding is_space
lstrip String.[] = String.[]
lstrip (String.◌∷◌ c s) = let rest = lstrip s in if is_space c then rest else String.◌∷◌ c s

-- A blank is dropped if nothing but blanks follows it.
unfoldable pub rstrip : String → String
unfolding is_space
rstrip String.[] = String.[]
rstrip (String.◌∷◌ c s) =
    let rest = rstrip s in if is_space c && (rest == "") then String.[] else String.◌∷◌ c rest

unfoldable pub strip : String → String
unfolding lstrip rstrip
strip s = rstrip (lstrip s)

-- The character of the second text at the place of `c` in the first.
translate : String → String → Char → Char
translate (String.◌∷◌ a s) (String.◌∷◌ b t) c =
    let rest = translate s t c in if eqb (code a) (code c) then b else rest
translate _ _ c = c

unfoldable pub lower : String → String
unfolding translate
lower String.[] = String.[]
lower (String.◌∷◌ c s) =
    String.◌∷◌ (translate "ABCDEFGHIJKLMNOPQRSTUVWXYZ" "abcdefghijklmnopqrstuvwxyz" c) (lower s)
