-- ===== src/ConfigParser/Text.antt =====
-- Texts in src/config.cpp.
use Prim.Native.Char.{Char, code}
use redis_pvxs_ioc.Prelude.{
  ℕ, zero, suc, ◌+◌, ◌-◌, leb, String, Bool, false, ◌&&◌, ◌||◌, List, [], ◌∷◌, ◌==◌, ltb,
  if◌then◌else◌, str_eq,
}

unfoldable pub is_in : String → List String → Bool
is_in name [] = false
is_in name (x ∷ xs) = str_eq x name || is_in name xs

-- The character at a place of a text, or else the given one.
char_at : ℕ → String → Char → Char
char_at n String.[] other = other
char_at zero (String.◌∷◌ c s) other = c
char_at (suc n) (String.◌∷◌ c s) other = char_at n s other

-- std::tolower in the C locale
lower_char : Char → Char
unfolding char_at
lower_char c =
    if leb b'A' (code c) && leb (code c) b'Z'
    then char_at (code c - b'A') "abcdefghijklmnopqrstuvwxyz" c
    else c

unfoldable pub lower_copy : String → String
unfolding lower_char
lower_copy String.[] = String.[]
lower_copy (String.◌∷◌ c s) = String.◌∷◌ (lower_char c) (lower_copy s)

-- std::string::size, the bytes of UTF-8
unfoldable pub size : String → ℕ
size String.[] = 0
size (String.◌∷◌ c s) =
    (if ltb (code c) 128
      then 1
      else if ltb (code c) 2048
      then 2
      else if ltb (code c) 65536
      then 3
      else 4)
    + size s

-- find_first_not_of(" \t\r\n") finds a '-'
unfoldable pub begins_minus : String → Bool
begins_minus String.[] = false
begins_minus (String.◌∷◌ c s) =
    let rest = begins_minus s in
    if code c == b' ' || (code c == 9 || (code c == 13 || code c == 10))
    then rest
    else code c == b'-'
