-- ===== src/Prelude/Text.antt =====
-- Python's `str` methods that the program uses, on texts as sequences of characters.
use Prim.Native.Nat.{ℕ, zero, suc}
use Prim.Native.Char.{Char, code}
use Prim.Native.String.{String, ◌++◌ as ◌<>◌}
use mathlib.Core.Bool.{Bool, true, false, ◌&&◌, ◌||◌}
use mathlib.Core.List.{List, [], ◌∷◌}
use text.Mathlib.Text
use gamehub.Prelude.Tests.{leb, nat_eq, ◌==◌, if◌then◌else◌}

-- `c.isspace()` on a code point
unfoldable pub is_space : ℕ → Bool
is_space c =
    (leb 9 c && leb c 13)
    || (leb 28 c && leb c 32)
    || nat_eq c 133
    || nat_eq c 160
    || nat_eq c 5760
    || (leb 8192 c && leb c 8202)
    || nat_eq c 8232
    || nat_eq c 8233
    || nat_eq c 8239
    || nat_eq c 8287
    || nat_eq c 12288

lstrip_where : (ℕ → Bool) → String → String
lstrip_where test String.[] = ""
lstrip_where test (String.◌∷◌ c s) =
    let rest = lstrip_where test s in if test (code c) then rest else String.◌∷◌ c s

rstrip_where : (ℕ → Bool) → String → String
rstrip_where test String.[] = ""
rstrip_where test (String.◌∷◌ c s) =
    let rest = rstrip_where test s in
    if test (code c) && (rest == "") then "" else String.◌∷◌ c rest

-- `s.strip()`
unfoldable pub strip : String → String
unfolding is_space lstrip_where rstrip_where
strip s = lstrip_where is_space (rstrip_where is_space s)

-- `s.strip("/\\")`
unfoldable pub strip_slashes : String → String
unfolding lstrip_where rstrip_where
strip_slashes s =
    let slash = λ (c : ℕ). nat_eq c b'/' || nat_eq c 92 in lstrip_where slash (rstrip_where slash s)

-- `s.strip("/")`
unfoldable pub strip_slash : String → String
unfolding lstrip_where rstrip_where
strip_slash s = let slash = λ (c : ℕ). nat_eq c b'/' in lstrip_where slash (rstrip_where slash s)

unfoldable pub add_front : Char → List String → List String
add_front c [] = String.◌∷◌ c "" ∷ []
add_front c (s ∷ r) = String.◌∷◌ c s ∷ r

-- `s.split(sep)` for a separator of one character
unfoldable pub split : ℕ → String → List String
unfolding add_front
split sep String.[] = "" ∷ []
split sep (String.◌∷◌ c s) =
    let rest = split sep s in if nat_eq (code c) sep then "" ∷ rest else add_front c rest

-- `sep.join(parts)`
unfoldable pub join : String → List String → String
join sep [] = ""
join sep (s ∷ []) = s
join sep (s ∷ t ∷ r) = s <> sep <> join sep (t ∷ r)

-- `s.startswith(t)`
abbrev pub starts_with : String → String → Bool
starts_with s t = Text.starts_with s t

-- `s[:n]`
unfoldable pub take_text : ℕ → String → String
take_text zero s = ""
take_text (suc n) String.[] = ""
take_text (suc n) (String.◌∷◌ c s) = String.◌∷◌ c (take_text n s)

-- `s[n:]`
unfoldable pub drop_text : ℕ → String → String
drop_text zero s = s
drop_text (suc n) String.[] = ""
drop_text (suc n) (String.◌∷◌ c s) = drop_text n s

-- `len(s)`
unfoldable pub text_length : String → ℕ
text_length String.[] = 0
text_length (String.◌∷◌ c s) = suc (text_length s)

-- `all(test(c) for c in s)`
unfoldable pub all_chars : (ℕ → Bool) → String → Bool
all_chars test String.[] = true
all_chars test (String.◌∷◌ c s) = test (code c) && all_chars test s

-- The text without one line break at its end: where `$` matches.
unfoldable pub chomp : String → String
chomp String.[] = ""
chomp (String.◌∷◌ c s) =
    let rest = chomp s in if nat_eq (code c) 10 && (s == "") then "" else String.◌∷◌ c rest

-- `c in s` for one character
unfoldable pub has_char : ℕ → String → Bool
has_char c String.[] = false
has_char c (String.◌∷◌ d s) = nat_eq (code d) c || has_char c s
