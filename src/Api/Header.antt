-- ===== src/Api/Header.antt =====
-- The headers of a request as apps/api/src/plugins reads them. Their texts are Latin-1.
use rescue.Prelude.{
  Bool, List, Option, String, [], if◌then◌else◌, leb, none, some, suc, zero, ℕ, ◌&&◌, ◌==◌, ◌||◌,
  ◌∷◌,
}
use Prim.Native.Char.{code}
use text.Mathlib.Text.{◌==◌ as str_eq}

-- A header is absent, or there once, or several times.
pub data HeaderValue : Type 0 where
  absent : HeaderValue
  single : String → HeaderValue
  many : List String → HeaderValue

abbrev pub head_of : List String → Option String
head_of [] = none
head_of (x ∷ xs) = some x

-- `headerValue`
unfoldable pub header_value : HeaderValue → Option String
header_value HeaderValue.absent = none
header_value (HeaderValue.single text) = if str_eq text "" then none else some text
header_value (HeaderValue.many texts) = head_of texts

abbrev is_space : ℕ → Bool
is_space n = (leb 9 n && leb n 13) || (n == 32) || (n == 160)

-- `trim` on the left.
abbrev pub trim_start : String → String
trim_start String.[] = String.[]
trim_start (String.◌∷◌ c s) =
    let rest = trim_start s in if is_space (code c) then rest else String.◌∷◌ c s

-- `trim` on the right: a space goes if nothing but spaces follows.
abbrev pub trim_end : String → String
trim_end String.[] = String.[]
trim_end (String.◌∷◌ c s) =
    let rest = trim_end s in
    if is_space (code c) && str_eq rest "" then String.[] else String.◌∷◌ c rest

abbrev pub trim : String → String
trim s = trim_end (trim_start s)

-- `slice(0, n)`
abbrev pub first_chars : ℕ → String → String
first_chars zero s = String.[]
first_chars (suc n) String.[] = String.[]
first_chars (suc n) (String.◌∷◌ c s) = String.◌∷◌ c (first_chars n s)
