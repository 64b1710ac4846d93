-- ===== src/Cmd/Resource.antt =====
-- cmd/lastro/main.go: the name of the observed resource, validateResource and resolveShaTemplate.
-- A Go string is its bytes: `range` decodes runes, and no byte of a rune above 127 is in a set that
-- is tested here.
pub mod Grammar
pub mod Substitution
use lastro.Common.{
  ℕ, zero, suc, ◌+◌, ◌-◌, ◌⊎◌, inl, inr, Bool, true, false, not, ◌&&◌, ◌||◌, Option, none, some,
  Bytes, List, length, [], ◌∷◌, ◌++◌, ltb, leb, ◌==◌, equal, if◌then◌else◌,
}
use lastro.Wire.Validate.{has_prefix}

pub data ResourceError : Type 0 where
  namespace_length namespace_char path_length path_char path_segment : ResourceError
  head_unavailable not_a_sha not_hex : ResourceError

-- `c >= lo && c <= hi`
abbrev pub between : ℕ → ℕ → ℕ → Bool
between lo hi c = leb lo c && leb c hi

abbrev pub namespace_byte : ℕ → Bool
namespace_byte c = between b'a' b'z' c || (between b'0' b'9' c || c == b'-')

abbrev pub path_byte : ℕ → Bool
path_byte c =
    between b'a' b'z' c
    || (between b'0' b'9' c || (c == b'-' || (c == b'.' || (c == b'_' || c == b'/'))))

abbrev pub hex_byte : ℕ → Bool
hex_byte c = between b'0' b'9' c || between b'a' b'f' c

-- The loop that returns an error at the first byte outside a set.
unfoldable pub all_in : (ℕ → Bool) → Bytes → Bool
all_in test [] = true
all_in test (c ∷ cs) = test c && all_in test cs

-- A byte in front of the first segment.
abbrev pub into_first : ℕ → List Bytes → List Bytes
into_first c [] = (c ∷ []) ∷ []
into_first c (seg ∷ segs) = (c ∷ seg) ∷ segs

-- strings.Split at one byte: always at least one segment.
unfoldable pub split : ℕ → Bytes → List Bytes
split sep [] = [] ∷ []
split sep (c ∷ cs) = let rest = split sep cs in if c == sep then [] ∷ rest else into_first c rest

-- `seg == "" || seg == "." || seg == ".."`
abbrev pub bad_segment : Bytes → Bool
bad_segment seg = equal seg [] || (equal seg (b'.' ∷ []) || equal seg (b'.' ∷ b'.' ∷ []))

unfoldable pub any_bad : List Bytes → Bool
any_bad [] = false
any_bad (seg ∷ segs) = bad_segment seg || any_bad segs

-- The error, or none for nil.
unfoldable pub validate_resource : Bytes → Bytes → Option ResourceError
validate_resource ns p =
    if length ns == 0 || ltb 32 (length ns)
    then some namespace_length
    else if not (all_in namespace_byte ns)
    then some namespace_char
    else if length p == 0 || ltb 180 (length p)
    then some path_length
    else if not (all_in path_byte p)
    then some path_char
    else if any_bad (split b'/' p)
    then some path_segment
    else none

-- "{sha}"
abbrev pub sha_token : Bytes
sha_token = b'{' ∷ b's' ∷ b'h' ∷ b'a' ∷ b'}' ∷ []

unfoldable pub contains : Bytes → Bytes → Bool
contains token [] = equal token []
contains token (c ∷ cs) = has_prefix (c ∷ cs) token || contains token cs

-- strings.ReplaceAll for a token of one byte and more: the number is what is left to skip of a match.
unfoldable pub replace_from : ℕ → Bytes → Bytes → Bytes → Bytes
replace_from skip token new [] = []
replace_from (suc skip) token new (c ∷ cs) = replace_from skip token new cs
replace_from zero token new (c ∷ cs) =
    let matched = new ++ replace_from (length token - 1) token new cs in
    let kept = c ∷ replace_from zero token new cs in
    if has_prefix (c ∷ cs) token then matched else kept

-- unicode.IsSpace below 128
abbrev pub is_space : ℕ → Bool
is_space c = c == b' ' || between 9 13 c

-- U+0085 and U+00A0 in UTF-8
abbrev pub is_space2 : ℕ → ℕ → Bool
is_space2 c d = c == 0xC2 && (d == 0x85 || d == 0xA0)

-- U+1680, U+2000 to U+200A, U+2028, U+2029, U+202F, U+205F and U+3000 in UTF-8
abbrev pub is_space3 : ℕ → ℕ → ℕ → Bool
is_space3 c d e =
    (c == 0xE1 && (d == 0x9A && e == 0x80))
    || ((c == 0xE2
          && (d == 0x80 && (between 0x80 0x8A e || (e == 0xA8 || (e == 0xA9 || e == 0xAF)))))
        || ((c == 0xE2 && (d == 0x81 && e == 0x9F)) || (c == 0xE3 && (d == 0x80 && e == 0x80))))

-- The bytes of the rune at the front if it is white space, and 0 if not.
abbrev pub space_width : Bytes → ℕ
space_width [] = 0
space_width (c ∷ []) = if is_space c then 1 else 0
space_width (c ∷ d ∷ []) = if is_space c then 1 else if is_space2 c d then 2 else 0
space_width (c ∷ d ∷ e ∷ rest) =
    if is_space c then 1 else if is_space2 c d then 2 else if is_space3 c d e then 3 else 0

-- The number is what is left to skip of a rune that is trimmed.
unfoldable pub trim_from : ℕ → Bytes → Bytes
trim_from skip [] = []
trim_from (suc skip) (c ∷ cs) = trim_from skip cs
trim_from zero (c ∷ cs) =
    let width = space_width (c ∷ cs) in
    let rest = trim_from (width - 1) cs in if width == 0 then c ∷ cs else rest

-- strings.TrimSpace is trim_left, then trim_right. In UTF-8 no rune begins within another, so a rune
-- is at the end of a string where its bytes are.
abbrev pub trim_left : Bytes → Bytes
trim_left s = trim_from 0 s

unfoldable pub trim_right : Bytes → Bytes
unfolding trim_from
trim_right [] = []
trim_right (c ∷ cs) =
    let rest = trim_right cs in if equal (trim_left (c ∷ cs)) [] then [] else c ∷ rest

-- The case of ASCII: no other rune becomes a hexadecimal digit.
unfoldable pub to_lower : Bytes → Bytes
to_lower [] = []
to_lower (c ∷ cs) = (if between b'A' b'Z' c then c + 32 else c) ∷ to_lower cs

abbrev pub checked_sha : Bytes → Bytes → ResourceError ⊎ Bytes
checked_sha p sha =
    if ltb (length sha) 7 || ltb 64 (length sha)
    then inl not_a_sha
    else if not (all_in hex_byte sha)
    then inl not_hex
    else inr (replace_from 0 sha_token sha p)

abbrev pub with_head : Bytes → Option Bytes → ResourceError ⊎ Bytes
with_head p none = inl head_unavailable
with_head p (some raw) = checked_sha p (to_lower (trim_right (trim_left raw)))

-- `head` is what headFn answers.
unfoldable pub resolve_sha_template : Bytes → Option Bytes → ResourceError ⊎ Bytes
resolve_sha_template p head = if not (contains sha_token p) then inr p else with_head p head
