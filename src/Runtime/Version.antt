-- ===== src/Runtime/Version.antt =====
-- Schema versions of templates/_shared/runtime.py: `_parse_semver` and the versions that
-- `normalize_current_version` accepts for a state that is not an Ax campaign's.
use looptimum.Prelude.{
  ℕ, ◌+◌, ◌*◌, ◌-◌, Bool, true, false, Option, none, some, String, List, [], ◌∷◌, codes, strip, leb,
  ◌==◌, ◌&&◌, if◌then◌else◌,
}
use looptimum.Prelude.Maybe.{◌>>=◌}

pub record Version : Type 0 where
  pub major : ℕ
  pub minor : ℕ
  pub patch : ℕ

unfoldable pub is_digit : ℕ → Bool
is_digit c = leb b'0' c && leb c b'9'

unfoldable pub read_digits : ℕ → List ℕ → Option ℕ
unfolding is_digit
read_digits n [] = some n
read_digits n (c ∷ s) =
    let rest = read_digits (n * 10 + (c - b'0')) s in if is_digit c then rest else none

-- `0|[1-9]\d*`, over the ASCII digits.
unfoldable pub read_component : List ℕ → Option ℕ
unfolding read_digits is_digit
read_component [] = none
read_component (c ∷ []) = if is_digit c then some (c - b'0') else none
read_component (c ∷ d ∷ s) =
    if is_digit c && leb b'1' c then read_digits (c - b'0') (d ∷ s) else none

-- The text before the first dot, and what follows the dot if there is one.
unfoldable pub split_dot : List ℕ → List ℕ × Option (List ℕ)
split_dot [] = ([], none)
split_dot (c ∷ s) =
    let (part, rest) = split_dot s in if c == b'.' then ([], some s) else (c ∷ part, rest)

-- A component that a dot must follow, with the text behind the dot.
unfoldable pub component_dot : List ℕ → Option (ℕ × List ℕ)
unfolding read_component split_dot
component_dot s = do
  let parts = split_dot s
  n ← read_component parts.0
  rest ← parts.1
  some (n, rest)

unfoldable pub parse_codes : List ℕ → Option Version
unfolding component_dot read_component
parse_codes s = do
  first ← component_dot s
  second ← component_dot first.1
  patch ← read_component second.1
  some (record { major = first.0; minor = second.0; patch = patch })

-- `none` stands for the ValueError.
unfoldable pub parse_semver : String → Option Version
unfolding parse_codes strip
parse_semver value = parse_codes (codes (strip value))

abbrev pub current_version : Version
current_version = record { major = 0; minor = 3; patch = 0 }

-- The version that the state has in memory, and whether it has been upgraded and is to be
-- written at the next mutation.
unfoldable pub normalize_version : Option Version → Option (Version × Bool)
normalize_version none = some (current_version, true)
normalize_version (some v) =
    if v.major == 0 && v.minor == 3
    then some (v, false)
    else if v.major == 0 && v.minor == 2
    then some (current_version, true)
    else none
