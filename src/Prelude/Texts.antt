-- ===== src/Prelude/Texts.antt =====
-- Dictionaries with text keys: association lists in insertion order, as Python keeps them.
use Prim.Native.String.{String}
use mathlib.Core.Path.{◌≡◌, refl}
use mathlib.Core.Bool.{Bool, true, false}
use mathlib.Core.Option.{Option, none, some}
use mathlib.Core.List.{List, [], ◌∷◌}
use native.Mathlib.Omega.{arith}
use text.Mathlib.Text.{◌==◌}
use text.Mathlib.TextEquality.{eq_iff}
use text.Mathlib.TextPositions.{eq_refl}
use Prim.Native.Nat.{ℕ}
use Prim.Native.Char.{code}
use mathlib.Core.Bool.{◌||◌, ◌&&◌}
use looptimum.Prelude.Tests.{if◌then◌else◌, is_some, leb, ◌==◌ as num_eq}

-- The code points of a text.
abbrev pub codes : String → List ℕ
codes String.[] = []
codes (String.◌∷◌ c s) = code c ∷ codes s

unfoldable pub same_codes : List ℕ → List ℕ → Bool
same_codes [] [] = true
same_codes (a ∷ s) (b ∷ t) = num_eq a b && same_codes s t
same_codes _ _ = false

-- The characters that `str.strip` takes for white space.
unfoldable pub is_space : ℕ → Bool
is_space c =
    (leb 9 c && leb c 13)
    || (leb 28 c && leb c 32)
    || num_eq c 0x85
    || num_eq c 0xa0
    || num_eq c 0x1680
    || (leb 0x2000 c && leb c 0x200a)
    || num_eq c 0x2028
    || num_eq c 0x2029
    || num_eq c 0x202f
    || num_eq c 0x205f
    || num_eq c 0x3000

lstrip : String → String
lstrip String.[] = String.[]
lstrip (String.◌∷◌ c s) = let rest = lstrip s in if is_space (code c) then rest else String.◌∷◌ c s

rstrip : String → String
rstrip String.[] = String.[]
rstrip (String.◌∷◌ c s) =
    let rest = rstrip s in if rest == "" && is_space (code c) then String.[] else String.◌∷◌ c rest

unfoldable pub strip : String → String
unfolding is_space lstrip rstrip
strip s = rstrip (lstrip s)

unfoldable pub text_mem : String → List String → Bool
text_mem k [] = false
text_mem k (j ∷ js) = if j == k then true else text_mem k js

pub text_eq_refl : (s : String) → (s == s) ≡ true
text_eq_refl = eq_refl

module _ {ℓ} {V : Type ℓ} where
  unfoldable pub lookup : String → List (String × V) → Option V
  lookup key [] = none
  lookup key (entry ∷ d) = let rest = lookup key d in if entry.0 == key then some entry.1 else rest

  unfoldable pub has_key : String → List (String × V) → Bool
  unfolding lookup
  has_key k m = is_some (lookup k m)

  -- `d[key] = value`: a key that is there keeps its place.
  unfoldable pub insert : String → V → List (String × V) → List (String × V)
  insert key value [] = (key, value) ∷ []
  insert key value (entry ∷ d) =
      let rest = insert key value d in if entry.0 == key then (entry.0, value) ∷ d else entry ∷ rest

  pub lookup-insert :
      (key name : String) (value : V) (d : List (String × V))
      → lookup name (insert key value d) ≡ (if key == name then some value else lookup name d)
  unfolding lookup insert
  lookup-insert key name value [] = refl
  lookup-insert key name value (entry ∷ d) = ground (
    arith,
    lookup-insert key name value d,
    eq_iff entry.0 name,
    eq_iff entry.0 key,
    eq_iff key name,
  )

pub same_codes_refl : (t : List ℕ) → same_codes t t ≡ true
unfolding same_codes
same_codes_refl [] = refl
same_codes_refl (c ∷ cs) = ground (arith, same_codes_refl cs)

pub same_codes-eq : (s t : List ℕ) → same_codes s t ≡ true → s ≡ t
unfolding same_codes
same_codes-eq [] [] h = refl
same_codes-eq [] (d ∷ ds) h = cc
same_codes-eq (c ∷ cs) [] h = cc
same_codes-eq (c ∷ cs) (d ∷ ds) h =
    let head : c ≡ d = ground arith in let tail : cs ≡ ds = same_codes-eq cs ds (ground arith) in cc
