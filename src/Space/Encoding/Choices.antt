-- ===== src/Space/Encoding/Choices.antt =====
-- Choices and booleans as numbers and back, in templates/_shared/search_space.py.
use looptimum.Prelude.{
  ℕ, zero, suc, Bool, true, false, Option, none, some, List, [], ◌∷◌, ◌≡◌, ◌⊎◌, refl, sym, ap, ◌∙◌,
  subst, inl, inr, Among, length, if◌then◌else◌, ==_iff,
}
use looptimum.Prelude.Maybe.{◌>>=◌, some_injective}
use looptimum.Float.{Float}
use looptimum.Values.{Value, null, bool, int, float, str, same_choice}
use looptimum.Space.{Kind, real, whole, boolean, categorical}
use looptimum.Space.Encoding.{
  Math, clamp_unit_interval, zeros, one_hot, is_supported_choice, choice_index, encode_value,
  best_choice, decode_value,
}

module _ (fl : Float) (m : Math fl.F) where
  -- How the numbers 0, 0.5 and 1 compare.
  pub record IsUnit : Type 0 where
    pub zero_one : fl.ltb fl.zero m.one ≡ true
    pub one_zero : fl.ltb m.one fl.zero ≡ false
    pub zero_zero : fl.ltb fl.zero fl.zero ≡ false
    pub one_one : fl.ltb m.one m.one ≡ false
    pub half_one : fl.leb m.half m.one ≡ true
    pub half_zero : fl.leb m.half fl.zero ≡ false

  -- The decoded value is the boolean that was encoded, or one of the choices that counts as the
  -- value that was encoded.
  abbrev pub IsBack : Kind fl.F → Value fl.F → Value fl.F → Type 0
  IsBack (real lo hi scale) value decoded = ⊥
  IsBack (whole lo hi scale) value decoded = ⊥
  IsBack boolean value decoded = decoded ≡ value
  IsBack (categorical choices) value decoded =
      Among decoded choices × (same_choice fl decoded value ≡ true)

  abbrev pub is_discrete : Kind fl.F → Bool
  is_discrete (real lo hi scale) = false
  is_discrete (whole lo hi scale) = false
  is_discrete boolean = true
  is_discrete (categorical choices) = true

  zeros-length : (n : ℕ) → length (zeros fl m n) ≡ n
  unfolding zeros
  zeros-length zero = refl
  zeros-length (suc n) = ap suc (zeros-length n)

  one_hot-length : (n i : ℕ) → length (one_hot fl m n i) ≡ n
  unfolding one_hot
  one_hot-length zero i = refl
  one_hot-length (suc n) zero = ap suc (zeros-length n)
  one_hot-length (suc n) (suc i) = ap suc (one_hot-length n i)

  module _ (unit : IsUnit) where
    -- No later number is greater than 1.
    best_choice-zeros :
        (choice : Value fl.F) (others : List (Value fl.F)) (n : ℕ)
        → best_choice fl m choice m.one others (zeros fl m n) ≡ choice
    unfolding best_choice zeros
    best_choice-zeros choice [] n = refl
    best_choice-zeros choice (other ∷ others) zero = refl
    best_choice-zeros choice (other ∷ others) (suc n) =
        rw unit.one_zero (best_choice-zeros choice others n)

    best_choice-first :
        (choice other : Value fl.F) (others : List (Value fl.F))
        → best_choice fl m choice fl.zero
            (other ∷ others)
            (one_hot fl m (length (other ∷ others)) zero)
          ≡ other
    unfolding best_choice one_hot
    best_choice-first choice other others =
        rw unit.zero_one (best_choice-zeros other others (length others))

    best_choice-later :
        (choice other : Value fl.F) (others : List (Value fl.F)) (i : ℕ)
        → best_choice fl m choice fl.zero
            (other ∷ others)
            (one_hot fl m (length (other ∷ others)) (suc i))
          ≡ best_choice fl m choice fl.zero others (one_hot fl m (length others) i)
    unfolding best_choice one_hot
    best_choice-later choice other others i = rw unit.zero_zero refl

    choice_index-cases :
        (value other : Value fl.F) (others : List (Value fl.F)) (i : ℕ)
        → choice_index fl m value (other ∷ others) ≡ some i
        → ((i ≡ zero) × (same_choice fl other value ≡ true))
          ⊎ ((j : ℕ) × (i ≡ suc j) × (choice_index fl m value others ≡ some j))
    unfolding choice_index
    choice_index-cases value other others i e =
        split (same_choice fl other value) refl (choice_index fl m value others) refl e
      where
        split :
            (b : Bool)
            → same_choice fl other value ≡ b
            → (found : Option ℕ) → choice_index fl m value others ≡ found
            → (if b then some zero else (found >>= λ j. some (suc j))) ≡ some i
            → ((i ≡ zero) × (same_choice fl other value ≡ true))
              ⊎ ((j : ℕ) × (i ≡ suc j) × (choice_index fl m value others ≡ some j))
        split true same found f e = inl (sym (some_injective zero i e), same)
        split false other none f e = cc
        split false other (some j) f e = inr (j, sym (some_injective (suc j) i e), f)

    -- The only 1 stands at the index of the value.
    best_choice-one_hot :
        (value choice : Value fl.F) (others : List (Value fl.F)) (i : ℕ)
        → choice_index fl m value others ≡ some i
        → IsBack
            (categorical others)
            value
            (best_choice fl m choice fl.zero others (one_hot fl m (length others) i))
    unfolding choice_index
    best_choice-one_hot value choice [] i e = cc
    best_choice-one_hot value choice (other ∷ others) i e =
        elim (choice_index-cases value other others i e) [
          | inl (here, same) ↦
              let best = best_choice-first choice other others in
              subst (λ k. Back (best_choice fl m choice fl.zero (other ∷ others) (hot k)))
                (sym here) (subst Back (sym best) (inl refl, same))
          | inr (j, there, found) ↦
              let best = best_choice-later choice other others j in
              let back = best_choice-one_hot value choice others j found in
              subst (λ k. Back (best_choice fl m choice fl.zero (other ∷ others) (hot k)))
                (sym there) (subst Back (sym best) (inr back.0, back.1))
        ]
      where
        Back : Value fl.F → Type 0
        Back = IsBack (categorical (other ∷ others)) value

        hot : ℕ → List fl.F
        hot = one_hot fl m (length (other ∷ others))

    decode_value-first :
        (choice : Value fl.F) (choices : List (Value fl.F))
        → decode_value fl m
            (categorical (choice ∷ choices))
            (one_hot fl m (length (choice ∷ choices)) zero)
          ≡ some choice
    unfolding decode_value one_hot
    decode_value-first choice choices =
        rw
          ((==_iff (length (zeros fl m (length choices))) (length choices)).1
            (zeros-length (length choices)))
          (ap some (best_choice-zeros choice choices (length choices)))

    decode_value-later :
        (choice : Value fl.F) (choices : List (Value fl.F)) (i : ℕ)
        → decode_value fl m
            (categorical (choice ∷ choices))
            (one_hot fl m (length (choice ∷ choices)) (suc i))
          ≡ some (best_choice fl m choice fl.zero choices (one_hot fl m (length choices) i))
    unfolding decode_value one_hot
    decode_value-later choice choices i =
        rw
          ((==_iff (length (one_hot fl m (length choices) i)) (length choices)).1
            (one_hot-length (length choices) i))
          refl

    decoded_choice :
        (value : Value fl.F) (choices : List (Value fl.F)) (i : ℕ)
        → choice_index fl m value choices ≡ some i
        → (decoded : Value fl.F) × (decode_value fl m
              (categorical choices)
              (one_hot fl m (length choices) i)
            ≡ some decoded)
          × IsBack (categorical choices) value decoded
    unfolding choice_index
    decoded_choice value [] i e = cc
    decoded_choice value (choice ∷ choices) i e =
        elim (choice_index-cases value choice choices i e) [
          | inl (here, same) ↦
              (choice, ap decoded here ∙ decode_value-first choice choices, (inl refl, same))
          | inr (j, there, found) ↦
              let back = best_choice-one_hot value choice choices j found in
              (
                best_choice fl m choice fl.zero choices (one_hot fl m (length choices) j),
                ap decoded there ∙ decode_value-later choice choices j,
                (inr back.0, back.1),
              )
        ]
      where
        decoded : ℕ → Option (Value fl.F)
        decoded k =
            decode_value fl m (categorical (choice ∷ choices))
              (one_hot fl m (length (choice ∷ choices)) k)

    decode_bool :
        (b : Bool) → decode_value fl m boolean ((if b then m.one else fl.zero) ∷ []) ≡ some (bool b)
    unfolding decode_value clamp_unit_interval
    decode_bool true = rw unit.zero_one (rw unit.one_one (ap (λ b. some (bool b)) unit.half_one))
    decode_bool false =
        rw unit.zero_zero (rw unit.zero_one (ap (λ b. some (bool b)) unit.half_zero))

    -- The numbers of a boolean decode to the boolean, and those of a choice to one of the choices
    -- that counts as the encoded value, where 0, 0.5 and 1 compare as they do.
    pub decode_value-encode_value :
        (kind : Kind fl.F) (value : Value fl.F) {part : List fl.F}
        → is_discrete kind ≡ true
        → encode_value fl m kind value ≡ some part
        → (decoded : Value fl.F) × (decode_value fl m kind part ≡ some decoded)
          × IsBack kind value decoded
    unfolding encode_value
    decode_value-encode_value (real lo hi scale) value discrete e = cc
    decode_value-encode_value (whole lo hi scale) value discrete e = cc
    decode_value-encode_value boolean (bool b) {part} discrete e = (
      bool b,
      ap (decode_value fl m boolean) (sym (some_injective _ part e)) ∙ decode_bool b,
      refl,
    )
    decode_value-encode_value boolean null discrete e = cc
    decode_value-encode_value boolean (int n) discrete e = cc
    decode_value-encode_value boolean (float x) discrete e = cc
    decode_value-encode_value boolean (str t) discrete e = cc
    decode_value-encode_value (categorical choices) value {part} discrete e =
        split (is_supported_choice fl m value) (choice_index fl m value choices) refl e
      where
        split :
            (b : Bool) (found : Option ℕ)
            → choice_index fl m value choices ≡ found
            → (if b then (found >>= λ i. some (one_hot fl m (length choices) i)) else none)
              ≡ some part
            → (decoded : Value fl.F) × (decode_value fl m (categorical choices) part ≡ some decoded)
              × IsBack (categorical choices) value decoded
        split false found f e = cc
        split true none f e = cc
        split true (some i) f e =
            let (decoded, returns, back) = decoded_choice value choices i f in
            (
              decoded,
              ap (decode_value fl m (categorical choices)) (sym (some_injective _ part e))
                  ∙ returns,
              back,
            )
