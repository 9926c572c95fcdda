-- ===== src/Objectives/Pareto/Sorted.antt =====
-- The order of the front of `pareto_front_records` in templates/_shared/objectives.py.
use looptimum.Prelude.{
  true, false, List, [], ◌∷◌, ◌≡◌, ◌⊎◌, inl, inr, All, Among, Bool-cases, arith,
}
use looptimum.Float.{Float, IsOrdered}
use looptimum.Objectives.Order.{RankKey, key_lt}
use looptimum.Objectives.Optimal.{IsNumberKey, key_lt_asym, key_lt_of_not}
use looptimum.Objectives.Pareto.{insert_keyed, sort_keyed}

module _ (fl : Float) {A : Type 0} where
  -- No item has a key before that of `x`.
  abbrev pub NotBefore : RankKey fl.F × A → RankKey fl.F × A → Type 0
  NotBefore x y = key_lt fl y.0 x.0 ≡ false

  abbrev pub InKeyOrder : List (RankKey fl.F × A) → Type 0
  InKeyOrder [] = Unit
  InKeyOrder (x ∷ xs) = All (NotBefore x) xs × InKeyOrder xs

  insert_keyed-All :
      (P : RankKey fl.F × A → Type 0) (x : RankKey fl.F × A) (xs : List (RankKey fl.F × A))
      → P x
      → All P xs
      → All P (insert_keyed fl x xs)
  unfolding insert_keyed
  insert_keyed-All P x [] hx h = (hx, tt)
  insert_keyed-All P x (y ∷ ys) hx h = elim (Bool-cases (key_lt fl y.0 x.0)) [
    | inl e ↦ rw e (h.0, insert_keyed-All P x ys hx h.1)
    | inr e ↦ rw e (hx, h)
  ]

  pub sort_keyed-All :
      (P : RankKey fl.F × A → Type 0) (xs : List (RankKey fl.F × A))
      → All P xs
      → All P (sort_keyed fl xs)
  unfolding sort_keyed
  sort_keyed-All P [] h = tt
  sort_keyed-All P (x ∷ xs) h =
      insert_keyed-All P x (sort_keyed fl xs) h.0 (sort_keyed-All P xs h.1)

  insert_keyed-Among :
      (a x : RankKey fl.F × A) (xs : List (RankKey fl.F × A))
      → (x ≡ a) ⊎ Among a xs
      → Among a (insert_keyed fl x xs)
  unfolding insert_keyed
  insert_keyed-Among a x [] h = h
  insert_keyed-Among a x (y ∷ ys) h = elim (Bool-cases (key_lt fl y.0 x.0)) [
    | inl e ↦ rw e (elim h [
      | inl here ↦ inr (insert_keyed-Among a x ys (inl here))
      | inr (inl first) ↦ inl first
      | inr (inr later) ↦ inr (insert_keyed-Among a x ys (inr later))
    ])
    | inr e ↦ rw e h
  ]

  pub sort_keyed-Among :
      (a : RankKey fl.F × A) (xs : List (RankKey fl.F × A))
      → Among a xs
      → Among a (sort_keyed fl xs)
  unfolding sort_keyed
  sort_keyed-Among a [] h = h
  sort_keyed-Among a (x ∷ xs) (inl e) = insert_keyed-Among a x (sort_keyed fl xs) (inl e)
  sort_keyed-Among a (x ∷ xs) (inr h) =
      insert_keyed-Among a x (sort_keyed fl xs) (inr (sort_keyed-Among a xs h))

  module _ (ordered : IsOrdered fl) where
    abbrev Numbers : RankKey fl.F × A → Type 0
    Numbers x = IsNumberKey fl x.0

    -- What is not before `y` is not before `x`, if `y` is not.
    NotBefore-trans :
        (x y : RankKey fl.F × A) (zs : List (RankKey fl.F × A))
        → Numbers x
        → Numbers y
        → All Numbers zs
        → NotBefore x y
        → All (NotBefore y) zs
        → All (NotBefore x) zs
    NotBefore-trans x y [] nx ny nz h all = tt
    NotBefore-trans x y (z ∷ zs) nx ny nz h all = (
      ground (arith, key_lt_of_not fl ordered z.0 y.0 x.0 nz.0 ny nx),
      NotBefore-trans x y zs nx ny nz.1 h all.1,
    )

    insert_keyed-InKeyOrder :
        (x : RankKey fl.F × A) (xs : List (RankKey fl.F × A))
        → Numbers x
        → All Numbers xs
        → InKeyOrder xs
        → InKeyOrder (insert_keyed fl x xs)
    unfolding insert_keyed
    insert_keyed-InKeyOrder x [] nx n h = (tt, tt)
    insert_keyed-InKeyOrder x (y ∷ ys) nx n h = elim (Bool-cases (key_lt fl y.0 x.0)) [
      | inl e ↦ rw e (
        insert_keyed-All (NotBefore y) x ys (not_after e) h.0,
        insert_keyed-InKeyOrder x ys nx n.1 h.1,
      )
      | inr e ↦ rw e ((e, NotBefore-trans x y ys nx n.0 n.1 e h.0), h)
    ]
      where
        not_after : key_lt fl y.0 x.0 ≡ true → NotBefore y x
        not_after e = key_lt_asym fl ordered y.0 x.0 n.0 nx e

    pub sort_keyed-InKeyOrder :
        (xs : List (RankKey fl.F × A)) → All Numbers xs → InKeyOrder (sort_keyed fl xs)
    unfolding sort_keyed
    sort_keyed-InKeyOrder [] n = tt
    sort_keyed-InKeyOrder (x ∷ xs) n =
        insert_keyed-InKeyOrder x (sort_keyed fl xs) n.0 (sort_keyed-All Numbers xs n.1)
          (sort_keyed-InKeyOrder xs n.1)
