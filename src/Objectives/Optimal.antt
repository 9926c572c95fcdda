-- ===== src/Objectives/Optimal.antt =====
-- The order of the keys of `best_rank_key`, and the first minimum under it.
use looptimum.Prelude.{
  true, false, not, ◌&&◌, ◌≡◌, refl, sym, subst, ◌⊎◌, inl, inr, Bool-cases, List, [], ◌∷◌, All,
  arith,
}
use looptimum.Float.{Float, IsOrdered}
use looptimum.Objectives.Order.{RankKey, list_eq, list_lt, key_lt, min_by}

module _ (fl : Float) where
  abbrev pub IsNumber : fl.F → Type 0
  IsNumber x = fl.is_nan x ≡ false

  abbrev pub IsNumberKey : RankKey fl.F → Type 0
  IsNumberKey k = IsNumber k.scalar × All IsNumber k.lexicographic

pub min_by-nil : (fl : Float) {A : Type 0} (best : RankKey fl.F × A) → min_by fl best [] ≡ best
unfolding min_by
min_by-nil fl best = refl

module _ (fl : Float) {A : Type 0} (best x : RankKey fl.F × A) (xs : List (RankKey fl.F × A)) where
  pub min_by-take : key_lt fl x.0 best.0 ≡ true → min_by fl best (x ∷ xs) ≡ min_by fl x xs
  unfolding min_by
  min_by-take e = rw e

  pub min_by-skip : key_lt fl x.0 best.0 ≡ false → min_by fl best (x ∷ xs) ≡ min_by fl best xs
  unfolding min_by
  min_by-skip e = rw e

module _ (fl : Float) (ordered : IsOrdered fl) where
  -- The comparisons of two numbers, each read from `leb`.
  record Pair (a b : fl.F) : Type 0 where
    below : fl.ltb a b ≡ not (fl.leb b a)
    above : fl.ltb b a ≡ not (fl.leb a b)
    same : fl.eqb a b ≡ (fl.leb a b && fl.leb b a)
    either : (fl.leb a b ≡ true) ⊎ (fl.leb b a ≡ true)

  pair : (a b : fl.F) → IsNumber fl a → IsNumber fl b → Pair a b
  pair a b na nb = record {
    below = ordered.ltb_not_leb a b na nb;
    above = ordered.ltb_not_leb b a nb na;
    same = ordered.eqb_leb a b na nb;
    either = ordered.leb_total a b na nb;
  }

  module _ (a b c : fl.F) (na : IsNumber fl a) (nb : IsNumber fl b) (nc : IsNumber fl c) where
    lt_trans : fl.ltb a b ≡ true → fl.ltb b c ≡ true → fl.ltb a c ≡ true
    lt_trans h k =
        ground (arith, pair a b na nb, pair b c nb nc, pair a c na nc, ordered.leb_trans c a b)

    eq_lt : fl.eqb a b ≡ true → fl.ltb b c ≡ true → fl.ltb a c ≡ true
    eq_lt h k =
        ground (arith, pair a b na nb, pair b c nb nc, pair a c na nc, ordered.leb_trans c a b)

    lt_eq : fl.ltb a b ≡ true → fl.eqb b c ≡ true → fl.ltb a c ≡ true
    lt_eq h k =
        ground (arith, pair a b na nb, pair b c nb nc, pair a c na nc, ordered.leb_trans b c a)

    eq_trans : fl.eqb a b ≡ true → fl.eqb b c ≡ true → fl.eqb a c ≡ true
    eq_trans h k = ground (
      arith,
      pair a b na nb,
      pair b c nb nc,
      pair a c na nc,
      ordered.leb_trans a b c,
      ordered.leb_trans c b a,
    )

  lt_not_eq : (a b : fl.F) → IsNumber fl a → IsNumber fl b → fl.ltb a b ≡ true → fl.eqb a b ≡ false
  lt_not_eq a b na nb h = ground (arith, pair a b na nb)

  -- One of the three holds.
  three_ways :
      (a b : fl.F)
      → IsNumber fl a
      → IsNumber fl b
      → fl.eqb a b ≡ false
      → fl.ltb a b ≡ false
      → (fl.ltb b a ≡ true) × (fl.eqb b a ≡ false)
  three_ways a b na nb h k = ground (arith, pair a b na nb, pair b a nb na)

  list_eq_trans :
      (xs ys zs : List fl.F)
      → All (IsNumber fl) xs
      → All (IsNumber fl) ys
      → All (IsNumber fl) zs
      → list_eq fl xs ys ≡ true
      → list_eq fl ys zs ≡ true
      → list_eq fl xs zs ≡ true
  unfolding list_eq
  list_eq_trans [] [] zs nx ny nz h k = k
  list_eq_trans (x ∷ xs) (y ∷ ys) (z ∷ zs) nx ny nz h k =
      ground (arith, list_eq_trans xs ys zs nx.1 ny.1 nz.1, eq_trans x y z nx.0 ny.0 nz.0)
  list_eq_trans _ _ _ nx ny nz h k = cc

  list_eq_lt :
      (xs ys zs : List fl.F)
      → All (IsNumber fl) xs
      → All (IsNumber fl) ys
      → All (IsNumber fl) zs
      → list_eq fl xs ys ≡ true
      → list_lt fl ys zs ≡ true
      → list_lt fl xs zs ≡ true
  unfolding list_eq list_lt
  list_eq_lt [] [] zs nx ny nz h k = k
  list_eq_lt (x ∷ xs) (y ∷ ys) (z ∷ zs) nx ny nz h k = ground (
    arith,
    list_eq_lt xs ys zs nx.1 ny.1 nz.1,
    eq_trans x y z nx.0 ny.0 nz.0,
    eq_lt x y z nx.0 ny.0 nz.0,
    lt_not_eq x z nx.0 nz.0,
  )
  list_eq_lt _ _ _ nx ny nz h k = cc

  list_lt_trans :
      (xs ys zs : List fl.F)
      → All (IsNumber fl) xs
      → All (IsNumber fl) ys
      → All (IsNumber fl) zs
      → list_lt fl xs ys ≡ true
      → list_lt fl ys zs ≡ true
      → list_lt fl xs zs ≡ true
  unfolding list_lt
  list_lt_trans [] (y ∷ ys) (z ∷ zs) nx ny nz h k = h
  list_lt_trans (x ∷ xs) (y ∷ ys) (z ∷ zs) nx ny nz h k = ground (
    arith,
    list_lt_trans xs ys zs nx.1 ny.1 nz.1,
    lt_trans x y z nx.0 ny.0 nz.0,
    eq_trans x y z nx.0 ny.0 nz.0,
    eq_lt x y z nx.0 ny.0 nz.0,
    lt_eq x y z nx.0 ny.0 nz.0,
    lt_not_eq x z nx.0 nz.0,
  )
  list_lt_trans _ _ _ nx ny nz h k = cc

  list_three_ways :
      (xs ys : List fl.F)
      → All (IsNumber fl) xs
      → All (IsNumber fl) ys
      → list_eq fl xs ys ≡ false
      → list_lt fl xs ys ≡ false
      → (list_lt fl ys xs ≡ true) × (list_eq fl ys xs ≡ false)
  unfolding list_eq list_lt
  list_three_ways (x ∷ xs) (y ∷ ys) nx ny h k = ground (
    arith,
    list_three_ways xs ys nx.1 ny.1,
    three_ways x y nx.0 ny.0,
    pair x y nx.0 ny.0,
    pair y x ny.0 nx.0,
  )
  list_three_ways _ _ nx ny h k = ground arith

  list_eq_sym :
      (xs ys : List fl.F)
      → All (IsNumber fl) xs
      → All (IsNumber fl) ys
      → list_eq fl xs ys ≡ true
      → list_eq fl ys xs ≡ true
  unfolding list_eq
  list_eq_sym (x ∷ xs) (y ∷ ys) nx ny h =
      ground (arith, list_eq_sym xs ys nx.1 ny.1, pair x y nx.0 ny.0, pair y x ny.0 nx.0)
  list_eq_sym _ _ nx ny h = ground arith

  list_lt_not_eq :
      (xs ys : List fl.F)
      → All (IsNumber fl) xs
      → All (IsNumber fl) ys
      → list_lt fl xs ys ≡ true
      → list_eq fl xs ys ≡ false
  unfolding list_lt list_eq
  list_lt_not_eq (x ∷ xs) (y ∷ ys) nx ny h =
      ground (arith, list_lt_not_eq xs ys nx.1 ny.1, lt_not_eq x y nx.0 ny.0)
  list_lt_not_eq _ _ nx ny h = ground arith

  list_lt_eq :
      (xs ys zs : List fl.F)
      → All (IsNumber fl) xs
      → All (IsNumber fl) ys
      → All (IsNumber fl) zs
      → list_lt fl xs ys ≡ true
      → list_eq fl ys zs ≡ true
      → list_lt fl xs zs ≡ true
  unfolding list_eq list_lt
  list_lt_eq (x ∷ xs) (y ∷ ys) (z ∷ zs) nx ny nz h k = ground (
    arith,
    list_lt_eq xs ys zs nx.1 ny.1 nz.1,
    eq_trans x y z nx.0 ny.0 nz.0,
    lt_eq x y z nx.0 ny.0 nz.0,
    lt_not_eq x z nx.0 nz.0,
  )
  list_lt_eq [] (y ∷ ys) (z ∷ zs) nx ny nz h k = h
  list_lt_eq _ _ _ nx ny nz h k = cc

  -- A key that is before another is before all that the other is before.
  pub key_lt_trans :
      (a b c : RankKey fl.F)
      → IsNumberKey fl a
      → IsNumberKey fl b
      → IsNumberKey fl c
      → key_lt fl a b ≡ true
      → key_lt fl b c ≡ true
      → key_lt fl a c ≡ true
  unfolding key_lt
  key_lt_trans a b c na nb nc h k = ground (
    arith,
    lt_trans a.scalar b.scalar c.scalar na.0 nb.0 nc.0,
    eq_trans a.scalar b.scalar c.scalar na.0 nb.0 nc.0,
    eq_lt a.scalar b.scalar c.scalar na.0 nb.0 nc.0,
    lt_eq a.scalar b.scalar c.scalar na.0 nb.0 nc.0,
    lt_not_eq a.scalar c.scalar na.0 nc.0,
    list_lt_trans a.lexicographic b.lexicographic c.lexicographic na.1 nb.1 nc.1,
    list_eq_trans a.lexicographic b.lexicographic c.lexicographic na.1 nb.1 nc.1,
    list_eq_lt a.lexicographic b.lexicographic c.lexicographic na.1 nb.1 nc.1,
    list_lt_eq a.lexicographic b.lexicographic c.lexicographic na.1 nb.1 nc.1,
    list_lt_not_eq a.lexicographic c.lexicographic na.1 nc.1,
  )

  list_eq_refl : (xs : List fl.F) → All (IsNumber fl) xs → list_eq fl xs xs ≡ true
  unfolding list_eq
  list_eq_refl [] nx = refl
  list_eq_refl (x ∷ xs) nx = ground (arith, list_eq_refl xs nx.1, pair x x nx.0 nx.0)

  key_lt_irrefl : (a : RankKey fl.F) → IsNumberKey fl a → key_lt fl a a ≡ false
  unfolding key_lt
  key_lt_irrefl a na =
      ground (arith, pair a.scalar a.scalar na.0 na.0, list_eq_refl a.lexicographic na.1)

  pub key_lt_asym :
      (a b : RankKey fl.F)
      → IsNumberKey fl a
      → IsNumberKey fl b
      → key_lt fl a b ≡ true
      → key_lt fl b a ≡ false
  key_lt_asym a b na nb h = ground (arith, key_lt_trans a b a na nb na, key_lt_irrefl a na)

  -- If `a` is before `c` and not before `b`, then `b` is before `c`.
  pub key_lt_of_not :
      (a b c : RankKey fl.F)
      → IsNumberKey fl a
      → IsNumberKey fl b
      → IsNumberKey fl c
      → key_lt fl a b ≡ false
      → key_lt fl a c ≡ true
      → key_lt fl b c ≡ true
  unfolding key_lt
  key_lt_of_not a b c na nb nc h k = ground (
    arith,
    pair a.scalar b.scalar na.0 nb.0,
    pair b.scalar a.scalar nb.0 na.0,
    lt_trans b.scalar a.scalar c.scalar nb.0 na.0 nc.0,
    eq_trans b.scalar a.scalar c.scalar nb.0 na.0 nc.0,
    eq_lt b.scalar a.scalar c.scalar nb.0 na.0 nc.0,
    lt_eq b.scalar a.scalar c.scalar nb.0 na.0 nc.0,
    lt_not_eq b.scalar c.scalar nb.0 nc.0,
    list_three_ways a.lexicographic b.lexicographic na.1 nb.1,
    list_eq_sym a.lexicographic b.lexicographic na.1 nb.1,
    list_lt_trans b.lexicographic a.lexicographic c.lexicographic nb.1 na.1 nc.1,
    list_eq_trans b.lexicographic a.lexicographic c.lexicographic nb.1 na.1 nc.1,
    list_eq_lt b.lexicographic a.lexicographic c.lexicographic nb.1 na.1 nc.1,
    list_lt_eq b.lexicographic a.lexicographic c.lexicographic nb.1 na.1 nc.1,
    list_lt_not_eq b.lexicographic c.lexicographic nb.1 nc.1,
  )

  module _ {A : Type 0} where
    abbrev pub HasNumberKey : RankKey fl.F × A → Type 0
    HasNumberKey x = IsNumberKey fl x.0

    min_by-IsNumber :
        (best : RankKey fl.F × A) (xs : List (RankKey fl.F × A))
        → HasNumberKey best
        → All HasNumberKey xs
        → HasNumberKey (min_by fl best xs)
    unfolding min_by
    min_by-IsNumber best [] nb nx = nb
    min_by-IsNumber best (x ∷ xs) nb nx = elim (Bool-cases (key_lt fl x.0 best.0)) [
      | inl e ↦ rw (min_by-take fl best x xs e) (min_by-IsNumber x xs nx.0 nx.1)
      | inr e ↦ rw (min_by-skip fl best x xs e) (min_by-IsNumber best xs nb nx.1)
    ]

    -- No item has a key before that of `m`.
    abbrev pub IsLeast : RankKey fl.F × A → List (RankKey fl.F × A) → Type 0
    IsLeast m xs = All (λ x. key_lt fl x.0 m.0 ≡ false) xs

    pub min_by-IsLeast :
        (best : RankKey fl.F × A) (xs : List (RankKey fl.F × A))
        → HasNumberKey best
        → All HasNumberKey xs
        → IsLeast (min_by fl best xs) (best ∷ xs)
    min_by-IsLeast best [] nb nx =
        subst (λ m. IsLeast m (best ∷ [])) (sym (min_by-nil fl best)) (key_lt_irrefl best.0 nb, tt)
    min_by-IsLeast best (x ∷ xs) nb nx = elim (Bool-cases (key_lt fl x.0 best.0)) [
      | inl e ↦
          let m = min_by fl x xs in
          let (least, rest) = min_by-IsLeast x xs nx.0 nx.1 in
          let nm = min_by-IsNumber x xs nx.0 nx.1 in
          subst (λ m. IsLeast m (best ∷ x ∷ xs)) (sym (min_by-take fl best x xs e))
            (ground (arith, key_lt_trans x.0 best.0 m.0 nx.0 nb nm), (least, rest))
      | inr e ↦
          let m = min_by fl best xs in
          let (least, rest) = min_by-IsLeast best xs nb nx.1 in
          let nm = min_by-IsNumber best xs nb nx.1 in
          subst (λ m. IsLeast m (best ∷ x ∷ xs)) (sym (min_by-skip fl best x xs e))
            (least, (ground (arith, key_lt_of_not x.0 best.0 m.0 nx.0 nb nm), rest))
    ]

-- The first minimum is one of the items: what holds of all of them holds of it.
pub min_by-All :
    (fl : Float) {A : Type 0} (P : RankKey fl.F × A → Type 0) (best : RankKey fl.F × A)
    (xs : List (RankKey fl.F × A))
    → P best
    → All P xs
    → P (min_by fl best xs)
unfolding min_by
min_by-All fl P best [] pb px = pb
min_by-All fl P best (x ∷ xs) pb px = elim (Bool-cases (key_lt fl x.0 best.0)) [
  | inl e ↦ rw (min_by-take fl best x xs e) (min_by-All fl P x xs px.0 px.1)
  | inr e ↦ rw (min_by-skip fl best x xs e) (min_by-All fl P best xs pb px.1)
]
