-- ===== src/Keeper/Decide/Order.antt =====
-- The order of a round: every candidate once, the most stretched first, and those that are
-- stretched alike in the order that they were read in.
use mathlib.Core.List.{Perm}
use mathlib.Core.List.Perm
use accrue.Base.{
  ℕ, ◌≤◌, ◌≡◌, refl, arith, leb, ◌==◌, Bool-cases, inl, inr, List, [], ◌∷◌, All, length, suc, ap,
  ◌∙◌, if◌then◌else◌,
}
use accrue.Keeper.Decide.{insert_by_stretch, most_stretched_first}

module _ {ℓ} {W : Type ℓ} (stretch : W → ℕ) where
  -- No item is more stretched than one before it.
  abbrev pub IsMostStretchedFirst : List W → Type 0
  IsMostStretchedFirst [] = Unit
  IsMostStretchedFirst (x ∷ xs) = All (λ y. stretch y ≤ stretch x) xs × IsMostStretchedFirst xs

  -- The items that are stretched by `k`, in the order of the list.
  abbrev pub stretched_by : ℕ → List W → List W
  stretched_by k [] = []
  stretched_by k (x ∷ xs) =
      let rest = stretched_by k xs in if stretch x == k then x ∷ rest else rest

  insert-Perm : (x : W) (ys : List W) → Perm (insert_by_stretch stretch x ys) (x ∷ ys)
  unfolding insert_by_stretch
  insert-Perm x [] = Perm.refl (x ∷ [])
  insert-Perm x (y ∷ ys) = elim (Bool-cases (leb (stretch y) (stretch x))) [
    | inl e ↦ rw e (Perm.refl (x ∷ y ∷ ys))
    | inr e ↦ rw e (Perm.trans (Perm.cons y (insert-Perm x ys)) (Perm.swap x y ys))
  ]

  All-le :
      (k m : ℕ) (ys : List W) → k ≤ m → All (λ y. stretch y ≤ k) ys → All (λ y. stretch y ≤ m) ys
  All-le k m [] h a = tt
  All-le k m (y ∷ ys) h a = (omega arith, All-le k m ys h a.1)

  insert-All :
      (m : ℕ) (x : W) (ys : List W)
      → stretch x ≤ m
      → All (λ y. stretch y ≤ m) ys
      → All (λ y. stretch y ≤ m) (insert_by_stretch stretch x ys)
  unfolding insert_by_stretch
  insert-All m x [] h a = (h, tt)
  insert-All m x (y ∷ ys) h a = elim (Bool-cases (leb (stretch y) (stretch x))) [
    | inl e ↦ rw e (h, a)
    | inr e ↦ rw e (a.0, insert-All m x ys h a.1)
  ]

  insert-IsMostStretchedFirst :
      (x : W) (ys : List W)
      → IsMostStretchedFirst ys
      → IsMostStretchedFirst (insert_by_stretch stretch x ys)
  unfolding insert_by_stretch
  insert-IsMostStretchedFirst x [] s = (tt, tt)
  insert-IsMostStretchedFirst x (y ∷ ys) s = elim (Bool-cases (leb (stretch y) (stretch x))) [
    | inl e ↦
        let under : stretch y ≤ stretch x = ground arith in
        rw e ((under, All-le (stretch y) (stretch x) ys under s.0), s)
    | inr e ↦
        let over : stretch x ≤ stretch y = ground arith in
        rw e (insert-All (stretch y) x ys over s.0, insert-IsMostStretchedFirst x ys s.1)
  ]

  insert-stretched_by :
      (k : ℕ) (x : W) (ys : List W)
      → stretched_by k (insert_by_stretch stretch x ys) ≡ stretched_by k (x ∷ ys)
  unfolding insert_by_stretch
  insert-stretched_by k x [] = refl
  insert-stretched_by k x (y ∷ ys) = elim (Bool-cases (leb (stretch y) (stretch x))) [
    | inl e ↦ rw e refl
    | inr e ↦ rw e (rw (insert-stretched_by k x ys) (ground arith))
  ]

  -- The order of a round has the same candidates, the most stretched first, and those stretched
  -- alike in the order of the survey.
  pub most_stretched_first_lem :
      (xs : List W)
      → Perm (most_stretched_first stretch xs) xs
        × IsMostStretchedFirst (most_stretched_first stretch xs)
        × ((k : ℕ) → stretched_by k (most_stretched_first stretch xs) ≡ stretched_by k xs)
  unfolding most_stretched_first
  most_stretched_first_lem [] = (Perm.refl [], tt, λ k. refl)
  most_stretched_first_lem (x ∷ xs) =
      let (same, sorted, stable) = most_stretched_first_lem xs in
      (
        Perm.trans (insert-Perm x (most_stretched_first stretch xs)) (Perm.cons x same),
        insert-IsMostStretchedFirst x (most_stretched_first stretch xs) sorted,
        λ k. rw (insert-stretched_by k x (most_stretched_first stretch xs)) (rw (stable k) refl),
      )

  length-insert : (x : W) (ys : List W) → length (insert_by_stretch stretch x ys) ≡ suc (length ys)
  unfolding insert_by_stretch
  length-insert x [] = refl
  length-insert x (y ∷ ys) = elim (Bool-cases (leb (stretch y) (stretch x))) [
    | inl e ↦ rw e refl
    | inr e ↦ rw e (ap suc (length-insert x ys))
  ]

  pub length-most_stretched_first :
      (xs : List W) → length (most_stretched_first stretch xs) ≡ length xs
  unfolding most_stretched_first
  length-most_stretched_first [] = refl
  length-most_stretched_first (x ∷ xs) =
      length-insert x (most_stretched_first stretch xs) ∙ ap suc (length-most_stretched_first xs)
