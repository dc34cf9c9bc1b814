-- ===== src/Base/Ordered.antt =====
-- What sorting gives: the items, in order.
use mathlib.Core.List.{Perm, List, [], ◌∷◌, ◌++◌}
use mathlib.Core.List.Perm
use agent_pulse.Base.{
  Bool-cases, length, take, All, sort_insert, sort_by, ℕ, zero, suc, ◌≡◌, refl, sym, ap, subst, ◌∙◌,
  ◌⊎◌, inl, inr, Bool, true, false, arith,
}

module _ {A : Type 0} (P : A → Type 0) where
  All-first : (a b : List A) → All P (a ++ b) → All P a
  All-first [] b h = tt
  All-first (x ∷ a) b h = (h.0, All-first a b h.1)

  All-second : (a b : List A) → All P (a ++ b) → All P b
  All-second [] b h = h
  All-second (x ∷ a) b h = All-second a b h.1

module _ {A : Type 0} (precedes : A → A → Bool) where
  -- What a comparison must satisfy for `partial_sort`.
  pub record IsStrictOrder : Type 0 where
    pub asymmetric : (a b : A) → precedes a b ≡ true → precedes b a ≡ false
    pub transitive : (a b c : A) → precedes a b ≡ true → precedes b c ≡ true → precedes a c ≡ true

  -- No item is preceded by a later one.
  abbrev pub Ordered : List A → Type 0
  Ordered [] = Unit
  Ordered (x ∷ xs) = All (λ y. precedes y x ≡ false) xs × Ordered xs

  sort_insert_perm : (a : A) (l : List A) → Perm (sort_insert precedes a l) (a ∷ l)
  unfolding sort_insert
  sort_insert_perm a [] = Perm.rfl
  sort_insert_perm a (b ∷ l) = elim (Bool-cases (precedes a b)) [
    | inl first ↦ rw first Perm.rfl
    | inr later ↦ rw later (Perm.trans (Perm.cons b (sort_insert_perm a l)) (Perm.swap a b l))
  ]

  pub sort_by_perm : (l : List A) → Perm (sort_by precedes l) l
  unfolding sort_by
  sort_by_perm [] = Perm.rfl
  sort_by_perm (a ∷ l) =
      Perm.trans (sort_insert_perm a (sort_by precedes l)) (Perm.cons a (sort_by_perm l))

  length-sort_insert : (a : A) (l : List A) → length (sort_insert precedes a l) ≡ suc (length l)
  unfolding sort_insert
  length-sort_insert a [] = refl
  length-sort_insert a (b ∷ l) = ground (arith, length-sort_insert a l)

  pub length-sort_by : (l : List A) → length (sort_by precedes l) ≡ length l
  unfolding sort_by
  length-sort_by [] = refl
  length-sort_by (a ∷ l) = length-sort_insert a (sort_by precedes l) ∙ ap suc (length-sort_by l)

  module _ (order : IsStrictOrder) where
    none_before :
        (a b : A) (l : List A)
        → precedes a b ≡ true
        → All (λ y. precedes y b ≡ false) l
        → All (λ y. precedes y a ≡ false) l
    none_before a b [] h k = tt
    none_before a b (y ∷ l) h k =
        (not_before y (Bool-cases (precedes y a)) k.0, none_before a b l h k.1)
      where
        not_before :
            (y : A)
            → (precedes y a ≡ true) ⊎ (precedes y a ≡ false)
            → precedes y b ≡ false
            → precedes y a ≡ false
        not_before y (inl before) after = absurd (cc (order.transitive y a b before h, after))
        not_before y (inr other) after = other

    sort_insert-All :
        (P : A → Type 0) (a : A) (l : List A) → P a → All P l → All P (sort_insert precedes a l)
    unfolding sort_insert
    sort_insert-All P a [] p h = (p, tt)
    sort_insert-All P a (b ∷ l) p h = elim (Bool-cases (precedes a b)) [
      | inl first ↦ rw first (p, h)
      | inr later ↦ rw later (h.0, sort_insert-All P a l p h.1)
    ]

    sort_insert-Ordered : (a : A) (l : List A) → Ordered l → Ordered (sort_insert precedes a l)
    unfolding sort_insert
    sort_insert-Ordered a [] h = (tt, tt)
    sort_insert-Ordered a (b ∷ l) h = elim (Bool-cases (precedes a b)) [
      | inl first ↦ rw first ((order.asymmetric a b first, none_before a b l first h.0), h)
      | inr later ↦
          rw later
            (sort_insert-All (λ y. precedes y b ≡ false) a l later h.0, sort_insert-Ordered a l h.1)
    ]

    pub sort_by-Ordered : (l : List A) → Ordered (sort_by precedes l)
    unfolding sort_by
    sort_by-Ordered [] = tt
    sort_by-Ordered (a ∷ l) = sort_insert-Ordered a (sort_by precedes l) (sort_by-Ordered l)

  -- The first items of an ordered list, and those that are left out.
  pub take-Ordered :
      (n : ℕ) (l : List A)
      → Ordered l
      → Ordered (take n l)
        × ((rest : List A) × (take n l ++ rest ≡ l)
            × All (λ x. All (λ y. precedes y x ≡ false) rest) (take n l))
  take-Ordered zero l h = (tt, (l, refl, tt))
  take-Ordered (suc n) [] h = (tt, ([], refl, tt))
  take-Ordered (suc n) (x ∷ l) h =
      let (o, (rest, whole, over)) = take-Ordered n l h.1 in
      let split = subst (All (λ y. precedes y x ≡ false)) (sym whole) h.0 in
      (
        (All-first (λ y. precedes y x ≡ false) (take n l) rest split, o),
        (
          rest,
          ap (◌∷◌ x) whole,
          (All-second (λ y. precedes y x ≡ false) (take n l) rest split, over),
        ),
      )
