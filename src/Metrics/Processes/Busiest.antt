-- ===== src/Metrics/Processes/Busiest.antt =====
-- process_sampler.cpp: what `partial_sort` and `resize` leave.
use mathlib.Core.List.{Perm}
use agent_pulse.State.{ProcInfo}
use agent_pulse.Metrics.Processes.{busier, keep_busiest}
use agent_pulse.Base.Ordered.{
  IsStrictOrder, Ordered, sort_by_perm, length-sort_by, sort_by-Ordered, take-Ordered,
}
use agent_pulse.Base.{
  sort_by, length, take, All, length-take, ℤ, pos_part, Doubles, min, ◌≤◌, ◌≡◌, sym, subst, true,
  false, List, [], ◌∷◌, ◌++◌, arith,
}

module _ (doubles : Doubles) where
  open doubles use {Double, gt, neq}

  -- The comparisons of `double`, where no value is NaN.
  pub record IsDoubleOrder : Type 0 where
    pub gt_asym : (a b : Double) → gt a b ≡ true → gt b a ≡ false
    pub gt_trans : (a b c : Double) → gt a b ≡ true → gt b c ≡ true → gt a c ≡ true
    pub gt_neq : (a b : Double) → gt a b ≡ true → neq a b ≡ true
    pub neq_comm : (a b : Double) → neq a b ≡ neq b a
    pub same_neq : (a b c : Double) → neq a b ≡ false → neq a c ≡ neq b c
    pub same_left : (a b c : Double) → neq a b ≡ false → gt a c ≡ gt b c
    pub same_right : (a b c : Double) → neq b c ≡ false → gt a b ≡ gt a c

  module _ (order : IsDoubleOrder) where
    busier_asym : (a b : ProcInfo Double) → busier doubles a b ≡ true → busier doubles b a ≡ false
    unfolding busier
    busier_asym a b h = ground (
      arith,
      order.gt_asym a.cpu_percent b.cpu_percent,
      order.neq_comm a.cpu_percent b.cpu_percent,
    )

    busier_trans :
        (a b c : ProcInfo Double)
        → busier doubles a b ≡ true
        → busier doubles b c ≡ true
        → busier doubles a c ≡ true
    unfolding busier
    busier_trans a b c h k =
        let x = a.cpu_percent in
        let y = b.cpu_percent in
        let z = c.cpu_percent in
        ground (
          arith,
          order.gt_trans x y z,
          order.gt_neq x z,
          order.same_neq x y z,
          order.same_left x y z,
          order.same_right x y z,
        )

  -- The second process may be shown behind the first: its load is no greater, and if it is the
  -- same then its memory is no more.
  abbrev pub NoBusier : ProcInfo Double → ProcInfo Double → Type 0
  NoBusier x y =
      (gt y.cpu_percent x.cpu_percent ≡ false)
      × (neq y.cpu_percent x.cpu_percent ≡ false → y.rss_bytes ≤ x.rss_bytes)

  -- Every process of the list comes before those it may come before.
  abbrev pub Descending : List (ProcInfo Double) → Type 0
  Descending [] = Unit
  Descending (x ∷ xs) = All (NoBusier x) xs × Descending xs

  module _ (order : IsDoubleOrder) where
    no_busier : (x y : ProcInfo Double) → busier doubles y x ≡ false → NoBusier x y
    unfolding busier
    no_busier x y h =
        (ground (arith, order.gt_neq y.cpu_percent x.cpu_percent), λ same. ground arith)

    All-NoBusier :
        (x : ProcInfo Double) (ys : List (ProcInfo Double))
        → All (λ y. busier doubles y x ≡ false) ys
        → All (NoBusier x) ys
    All-NoBusier x [] h = tt
    All-NoBusier x (y ∷ ys) h = (no_busier x y h.0, All-NoBusier x ys h.1)

    Ordered-Descending : (xs : List (ProcInfo Double)) → Ordered (busier doubles) xs → Descending xs
    Ordered-Descending [] h = tt
    Ordered-Descending (x ∷ xs) h = (All-NoBusier x xs h.0, Ordered-Descending xs h.1)

    All-ahead :
        (rest xs : List (ProcInfo Double))
        → All (λ x. All (λ y. busier doubles y x ≡ false) rest) xs
        → All (λ x. All (NoBusier x) rest) xs
    All-ahead rest [] h = tt
    All-ahead rest (x ∷ xs) h = (All-NoBusier x rest h.0, All-ahead rest xs h.1)

  -- The processes that are kept, of these.
  pub record Busiest (n : ℤ) (procs kept : List (ProcInfo Double)) : Type 0 where
    pub rest : List (ProcInfo Double)
    pub whole : Perm (kept ++ rest) procs
    pub size : length kept ≡ min (length procs) (pos_part n)
    pub sorted : Descending kept
    pub ahead : All (λ x. All (NoBusier x) rest) kept

  -- Where doubles are ordered as numbers are: `partial_sort` and `resize` keep the first `n` of the
  -- processes, or all if there are fewer. A process that is kept has at least the load of each that
  -- comes behind it and of each that is left out, and at least its memory where the loads are the
  -- same.
  pub keep_busiest-Busiest :
      IsDoubleOrder
      → (n : ℤ) (procs : List (ProcInfo Double)) → Busiest n procs (keep_busiest doubles n procs)
  unfolding keep_busiest
  keep_busiest-Busiest order n procs =
      let strict : IsStrictOrder (busier doubles) = record {
        asymmetric = busier_asym order;
        transitive = busier_trans order;
      } in
      let sorted = sort_by (busier doubles) procs in
      let count = min (length procs) (pos_part n) in
      let kept = take count sorted in
      let (o, (rest, whole, over)) =
        take-Ordered (busier doubles) count sorted
          (sort_by-Ordered (busier doubles) strict procs) in
      record {
        rest = rest;
        whole = subst (λ l. Perm l procs) (sym whole) (sort_by_perm (busier doubles) procs);
        size = omega (arith, length-take count sorted, length-sort_by (busier doubles) procs);
        sorted = Ordered-Descending order kept o;
        ahead = All-ahead order rest kept over;
      }
