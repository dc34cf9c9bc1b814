-- ===== src/Db/Definitions.antt =====
-- db.cpp: the table `job_defs` keeps one row for each name, and `ORDER BY` keeps its rows.
use agent_pulse.Base.{
  Bool-cases, All, In, Text, equal, equal_iff, equal_swap, sort_insert, sort_by, ◌≡◌, refl, sym,
  subst, ◌⊎◌, inl, inr, false, List, [], ◌∷◌,
}
use agent_pulse.Db.{JobDef, def_precedes, upsert_row}

-- No definition of the list has this name; the names of a table are its primary key.
abbrev pub UnusedDef : Text → List JobDef → Type 0
UnusedDef name = All (λ d. equal name d.name ≡ false)

abbrev pub DistinctDefs : List JobDef → Type 0
DistinctDefs [] = Unit
DistinctDefs (d ∷ ds) = UnusedDef d.name ds × DistinctDefs ds

pub upsert_row-In : (def : JobDef) (ds : List JobDef) → In def (upsert_row def ds)
unfolding upsert_row
upsert_row-In def [] = inl refl
upsert_row-In def (d ∷ ds) = elim (Bool-cases (equal d.name def.name)) [
  | inl same ↦ rw same (inl refl)
  | inr other ↦ rw other (inr (upsert_row-In def ds))
]

UnusedDef-upsert_row :
    (name : Text) (def : JobDef) (ds : List JobDef)
    → equal name def.name ≡ false
    → UnusedDef name ds
    → UnusedDef name (upsert_row def ds)
unfolding upsert_row
UnusedDef-upsert_row name def [] h u = (h, tt)
UnusedDef-upsert_row name def (d ∷ ds) h u = elim (Bool-cases (equal d.name def.name)) [
  | inl same ↦ rw same (h, u.1)
  | inr other ↦ rw other (u.0, UnusedDef-upsert_row name def ds h u.1)
]

pub upsert_row-DistinctDefs :
    (def : JobDef) (ds : List JobDef) → DistinctDefs ds → DistinctDefs (upsert_row def ds)
unfolding upsert_row
upsert_row-DistinctDefs def [] h = (tt, tt)
upsert_row-DistinctDefs def (d ∷ ds) h = elim (Bool-cases (equal d.name def.name)) [
  | inl same ↦ rw same (subst (λ n. UnusedDef n ds) ((equal_iff d.name def.name).0 same) h.0, h.1)
  | inr other ↦
      rw other (UnusedDef-upsert_row d.name def ds other h.0, upsert_row-DistinctDefs def ds h.1)
]

-- `ORDER BY` keeps the rows.
sort_insert-In :
    (def x : JobDef) (ds : List JobDef)
    → (def ≡ x) ⊎ In def ds
    → In def (sort_insert def_precedes x ds)
unfolding sort_insert
sort_insert-In def x [] h = elim h [ inl e ↦ inl e | inr i ↦ absurd i ]
sort_insert-In def x (d ∷ ds) h = elim (Bool-cases (def_precedes x d)) [
  | inl first ↦ rw first (elim h [ inl e ↦ inl e | inr i ↦ inr i ])
  | inr later ↦ rw later (elim h [
    | inl e ↦ inr (sort_insert-In def x ds (inl e))
    | inr (inl e) ↦ inl e
    | inr (inr i) ↦ inr (sort_insert-In def x ds (inr i))
  ])
]

UnusedDef-sort_insert :
    (name : Text) (x : JobDef) (ds : List JobDef)
    → equal name x.name ≡ false
    → UnusedDef name ds
    → UnusedDef name (sort_insert def_precedes x ds)
unfolding sort_insert
UnusedDef-sort_insert name x [] h u = (h, tt)
UnusedDef-sort_insert name x (d ∷ ds) h u = elim (Bool-cases (def_precedes x d)) [
  | inl first ↦ rw first (h, u)
  | inr later ↦ rw later (u.0, UnusedDef-sort_insert name x ds h u.1)
]

sort_insert-DistinctDefs :
    (x : JobDef) (ds : List JobDef)
    → UnusedDef x.name ds
    → DistinctDefs ds
    → DistinctDefs (sort_insert def_precedes x ds)
unfolding sort_insert
sort_insert-DistinctDefs x [] u h = (tt, tt)
sort_insert-DistinctDefs x (d ∷ ds) u h = elim (Bool-cases (def_precedes x d)) [
  | inl first ↦ rw first (u, h)
  | inr later ↦ rw later (
    UnusedDef-sort_insert d.name x ds (equal_swap x.name d.name u.0) h.0,
    sort_insert-DistinctDefs x ds u.1 h.1,
  )
]

pub sort_by-In : (def : JobDef) (ds : List JobDef) → In def ds → In def (sort_by def_precedes ds)
unfolding sort_by
sort_by-In def [] i = absurd i
sort_by-In def (d ∷ ds) i =
    sort_insert-In def d (sort_by def_precedes ds)
      (elim i [ inl e ↦ inl e | inr j ↦ inr (sort_by-In def ds j) ])

UnusedDef-sort_by :
    (name : Text) (ds : List JobDef) → UnusedDef name ds → UnusedDef name (sort_by def_precedes ds)
unfolding sort_by
UnusedDef-sort_by name [] u = tt
UnusedDef-sort_by name (d ∷ ds) u =
    UnusedDef-sort_insert name d (sort_by def_precedes ds) u.0 (UnusedDef-sort_by name ds u.1)

pub sort_by-DistinctDefs :
    (ds : List JobDef) → DistinctDefs ds → DistinctDefs (sort_by def_precedes ds)
unfolding sort_by
sort_by-DistinctDefs [] h = tt
sort_by-DistinctDefs (d ∷ ds) h =
    sort_insert-DistinctDefs d (sort_by def_precedes ds) (UnusedDef-sort_by d.name ds h.0)
      (sort_by-DistinctDefs ds h.1)

pub UnusedDef-In :
    (name : Text) (def : JobDef) (ds : List JobDef)
    → UnusedDef name ds
    → In def ds
    → equal name def.name ≡ false
UnusedDef-In name def [] u i = absurd i
UnusedDef-In name def (d ∷ ds) u (inl e) = subst (λ x. equal name x.name ≡ false) (sym e) u.0
UnusedDef-In name def (d ∷ ds) u (inr i) = UnusedDef-In name def ds u.1 i
