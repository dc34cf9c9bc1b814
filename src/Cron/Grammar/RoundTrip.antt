-- ===== src/Cron/Grammar/RoundTrip.antt =====
-- `parse_field` reads back every field of the grammar, with the set that the grammar gives it.
use agent_pulse.Cron.Sets.{
  insert_steps_sound, insert_steps_complete, insert_steps-total, member-ne-nil,
}
use agent_pulse.Base.{
  ◌==◌, if◌then◌else◌, value_or, All, ℤ, pos, leb_ℤ, Text, lit, equal, is_empty, equal_refl,
  getlines, is_digit, int_max, stoi, decimal, ℕ, suc, ◌-◌, ◌≤◌, ◌<◌, ◌≡◌, refl, ap, subst, ◌∙◌, ◌≢◌,
  ◌↔◌, ◌⊎◌, inl, inr, Bool, true, false, Option, none, some, List, [], ◌∷◌, ◌++◌, map, append-nil,
  arith,
}
use agent_pulse.Base.Decimal.{
  Avoids, Avoids-append, decimal-IsDigits, IsDigits-Avoids, decimal-cons, stoi-decimal, cut-none,
  cut-append, getlines-append, getlines_one,
}
use agent_pulse.Cron.{
  Parsed, parsed, malformed, ◌>>=◌, FieldRange, member, split_step, base_range, insert_steps,
  insert_range, parse_token, parse_tokens, parse_field,
}
use agent_pulse.Cron.Grammar.{
  Base, any, one, span, Item, first, last, stride, render_base, render_step, render_item,
  render_field, Fits, DenotedBy,
}

star-Avoids : (c : ℕ) → (b'*' == c) ≡ false → Avoids c (lit "*")
unfolding lit
star-Avoids c h = (h, tt)

decimal-Avoids : (c n : ℕ) → is_digit c ≡ false → Avoids c (decimal n)
decimal-Avoids c n h = IsDigits-Avoids c (decimal n) h (decimal-IsDigits n)

-- Neither the comma nor the slash occurs in a base.
render_base-Avoids :
    (c : ℕ) (b : Base)
    → is_digit c ≡ false
    → (b'*' == c) ≡ false
    → (b'-' == c) ≡ false
    → Avoids c (render_base b)
unfolding render_base
render_base-Avoids c any d s h = star-Avoids c s
render_base-Avoids c (one n) d s h = decimal-Avoids c n d
render_base-Avoids c (span a b) d s h =
    Avoids-append c (decimal a) (b'-' ∷ decimal b) (decimal-Avoids c a d) (h, decimal-Avoids c b d)

render_step-Avoids : (b : Base) (s : Option ℕ) → Avoids b',' (render_step s (render_base b))
render_step-Avoids b none = render_base-Avoids b',' b refl refl refl
render_step-Avoids b (some n) =
    Avoids-append b',' (render_base b) (b'/' ∷ decimal n) (render_base-Avoids b',' b refl refl refl)
      (refl, decimal-Avoids b',' n refl)

not_star : (c : ℕ) (t : Text) → is_digit c ≡ true → equal (c ∷ t) (lit "*") ≡ false
unfolding equal lit
not_star c t h = ground arith

decimal-not_star : (n : ℕ) (rest : Text) → equal (decimal n ++ rest) (lit "*") ≡ false
decimal-not_star n rest = let (c, t, e, d) = decimal-cons n in rw e (not_star c (t ++ rest) d)

stoi-decimal_all : (n : ℕ) → n ≤ int_max → stoi (decimal n) ≡ some (pos n)
stoi-decimal_all n h =
    subst (λ t. stoi t ≡ some (pos n)) (append-nil (decimal n)) (stoi-decimal n [] h tt)

base_range-render :
    (range : FieldRange) (b : Base)
    → first range b ≤ int_max
    → last range b ≤ int_max
    → base_range range (render_base b) ≡ parsed (pos (first range b), pos (last range b))
unfolding base_range render_base
base_range-render range any h k = rw (equal_refl (lit "*"))
base_range-render range (one n) h k =
    rw (subst (λ t. equal t (lit "*") ≡ false) (append-nil (decimal n)) (decimal-not_star n []))
      (rw (cut-none b'-' (decimal n) (decimal-Avoids b'-' n refl), stoi-decimal_all n h))
base_range-render range (span a b) h k = rw (decimal-not_star a (b'-' ∷ decimal b)) (
    rw (cut-append b'-' (decimal a) (decimal b) (decimal-Avoids b'-' a refl))
      (rw (stoi-decimal_all a h, stoi-decimal_all b k)))

split_step-render :
    (b : Base) (s : Option ℕ)
    → 0 < value_or s 1
    → value_or s 1 ≤ int_max
    → split_step (render_step s (render_base b)) ≡ parsed (render_base b, pos (value_or s 1))
unfolding split_step
split_step-render b none p h =
    rw (split_step, cut-none b'/' (render_base b) (render_base-Avoids b'/' b refl refl refl))
split_step-render b (some n) p h =
    rw
      (
        split_step,
        cut-append b'/' (render_base b) (decimal n) (render_base-Avoids b'/' b refl refl refl),
      )
      (rw (stoi-decimal_all n h) (positive n p))
  where
    positive :
        (n : ℕ)
        → 0 < n
        → ◌≡◌ {A = Parsed (Text × ℤ)}
            (if leb_ℤ (pos n) (pos 0) then malformed else parsed (render_base b, pos n))
            (parsed (render_base b, pos n))
    positive n p = ground arith

parse_token-cons :
    (range : FieldRange) (out : List ℕ) (t : Text)
    → t ≢ []
    → parse_token range out t
      ≡ (split_step t >>= λ p. base_range range p.0 >>= λ q. insert_range range out q.0 q.1 p.1)
unfolding parse_token
parse_token-cons range out [] ne = absurd (ne refl)
parse_token-cons range out (c ∷ t) ne = refl

append_cons-ne-nil : (a : Text) (c : ℕ) (b : Text) → a ++ c ∷ b ≢ []
append_cons-ne-nil [] c b e = cc
append_cons-ne-nil (x ∷ a) c b e = cc

render_base-ne-nil : (b : Base) → render_base b ≢ []
unfolding render_base lit
render_base-ne-nil any e = cc
render_base-ne-nil (one n) e = let (c, t, d, _) = decimal-cons n in cc
render_base-ne-nil (span a b) e = append_cons-ne-nil (decimal a) b'-' (decimal b) e

render_step-ne-nil : (s : Option ℕ) (b : Base) → render_step s (render_base b) ≢ []
render_step-ne-nil none b e = render_base-ne-nil b e
render_step-ne-nil (some n) b e = append_cons-ne-nil (render_base b) b'/' (decimal n) e

insert_range_inside :
    (range : FieldRange) (out : List ℕ) (item : Item)
    → Fits range item
    → let a = first range item.base in
      let b = last range item.base in
      insert_range range out (pos a) (pos b) (pos (stride item))
      ≡ insert_steps (suc (b - a)) a b (stride item) out
unfolding insert_range
insert_range_inside range out item f = ground (arith, f.above, f.ordered, f.below)

parse_token-render :
    (range : FieldRange) (out : List ℕ) (item : Item)
    → Fits range item
    → let a = first range item.base in
      let b = last range item.base in
      parse_token range out (render_item item) ≡ insert_steps (suc (b - a)) a b (stride item) out
parse_token-render range out item f =
    parse_token-cons range out (render_item item) (render_step-ne-nil item.step item.base)
    ∙ rw (split_step-render item.base item.step f.stepping (omega (arith, f.small))) (
        rw
          (base_range-render range item.base (omega (arith, f.ordered, f.below, f.small))
            (omega (arith, f.below, f.small)))
          (insert_range_inside range out item f))

pub parse_tokens-render :
    (range : FieldRange) (out : List ℕ) (items : List Item)
    → All (Fits range) items
    → (s : List ℕ) × (parse_tokens range out (map render_item items) ≡ parsed s)
      × ((u : ℕ) → (member u s ≡ true) ↔ ((member u out ≡ true) ⊎ DenotedBy range items u))
unfolding parse_tokens
parse_tokens-render range out [] fits =
    (out, refl, λ u. (λ m. inl m, λ h. elim h [ inl m ↦ m | inr never ↦ absurd never ]))
parse_tokens-render range out (item ∷ items) (f, fits) =
    let (s1, e1) =
      insert_steps-total (suc (last range item.base - first range item.base))
        (first range item.base) (last range item.base) (stride item) out
        (omega (arith, f.below, f.small)) in
    let (s, e, h) = parse_tokens-render range s1 items fits in
    (s, rw (parse_token-render range out item f, e1) e, λ u. (split s1 e1 s h u, join s1 e1 s h u))
  where
    split :
        (s1 : List ℕ)
        → insert_steps
            (suc (last range item.base - first range item.base))
            (first range item.base)
            (last range item.base)
            (stride item)
            out
          ≡ parsed s1
        → (s : List ℕ)
        → ((u : ℕ) → (member u s ≡ true) ↔ ((member u s1 ≡ true) ⊎ DenotedBy range items u))
        → (u : ℕ) → member u s ≡ true
        → (member u out ≡ true) ⊎ DenotedBy range (item ∷ items) u
    split s1 e1 s h u m = elim ((h u).0 m) [
      | inr later ↦ inr (inr later)
      | inl here ↦ elim (insert_steps_sound _ _ _ _ out u e1 here) [
        | inl old ↦ inl old
        | inr now ↦ inr (inl now)
      ]
    ]

    join :
        (s1 : List ℕ)
        → insert_steps
            (suc (last range item.base - first range item.base))
            (first range item.base)
            (last range item.base)
            (stride item)
            out
          ≡ parsed s1
        → (s : List ℕ)
        → ((u : ℕ) → (member u s ≡ true) ↔ ((member u s1 ≡ true) ⊎ DenotedBy range items u))
        → (u : ℕ) → (member u out ≡ true) ⊎ DenotedBy range (item ∷ items) u
        → member u s ≡ true
    join s1 e1 s h u (inr (inr later)) = (h u).1 (inr later)
    join s1 e1 s h u (inl old) = (h u).1 (
        inl
          (insert_steps_complete _ _ _ _ out u e1 (omega (arith, f.ordered)) f.stepping (inl old)))
    join s1 e1 s h u (inr (inl now)) = (h u).1 (
        inl
          (insert_steps_complete _ _ _ _ out u e1 (omega (arith, f.ordered)) f.stepping (inr now)))

getlines-render :
    (item : Item) (items : List Item)
    → getlines b',' none (render_field item items) ≡ map render_item (item ∷ items)
unfolding render_field
getlines-render item [] =
    getlines_one b',' (render_item item) (render_step-Avoids item.base item.step)
      (render_step-ne-nil item.step item.base)
getlines-render item (next ∷ items) =
    getlines-append b',' (render_item item) (render_field next items)
      (render_step-Avoids item.base item.step)
    ∙ ap (◌∷◌ (render_item item)) (getlines-render next items)

-- For every field of the grammar whose items fit the range, `parse_field` succeeds; it returns the
-- set of exactly those values that some item denotes, and says whether the field is `*`.
pub parse_field-render :
    (range : FieldRange) (item : Item) (items : List Item)
    → All (Fits range) (item ∷ items)
    → (s : List ℕ) × (parse_field range (render_field item items)
        ≡ parsed (s, equal (render_field item items) (lit "*")))
      × ((u : ℕ) → (member u s ≡ true) ↔ DenotedBy range (item ∷ items) u)
unfolding parse_field member
parse_field-render range item items (f, fits) =
    let (s, e, h) = parse_tokens-render range [] (item ∷ items) (f, fits) in
    let m = (h (first range item.base)).1 (inr (inl (0, omega arith, f.ordered))) in
    (
      s,
      rw (getlines-render item items, e) (filled s (member-ne-nil _ s m)),
      λ u. (λ k. elim ((h u).0 k) [ inl never ↦ cc | inr d ↦ d ], λ d. (h u).1 (inr d)),
    )
  where
    filled :
        (s : List ℕ)
        → s ≢ []
        → ◌≡◌ {A = Parsed (List ℕ × Bool)}
            (if is_empty s
              then malformed
              else parsed (s, equal (render_field item items) (lit "*")))
            (parsed (s, equal (render_field item items) (lit "*")))
    filled [] ne = absurd (ne refl)
    filled (x ∷ s) ne = refl
