-- ===== src/Process/Capture.antt =====
-- process_runner.cpp: what a run keeps of its output, and how a timeout ends it.
use agent_pulse.Base.{
  ltb, leb, leb→le, le→leb, Bool-cases, length, take, length-append, take_all, Text, ℕ, zero, suc,
  ◌+◌, ◌-◌, ◌≤◌, ◌<◌, ◌≡◌, refl, sym, ap, ◌∙◌, ◌⊎◌, inl, inr, Bool, true, false, Option, none, some,
  List, [], ◌∷◌, ◌++◌, append_assoc, append-nil, arith,
}
use agent_pulse.Process.{max_capture, Stream, open_stream, append_capped, Read, bytes, ended, drain}

-- The bytes of the reads of one stream, in order, up to the end of the stream.
pub bytes_of : List (Option Read) → Text
bytes_of [] = []
bytes_of (none ∷ reads) = bytes_of reads
bytes_of (some ended ∷ reads) = []
bytes_of (some (bytes b) ∷ reads) = b ++ bytes_of reads

-- A read that is no end gives a byte at least.
abbrev pub GivesBytes : List (Option Read) → Type 0
GivesBytes [] = Unit
GivesBytes (some (bytes b) ∷ reads) = (1 ≤ length b) × GivesBytes reads
GivesBytes (_ ∷ reads) = GivesBytes reads

-- The stream after the reads.
pub drain_all : List (Option Read) → Stream → Stream
drain_all [] st = st
drain_all (r ∷ reads) st = drain_all reads (drain r st)

take_prefix :
    {A : Type 0} (n m : ℕ) (a b : List A) → n ≡ length a + m → take n (a ++ b) ≡ a ++ take m b
take_prefix n m [] b h = ap (λ k. take k b) (the_sum n m h)
  where
    the_sum : (n m : ℕ) → n ≡ 0 + m → n ≡ m
    the_sum n m h = omega arith
take_prefix zero m (x ∷ a) b h = absurd (omega arith)
take_prefix (suc n) m (x ∷ a) b h = ap (◌∷◌ x) (take_prefix n m a b (omega arith))

take_within : {A : Type 0} (n : ℕ) (a b : List A) → n ≤ length a → take n (a ++ b) ≡ take n a
take_within zero a b h = refl
take_within (suc n) [] b h = absurd (omega arith)
take_within (suc n) (x ∷ a) b h = ap (◌∷◌ x) (take_within n a b (omega arith))

-- What `append_capped` does in its three cases.
abbrev pub Appended : Text → Text → Text × Bool × Bool → Type 0
Appended buf b r =
    ((length (buf ++ b) ≤ max_capture) × (r ≡ (buf ++ b, false, true)))
    ⊎ ((max_capture < length (buf ++ b)) × (r ≡ (take max_capture (buf ++ b), true, false)))

full :
    (buf b : Text)
    → length buf ≤ max_capture
    → 1 ≤ length b
    → max_capture ≤ length buf
    → Appended buf b (append_capped buf b false)
unfolding append_capped
full buf b h one c =
    rw (le→leb max_capture (length buf) c)
      (inr (omega (arith, length-append buf b), ap (λ t. (t, true, false)) (sym kept)))
  where
    kept : take max_capture (buf ++ b) ≡ buf
    kept = take_prefix max_capture 0 buf b (omega arith) ∙ append-nil buf

room_left :
    (buf b : Text)
    → leb max_capture (length buf) ≡ false
    → Appended buf b (append_capped buf b false)
unfolding append_capped
room_left buf b c = elim (Bool-cases (ltb (length b) (max_capture - length buf))) [
  | inl fits ↦
      rw (c, fits, not_lt (length b) (length b) (omega arith), take_all (length b) b (omega arith))
        (inl (ground (arith, length-append buf b), refl))
  | inr tight ↦ elim (Bool-cases (ltb (max_capture - length buf) (length b))) [
    | inl over ↦
        rw (c, tight, over)
          (inr (
            ground (arith, length-append buf b),
            ap (λ t. (t, true, false))
                (sym (take_prefix max_capture (max_capture - length buf) buf b (ground arith))),
          ))
    | inr exact ↦
        rw (c, tight, exact, take_all (max_capture - length buf) b (ground arith))
          (inl (ground (arith, length-append buf b), refl))
  ]
]
  where
    not_lt : (m n : ℕ) → n ≤ m → ltb m n ≡ false
    not_lt m n h = ground arith

append_capped-Appended :
    (buf b : Text)
    → length buf ≤ max_capture
    → 1 ≤ length b
    → Appended buf b (append_capped buf b false)
append_capped-Appended buf b h one = elim (Bool-cases (leb max_capture (length buf))) [
  | inl c ↦ full buf b h one (leb→le max_capture (length buf) c)
  | inr c ↦ room_left buf b c
]

drain_idle : (r : Option Read) (st : Stream) → st.keep ≡ false → drain r st ≡ st
unfolding drain
drain_idle none st e = refl
drain_idle (some ended) st e = simp e
drain_idle (some (bytes b)) st e = simp e

drain_shut : (reads : List (Option Read)) (st : Stream) → st.keep ≡ false → drain_all reads st ≡ st
unfolding drain_all
drain_shut [] st e = refl
drain_shut (r ∷ reads) st e = ap (drain_all reads) (drain_idle r st e) ∙ drain_shut reads st e

-- The stream keeps the first bytes of all, and is truncated if there are more.
abbrev pub Captured : Text → Stream → Type 0
Captured all st = (st.text ≡ take max_capture all) × (st.truncated ≡ ltb max_capture (length all))

still_fits :
    (text : Text)
    → length text ≤ max_capture
    → Captured (text ++ []) (record { text = text; truncated = false; keep = true })
still_fits text h = rw (append-nil text, take_all max_capture text h) (refl, ground arith)

of_append : Text × Bool × Bool → Stream
of_append (text, truncated, more) = record { text = text; truncated = truncated; keep = more }

drain_bytes :
    (b text : Text)
    → drain (some (bytes b)) (record { text = text; truncated = false; keep = true })
      ≡ of_append (append_capped text b false)
unfolding drain of_append
drain_bytes b text = refl

cut_off :
    (all rest : Text)
    → max_capture < length all
    → Captured
        (all ++ rest)
        (record { text = take max_capture all; truncated = true; keep = false })
cut_off all rest h =
    (sym (take_within max_capture all rest (omega arith)), ground (arith, length-append all rest))

drain_ended :
    (text : Text)
    → drain (some ended) (record { text = text; truncated = false; keep = true })
      ≡ record { text = text; truncated = false; keep = false }
unfolding drain
drain_ended text = refl

drain-none : (st : Stream) → drain none st ≡ st
unfolding drain
drain-none st = refl

drain_all-Captured :
    (reads : List (Option Read)) (text : Text)
    → GivesBytes reads
    → length text ≤ max_capture
    → Captured
        (text ++ bytes_of reads)
        (drain_all reads (record { text = text; truncated = false; keep = true }))
unfolding drain_all bytes_of of_append
drain_all-Captured [] text g h = still_fits text h
drain_all-Captured (none ∷ reads) text g h =
    rw (drain_all, drain-none (record { text = text; truncated = false; keep = true }))
      (drain_all-Captured reads text g h)
drain_all-Captured (some ended ∷ reads) text g h =
    rw
      (
        drain_all,
        drain_ended text,
        drain_shut reads (record { text = text; truncated = false; keep = false }) refl,
      )
      (still_fits text h)
drain_all-Captured (some (bytes b) ∷ reads) text g h = elim (append_capped-Appended text b h g.0) [
  | inl (fits, e) ↦
      rw (drain_all, drain_bytes b text, e, sym (append_assoc text b (bytes_of reads)))
        (drain_all-Captured reads (text ++ b) g.1 fits)
  | inr (over, e) ↦
      rw
        (
          drain_all,
          drain_bytes b text,
          e,
          sym (append_assoc text b (bytes_of reads)),
          drain_shut reads
              (record { text = take max_capture (text ++ b); truncated = true; keep = false }) refl,
        )
        (cut_off (text ++ b) (bytes_of reads) over)
]

-- Whatever `poll` and `read` answer, a stream ends with the first `max_capture` bytes that were read
-- of it, and is marked as truncated if and only if there were more; a `read` that reports no end
-- gives at least one byte.
pub drain_all-captures :
    (reads : List (Option Read))
    → GivesBytes reads
    → ((drain_all reads open_stream).text ≡ take max_capture (bytes_of reads))
      × ((drain_all reads open_stream).truncated ≡ ltb max_capture (length (bytes_of reads)))
drain_all-captures reads g = drain_all-Captured reads [] g nothing
  where
    nothing : 0 ≤ max_capture
    nothing = omega arith
