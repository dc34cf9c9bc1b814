-- ===== src/Process/Kill.antt =====
-- process_runner.cpp: a run that times out is killed once, and reported as a timeout.
use agent_pulse.Base.{
  if◌then◌else◌, value_or, Bool-cases, ◌≡◌, refl, sym, ap, subst, ◌∙◌, inl, inr, Bool, true, false,
  ◌||◌, Option, none, some, List, [], ◌∷◌, arith,
}
use agent_pulse.Process.{
  Poll, interrupted, poll_failed, expired, ready, Drain, on_expired, on_ready, drain_loop,
}

-- The process is killed as soon as the time is up, and not again.
abbrev pub KilledOnce : Drain → Type 0
KilledOnce d = (d.killed ≡ d.timed_out) × (d.kills ≡ (if d.timed_out then 1 else 0))

not_yet : (d : Drain) → KilledOnce d → d.killed ≡ false → d.kills ≡ 0
not_yet d h off = h.1 ∙ rw (sym h.0, off)

on_expired-KilledOnce : (d : Drain) → KilledOnce d → KilledOnce (on_expired d)
unfolding on_expired
on_expired-KilledOnce d h = elim (Bool-cases d.killed) [
  | inl on ↦ rw on (refl, h.1 ∙ rw (sym h.0, on))
  | inr off ↦ rw off (refl, rw (not_yet d h off))
]

-- The test at the head of the loop.
at_head :
    (b : Bool) (rest : Option Drain) (d d' : Drain)
    → KilledOnce d
    → (rest ≡ some d' → KilledOnce d')
    → (if b then rest else some d) ≡ some d'
    → KilledOnce d'
at_head true rest d d' h go e = go e
at_head false rest d d' h go e = subst KilledOnce (ap (λ o. value_or o d) e) h

-- Whatever `poll` answers, the process group is killed at most once, and it is killed if and only
-- if the run is marked as timed out.
pub drain_loop-KilledOnce :
    (polls : List Poll) (d d' : Drain) → KilledOnce d → drain_loop polls d ≡ some d' → KilledOnce d'
unfolding drain_loop on_ready
drain_loop-KilledOnce [] d d' h e =
    at_head (d.out.keep || d.err.keep) none d d' h (λ impossible. ground arith) e
drain_loop-KilledOnce (interrupted ∷ polls) d d' h e =
    at_head (d.out.keep || d.err.keep) (drain_loop polls d) d d' h
      (drain_loop-KilledOnce polls d d' h) e
drain_loop-KilledOnce (poll_failed ∷ polls) d d' h e =
    at_head false none d d' h (λ f. ground arith) e
drain_loop-KilledOnce (expired ∷ polls) d d' h e =
    at_head (d.out.keep || d.err.keep) (drain_loop polls (on_expired d)) d d' h
      (drain_loop-KilledOnce polls (on_expired d) d' (on_expired-KilledOnce d h)) e
drain_loop-KilledOnce (ready out err ∷ polls) d d' h e =
    at_head (d.out.keep || d.err.keep) (drain_loop polls (on_ready out err d)) d d' h
      (drain_loop-KilledOnce polls (on_ready out err d) d' h) e
