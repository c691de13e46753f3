-- ===== src/Proc/Signals/Reaping.antt =====
-- Which children one call of qc_process_get_status takes.
use quick_comm.Base.{
  ◌≡◌, ◌≢◌, refl, ap, Bool, true, false, List, [], ◌∷◌, ◌++◌, some, All, ◌==◌, ==_iff,
  if◌then◌else◌, Bool-cases, inl, inr, ◌>>=◌,
}
use quick_comm.Proc.Signals.{
  LogCall, WaitAnswer, none_ended, ended, wait_error, eintr, ended_call, error_calls,
  get_status_loop, process_get_status,
}

-- waitpid() gives a child, or was interrupted.
abbrev pub GoesOn : WaitAnswer → Type 0
GoesOn none_ended = ⊥
GoesOn (ended pid status) = Unit {0}
GoesOn (wait_error err) = err ≡ eintr

-- No child has ended, or there is an error other than an interruption.
abbrev pub Ends : WaitAnswer → Type 0
Ends none_ended = Unit {0}
Ends (ended pid status) = ⊥
Ends (wait_error err) = err ≢ eintr

-- A line for each child, in the order in which they are taken
abbrev pub child_calls : List WaitAnswer → List LogCall
child_calls [] = []
child_calls (ended pid status ∷ answers) = ended_call pid status ∷ child_calls answers
child_calls (none_ended ∷ answers) = child_calls answers
child_calls (wait_error err ∷ answers) = child_calls answers

abbrev pub has_child : List WaitAnswer → Bool
has_child [] = false
has_child (ended pid status ∷ answers) = true
has_child (none_ended ∷ answers) = has_child answers
has_child (wait_error err ∷ answers) = has_child answers

-- What the end adds: nothing, or a line for an error
abbrev pub end_calls : Bool → WaitAnswer → List LogCall
end_calls one none_ended = []
end_calls one (ended pid status) = []
end_calls one (wait_error err) = error_calls one err

abbrev one_more : Bool → List WaitAnswer → Bool
one_more one answers = if one then true else has_child answers

loop-Reaps :
    (before : List WaitAnswer) (last : WaitAnswer) (later : List WaitAnswer) (one : Bool)
    → All GoesOn before
    → Ends last
    → get_status_loop one (before ++ (last ∷ later))
      ≡ some (child_calls before ++ end_calls (one_more one before) last, later)
unfolding get_status_loop
loop-Reaps [] none_ended later one g e = refl
loop-Reaps [] (ended pid status) later one g e = absurd e
loop-Reaps [] (wait_error err) later true g e = elim (Bool-cases (err == eintr)) [
  | inl same ↦ absurd (e ((==_iff err eintr).0 same))
  | inr other ↦ simp other refl
]
loop-Reaps [] (wait_error err) later false g e = elim (Bool-cases (err == eintr)) [
  | inl same ↦ absurd (e ((==_iff err eintr).0 same))
  | inr other ↦ simp other refl
]
loop-Reaps (none_ended ∷ before) last later one (g, gs) e = absurd g
loop-Reaps (wait_error err ∷ before) last later one (g, gs) e =
    simp ((==_iff err eintr).1 g) (loop-Reaps before last later one gs e)
loop-Reaps (ended pid status ∷ before) last later true (g, gs) e =
    ap (λ o. o >>= λ r. some (ended_call pid status ∷ r.0, r.1))
      (loop-Reaps before last later true gs e)
loop-Reaps (ended pid status ∷ before) last later false (g, gs) e =
    ap (λ o. o >>= λ r. some (ended_call pid status ∷ r.0, r.1))
      (loop-Reaps before last later true gs e)

pub status-Reaps :
    (before : List WaitAnswer) (last : WaitAnswer) (later : List WaitAnswer)
    → All GoesOn before
    → Ends last
    → process_get_status (before ++ (last ∷ later))
      ≡ some (child_calls before ++ end_calls (has_child before) last, later)
unfolding process_get_status
status-Reaps before last later g e = loop-Reaps before last later false g e
