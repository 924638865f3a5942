-- ===== src/Server/Stopping.antt =====
-- The end of the process of cmd/server/main.go.
use mathlib.Core.Path.{subst}
use review_service.Prelude.{
  ℕ, zero, suc, ◌+◌, ◌≤◌, ◌≡◌, refl, Bool, true, false, none, some, List, [], ◌∷◌, ◌⊎◌, inl, inr,
  arith, ◌&&◌, ap, length, all, some-injective, Option-cases, Bool-cases,
}
use review_service.Server.{Phase, exited, State, Process, Event, act, act_all, started}
use review_service.Server.Moves.{
  Holds, IsGraceful, IsClean, is_clean, left, is_over, IsGoing, act-Holds, act-left, act-IsClean,
  act-IsGoing,
}

-- What holds of any sequence of events between two processes.
record IsRun (es : List Event) (p q : Process) : Type 0 where
  holds : Holds p.0 p.1 → Holds q.0 q.1
  spent : left q.0 q.1 + length es ≤ left p.0 p.1
  clean : all is_clean es ≡ true → IsClean p.0 p.1 → IsClean q.0 q.1

act-IsRun :
    (e : Event) (es : List Event) (p m q : Process)
    → act e p ≡ some m
    → IsRun es m q
    → IsRun (e ∷ es) p q
act-IsRun e es p m q moved r = record {
  holds = λ h. r.holds (act-Holds p.0 e p.1 m.0 m.1 h moved);
  spent = omega (arith, r.spent, act-left p.0 e p.1 m.0 m.1 moved);
  clean = λ c h.
      let (first, rest) = both (is_clean e) (all is_clean es) c in
      r.clean rest (act-IsClean p.0 e p.1 m.0 m.1 h first moved);
}
  where
    both : (a b : Bool) → (a && b) ≡ true → (a ≡ true) × (b ≡ true)
    both a b h = ground arith

act_all-IsRun : (es : List Event) (p q : Process) → act_all es p ≡ some q → IsRun es p q
act_all-IsRun [] p q done =
    let same = some-injective _ _ done in
    subst (IsRun [] p) same (record { holds = λ h. h; spent = omega arith; clean = λ c h. h })
act_all-IsRun (e ∷ es) p q done = elim (Option-cases (act e p)) [
  | inl idle ↦ let none_done : none ≡ some q = rw (idle, act_all) at done in cc
  | inr (m, moved) ↦ act-IsRun e es p m q moved (act_all-IsRun es m q (rw (moved, act_all) at done))
]

started-Holds : Holds started.0 started.1
started-Holds = (inl (refl, refl), refl)

-- From the start of the goroutines, whatever happens in whatever order: if the process exits, then
-- either with 0, after a signal, when its server, consumer and relay have all stopped and its reader is
-- closed, and with its producer, signals and clients released in this order; or with 1 and nothing
-- released, but only if some event was not clean: the server returned something else than
-- `http.ErrServerClosed`, or a call of `main` failed or its `select` took the value of the server.
pub act_all-IsExit :
    (es : List Event) (code : ℕ) (s : State)
    → act_all es started ≡ some (exited code, s)
    → ((code ≡ 0) × IsGraceful s) ⊎ ((code ≡ 1) × (s.released ≡ []) × (all is_clean es ≡ false))
act_all-IsExit es code s done = by_code code s (act_all-IsRun es started (exited code, s) done)
  where
    by_code :
        (code : ℕ) (s : State)
        → IsRun es started (exited code, s)
        → ((code ≡ 0) × IsGraceful s) ⊎ ((code ≡ 1) × (s.released ≡ []) × (all is_clean es ≡ false))
    by_code zero s r = inl (refl, r.holds started-Holds)
    by_code (suc code) s r =
        let (same, unreleased) = r.holds started-Holds in
        inr (
          ap suc same,
          unreleased,
          elim (Bool-cases (all is_clean es)) [
            | inl tidy ↦ absurd (r.clean tidy (inl refl))
            | inr untidy ↦ untidy
          ],
        )

-- From the start of the goroutines at most ten events happen, in whatever order; and after a signal,
-- until the process exits, a clean one can happen.
pub act_all-IsBounded :
    (es : List Event) (phase : Phase) (s : State)
    → act_all es started ≡ some (phase, s)
    → (length es ≤ 10) × (s.cancelled ≡ true → is_over phase ≡ false → IsGoing phase s)
act_all-IsBounded es phase s done =
    let r = act_all-IsRun es started (phase, s) done in
    (omega (arith, r.spent), act-IsGoing phase s (r.holds started-Holds))
