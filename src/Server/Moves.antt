-- ===== src/Server/Moves.antt =====
-- Single moves of the process of cmd/server/main.go.
use review_service.Prelude.{
  ℕ, zero, suc, ◌+◌, ◌<◌, ◌≡◌, refl, Bool, true, false, none, some, [], ◌⊎◌, inl, inr, arith, not,
  Bool-cases,
}
use review_service.Server.{
  Served, server_closed, Phase, selecting, shutting_down, receiving, closing_consumer,
  awaiting_consumer, awaiting_relay, exited, State, Process, Event, serve_returns, consumer_returns,
  relay_returns, main_goes, deferred, act, after_serving,
}

-- Either the server serves and `errCh` is empty, or it has returned and what it returned waits.
abbrev pub IsPending : State → Type 0
IsPending s =
    ((s.serving ≡ true) × (s.err_ch ≡ none))
    ⊎ ((s.serving ≡ false) × ((e : Served) × (s.err_ch ≡ some e)))

-- The process was asked to stop, nothing of it runs, and everything is released in order.
pub record IsGraceful (s : State) : Type 0 where
  pub cancelled : s.cancelled ≡ true
  pub serving : s.serving ≡ false
  pub consuming : s.consuming ≡ false
  pub relaying : s.relaying ≡ false
  pub reader_closed : s.reader_closed ≡ true
  pub released : s.released ≡ deferred

-- What is known by where `main` is.
abbrev pub Holds : Phase → State → Type 0
Holds selecting s = IsPending s × (s.released ≡ [])
Holds shutting_down s = (s.cancelled ≡ true) × (s.shut ≡ true) × (s.released ≡ []) × IsPending s
Holds receiving s = (s.cancelled ≡ true) × (s.shut ≡ true) × (s.released ≡ []) × IsPending s
Holds closing_consumer s = (s.cancelled ≡ true) × (s.serving ≡ false) × (s.released ≡ [])
Holds awaiting_consumer s =
    (s.cancelled ≡ true) × (s.serving ≡ false) × (s.released ≡ []) × (s.reader_closed ≡ true)
Holds awaiting_relay s =
    (s.cancelled ≡ true)
    × (s.serving ≡ false)
    × (s.released ≡ [])
    × (s.reader_closed ≡ true)
    × (s.consuming ≡ false)
Holds (exited zero) s = IsGraceful s
Holds (exited (suc code)) s = (code ≡ 0) × (s.released ≡ [])

pub act-Holds :
    (phase : Phase) (e : Event) (s : State) (next : Phase) (t : State)
    → Holds phase s
    → act e (phase, s) ≡ some (next, t)
    → Holds next t
unfolding act
act-Holds selecting e s next t h moved = ground arith
act-Holds shutting_down e s next t h moved = ground arith
act-Holds receiving e s next t h moved = ground arith
act-Holds closing_consumer e s next t h moved = ground arith
act-Holds awaiting_consumer e s next t h moved = ground arith
act-Holds awaiting_relay e s next t h moved = ground arith
act-Holds (exited code) e s next t h moved = ground arith

-- The moves that are left to `main`.
abbrev pub rank : Phase → ℕ
rank selecting = 6
rank shutting_down = 5
rank receiving = 4
rank closing_consumer = 3
rank awaiting_consumer = 2
rank awaiting_relay = 1
rank (exited code) = 0

abbrev pub if_true : Bool → ℕ
if_true true = 1
if_true false = 0

-- The events that are left.
abbrev pub left : Phase → State → ℕ
left phase s =
    rank phase
    + if_true (not s.cancelled)
    + if_true s.serving
    + if_true s.consuming
    + if_true s.relaying

pub act-left :
    (phase : Phase) (e : Event) (s : State) (next : Phase) (t : State)
    → act e (phase, s) ≡ some (next, t)
    → left next t < left phase s
unfolding act
act-left selecting e s next t moved = ground arith
act-left shutting_down e s next t moved = ground arith
act-left receiving e s next t moved = ground arith
act-left closing_consumer e s next t moved = ground arith
act-left awaiting_consumer e s next t moved = ground arith
act-left awaiting_relay e s next t moved = ground arith
act-left (exited code) e s next t moved = ground arith

-- No failure: the server returns only because of `Shutdown`, the calls of `main` succeed, and its
-- `select` takes the signal.
abbrev pub is_clean : Event → Bool
is_clean (serve_returns server_closed) = true
is_clean (serve_returns r) = false
is_clean (main_goes b) = b
is_clean _ = true

abbrev pub IsClean : Phase → State → Type 0
IsClean (exited (suc code)) s = ⊥
IsClean _ s = (s.err_ch ≡ none) ⊎ (s.err_ch ≡ some server_closed)

pub act-IsClean :
    (phase : Phase) (e : Event) (s : State) (next : Phase) (t : State)
    → IsClean phase s
    → is_clean e ≡ true
    → act e (phase, s) ≡ some (next, t)
    → IsClean next t
unfolding act
act-IsClean selecting e s next t h clean moved = ground arith
act-IsClean shutting_down e s next t h clean moved = ground arith
act-IsClean receiving e s next t h clean moved = ground arith
act-IsClean closing_consumer e s next t h clean moved = ground arith
act-IsClean awaiting_consumer e s next t h clean moved = ground arith
act-IsClean awaiting_relay e s next t h clean moved = ground arith
act-IsClean (exited code) e s next t h clean moved = ground arith

abbrev pub is_over : Phase → Bool
is_over (exited code) = true
is_over _ = false

-- A clean event that can happen.
abbrev pub IsGoing : Phase → State → Type 0
IsGoing phase s = (e : Event) × (q : Process) × (is_clean e ≡ true) × (act e (phase, s) ≡ some q)

pub act-IsGoing :
    (phase : Phase) (s : State)
    → Holds phase s
    → s.cancelled ≡ true
    → is_over phase ≡ false
    → IsGoing phase s
unfolding act
act-IsGoing selecting s h c over =
    (main_goes true, (shutting_down, record s { shut = true }), refl, rw c refl)
act-IsGoing shutting_down s h c over = (main_goes true, _, refl, refl)
act-IsGoing receiving s (asked, shut, unreleased, inl (up, empty)) c over = (
  serve_returns server_closed,
  (receiving, record s { serving = false; err_ch = some server_closed }),
  refl,
  rw (up, shut) refl,
)
act-IsGoing receiving s (asked, shut, unreleased, inr (down, (e, there))) c over =
    (main_goes true, after_serving (record s { err_ch = none }) e, refl, rw there refl)
act-IsGoing closing_consumer s h c over = (main_goes true, _, refl, refl)
act-IsGoing awaiting_consumer s h c over = elim (Bool-cases s.consuming) [
  | inl runs ↦ (
    consumer_returns false,
    (awaiting_consumer, record s { consuming = false }),
    refl,
    rw (runs, c) refl,
  )
  | inr gone ↦ (main_goes true, (awaiting_relay, s), refl, rw gone refl)
]
act-IsGoing awaiting_relay s h c over = elim (Bool-cases s.relaying) [
  | inl runs ↦
      (relay_returns, (awaiting_relay, record s { relaying = false }), refl, rw (runs, c) refl)
  | inr gone ↦ (main_goes true, (exited 0, record s { released = deferred }), refl, rw gone refl)
]
act-IsGoing (exited code) s h c over = cc
