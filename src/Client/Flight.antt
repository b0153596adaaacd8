-- ===== src/Client/Flight.antt =====
-- The shared `refreshPromise` of frontend/lib/api/client.ts: several calls that meet a 401 at a time
-- wait for one refresh. An interleaving is the list of what happens on the event loop.
pub mod Single
use mentorio.Prelude.{
  ℕ, suc, ◌+◌, Bool, true, false, Option, none, some, List, [], ◌∷◌, ◌++◌, if◌then◌else◌, ◌==◌,
}

-- `flight` is the number of the refresh in flight, `refreshPromise` being null if there is none;
-- `started` counts the refreshes sent and `finished` those answered. A call in `waiting` stands with
-- the refresh that it awaits, and one in `resumed` with the value that it got.
pub record Shared : Type 0 where
  pub flight : Option ℕ
  pub started : ℕ
  pub finished : ℕ
  pub waiting : List (ℕ × ℕ)
  pub resumed : List (ℕ × Bool)

pub data Event : Type 0 where
  unauthorized : ℕ → Event  -- a call meets a 401 and awaits `refreshAccessToken()`
  answered : Bool → Event  -- the refresh in flight settles

-- `refreshAccessToken`: a new promise only if there is none.
unfoldable pub join : ℕ → Shared → Shared
join call s = elim s.flight [
  | none ↦ record s {
    flight = some s.started;
    started = suc s.started;
    waiting = (call, s.started) ∷ s.waiting;
  }
  | some f ↦ record s { waiting = (call, f) ∷ s.waiting }
]

unfoldable pub woken : ℕ → Bool → List (ℕ × ℕ) → List (ℕ × Bool) → List (ℕ × Bool)
woken f value [] resumed = resumed
woken f value ((call, g) ∷ ws) resumed =
    let rest = woken f value ws resumed in if g == f then (call, value) ∷ rest else rest

unfoldable pub still_waiting : ℕ → List (ℕ × ℕ) → List (ℕ × ℕ)
still_waiting f [] = []
still_waiting f ((call, g) ∷ ws) =
    let rest = still_waiting f ws in if g == f then rest else (call, g) ∷ rest

-- `.finally` sets `refreshPromise` back to null, then those who await it go on with its value.
unfoldable pub settle_refresh : Bool → Shared → Shared
unfolding woken still_waiting
settle_refresh value s = elim s.flight [
  | none ↦ s
  | some f ↦ record s {
    flight = none;
    finished = suc s.finished;
    waiting = still_waiting f s.waiting;
    resumed = woken f value s.waiting s.resumed;
  }
]

unfoldable pub react : Event → Shared → Shared
unfolding join settle_refresh
react (unauthorized call) s = join call s
react (answered value) s = settle_refresh value s

unfoldable pub run : List Event → Shared → Shared
unfolding react
run [] s = s
run (e ∷ es) s = run es (react e s)

-- When the module is loaded.
abbrev pub fresh : Shared
fresh = record { flight = none; started = 0; finished = 0; waiting = []; resumed = [] }
