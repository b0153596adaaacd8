-- ===== src/Client/Flight/Single.antt =====
-- One refresh at a time, and one value for all who wait (frontend/lib/api/client.ts).
use mathlib.Core.Path.{subst}
use mentorio.Prelude.{
  ℕ, suc, ◌+◌, ◌≡◌, refl, sym, ap, ◌∙◌, Bool, Option, none, some, List, [], ◌∷◌, ◌++◌, map, arith,
  All, ==_iff,
}
use mentorio.Client.Flight.{
  Shared, Event, unauthorized, answered, join, woken, still_waiting, settle_refresh, react, run,
  fresh,
}

abbrev pub reverse_onto {ℓ} : {A : Type ℓ} → List A → List A → List A
reverse_onto [] ys = ys
reverse_onto (x ∷ xs) ys = reverse_onto xs (x ∷ ys)

abbrev pub in_flight : Option ℕ → ℕ
in_flight none = 0
in_flight (some f) = 1

-- Whoever waits, waits for the refresh in flight; with none in flight nobody waits.
abbrev pub Waits : Option ℕ → ℕ → List (ℕ × ℕ) → Type 0
Waits none started waiting = waiting ≡ []
Waits (some f) started waiting = All (λ w. w.1 ≡ f) waiting

pub record Inv (s : Shared) : Type 0 where
  pub counted : s.started ≡ s.finished + in_flight s.flight
  pub waits : Waits s.flight s.started s.waiting

still_waiting-eq-nil : (f : ℕ) (ws : List (ℕ × ℕ)) → All (λ w. w.1 ≡ f) ws → still_waiting f ws ≡ []
unfolding still_waiting
still_waiting-eq-nil f [] h = refl
still_waiting-eq-nil f ((call, g) ∷ ws) (e, h) = ground (arith, still_waiting-eq-nil f ws h)

abbrev state : Option ℕ → ℕ → ℕ → List (ℕ × ℕ) → List (ℕ × Bool) → Shared
state flight started finished waiting resumed = record {
  flight = flight;
  started = started;
  finished = finished;
  waiting = waiting;
  resumed = resumed;
}

module _ (started finished : ℕ) (waiting : List (ℕ × ℕ)) (resumed : List (ℕ × Bool)) where
  join-keeps :
      (call : ℕ) (flight : Option ℕ)
      → Inv (state flight started finished waiting resumed)
      → Inv (join call (state flight started finished waiting resumed))
  unfolding join
  join-keeps call none inv = record {
    counted = omega (arith, inv.counted);
    waits = (refl, rw inv.waits tt);
  }
  join-keeps call (some f) inv = record { counted = inv.counted; waits = (refl, inv.waits) }

  settle_refresh-keeps :
      (value : Bool) (flight : Option ℕ)
      → Inv (state flight started finished waiting resumed)
      → Inv (settle_refresh value (state flight started finished waiting resumed))
  unfolding settle_refresh
  settle_refresh-keeps value none inv = inv
  settle_refresh-keeps value (some f) inv = record {
    counted = omega (arith, inv.counted);
    waits = still_waiting-eq-nil f waiting inv.waits;
  }

react-Inv : (e : Event) (s : Shared) → Inv s → Inv (react e s)
unfolding react
react-Inv (unauthorized call) s inv =
    join-keeps s.started s.finished s.waiting s.resumed call s.flight inv
react-Inv (answered value) s inv =
    settle_refresh-keeps s.started s.finished s.waiting s.resumed value s.flight inv

run-Inv : (es : List Event) (s : Shared) → Inv s → Inv (run es s)
unfolding run
run-Inv [] s inv = inv
run-Inv (e ∷ es) s inv = run-Inv es (react e s) (react-Inv e s inv)

-- In every interleaving there is at most one refresh without an answer: one if `refreshPromise` is
-- set and none if it is null; and whoever waits, waits for that one.
pub run-fresh-Inv : (es : List Event) → Inv (run es fresh)
run-fresh-Inv es = run-Inv es fresh (record { counted = refl; waits = refl })

-- The calls `calls`, each with the value that it resumes with.
abbrev pub all_with : Bool → List ℕ → List (ℕ × Bool)
all_with value calls = map (λ call. (call, value)) calls

join_all :
    (calls : List ℕ) (f : ℕ) (started finished : ℕ) (waiting : List (ℕ × ℕ))
    (resumed : List (ℕ × Bool)) (es : List Event)
    → run (map unauthorized calls ++ es) (state (some f) started finished waiting resumed)
      ≡ run es
          (state (some f) started finished (reverse_onto (map (λ c. (c, f)) calls) waiting) resumed)
unfolding run react join
join_all [] f started finished waiting resumed es = refl
join_all (call ∷ calls) f started finished waiting resumed es =
    join_all calls f started finished ((call, f) ∷ waiting) resumed es

woken_self :
    (f : ℕ) (value : Bool) (c : ℕ) (ws : List (ℕ × ℕ)) (resumed : List (ℕ × Bool))
    → woken f value ((c, f) ∷ ws) resumed ≡ (c, value) ∷ woken f value ws resumed
unfolding woken
woken_self f value c ws resumed = rw ((==_iff f f).1 refl)

woken-all :
    (f : ℕ) (value : Bool) (calls : List ℕ) (ws : List (ℕ × ℕ)) (resumed : List (ℕ × Bool))
    → woken f value (reverse_onto (map (λ c. (c, f)) calls) ws) resumed
      ≡ reverse_onto (all_with value calls) (woken f value ws resumed)
unfolding woken
woken-all f value [] ws resumed = refl
woken-all f value (c ∷ calls) ws resumed =
    woken-all f value calls ((c, f) ∷ ws) resumed
    ∙ ap (reverse_onto (all_with value calls)) (woken_self f value c ws resumed)

reverse_onto-waits :
    (f : ℕ) (calls : List ℕ) (ws : List (ℕ × ℕ))
    → All (λ w. w.1 ≡ f) ws
    → All (λ w. w.1 ≡ f) (reverse_onto (map (λ c. (c, f)) calls) ws)
reverse_onto-waits f [] ws h = h
reverse_onto-waits f (c ∷ calls) ws h = reverse_onto-waits f calls ((c, f) ∷ ws) (refl, h)

answer-all :
    (f started finished : ℕ) (call : ℕ) (calls : List ℕ) (value : Bool) (resumed : List (ℕ × Bool))
    → run (answered value ∷ []) (
        state
          (some f)
          started
          finished
          (reverse_onto (map (λ c. (c, f)) calls) ((call, f) ∷ []))
          resumed)
      ≡ state none started
          (suc finished)
          []
          (reverse_onto (all_with value calls) ((call, value) ∷ resumed))
unfolding run react settle_refresh
answer-all f started finished call calls value resumed = rw (
  still_waiting-eq-nil f _ (reverse_onto-waits f calls ((call, f) ∷ []) (refl, tt)),
  woken-all f value calls ((call, f) ∷ []) resumed,
  woken_self f value call [] resumed,
)

burst :
    (started finished : ℕ) (resumed : List (ℕ × Bool)) (call : ℕ) (calls : List ℕ) (value : Bool)
    → run
        (map unauthorized (call ∷ calls) ++ answered value ∷ [])
        (state none started finished [] resumed)
      ≡ state none
          (suc started)
          (suc finished)
          []
          (reverse_onto (all_with value (call ∷ calls)) resumed)
unfolding run react join
burst started finished resumed call calls value =
    join_all calls started (suc started) finished ((call, started) ∷ []) resumed
      (answered value ∷ [])
    ∙ answer-all started (suc started) finished call calls value resumed

-- However many calls meet a 401 before the refresh is answered, one refresh is sent, and all of them
-- go on with its value, the last one first in the list.
pub run-burst :
    (s : Shared) (call : ℕ) (calls : List ℕ) (value : Bool)
    → s.flight ≡ none
    → s.waiting ≡ []
    → run (map unauthorized (call ∷ calls) ++ answered value ∷ []) s ≡ record s {
      started = suc s.started;
      finished = suc s.finished;
      resumed = reverse_onto (all_with value (call ∷ calls)) s.resumed;
    }
run-burst s call calls value idle nobody =
    subst
      (λ (r : Shared). run (map unauthorized (call ∷ calls) ++ answered value ∷ []) r ≡ record r {
        started = suc s.started;
        finished = suc s.finished;
        resumed = reverse_onto (all_with value (call ∷ calls)) s.resumed;
      })
      (λ i. state (sym idle i) s.started s.finished (sym nobody i) s.resumed)
      (burst s.started s.finished s.resumed call calls value)
