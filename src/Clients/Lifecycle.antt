-- ===== src/Clients/Lifecycle.antt =====
-- plugshub_common/clients.py: opening and closing the session of a `ServiceClient`. `X` stands for the
-- sessions of aiohttp; `open_session` makes one, and `close` is its `close`, where it has one.
use plugshub_common.Common.{
  ℕ, ◌+◌, ◌≡◌, inl, inr, Bool, not, Option, none, some, List, [], ◌∷◌, arith, if◌then◌else◌,
  Bool-cases, Option-cases,
}
use plugshub_common.Text.{codes}
use plugshub_common.Errors.{Exc, runtime_error}
use plugshub_common.Exec.{Result, ok, raised, Exec, Result-cases}

abbrev pub no_aiohttp : Exc
no_aiohttp =
    runtime_error
      (codes "aiohttp is required for plugshub_common.clients; install plugshub-common[http]")

module _ {X S : Type 0} (installed : Bool) (open_session : Exec S X)
    (close : X → Option (Exec S (Unit {0}))) where
  abbrev pub opened : Result X × S → Result (Unit {0}) × (Option X × S)
  opened (ok x, s) = (ok tt, (some x, s))
  opened (raised e, s) = (raised e, (none, s))

  abbrev pub closed : X → Result (Unit {0}) × S → Result (Unit {0}) × (Option X × S)
  closed x (ok a, s) = (ok tt, (none, s))
  closed x (raised e, s) = (raised e, (some x, s))

  -- The state is `self._session` and the world.
  unfoldable pub start : Exec (Option X × S) (Unit {0})
  start (some x, s) = (ok tt, (some x, s))
  start (none, s) =
      if not installed then (raised no_aiohttp, (none, s)) else opened (open_session s)

  unfoldable pub stop : Exec (Option X × S) (Unit {0})
  stop (none, s) = (ok tt, (none, s))
  stop (some x, s) = elim (close x) [ none ↦ (ok tt, (some x, s)) | some c ↦ closed x (c s) ]

  pub data Command : Type 0 where
    starting stopping : Command

  unfoldable pub step : Command → Option X × S → Option X × S
  unfolding start stop
  step starting s = (start s).1
  step stopping s = (stop s).1

  unfoldable pub run : List Command → Option X × S → Option X × S
  unfolding step
  run [] s = s
  run (c ∷ cs) s = run cs (step c s)

  -- How many sessions of the client are open.
  abbrev pub in_use : Option X → ℕ
  in_use none = 0
  in_use (some x) = 1

  -- What the world has to keep: `count` is the number of open sessions, an opening that succeeds adds
  -- one, and a close that succeeds takes one away.
  pub record Counts (count : S → ℕ) : Type 0 where
    pub opens : (s : S) (x : X) → (open_session s).0 ≡ ok x → count (open_session s).1 ≡ count s + 1
    pub fails :
        (s : S) (e : Exc) → (open_session s).0 ≡ raised e → count (open_session s).1 ≡ count s
    pub closes :
        (x : X) (c : Exec S (Unit {0})) (s : S)
        → close x ≡ some c
        → (c s).0 ≡ ok tt
        → count (c s).1 + 1 ≡ count s
    pub keeps :
        (x : X) (c : Exec S (Unit {0})) (s : S) (e : Exc)
        → close x ≡ some c
        → (c s).0 ≡ raised e
        → count (c s).1 ≡ count s

  -- The client has one session open while it holds one, and none while it holds none.
  abbrev pub IsBalanced : (S → ℕ) → Option X × S → Type 0
  IsBalanced count s = count s.1 ≡ in_use s.0

  start-IsBalanced :
      (count : S → ℕ)
      → Counts count
      → (s : Option X × S) → IsBalanced count s
      → IsBalanced count (start s).1
  unfolding start
  start-IsBalanced count laws (some x, s) h = h
  start-IsBalanced count laws (none, s) h = elim (Bool-cases installed) [
    | inl present ↦ elim (Result-cases ((open_session s).0)) [
      | inl (x, e) ↦ rw (present, e) (omega (arith, laws.opens s x e, h))
      | inr (x, e) ↦ rw (present, e) (omega (arith, laws.fails s x e, h))
    ]
    | inr missing ↦ rw missing h
  ]

  stop-IsBalanced :
      (count : S → ℕ)
      → Counts count
      → (s : Option X × S) → IsBalanced count s
      → IsBalanced count (stop s).1
  unfolding stop
  stop-IsBalanced count laws (none, s) h = h
  stop-IsBalanced count laws (some x, s) h = elim (Option-cases (close x)) [
    | inl none_there ↦ rw (stop, none_there) h
    | inr (c, there) ↦ elim (Result-cases ((c s).0)) [
      | inl (done, e) ↦ rw (stop, there, e) (omega (arith, laws.closes x c s there e, h))
      | inr (x', e) ↦ rw (stop, there, e) (omega (arith, laws.keeps x c s x' there e, h))
    ]
  ]

  step-IsBalanced :
      (count : S → ℕ)
      → Counts count
      → (c : Command) (s : Option X × S) → IsBalanced count s
      → IsBalanced count (step c s)
  unfolding step
  step-IsBalanced count laws starting = start-IsBalanced count laws
  step-IsBalanced count laws stopping = stop-IsBalanced count laws

  -- Started and stopped in any order, however often and whatever fails, a client has one session open
  -- while it holds one and none while it holds none, if that is so at first; so no session is leaked.
  pub run-IsBalanced :
      (count : S → ℕ)
      → Counts count
      → (cs : List Command) (s : Option X × S) → IsBalanced count s
      → IsBalanced count (run cs s)
  unfolding run
  run-IsBalanced count laws [] s h = h
  run-IsBalanced count laws (c ∷ cs) s h =
      run-IsBalanced count laws cs (step c s) (step-IsBalanced count laws c s h)
