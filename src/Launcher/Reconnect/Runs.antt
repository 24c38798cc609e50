-- ===== src/Launcher/Reconnect/Runs.antt =====
-- Runs of the reconnect controller: sequences of calls in any order, as the lock serializes them.
use neko_family_proxy.Prelude.{
  ℕ, ◌≤◌, ◌≡◌, ◌≢◌, String, Bool, false, ◌&&◌, Option, none, some, List, [], ◌∷◌, ok, arith, length,
  is_some, Eq, ◌==◌, option_eq, Bool-cases, inl, inr, eq_law,
}
use neko_family_proxy.Launcher.Domain.{AppState}
use neko_family_proxy.Launcher.Reconnect.{
  ReconnectAttempt, Controller, create, blocked, attempt_eq, attempt_beq, observe_running, request,
  begin, complete, cancel,
}

-- A call of a method, with its arguments and the time at which it reads the clock.
pub data Call (Delay : Type 0) : Type 0 where
  observe : Call Delay
  ask : ℕ → AppState → Bool → Call Delay
  start : ℕ → ReconnectAttempt Delay → AppState → Bool → Call Delay
  end : ReconnectAttempt Delay → Bool → Bool → Option String → Call Delay
  revoke : Bool → Call Delay

module _ {Delay : Type 0} where
  abbrev pub Issued : ℕ → Option (ReconnectAttempt Delay) → Type 0
  Issued g none = Unit
  Issued g (some a) = a.generation ≤ g

  -- At most one attempt is pending, with a cancellation event exactly while it is in flight; no
  -- attempt is newer than the counter; and the retries used are within the backoff table.
  pub record IsValid (c : Controller Delay) : Type 0 where
    pub within : c.attempts ≤ length c.backoff
    pub exclusive : (is_some c.scheduled && is_some c.in_flight) ≡ false
    pub cancellable : is_some c.in_flight ≡ is_some c.cancellation
    pub scheduled : Issued c.generation c.scheduled
    pub in_flight : Issued c.generation c.in_flight

module _ {Delay : Type 0} ⦃e : Eq Delay⦄ where
  unfoldable pub run : Call Delay → Controller Delay → Controller Delay
  run observe c = observe_running c
  run (ask now state down) c = (request now state down c).0
  run (start now a state down) c = (begin now a state down c).0
  run (end a success safe code) c = (complete a success safe code c).0
  run (revoke reset) c = cancel reset c

  -- The controllers that a sequence of calls leads to.
  pub data Run (c : Controller Delay) : Controller Delay → Type 0 where
    done : Run c c
    next : {d : Controller Delay} → Run c d → (k : Call Delay) → Run c (run k d)

  observe_running-IsValid : (c : Controller Delay) → IsValid c → IsValid (observe_running c)
  unfolding observe_running
  observe_running-IsValid c v = record {
    within = ground (arith, v.within);
    exclusive = ground (arith, v.exclusive);
    cancellable = ground (arith, v.cancellable);
    scheduled = ground (arith, v.scheduled);
    in_flight = ground (arith, v.in_flight);
  }

  cancel-IsValid : (c : Controller Delay) (r : Bool) → IsValid c → IsValid (cancel r c)
  unfolding cancel
  cancel-IsValid c r v = record {
    within = ground (arith, v.within);
    exclusive = ground (arith, v.exclusive);
    cancellable = ground (arith, v.cancellable);
    scheduled = ground (arith, v.scheduled);
    in_flight = ground (arith, v.in_flight);
  }

  begin-IsValid :
      (now : ℕ) (a : ReconnectAttempt Delay) (state : AppState) (down : Bool) (c : Controller Delay)
      → IsValid c
      → IsValid ((begin now a state down c).0)
  unfolding begin
  begin-IsValid now a state down c v = elim (Bool-cases (c.scheduled == some a)) [
    | inl y ↦ record {
      within = ground (arith, v.within);
      exclusive = ground (arith, v.exclusive);
      cancellable = ground (arith, v.cancellable);
      scheduled = ground (arith, v.scheduled);
      in_flight = ground (arith, v.in_flight, v.scheduled, (eq_law c.scheduled (some a)).0 y);
    }
    | inr n ↦ record {
      within = ground (arith, v.within);
      exclusive = ground (arith, v.exclusive);
      cancellable = ground (arith, v.cancellable);
      scheduled = ground (arith, v.scheduled);
      in_flight = ground (arith, v.in_flight);
    }
  ]

  complete-IsValid :
      (a : ReconnectAttempt Delay) (x y : Bool) (m : Option String) (c : Controller Delay)
      → IsValid c
      → IsValid ((complete a x y m c).0)
  unfolding complete
  complete-IsValid a x y m c v = record {
    within = ground (arith, v.within);
    exclusive = ground (arith, v.exclusive);
    cancellable = ground (arith, v.cancellable);
    scheduled = ground (arith, v.scheduled);
    in_flight = ground (arith, v.in_flight);
  }

  request-IsValid :
      (now : ℕ) (state : AppState) (down : Bool) (c : Controller Delay)
      → IsValid c
      → IsValid ((request now state down c).0)
  unfolding request
  request-IsValid now state down c v = record {
    within = ground (arith, v.within);
    exclusive = ground (arith, v.exclusive);
    cancellable = ground (arith, v.cancellable);
    scheduled = ground (arith, v.scheduled);
    in_flight = ground (arith, v.in_flight);
  }

  run-IsValid : (k : Call Delay) (c : Controller Delay) → IsValid c → IsValid (run k c)
  unfolding run
  run-IsValid observe c v = observe_running-IsValid c v
  run-IsValid (ask now state down) c v = request-IsValid now state down c v
  run-IsValid (start now a state down) c v = begin-IsValid now a state down c v
  run-IsValid (end a x y m) c v = complete-IsValid a x y m c v
  run-IsValid (revoke r) c v = cancel-IsValid c r v

  Run-keeps : {c d : Controller Delay} → Run c d → IsValid c → IsValid d
  Run-keeps done v = v
  Run-keeps (next {d} r k) v = run-IsValid k d (Run-keeps r v)

  create-IsValid :
      (is_delay : Delay → Bool) (delays : List Delay) (c : Controller Delay)
      → create is_delay delays ≡ ok c
      → IsValid c
  unfolding create
  create-IsValid is_delay [] c h = ground arith
  create-IsValid is_delay (d ∷ ds) c h = record {
    within = ground (arith, h);
    exclusive = ground (arith, h);
    cancellable = ground (arith, h);
    scheduled = ground (arith, h);
    in_flight = ground (arith, h);
  }

  -- Every sequence of calls on a new controller, in any order and with any arguments, leads to a
  -- valid one: never more retries than backoff delays, never an attempt both scheduled and in
  -- flight, a cancellation event exactly while one is in flight, and no attempt newer than the
  -- counter.
  pub Run-IsValid :
      (is_delay : Delay → Bool) (delays : List Delay) (c d : Controller Delay)
      → create is_delay delays ≡ ok c
      → Run c d
      → IsValid d
  Run-IsValid is_delay delays c d h r = Run-keeps r (create-IsValid is_delay delays c h)

  -- An attempt of an earlier generation that is neither scheduled nor in flight.
  pub record IsStale (a : ReconnectAttempt Delay) (c : Controller Delay) : Type 0 where
    pub old : a.generation ≤ c.generation
    pub unscheduled : c.scheduled ≢ some a
    pub idle : c.in_flight ≢ some a

  module _ (a : ReconnectAttempt Delay) where
    run-IsStale : (k : Call Delay) (c : Controller Delay) → IsStale a c → IsStale a (run k c)
    unfolding run observe_running cancel request begin complete attempt_beq
    run-IsStale observe c v = record {
      old = ground (arith, v.old);
      unscheduled = λ q. ground (arith, v.unscheduled, q);
      idle = λ q. ground (arith, v.idle, q);
    }
    run-IsStale (ask now state down) c v = record {
      old = ground (arith, v.old);
      unscheduled = λ q. ground (arith, v.old, v.unscheduled, q);
      idle = λ q. ground (arith, v.idle, q);
    }
    run-IsStale (start now b state down) c v = record {
      old = ground (arith, v.old);
      unscheduled = λ q. ground (arith, v.unscheduled, q);
      idle = λ q. ground (arith, v.unscheduled, v.idle, q, eq_law c.scheduled (some b));
    }
    run-IsStale (end b x y m) c v = record {
      old = ground (arith, v.old);
      unscheduled = λ q. ground (arith, v.unscheduled, q);
      idle = λ q. ground (arith, v.idle, q);
    }
    run-IsStale (revoke r) c v = record {
      old = ground (arith, v.old);
      unscheduled = λ q. ground (arith, v.unscheduled, q);
      idle = λ q. ground (arith, v.idle, q);
    }

    Run-IsStale : {c d : Controller Delay} → Run c d → IsStale a c → IsStale a d
    Run-IsStale done v = v
    Run-IsStale (next {d} r k) v = run-IsStale k d (Run-IsStale r v)

    cancel-IsStale :
        (r : Bool) (c : Controller Delay) → a.generation ≤ c.generation → IsStale a (cancel r c)
    unfolding cancel
    cancel-IsStale r c le = record {
      old = ground arith;
      unscheduled = λ q. ground arith;
      idle = λ q. ground arith;
    }

    stale_is_refused :
        (c : Controller Delay)
        → IsStale a c
        → ((now : ℕ) (state : AppState) (down : Bool) → begin now a state down c ≡ (c, none))
          × ((success safe : Bool) (code : Option String)
              → complete a success safe code c ≡ (c, blocked))
    unfolding begin complete
    stale_is_refused c v = (
      (λ now state down. ground (arith, v.unscheduled, eq_law c.scheduled (some a))),
      (λ success safe code. ground (arith, v.idle, eq_law c.in_flight (some a))),
    )

    -- After a cancellation no sequence of calls brings an attempt that was issued before back: it
    -- can neither begin nor complete, and the try changes nothing.
    pub cancelled_is_refused :
        (reset : Bool) (c d : Controller Delay)
        → a.generation ≤ c.generation
        → Run (cancel reset c) d
        → ((now : ℕ) (state : AppState) (down : Bool) → begin now a state down d ≡ (d, none))
          × ((success safe : Bool) (code : Option String)
              → complete a success safe code d ≡ (d, blocked))
    cancelled_is_refused reset c d le r =
        stale_is_refused d (Run-IsStale r (cancel-IsStale reset c le))
