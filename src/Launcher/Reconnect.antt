-- ===== src/Launcher/Reconnect.antt =====
-- launcher/src/neko_launcher/application/reconnect.py. The methods hold the lock from their first to
-- their last line, so each is one step. Delays are floats, which are a parameter; a `threading.Event`
-- is its number, and the events that were set are a list.
pub mod Runs
use neko_family_proxy.Prelude.{
  ℕ, zero, suc, ◌+◌, String, Bool, true, false, not, ◌&&◌, ◌||◌, Option, none, some, List, [], ◌∷◌,
  leb, ltb, is_some, length, all, Result, ok, err, value_error, Eq, ◌==◌, ◌!=◌, nat_eq, string_eq,
  option_eq, if◌then◌else◌, arith, ◌≡◌, ◌↔◌, eq_law,
}
use neko_family_proxy.Launcher.Domain.{AppState, AuthStatus, entitlement_is_active}

pub data ReconnectCompletion : Type 0 where
  succeeded retry exhausted blocked failed : ReconnectCompletion

abbrev is_authenticated : AuthStatus → Bool
is_authenticated AuthStatus.authenticated = true
is_authenticated _ = false

-- `_SECURITY_DENIALS`
abbrev pub security_denials : List String
security_denials =
    "AuthorizationRequired" ∷ "AuthorizationInvalid" ∷ "AuthorizationExpired"
    ∷ "AuthorizationReplay" ∷ "SessionInactive" ∷ "EntitlementInactive" ∷ "HeartbeatStale" ∷ []

member : String → List String → Bool
member c [] = false
member c (d ∷ rest) = c == d || member c rest

unfoldable pub is_denial : Option String → Bool
unfolding member
is_denial none = false
is_denial (some code) = member code security_denials

-- `_eligible`, at the time `now`
unfoldable pub eligible : ℕ → AppState → Bool → Bool
eligible now state shutting_down =
    not shutting_down
    && not state.shutting_down
    && not state.proxy_reconnect_suppressed
    && state.game_process_running
    && is_authenticated state.auth_status
    && is_some state.session_id
    && entitlement_is_active now state.entitlement

pub record ReconnectAttempt (Delay : Type 0) : Type 0 where
  pub generation : ℕ
  pub attempt : ℕ
  pub delay_seconds : Delay

pub record Controller (Delay : Type 0) : Type 0 where
  pub backoff : List Delay
  pub generation : ℕ
  pub attempts : ℕ
  pub armed : Bool
  pub blocked_now : Bool
  pub scheduled : Option (ReconnectAttempt Delay)
  pub in_flight : Option (ReconnectAttempt Delay)
  pub cancellation : Option ℕ
  pub events : ℕ
  pub events_set : List ℕ

module _ {Delay : Type 0} where
  -- `__init__`; the argument says whether a delay is a positive finite number
  unfoldable pub create : (Delay → Bool) → List Delay → Result (Controller Delay)
  create is_delay [] = err (value_error "reconnect backoff must contain positive finite delays")
  create is_delay (d ∷ ds) =
      if all is_delay (d ∷ ds)
      then ok (record {
        backoff = d ∷ ds;
        generation = 0;
        attempts = 0;
        armed = false;
        blocked_now = false;
        scheduled = none;
        in_flight = none;
        cancellation = none;
        events = 0;
        events_set = [];
      })
      else err (value_error "reconnect backoff must contain positive finite delays")

  unfoldable pub owns_recovery : Controller Delay → Bool
  owns_recovery c = is_some c.scheduled || is_some c.in_flight || ltb 0 c.attempts || c.blocked_now

  unfoldable pub observe_running : Controller Delay → Controller Delay
  observe_running c =
      if is_some c.scheduled || is_some c.in_flight
      then c
      else record c { armed = true; blocked_now = false; attempts = 0; cancellation = none }

  -- `backoff[i]`; the guard of `request` keeps the index in range
  unfoldable pub delay_at : List Delay → ℕ → Option Delay
  delay_at [] i = none
  delay_at (d ∷ ds) zero = some d
  delay_at (d ∷ ds) (suc i) = delay_at ds i

  -- The retry is counted before its delay is looked up. A lookup that finds none, which the guard of
  -- `request` excludes, would raise after the counting.
  abbrev pub schedule :
      Controller Delay → Option Delay → Controller Delay × Option (ReconnectAttempt Delay)
  schedule c none = (record c { attempts = c.attempts + 1; generation = c.generation + 1 }, none)
  schedule c (some delay) =
      let a : ReconnectAttempt Delay = record {
        generation = c.generation + 1;
        attempt = c.attempts + 1;
        delay_seconds = delay;
      } in
      (
        record c { attempts = c.attempts + 1; generation = c.generation + 1; scheduled = some a },
        some a,
      )

  unfoldable pub request :
      ℕ → AppState → Bool → Controller Delay → Controller Delay × Option (ReconnectAttempt Delay)
  request now state shutting_down c =
      if not c.armed
        || c.blocked_now
        || is_some c.scheduled
        || is_some c.in_flight
        || leb (length c.backoff) c.attempts
        || not (eligible now state shutting_down)
      then (c, none)
      else schedule c (delay_at c.backoff c.attempts)

  unfoldable pub cancel : Bool → Controller Delay → Controller Delay
  cancel reset_attempts c = record c {
    events_set = elim c.cancellation [ none ↦ c.events_set | some e ↦ e ∷ c.events_set ];
    generation = c.generation + 1;
    scheduled = none;
    in_flight = none;
    cancellation = none;
    armed = false;
    blocked_now = false;
    attempts = if reset_attempts then 0 else c.attempts;
  }

module _ {Delay : Type 0} ⦃e : Eq Delay⦄ where
  unfoldable pub attempt_beq : ReconnectAttempt Delay → ReconnectAttempt Delay → Bool
  attempt_beq a b =
      a.generation == b.generation && a.attempt == b.attempt && a.delay_seconds == b.delay_seconds

  pub attempt_beq_iff : (a b : ReconnectAttempt Delay) → (attempt_beq a b ≡ true) ↔ (a ≡ b)
  unfolding attempt_beq
  attempt_beq_iff a b = ground (
    arith,
    eq_law a.generation b.generation,
    eq_law a.attempt b.attempt,
    e.beq_iff a.delay_seconds b.delay_seconds,
  )

  instance abbrev pub attempt_eq : Eq (ReconnectAttempt Delay)
  attempt_eq = record { beq = attempt_beq; beq_iff = attempt_beq_iff }

  unfoldable pub begin :
      ℕ → ReconnectAttempt Delay → AppState → Bool → Controller Delay → Controller Delay × Option ℕ
  begin now a state shutting_down c =
      if c.scheduled != some a
      then (c, none)
      else if not (eligible now state shutting_down)
      then (record c { scheduled = none }, none)
      else (
        record c {
          scheduled = none;
          in_flight = some a;
          cancellation = some c.events;
          events = c.events + 1;
        },
        some c.events,
      )

  unfoldable pub complete :
      ReconnectAttempt Delay
      → Bool
      → Bool
      → Option String
      → Controller Delay
      → Controller Delay × ReconnectCompletion
  complete a success retry_safe failure_code c =
      let idle = record c { in_flight = none; cancellation = none } in
      if c.in_flight != some a
      then (c, blocked)
      else if success
      then (record idle { attempts = 0; blocked_now = false; armed = false }, succeeded)
      else if is_denial failure_code
      then (record idle { blocked_now = true; armed = false }, blocked)
      else if retry_safe && ltb c.attempts (length c.backoff)
      then (idle, retry)
      else (
        record idle { blocked_now = true; armed = false },
        if retry_safe && leb (length c.backoff) c.attempts then exhausted else failed,
      )
