-- ===== src/Bridge/Services/Status.antt =====
-- modules/drone_bridge/services.py: the registry against the reports that were made.
use nova_robotics_drone_cont.Common.{
  ℕ, ◌+◌, ◌≡◌, Bool, true, false, Option, none, some, List, [], ◌∷◌, ◌==◌, if◌then◌else◌,
}
use nova_robotics_drone_cont.Bridge.Services.{
  ServiceHealth, ServiceRegistry, report_error, report_recovery, register, write,
}

pub data Event : Type 0 where
  registers : ℕ → ℕ → Event
  fails : ℕ → ℕ → ℕ → Event
  recovers : ℕ → ℕ → Event

-- The registry after an event.
unfoldable pub apply : ServiceRegistry → Event → ServiceRegistry
apply s (registers name now) = register s name now
apply s (fails name msg now) = write s name (report_error msg now)
apply s (recovers name now) = write s name (report_recovery now)

unfoldable pub apply_all : ServiceRegistry → List Event → ServiceRegistry
apply_all s [] = s
apply_all s (e ∷ events) = apply_all (apply s e) events

-- What a client sees of a service: whether it is healthy and how many errors it reported.
abbrev pub Status : Type 0
Status = Option (Bool × ℕ)

abbrev pub seen : Option ServiceHealth → Status
seen none = none
seen (some h) = some (h.healthy, h.error_count)

abbrev pub started : Status → Status
started none = some (true, 0)
started (some x) = some x

abbrev pub failed : Status → Status
failed none = none
failed (some (b, n)) = some (false, n + 1)

abbrev pub recovered : Status → Status
recovered none = none
recovered (some (b, n)) = some (true, n)

-- The status of one service after an event: only its own events count.
abbrev pub next : ℕ → Status → Event → Status
next name s (registers n now) = if n == name then started s else s
next name s (fails n msg now) = if n == name then failed s else s
next name s (recovers n now) = if n == name then recovered s else s

unfoldable pub status : ℕ → Status → List Event → Status
status name s [] = s
status name s (e ∷ events) = status name (next name s e) events

-- A change of a record that keeps its name, and what it does to the status.
record Change (change : ServiceHealth → ServiceHealth) (effect : Status → Status) : Type 0 where
  same_name : (h : ServiceHealth) → (change h).name ≡ h.name
  effect_some : (h : ServiceHealth) → seen (some (change h)) ≡ effect (seen (some h))
  effect_none : effect none ≡ none
