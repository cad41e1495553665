-- ===== src/Bridge/Services.antt =====
-- modules/drone_bridge/services.py: the health records of the services and their registry.
-- A name is a number, one for each string, and so is the text of an error. A reference to a record is
-- its name: the registry holds one record for each. The free-form `extra` is left out.
pub mod Status
mod Examples
use nova_robotics_drone_cont.Common.{
  ℕ, ◌+◌, Bool, true, false, ◌&&◌, Option, none, some, List, [], ◌∷◌, ◌++◌, ◌==◌, if◌then◌else◌,
  length,
}

pub record ServiceHealth : Type 0 where
  pub name : ℕ
  pub started_at_mono : ℕ
  pub healthy : Bool
  pub last_error : Option ℕ
  pub last_error_at_mono : Option ℕ
  pub last_recovery_at_mono : Option ℕ
  pub error_count : ℕ

unfoldable pub report_error : ℕ → ℕ → ServiceHealth → ServiceHealth
report_error msg now h = record h {
  healthy = false;
  last_error = some msg;
  last_error_at_mono = some now;
  error_count = h.error_count + 1;
}

unfoldable pub report_recovery : ℕ → ServiceHealth → ServiceHealth
report_recovery now h =
    if h.healthy then h else record h { healthy = true; last_recovery_at_mono = some now }

-- `ServiceRegistry`: the records in the order of their registration.
abbrev pub ServiceRegistry : Type 0
ServiceRegistry = List ServiceHealth

unfoldable pub get : ServiceRegistry → ℕ → Option ServiceHealth
get [] name = none
get (h ∷ services) name = let rest = get services name in if h.name == name then some h else rest

abbrev pub new_service : ℕ → ℕ → ServiceHealth
new_service name now = record {
  name = name;
  started_at_mono = now;
  healthy = true;
  last_error = none;
  last_error_at_mono = none;
  last_recovery_at_mono = none;
  error_count = 0;
}

abbrev pub register_new : Option ServiceHealth → ServiceRegistry → ℕ → ℕ → ServiceRegistry
register_new (some existing) services name now = services
register_new none services name now = services ++ (new_service name now ∷ [])

unfoldable pub register : ServiceRegistry → ℕ → ℕ → ServiceRegistry
unfolding get
register services name now = register_new (get services name) services name now

-- A write through the reference that `register` gave.
unfoldable pub write : ServiceRegistry → ℕ → (ServiceHealth → ServiceHealth) → ServiceRegistry
write [] name change = []
write (h ∷ services) name change =
    let rest = write services name change in
    if h.name == name then change h ∷ services else h ∷ rest

unfoldable pub healthy : ServiceRegistry → Bool
healthy [] = true
healthy (h ∷ services) = h.healthy && healthy services

-- `aggregate_dict`, less the records themselves: whether all is well, and how many services there are.
unfoldable pub aggregate : ServiceRegistry → Bool × ℕ
unfolding healthy
aggregate services = (healthy services, length services)
