-- ===== src/Bridge/Services/Examples.antt =====
-- modules/drone_bridge/services.py: two services that report.
use nova_robotics_drone_cont.Common.{◌≡◌, List, [], ◌∷◌, refl, none, some, true}
use nova_robotics_drone_cont.Bridge.Services.Status.{Event, registers, fails, recovers, status}

abbrev reports : List Event
reports =
    registers 1 0
    ∷ registers 2 5
    ∷ fails 1 70 9
    ∷ fails 2 71 10
    ∷ registers 1 11
    ∷ recovers 1 12
    ∷ []

first_is_well : status 1 none reports ≡ some (true, 1)
unfolding status
first_is_well = refl
