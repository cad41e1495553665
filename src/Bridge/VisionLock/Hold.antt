-- ===== src/Bridge/VisionLock/Hold.antt =====
-- modules/drone_bridge/vision_lock.py: `ButtonStabilityGate` over a run of frames.
use nova_robotics_drone_cont.Common.{
  ℕ, zero, suc, ◌≤◌, ◌≡◌, ◌≢◌, refl, Option, none, some, List, [], replicate, ◌∷◌, arith, leb,
  if◌then◌else◌,
}
use nova_robotics_drone_cont.Bridge.VisionLock.Gate.{ButtonStabilityGate, reset, consume}

collect : Option ℕ → List ℕ → List ℕ
collect none rest = rest
collect (some code) rest = code ∷ rest

-- The codes that the gate lets through over a list of frames, in order.
unfoldable pub dispatched_codes : ButtonStabilityGate → List ℕ → List ℕ
unfolding collect
dispatched_codes g [] = []
dispatched_codes g (code ∷ codes) =
    collect (consume g code).1 (dispatched_codes (consume g code).0 codes)

-- The gate has counted `n` frames of `code`, and has let it through from the third on.
abbrev pub counted : ℕ → ℕ → ButtonStabilityGate
counted code n = record {
  candidate_code = code;
  candidate_count = n;
  last_dispatched_code = if leb 3 n then code else 0;
}

held_on :
    (code n k : ℕ) → code ≢ 0 → 3 ≤ k → dispatched_codes (counted code k) (replicate n code) ≡ []
unfolding dispatched_codes consume
held_on code zero k h l = refl
held_on code (suc n) k h l = ground (arith, held_on code n (suc k) h (omega arith))

-- A button held for `n` frames, from a released one, is let through once if `n` is at least 3 and not
-- at all otherwise.
held_button_fires_once :
    (g : ButtonStabilityGate) (code n : ℕ)
    → code ≢ 0
    → dispatched_codes g (0 ∷ replicate n code) ≡ (if leb 3 n then code ∷ [] else [])
unfolding dispatched_codes consume reset
held_button_fires_once g code zero h = refl
held_button_fires_once g code (suc zero) h = ground arith
held_button_fires_once g code (suc (suc zero)) h = ground arith
held_button_fires_once g code (suc (suc (suc n))) h =
    ground (arith, held_on code n 3 h (omega arith))
