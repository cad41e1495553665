-- ===== src/Elrs/Service/Rate.antt =====
-- modules/elrs_telemetry/service.py: how many frames the token bucket lets through.
use nova_robotics_drone_cont.Common.{
  ℕ, zero, suc, ◌+◌, ◌-◌, ◌*◌, ◌≤◌, ◌≡◌, ap, subst, Bool, true, false, List, [], ◌∷◌, arith,
  if◌then◌else◌,
}
use nova_robotics_drone_cont.Elrs.Service.Transmit.{TokenBucket, new_bucket, take_token}

-- The bucket after one attempt at each of the times, and the number that succeeded.
unfoldable pub attempts : TokenBucket → List ℕ → TokenBucket × ℕ
attempts bucket [] = (bucket, 0)
attempts bucket (now ∷ times) =
    let t = take_token bucket now in
    let rest = attempts t.0 times in (rest.0, if t.1 then rest.1 + 1 else rest.1)

-- The times do not fall from `from` on.
abbrev pub Rising : ℕ → List ℕ → Type 0
Rising from [] = Unit {0}
Rising from (now ∷ times) = (from ≤ now) × Rising now times

abbrev pub last_of : ℕ → List ℕ → ℕ
last_of from [] = from
last_of from (now ∷ times) = last_of now times

distribute : (r x y : ℕ) → (x + y) * r ≡ x * r + y * r
distribute zero x y = omega arith
distribute (suc r) x y = omega (arith, distribute r x y)

module _ (b : TokenBucket) (now : ℕ) where
  abbrev taken : ℕ
  taken = if (take_token b now).1 then 1 else 0

  -- What is left and what was taken came from what was there and the refill.
  take_accounts :
      ((take_token b now).0.tokens + taken * 1_000_000 ≤ b.tokens + (now - b.last) * b.rate)
      × ((take_token b now).0.rate ≡ b.rate)
      × ((take_token b now).0.last ≡ now)
      × ((take_token b now).0.capacity ≡ b.capacity)
  unfolding take_token
  take_accounts = ground arith

Rising-bound : (from : ℕ) (times : List ℕ) → Rising from times → from ≤ last_of from times
Rising-bound from [] h = omega arith
Rising-bound from (now ∷ times) h = omega (arith, h.0, Rising-bound now times h.1)

join :
    (x n tok l now last r b : ℕ) (flag : Bool)
    → x + n * 1_000_000 ≤ tok + (l - now) * r
    → tok + (if flag then 1 else 0) * 1_000_000 ≤ b + (now - last) * r
    → last ≤ now
    → now ≤ l
    → x + (if flag then n + 1 else n) * 1_000_000 ≤ b + (l - last) * r
join x n tok l now last r b true p q h k = omega (
  arith,
  distribute r (l - now) (now - last),
  ap (λ d. d * r) (let e : (l - now) + (now - last) ≡ l - last = omega arith in e),
)
join x n tok l now last r b false p q h k = omega (
  arith,
  distribute r (l - now) (now - last),
  ap (λ d. d * r) (let e : (l - now) + (now - last) ≡ l - last = omega arith in e),
)

attempts_account :
    (b : TokenBucket) (times : List ℕ)
    → Rising b.last times
    → (attempts b times).0.tokens + (attempts b times).1 * 1_000_000
      ≤ b.tokens + (last_of b.last times - b.last) * b.rate
unfolding attempts
attempts_account b [] h = omega arith
attempts_account b (now ∷ times) h =
    let t = (take_token b now).0 in
    let a = take_accounts b now in
    let rest = attempts_account t times (rw a.2 h.1) in
    let moved : (attempts t times).0.tokens + (attempts t times).1 * 1_000_000
        ≤ t.tokens + (last_of now times - now) * b.rate =
      subst
        (λ r.
          (attempts t times).0.tokens + (attempts t times).1 * 1_000_000
          ≤ t.tokens + (last_of now times - now) * r)
        a.1
        (subst
          (λ l.
            (attempts t times).0.tokens + (attempts t times).1 * 1_000_000
            ≤ t.tokens + (last_of l times - l) * t.rate)
          a.2 rest) in
    join (attempts t times).0.tokens (attempts t times).1 t.tokens (last_of now times) now b.last
      b.rate b.tokens (take_token b now).1 moved a.0 h.0 (Rising-bound now times h.1)

-- From a new bucket, over any attempts at times that do not fall, the frames let through are at most
-- the capacity and the rate times the time that has passed, in millionths.
pub attempts_rate :
    (rate_hz capacity start : ℕ) (times : List ℕ)
    → Rising start times
    → (attempts (new_bucket rate_hz capacity start) times).1 * 1_000_000
      ≤ capacity * 1_000_000 + (last_of start times - start) * rate_hz
unfolding new_bucket
attempts_rate rate_hz capacity start times h =
    omega (arith, attempts_account (new_bucket rate_hz capacity start) times h)
