-- ===== src/Elrs/Crsf/Channels/Digits.antt =====
-- Numbers written in a base, lowest digit first.
use nova_robotics_drone_cont.Common.{
  ℕ, ◌+◌, ◌*◌, ◌/◌, ◌%◌, ◌<◌, ◌≡◌, refl, sym, ◌∙◌, ap, List, [], ◌∷◌, arith, All, length,
}
use native.Mathlib.Nat.{add-mul-mod_self_left, mod-eq_of_lt, add-mul-div_left, div-eq_of_lt}

unfoldable pub value : ℕ → List ℕ → ℕ
value base [] = 0
value base (d ∷ ds) = d + base * value base ds

first_digits :
    (base d e s t : ℕ) → d < base → e < base → d + base * s ≡ e + base * t → (d ≡ e) × (s ≡ t)
first_digits base d e s t hd he h = (
  sym (low d s hd) ∙ ap (λ n. n % base) h ∙ low e t he,
  sym (high d s hd) ∙ ap (λ n. n / base) h ∙ high e t he,
)
  where
    low : (x q : ℕ) → x < base → (x + base * q) % base ≡ x
    low x q k = add-mul-mod_self_left x base q ∙ mod-eq_of_lt k

    high : (x q : ℕ) → x < base → (x + base * q) / base ≡ q
    high x q k = add-mul-div_left x q (omega arith) ∙ ap (λ n. n + q) (div-eq_of_lt k) ∙ omega arith

-- Digits below the base are determined by their number and how many they are.
pub value_injective :
    (base : ℕ) (ds es : List ℕ)
    → All (λ d. d < base) ds
    → All (λ d. d < base) es
    → length ds ≡ length es
    → value base ds ≡ value base es
    → ds ≡ es
unfolding value
value_injective base [] [] hd he l h = refl
value_injective base [] (e ∷ es) hd he l h = absurd (omega arith)
value_injective base (d ∷ ds) [] hd he l h = absurd (omega arith)
value_injective base (d ∷ ds) (e ∷ es) (hd, hds) (he, hes) l h =
    let (same, rest) = first_digits base d e (value base ds) (value base es) hd he h in
    rw (same, value_injective base ds es hds hes (omega arith) rest)
