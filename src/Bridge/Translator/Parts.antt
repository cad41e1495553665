-- ===== src/Bridge/Translator/Parts.antt =====
-- modules/drone_bridge/translator.py: one frame, switch by switch.
use nova_robotics_drone_cont.Common.{
  ℕ, ◌≤◌, ◌≡◌, refl, ◌∙◌, ap, Bool, true, false, Option, none, some, List, [], ◌∷◌, ◌++◌, arith,
  leb, ◌==◌, if◌then◌else◌, get_or, get_elem_full, length, Option-cases, inl, inr,
}
use nova_robotics_drone_cont.Bridge.Translator.{
  TranslatorState, Post, control_arm, control_disarm, disarm_force, post_mode, FlightMode,
  phone_mode_map, mode_index_from_us, on_ch5, on_ch6, on_ch7, on_edges, mode_edge, Step, then_step,
}

abbrev pub is_armed : List ℕ → Bool
is_armed us = leb 1500 (get_or us 4 0)

abbrev pub is_forced : List ℕ → Bool
is_forced us = leb 1700 (get_or us 5 0)

abbrev pub mode_of : List ℕ → ℕ
mode_of us = mode_index_from_us (get_or us 6 0)

abbrev pub arm_post : Bool → Bool → List Post
arm_post true true = []
arm_post true false = control_disarm ∷ []
arm_post false true = control_arm ∷ []
arm_post false false = []

abbrev pub force_post : Bool → Bool → List Post
force_post false true = disarm_force ∷ []
force_post _ _ = []

abbrev pub some_mode : Option FlightMode → List Post
some_mode none = []
some_mode (some mode) = post_mode mode ∷ []

abbrev pub mode_post : ℕ → ℕ → List Post
mode_post before idx = if idx == before then [] else some_mode (phone_mode_map idx)

-- What a frame posts behind the frame before it.
abbrev pub between : List ℕ → List ℕ → List Post
between before us =
    arm_post (is_armed before) (is_armed us)
    ++ (force_post (is_forced before) (is_forced us) ++ mode_post (mode_of before) (mode_of us))

-- What a part of the handler remembers, and what it posts.
pub record Part (step : Step) (ch5 ch6 : Option Bool) (ch7 : Option ℕ) (posts : List Post)
    : Type 0 where
  pub armed : step.0.last_ch5_armed ≡ ch5
  pub forced : step.0.last_ch6_forced ≡ ch6
  pub mode : step.0.last_mode_idx ≡ ch7
  pub posted : step.1 ≡ posts
  pub calm : step.2 ≡ false

unfoldable pub arm_before : Option Bool → Bool → List Post
arm_before none b = []
arm_before (some a) b = arm_post a b

unfoldable pub force_before : Option Bool → Bool → List Post
force_before none b = []
force_before (some a) b = force_post a b

unfoldable pub mode_before : Option ℕ → ℕ → List Post
mode_before none b = []
mode_before (some a) b = mode_post a b

module _ (s : TranslatorState) (u : ℕ) where
  ch5-Part :
      Part
        (on_ch5 (some u) s)
        (some (leb 1500 u))
        s.last_ch6_forced
        s.last_mode_idx
        (arm_before s.last_ch5_armed (leb 1500 u))
  unfolding on_ch5 arm_before
  ch5-Part = ground arith

  ch6-Part :
      Part
        (on_ch6 (some u) s)
        s.last_ch5_armed
        (some (leb 1700 u))
        s.last_mode_idx
        (force_before s.last_ch6_forced (leb 1700 u))
  unfolding on_ch6 force_before
  ch6-Part = ground arith

  mode_edge_lem :
      (o : Option ℕ) (idx : ℕ)
      → ((mode_edge o idx s).1 ≡ mode_before o idx)
        × ((mode_edge o idx s).0.last_ch5_armed ≡ s.last_ch5_armed)
        × ((mode_edge o idx s).0.last_ch6_forced ≡ s.last_ch6_forced)
  unfolding mode_before
  mode_edge_lem none idx = (refl, refl, refl)
  mode_edge_lem (some before) idx = elim (Option-cases (phone_mode_map idx)) [
    | inl e ↦ ground arith
    | inr (x, e) ↦ ground arith
  ]

  ch7-Part :
      Part
        (on_ch7 (some u) s)
        s.last_ch5_armed
        s.last_ch6_forced
        (some (mode_index_from_us u))
        (mode_before s.last_mode_idx (mode_index_from_us u))
  unfolding on_ch7 mode_before
  ch7-Part =
      let k = mode_edge_lem s.last_mode_idx (mode_index_from_us u) in
      record { armed = k.1; forced = k.2; mode = refl; posted = k.0; calm = refl }

then_step_calm :
    (x : Step) (next : TranslatorState → Step)
    → x.2 ≡ false
    → then_step x next ≡ ((next x.0).0, x.1 ++ (next x.0).1, (next x.0).2)
then_step_calm (s, posts, true) next h = absurd (ground arith)
then_step_calm (s, posts, false) next h = refl

-- The handler on a frame with at least seven channels.
pub edges-Part :
    (s : TranslatorState)
    → 7 ≤ length s.channels_us
    → Part
        (on_edges s)
        (some (is_armed s.channels_us))
        (some (is_forced s.channels_us))
        (some (mode_of s.channels_us))
        (arm_before s.last_ch5_armed (is_armed s.channels_us)
          ++ (force_before s.last_ch6_forced (is_forced s.channels_us)
              ++ mode_before s.last_mode_idx (mode_of s.channels_us)))
unfolding on_edges
edges-Part s h =
    let x5 = on_ch5 (some (get_or s.channels_us 4 0)) s in
    let x6 = on_ch6 (some (get_or s.channels_us 5 0)) x5.0 in
    let x7 = on_ch7 (some (get_or s.channels_us 6 0)) x6.0 in
    let p5 = ch5-Part s (get_or s.channels_us 4 0) in
    let p6 = ch6-Part x5.0 (get_or s.channels_us 5 0) in
    let p7 = ch7-Part x6.0 (get_or s.channels_us 6 0) in
    let whole : on_edges s ≡ (x7.0, x5.1 ++ (x6.1 ++ x7.1), x7.2) =
      rw
        (
          get_elem_full s.channels_us 4 (omega arith),
          get_elem_full s.channels_us 5 (omega arith),
          get_elem_full s.channels_us 6 (omega arith),
        )
        refl
      ∙ then_step_calm x5
          (λ s5.
            then_step (on_ch6 (some (get_or s.channels_us 5 0)) s5)
              (λ s6. on_ch7 (some (get_or s.channels_us 6 0)) s6))
          p5.calm
      ∙ ap (λ y. (y.0, x5.1 ++ y.1, y.2))
          (then_step_calm x6 (λ s6. on_ch7 (some (get_or s.channels_us 6 0)) s6) p6.calm) in
    rw whole (record {
      armed = p7.armed ∙ p6.armed ∙ p5.armed;
      forced = p7.forced ∙ p6.forced;
      mode = p7.mode;
      posted = cc;
      calm = p7.calm;
    })

pub edges_calm : (s : TranslatorState) → 7 ≤ length s.channels_us → (on_edges s).2 ≡ false
edges_calm s h = (let p = edges-Part s h in p.calm)
