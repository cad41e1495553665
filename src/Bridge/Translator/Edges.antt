-- ===== src/Bridge/Translator/Edges.antt =====
-- modules/drone_bridge/translator.py: the posts of a run of frames, told from neighbouring frames.
use nova_robotics_drone_cont.Common.{ℕ, ◌≡◌, some, List, [], ◌∷◌, ◌++◌, get_or}
use nova_robotics_drone_cont.Bridge.Translator.{
  TranslatorState, Post, on_ch5, on_ch6, on_ch7, on_edges, Step, then_step,
}
use nova_robotics_drone_cont.Bridge.Translator.Parts.{is_armed, is_forced, mode_of, between}

-- The same along a list of frames.
unfoldable pub between_from : List ℕ → List (List ℕ) → List Post
between_from before [] = []
between_from before (us ∷ frames) = between before us ++ between_from us frames

unfoldable pub between_all : List (List ℕ) → List Post
unfolding between_from
between_all [] = []
between_all (us ∷ frames) = between_from us frames

abbrev pub with_frame : TranslatorState → List ℕ → TranslatorState
with_frame state us = record state { channels_us = us }

-- `on_edges` along a list of frames.
unfoldable pub run : TranslatorState → List (List ℕ) → List Post
run state [] = []
run state (us ∷ frames) =
    (on_edges (with_frame state us)).1 ++ run (on_edges (with_frame state us)).0 frames

-- The state remembers the switches of the frame `us`.
pub record Remembers (state : TranslatorState) (us : List ℕ) : Type 0 where
  pub armed : state.last_ch5_armed ≡ some (is_armed us)
  pub forced : state.last_ch6_forced ≡ some (is_forced us)
  pub mode : state.last_mode_idx ≡ some (mode_of us)

-- The handler on a frame with at least seven channels.
abbrev pub full : TranslatorState → List ℕ → Step
full state us =
    then_step (on_ch5 (some (get_or us 4 0)) state)
      (λ s5. then_step (on_ch6 (some (get_or us 5 0)) s5) (λ s6. on_ch7 (some (get_or us 6 0)) s6))
