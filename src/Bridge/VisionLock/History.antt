-- ===== src/Bridge/VisionLock/History.antt =====
-- modules/drone_bridge/vision_lock.py: what the debounce of rule 1 knows of the past frames.
use nova_robotics_drone_cont.Common.{
  ℕ, zero, suc, ◌-◌, ◌≤◌, ◌≡◌, ◌⊎◌, inl, inr, sym, ◌∙◌, ap, subst, true, false, Option, none, some,
  List, [], ◌∷◌, arith, Bool-cases,
}
use nova_robotics_drone_cont.Bridge.VisionLock.Decode.{NormBox, decode_selection}
use nova_robotics_drone_cont.Bridge.VisionLock.State.{
  VisionLockState, advance_selection_fsm, box_eq, is_candidate,
}

-- The newest `n` frames each select exactly the box `b`.
unfoldable pub Leading : ℕ → NormBox → List (List ℕ) → Type 0
Leading zero b history = Unit {0}
Leading (suc n) b [] = ⊥
Leading (suc n) b (us ∷ history) = (decode_selection us ≡ some (some b)) × Leading n b history

Leading-le :
    (n m : ℕ) (b : NormBox) (history : List (List ℕ))
    → n ≤ m
    → Leading m b history
    → Leading n b history
unfolding Leading
Leading-le zero m b history h l = tt
Leading-le (suc n) zero b history h l = absurd (omega arith)
Leading-le (suc n) (suc m) b [] h l = l
Leading-le (suc n) (suc m) b (us ∷ history) h l = (l.0, Leading-le n m b history (omega arith) l.1)

Leading-agree :
    (n m : ℕ) (a b : NormBox) (history : List (List ℕ))
    → Leading (suc n) a history
    → Leading (suc m) b history
    → a ≡ b
unfolding Leading
Leading-agree n m a b [] l k = elim l [ ]
Leading-agree n m a b (us ∷ history) l k = cc

box_eq_sound : (a b : NormBox) → box_eq a b ≡ true → a ≡ b
box_eq_sound a b h = ground arith

candidate_is : (o : Option NormBox) (d : NormBox) → is_candidate o d ≡ true → o ≡ some d
candidate_is none d h = ground arith
candidate_is (some a) d h = ap some (box_eq_sound a d h)

pub record Debounced (vl : VisionLockState) (history : List (List ℕ)) : Type 0 where
  pub at_most : vl.debounce_frames_remaining ≤ 3
  pub candidate :
      (b : NormBox)
      → vl.candidate_box ≡ some b
      → Leading (4 - vl.debounce_frames_remaining) b history
  pub stable : (b : NormBox) → vl.stable_box ≡ some b → Leading 4 b history

module _ (vl : VisionLockState) (history : List (List ℕ)) (us : List ℕ) (now : ℕ)
    (i : Debounced vl history) where
  debounce_none : Debounced (advance_selection_fsm vl none now) (us ∷ history)
  unfolding advance_selection_fsm
  debounce_none = record {
    at_most = omega arith;
    candidate = λ b e. ground arith;
    stable = λ b e. ground arith;
  }

  module _ (d : NormBox) (s : decode_selection us ≡ some (some d)) where
    debounce_new :
        is_candidate vl.candidate_box d ≡ false
        → Debounced (advance_selection_fsm vl (some d) now) (us ∷ history)
    unfolding advance_selection_fsm Leading
    debounce_new n = rw n (record {
      at_most = omega arith;
      candidate = λ b e. (s ∙ ap some e, tt);
      stable = λ b e. ground arith;
    })

    module _ (e : is_candidate vl.candidate_box d ≡ true) where
      remaining_same :
          ((advance_selection_fsm vl (some d) now).candidate_box ≡ vl.candidate_box)
          × ((advance_selection_fsm vl (some d) now).debounce_frames_remaining ≤ 3)
          × (4 - (advance_selection_fsm vl (some d) now).debounce_frames_remaining
              ≤ suc (4 - vl.debounce_frames_remaining))
      unfolding advance_selection_fsm
      remaining_same = ground (arith, i.at_most)

      stable_same :
          (((advance_selection_fsm vl (some d) now).stable_box ≡ some d)
            × (vl.debounce_frames_remaining ≡ 1))
          ⊎ ((advance_selection_fsm vl (some d) now).stable_box ≡ vl.stable_box)
      unfolding advance_selection_fsm
      stable_same = ground (arith, i.at_most)

      Leading-same : Leading (suc (4 - vl.debounce_frames_remaining)) d (us ∷ history)
      unfolding Leading
      Leading-same = (s, i.candidate d (candidate_is vl.candidate_box d e))

      follows : (b : NormBox) → vl.candidate_box ≡ some b → d ≡ b
      follows b f = (let g = candidate_is vl.candidate_box d e in cc)

      same_candidate :
          (b : NormBox)
          → vl.candidate_box ≡ some b
          → Leading
              (4 - (advance_selection_fsm vl (some d) now).debounce_frames_remaining)
              b
              (us ∷ history)
      same_candidate b f =
          subst
            (λ x.
              Leading (4 - (advance_selection_fsm vl (some d) now).debounce_frames_remaining) x
                (us ∷ history))
            (follows b f)
            (Leading-le (4 - (advance_selection_fsm vl (some d) now).debounce_frames_remaining)
              (suc (4 - vl.debounce_frames_remaining)) d (us ∷ history) remaining_same.2
              Leading-same)

      -- A box that is stable already is the candidate, so this frame selects it too.
      still_stable : (b : NormBox) → vl.stable_box ≡ some b → Leading 4 b (us ∷ history)
      unfolding Leading
      still_stable b f =
          let l : Leading 4 b history = i.stable b f in
          let g : vl.candidate_box ≡ some d = candidate_is vl.candidate_box d e in
          let k : Leading 1 d history =
            Leading-le 1 (4 - vl.debounce_frames_remaining) d history
              (let h = i.at_most in omega arith) (i.candidate d g) in
          let d≡b : d ≡ b = Leading-agree 0 3 d b history k l in
          (s ∙ ap (λ x. some (some x)) d≡b, Leading-le 3 4 b history (omega arith) l)

      same_stable :
          (b : NormBox)
          → (advance_selection_fsm vl (some d) now).stable_box ≡ some b
          → Leading 4 b (us ∷ history)
      same_stable b f = elim stable_same [
        | inl n ↦
            (let d≡b : d ≡ b = (let g = n.0 in cc) in
              subst (λ x. Leading 4 x (us ∷ history)) d≡b
                (Leading-le 4 (suc (4 - vl.debounce_frames_remaining)) d (us ∷ history)
                  (let h = n.1 in omega arith) Leading-same))
        | inr n ↦ still_stable b (sym n ∙ f)
      ]

      debounce_same : Debounced (advance_selection_fsm vl (some d) now) (us ∷ history)
      debounce_same = record {
        at_most = remaining_same.1;
        candidate = λ b f. same_candidate b (sym remaining_same.0 ∙ f);
        stable = same_stable;
      }

  pub advance-Debounced :
      (selection : Option NormBox)
      → decode_selection us ≡ some selection
      → Debounced (advance_selection_fsm vl selection now) (us ∷ history)
  advance-Debounced none s = debounce_none
  advance-Debounced (some d) s = elim (Bool-cases (is_candidate vl.candidate_box d)) [
    | inl e ↦ debounce_same d s e
    | inr n ↦ debounce_new d s n
  ]
