-- ===== src/Elrs/Service/Reader/Stream.antt =====
-- modules/elrs_telemetry/service.py: the reader handles the frames of the stream, in order.
use nova_robotics_drone_cont.Common.{
  ℕ, zero, suc, ◌≡◌, ◌⊎◌, refl, sym, ap, ◌∙◌, subst, Bool, true, false, List, [], ◌∷◌, take, drop,
  arith, inl, inr,
}
use nova_robotics_drone_cont.Elrs.Crsf.{
  Frame, wait, skip, accept, look, frame_of, parse_loop, yield_frame, Round,
}
use nova_robotics_drone_cont.Elrs.Service.Channels.{LinkState}
use nova_robotics_drone_cont.Elrs.Service.Reader.{Pass, nothing, handle_one, go_on, parse_pass}

-- The frames handled one after the other, up to an exception.
unfoldable pub handle_all : LinkState → List Frame → ℕ → Pass
handle_all st [] now = nothing st
handle_all st (f ∷ fs) now =
    let p = handle_one st f now in (go_on p.good [] p ([], handle_all p.state fs now)).1

Round-cases : (o : Round) → (o ≡ wait) ⊎ (o ≡ skip) ⊎ ((total : ℕ) × (o ≡ accept total))
Round-cases wait = inl refl
Round-cases skip = inr (inl refl)
Round-cases (accept total) = inr (inr (total, refl))

-- Two passes that go well together, where the second is known if it goes well.
pub joined :
    (b : Bool) (p q : Pass) (buf buf' : List ℕ) (x : List ℕ × Pass)
    → p.good ≡ b
    → (q.good ≡ true → x ≡ (buf', q))
    → (go_on b [] p ([], q)).1.good ≡ true
    → go_on b buf p x ≡ (buf', (go_on b [] p ([], q)).1)
joined true p q buf buf' x e ih h = ap (λ y. go_on true buf p y) (ih h)
joined false p q buf buf' x e ih h = absurd (ground arith)

module _ (fuel : ℕ) (buf : List ℕ) where
  loop_wait : look buf ≡ wait → parse_loop (suc fuel) buf ≡ (buf, [])
  unfolding parse_loop
  loop_wait e = rw (parse_loop, e) refl

  loop_skip : look buf ≡ skip → parse_loop (suc fuel) buf ≡ parse_loop fuel (drop 1 buf)
  unfolding parse_loop
  loop_skip e = rw (parse_loop, e) refl

  loop_accept :
      (total : ℕ)
      → look buf ≡ accept total
      → parse_loop (suc fuel) buf
        ≡ yield_frame (frame_of (take total buf)) (parse_loop fuel (drop total buf))
  unfolding parse_loop
  loop_accept total e = rw (parse_loop, e) refl

  module _ (st : LinkState) (now : ℕ) where
    pass_wait : look buf ≡ wait → parse_pass (suc fuel) buf st now ≡ (buf, nothing st)
    unfolding parse_pass
    pass_wait e = rw (parse_pass, e) refl

    pass_skip :
        look buf ≡ skip → parse_pass (suc fuel) buf st now ≡ parse_pass fuel (drop 1 buf) st now
    unfolding parse_pass
    pass_skip e = rw (parse_pass, e) refl

    pass_accept :
        (total : ℕ)
        → look buf ≡ accept total
        → parse_pass (suc fuel) buf st now ≡ (
            let p = handle_one st (frame_of (take total buf)) now in
            go_on p.good (drop total buf) p (parse_pass fuel (drop total buf) p.state now))
    unfolding parse_pass
    pass_accept total e = rw (parse_pass, e) refl

-- What a parser does on the frames `r.1` that leave the buffer `r.0`, when all goes well.
abbrev pub Handles : LinkState → ℕ → List ℕ × List Frame → List ℕ × Pass → Type 0
Handles st now r x = (handle_all st r.1 now).good ≡ true → x ≡ (r.0, handle_all st r.1 now)

pub parse_pass-Handles :
    (fuel : ℕ) (buf : List ℕ) (st : LinkState) (now : ℕ)
    → Handles st now (parse_loop fuel buf) (parse_pass fuel buf st now)
unfolding parse_loop parse_pass handle_all
parse_pass-Handles zero buf st now = λ h. refl
parse_pass-Handles (suc fuel) buf st now = elim (Round-cases (look buf)) [
  | inl e ↦
      subst (λ r. Handles st now r (parse_pass (suc fuel) buf st now)) (sym (loop_wait fuel buf e))
        (λ h. pass_wait fuel buf st now e)
  | inr (inl e) ↦
      subst (λ r. Handles st now r (parse_pass (suc fuel) buf st now)) (sym (loop_skip fuel buf e))
        (λ h. pass_skip fuel buf st now e ∙ parse_pass-Handles fuel (drop 1 buf) st now h)
  | inr (inr (total, e)) ↦
      subst (λ r. Handles st now r (parse_pass (suc fuel) buf st now))
        (sym (loop_accept fuel buf total e))
        (λ h.
          let p = handle_one st (frame_of (take total buf)) now in
          pass_accept fuel buf st now total e
          ∙ joined p.good p (handle_all p.state (parse_loop fuel (drop total buf)).1 now)
              (drop total buf) (parse_loop fuel (drop total buf)).0
              (parse_pass fuel (drop total buf) p.state now) refl
              (parse_pass-Handles fuel (drop total buf) p.state now) h)
]
