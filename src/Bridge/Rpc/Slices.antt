-- ===== src/Bridge/Rpc/Slices.antt =====
-- modules/drone_bridge/rpc.py: the loop of both `fragment`s, read back by either reassembler.
use nova_robotics_drone_cont.Common.{
  ℕ, zero, suc, ◌≤◌, ◌≡◌, refl, sym, ap, ◌∙◌, true, false, List, [], ◌∷◌, ◌++◌, map, ◌==◌, take,
  drop, length, arith, take-append-drop, length-take, length-drop, All, append-nil, append_assoc,
}
use nova_robotics_drone_cont.Bridge.Rpc.{Slice, slices, Delivery, pending, complete}

abbrev pub after : {S A : Type 0} → Delivery A → S × List (Delivery A) → S × List (Delivery A)
after pending (st, ds) = (st, ds)
after d (st, ds) = (st, d ∷ ds)

-- The payloads in order: the reassembler at the end, and all that was delivered.
unfoldable pub feed_all :
    {S A : Type 0} → (S → List ℕ → S × Delivery A) → S → List (List ℕ) → S × List (Delivery A)
feed_all feed st [] = (st, [])
feed_all feed st (p ∷ ps) = after (feed st p).1 (feed_all feed (feed st p).0 ps)

abbrev pub last : List ℕ → Slice
last chunk = record { chunk = chunk; eom = true }

abbrev pub more : List ℕ → Slice
more chunk = record { chunk = chunk; eom = false }

-- How a reassembler takes the packets of one message, whose slices are at most `limit` long.
-- `Open st so_far`: the slices so far are there.
pub record Receiver {S A : Type 0} (feed : S → List ℕ → S × Delivery A) (packet : Slice → List ℕ)
    (limit : ℕ) : Type 1 where
  pub Open : S → List ℕ → Type 0
  pub keep : S → List ℕ → List ℕ → S
  pub close : S → S
  pub whole : List ℕ → A
  pub on_more :
      (st : S) (so_far chunk : List ℕ)
      → length chunk ≤ limit
      → Open st so_far
      → feed st (packet (more chunk)) ≡ (keep st so_far chunk, pending)
  pub on_last :
      (st : S) (so_far chunk : List ℕ)
      → length chunk ≤ limit
      → Open st so_far
      → feed st (packet (last chunk)) ≡ (close st, complete (whole (so_far ++ chunk)))
  pub open_kept :
      (st : S) (so_far chunk : List ℕ)
      → Open st so_far
      → Open (keep st so_far chunk) (so_far ++ chunk)
  pub close_kept :
      (st : S) (so_far chunk : List ℕ) → Open st so_far → close (keep st so_far chunk) ≡ close st

slices_none : (fuel max_body : ℕ) → slices fuel max_body [] ≡ []
unfolding slices
slices_none zero m = refl
slices_none (suc fuel) m = refl

suc_not_zero : (n : ℕ) → (suc n == 0) ≡ false
suc_not_zero n = ground arith

all_of : (xs ys : List ℕ) → xs ++ [] ≡ ys → xs ≡ ys
all_of xs ys e = sym (append-nil xs) ∙ e

module _ {S A : Type 0} {feed : S → List ℕ → S × Delivery A} {packet : Slice → List ℕ} {limit : ℕ}
    (k : Receiver feed packet limit) (m : ℕ) (m_pos : 1 ≤ m) where
  -- The packets fed deliver one message, of this body, and close it.
  abbrev Delivers : S → List ℕ → S × List (Delivery A) → Type 0
  Delivers st body fed = fed ≡ (k.close st, complete (k.whole body) ∷ [])

  -- One turn of the loop, by what is left behind it.
  turn :
      (fuel : ℕ) (st : S) (so_far : List ℕ) (b : ℕ) (rest rest' : List ℕ)
      → drop m (b ∷ rest) ≡ rest'
      → length (b ∷ rest) ≤ limit
      → k.Open st so_far
      → ((st' : S) (so_far' : List ℕ)
          → 1 ≤ length rest'
          → k.Open st' so_far'
          → Delivers st' (so_far' ++ rest') (feed_all feed st' (map packet (slices fuel m rest'))))
      → Delivers st
          (so_far ++ (b ∷ rest))
          (feed_all feed st (map packet (slices (suc fuel) m (b ∷ rest))))
  unfolding slices feed_all
  turn fuel st so_far b rest [] e h o next =
      rw
        (
          e,
          k.on_last st so_far (take m (b ∷ rest)) (omega (arith, length-take m (b ∷ rest))) o,
          slices_none fuel m,
          all_of (take m (b ∷ rest)) (b ∷ rest)
              (ap (λ d. take m (b ∷ rest) ++ d) (sym e) ∙ take-append-drop m (b ∷ rest)),
        )
        refl
  turn fuel st so_far b rest (x ∷ xs) e h o next =
      rw
        (
          e,
          suc_not_zero (length xs),
          k.on_more st so_far (take m (b ∷ rest)) (omega (arith, length-take m (b ∷ rest))) o,
          next (k.keep st so_far (take m (b ∷ rest))) (so_far ++ take m (b ∷ rest)) (omega arith)
              (k.open_kept st so_far (take m (b ∷ rest)) o),
          k.close_kept st so_far (take m (b ∷ rest)) o,
          append_assoc so_far (take m (b ∷ rest)) (x ∷ xs),
          ap (λ d. take m (b ∷ rest) ++ d) (sym e) ∙ take-append-drop m (b ∷ rest),
        )
        refl

  pub run_slices :
      (fuel : ℕ) (rest : List ℕ) (st : S) (so_far : List ℕ)
      → length rest ≤ fuel
      → 1 ≤ length rest
      → length rest ≤ limit
      → k.Open st so_far
      → Delivers st (so_far ++ rest) (feed_all feed st (map packet (slices fuel m rest)))
  run_slices fuel [] st so_far f p h o = absurd (omega arith)
  run_slices zero (b ∷ rest) st so_far f p h o = absurd (omega arith)
  run_slices (suc fuel) (b ∷ rest) st so_far f p h o =
      let d : length (drop m (b ∷ rest)) ≤ length rest =
        omega (arith, length-drop m (b ∷ rest), m_pos) in
      turn fuel st so_far b rest (drop m (b ∷ rest)) refl h o (λ st' so_far' q o'.
        run_slices fuel (drop m (b ∷ rest)) st' so_far' (omega (arith, d)) q (omega (arith, d)) o')

pub slices_bound :
    (fuel m n : ℕ) (rest : List ℕ)
    → length rest ≤ n
    → All (λ s. length s.chunk ≤ n) (slices fuel m rest)
unfolding slices
slices_bound zero m n rest h = tt
slices_bound (suc fuel) m n [] h = tt
slices_bound (suc fuel) m n (b ∷ rest) h = (
  omega (arith, length-take m (b ∷ rest)),
  slices_bound fuel m n (drop m (b ∷ rest)) (omega (arith, length-drop m (b ∷ rest))),
)
