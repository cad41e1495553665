-- ===== src/Elrs/Service/Clients.antt =====
-- modules/elrs_telemetry/service.py: which clients a broadcast leaves.
use nova_robotics_drone_cont.Common.{
  ℕ, ◌≡◌, ◌≢◌, refl, ap, ◌∙◌, Bool, true, false, not, List, [], ◌∷◌, arith, ◌==◌, ==_iff,
  if◌then◌else◌, All, Bool-cases, inl, inr, sym,
}
use nova_robotics_drone_cont.Elrs.Service.Broker.{
  WsBroker, remove_first, send_all, drop_all, broadcast,
}

-- The clients of which `p` holds, in order.
abbrev pub keep : (ℕ → Bool) → List ℕ → List ℕ
keep p [] = []
keep p (c ∷ clients) = let rest = keep p clients in if p c then c ∷ rest else rest

abbrev remove_all : List ℕ → List ℕ → List ℕ
remove_all clients [] = clients
remove_all clients (c ∷ dead) = remove_all (remove_first clients c) dead

drop_all_lem :
    (broker : WsBroker) (dead : List ℕ)
    → (drop_all broker dead).clients ≡ remove_all broker.clients dead
unfolding drop_all
drop_all_lem broker [] = refl
drop_all_lem broker (c ∷ dead) =
    drop_all_lem (record broker { clients = remove_first broker.clients c }) dead

true≢false : true ≢ false
true≢false e = ground arith

module _ (alive : ℕ → Bool) where
  send_all_lem :
      (clients : List ℕ)
      → send_all alive clients ≡ (keep (λ c. not (alive c)) clients, keep alive clients)
  send_all_lem [] = refl
  send_all_lem (c ∷ clients) = elim (Bool-cases (alive c)) [
    | inl e ↦ rw (e, send_all_lem clients) refl
    | inr e ↦ rw (e, send_all_lem clients) refl
  ]

  All-dead : (clients : List ℕ) → All (λ c. alive c ≡ false) (keep (λ c. not (alive c)) clients)
  All-dead [] = tt
  All-dead (c ∷ clients) = elim (Bool-cases (alive c)) [
    | inl e ↦ rw e (All-dead clients)
    | inr e ↦ rw e (e, All-dead clients)
  ]

  differ : (c x : ℕ) → alive c ≡ true → alive x ≡ false → (c == x) ≡ false
  differ c x e f = elim (Bool-cases (c == x)) [
    | inl q ↦ absurd (true≢false (sym e ∙ ap alive ((==_iff c x).0 q) ∙ f))
    | inr q ↦ q
  ]

  -- A client that is alive stays in front while dead ones are removed.
  skip_alive :
      (dead : List ℕ) (c : ℕ) (clients : List ℕ)
      → alive c ≡ true
      → All (λ x. alive x ≡ false) dead
      → remove_all (c ∷ clients) dead ≡ c ∷ remove_all clients dead
  skip_alive [] c clients e h = refl
  skip_alive (x ∷ dead) c clients e h =
      rw (differ c x e h.0) (skip_alive dead c (remove_first clients x) e h.1)

  removed :
      (clients : List ℕ)
      → remove_all clients (keep (λ c. not (alive c)) clients) ≡ keep alive clients
  removed [] = refl
  removed (c ∷ clients) = elim (Bool-cases (alive c)) [
    | inl e ↦
        rw
          (
            e,
            skip_alive (keep (λ x. not (alive x)) clients) c clients e (All-dead clients),
            removed clients,
          )
          refl
    | inr e ↦ rw (e, (==_iff c c).1 refl) (removed clients)
  ]

  -- After a broadcast the clients are exactly those whose send succeeds, in their order, and exactly
  -- these got the message; a client that is registered more than once too.
  pub broadcast_keeps_alive :
      (broker : WsBroker)
      → ((broadcast alive broker).0.clients ≡ keep alive broker.clients)
        × ((broadcast alive broker).1 ≡ keep alive broker.clients)
  unfolding broadcast
  broadcast_keeps_alive broker = rw (send_all_lem broker.clients) (
    drop_all_lem broker (keep (λ c. not (alive c)) broker.clients) ∙ removed broker.clients,
    refl,
  )
