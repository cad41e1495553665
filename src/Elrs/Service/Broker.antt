-- ===== src/Elrs/Service/Broker.antt =====
-- modules/elrs_telemetry/service.py: `WSBroker`, the clients of one WebSocket.
-- A client is a number. Whether a send to it succeeds is the client's, so it is an argument.
use nova_robotics_drone_cont.Common.{ℕ, Bool, List, [], ◌∷◌, ◌++◌, ◌==◌, if◌then◌else◌}

pub record WsBroker : Type 0 where
  pub clients : List ℕ

unfoldable pub add : WsBroker → ℕ → WsBroker
add broker ws = record broker { clients = broker.clients ++ (ws ∷ []) }

-- `list.remove`, with the `ValueError` caught.
abbrev pub remove_first : List ℕ → ℕ → List ℕ
remove_first [] ws = []
remove_first (c ∷ clients) ws =
    let rest = remove_first clients ws in if c == ws then clients else c ∷ rest

unfoldable pub remove : WsBroker → ℕ → WsBroker
remove broker ws = record broker { clients = remove_first broker.clients ws }

-- The sends, in order: those that failed, and those that got the message.
abbrev pub send_all : (ℕ → Bool) → List ℕ → List ℕ × List ℕ
send_all alive [] = ([], [])
send_all alive (c ∷ clients) =
    let rest = send_all alive clients in
    if alive c then (rest.0, c ∷ rest.1) else (c ∷ rest.0, rest.1)

unfoldable pub drop_all : WsBroker → List ℕ → WsBroker
unfolding remove
drop_all broker [] = broker
drop_all broker (c ∷ dead) = drop_all (remove broker c) dead

-- The broker after it, and the clients that got the message.
unfoldable pub broadcast : (ℕ → Bool) → WsBroker → WsBroker × List ℕ
unfolding drop_all
broadcast alive broker =
    let sent = send_all alive broker.clients in (drop_all broker sent.0, sent.1)
