-- ===== src/Network/ConnExamples.antt =====
-- The theorems about the connections of elfo-network at concrete inputs.
use elfo.Base.{ℕ, ◌+◌, ◌≡◌, refl, Option, none, some, List, [], ◌∷◌, ◌==◌, done}
use elfo.Core.Slots.{slots}
use elfo.Network.ConnMan.{
  outgoing, State, establishing, established, Environment, Conn, insert_new, manage_connection,
  on_connection_failed,
}
use elfo.Network.ConnMan.Reconnect.{failed_reconnects}
use elfo.Network.ConnMan.Opening.{waiting_is_outgoing}
use elfo.Network.ConnMan.Opening

-- A socket is described by the number of its node; every sum of times is valid.
abbrev node_two : Environment
node_two = record {
  SocketInfo = ℕ;
  Role = ℕ;
  peer_node_no = λ i. i;
  same_info = λ i j. i == j;
  checked_add = λ a b. some (a + b);
  reconnect_interval = 5;
  this_node_no = 2;
}

abbrev to_peer : State → Conn ℕ ℕ
to_peer st = record {
  role = 0;
  transport = record { transport = 77; direction = outgoing };
  socket_info = none;
  state = st;
}

abbrev conns : State → List (Option (Conn ℕ ℕ))
conns st = some (to_peer st) ∷ []

failed_reconnects_example :
    let opened = slots.insert (none ∷ []) (to_peer establishing) in
    (on_connection_failed node_two slots (conns established) 0 10 ≡ done (conns (State.failed 15)))
    × (manage_connection node_two slots (conns (State.failed 15)) 0 20
        ≡ done (opened.0, none, some opened.1))
    × (slots.get opened.0 opened.1 ≡ some (to_peer establishing))
failed_reconnects_example =
    failed_reconnects node_two slots (conns established) 0 (to_peer established) 10 15 20 refl refl
      refl refl refl

conns-Reach : Opening.Reach node_two (slots {V = Conn ℕ ℕ}) (conns (State.new 3))
unfolding insert_new
conns-Reach = Opening.Reach.next Opening.Reach.here (Opening.Step.inserts _ 0 77 3)

waiting_is_outgoing_example : (to_peer (State.new 3)).transport.direction ≡ outgoing
waiting_is_outgoing_example =
    waiting_is_outgoing node_two slots (conns (State.new 3)) 0 (to_peer (State.new 3)) conns-Reach
      refl refl
