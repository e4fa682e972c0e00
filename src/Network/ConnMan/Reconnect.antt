-- ===== src/Network/ConnMan/Reconnect.antt =====
-- A failed connection is opened again.
use elfo.Base.{ℕ, ◌≡◌, ◌∙◌, false, none, some, arith, leb, if◌then◌else◌, done}
use elfo.Core.RequestTable.{SlotMap}
use elfo.Network.ConnMan.{
  outgoing, State, establishing, Environment, Conn, is_failed, is_aborting, insert_establishing,
  manage_state, manage_connection, fail, on_connection_failed,
}

module _ (env : Environment) (s : SlotMap (Conn env.SocketInfo env.Role)) where
  open env use {SocketInfo, Role}
  open s use {Key, Map, get, insert, write, remove}

  abbrev again : Conn SocketInfo Role → Conn SocketInfo Role
  again c = record c { socket_info = none; state = establishing }

  fails :
      (m : Map) (k : Key) (c : Conn SocketInfo Role) (now at : ℕ)
      → get m k ≡ some c
      → is_failed c.state ≡ false
      → is_aborting c.state ≡ false
      → c.transport.direction ≡ outgoing
      → env.checked_add now env.reconnect_interval ≡ some at
      → on_connection_failed env s m k now ≡ done (write m k (record c { state = State.failed at }))
  unfolding on_connection_failed fail
  fails m k c now at e p q d h = ground arith

  manage_failed :
      (m : Map) (k : Key) (c : Conn SocketInfo Role) (now at : ℕ)
      → get m k ≡ some (record c { state = State.failed at })
      → let opened = insert (remove m k) (again c) in
        manage_connection env s m k now
        ≡ done (if leb at now then (opened.0, none, some opened.1) else (m, some at, none))
  unfolding manage_connection manage_state insert_establishing
  manage_failed m k c now at e = ground arith

  inserted : (m : Map) (c : Conn SocketInfo Role) → get (insert m c).0 (insert m c).1 ≡ some c
  inserted m c =
      s.get-insert m c (insert m c).1 ∙ ground (arith, s.same_iff (insert m c).1 (insert m c).1)

  -- An outgoing connection that fails, and is neither failed already nor being aborted, is opened
  -- again: the failure does not panic, until the reconnection interval is over the connection only
  -- asks to be woken up at its end, and from then on it is replaced by a new connection with the
  -- same role and transport, without a socket, that is to be opened. The end of the interval must
  -- be a valid time.
  pub failed_reconnects :
      (m : Map) (k : Key) (c : Conn SocketInfo Role) (now at later : ℕ)
      → get m k ≡ some c
      → is_failed c.state ≡ false
      → is_aborting c.state ≡ false
      → c.transport.direction ≡ outgoing
      → env.checked_add now env.reconnect_interval ≡ some at
      → let down = write m k (record c { state = State.failed at }) in
        let opened = insert (remove down k) (again c) in
        (on_connection_failed env s m k now ≡ done down)
        × (manage_connection env s down k later
            ≡ done
                (if leb at later then (opened.0, none, some opened.1) else (down, some at, none)))
        × (get opened.0 opened.1 ≡ some (again c))
  failed_reconnects m k c now at later e p q d h =
      let c' : Conn SocketInfo Role = record c { state = State.failed at } in
      let down = write m k c' in
      let there = s.get-write m k c' c k e ∙ ground (arith, s.same_iff k k) in
      (
        fails m k c now at e p q d h,
        manage_failed down k c later at there,
        inserted (remove down k) (again c),
      )
