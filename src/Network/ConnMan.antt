-- ===== src/Network/ConnMan.antt =====
-- elfo-network/src/connman.rs: the connections of a node. Their slot map is the parameter `SlotMap`,
-- whose keys are passed in where the code goes over them; the clock is an argument. Logging and
-- debug assertions are left out.
pub mod Reconnect
pub mod Opening
use elfo.Base.{
  ℕ, Bool, true, false, not, Option, none, some, List, [], ◌∷◌, ◌++◌, ◌==◌, leb, min, if◌then◌else◌,
  Run, done, panic, ◌>>=◌,
}
use elfo.Core.RequestTable.{SlotMap}
use elfo.Core.Addr.{NodeNo}

pub data Direction : Type 0 where
  incoming outgoing : Direction

-- A transport address is a number.
pub record ConnectTransport : Type 0 where
  pub transport : ℕ
  pub direction : Direction

abbrev pub outgoing_transport : ℕ → ConnectTransport
outgoing_transport t = record { transport = t; direction = outgoing }

abbrev pub incoming_transport : ℕ → ConnectTransport
incoming_transport t = record { transport = t; direction = incoming }

pub data State : Type 0 where
  new : ℕ → State
  establishing established accepted : State
  failed : ℕ → State
  aborting : State

pub data EstablishDecision : Type 0 where
  proceed reject : EstablishDecision

-- What stands outside: descriptions of sockets and roles, the addition to an `Instant`, which may
-- overflow, and what is configured.
pub record Environment : Type 1 where
  pub SocketInfo : Type 0
  pub Role : Type 0
  pub peer_node_no : SocketInfo → NodeNo
  pub same_info : SocketInfo → SocketInfo → Bool
  pub checked_add : ℕ → ℕ → Option ℕ
  pub reconnect_interval : ℕ
  pub this_node_no : NodeNo

pub record Conn (SocketInfo Role : Type 0) : Type 0 where
  pub role : Role
  pub transport : ConnectTransport
  pub socket_info : Option SocketInfo
  pub state : State

abbrev pub is_incoming : Direction → Bool
is_incoming incoming = true
is_incoming outgoing = false

abbrev pub is_failed : State → Bool
is_failed (failed at) = true
is_failed (new at) = false
is_failed establishing = false
is_failed established = false
is_failed accepted = false
is_failed aborting = false

abbrev pub is_aborting : State → Bool
is_aborting aborting = true
is_aborting (failed at) = false
is_aborting (new at) = false
is_aborting establishing = false
is_aborting established = false
is_aborting accepted = false

module _ (env : Environment) (s : SlotMap (Conn env.SocketInfo env.Role)) where
  open env use {SocketInfo, Role, same_info}
  open s use {Key, Map, get, insert, write, remove}

  unfoldable pub insert_new : Map → Role → ConnectTransport → ℕ → Map × Key
  insert_new m role t now =
      insert m (record { role = role; transport = t; socket_info = none; state = new now })

  unfoldable pub insert_establishing : Map → Role → ConnectTransport → Map × Key
  insert_establishing m role t =
      insert m (record { role = role; transport = t; socket_info = none; state = establishing })

  -- The closure of `retain` on one connection, and whether its id is reported.
  unfoldable pub abort_one : Map → Key → ℕ → Map × Bool
  abort_one m k t = elim (get m k) [
    | none ↦ (m, false)
    | some c ↦
        if is_aborting c.state
        then (m, false)
        else (if not (c.transport.transport == t)
            then (m, false)
            else (if is_failed c.state
                then (remove m k, false)
                else (write m k (record c { state = aborting }), true)))
  ]

  unfoldable pub abort_by_transport : Map → List Key → ℕ → Map × List Key
  unfolding abort_one
  abort_by_transport m [] t = (m, [])
  abort_by_transport m (k ∷ ks) t =
      let (m', reported) = abort_one m k t in
      let (m'', ids) = abort_by_transport m' ks t in (m'', if reported then k ∷ ids else ids)

  -- `manage_connection` on a connection in the given state: the connections after, when to wake up
  -- for it, and the connection that is to be opened.
  unfoldable pub manage_state :
      Map → Key → Conn SocketInfo Role → State → ℕ → Map × Option ℕ × Option Key
  unfolding insert_establishing
  manage_state m k c (new at) now =
      if leb at now
      then (write m k (record c { state = establishing }), none, some k)
      else (m, some at, none)
  manage_state m k c (failed at) now =
      let opened = insert_establishing (remove m k) c.role c.transport in
      if leb at now then (opened.0, none, some opened.1) else (m, some at, none)
  manage_state m k c establishing now = (m, none, none)
  manage_state m k c established now = (m, none, none)
  manage_state m k c accepted now = (m, none, none)
  manage_state m k c aborting now = (m, none, none)

  unfoldable pub manage_connection : Map → Key → ℕ → Run (Map × Option ℕ × Option Key)
  manage_connection m k now = elim (get m k) [
    | none ↦ panic
    | some c ↦ done (manage_state m k c c.state now)
  ]

  abbrev pub least_of : Option ℕ → Option ℕ → Option ℕ
  least_of (some a) (some b) = some (min a b)
  least_of (some a) none = some a
  least_of none w = w

  abbrev pub with_command : List Key → Option Key → List Key
  with_command commands none = commands
  with_command commands (some k) = commands ++ k ∷ []

  unfoldable pub manage_connections :
      Map → List Key → ℕ → Option ℕ → List Key → Run (Map × Option ℕ × List Key)
  unfolding manage_connection
  manage_connections m [] now least commands = done (m, least, commands)
  manage_connections m (k ∷ ks) now least commands = do
    (m', wake, command) ← manage_connection m k now
    manage_connections m' ks now (least_of least wake) (with_command commands command)

  -- `on_connection_failed` on a connection that is neither failed nor aborting.
  unfoldable pub fail : Map → Key → Conn SocketInfo Role → ℕ → Run Map
  fail m k c reconnect_at = done (
      if is_incoming c.transport.direction
      then remove m k
      else write m k (record c { state = failed reconnect_at }))

  unfoldable pub on_connection_failed : Map → Key → ℕ → Run Map
  unfolding fail
  on_connection_failed m k now = elim (get m k) [
    | none ↦ done m
    | some c ↦
        if is_failed c.state
        then done m
        else (if is_aborting c.state
            then done (remove m k)
            else (elim (env.checked_add now env.reconnect_interval) [
              | none ↦ panic
              | some at ↦ fail m k c at
            ]))
  ]

  abbrev pub new_info : Option SocketInfo → SocketInfo → Option SocketInfo
  new_info none info = some info
  new_info (some prev) info = if same_info prev info then some prev else some info

  -- `none` is `NoSuchConn`.
  unfoldable pub on_connection_established :
      Map → Key → SocketInfo → Option (Map × EstablishDecision)
  on_connection_established m k info = elim (get m k) [
    | none ↦ none
    | some c ↦ some (
        if env.peer_node_no info == env.this_node_no then (remove m k, reject) else (
          write m k (record c { socket_info = new_info c.socket_info info; state = established }),
          proceed,
        ))
  ]

  unfoldable pub on_connection_accepted : Map → Key → Role → Map
  on_connection_accepted m k role = elim (get m k) [
    | none ↦ m
    | some c ↦ write m k (record c { role = role; state = accepted })
  ]
