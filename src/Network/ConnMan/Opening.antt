-- ===== src/Network/ConnMan/Opening.antt =====
-- Which connections this node opens.
use elfo.Base.{
  ℕ, ◌≡◌, refl, sym, subst, ◌⊎◌, inl, inr, Bool, true, false, ◌||◌, Option, none, some, List, [],
  ◌∷◌, arith, leb, Bool-cases, Option-cases, Run, done, panic, done_injective,
}
use elfo.Core.RequestTable.{SlotMap}
use elfo.Network.ConnMan.{
  outgoing, ConnectTransport, State, new, establishing, established, accepted, aborting,
  EstablishDecision, Environment, Conn, is_incoming, is_failed, insert_new, insert_establishing,
  abort_one, abort_by_transport, manage_state, manage_connection, fail, on_connection_failed,
  new_info, on_connection_established, on_connection_accepted,
}

module _ (env : Environment) (s : SlotMap (Conn env.SocketInfo env.Role)) where
  open env use {SocketInfo, Role}
  open s use {Key, Map, get, insert, write, remove}

  abbrev pub is_new : State → Bool
  is_new (new at) = true
  is_new (State.failed at) = false
  is_new establishing = false
  is_new established = false
  is_new accepted = false
  is_new aborting = false

  -- New connections are outgoing: the remote node makes the incoming ones.
  pub data Step : Map → Map → Type 0 where
    inserts :
        (m : Map) (role : Role) (t now : ℕ)
        → Step m (insert_new env s m role (record { transport = t; direction = outgoing }) now).0
    accepts :
        (m : Map) (role : Role) (t : ConnectTransport)
        → Step m (insert_establishing env s m role t).0
    aborts : (m : Map) (ks : List Key) (t : ℕ) → Step m (abort_by_transport env s m ks t).0
    manages :
        (m : Map) (k : Key) (now : ℕ) {m' : Map} {w : Option ℕ} {command : Option Key}
        → manage_connection env s m k now ≡ done (m', w, command)
        → Step m m'
    fails :
        (m : Map) (k : Key) (now : ℕ) {m' : Map}
        → on_connection_failed env s m k now ≡ done m'
        → Step m m'
    establishes :
        (m : Map) (k : Key) (info : SocketInfo) {m' : Map} {d : EstablishDecision}
        → on_connection_established env s m k info ≡ some (m', d)
        → Step m m'
    roles : (m : Map) (k : Key) (role : Role) → Step m (on_connection_accepted env s m k role)

  pub data Reach : Map → Type 0 where
    here : Reach s.empty
    next : {m m' : Map} → Reach m → Step m m' → Reach m'

  abbrev is_waiting : State → Bool
  is_waiting st = is_failed st || is_new st

  abbrev Good : Conn SocketInfo Role → Type 0
  Good c = (c.transport.direction ≡ outgoing) ⊎ (is_waiting c.state ≡ false)

  abbrev Inv : Map → Type 0
  Inv m = (k : Key) (c : Conn SocketInfo Role) → get m k ≡ some c → Good c

  insert-Inv : (m : Map) (c : Conn SocketInfo Role) → Good c → Inv m → Inv (insert m c).0
  insert-Inv m c g v j d h = ground (arith, s.get-insert m c j, v j d)

  remove-Inv : (m : Map) (k : Key) → Inv m → Inv (remove m k)
  remove-Inv m k v j d h = ground (arith, s.get-remove m k j, v j d)

  write-Inv :
      (m : Map) (k : Key) (c c' : Conn SocketInfo Role)
      → get m k ≡ some c
      → Good c'
      → Inv m
      → Inv (write m k c')
  write-Inv m k c c' e g v j d h = ground (arith, s.get-write m k c' c j e, v j d)

  -- What one operation may make of the connection under a key.
  one_of :
      (m m' : Map) (k : Key) (c c' : Conn SocketInfo Role)
      → get m k ≡ some c
      → Good c'
      → (m' ≡ m) ⊎ ((m' ≡ remove m k) ⊎ (m' ≡ write m k c'))
      → Inv m
      → Inv m'
  one_of m m' k c c' e g (inl p) v = subst Inv (sym p) v
  one_of m m' k c c' e g (inr (inl p)) v = subst Inv (sym p) (remove-Inv m k v)
  one_of m m' k c c' e g (inr (inr p)) v = subst Inv (sym p) (write-Inv m k c c' e g v)

  abort_one_cases :
      (m : Map) (k : Key) (t : ℕ) (c : Conn SocketInfo Role)
      → get m k ≡ some c
      → let m' = (abort_one env s m k t).0 in
        (m' ≡ m) ⊎ ((m' ≡ remove m k) ⊎ (m' ≡ write m k (record c { state = aborting })))
  unfolding abort_one
  abort_one_cases m k t c e = ground arith

  abort_one-Inv : (m : Map) (k : Key) (t : ℕ) → Inv m → Inv (abort_one env s m k t).0
  unfolding abort_one
  abort_one-Inv m k t v = elim (Option-cases (get m k)) [
    | inl e ↦ rw (e, abort_one) v
    | inr (c, e) ↦
        one_of m _ k c (record c { state = aborting }) e (inr refl) (abort_one_cases m k t c e) v
  ]

  abort-Inv : (m : Map) (ks : List Key) (t : ℕ) → Inv m → Inv (abort_by_transport env s m ks t).0
  unfolding abort_by_transport
  abort-Inv m [] t v = v
  abort-Inv m (k ∷ ks) t v = abort-Inv (abort_one env s m k t).0 ks t (abort_one-Inv m k t v)

  manage_state-Inv :
      (m : Map) (k : Key) (c : Conn SocketInfo Role) (st : State) (now : ℕ)
      → get m k ≡ some c
      → c.state ≡ st
      → Inv m
      → Inv (manage_state env s m k c st now).0
  unfolding manage_state insert_establishing
  manage_state-Inv m k c (new at) now e q v = elim (Bool-cases (leb at now)) [
    | inl due ↦ rw due (write-Inv m k c (record c { state = establishing }) e (inr refl) v)
    | inr early ↦ rw early v
  ]
  manage_state-Inv m k c (State.failed at) now e q v = elim (Bool-cases (leb at now)) [
    | inl due ↦ rw due (insert-Inv (remove m k) _ (inr refl) (remove-Inv m k v))
    | inr early ↦ rw early v
  ]
  manage_state-Inv m k c establishing now e q v = v
  manage_state-Inv m k c established now e q v = v
  manage_state-Inv m k c accepted now e q v = v
  manage_state-Inv m k c aborting now e q v = v

  manage_done :
      (m : Map) (k : Key) (now : ℕ) {r : Map × Option ℕ × Option Key}
      → manage_connection env s m k now ≡ done r
      → (c : Conn SocketInfo Role) × (get m k ≡ some c) × (r ≡ manage_state env s m k c c.state now)
  unfolding manage_connection
  manage_done m k now {r = r} h = elim (Option-cases (get m k)) [
    | inl e ↦
        let h' : ◌≡◌ {A = Run (Map × Option ℕ × Option Key)} panic (done r) =
          rw (e, manage_connection) at h in
        absurd cc
    | inr (c, e) ↦ (c, e, sym (done_injective (rw (e, manage_connection) at h)))
  ]

  fail_cases :
      (m m' : Map) (k : Key) (now : ℕ) (c : Conn SocketInfo Role)
      → get m k ≡ some c
      → on_connection_failed env s m k now ≡ done m'
      → (c' : Conn SocketInfo Role) × Good c'
        × ((m' ≡ m) ⊎ ((m' ≡ remove m k) ⊎ (m' ≡ write m k c')))
  unfolding on_connection_failed fail
  fail_cases m m' k now c e h = elim (Option-cases (env.checked_add now env.reconnect_interval)) [
    | inl p ↦ (record c { state = aborting }, inr refl, ground arith)
    | inr (at, p) ↦ elim (Bool-cases (is_incoming c.transport.direction)) [
      | inl q ↦ (record c { state = aborting }, inr refl, ground arith)
      | inr q ↦ (record c { state = State.failed at }, inl (ground arith), ground arith)
    ]
  ]

  fails-Inv :
      (m m' : Map) (k : Key) (now : ℕ)
      → on_connection_failed env s m k now ≡ done m'
      → Inv m
      → Inv m'
  unfolding on_connection_failed
  fails-Inv m m' k now h v = elim (Option-cases (get m k)) [
    | inl e ↦ subst Inv (done_injective (rw (e, on_connection_failed) at h)) v
    | inr (c, e) ↦
        let (c', g, cases) = fail_cases m m' k now c e h in one_of m m' k c c' e g cases v
  ]

  abbrev joined : Conn SocketInfo Role → SocketInfo → Conn SocketInfo Role
  joined c info = record c { socket_info = new_info env s c.socket_info info; state = established }

  establish_cases :
      (m m' : Map) (k : Key) (info : SocketInfo) (d : EstablishDecision) (c : Conn SocketInfo Role)
      → get m k ≡ some c
      → on_connection_established env s m k info ≡ some (m', d)
      → (m' ≡ m) ⊎ ((m' ≡ remove m k) ⊎ (m' ≡ write m k (joined c info)))
  unfolding on_connection_established
  establish_cases m m' k info d c e h = ground arith

  establishes-Inv :
      (m m' : Map) (k : Key) (info : SocketInfo) (d : EstablishDecision)
      → on_connection_established env s m k info ≡ some (m', d)
      → Inv m
      → Inv m'
  unfolding on_connection_established
  establishes-Inv m m' k info d h v = elim (Option-cases (get m k)) [
    | inl e ↦
        let h' : ◌≡◌ {A = Option (Map × EstablishDecision)} none (some (m', d)) =
          rw (e, on_connection_established) at h in
        absurd cc
    | inr (c, e) ↦
        one_of m m' k c (joined c info) e (inr refl) (establish_cases m m' k info d c e h) v
  ]

  Step-Inv : {m m' : Map} → Step m m' → Inv m → Inv m'
  unfolding insert_new insert_establishing on_connection_accepted
  Step-Inv (inserts m role t now) v = insert-Inv m _ (inl refl) v
  Step-Inv (accepts m role t) v = insert-Inv m _ (inr refl) v
  Step-Inv (aborts m ks t) v = abort-Inv m ks t v
  Step-Inv (manages m k now h) v =
      let (c, e, p) = manage_done m k now h in
      subst (λ r. Inv r.0) (sym p) (manage_state-Inv m k c c.state now e refl v)
  Step-Inv (fails m k now h) v = fails-Inv m _ k now h v
  Step-Inv (establishes m k info h) v = establishes-Inv m _ k info _ h v
  Step-Inv (roles m k role) v = elim (Option-cases (get m k)) [
    | inl e ↦ rw (e, on_connection_accepted) v
    | inr (c, e) ↦
        rw (e, on_connection_accepted)
          (write-Inv m k c (record c { role = role; state = accepted }) e (inr refl) v)
  ]

  Reach-Inv : {m : Map} → Reach m → Inv m
  Reach-Inv here = λ k c h. absurd (ground (arith, s.get-empty k))
  Reach-Inv (next r st) = Step-Inv st (Reach-Inv r)

  -- However the operations interleave, a connection that waits to be opened or to be opened again
  -- is an outgoing one, so this node never opens a connection that its peer made. The callers
  -- insert only outgoing connections as new.
  pub waiting_is_outgoing :
      (m : Map) (k : Key) (c : Conn SocketInfo Role)
      → Reach m
      → get m k ≡ some c
      → is_waiting c.state ≡ true
      → c.transport.direction ≡ outgoing
  waiting_is_outgoing m k c r h w = let good = Reach-Inv r k c h in ground arith
