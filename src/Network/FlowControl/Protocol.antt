-- ===== src/Network/FlowControl/Protocol.antt =====
-- One flow: the sender's window, the messages and the updates on the way, and the receiver's
-- window. Messages and updates each arrive in the order in which they were sent.
use elfo.Base.{
  ℕ, suc, ◌-◌, ◌^◌, ◌≡◌, sym, ap, ◌∙◌, Bool, true, false, Option, none, some, List, [], ◌∷◌, ◌++◌,
  arith, if◌then◌else◌, done,
}
use elfo.Base.Int.{ℤ, pos, negsuc, ◌+ℤ◌, ◌-ℤ◌, ◌≤ℤ◌, ◌<ℤ◌, int_laws, in_i32, wrap_i32, parts}
use elfo.Network.FlowControl.{
  TxFlowControl, try_acquire, do_acquire, tx_release, RxFlowControl, rx_acquire, rx_release,
}
use elfo.Network.FlowControl.Tx.{do_acquire_lem, tx_release_lem}
use elfo.Network.FlowControl.Rx.{
  delta_of, IsI32, rx_acquire_lem, rx_release_accounts, rx_release_no_stall,
}

pub record Link : Type 0 where
  pub sender : TxFlowControl
  pub messages : ℕ
  pub updates : List ℤ
  pub receiver : RxFlowControl
  -- Received and not yet processed.
  pub pending : ℕ

abbrev pub connected : ℤ → Link
connected initial = record {
  sender = record { window = initial };
  messages = 0;
  updates = [];
  receiver = record { tx_window = initial; rx_window = initial };
  pending = 0;
}

abbrev pub emit : Option ℤ → List ℤ → List ℤ
emit none us = us
emit (some d) us = us ++ d ∷ []

-- `routes` is a message that came by routing, which the sender did not count.
pub data Step : Link → Link → Type 0 where
  sends :
      (l : Link) {c : TxFlowControl}
      → try_acquire l.sender ≡ done (c, true)
      → Step l (record l { sender = c; messages = suc l.messages })
  refuses :
      (l : Link) {c : TxFlowControl}
      → try_acquire l.sender ≡ done (c, false)
      → Step l (record l { sender = c })
  sends_unbounded :
      (l : Link) {c : TxFlowControl}
      → do_acquire l.sender ≡ done c
      → Step l (record l { sender = c; messages = suc l.messages })
  receives :
      (l : Link) {n : ℕ} {c : RxFlowControl}
      → l.messages ≡ suc n
      → rx_acquire l.receiver true ≡ done c
      → Step l (record l { messages = n; receiver = c; pending = suc l.pending })
  routes :
      (l : Link) {c : RxFlowControl}
      → rx_acquire l.receiver false ≡ done c
      → Step l (record l { receiver = c; pending = suc l.pending })
  processes :
      (l : Link) {n : ℕ} {c : RxFlowControl} {u : Option ℤ}
      → l.pending ≡ suc n
      → negsuc (2 ^ 31 - 3) ≤ℤ l.receiver.tx_window
      → rx_release l.receiver (pos 1) ≡ done (c, u)
      → Step l (record l { receiver = c; pending = n; updates = emit u l.updates })
  updates_flow :
      (l : Link) {d : ℤ} {us : List ℤ} {c : TxFlowControl} {positive : Bool}
      → l.updates ≡ d ∷ us
      → tx_release l.sender d ≡ done (c, positive)
      → Step l (record l { sender = c; updates = us })

pub data Reach (s : Link) : Link → Type 0 where
  here : Reach s s
  next : {t u : Link} → Reach s t → Step t u → Reach s u

abbrev pub total : List ℤ → ℤ
total [] = pos 0
total (d ∷ ds) = d +ℤ total ds

total-emit : (u : Option ℤ) (ds : List ℤ) → total (emit u ds) ≡ total ds +ℤ delta_of u
total-emit none ds = omega int_laws
total-emit (some d) [] = omega int_laws
total-emit (some d) (e ∷ ds) = rw (total-emit (some d) ds) (omega int_laws)

pub record Inv (initial : ℤ) (l : Link) : Type 0 where
  pub agreed : l.sender.window +ℤ pos l.messages +ℤ total l.updates ≡ l.receiver.tx_window
  pub owed : l.receiver.rx_window +ℤ pos l.pending ≡ initial
  pub open_end : l.pending ≡ 0 → pos 0 <ℤ l.receiver.rx_window → pos 0 <ℤ l.receiver.tx_window
  pub sender_fits : in_i32 l.sender.window ≡ true
  pub receiver_fits : IsI32 l.receiver

-- `try_acquire` with no other thread between its two operations.
try_acquire_lem :
    (c c' : TxFlowControl) (granted : Bool)
    → in_i32 c.window ≡ true
    → try_acquire c ≡ done (c', granted)
    → (c'.window ≡ (if granted then c.window -ℤ pos 1 else c.window)) × (in_i32 c'.window ≡ true)
unfolding try_acquire wrap_i32 ◌-ℤ◌ ◌+ℤ◌
try_acquire_lem c c' granted v h = ground arith

try_acquire_positive :
    (c : TxFlowControl)
    → pos 0 <ℤ c.window
    → (c' : TxFlowControl) × (try_acquire c ≡ done (c', true))
unfolding try_acquire
try_acquire_positive c h = (record { window = wrap_i32 (c.window -ℤ pos 1) }, ground arith)

sends-Inv :
    {i : ℤ} (l : Link) (c : TxFlowControl)
    → c.window ≡ l.sender.window -ℤ pos 1
    → in_i32 c.window ≡ true
    → Inv i l
    → Inv i (record l { sender = c; messages = suc l.messages })
sends-Inv l c e f v = record {
  agreed = omega (int_laws, parts e, parts v.agreed);
  owed = v.owed;
  open_end = v.open_end;
  sender_fits = f;
  receiver_fits = v.receiver_fits;
}

receives-Inv :
    {i : ℤ} (l : Link) (n : ℕ) (c : RxFlowControl)
    → l.messages ≡ suc n
    → rx_acquire l.receiver true ≡ done c
    → Inv i l
    → Inv i (record l { messages = n; receiver = c; pending = suc l.pending })
receives-Inv l n c e h v =
    let (a, b, f) = rx_acquire_lem l.receiver c true v.receiver_fits h in
    record {
      agreed = omega (int_laws, parts a, parts v.agreed);
      owed = omega (int_laws, parts b, parts v.owed);
      open_end = λ z. absurd (omega arith);
      sender_fits = v.sender_fits;
      receiver_fits = f;
    }

routes-Inv :
    {i : ℤ} (l : Link) (c : RxFlowControl)
    → rx_acquire l.receiver false ≡ done c
    → Inv i l
    → Inv i (record l { receiver = c; pending = suc l.pending })
routes-Inv l c h v =
    let (a, b, f) = rx_acquire_lem l.receiver c false v.receiver_fits h in
    record {
      agreed = v.agreed ∙ sym a;
      owed = omega (int_laws, parts b, parts v.owed);
      open_end = λ z. absurd (omega arith);
      sender_fits = v.sender_fits;
      receiver_fits = f;
    }

processes-Inv :
    {i : ℤ} (l : Link) (n : ℕ) (c : RxFlowControl) (u : Option ℤ)
    → l.pending ≡ suc n
    → negsuc (2 ^ 31 - 3) ≤ℤ l.receiver.tx_window
    → rx_release l.receiver (pos 1) ≡ done (c, u)
    → Inv i l
    → Inv i (record l { receiver = c; pending = n; updates = emit u l.updates })
processes-Inv l n c u e low h v =
    let (a, b, f) = rx_release_accounts l.receiver c (pos 1) u v.receiver_fits h in
    record {
      agreed = rw (total-emit u l.updates) (omega (int_laws, parts b, parts v.agreed));
      owed = omega (int_laws, parts a, parts v.owed);
      open_end = λ _ room. rx_release_no_stall l.receiver c (pos 1) u v.receiver_fits h low room;
      sender_fits = v.sender_fits;
      receiver_fits = f;
    }

updates-Inv :
    {i : ℤ} (l : Link) (d : ℤ) (us : List ℤ) (c : TxFlowControl) (positive : Bool)
    → l.updates ≡ d ∷ us
    → tx_release l.sender d ≡ done (c, positive)
    → Inv i l
    → Inv i (record l { sender = c; updates = us })
updates-Inv l d us c positive e h v =
    let (a, _, f) = tx_release_lem l.sender c d positive h in
    record {
      agreed = omega (int_laws, parts a, parts v.agreed, parts (ap total e));
      owed = v.owed;
      open_end = v.open_end;
      sender_fits = f;
      receiver_fits = v.receiver_fits;
    }

Step-Inv : {i : ℤ} {l m : Link} → Step l m → Inv i l → Inv i m
Step-Inv (sends l h) v =
    let (a, f) = try_acquire_lem l.sender _ true v.sender_fits h in sends-Inv l _ a f v
Step-Inv (refuses l {c = c} h) v =
    let (a, f) = try_acquire_lem l.sender c false v.sender_fits h in
    record {
      agreed = omega (int_laws, parts a, parts v.agreed);
      owed = v.owed;
      open_end = v.open_end;
      sender_fits = f;
      receiver_fits = v.receiver_fits;
    }
Step-Inv (sends_unbounded l h) v =
    let (a, f) = do_acquire_lem l.sender _ v.sender_fits h in sends-Inv l _ a f v
Step-Inv (receives l e h) v = receives-Inv l _ _ e h v
Step-Inv (routes l h) v = routes-Inv l _ h v
Step-Inv (processes l e low h) v = processes-Inv l _ _ _ e low h v
Step-Inv (updates_flow l e h) v = updates-Inv l _ _ _ _ e h v

Reach-Inv : {i : ℤ} {l : Link} → in_i32 i ≡ true → Reach (connected i) l → Inv i l
Reach-Inv h here = record {
  agreed = omega int_laws;
  owed = omega int_laws;
  open_end = λ _ p. p;
  sender_fits = h;
  receiver_fits = record { tx_fits = h; rx_fits = h };
}
Reach-Inv h (next r s) = Step-Inv s (Reach-Inv h r)

-- In every history of a flow in which, whenever a message was processed, the window that the
-- receiver believed the sender to have was greater than the smallest i32 by two at least, the sender's window, the messages on the way and the updates on the
-- way add up to the window that the receiver believes the sender to have, and the receiver's own
-- window is the initial one less the messages not yet processed.
pub Link-agrees :
    (initial : ℤ) (l : Link)
    → in_i32 initial ≡ true
    → Reach (connected initial) l
    → (l.sender.window +ℤ pos l.messages +ℤ total l.updates ≡ l.receiver.tx_window)
      × (l.receiver.rx_window +ℤ pos l.pending ≡ initial)
Link-agrees initial l h r = let v = Reach-Inv h r in (v.agreed, v.owed)

-- A flow cannot deadlock: whenever everything that was sent has been received and processed and no
-- update is on the way, a bounded send is granted. The initial window must be positive. (While
-- messages were processed, the window that the receiver believed the sender to have must have been
-- greater than the smallest i32 by two at least: a premise of the step.)
pub Link-no_deadlock :
    (initial : ℤ) (l : Link)
    → in_i32 initial ≡ true
    → pos 0 <ℤ initial
    → Reach (connected initial) l
    → l.messages ≡ 0
    → l.pending ≡ 0
    → l.updates ≡ []
    → (c : TxFlowControl) × (try_acquire l.sender ≡ done (c, true))
Link-no_deadlock initial l h p r m n e =
    let v = Reach-Inv h r in
    let room : pos 0 <ℤ l.receiver.rx_window = omega (int_laws, parts v.owed) in
    let known = v.open_end n room in
    try_acquire_positive l.sender (omega (int_laws, parts v.agreed, parts (ap total e)))
