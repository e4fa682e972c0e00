-- ===== src/Network/FlowControl/Rx.antt =====
-- What the calls of the receiver's window do, on every branch of flow_control.rs.
use elfo.Base.{
  ℕ, zero, suc, ◌+◌, ◌-◌, ◌/◌, ◌^◌, ◌≤◌, ◌<◌, min, ◌≡◌, Bool, true, Option, none, some, List, [],
  ◌∷◌, arith, if◌then◌else◌, Run, done, panic, ◌>>=◌,
}
use elfo.Base.Int.{
  ℤ, pos, negsuc, ◌+ℤ◌, ◌-ℤ◌, ◌*ℤ◌, ◌≤ℤ◌, ◌<ℤ◌, eqb_ℤ, quot, in_i32, i32_min, wrap_i32, checked,
  saturate, wrap_i32-eq_self,
}
use elfo.Network.FlowControl.{RxFlowControl, rx_acquire, rx_update, rx_release}

-- The credit that an update carries.
abbrev pub delta_of : Option ℤ → ℤ
delta_of none = pos 0
delta_of (some d) = d

-- What is assumed of the numbers: two i32 fields.
pub record IsI32 (c : RxFlowControl) : Type 0 where
  pub tx_fits : in_i32 c.tx_window ≡ true
  pub rx_fits : in_i32 c.rx_window ≡ true

pub rx_acquire_lem :
    (c c' : RxFlowControl) (tx_knows : Bool)
    → IsI32 c
    → rx_acquire c tx_knows ≡ done c'
    → (c'.tx_window ≡ (if tx_knows then c.tx_window -ℤ pos 1 else c.tx_window))
      × (c'.rx_window ≡ c.rx_window -ℤ pos 1)
      × IsI32 c'
unfolding rx_acquire checked ◌-ℤ◌
rx_acquire_lem c c' tx_knows v h = ground arith

rx_update_accounts :
    (c : RxFlowControl)
    → IsI32 c
    → ((rx_update c).0.rx_window ≡ c.rx_window)
      × ((rx_update c).0.tx_window ≡ c.tx_window +ℤ delta_of (rx_update c).1)
      × IsI32 (rx_update c).0
unfolding rx_update ◌-ℤ◌ ◌+ℤ◌ ◌*ℤ◌ quot wrap_i32 saturate
rx_update_accounts c v = ground arith

-- The arithmetic of an advertisement, on the two signs of the window that the sender knows of.
threshold_pos : (t : ℕ) → quot (pos t) 2 *ℤ pos 1 ≡ pos (t / 2)
unfolding quot ◌*ℤ◌
threshold_pos t = ground arith

threshold_negsuc : (t : ℕ) → quot (negsuc t) 2 *ℤ pos 1 ≤ℤ pos 0
unfolding quot ◌*ℤ◌
threshold_negsuc t = ground arith

gap_pos : (t r : ℕ) → r < 2 ^ 31 → t < r → saturate (pos r -ℤ pos t) ≡ pos (r - t)
unfolding saturate ◌-ℤ◌
gap_pos t r h k = ground arith

gap_negsuc : (t r : ℕ) → saturate (pos r -ℤ negsuc t) ≡ pos (min (r + suc t) (2 ^ 31 - 1))
unfolding saturate ◌-ℤ◌
gap_negsuc t r = ground arith

no_stall_pos :
    (t r : ℕ)
    → r < 2 ^ 31
    → 0 < r
    → pos 0 <ℤ (rx_update (record { tx_window = pos t; rx_window = pos r })).0.tx_window
unfolding rx_update ◌+ℤ◌
no_stall_pos t r w h =
    ground (arith, threshold_pos t, gap_pos t r, wrap_i32-eq_self (pos t +ℤ pos (r - t)))

no_stall_negsuc :
    (t r : ℕ)
    → t ≤ 2 ^ 31 - 3
    → r < 2 ^ 31
    → 0 < r
    → pos 0 <ℤ (rx_update (record { tx_window = negsuc t; rx_window = pos r })).0.tx_window
unfolding rx_update ◌+ℤ◌
no_stall_negsuc t r v w h = ground (
  arith,
  threshold_negsuc t,
  gap_negsuc t r,
  wrap_i32-eq_self (negsuc t +ℤ pos (min (r + suc t) (2 ^ 31 - 1))),
)

update_no_stall :
    (tx rx : ℤ)
    → in_i32 rx ≡ true
    → negsuc (2 ^ 31 - 3) ≤ℤ tx
    → pos 0 <ℤ rx
    → pos 0 <ℤ (rx_update (record { tx_window = tx; rx_window = rx })).0.tx_window
update_no_stall (pos t) (pos r) w d h = no_stall_pos t r (ground arith) (omega arith)
update_no_stall (negsuc t) (pos r) w d h =
    no_stall_negsuc t r (omega arith) (ground arith) (omega arith)
update_no_stall tx (negsuc r) w d h = absurd (omega arith)

rx_release-rx_update :
    (c : RxFlowControl) {r : RxFlowControl × Option ℤ} (delta : ℤ)
    → rx_release c delta ≡ done r
    → (in_i32 (c.rx_window +ℤ delta) ≡ true)
      × (r ≡ rx_update (record c { rx_window = c.rx_window +ℤ delta }))
unfolding rx_release checked
rx_release-rx_update c delta h = ground arith

-- A release adds its argument to the receiver's window, and moves the window that the sender knows
-- of by exactly the update that it returns, by nothing if it returns none; both stay in the range
-- of an i32. The release must not panic, which it does when the receiver's window overflows.
pub rx_release_accounts :
    (c c' : RxFlowControl) (delta : ℤ) (u : Option ℤ)
    → IsI32 c
    → rx_release c delta ≡ done (c', u)
    → (c'.rx_window ≡ c.rx_window +ℤ delta) × (c'.tx_window ≡ c.tx_window +ℤ delta_of u) × IsI32 c'
rx_release_accounts c c' delta u v h =
    let (fits, e) = rx_release-rx_update c delta h in
    let after = record c { rx_window = c.rx_window +ℤ delta } in
    let (a, b, w) = rx_update_accounts after (record { tx_fits = v.tx_fits; rx_fits = fits }) in
    ground arith

-- If a release leaves the receiver's window positive, the window that the sender knows of is
-- positive after it too, whether an update is sent or not. The window that the sender knew of
-- before must be greater than the smallest i32 by two at least.
pub rx_release_no_stall :
    (c c' : RxFlowControl) (delta : ℤ) (u : Option ℤ)
    → IsI32 c
    → rx_release c delta ≡ done (c', u)
    → negsuc (2 ^ 31 - 3) ≤ℤ c.tx_window
    → pos 0 <ℤ c'.rx_window
    → pos 0 <ℤ c'.tx_window
rx_release_no_stall c c' delta u v h low room =
    let (fits, e) = rx_release-rx_update c delta h in
    let after = record c { rx_window = c.rx_window +ℤ delta } in
    let iv : IsI32 after = record { tx_fits = v.tx_fits; rx_fits = fits } in
    let (a, _, _) = rx_update_accounts after iv in
    ground (arith, update_no_stall c.tx_window after.rx_window)

-- A message that is received and processed at once, with the update that is sent.
abbrev pub round_trip : RxFlowControl → Run (RxFlowControl × Option ℤ)
round_trip c = do c' ← rx_acquire c true; rx_release c' (pos 1)

abbrev pub or_silent : Option ℤ → List ℤ → List ℤ
or_silent none us = us
or_silent (some u) us = u ∷ us

-- The state after, and the updates that are sent.
abbrev pub round_trips : ℕ → RxFlowControl → Run (RxFlowControl × List ℤ)
round_trips zero c = done (c, [])
round_trips (suc n) c = do
  (c', u) ← round_trip c
  (c'', us) ← round_trips n c'
  done (c'', or_silent u us)

round_trip_backlog :
    (c : RxFlowControl)
    → IsI32 c
    → i32_min <ℤ c.rx_window
    → c.rx_window ≤ℤ pos 0
    → round_trip c ≡ (
        if eqb_ℤ c.tx_window i32_min
        then panic
        else done (record c { tx_window = c.tx_window -ℤ pos 1 }, none))
unfolding rx_acquire rx_release rx_update checked ◌-ℤ◌ ◌+ℤ◌
round_trip_backlog c v low full = ground arith

round_trips_done :
    (m n : ℕ) (c : RxFlowControl)
    → IsI32 c
    → i32_min <ℤ c.rx_window
    → c.rx_window ≤ℤ pos 0
    → c.tx_window ≡ i32_min +ℤ pos (m + n)
    → round_trips m c ≡ done (record c { tx_window = i32_min +ℤ pos n }, [])
unfolding ◌+ℤ◌ ◌-ℤ◌
round_trips_done zero n c v low full e = ground arith
round_trips_done (suc m) n c v low full e =
    rw (round_trip_backlog c v low full)
      (ground (arith, round_trips_done m n (record c { tx_window = c.tx_window -ℤ pos 1 })))

round_trips_panic :
    (n : ℕ) (c : RxFlowControl)
    → IsI32 c
    → i32_min <ℤ c.rx_window
    → c.rx_window ≤ℤ pos 0
    → c.tx_window ≡ i32_min +ℤ pos n
    → round_trips (suc n) c ≡ panic
unfolding ◌+ℤ◌ ◌-ℤ◌
round_trips_panic zero c v low full e = rw (round_trip_backlog c v low full) (ground arith)
round_trips_panic (suc n) c v low full e =
    rw (round_trip_backlog c v low full)
      (ground (arith, round_trips_panic n (record c { tx_window = c.tx_window -ℤ pos 1 })))

-- While the receiver's window is not positive, receiving a message and processing it sends no
-- update and lowers the window that the sender knows of by one. So, from m + n above the smallest
-- i32, m messages bring it down to n above without any update, and with m + n messages and one more the code panics,
-- although each message was processed at once. The receiver's window must not be the smallest i32.
pub backlog_underflows :
    (m n : ℕ) (c : RxFlowControl)
    → IsI32 c
    → i32_min <ℤ c.rx_window
    → c.rx_window ≤ℤ pos 0
    → c.tx_window ≡ i32_min +ℤ pos (m + n)
    → (round_trips m c ≡ done (record c { tx_window = i32_min +ℤ pos n }, []))
      × (round_trips (suc (m + n)) c ≡ panic)
backlog_underflows m n c v low full e =
    (round_trips_done m n c v low full e, round_trips_panic (m + n) c v low full e)
