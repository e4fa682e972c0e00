-- ===== src/Core/Interval/Plan.antt =====
-- elfo-core/src/time/interval.rs: the ticks of an interval against a plan of them.
use elfo.Base.{
  ℕ, suc, ◌+◌, ◌-◌, ◌≤◌, ◌≡◌, refl, ap, ◌∙◌, Bool, true, false, not, ◌&&◌, ◌||◌, Option, none, some,
  List, [], ◌∷◌, arith, ◌==◌, leb, if◌then◌else◌, Run, done, ◌>>=◌,
}
use elfo.Core.Interval
use elfo.Core.Interval.{IntervalSource, never}

-- The plan: no ticks, or a first tick and then periods, or periods from an origin.
pub data Mode : Type 0 where
  stopped : Mode
  delayed : ℕ → ℕ → Mode
  periodic : ℕ → ℕ → Mode

pub data Op (M : Type 0) : Type 0 where
  sets_message : M → Op M
  sets_period : ℕ → Op M
  starts : ℕ → ℕ → Op M
  starts_at : ℕ → ℕ → ℕ → Op M
  starts_after : ℕ → ℕ → ℕ → Op M
  stops : ℕ → Op M
  terminates : Op M
  polls : ℕ → Op M

pub record Timetable (M : Type 0) : Type 0 where
  pub mode : Mode
  pub text : M
  pub ended : Bool

abbrev with_period : Mode → ℕ → Mode
with_period stopped p = stopped
with_period (delayed first q) p = delayed first p
with_period (periodic origin q) p = periodic origin p

abbrev pub prepend : {A : Type 0} → Option A → List A → List A
prepend none rest = rest
prepend (some a) rest = a ∷ rest

and_both : (b c : Bool) → b && c ≡ true → (b ≡ true) × (c ≡ true)
and_both true c h = (refl, h)
and_both false c h = cc

module _ {M : Type 0} (elapsed : ℕ → ℕ → Bool) (latest far_future : ℕ) where
  abbrev tick_due : Timetable M → ℕ → ℕ → ℕ → Timetable M × Option (ℕ × M)
  tick_due t due period now =
      if elapsed due now
      then (record t { mode = periodic due period }, some (due, t.text))
      else (t, none)

  abbrev tick : Timetable M → ℕ → Mode → Timetable M × Option (ℕ × M)
  tick t now stopped = (t, none)
  tick t now (delayed first p) = tick_due t first p now
  tick t now (periodic origin p) = tick_due t (origin + p) p now

  abbrev plan_live : Timetable M → Op M → Timetable M × Option (ℕ × M)
  plan_live t (sets_message m) = (record t { text = m }, none)
  plan_live t (sets_period p) = (record t { mode = with_period t.mode p }, none)
  plan_live t (starts now p) = (record t { mode = periodic now p }, none)
  plan_live t (starts_at first now p) = (record t { mode = delayed first p }, none)
  plan_live t (starts_after d now p) = (record t { mode = delayed (now + d) p }, none)
  plan_live t (stops now) = (record t { mode = stopped }, none)
  plan_live t terminates = (record t { ended = true }, none)
  plan_live t (polls now) = tick t now t.mode

  abbrev pub plan : Timetable M → Op M → Timetable M × Option (ℕ × M)
  plan t op = if t.ended then (t, none) else plan_live t op

  -- The ticks of the plan, each with the time at which it is due.
  abbrev pub plan_ticks : Timetable M → List (Op M) → List (ℕ × M)
  plan_ticks t [] = []
  plan_ticks t (op ∷ ops) = let (t', ticked) = plan t op in prepend ticked (plan_ticks t' ops)

  -- A period is not zero, and no time that is computed is after the latest instant.
  abbrev fits_after : Timetable M → Mode → ℕ → Bool
  fits_after t stopped p = true
  fits_after t (delayed first q) p = true
  fits_after t (periodic origin q) p = t.ended || leb (origin + p) latest

  abbrev tick_fits : Timetable M → Mode → ℕ → Bool
  tick_fits t stopped now = true
  tick_fits t (delayed first p) now = t.ended || not (elapsed first now) || leb (first + p) latest
  tick_fits t (periodic origin p) now =
      t.ended || not (elapsed (origin + p) now) || leb (origin + p + p) latest

  abbrev pub op_fits : Timetable M → Op M → Bool
  op_fits t (sets_period p) = not (p == 0) && fits_after t t.mode p
  op_fits t (starts now p) = not (p == 0) && (t.ended || leb (now + p) latest)
  op_fits t (starts_at first now p) = not (p == 0)
  op_fits t (starts_after d now p) = not (p == 0) && leb (now + d) latest
  op_fits t (polls now) = tick_fits t t.mode now
  op_fits t op = true

  abbrev pub all_fit : Timetable M → List (Op M) → Bool
  all_fit t [] = true
  all_fit t (op ∷ ops) = op_fits t op && all_fit (plan t op).0 ops

  abbrev silent : Run (IntervalSource M) → Run (IntervalSource M × Option (ℕ × M))
  silent r = r >>= (λ s. done (s, none))

  unfoldable pub run : IntervalSource M → Op M → Run (IntervalSource M × Option (ℕ × M))
  unfolding Interval.set_message Interval.set_period Interval.start Interval.start_at
      Interval.start_after Interval.stop Interval.terminate Interval.poll_next
  run s (sets_message m) = done (Interval.set_message s m, none)
  run s (sets_period p) = silent (Interval.set_period latest s p)
  run s (starts now p) = silent (Interval.start latest s now p)
  run s (starts_at first now p) = silent (Interval.start_at latest s first now p)
  run s (starts_after d now p) = silent (Interval.start_after latest s d now p)
  run s (stops now) = silent (Interval.stop latest far_future s now)
  run s terminates = done ((Interval.terminate s).0, none)
  run s (polls now) = Interval.poll_next latest elapsed s now

  unfoldable pub run_all : IntervalSource M → List (Op M) → Run (List (ℕ × M))
  unfolding run
  run_all s [] = done []
  run_all s (op ∷ ops) =
      run s op >>= (λ (s', ticked). run_all s' ops >>= (λ ticks. done (prepend ticked ticks)))

  abbrev mode_of : IntervalSource M → Mode
  mode_of s =
      if s.period == never
      then stopped
      else (if s.is_delayed
          then delayed s.deadline s.period
          else periodic (s.deadline - s.period) s.period)

  abbrev table_of : IntervalSource M → Timetable M
  table_of s = record { mode = mode_of s; text = s.message; ended = s.is_terminated }

  -- The origin of the current period is not before the start of time.
  abbrev Sound : IntervalSource M → Type 0
  Sound s = s.is_delayed ≡ false → s.period ≤ s.deadline

  -- The source does what the plan says.
  record Follows (s : IntervalSource M) (op : Op M) (s' : IntervalSource M) : Type 0 where
    ran : run s op ≡ done (s', (plan (table_of s) op).1)
    same : table_of s' ≡ (plan (table_of s) op).0
    sound : Sound s'

  -- What a change of the period leads to.
  abbrev moved : IntervalSource M → ℕ → IntervalSource M
  moved s p =
      if s.is_terminated
      then s
      else (if s.period == never || p == s.period
          then s
          else (if not s.is_delayed
              then record s {
                deadline = s.deadline - s.period + p;
                period = p;
                wakes = suc s.wakes;
              }
              else record s { period = p }))

  set_period-moved :
      (s : IntervalSource M) (p : ℕ)
      → Sound s
      → op_fits (table_of s) (sets_period p) ≡ true
      → Interval.set_period latest s p ≡ done (moved s p)
  unfolding Interval.set_period
  set_period-moved s p i a = ground arith

  abbrev scheduled : IntervalSource M → Bool → ℕ → ℕ → IntervalSource M
  scheduled s is_delayed deadline p = if s.is_terminated then s else record s {
    is_delayed = is_delayed;
    period = p;
    deadline = deadline;
    wakes = suc s.wakes;
  }

  abbrev ticked : IntervalSource M → ℕ → IntervalSource M
  ticked s now =
      if s.is_terminated || s.period == never || not (elapsed s.deadline now)
      then s
      else record s { is_delayed = false; deadline = s.deadline + s.period }

  follow :
      (s : IntervalSource M) (op : Op M)
      → Sound s
      → op_fits (table_of s) op ≡ true
      → (s' : IntervalSource M) × Follows s op s'
  unfolding run Interval.set_message Interval.start Interval.start_at Interval.start_after
      Interval.schedule Interval.stop Interval.terminate Interval.poll_next Interval.poll_recv
  follow s (sets_message m) i a = (
    Interval.set_message s m,
    record { ran = ground arith; same = ground arith; sound = ground arith },
  )
  follow s (sets_period p) i a =
      (moved s p, record { ran = ground arith; same = ground arith; sound = ground arith })
  follow s (starts now p) i a = (
    scheduled s false (now + p) p,
    record { ran = ground arith; same = ground arith; sound = ground arith },
  )
  follow s (starts_at first now p) i a = (
    scheduled s true first p,
    record { ran = ground arith; same = ground arith; sound = ground arith },
  )
  follow s (starts_after d now p) i a = (
    scheduled s true (now + d) p,
    record { ran = ground arith; same = ground arith; sound = ground arith },
  )
  follow s (stops now) i a = (
    scheduled s true far_future never,
    record { ran = ground arith; same = ground arith; sound = ground arith },
  )
  follow s terminates i a = (
    (Interval.terminate s).0,
    record { ran = ground arith; same = ground arith; sound = ground arith },
  )
  follow s (polls now) i a =
      (ticked s now, record { ran = ground arith; same = ground arith; sound = ground arith })

  follow_all :
      (s : IntervalSource M) (ops : List (Op M))
      → Sound s
      → all_fit (table_of s) ops ≡ true
      → run_all s ops ≡ done (plan_ticks (table_of s) ops)
  unfolding run_all
  follow_all s [] i a = refl
  follow_all s (op ∷ ops) i a =
      let t = table_of s in
      let (now, later) = and_both (op_fits t op) (all_fit (plan t op).0 ops) a in
      let (s', f) = follow s op i now in
      let rest = follow_all s' ops f.sound (ap (λ t. all_fit t ops) f.same ∙ later) in
      ap (λ r. r >>= (λ (s', ticked). run_all s' ops >>= (λ ticks. done (prepend ticked ticks))))
        f.ran
      ∙ ap (λ r. r >>= (λ ticks. done (prepend (plan t op).1 ticks))) rest
      ∙ ap (λ t'. done (prepend (plan t op).1 (plan_ticks t' ops))) f.same

  -- In any sequence of calls of an interval and of polls of its stream, in which no period is zero
  -- and no time that is computed is after the latest instant, nothing panics and the messages are
  -- emitted that the plan has, each due at the time of the plan: the first one a period after a
  -- start or at the time given, each further one a period after the time at which the last one was
  -- due, however late that was polled. A change of the period moves the next tick to one new period
  -- after the origin of the current one, but not a first tick at a given time. Stopping ends the
  -- ticks until the next start, terminating for ever.
  pub ticks_follow_plan :
      (message : M) (ops : List (Op M))
      → let t : Timetable M = record { mode = stopped; text = message; ended = false } in
        all_fit t ops ≡ true
        → run_all (Interval.new_interval far_future message) ops ≡ done (plan_ticks t ops)
  unfolding Interval.new_interval
  ticks_follow_plan message ops h =
      follow_all (Interval.new_interval far_future message) ops (λ started. ground arith) h
