-- ===== src/Core/Restarting/Retries.antt =====
-- elfo-core/src/restarting/backoff.rs under the supervisor: how often an actor is restarted.
use elfo.Base.{
  ℕ, suc, ◌+◌, ◌-◌, ◌≤◌, ◌<◌, min, ◌≡◌, refl, ◌⊎◌, inl, inr, Bool, true, false, ◌&&◌, Option, none,
  some, List, [], ◌∷◌, arith, ltb, leb, Bool-cases, if◌then◌else◌, length,
}
use elfo.Core.Restarting.{
  ActorStatusKind, Floats, RestartBackoff, unwrap_or, start, RestartParams, RestartMode,
  restarting_allowed, restart_params, WhenConfig, make_policy, next, restart_after,
}

abbrev pub all_below : ℕ → List ℕ → Bool
all_below bound [] = true
all_below bound (n ∷ ns) = ltb n bound && all_below bound ns

-- One restart more, if there is a delay.
abbrev pub count_if : Option ℕ → ℕ → ℕ
count_if none n = 0
count_if (some delay) n = suc n

leb_cases : (m n : ℕ) → (m ≤ n) ⊎ (n < m)
leb_cases m n = elim (Bool-cases (leb m n)) [
  | inl e ↦ inl (ground arith)
  | inr e ↦ inr (ground arith)
]

module _ (floats : Floats) where
  -- The restarts of an actor that ends with a status after each of the given lifetimes, as long as
  -- it is restarted.
  unfoldable pub restarts :
      Option (RestartMode floats)
      → Option (WhenConfig floats)
      → RestartMode floats
      → Bool
      → ActorStatusKind
      → List ℕ
      → RestartBackoff
      → ℕ
  restarts own config blueprint stop_spawning status [] b = 0
  restarts own config blueprint stop_spawning status (life ∷ lives) b =
      let end = b.start_time + life in
      let (b', delay) = restart_after floats own config blueprint stop_spawning status b end in
      let rest =
        restarts own config blueprint stop_spawning status lives
          (start b' (end + unwrap_or delay 0)) in
      count_if delay rest

  next-denied :
      (b : RestartBackoff) (p : RestartParams floats) (life : ℕ)
      → life < p.auto_reset
      → p.max_retries < b.restart_count + 1
      → (next floats b p (b.start_time + life)).1 ≡ none
  unfolding next
  next-denied b p life soon limit =
      let fresh : leb p.auto_reset (b.start_time + life - b.start_time) ≡ false = ground arith in
      let over : ltb p.max_retries (b.restart_count + 1) ≡ true = ground arith in
      rw (fresh, over) refl

  next-granted :
      (b : RestartBackoff) (p : RestartParams floats) (life : ℕ)
      → life < p.auto_reset
      → b.restart_count + 1 ≤ p.max_retries
      → (delay : ℕ) × (next floats b p (b.start_time + life)
          ≡ (record b { restart_count = b.restart_count + 1; power = b.power + 1 }, some delay))
  unfolding next
  next-granted b p life soon limit =
      let fresh : leb p.auto_reset (b.start_time + life - b.start_time) ≡ false = ground arith in
      let under : ltb p.max_retries (b.restart_count + 1) ≡ false = ground arith in
      (
        unwrap_or (floats.clamped_delay p.min_backoff p.max_backoff p.factor b.power) p.max_backoff,
        rw (fresh, under) refl,
      )

  restart_after-next :
      (own : Option (RestartMode floats)) (config : Option (WhenConfig floats))
      (blueprint : RestartMode floats) (status : ActorStatusKind) (p : RestartParams floats)
      (b : RestartBackoff) (now : ℕ)
      → let policy = unwrap_or own (unwrap_or (make_policy floats config) blueprint) in
        restarting_allowed floats policy status ≡ true
        → restart_params floats policy ≡ some p
        → restart_after floats own config blueprint false status b now ≡ next floats b p now
  unfolding restart_after
  restart_after-next own config blueprint status p b now allowed params = rw (allowed, params) refl

  counted :
      (own : Option (RestartMode floats)) (config : Option (WhenConfig floats))
      (blueprint : RestartMode floats) (status : ActorStatusKind) (p : RestartParams floats)
      (lives : List ℕ) (b : RestartBackoff)
      → let policy = unwrap_or own (unwrap_or (make_policy floats config) blueprint) in
        restarting_allowed floats policy status ≡ true
        → restart_params floats policy ≡ some p
        → all_below p.auto_reset lives ≡ true
        → b.restart_count ≤ p.max_retries
        → restarts own config blueprint false status lives b
          ≡ min (length lives) (p.max_retries - b.restart_count)
  unfolding restarts start
  counted own config blueprint status p [] b allowed params short le = omega arith
  counted own config blueprint status p (life ∷ lives) b allowed params short le =
      let end = b.start_time + life in
      let decided = restart_after-next own config blueprint status p b end allowed params in
      let soon : life < p.auto_reset = ground arith in
      let later : all_below p.auto_reset lives ≡ true = ground arith in
      elim (leb_cases (b.restart_count + 1) p.max_retries) [
        | inl limit ↦
            let (delay, granted) = next-granted b p life soon limit in
            let b' = record b { restart_count = b.restart_count + 1; power = b.power + 1 } in
            let rest =
              counted own config blueprint status p lives (record b' { start_time = end + delay })
                allowed params later limit in
            rw (decided, granted) (omega (arith, rest))
        | inr limit ↦
            let denied = next-denied b p life soon limit in rw (decided, denied) (omega arith)
      ]

  never_stopped :
      (own : Option (RestartMode floats)) (config : Option (WhenConfig floats))
      (blueprint : RestartMode floats) (status : ActorStatusKind) (lives : List ℕ)
      (b : RestartBackoff)
      → restarts own config blueprint true status lives b ≡ 0
  unfolding restarts restart_after
  never_stopped own config blueprint status [] b = refl
  never_stopped own config blueprint status (life ∷ lives) b =
      let policy = unwrap_or own (unwrap_or (make_policy floats config) blueprint) in
      elim (Bool-cases (restarting_allowed floats policy status)) [
        | inl e ↦ rw e refl
        | inr e ↦ rw e refl
      ]

  -- An actor is restarted after each end until the limit of retries is reached, when its policy, be
  -- it its own, that of the configuration or that of the blueprint, allows to restart it, and each
  -- of its lives is shorter than the time after which the backoff is reset; but never in a group that
  -- has stopped to spawn.
  pub restarts_counted :
      (own : Option (RestartMode floats)) (config : Option (WhenConfig floats))
      (blueprint : RestartMode floats) (stop_spawning : Bool) (status : ActorStatusKind)
      (p : RestartParams floats) (lives : List ℕ) (b : RestartBackoff)
      → let policy = unwrap_or own (unwrap_or (make_policy floats config) blueprint) in
        restarting_allowed floats policy status ≡ true
        → restart_params floats policy ≡ some p
        → all_below p.auto_reset lives ≡ true
        → b.restart_count ≤ p.max_retries
        → restarts own config blueprint stop_spawning status lives b
          ≡ (if stop_spawning then 0 else min (length lives) (p.max_retries - b.restart_count))
  restarts_counted own config blueprint true status p lives b allowed params short le =
      never_stopped own config blueprint status lives b
  restarts_counted own config blueprint false status p lives b allowed params short le =
      counted own config blueprint status p lives b allowed params short le
