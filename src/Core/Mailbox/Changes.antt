-- ===== src/Core/Mailbox/Changes.antt =====
-- elfo-core/src/mailbox.rs: what the operations change in the mailbox.
use elfo.Base.{
  ℕ, ◌+◌, ◌≤◌, ◌≡◌, refl, sym, ap, subst, ◌∙◌, ◌≢◌, ◌⊎◌, inl, inr, Bool, true, false, Option, none,
  some, List, [], ◌∷◌, ◌++◌, arith, ltb, length, ◌==◌, if◌then◌else◌, Run, done, panic, ◌>>=◌,
}
use elfo.Core.Mailbox.{
  Mailbox, TryAcquire, permit, no_permits, SendResult, sent, RecvResult, try_acquire, notify,
  enqueue, dequeue_from, dequeue, try_send, or_trace_id, finish_close, on_close, finish_recv,
  try_recv, clamp_capacity, set_capacity,
}

pub some_injective : {A : Type 0} {a b : A} → Option.some a ≡ Option.some b → a ≡ b
some_injective h = cc

-- The end of `try_recv` on a closed mailbox.
abbrev as_some : {E : Type 0} → Mailbox E × RecvResult E → Run (Mailbox E × Option (RecvResult E))
as_some p = done (p.0, some p.1)

module _ {E : Type 0} where
  pub try_acquire-keeps :
      (m : Mailbox E) {m' : Mailbox E} {r : TryAcquire}
      → try_acquire m ≡ (m', r)
      → (k : ℕ) × (m' ≡ record m { permits = k })
  unfolding try_acquire
  try_acquire-keeps m {m' = m'} h = (m'.permits, ground arith)

  pub dequeue-empty : (m : Mailbox E) → (dequeue m).1 ≡ none → m.queue ≡ []
  unfolding dequeue
  dequeue-empty m h = queue_empty m m.queue h
    where
      queue_empty : (m : Mailbox E) (q : List E) → (dequeue_from m q).1 ≡ none → q ≡ []
      queue_empty m [] h = refl
      queue_empty m (e ∷ q) h = absurd cc

  pub set_capacity-keeps :
      (max_permits : ℕ) (m : Mailbox E) (capacity : ℕ) {m' : Mailbox E}
      → set_capacity max_permits m capacity ≡ done m'
      → (k : ℕ) × (c : ℕ) × (m' ≡ record m { permits = k; capacity = c })
        × (k + m.capacity ≡ m.permits + c)
  unfolding set_capacity clamp_capacity
  set_capacity-keeps max_permits m capacity {m' = m'} h =
      (m'.permits, m'.capacity, ground arith, ground arith)

  pub set_capacity-limited :
      (max_permits : ℕ) (m : Mailbox E) (capacity : ℕ) {m' : Mailbox E}
      → set_capacity max_permits m capacity ≡ done m'
      → m.capacity ≤ max_permits
      → m'.capacity ≤ max_permits
  unfolding set_capacity clamp_capacity
  set_capacity-limited max_permits m capacity h le = ground arith

  pub try_acquire-permit :
      (m : Mailbox E) {m' : Mailbox E} → try_acquire m ≡ (m', permit) → m'.permits + 1 ≡ m.permits
  unfolding try_acquire
  try_acquire-permit m h = ground arith

  pub try_acquire-none :
      (m : Mailbox E) {m' : Mailbox E} → try_acquire m ≡ (m', no_permits) → m' ≡ m
  unfolding try_acquire
  try_acquire-none m h = ground arith

  pub dequeue-some :
      (m : Mailbox E) {m' : Mailbox E} {e : E}
      → dequeue m ≡ (m', some e)
      → (m' ≡ record m { queue = m'.queue }) × (m.queue ≡ e ∷ m'.queue)
  unfolding dequeue
  dequeue-some m h = first m m.queue refl h
    where
      first :
          (m : Mailbox E) (q : List E) {m' : Mailbox E} {e : E}
          → m.queue ≡ q
          → dequeue_from m q ≡ (m', some e)
          → (m' ≡ record m { queue = m'.queue }) × (m.queue ≡ e ∷ m'.queue)
      first m [] s h = absurd cc
      first m (x ∷ q) {m' = m'} s h =
          let moved : record m { queue = q } ≡ m' = ap (λ p. p.0) h in
          let same : q ≡ m'.queue = ap (λ (n : Mailbox E). n.queue) moved in
          let taken = some_injective (ap (λ p. p.1) h) in
          (
            sym moved ∙ ap (λ (l : List E). record m { queue = l }) same,
            s ∙ subst (λ (y : E). x ∷ q ≡ y ∷ m'.queue) taken (ap (λ l. x ∷ l) same),
          )

  pub on_close-received :
      (m : Mailbox E) {m' : Mailbox E} {e : E}
      → on_close m ≡ done (m', RecvResult.received e)
      → dequeue m ≡ (m', some e)
  unfolding on_close
  on_close-received m h = of_dequeue (dequeue m) refl h
    where
      of_trace_id :
          (m : Mailbox E) (t : Option ℕ) {m' : Mailbox E} {e : E}
          → or_trace_id m t ≡ done (m', RecvResult.received e)
          → ⊥
      of_trace_id m none h = cc
      of_trace_id m (some t) h = cc

      of_dequeue :
          (p : Mailbox E × Option E) {m' : Mailbox E} {e : E}
          → dequeue m ≡ p
          → finish_close p ≡ done (m', RecvResult.received e)
          → dequeue m ≡ (m', some e)
      of_dequeue (n, some x) s h = cc
      of_dequeue (n, none) s h = absurd (of_trace_id n n.closed_trace_id h)

  pub on_close-closed :
      (m : Mailbox E) {m' : Mailbox E} {t : ℕ}
      → on_close m ≡ done (m', RecvResult.closed t)
      → m' ≡ m
  unfolding on_close dequeue
  on_close-closed m h = of_dequeue (dequeue m) refl h
    where
      of_trace_id :
          (m : Mailbox E) (o : Option ℕ) {m' : Mailbox E} {t : ℕ}
          → or_trace_id m o ≡ done (m', RecvResult.closed t)
          → m' ≡ m
      of_trace_id m none h = absurd cc
      of_trace_id m (some t) h = cc

      of_none : (m n : Mailbox E) (q : List E) → dequeue_from m q ≡ (n, none) → n ≡ m
      of_none m n [] h = cc
      of_none m n (e ∷ q) h = absurd cc

      of_dequeue :
          (p : Mailbox E × Option E) {m' : Mailbox E} {t : ℕ}
          → dequeue m ≡ p
          → finish_close p ≡ done (m', RecvResult.closed t)
          → m' ≡ m
      of_dequeue (n, some x) s h = absurd cc
      of_dequeue (n, none) s h = of_trace_id n n.closed_trace_id h ∙ of_none m n m.queue s

  pub set_capacity-done :
      (max_permits : ℕ) (m : Mailbox E) (capacity : ℕ)
      → m.capacity ≤ max_permits
      → m.permits + clamp_capacity max_permits capacity ≤ m.capacity + max_permits
      → set_capacity max_permits m capacity ≢ panic
  unfolding set_capacity clamp_capacity
  set_capacity-done max_permits m capacity le room h = ground arith

  on_close-traced :
      (m : Mailbox E) (t : ℕ)
      → m.queue ≡ []
      → m.closed_trace_id ≡ some t
      → on_close m ≡ done (m, RecvResult.closed t)
  unfolding on_close dequeue
  on_close-traced m t s known =
      subst (λ q. finish_close (dequeue_from m q) ≡ done (m, RecvResult.closed t)) (sym s)
        (subst (λ o. or_trace_id m o ≡ done (m, RecvResult.closed t)) (sym known) refl)

  pub try_recv-done :
      (max_permits : ℕ) (m : Mailbox E)
      → m.permits + length m.queue ≤ max_permits
      → (m.is_closed ≡ true → (t : ℕ) × (m.closed_trace_id ≡ some t))
      → try_recv max_permits m ≢ panic
  unfolding try_recv dequeue
  try_recv-done max_permits m room traced h = recv_of m.queue m.is_closed refl refl h
    where
      recv_of :
          (q : List E) (is_closed : Bool)
          → m.queue ≡ q
          → m.is_closed ≡ is_closed
          → finish_recv max_permits (dequeue_from m q) ≢ panic
      recv_of (e ∷ q) c s o h =
          let longer = ap length s in
          let fits : ltb max_permits (m.permits + 1) ≡ false = ground arith in
          let h' = rw fits at h in cc
      recv_of [] false s o h = let open_still = rw o at h in cc
      recv_of [] true s o h =
          let (t, known) = traced o in
          let ends = on_close-traced m t s known in
          let ended : finish_recv max_permits (dequeue_from m [])
              ≡ done (m, some (RecvResult.closed t)) =
            subst
              (λ (b : Bool).
                (if b then (on_close m >>= as_some) else done (m, none))
                ≡ done (m, some (RecvResult.closed t)))
              (sym o)
              (subst
                (λ (r : Run (Mailbox E × RecvResult E)).
                  (r >>= as_some) ≡ done (m, some (RecvResult.closed t)))
                (sym ends) refl) in
          let none_left : ◌≡◌ {A = Run (Mailbox E × Option (RecvResult E))}
              (done (m, some (RecvResult.closed t))) panic =
            sym ended ∙ h in
          cc

  -- What `try_send` does with an open mailbox.
  pub try_send-open :
      (m : Mailbox E) (e : E)
      → m.is_closed ≡ false
      → (((try_send m e).1 ≡ sent)
          × ((try_send m e).0.queue ≡ m.queue ++ e ∷ [])
          × ((try_send m e).0.is_closed ≡ false))
        ⊎ (((try_send m e).1 ≡ SendResult.full) × ((try_send m e).0 ≡ m))
  unfolding try_send try_acquire notify enqueue
  try_send-open m e h = of_permits (m.permits == 0) refl
    where
      of_permits :
          (b : Bool)
          → (m.permits == 0) ≡ b
          → (((try_send m e).1 ≡ sent)
              × ((try_send m e).0.queue ≡ m.queue ++ e ∷ [])
              × ((try_send m e).0.is_closed ≡ false))
            ⊎ (((try_send m e).1 ≡ SendResult.full) × ((try_send m e).0 ≡ m))
      of_permits true p = inr (rw (h, p) refl, rw (h, p) refl)
      of_permits false p = inl (rw (h, p) refl, rw (h, p) refl, rw (h, p) refl)
