-- ===== src/Core/Supervisor/Addresses.antt =====
-- elfo-core/src/supervisor.rs: the addresses of the actors of a group in the address book.
use elfo.Core.Supervisor.Steps.{
  Step, gets, sets, starts, stops, subscribes, ends, replaces, Steps, here, next,
}
use elfo.Base.Assoc.{find, delete, insert, find-delete, find-insert}
use elfo.Core.Restarting.{ActorStatusKind, Floats, RestartBackoff, RestartMode}
use mathlib.Core.Option
use elfo.Base.{
  ℕ, ◌≡◌, refl, sym, ap, subst, ◌∙◌, ◌↔◌, inl, inr, Bool, true, false, not, ◌&&◌, Option, none,
  some, List, [], ◌∷◌, arith, ◌==◌, if◌then◌else◌, Bool-cases, if_true, if_false, done, >>=-eq-done,
  done_injective,
}
use elfo.Core.Supervisor.{
  StartInfo, on_restart, mem, AddressBook, SystemConfig, Actor, Supervisor, new_supervisor,
  start_actor, spawn, store, or_spawn, get_or_spawn, capacities, set_config, remove, subscribe,
  decide, ended, put_back, if_known, replace,
}

-- `addr_at` are the addresses by key, `book` those of the address book.
pub record Registered (addr_at : ℕ → Option ℕ) (book : List ℕ) : Type 0 where
  pub reachable : (k n : ℕ) → addr_at k ≡ some n → mem n book ≡ true
  pub owned : (n : ℕ) → mem n book ≡ true → (k : ℕ) × (addr_at k ≡ some n)
  pub distinct : (k j n : ℕ) → addr_at k ≡ some n → addr_at j ≡ some n → k ≡ j

Registered-same :
    {at at' : ℕ → Option ℕ} {book : List ℕ}
    → ((k : ℕ) → at' k ≡ at k)
    → Registered at book
    → Registered at' book
Registered-same same r = record {
  reachable = λ k n h. r.reachable k n (sym (same k) ∙ h);
  owned = λ n h. let (k, e) = r.owned n h in (k, same k ∙ e);
  distinct = λ k j n h h'. r.distinct k j n (sym (same k) ∙ h) (sym (same j) ∙ h');
}

Registered-put :
    {at at' : ℕ → Option ℕ} {book : List ℕ} (key new : ℕ)
    → at key ≡ none
    → mem new book ≡ false
    → ((k : ℕ) → at' k ≡ (if key == k then some new else at k))
    → Registered at book
    → Registered at' (new ∷ book)
Registered-put {at = at} {at' = at'} {book = book} key new free unused changed r = record {
  reachable = λ k n h. ground (arith, changed k, r.reachable k n);
  owned = λ n h. elim (Bool-cases (new == n)) [
    | inl hit ↦ (key, ground (arith, changed key))
    | inr miss ↦ let (k, e) = r.owned n (ground arith) in (k, ground (arith, changed k))
  ];
  distinct = λ k j n h h'.
      ground (arith, changed k, changed j, r.distinct k j n, r.reachable k n, r.reachable j n);
}

module _ (floats : Floats) (address_book : AddressBook) where
  mem-remove :
      (n a : ℕ) (book : List ℕ)
      → mem n (remove floats address_book a book) ≡ (if a == n then false else mem n book)
  mem-remove n a [] = elim (Bool-cases (a == n)) [ inl e ↦ rw e refl | inr e ↦ rw e refl ]
  mem-remove n a (b ∷ book) = ground (arith, mem-remove n a book)

  Registered-drop :
      {at at' : ℕ → Option ℕ} {book : List ℕ} (key old : ℕ)
      → at key ≡ some old
      → ((k : ℕ) → at' k ≡ (if key == k then none else at k))
      → Registered at book
      → Registered at' (remove floats address_book old book)
  Registered-drop {at = at} {at' = at'} {book = book} key old there changed r = record {
    reachable = λ k n h.
        let at_k : at k ≡ some n = ground (arith, changed k) in
        let in_book = r.reachable k n at_k in
        elim (Bool-cases (old == n)) [
          | inl hit ↦
              let same : key ≡ k = r.distinct key k n (there ∙ ap some (ground arith)) at_k in
              absurd (ground (arith, changed k))
          | inr miss ↦ mem-remove n old book ∙ rw miss in_book
        ];
    owned = λ n h.
        let left : (if old == n then false else mem n book) ≡ true =
          sym (mem-remove n old book) ∙ h in
        let differs : (old == n) ≡ false = ground arith in
        let (k, e) = r.owned n (rw differs at left) in (k, ground (arith, changed k));
    distinct =
        λ k j n h h'. r.distinct k j n (ground (arith, changed k)) (ground (arith, changed j));
  }

  abbrev pub addr_in : List (ℕ × Actor floats) → ℕ → Option ℕ
  addr_in objects key = Option.map (λ a. a.addr) (find objects key)

  abbrev pub Inv : Supervisor floats → Type 0
  Inv sv = Registered (addr_in sv.objects) sv.book

  addr_in-insert :
      (objects : List (ℕ × Actor floats)) (key k : ℕ) (a : Actor floats)
      → addr_in (insert objects key a) k ≡ (if key == k then some (a.addr) else addr_in objects k)
  addr_in-insert objects key k a = ground (arith, find-insert objects key k a)

  addr_in-delete :
      (objects : List (ℕ × Actor floats)) (key k : ℕ)
      → addr_in (delete objects key) k ≡ (if key == k then none else addr_in objects k)
  addr_in-delete objects key k = ground (arith, find-delete objects key k)

  addr_in-capacities :
      (n k : ℕ) (objects : List (ℕ × Actor floats))
      → addr_in (capacities floats address_book n objects) k ≡ addr_in objects k
  addr_in-capacities n k [] = refl
  addr_in-capacities n k ((key, a) ∷ objects) = ground (arith, addr_in-capacities n k objects)

  started-Inv :
      (sv : Supervisor floats) (key : ℕ) (info : StartInfo) (user : Option ℕ)
      {s : Supervisor floats × Option (Actor floats)}
      → find sv.objects key ≡ none
      → start_actor floats address_book sv key info user ≡ done s
      → Inv sv
      → Inv (store floats address_book key s).0
  started-Inv sv key info none free h i = cc
  started-Inv sv key info (some user) free h i =
      subst (λ t. Inv (store floats address_book key t).0) (done_injective h)
        (Registered-put key (address_book.vacant sv.book) (ap (Option.map (λ a. a.addr)) free)
          (address_book.vacant-unused sv.book) (λ k. addr_in-insert sv.objects key k _) i)

  spawned-Inv :
      (sv : Supervisor floats) (key : ℕ) (info : StartInfo)
      {s : Supervisor floats × Option (Actor floats)}
      → find sv.objects key ≡ none
      → spawn floats address_book sv key info ≡ done s
      → Inv sv
      → Inv (store floats address_book key s).0
  unfolding spawn
  spawned-Inv sv key info free h i = elim (Bool-cases sv.control.stop_spawning) [
    | inl stopped ↦
        subst (λ t. Inv (store floats address_book key t).0)
          (done_injective (sym (if_true _ _ stopped) ∙ h)) i
    | inr goes ↦ started-Inv sv key info sv.control.user_config free (sym (if_false _ _ goes) ∙ h) i
  ]

  gets-Inv :
      (sv : Supervisor floats) (key : ℕ) (info : StartInfo) (found : Option (Actor floats))
      {sv' : Supervisor floats} {actor : Option (Actor floats)}
      → find sv.objects key ≡ found
      → or_spawn floats address_book sv key info found ≡ done (sv', actor)
      → Inv sv
      → Inv sv'
  gets-Inv sv key info (some a) e h i = subst Inv (ap (λ t. t.0) (done_injective h)) i
  gets-Inv sv key info none e h i =
      let (s, e₁, e₂) = >>=-eq-done (spawn floats address_book sv key info) _ h in
      subst Inv (ap (λ t. t.0) (done_injective e₂)) (spawned-Inv sv key info e e₁ i)

  known-done :
      (found : Option (Actor floats)) {s t : Supervisor floats}
      → if_known floats address_book found s ≡ done t
      → s ≡ t
  known-done none h = cc
  known-done (some a) h = done_injective h

  module _ (sv : Supervisor floats) (key : ℕ) (old : Actor floats)
      (found : find sv.objects key ≡ some old) (i : Inv sv) where
    there : addr_in sv.objects key ≡ some (old.addr)
    there = ap (Option.map (λ a. a.addr)) found

    removed-Inv :
        Registered (addr_in (delete sv.objects key)) (remove floats address_book (old.addr) sv.book)
    removed-Inv = Registered-drop key (old.addr) there (λ k. addr_in-delete sv.objects key k) i

    remove-new :
        (new : ℕ)
        → mem new sv.book ≡ false
        → remove floats address_book (old.addr) (new ∷ sv.book)
          ≡ new ∷ remove floats address_book (old.addr) sv.book
    remove-new new unused =
        let used = i.reachable key (old.addr) there in
        let differs : (new == old.addr) ≡ false = ground arith in if_false _ _ differs

    replaced-Inv :
        (new : Actor floats)
        → mem (new.addr) sv.book ≡ false
        → Registered
            (addr_in (insert sv.objects key new))
            (remove floats address_book (old.addr) (new.addr ∷ sv.book))
    replaced-Inv new unused =
        subst (λ book. Registered (addr_in (insert sv.objects key new)) book)
          (sym (remove-new (new.addr) unused))
          (Registered-put key (new.addr) (ground (arith, addr_in-delete sv.objects key key))
            (ground (arith, mem-remove (new.addr) (old.addr) sv.book))
            (λ k.
              ground (arith, addr_in-insert sv.objects key k new, addr_in-delete sv.objects key k))
            removed-Inv)

    started_again-Inv :
        (user : Option ℕ) {s : Supervisor floats × Option (Actor floats)}
        → start_actor floats address_book sv key on_restart user ≡ done s
        → Inv (record (put_back floats address_book s key) {
          book = remove floats address_book (old.addr) (s.0).book;
        })
    started_again-Inv none h = cc
    started_again-Inv (some user) h =
        subst
          (λ t. Inv (record (put_back floats address_book t key) {
            book = remove floats address_book (old.addr) (t.0).book;
          }))
          (done_injective h) (replaced-Inv _ (address_book.vacant-unused sv.book))

    replace-Inv :
        (restart : Bool) {sv' : Supervisor floats}
        → replace floats address_book sv key (old.addr) restart ≡ done sv'
        → Inv sv'
    unfolding replace spawn
    replace-Inv false h = subst Inv (known-done (find sv.objects key) h) removed-Inv
    replace-Inv true h =
        let (s, e, e') = >>=-eq-done (spawn floats address_book sv key on_restart) _ h in
        subst Inv (known-done (find sv.objects key) e')
          (elim (Bool-cases sv.control.stop_spawning) [
            | inl stopped ↦
                subst
                  (λ t. Inv (record (put_back floats address_book t key) {
                    book = remove floats address_book (old.addr) (t.0).book;
                  }))
                  (done_injective (sym (if_true _ _ stopped) ∙ e)) removed-Inv
            | inr goes ↦ started_again-Inv sv.control.user_config (sym (if_false _ _ goes) ∙ e)
          ])

  decided-Inv :
      (sv : Supervisor floats) (key : ℕ) (status : ActorStatusKind) (b : RestartBackoff) (now : ℕ)
      (found : Option (Actor floats)) {sv' : Supervisor floats}
      {decision : RestartBackoff × Option ℕ}
      → find sv.objects key ≡ found
      → decide floats address_book sv key status b now found ≡ done (sv', decision)
      → Inv sv
      → Inv sv'
  decided-Inv sv key status b now none e h i = cc
  decided-Inv sv key status b now (some a) e h i = subst Inv (ap (λ t. t.0) (done_injective h)) (
      Registered-same
        (λ k. ground (arith, find-insert sv.objects key k (record a { status = status }), e)) i)

  Inv-Step : {s t : Supervisor floats} → Step floats address_book s t → Inv s → Inv t
  unfolding get_or_spawn set_config subscribe ended
  Inv-Step {s = s} (gets key info h) i = gets-Inv s key info (find s.objects key) refl h i
  Inv-Step {s = s} (sets config) i =
      Registered-same
        (λ k. ground (arith, addr_in-capacities config.system.mailbox_capacity k s.objects)) i
  Inv-Step starts i = i
  Inv-Step stops i = i
  Inv-Step {s = s} (subscribes addr forcing accepts) i =
      elim (Bool-cases (not (not (mem addr s.subscribers)) && not forcing)) [
        | inl old ↦ rw old i
        | inr new ↦ rw new i
      ]
  Inv-Step {s = s} (ends key status b now h) i =
      decided-Inv s key status b now (find s.objects key) refl h i
  Inv-Step {s = s} (replaces key actor restart found h) i =
      replace-Inv s key actor found i restart h

  Inv-Steps : {s t : Supervisor floats} → Steps floats address_book s t → Inv s → Inv t
  Inv-Steps here i = i
  Inv-Steps (next r step) i = Inv-Step step (Inv-Steps r i)

  -- In any interleaving of the steps of messages that are handled and of actors that end, are
  -- restarted or removed, where the replacement of an ended actor is one step, the addresses of the group in the address book are exactly those of its
  -- actors, and no two keys have the same address.
  pub addresses_of_actors :
      (policy : RestartMode floats) (stop_on_terminate : Bool) (config : SystemConfig floats)
      (sv : Supervisor floats)
      → Steps floats address_book (new_supervisor floats policy stop_on_terminate config) sv
      → ((addr : ℕ)
          → (mem addr sv.book ≡ true) ↔ ((key : ℕ) × (addr_in sv.objects key ≡ some addr)))
        × ((key key' addr : ℕ)
            → addr_in sv.objects key ≡ some addr
            → addr_in sv.objects key' ≡ some addr
            → key ≡ key')
  unfolding new_supervisor
  addresses_of_actors policy stop_on_terminate config sv r =
      let at_first : Inv (new_supervisor floats policy stop_on_terminate config) = record {
        reachable = λ k n h. cc;
        owned = λ n h. cc;
        distinct = λ k j n h h'. cc;
      } in
      let i = Inv-Steps r at_first in
      (λ addr. (i.owned addr, λ (key, e). i.reachable key addr e), i.distinct)
