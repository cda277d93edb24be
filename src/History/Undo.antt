-- ===== src/History/Undo.antt =====
-- Undo and redo are inverse to each other, and undo takes an edit back.
use essentials_calls.Base.{
  ℕ, suc, zero, ◌+◌, ◌≤◌, ◌<◌, ◌≡◌, ◌≢◌, refl, Bool, false, Option, none, some, List, [], ◌∷◌, ◌++◌,
  length, length-append, arith, ap, ◌∙◌, sym, Option-cases, inl, inr,
}
use essentials_calls.History.{
  HistoryState, empty_history, take, last, without_last, capacity, append_bounded, undo_with,
  undo_history, redo_with, redo_history, update_with, update_history,
}
use essentials_calls.History.Reachable.{
  Operation, apply, run, IsBounded, take_all, take_last_all, length-without_last, run-IsBounded,
  apply-IsBounded, capacity_positive,
}

module _ {A : Type 0} where
  last-append : (xs : List A) (x : A) → last (xs ++ x ∷ []) ≡ some x
  last-append [] x = refl
  last-append (y ∷ []) x = refl
  last-append (y ∷ z ∷ zs) x = last-append (z ∷ zs) x

  without_last-append : (xs : List A) (x : A) → without_last (xs ++ x ∷ []) ≡ xs
  without_last-append [] x = refl
  without_last-append (y ∷ []) x = refl
  without_last-append (y ∷ z ∷ zs) x = ap (λ l. y ∷ l) (without_last-append (z ∷ zs) x)

  append-last : (xs : List A) {x : A} → last xs ≡ some x → without_last xs ++ x ∷ [] ≡ xs
  append-last [] h = cc
  append-last (y ∷ []) {x} h = let e : x ≡ y = cc in ap (λ z. z ∷ []) e
  append-last (y ∷ z ∷ zs) h = ap (λ l. y ∷ l) (append-last (z ∷ zs) h)

  last-none : (xs : List A) → last xs ≡ none → xs ≡ []
  last-none [] h = refl
  last-none (y ∷ []) h = cc
  last-none (y ∷ z ∷ zs) h = absurd (differ (last-none (z ∷ zs) h))
    where
      differ : z ∷ zs ≢ []
      differ e = cc

  -- There is room for an entry in a list that is shorter than the limit.
  append_bounded_room :
      (xs : List A) (x : A) (limit : ℕ)
      → suc (length xs) ≤ capacity limit
      → append_bounded xs x limit ≡ xs ++ x ∷ []
  unfolding append_bounded
  append_bounded_room xs x limit h =
      take_last_all (capacity limit) (xs ++ x ∷ []) (omega (arith, length-append xs (x ∷ [])))

  with_value : (s : HistoryState A) (o : Option A) → s.value ≡ o → record s { value = o } ≡ s
  with_value s o e = ap (λ v. record s { value = v }) (sym e)

  redo-undo_at :
      (limit : ℕ) (s : HistoryState A) (v p : A)
      → s.value ≡ some v
      → last s.past ≡ some p
      → IsBounded limit s
      → redo_history (undo_with s (some v) (some p) limit) limit ≡ s
  unfolding redo_history redo_with undo_with
  redo-undo_at limit s v p ev ep h =
      let short = length-without_last s.past ep in
      let all : take (capacity limit) (v ∷ s.future) ≡ v ∷ s.future =
        take_all (capacity limit) (v ∷ s.future) (omega (arith, short, h)) in
      let back : append_bounded (without_last s.past) p limit ≡ s.past =
        append_bounded_room (without_last s.past) p limit (omega (arith, short, h))
        ∙ append-last s.past ep in
      rw (all, back) (with_value s (some v) ev)

  undo_as :
      (limit : ℕ) (s : HistoryState A) (v p : Option A)
      → s.value ≡ v
      → last s.past ≡ p
      → undo_history s limit ≡ undo_with s v p limit
  unfolding undo_history
  undo_as limit s v p ev ep = cc (ev, ep)

  redo_as :
      (limit : ℕ) (s : HistoryState A) (v : Option A) (future : List A)
      → s.value ≡ v
      → s.future ≡ future
      → redo_history s limit ≡ redo_with s v future limit
  unfolding redo_history
  redo_as limit s v future ev ef = cc (ev, ef)

  redo-none : (limit : ℕ) (s : HistoryState A) → s.value ≡ none → redo_history s limit ≡ s
  unfolding redo_with
  redo-none limit s e = redo_as limit s none s.future e refl

  undo-none : (limit : ℕ) (s : HistoryState A) → s.value ≡ none → undo_history s limit ≡ s
  unfolding undo_with
  undo-none limit s e = undo_as limit s none (last s.past) e refl

  -- In a state with a past whose entries fit into the limit, redo takes an undo back.
  pub redo-undo :
      (limit : ℕ) (s : HistoryState A)
      → IsBounded limit s
      → s.past ≢ []
      → redo_history (undo_history s limit) limit ≡ s
  redo-undo limit s h ne = elim (Option-cases s.value) [
    | inl empty ↦ ap (λ t. redo_history t limit) (undo-none limit s empty) ∙ redo-none limit s empty
    | inr (v, ev) ↦ elim (Option-cases (last s.past)) [
      | inl no_last ↦ absurd (ne (last-none s.past no_last))
      | inr (p, ep) ↦
          ap (λ t. redo_history t limit) (undo_as limit s (some v) (some p) ev ep)
          ∙ redo-undo_at limit s v p ev ep h
    ]
  ]

  undo-redo_at :
      (limit : ℕ) (s : HistoryState A) (v n : A) (future : List A)
      → s.value ≡ some v
      → s.future ≡ n ∷ future
      → IsBounded limit s
      → undo_history (redo_with s (some v) (n ∷ future) limit) limit ≡ s
  unfolding undo_history undo_with redo_with
  undo-redo_at limit s v n future ev ef h =
      let room : suc (length s.past) ≤ capacity limit = omega (arith, ap length ef, h) in
      let more : append_bounded s.past v limit ≡ s.past ++ v ∷ [] =
        append_bounded_room s.past v limit room in
      let all : take (capacity limit) (n ∷ future) ≡ s.future =
        take_all (capacity limit) (n ∷ future) (omega (arith, ap length ef, h)) ∙ sym ef in
      rw (more, last-append s.past v, without_last-append s.past v, all) (with_value s (some v) ev)

  -- In a state with a future whose entries fit into the limit, undo takes a redo back.
  pub undo-redo :
      (limit : ℕ) (s : HistoryState A)
      → IsBounded limit s
      → s.future ≢ []
      → undo_history (redo_history s limit) limit ≡ s
  undo-redo limit s h ne = elim (Option-cases s.value) [
    | inl empty ↦ ap (λ t. undo_history t limit) (redo-none limit s empty) ∙ undo-none limit s empty
    | inr (v, ev) ↦ from v ev s.future refl
  ]
    where
      from :
          (v : A)
          → s.value ≡ some v
          → (future : List A) → s.future ≡ future
          → undo_history (redo_history s limit) limit ≡ s
      from v ev [] ef = absurd (ne ef)
      from v ev (n ∷ future) ef =
          ap (λ t. undo_history t limit) (redo_as limit s (some v) (n ∷ future) ev ef)
          ∙ undo-redo_at limit s v n future ev ef h

  -- Several steps of one kind.
  abbrev pub times : ℕ → (HistoryState A → HistoryState A) → HistoryState A → HistoryState A
  times zero f s = s
  times (suc n) f s = f (times n f s)

  times-inner :
      (n : ℕ) (f : HistoryState A → HistoryState A) (s : HistoryState A)
      → times n f (f s) ≡ f (times n f s)
  times-inner zero f s = refl
  times-inner (suc n) f s = ap f (times-inner n f s)

  undo_with-past :
      (limit : ℕ) (s : HistoryState A) (v p : Option A)
      → last s.past ≡ p
      → length s.past ≤ suc (length (undo_with s v p limit).past)
  unfolding undo_with
  undo_with-past limit s none p e = omega arith
  undo_with-past limit s (some v) none e = omega arith
  undo_with-past limit s (some v) (some p) e = omega (arith, length-without_last s.past e)

  undo-past :
      (limit : ℕ) (s : HistoryState A) → length s.past ≤ suc (length (undo_history s limit).past)
  unfolding undo_history
  undo-past limit s = undo_with-past limit s s.value (last s.past) refl

module _ {A : Type 0} (same : A → A → Bool) (limit : ℕ) where
  many_undos :
      (n : ℕ) (s : HistoryState A)
      → IsBounded limit s
      → IsBounded limit (times n (λ t. undo_history t limit) s)
        × (length s.past ≤ n + length (times n (λ t. undo_history t limit) s).past)
  unfolding apply
  many_undos zero s h = (h, omega arith)
  many_undos (suc n) s h =
      let (bounded, past) = many_undos n s h in
      let t = times n (λ t. undo_history t limit) s in
      (apply-IsBounded same limit t Operation.undo bounded, omega (arith, past, undo-past limit t))

  pub redos-undos :
      (n : ℕ) (s : HistoryState A)
      → IsBounded limit s
      → n ≤ length s.past
      → times n (λ t. redo_history t limit) (times n (λ t. undo_history t limit) s) ≡ s
  redos-undos zero s h le = refl
  redos-undos (suc n) s h le =
      let t = times n (λ t. undo_history t limit) s in
      let (bounded, past) = many_undos n s h in
      sym (times-inner n (λ t. redo_history t limit) (undo_history t limit))
      ∙ ap (times n (λ t. redo_history t limit))
          (redo-undo limit t bounded (some_past t.past (omega (arith, past, le))))
      ∙ redos-undos n s h (omega arith)
    where
      some_past : (xs : List A) → 1 ≤ length xs → xs ≢ []
      some_past [] le = absurd (omega arith)
      some_past (x ∷ xs) le = λ e. cc

  -- Whatever the editor did, undoing any number of steps that can be undone and redoing as many
  -- leads back to the same state.
  pub reached_redos-undos :
      (n : ℕ) (os : List (Operation A))
      → n ≤ length (run same limit empty_history os).past
      → times n
          (λ t. redo_history t limit)
          (times n (λ t. undo_history t limit) (run same limit empty_history os))
        ≡ run same limit empty_history os
  reached_redos-undos n os le =
      redos-undos n (run same limit empty_history os) (run-IsBounded same limit os) le

  update_as :
      (s : HistoryState A) (v : A) (f : A → A)
      → s.value ≡ some v
      → update_history same s f limit ≡ update_with same s (some v) f limit
  unfolding update_history
  update_as s v f ev = cc ev

  -- An edit that changes the value, made where the past has room, is taken back by undo: all is as
  -- before, but that the edited value can be redone and nothing else.
  pub undo-update :
      (s : HistoryState A) (v : A) (f : A → A)
      → s.value ≡ some v
      → same v (f v) ≡ false
      → length s.past < capacity limit
      → undo_history (update_history same s f limit) limit ≡ record s { future = f v ∷ [] }
  unfolding undo_history undo_with update_with
  undo-update s v f ev changed room =
      let more : append_bounded s.past v limit ≡ s.past ++ v ∷ [] =
        append_bounded_room s.past v limit (omega arith) in
      let all : take (capacity limit) (f v ∷ []) ≡ f v ∷ [] =
        take_all (capacity limit) (f v ∷ []) (omega (arith, capacity_positive limit)) in
      ap (λ t. undo_history t limit) (update_as s v f ev)
      ∙ rw (changed, more, last-append s.past v, without_last-append s.past v, all)
          (there (some v) ev)
    where
      there :
          (o : Option A)
          → s.value ≡ o
          → record s { value = o; future = f v ∷ [] } ≡ record s { future = f v ∷ [] }
      there o e = ap (λ w. record s { value = w; future = f v ∷ [] }) (sym e)
