-- ===== src/History/Reachable.antt =====
-- The states that the editor reaches: past and future together hold no more than the limit.
use essentials_calls.Base.{
  ℕ, suc, zero, ◌+◌, ◌-◌, ◌≤◌, ◌≡◌, refl, Bool, Option, none, some, List, [], ◌∷◌, ◌++◌, length,
  length-append, arith, ap, if_either,
}
use essentials_calls.History.{
  HistoryState, take, drop, take_last, last, without_last, capacity, append_bounded, empty_history,
  reset_history, undo_with, undo_history, redo_with, redo_history, accept_saved_history,
  update_with, update_history,
}

-- What the editor does with its history.
pub data Operation (A : Type 0) : Type 0 where
  reset : A → Operation A
  update : (A → A) → Operation A
  undo : Operation A
  redo : Operation A
  accept_saved : A → Operation A

module _ {A : Type 0} (same : A → A → Bool) (limit : ℕ) where
  unfoldable pub apply : HistoryState A → Operation A → HistoryState A
  apply state (Operation.reset next) = reset_history next
  apply state (Operation.update updater) = update_history same state updater limit
  apply state Operation.undo = undo_history state limit
  apply state Operation.redo = redo_history state limit
  apply state (Operation.accept_saved next) = accept_saved_history state next

  unfoldable pub run : HistoryState A → List (Operation A) → HistoryState A
  run state [] = state
  run state (o ∷ os) = run (apply state o) os

-- The entries of the past and of the future fit into the limit.
abbrev pub IsBounded : {A : Type 0} → ℕ → HistoryState A → Type 0
IsBounded limit s = length s.past + length s.future ≤ capacity limit

pub capacity_positive : (limit : ℕ) → 1 ≤ capacity limit
unfolding capacity
capacity_positive limit = ground arith

module _ {A : Type 0} where
  pub length-drop : (n : ℕ) (xs : List A) → length (drop n xs) ≡ length xs - n
  length-drop zero xs = omega arith
  length-drop (suc n) [] = omega arith
  length-drop (suc n) (x ∷ xs) = omega (arith, length-drop n xs)

  pub take_all : (n : ℕ) (xs : List A) → length xs ≤ n → take n xs ≡ xs
  take_all zero [] h = refl
  take_all zero (x ∷ xs) h = absurd (omega arith)
  take_all (suc n) [] h = refl
  take_all (suc n) (x ∷ xs) h = ap (λ ys. x ∷ ys) (take_all n xs (omega arith))

  pub take_last_all : (n : ℕ) (xs : List A) → length xs ≤ n → take_last n xs ≡ xs
  unfolding take_last
  take_last_all n xs h =
      let none_left : length xs - n ≡ 0 = omega arith in ap (λ k. drop k xs) none_left

  length-take_last : (n : ℕ) (xs : List A) → length (take_last n xs) ≤ n
  unfolding take_last
  length-take_last n xs = omega (arith, length-drop (length xs - n) xs)

  -- An entry is appended, the oldest ones give way.
  length-append_bounded :
      (xs : List A) (x : A) (limit : ℕ) → length (append_bounded xs x limit) ≤ capacity limit
  unfolding append_bounded
  length-append_bounded xs x limit = length-take_last (capacity limit) (xs ++ x ∷ [])

  length-append_bounded-suc :
      (xs : List A) (x : A) (limit : ℕ) → length (append_bounded xs x limit) ≤ suc (length xs)
  unfolding append_bounded take_last
  length-append_bounded-suc xs x limit =
      let all = xs ++ x ∷ [] in
      omega (arith, length-drop (length all - capacity limit) all, length-append xs (x ∷ []))

  length-take : (n : ℕ) (xs : List A) → length (take n xs) ≤ length xs
  length-take zero xs = omega arith
  length-take (suc n) [] = omega arith
  length-take (suc n) (x ∷ xs) = omega (arith, length-take n xs)

  pub length-without_last :
      (xs : List A) {x : A} → last xs ≡ some x → suc (length (without_last xs)) ≡ length xs
  length-without_last [] h = cc
  length-without_last (y ∷ []) h = refl
  length-without_last (y ∷ z ∷ zs) h = ap suc (length-without_last (z ∷ zs) h)

  undo_with-IsBounded :
      (limit : ℕ) (s : HistoryState A) (v p : Option A)
      → last s.past ≡ p
      → IsBounded limit s
      → IsBounded limit (undo_with s v p limit)
  unfolding undo_with
  undo_with-IsBounded limit s none p e h = h
  undo_with-IsBounded limit s (some v) none e h = h
  undo_with-IsBounded limit s (some v) (some p) e h =
      omega (arith, length-without_last s.past e, length-take (capacity limit) (v ∷ s.future), h)

  redo_with-IsBounded :
      (limit : ℕ) (s : HistoryState A) (v : Option A) (future : List A)
      → s.future ≡ future
      → IsBounded limit s
      → IsBounded limit (redo_with s v future limit)
  unfolding redo_with
  redo_with-IsBounded limit s none f e h = h
  redo_with-IsBounded limit s (some v) [] e h = h
  redo_with-IsBounded limit s (some v) (n ∷ f) e h =
      omega (arith, ap length e, length-append_bounded-suc s.past v limit, h)

  update_with-IsBounded :
      (same : A → A → Bool) (limit : ℕ) (s : HistoryState A) (v : Option A) (f : A → A)
      → IsBounded limit s
      → IsBounded limit (update_with same s v f limit)
  unfolding update_with
  update_with-IsBounded same limit s none f h = h
  update_with-IsBounded same limit s (some v) f h =
      if_either (IsBounded limit) (same v (f v)) s _ h
        (omega (arith, length-append_bounded s.past v limit))

  pub apply-IsBounded :
      (same : A → A → Bool) (limit : ℕ) (s : HistoryState A) (o : Operation A)
      → IsBounded limit s
      → IsBounded limit (apply same limit s o)
  unfolding apply undo_history redo_history update_history accept_saved_history
  apply-IsBounded same limit s (Operation.reset next) h = omega (arith, capacity_positive limit)
  apply-IsBounded same limit s (Operation.update f) h =
      update_with-IsBounded same limit s s.value f h
  apply-IsBounded same limit s Operation.undo h =
      undo_with-IsBounded limit s s.value (last s.past) refl h
  apply-IsBounded same limit s Operation.redo h =
      redo_with-IsBounded limit s s.value s.future refl h
  apply-IsBounded same limit s (Operation.accept_saved next) h = h

  run_from-IsBounded :
      (same : A → A → Bool) (limit : ℕ) (os : List (Operation A)) (s : HistoryState A)
      → IsBounded limit s
      → IsBounded limit (run same limit s os)
  unfolding run
  run_from-IsBounded same limit [] s h = h
  run_from-IsBounded same limit (o ∷ os) s h =
      run_from-IsBounded same limit os (apply same limit s o) (apply-IsBounded same limit s o h)

-- Whatever is done from the empty history on, the entries that can be undone and those that can be
-- redone are together no more than the limit, or one where the limit is 0.
pub run-IsBounded :
    {A : Type 0} (same : A → A → Bool) (limit : ℕ) (os : List (Operation A))
    → IsBounded limit (run same limit empty_history os)
run-IsBounded same limit os =
    run_from-IsBounded same limit os empty_history (omega (arith, capacity_positive limit))
