-- ===== src/History.antt =====
-- The undo history of the editor: frontend/src/historyState.ts.
-- `same` stands for the comparison of two values by `JSON.stringify`. The hook of
-- frontend/src/history.ts applies these operations one after another to a React state.
pub mod Reachable
pub mod Undo
use essentials_calls.Base.{
  ℕ, suc, zero, ◌-◌, Bool, true, false, not, ◌&&◌, Option, none, some, List, [], ◌∷◌, ◌++◌, length,
  leb, if◌then◌else◌,
}

pub record HistoryState (A : Type 0) : Type 0 where
  pub value : Option A
  pub past : List A
  pub future : List A
  pub saved : Option A

-- `xs.slice(0, n)`
abbrev pub take : {A : Type 0} → ℕ → List A → List A
take zero xs = []
take (suc n) [] = []
take (suc n) (x ∷ xs) = x ∷ take n xs

-- `xs.slice(n)`
abbrev pub drop : {A : Type 0} → ℕ → List A → List A
drop zero xs = xs
drop (suc n) [] = []
drop (suc n) (x ∷ xs) = drop n xs

-- `xs.slice(-n)`, for a positive n.
unfoldable pub take_last : {A : Type 0} → ℕ → List A → List A
take_last n xs = drop (length xs - n) xs

-- `xs.at(-1)`
abbrev pub last : {A : Type 0} → List A → Option A
last [] = none
last (x ∷ []) = some x
last (x ∷ y ∷ ys) = last (y ∷ ys)

-- `xs.slice(0, -1)`
abbrev pub without_last : {A : Type 0} → List A → List A
without_last [] = []
without_last (x ∷ []) = []
without_last (x ∷ y ∷ ys) = x ∷ without_last (y ∷ ys)

-- `Math.max(1, limit)`
unfoldable pub capacity : ℕ → ℕ
capacity limit = if leb limit 1 then 1 else limit

unfoldable pub append_bounded : {A : Type 0} → List A → A → ℕ → List A
unfolding take_last
append_bounded entries value limit = take_last (capacity limit) (entries ++ value ∷ [])

abbrev pub empty_history : {A : Type 0} → HistoryState A
empty_history = record { value = none; past = []; future = []; saved = none }

abbrev pub reset_history : {A : Type 0} → A → HistoryState A
reset_history next = record { value = some next; past = []; future = []; saved = some next }

-- `undoHistory`, with the value and the last entry of the past where there are any.
unfoldable pub undo_with : {A : Type 0} → HistoryState A → Option A → Option A → ℕ → HistoryState A
undo_with state (some value) (some previous) limit = record state {
  value = some previous;
  past = without_last state.past;
  future = take (capacity limit) (value ∷ state.future);
}
undo_with state _ _ limit = state

unfoldable pub undo_history : {A : Type 0} → HistoryState A → ℕ → HistoryState A
unfolding undo_with
undo_history state limit = undo_with state state.value (last state.past) limit

unfoldable pub redo_with : {A : Type 0} → HistoryState A → Option A → List A → ℕ → HistoryState A
redo_with state (some value) (next ∷ future) limit = record state {
  value = some next;
  past = append_bounded state.past value limit;
  future = future;
}
redo_with state _ _ limit = state

unfoldable pub redo_history : {A : Type 0} → HistoryState A → ℕ → HistoryState A
unfolding redo_with
redo_history state limit = redo_with state state.value state.future limit

unfoldable pub accept_saved_history : {A : Type 0} → HistoryState A → A → HistoryState A
accept_saved_history state next = record state { value = some next; saved = some next }

module _ {A : Type 0} (same : A → A → Bool) where
  unfoldable pub update_with : HistoryState A → Option A → (A → A) → ℕ → HistoryState A
  update_with state none updater limit = state
  update_with state (some value) updater limit =
      let next = updater value in
      if same value next then state else record state {
        value = some next;
        past = append_bounded state.past value limit;
        future = [];
      }

  unfoldable pub update_history : HistoryState A → (A → A) → ℕ → HistoryState A
  unfolding update_with
  update_history state updater limit = update_with state state.value updater limit

  unfoldable pub differs : Option A → Option A → Bool
  differs (some value) (some saved) = not (same value saved)
  differs _ _ = false

  unfoldable pub is_history_dirty : HistoryState A → Bool
  unfolding differs
  is_history_dirty state = differs state.value state.saved
