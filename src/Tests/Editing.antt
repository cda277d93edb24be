-- ===== src/Tests/Editing.antt =====
-- The results on the undo history, at a short run of the editor.
use essentials_calls.Base.{ℕ, suc, ◌≤◌, ◌≡◌, refl, some, List, [], ◌∷◌, nat_eq, arith, length}
use essentials_calls.History.{
  HistoryState, empty_history, undo_history, redo_history, update_history, capacity, take_last,
  append_bounded, update_with,
}
use essentials_calls.History.Reachable.{Operation, run, apply, IsBounded, run-IsBounded}
use essentials_calls.History.Undo.{redo-undo, undo-redo, times, reached_redos-undos, undo-update}

abbrev edited : HistoryState ℕ
edited = record { value = some 5; past = 3 ∷ 4 ∷ []; future = []; saved = some 3 }

abbrev half_edited : HistoryState ℕ
half_edited = record { value = some 4; past = 3 ∷ []; future = 5 ∷ []; saved = some 3 }

abbrev steps : List (Operation ℕ)
steps = Operation.reset 3 ∷ Operation.update suc ∷ Operation.update suc ∷ []

capacity_of_limit : 2 ≤ capacity 2
unfolding capacity
capacity_of_limit = omega arith

run-IsBounded_example : IsBounded 2 (run nat_eq 2 empty_history steps)
run-IsBounded_example = run-IsBounded nat_eq 2 steps

redo-undo_example : redo_history (undo_history edited 2) 2 ≡ edited
redo-undo_example = redo-undo 2 edited capacity_of_limit (λ e. cc e)

undo-redo_example : undo_history (redo_history half_edited 2) 2 ≡ half_edited
undo-redo_example = undo-redo 2 half_edited capacity_of_limit (λ e. cc e)

two_steps : 2 ≤ length (run nat_eq 2 empty_history steps).past
unfolding run apply update_history update_with append_bounded capacity take_last
two_steps = omega arith

reached_redos-undos_example :
    times 2
      (λ t. redo_history t 2)
      (times 2 (λ t. undo_history t 2) (run nat_eq 2 empty_history steps))
    ≡ run nat_eq 2 empty_history steps
reached_redos-undos_example = reached_redos-undos nat_eq 2 2 steps two_steps

undo-update_example :
    undo_history (update_history nat_eq half_edited suc 2) 2
    ≡ record half_edited { future = 5 ∷ [] }
undo-update_example = undo-update nat_eq 2 half_edited 4 suc refl refl capacity_of_limit
