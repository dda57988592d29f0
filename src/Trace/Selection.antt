-- ===== src/Trace/Selection.antt =====
-- The prompts for a directory and for files (src/ui/backup_selection.cpp) through the steps of the
-- client.
use encrypted_backup_client.Base.{
  ℕ, suc, zero, ◌<◌, refl, arith, not, text_eq, length, Option-cases, inl, inr, List, [], ◌∷◌, Text,
  Result, ok, err,
}
use encrypted_backup_client.Utils.Validation.{is_valid_dir_name}
use encrypted_backup_client.System.State.{M, continue}
use encrypted_backup_client.System.Platform.{Platform}
use encrypted_backup_client.System.World.{World, files_prompt, resolve}
use encrypted_backup_client.Registration.Flow.{cancel}
use encrypted_backup_client.Ui.Selection.{
  getline, Selection, cancelled, finished, exhausted, finish_selection, selected,
  discard_remaining_input_line, check_directory, prompt_backup_directory, read_files,
  prompt_files_to_backup,
}
use encrypted_backup_client.Ui.Selection.Prompts.{
  length-behind_newline, length-getline, IsRead, read_files-IsRead,
}
use encrypted_backup_client.Trace.Steps.{took, printed, one_step}
use encrypted_backup_client.Trace.Rules.{
  ok-IsReal, Runs, Runs-bind, Runs-lift, Runs-if, Runs-branch, Runs-step, Runs-after, Runs-input,
}
use encrypted_backup_client.Trace.Registration.{cin_word-Runs, cin_word-takes}

module _ (P : Platform) where
  discard-Runs : (w : World P) → Runs w (discard_remaining_input_line P w)
  unfolding discard_remaining_input_line
  discard-Runs w = Runs-step ok-IsReal (took _ (length-behind_newline w.input) refl)

  check_directory-Runs : (dir_name : Text) (w : World P) → Runs w (check_directory P dir_name w)
  unfolding check_directory
  check_directory-Runs dir_name w =
      Runs-if (not (is_valid_dir_name dir_name)) (λ _. Runs-step ok-IsReal (printed _ refl))
        (λ _.
          Runs-if (not (w.is_directory (resolve w dir_name)))
            (λ _. Runs-step ok-IsReal (printed _ refl)) (λ _. Runs-lift ok-IsReal))

  pub prompt_backup_directory-Runs :
      (fuel : ℕ) (w : World P) → length w.input < fuel → Runs w (prompt_backup_directory P fuel w)
  unfolding prompt_backup_directory
  prompt_backup_directory-Runs zero w h = absurd (omega arith)
  prompt_backup_directory-Runs (suc fuel) w h = Runs-after (one_step (printed _ refl)) (
      Runs-bind (cin_word-Runs P _ _) (λ word v read. Runs-bind (discard-Runs v) (λ _ u discarded.
        Runs-branch (text_eq (P.trim word) cancel) _ _ (λ _. Runs-lift (λ e. cc))
          (λ _. Runs-bind (check_directory-Runs (P.trim word) u) (λ checked t tested.
            elim (Option-cases checked) [
              | inl again ↦ rw again (
                  prompt_backup_directory-Runs fuel t (
                    omega (
                      arith,
                      cin_word-takes P _ _ v word read,
                      Runs-input (discard-Runs v) discarded,
                      Runs-input (check_directory-Runs (P.trim word) u) tested,
                    )))
              | inr (found, chosen) ↦ rw chosen (Runs-lift ok-IsReal)
            ])))))

  read_files-Runs :
      (fuel : ℕ) (names : List Text) (w : World P)
      → length w.input < fuel
      → Runs w (read_files P fuel names w)
  unfolding read_files
  read_files-Runs zero names w h = absurd (omega arith)
  read_files-Runs (suc fuel) names w h = elim (Option-cases (getline w.input)) [
    | inl ended ↦ rw (ended, read_files) (Runs-lift ok-IsReal)
    | inr ((line, rest), found) ↦
        let less = length-getline w.input line rest found in
        rw (found, read_files)
          (Runs-after (one_step (took rest (omega arith) refl)) (
            Runs-if (text_eq (P.trim line) cancel) (λ _. Runs-lift ok-IsReal)
              (λ _.
                Runs-if (text_eq (P.trim line) finish_selection) (λ _. Runs-lift ok-IsReal)
                  (λ _. read_files-Runs fuel _ _ (omega arith)))))
  ]

  -- What follows the inner loop, which took input before the closing keyword.
  selected-Runs :
      (v w : World P) (x : Result (Selection × List Text) × World P)
      (again : M (World P) (List Text))
      → Runs v x
      → IsRead P w x
      → ((t : World P) → length t.input < length w.input → Runs t (again t))
      → Runs v (continue x (selected P again))
  selected-Runs v w (ok (finished, []), t) again h r f =
      Runs-after h.reached (Runs-after (one_step (printed _ refl)) (f _ r.0))
  selected-Runs v w (ok (finished, name ∷ names), t) again h r f =
      Runs-after h.reached (Runs-lift ok-IsReal)
  selected-Runs v w (ok (cancelled, names), t) again h r f =
      Runs-after h.reached (Runs-lift (λ e. cc))
  selected-Runs v w (ok (exhausted, names), t) again h r f =
      Runs-after h.reached (Runs-lift (λ e. cc))
  selected-Runs v w (err e, t) again h r f = absurd r

  pub prompt_files_to_backup-Runs :
      (fuel : ℕ) (w : World P) → length w.input < fuel → Runs w (prompt_files_to_backup P fuel w)
  unfolding prompt_files_to_backup
  prompt_files_to_backup-Runs zero w h = absurd (omega arith)
  prompt_files_to_backup-Runs (suc fuel) w h =
      let prompted : World P = record w { output = files_prompt ∷ w.output } in
      Runs-after (one_step (printed _ refl)) (
        selected-Runs prompted prompted _ _
          (read_files-Runs (suc (length w.input)) [] _ (omega arith))
          (read_files-IsRead P (suc (length w.input)) [] _ (omega arith) tt)
          (λ t less. prompt_files_to_backup-Runs fuel t (omega arith)))
