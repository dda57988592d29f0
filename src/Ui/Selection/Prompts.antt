-- ===== src/Ui/Selection/Prompts.antt =====
-- The two prompts of src/ui/backup_selection.cpp end for every input, and what they hand back.
use mathlib.Core.Path.{subst}
use encrypted_backup_client.Base.{
  ℕ, zero, suc, ◌≤◌, ◌<◌, ◌≡◌, refl, sym, Bool-cases, Option-cases, inl, inr, true, false, some,
  List, [], ◌∷◌, ◌++◌, if◌then◌else◌, All, All-append, length, Text, text, text_eq, arith, Result,
  ok, err, user_cancelled,
}
use encrypted_backup_client.Utils.Validation.{is_valid_dir_name}
use encrypted_backup_client.System.State.{M, continue}
use encrypted_backup_client.System.Platform.{Platform}
use encrypted_backup_client.System.World.{World, resolve, files_prompt}
use encrypted_backup_client.Registration.Flow.{cancel}
use encrypted_backup_client.Ui.Selection.{
  behind_newline, take_line, getline, Selection, cancelled, finished, exhausted, finish_selection,
  selected, read_files, prompt_files_to_backup,
}

pub length-behind_newline : (s : Text) → length (behind_newline s) ≤ length s
unfolding behind_newline
length-behind_newline [] = omega arith
length-behind_newline (c ∷ cs) = ground (arith, length-behind_newline cs)

length-take_line : (s : Text) → length (take_line s).1 ≤ length s
unfolding take_line
length-take_line [] = omega arith
length-take_line (c ∷ cs) = ground (arith, length-take_line cs)

-- A line that is read takes at least one character.
pub length-getline : (s line rest : Text) → getline s ≡ some (line, rest) → length rest < length s
unfolding getline take_line
length-getline [] line rest h = cc
length-getline (c ∷ cs) line rest h = ground (arith, length-take_line cs)

module _ (P : Platform) where
  -- What the first prompt can come to: a valid name of a directory that exists, or the exception.
  abbrev pub IsChosen : World P → Result Text → Type 0
  IsChosen w (ok d) = (is_valid_dir_name d ≡ true) × (w.is_directory (resolve w d) ≡ true)
  IsChosen w (err e) = e ≡ user_cancelled (text "Backup cancelled.")

  abbrev pub AreNames : List Text → Type 0
  AreNames names = All (λ name. text_eq name [] ≡ false) names

  -- How the inner loop ends: never without fuel, and after the closing keyword with less input.
  abbrev pub IsRead : World P → Result (Selection × List Text) × World P → Type 0
  IsRead w (ok (finished, names), t) = (length t.input < length w.input) × AreNames names
  IsRead w (ok (cancelled, names), t) = Unit
  IsRead w (ok (exhausted, names), t) = Unit
  IsRead w (err e, t) = ⊥

  IsRead-longer :
      (v w : World P) (m : Result (Selection × List Text) × World P)
      → length v.input < length w.input
      → IsRead v m
      → IsRead w m
  IsRead-longer v w (ok (finished, names), t) h (less, named) = (omega arith, named)
  IsRead-longer v w (ok (cancelled, names), t) h r = tt
  IsRead-longer v w (ok (exhausted, names), t) h r = tt
  IsRead-longer v w (err e, t) h r = r

  add_name-AreNames :
      (name : Text) (names : List Text)
      → AreNames names
      → AreNames (if text_eq name [] then names else names ++ (name ∷ []))
  add_name-AreNames name names named = elim (Bool-cases (text_eq name [])) [
    | inl empty ↦ rw empty named
    | inr full ↦ rw full (All-append _ names (name ∷ []) named (full, tt))
  ]

  pub read_files-IsRead :
      (fuel : ℕ) (names : List Text) (w : World P)
      → length w.input < fuel
      → AreNames names
      → IsRead w (read_files P fuel names w)
  unfolding read_files
  read_files-IsRead zero names w h named = absurd (omega arith)
  read_files-IsRead (suc fuel) names w h named = elim (Option-cases (getline w.input)) [
    | inl ended ↦
        let step : read_files P (suc fuel) names w ≡ (ok (exhausted, names), w) =
          rw (ended, read_files) refl in
        subst (IsRead w) (sym step) tt
    | inr ((line, rest), found) ↦
        let less = length-getline w.input line rest found in
        let behind : World P = record w { input = rest } in
        elim (Bool-cases (text_eq (P.trim line) cancel)) [
          | inl leaves ↦
              let step : read_files P (suc fuel) names w ≡ (ok (cancelled, names), behind) =
                rw (found, leaves, read_files) refl in
              subst (IsRead w) (sym step) tt
          | inr stays ↦ elim (Bool-cases (text_eq (P.trim line) finish_selection)) [
            | inl done ↦
                let step : read_files P (suc fuel) names w ≡ (ok (finished, names), behind) =
                  rw (found, stays, done, read_files) refl in
                subst (IsRead w) (sym step) (less, named)
            | inr more ↦
                let longer : List Text =
                  if text_eq (P.trim line) [] then names else names ++ (P.trim line ∷ []) in
                let step : read_files P (suc fuel) names w ≡ read_files P fuel longer behind =
                  rw (found, stays, more, read_files) refl in
                subst (IsRead w) (sym step) (
                  IsRead-longer behind w _ less (
                    read_files-IsRead fuel longer behind (omega arith)
                      (add_name-AreNames (P.trim line) names named)))
          ]
        ]
  ]

  -- What the second prompt can come to: names, at least one and none of them empty, or the
  -- exception.
  abbrev pub AreSelected : Result (List Text) → Type 0
  AreSelected (ok names) = (0 < length names) × AreNames names
  AreSelected (err e) = e ≡ user_cancelled (text "File selection cancelled.")

  selected-AreSelected :
      (w : World P) (m : Result (Selection × List Text) × World P) (again : M (World P) (List Text))
      → IsRead w m
      → ((t : World P) → length t.input < length w.input → AreSelected (again t).0)
      → AreSelected (continue m (selected P again)).0
  selected-AreSelected w (ok (finished, []), t) again r f = f _ r.0
  selected-AreSelected w (ok (finished, name ∷ names), t) again r f = (omega arith, r.1)
  selected-AreSelected w (ok (cancelled, names), t) again r f = refl
  selected-AreSelected w (ok (exhausted, names), t) again r f = refl
  selected-AreSelected w (err e, t) again r f = absurd r

  AreSelected-loop :
      (fuel : ℕ) (w : World P)
      → length w.input < fuel
      → AreSelected (prompt_files_to_backup P fuel w).0
  unfolding prompt_files_to_backup
  AreSelected-loop zero w h = absurd (omega arith)
  AreSelected-loop (suc fuel) w h =
      let prompted : World P = record w { output = files_prompt ∷ w.output } in
      selected-AreSelected prompted (read_files P (suc (length w.input)) [] prompted)
        (prompt_files_to_backup P fuel)
        (read_files-IsRead (suc (length w.input)) [] prompted (omega arith) tt)
        (λ t less. AreSelected-loop fuel t (omega arith))

  -- The loops of the second prompt end for every input: with names, at least one and none of them
  -- empty, or with the exception of a cancelled selection.
  pub prompt_files_to_backup-AreSelected :
      (w : World P) → AreSelected (prompt_files_to_backup P (suc (length w.input)) w).0
  prompt_files_to_backup-AreSelected w = AreSelected-loop (suc (length w.input)) w (omega arith)
