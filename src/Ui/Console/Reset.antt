-- ===== src/Ui/Console/Reset.antt =====
-- The appearance of the terminal behind the client's output (include/ui/console_ui.h: "RESET should be
-- emitted after formatted text to restore the terminal's default appearance").
use encrypted_backup_client.Base.{
  ◌≡◌, ◌⊎◌, Bool, true, false, not, ◌&&◌, ◌==◌, if◌then◌else◌, [], ◌∷◌, ◌++◌, All, Text,
}
use encrypted_backup_client.System.World.{Line, log_unwritten}
use encrypted_backup_client.Utils.Validation.{all_chars}
use encrypted_backup_client.Utils.Validation.Laws.{all_chars-All}
use encrypted_backup_client.Ui.Color
use encrypted_backup_client.Ui.Console.{Statement, coloured, plain}

-- A terminal: what follows an escape character sets a style, but for "[0m", which resets it. The
-- result is whether a style is set behind the text.
unfoldable pub is_reset : Text → Bool
is_reset [] = false
is_reset (a ∷ []) = false
is_reset (a ∷ b ∷ []) = false
is_reset (a ∷ b ∷ c ∷ s) = a == b'[' && (b == b'0' && c == b'm')

unfoldable pub styled_behind : Bool → Text → Bool
styled_behind styled [] = styled
styled_behind styled (c ∷ s) = styled_behind (if c == 27 then not (is_reset s) else styled) s

-- A text without an escape character changes nothing.
abbrev pub IsPlain : Text → Type 0
IsPlain s = All (λ c. not (c == 27) ≡ true) s

-- The message of a failed log has no reset behind it.
abbrev pub IsHarmless : Line → Type 0
IsHarmless (log_unwritten what) = IsPlain what
IsHarmless line = Unit

pub IsPlain-all_chars : (s : Text) → all_chars (λ c. not (c == 27)) s ≡ true → IsPlain s
IsPlain-all_chars s h = (all_chars-All (λ c. not (c == 27)) s).0 h

-- A statement without a reset has no escape character.
abbrev IsSafe : Statement → Type 0
IsSafe (coloured color message) = Unit
IsSafe (plain message) = IsPlain message

-- What is printed so far: nothing, or whole lines, and no style behind it.
record IsClear (s : Text) : Type 0 where
  whole : (s ≡ []) ⊎ ((t : Text) × (s ≡ t ++ (10 ∷ [])))
  unstyled : styled_behind false s ≡ false
