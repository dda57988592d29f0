-- ===== src/Ui/Color.antt =====
-- The ANSI escape sequences of include/ui/console_ui.h, class Color.
use encrypted_backup_client.Base.{◌∷◌, Text, text}

abbrev pub red : Text
red = 27 ∷ text "[91m"

abbrev pub green : Text
green = 27 ∷ text "[92m"

abbrev pub yellow : Text
yellow = 27 ∷ text "[93m"

abbrev blue : Text
blue = 27 ∷ text "[94m"

abbrev purple : Text
purple = 27 ∷ text "[95m"

abbrev cyan : Text
cyan = 27 ∷ text "[96m"

abbrev pub bold : Text
bold = 27 ∷ text "[1m"

abbrev underline : Text
underline = 27 ∷ text "[4m"

abbrev pub reset : Text
reset = 27 ∷ text "[0m"
