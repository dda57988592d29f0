-- ===== src/Tests/Selection.antt =====
-- The prompts for the directory and the files with what a user types.
use encrypted_backup_client.Base.{suc, [], length, text}
use encrypted_backup_client.System.World.{World}
use encrypted_backup_client.Ui.Selection.{prompt_files_to_backup}
use encrypted_backup_client.Ui.Selection.Prompts.{AreSelected, prompt_files_to_backup-AreSelected}
use encrypted_backup_client.Tests.Machine.{machine, world, no_files}

-- A name with a character that is refused, then one that is accepted, then the names of files.
abbrev typing : World machine
typing = world no_files [] (text "my*dir\ndocs\na.txt\n\nb.txt\ndone\n")

abbrev listing : World machine
listing = world no_files [] (text "a.txt\n\nb.txt\ndone\n")

prompt_files_to_backup-AreSelected_example :
    AreSelected machine (prompt_files_to_backup machine (suc (length listing.input)) listing).0
prompt_files_to_backup-AreSelected_example = prompt_files_to_backup-AreSelected machine listing
