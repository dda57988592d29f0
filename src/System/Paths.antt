-- ===== src/System/Paths.antt =====
-- Names in one directory: `operator/` of std::filesystem::path tells them apart.
use encrypted_backup_client.Base.{
  ◌≡◌, refl, ◌∙◌, Bool, true, false, if◌then◌else◌, [], ◌∷◌, ◌++◌, Text, text, text_eq, ==_refl,
}
use encrypted_backup_client.System.World.{ends_in_slash, is_absolute, join_path}
use encrypted_backup_client.System.Files.{cl_info_file, aes_key_file, private_key_file}
use encrypted_backup_client.Utils.Logger.{log_file_name}

text_eq-append : (a b c : Text) → text_eq (a ++ b) (a ++ c) ≡ text_eq b c
unfolding text_eq
text_eq-append [] b c = refl
text_eq-append (x ∷ a) b c = rw (==_refl x, text_eq-append a b c) refl

same_dir :
    (slash : Bool) (dir a b : Text)
    → text_eq
        (if slash then dir ++ a else dir ++ (b'/' ∷ a))
        (if slash then dir ++ b else dir ++ (b'/' ∷ b))
      ≡ text_eq a b
same_dir true dir a b = text_eq-append dir a b
same_dir false dir a b = text_eq-append dir (b'/' ∷ a) (b'/' ∷ b) ∙ text_eq-append (b'/' ∷ []) a b

-- Two relative names in one directory are compared by themselves.
join_path_eq :
    (dir a b : Text)
    → is_absolute a ≡ false
    → is_absolute b ≡ false
    → text_eq (join_path dir a) (join_path dir b) ≡ text_eq a b
unfolding join_path
join_path_eq dir a b ha hb = rw (ha, hb) (same_dir (ends_in_slash dir) dir a b)

names_differ :
    (text_eq aes_key_file log_file_name ≡ false)
    × (text_eq cl_info_file private_key_file ≡ false)
    × (text_eq cl_info_file aes_key_file ≡ false)
    × (text_eq private_key_file aes_key_file ≡ false)
unfolding text_eq text
names_differ = (refl, refl, refl, refl)

all_relative :
    (is_absolute aes_key_file ≡ false)
    × (is_absolute log_file_name ≡ false)
    × (is_absolute cl_info_file ≡ false)
    × (is_absolute private_key_file ≡ false)
unfolding is_absolute text
all_relative = (refl, refl, refl, refl)

pub aes_key_is_no_log :
    (dir : Text) → text_eq (join_path dir aes_key_file) (join_path dir log_file_name) ≡ false
aes_key_is_no_log dir =
    join_path_eq dir aes_key_file log_file_name all_relative.0 all_relative.1 ∙ names_differ.0

pub client_info_is_no_private_key :
    (dir : Text) → text_eq (join_path dir cl_info_file) (join_path dir private_key_file) ≡ false
client_info_is_no_private_key dir =
    join_path_eq dir cl_info_file private_key_file all_relative.2 all_relative.3 ∙ names_differ.1

pub client_info_is_no_aes_key :
    (dir : Text) → text_eq (join_path dir cl_info_file) (join_path dir aes_key_file) ≡ false
client_info_is_no_aes_key dir =
    join_path_eq dir cl_info_file aes_key_file all_relative.2 all_relative.0 ∙ names_differ.2

pub private_key_is_no_aes_key :
    (dir : Text) → text_eq (join_path dir private_key_file) (join_path dir aes_key_file) ≡ false
private_key_is_no_aes_key dir =
    join_path_eq dir private_key_file aes_key_file all_relative.3 all_relative.0 ∙ names_differ.3
