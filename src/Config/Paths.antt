-- ===== src/Config/Paths.antt =====
-- internal/config/paths.go.
use shadow_stat.Base.{ℕ, String, Bool, ◌||◌, Option, none, some, if◌then◌else◌, str_eq, ◌==◌}

-- What the operating system answers: MkdirAll, Stat and Create by path, and the environment, where
-- an unset variable is the empty text.
pub record FileSystem : Type 0 where
  pub mkdir_all : String → Bool
  pub exists : String → Bool
  pub create : String → Bool
  pub euid : ℕ
  pub xdg_data_home : String
  pub home_dir : Option String
  -- filepath.Join
  pub join : String → String → String

abbrev pub system_data_dir : String
system_data_dir = "/var/lib/shadowstat"

-- A directory that does not exist is made.
unfoldable pub dir_writable : FileSystem → String → Bool
dir_writable fs dir =
    if fs.exists dir then fs.create (fs.join dir ".shadowstat-write-test") else fs.mkdir_all dir

abbrev made : FileSystem → String → Option String
made fs dir = if fs.mkdir_all dir then some dir else none

abbrev in_base : FileSystem → Option String → Option String
in_base fs none = none
in_base fs (some base) = made fs (fs.join base "shadowstat")

abbrev home_share : FileSystem → Option String → Option String
home_share fs none = none
home_share fs (some home) = some (fs.join (fs.join home ".local") "share")

unfoldable pub user_data_dir : FileSystem → Option String
user_data_dir fs =
    in_base fs
      (if str_eq fs.xdg_data_home "" then home_share fs fs.home_dir else some fs.xdg_data_home)

-- `none` for an error
unfoldable pub resolve_data_dir : FileSystem → String → Option String
unfolding dir_writable user_data_dir
resolve_data_dir fs override =
    if str_eq override ""
    then (if (fs.euid == 0) || dir_writable fs system_data_dir
        then (if fs.mkdir_all system_data_dir then some system_data_dir else user_data_dir fs)
        else user_data_dir fs)
    else made fs override

unfoldable pub db_path : FileSystem → String → String
db_path fs data_dir = fs.join data_dir "shadowstat.db"

unfoldable pub cert_path : FileSystem → String → String
cert_path fs data_dir = fs.join data_dir "cert.pem"

unfoldable pub key_path : FileSystem → String → String
key_path fs data_dir = fs.join data_dir "key.pem"
