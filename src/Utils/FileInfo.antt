-- ===== src/Utils/FileInfo.antt =====
-- sensor/internal/utils/utils.go and sensor/datastructures/fileinfo.go: what is told of a file,
-- on the node, in a container, or under any root directory.
pub mod Laws
mod Tests
use host_scanner.Prelude.{
  ℕ, Bool, true, false, not, Option, none, some, List, [], ◌∷◌, ◌++◌, if◌then◌else◌,
}
use host_scanner.Prelude.Bytes.{Bytes, codes}
use host_scanner.Prelude.FilePath.{path_join}
use host_scanner.Prelude.Int.{ℤ, pos, negsuc}
use host_scanner.GoError.{GoError, failure, error_text, is_not_exist, Result, ok, err, ◌>>=◌}
use host_scanner.Host.{Host, Stat}
use host_scanner.Utils.Users.{M, get_user_name, get_group_name}
use host_scanner.Utils.Process.{ProcessDetails, root_dir}

pub record FileOwnership : Type 0 where
  pub err_text : Bytes
  pub uid : ℤ
  pub gid : ℤ
  pub username : Bytes
  pub groupname : Bytes

-- Nil content is `none`.
pub record FileInfo : Type 0 where
  pub ownership : FileOwnership
  pub path : Bytes
  pub content : Option Bytes
  pub permissions : ℕ

abbrev pub host_file_system_default_location : Bytes
host_file_system_default_location = codes "/host_fs"

abbrev pub err_not_unix_fs : GoError
err_not_unix_fs = failure (codes "operation not supported by the file system")

unfoldable pub host_path : Bytes → Bytes
host_path file_path = path_join (host_file_system_default_location ∷ file_path ∷ [])

-- `err.Error()`, empty without an error.
abbrev pub text_of : Option GoError → Bytes
text_of none = []
text_of (some e) = error_text e

-- A name that was not found is empty.
abbrev pub name_or_empty : Result Bytes → Bytes
name_or_empty (ok name) = name
name_or_empty (err e) = []

-- The path without the root directory, and the names, put into a file info.
abbrev pub with_names : FileInfo → Bytes → Result Bytes → Result Bytes → FileInfo
with_names obj file_path user group =
    let o = obj.ownership in
    record obj {
      path = file_path;
      ownership = record o { username = name_or_empty user; groupname = name_or_empty group };
    }

module _ (host : Host) where
  unfoldable pub read_file_on_host_file_system : Bytes → Result Bytes
  read_file_on_host_file_system file_name = host.read_file (host_path file_name)

  -- The value 0 that comes with an error is dropped.
  unfoldable pub get_file_permissions : Bytes → Result ℕ
  get_file_permissions file_path = do info ← host.stat file_path; ok info.perm

  -- The ids, and the error that may come with them.
  unfoldable pub get_file_unix_ownership : Bytes → ℤ × ℤ × Option GoError
  get_file_unix_ownership file_path = elim (host.stat file_path) [
    | err e ↦ (negsuc 0, negsuc 0, some e)
    | ok info ↦ elim info.owner [
      | none ↦ (negsuc 0, negsuc 0, some err_not_unix_fs)
      | some (uid, gid) ↦ (pos uid, pos gid, none)
    ]
  ]

  unfoldable pub is_path_exists : Bytes → Bool
  is_path_exists filename = elim (host.stat filename) [
    | ok info ↦ true
    | err e ↦ not (is_not_exist e)
  ]

  -- The content, if it is wanted.
  unfoldable pub read_content : Bytes → Bool → Result (Option Bytes)
  read_content file_path false = ok none
  read_content file_path true = do content ← host.read_file file_path; ok (some content)

  unfoldable pub make_file_info : Bytes → Bool → Result FileInfo
  make_file_info file_path want_content = do
    perms ← get_file_permissions file_path
    let (uid, gid, e) = get_file_unix_ownership file_path
    content ← read_content file_path want_content
    ok (record {
      ownership = record {
        err_text = text_of e;
        uid = uid;
        gid = gid;
        username = [];
        groupname = [];
      };
      path = file_path;
      content = content;
      permissions = perms;
    })

  unfoldable pub make_changed_root_file_info : Bytes → Bytes → Bool → M (Result FileInfo)
  make_changed_root_file_info root file_path want_content cache =
      elim (make_file_info (path_join (root ∷ file_path ∷ [])) want_content) [
        | err e ↦ (err e, cache)
        | ok obj ↦
            let (user, cache₁) = get_user_name host obj.ownership.uid root cache in
            let (group, cache₂) = get_group_name host obj.ownership.gid root cache₁ in
            (ok (with_names obj file_path user group), cache₂)
      ]

  unfoldable pub make_containered_file_info : ProcessDetails → Bytes → Bool → M (Result FileInfo)
  make_containered_file_info p = make_changed_root_file_info (root_dir p)

  unfoldable pub make_host_file_info : Bytes → Bool → M (Result FileInfo)
  make_host_file_info = make_changed_root_file_info host_file_system_default_location
