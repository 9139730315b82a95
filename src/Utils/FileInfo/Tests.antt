-- ===== src/Utils/FileInfo/Tests.antt =====
-- The theorems on file infos at one host.
use host_scanner.Prelude.{◌≡◌, refl, true, false, some, [], ◌∷◌, if◌then◌else◌}
use host_scanner.Prelude.Bytes.{codes, bytes_eq}
use host_scanner.Prelude.FilePath.{path_join}
use host_scanner.Prelude.Int.{pos}
use host_scanner.GoError.{not_exist, ok, err}
use host_scanner.Host.{Host, Stat}
use host_scanner.Utils.Users.Caching.{IsRight, nil-IsRight}
use host_scanner.Utils.FileInfo.{
  FileInfo, make_file_info, get_file_permissions, get_file_unix_ownership, read_content,
  make_changed_root_file_info,
}
use host_scanner.Utils.FileInfo.Laws.{
  named, make_changed_root_file_info-make_file_info, make_file_info_sound, OwnerShown, ContentShown,
}

abbrev host : Host
host = record {
  open_file = λ p. err (not_exist p);
  stat = λ p.
      if bytes_eq p (codes "/host_fs/etc/cni")
      then ok (record { perm = 420; is_dir = false; is_regular = true; owner = some (0, 7) })
      else err (not_exist p);
  read_file =
      λ p. if bytes_eq p (codes "/host_fs/etc/cni") then ok (codes "text") else err (not_exist p);
  read_dir = λ p. err (not_exist p);
}

abbrev cni : FileInfo
cni = record {
  ownership = record { err_text = []; uid = pos 0; gid = pos 7; username = []; groupname = [] };
  path = codes "/host_fs/etc/cni";
  content = some (codes "text");
  permissions = 420;
}

make_file_info_sound_example :
    (info : Stat) × (host.stat (codes "/host_fs/etc/cni") ≡ ok info)
    × (cni.path ≡ codes "/host_fs/etc/cni")
    × (cni.permissions ≡ info.perm)
    × OwnerShown cni.ownership info.owner
    × ContentShown host (codes "/host_fs/etc/cni") true cni.content
unfolding make_file_info get_file_permissions get_file_unix_ownership read_content bytes_eq
make_file_info_sound_example = make_file_info_sound host (codes "/host_fs/etc/cni") true cni refl

make_changed_root_file_info-make_file_info_example :
    ((make_changed_root_file_info host (codes "/host_fs") (codes "/etc/cni") true []).0
      ≡ named host
          (codes "/host_fs")
          (codes "/etc/cni")
          (make_file_info host (path_join (codes "/host_fs" ∷ codes "/etc/cni" ∷ [])) true))
    × IsRight host
        (make_changed_root_file_info host (codes "/host_fs") (codes "/etc/cni") true []).1
make_changed_root_file_info-make_file_info_example =
    make_changed_root_file_info-make_file_info host (codes "/host_fs") (codes "/etc/cni") true []
      (nil-IsRight host)
