-- ===== src/Fs/Tests/Mounting.antt =====
-- 4-fs: the theorems on mounting and the arguments of `main`, applied to the small mount.
use sistemas_operativos_fiub.Common.{◌≡◌, refl, true, [], ◌∷◌, leb, if◌then◌else◌}
use sistemas_operativos_fiub.Fs.Mount.{create_root, Layout, Disk, init, destroy}
use sistemas_operativos_fiub.Fs.Mount.Laws.{init-destroy}
use sistemas_operativos_fiub.Fs.Tests.{host, table_2}

abbrev good_disk : Disk
good_disk = record {
  image = [];
  read_open_ok = true;
  calloc_ok = true;
  write_open_ok = true;
  fwrite_ok = true;
  stored = 4096;
}

-- A layout that serves for the small table: two bytes, which stand for it.
abbrev small_layout : Layout
small_layout = record { size = 2; bytes = λ sb. 7 ∷ 9 ∷ []; load = λ bytes. table_2 }

init-destroy_example :
    ((destroy small_layout table_2 good_disk).0 ≡ true)
    × ((init small_layout host (destroy small_layout table_2 good_disk).1).0
        ≡ (if leb 2 4096 then table_2 else create_root host))
init-destroy_example = init-destroy small_layout host table_2 good_disk refl refl refl refl refl
