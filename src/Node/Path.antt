-- ===== src/Node/Path.antt =====
-- The path of a volume's device under /dev/disk/by-id.
use package.text.Mathlib.Text.{starts_with}
use csi_thalassa.Prelude.{
  not, ◌&&◌, String, ◌≡◌, refl, List, [], ◌∷◌, ◌==◌, ◌||◌, ◌<>◌, if◌then◌else◌,
}
use csi_thalassa.Prelude.Text.{split}

-- The elements of a rooted path so far, the last one first, as `filepath.Clean` keeps them.
clean : List String → List String → List String
clean kept [] = kept
clean [] (p ∷ path) =
    if p == "" || p == "." || p == ".." then clean [] path else clean (p ∷ []) path
clean (k ∷ kept) (p ∷ path) =
    if p == "" || p == "."
    then clean (k ∷ kept) path
    else if p == ".."
    then clean kept path
    else clean (p ∷ k ∷ kept) path

rooted : List String → String
rooted [] = ""
rooted (k ∷ kept) = rooted kept <> "/" <> k

-- `filepath.Clean` of a path that starts with `/`
unfoldable pub clean_rooted : String → String
unfolding clean rooted split
clean_rooted path =
    let text = rooted (clean [] (split path "/")) in if text == "" then "/" else text

-- `filepath.Join` of the directory and the prefixed name
unfoldable pub get_device_by_id_path : String → String
unfolding clean_rooted
get_device_by_id_path volume_name =
    clean_rooted ("/dev/disk/by-id/scsi-0QEMU_QEMU_HARDDISK_" <> volume_name)

a_device : get_device_by_id_path "vol-1" ≡ "/dev/disk/by-id/scsi-0QEMU_QEMU_HARDDISK_vol-1"
unfolding get_device_by_id_path
a_device = refl

-- a name with `..` in it leaves the directory
a_stray_device : get_device_by_id_path "/../../../sda" ≡ "/dev/sda"
unfolding get_device_by_id_path
a_stray_device = refl

-- The elements of a relative path so far: what leads out of the directory stays.
clean_up : List String → List String → List String
clean_up kept [] = kept
clean_up [] (p ∷ path) = if p == "" || p == "." then clean_up [] path else clean_up (p ∷ []) path
clean_up (k ∷ kept) (p ∷ path) =
    if p == "" || p == "."
    then clean_up (k ∷ kept) path
    else if p == ".." && not (k == "..")
    then clean_up kept path
    else clean_up (p ∷ k ∷ kept) path

relative : List String → String
relative [] = "."
relative (k ∷ []) = k
relative (k ∷ l ∷ kept) = relative (l ∷ kept) <> "/" <> k

-- `filepath.Clean`
unfoldable pub clean_path : String → String
unfolding clean_rooted clean_up relative split
clean_path path =
    if starts_with path "/" then clean_rooted path else relative (clean_up [] (split path "/"))

-- `filepath.Split`: what stands up to the last slash, which is kept, and what stands after it
split_last : List String → String × String
split_last [] = ("", "")
split_last (p ∷ []) = ("", p)
split_last (p ∷ q ∷ path) = let (dir, file) = split_last (q ∷ path) in (p <> "/" <> dir, file)

unfoldable pub split_path : String → String × String
unfolding split_last split
split_path path = split_last (split path "/")

-- `filepath.Dir`
unfoldable pub dir : String → String
unfolding clean_path split_path
dir path = clean_path (split_path path).0

a_dir : dir "/var/lib//kubelet/vol-1" ≡ "/var/lib/kubelet"
unfolding dir
a_dir = refl

a_file : split_path "/dev/sdb" ≡ ("/dev/", "sdb")
unfolding split_path
a_file = refl
