-- ===== src/Errors.antt =====
-- driver/errors.go: the named errors, and the errors that wrap another one.
use csi_thalassa.Prelude.{String, ◌≡◌, refl, ◌<>◌}
use csi_thalassa.Status.{Error, plain, wrap, text, is_not_found}

abbrev pub err_device_not_found : Error
err_device_not_found = plain "device not found"

abbrev pub err_device_not_attached : Error
err_device_not_attached = plain "device not attached"

abbrev pub err_device_not_formatted : Error
err_device_not_formatted = plain "device not formatted"

abbrev pub err_mount_failed : Error
err_mount_failed = plain "mount failed"

abbrev pub err_unmount_failed : Error
err_unmount_failed = plain "unmount failed"

abbrev pub err_invalid_path : Error
err_invalid_path = plain "invalid path"

abbrev pub err_invalid_volume_id : Error
err_invalid_volume_id = plain "invalid volume ID"

abbrev pub err_invalid_mount_point : Error
err_invalid_mount_point = plain "invalid mount point"

-- `DeviceError`, `MountError` and `FilesystemError`: an operation and its error.
pub data OperationError : Type 0 where
  device_error mount_error filesystem_error : (op : String) → Error → OperationError

unfoldable pub unwrap : OperationError → Error
unwrap (device_error op e) = e
unwrap (mount_error op e) = e
unwrap (filesystem_error op e) = e

unfoldable pub error_text : OperationError → String
unfolding text
error_text (device_error op e) = "device error: " <> op <> ": " <> text e
error_text (mount_error op e) = "mount error: " <> op <> ": " <> text e
error_text (filesystem_error op e) = "filesystem error: " <> op <> ": " <> text e

-- Such an error among the others.
unfoldable pub operation_error : OperationError → Error
operation_error (device_error op e) = wrap ("device error: " <> op) e
operation_error (mount_error op e) = wrap ("mount error: " <> op) e
operation_error (filesystem_error op e) = wrap ("filesystem error: " <> op) e

-- It is looked through for the API's ErrNotFound.
pub operation_error-unwrap :
    (e : OperationError) → is_not_found (operation_error e) ≡ is_not_found (unwrap e)
unfolding operation_error unwrap is_not_found
operation_error-unwrap (device_error op e) = refl
operation_error-unwrap (mount_error op e) = refl
operation_error-unwrap (filesystem_error op e) = refl

a_mount_error : error_text (mount_error "bind" err_invalid_path) ≡ "mount error: bind: invalid path"
unfolding error_text
a_mount_error = refl
