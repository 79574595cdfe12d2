-- ===== src/Rotation/Success.antt =====
-- `rotateRoot` of path_rotate_root.go: what has been done when a rotation comes back as rotated.
use Prim.Native.String.{String}
use vault_custom_secrets_eng.Host.{Host}
use vault_custom_secrets_eng.Rotation.Rotate.{Rotation}
