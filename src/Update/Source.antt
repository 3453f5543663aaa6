-- ===== src/Update/Source.antt =====
-- What a validated bundle says of the directory it was read from.
use siratis_nmbl_bootloader.Prelude.{ℕ, ◌≡◌, Option, some, arith, Bytes, ok, codes}
use siratis_nmbl_bootloader.Update.Manifest.{Libraries}
use siratis_nmbl_bootloader.Update.Bundle.{
  Files, lookup, ValidatedBundle, read_open, read_limited, bundle_files, plain,
}

module _ (lib : Libraries) (files : Files) (bytes : Bytes)
    (present : lookup (codes "manifest.json") files ≡ some (plain bytes)) where
  read_limited-present :
      (limit : ℕ) → read_limited files (codes "manifest.json") limit ≡ read_open bytes limit
  unfolding read_limited
  read_limited-present limit = rw present

  pub manifest_bytes-bundle_files :
      (public_key : Option Bytes) (b : ValidatedBundle)
      → bundle_files lib files public_key ≡ ok b
      → b.manifest_bytes ≡ bytes
  unfolding bundle_files
  manifest_bytes-bundle_files public_key b h = ground (arith, read_limited-present 1048576)
