-- ===== src/Devfs/Tests.antt =====
-- A device file system of morelib/devfs.c with two directories and two devices: "/", "/null", "/d", "/d/x".
use morelibc.Base.{
  All, NulFree, ℕ, ◌≡◌, refl, Bool, true, none, List, [], ◌∷◌, err, eisdir, enodev, enotdir, erofs,
  ◌==◌, bit_and, arith,
}
use morelibc.Devfs.{
  DevfsEntry, DevfsDir, devfs_lookup, devfs_open, devfs_opendir, devfs_stat, listed, readdir_loop,
  devfs_readdir, devfs_rewinddir,
}
use morelibc.Devfs.Listing.{Listing, read_all, devfs_rewinddir-read_all}
use morelibc.Dev.{opendev, finddev}
use morelibc.Ring.{memchr}
use morelibc.Vfs.Path.{vfs_compare_path, strncmp}

abbrev root : DevfsEntry
root = record { path = b'/' ∷ []; mode = 0x41ed; dev = 0 }

abbrev entries : List DevfsEntry
entries =
    root
    ∷ record { path = b'/' ∷ b'n' ∷ b'u' ∷ b'l' ∷ b'l' ∷ []; mode = 0x21b6; dev = 0x0103 }
    ∷ record { path = b'/' ∷ b'd' ∷ []; mode = 0x41ed; dev = 0 }
    ∷ record { path = b'/' ∷ b'd' ∷ b'/' ∷ b'x' ∷ []; mode = 0x21b6; dev = 0x0105 }
    ∷ []

abbrev s_isdir : ℕ → Bool
s_isdir mode = bit_and mode 0xf000 == 0x4000

-- The directory was read to its end before.
abbrev read_before : DevfsDir
read_before = record { entry = root; index = 4 }

root_listing :
    read_all 0xf000 5 entries (devfs_rewinddir read_before)
    ≡ record { d_type = 2; d_name = b'n' ∷ b'u' ∷ b'l' ∷ b'l' ∷ [] }
      ∷ record { d_type = 4; d_name = b'd' ∷ [] }
      ∷ []
unfolding read_all devfs_rewinddir devfs_readdir readdir_loop listed vfs_compare_path memchr strncmp
root_listing = refl

create_refused : devfs_open 0x200 0x800 s_isdir [] entries (b'/' ∷ b'z' ∷ []) 0x202 ≡ err erofs
unfolding devfs_open devfs_lookup
create_refused = refl

open_directory : devfs_open 0x200 0x800 s_isdir [] entries (b'/' ∷ []) 0 ≡ err eisdir
unfolding devfs_open devfs_lookup
open_directory = refl

no_driver :
    devfs_open 0x200 0x800 s_isdir [] entries (b'/' ∷ b'd' ∷ b'/' ∷ b'x' ∷ []) 2 ≡ err enodev
unfolding devfs_open devfs_lookup opendev finddev
no_driver = refl

no_directory : devfs_opendir s_isdir true entries (b'/' ∷ b'd' ∷ b'/' ∷ b'x' ∷ []) ≡ err enotdir
unfolding devfs_opendir devfs_lookup
no_directory = refl

not_found : devfs_stat entries (b'z' ∷ []) ≡ none
unfolding devfs_stat devfs_lookup
not_found = refl

entries-NulFree : All (λ entry. NulFree entry.path) entries
entries-NulFree = (
  (omega arith, tt),
  (
    (omega arith, (omega arith, (omega arith, (omega arith, (omega arith, tt))))),
    (
      (omega arith, (omega arith, tt)),
      ((omega arith, (omega arith, (omega arith, (omega arith, tt)))), tt),
    ),
  ),
)

devfs_rewinddir-read_all_example :
    Listing 0xf000 (b'/' ∷ []) entries (read_all 0xf000 5 entries (devfs_rewinddir read_before))
devfs_rewinddir-read_all_example =
    devfs_rewinddir-read_all 0xf000 5 entries read_before (omega arith) refl entries-NulFree
