-- ===== src/Vfs/Path/Tests.antt =====
-- Runs of the path functions of morelib/vfs.c, and the theorems about them at concrete inputs.
use morelibc.Base.{ℕ, ◌≡◌, refl, none, some, List, [], ◌∷◌, replicate, store, c_string, ok, arith}
use morelibc.Vfs.Path.{
  slash, dot, strchrnul, strncmp, strrchr, vfs_compare_path, expand_step, expand_loop, finish,
  start_relative, vfs_expand_path,
}
use morelibc.Vfs.Path.DotDot.{dotdot_twice}
use morelibc.Vfs.Path.Canonical.{vfs_expand_path_lem}

-- A buffer of zeros.
abbrev blank : List ℕ
blank = replicate 254 0

-- "/a/./b//c/"
abbrev untidy : List ℕ
untidy = slash ∷ b'a' ∷ slash ∷ dot ∷ slash ∷ b'b' ∷ slash ∷ slash ∷ b'c' ∷ slash ∷ []

expand_untidy :
    vfs_expand_path none blank untidy ≡ ok (slash ∷ b'a' ∷ slash ∷ b'b' ∷ slash ∷ b'c' ∷ [])
unfolding vfs_expand_path expand_loop expand_step strchrnul strncmp strrchr finish store c_string
expand_untidy = refl

-- "/a/b/.." is "/a", and so is "/a/b/../..".
expand_parent :
    vfs_expand_path none blank
      (slash ∷ b'a' ∷ slash ∷ b'b' ∷ slash ∷ dot ∷ dot ∷ slash ∷ dot ∷ dot ∷ [])
    ≡ ok (slash ∷ b'a' ∷ [])
unfolding vfs_expand_path expand_loop expand_step strchrnul strncmp strrchr finish store c_string
expand_parent = refl

expand_relative :
    vfs_expand_path (some (slash ∷ b'x' ∷ [])) blank (b'y' ∷ [])
    ≡ ok (slash ∷ b'x' ∷ slash ∷ b'y' ∷ [])
unfolding vfs_expand_path expand_loop expand_step strchrnul strncmp strrchr finish store c_string
    start_relative
expand_relative = refl

compare_root : vfs_compare_path (slash ∷ []) untidy ≡ some untidy
unfolding vfs_compare_path strncmp
compare_root = refl

dotdot_twice_example :
    vfs_expand_path none blank (slash ∷ b'a' ∷ slash ∷ dot ∷ dot ∷ slash ∷ dot ∷ dot ∷ [])
    ≡ vfs_expand_path none blank (slash ∷ b'a' ∷ slash ∷ dot ∷ dot ∷ [])
dotdot_twice_example = dotdot_twice none blank slash (b'a' ∷ [])

vfs_expand_path_lem_example :
    vfs_expand_path none blank untidy ≡ ok (slash ∷ b'a' ∷ slash ∷ b'b' ∷ slash ∷ b'c' ∷ [])
vfs_expand_path_lem_example =
    vfs_expand_path_lem none blank slash
      (b'a' ∷ slash ∷ dot ∷ slash ∷ b'b' ∷ slash ∷ slash ∷ b'c' ∷ slash ∷ []) refl tt (omega arith)
      (refl, (refl, (refl, (refl, (refl, (refl, (refl, tt)))))))
