-- ===== src/Base/Disk/Names.antt =====
-- A name with another extension.
use penguinsync.Base.Keys.{Str, bytes_key}
use Prim.Native.Nat.{suc, ◌+◌, ◌≤◌, ◌<◌}
use mathlib.Core.Path.{◌≡◌, ap}
use mathlib.Core.List.{[], ◌∷◌, ◌++◌}
use native.Mathlib.Omega.{arith}
use penguinsync.Base.Disk.{dots, before_last_dot, file_stem, with_extension}

dots-append : (front back : Str) → dots (front ++ back) ≡ dots front + dots back
unfolding dots
dots-append [] back = omega arith
dots-append (c ∷ front) back = ground (arith, dots-append front back)

dots-before_last_dot : (name : Str) → dots name ≤ suc (dots (before_last_dot name))
unfolding dots before_last_dot
dots-before_last_dot [] = omega arith
dots-before_last_dot (c ∷ rest) = ground (arith, dots-before_last_dot rest)

dots-file_stem : (name : Str) → dots name ≤ suc (dots (file_stem name))
unfolding dots file_stem
dots-file_stem [] = omega arith
dots-file_stem (c ∷ rest) = ground (arith, dots-before_last_dot rest)

-- An extension that has a dot itself makes another name.
pub with_extension-differs :
    (name extension : Str) → 0 < dots extension → ¬ (with_extension name extension ≡ name)
unfolding dots with_extension
with_extension-differs name extension h e =
    omega (arith, ap dots e, dots-append (file_stem name) (b'.' ∷ extension), dots-file_stem name)
