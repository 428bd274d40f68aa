-- ===== src/Vfs/Names.antt =====
-- fs/fs.c: the comparison of paths.
use bingos.Common.{Bool, true, false, ◌&&◌, List, [], ◌∷◌}
use bingos.Common.Names.{Name, name_eq}

-- Equality of the components behind the first.
unfoldable pub rest_eq : List Name → List Name → Bool
rest_eq [] [] = true
rest_eq [] (q ∷ qs) = false
rest_eq (p ∷ ps) [] = false
rest_eq (p ∷ ps) (q ∷ qs) = name_eq p q && rest_eq ps qs
