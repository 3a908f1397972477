-- ===== src/Builder/Args/Examples.antt =====
-- Build arguments in texts.
use dck.Base.{◌≡◌, List, [], ◌∷◌, refl}
use dck.Base.Bytes.{codes}
use dck.Base.Assoc.{lookup}
use dck.Builder.Args.{
  BuildArgs, expand_build_arg, expand_from, next_place, write_at, write_end, value_of,
}
use dck.Builder.Args.Expand.{
  Piece, literal, in_braces, named, print_pieces, pieces_value, expand_build_arg_pieces,
}

abbrev args : BuildArgs
args = (codes "V", codes "1$V") ∷ (codes "ARCH", codes "arm") ∷ []

abbrev pieces : List Piece
pieces =
    literal (codes "app-")
    ∷ in_braces (codes "V")
    ∷ named (codes "ARCH")
    ∷ literal (codes ".tgz")
    ∷ named (codes "HOME")
    ∷ []

as_text : print_pieces pieces ≡ codes "app-${V}$ARCH.tgz$HOME"
as_text = refl

expanded : expand_build_arg (codes "app-${V}$ARCH.tgz$HOME") args ≡ codes "app-1$Varm.tgz"
unfolding expand_build_arg expand_from next_place write_at write_end value_of lookup
expanded = refl

expand_build_arg_pieces_example :
    expand_build_arg (print_pieces pieces) args ≡ pieces_value args pieces
expand_build_arg_pieces_example =
    expand_build_arg_pieces args pieces
      (refl, (refl, ((refl, refl, refl), (refl, ((refl, refl, refl), tt)))))
