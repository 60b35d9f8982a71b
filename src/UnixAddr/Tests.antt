-- ===== src/UnixAddr/Tests.antt =====
-- The path "/tmp".
use zedlibs.Prelude.{ℕ, List, [], ◌∷◌, arith}
use Prim.{tt}
use zedlibs.UnixAddr.{parse}
use zedlibs.UnixAddr.Names.{HasNoZero, Parsed, parse-Parsed}

abbrev tmp : List ℕ
tmp = 47 ∷ 116 ∷ 109 ∷ 112 ∷ []

tmp-HasNoZero : HasNoZero tmp
unfolding HasNoZero
tmp-HasNoZero = (omega arith, (omega arith, (omega arith, (omega arith, tt))))

parse-Parsed_example : Parsed tmp (parse tmp)
parse-Parsed_example = parse-Parsed tmp tmp-HasNoZero
