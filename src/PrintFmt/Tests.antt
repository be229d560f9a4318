-- ===== src/PrintFmt/Tests.antt =====
-- Runs of lib/printfmt.c.
use fos_kernel.Prelude.{◌≡◌, refl, some, [], ◌∷◌, arith}
use fos_kernel.PrintFmt.{printnum}
use fos_kernel.PrintFmt.Number.{Printed, printnum-Printed}

-- 255 with `%04x` is "00ff".
printnum-hex : printnum 65 255 16 4 48 ≡ some (48 ∷ 48 ∷ 102 ∷ 102 ∷ [])
unfolding printnum
printnum-hex = refl

printnum_example : Printed 255 16 4 48 (printnum 65 255 16 4 48)
printnum_example = printnum-Printed 16 48 255 4 (omega arith) (omega arith) (omega arith)
