-- ===== src/Bitmap/Examples.antt =====
-- Two bytes of a bitmap that begins at bit 256.
use yuios.Common.{◌⊎◌, [], ◌∷◌, arith}
use yuios.Bitmap.{Bitmap, scan}
use yuios.Bitmap.Access.{IsValid}
use yuios.Bitmap.Scan.{Taken, NoRoom, scan_lem}

abbrev two_bytes : Bitmap
two_bytes = record { bits = 0xb7 ∷ 0x01 ∷ []; length = 2; offset = 256 }

two_bytes-IsValid : IsValid two_bytes
two_bytes-IsValid = record {
  inside = omega arith;
  bytes = (omega arith, (omega arith, tt));
  small = omega arith;
}

scan_lem_example : Taken two_bytes 3 (scan two_bytes 3) ⊎ NoRoom two_bytes 3 (scan two_bytes 3)
scan_lem_example = scan_lem two_bytes 3 two_bytes-IsValid (omega arith)
