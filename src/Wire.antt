-- ===== src/Wire.antt =====
-- The parts of Go's strconv and strings that DHP/1 is written with: decimal int64s in Decimal, and
-- Fields, Split and Join in Words.
pub mod Decimal
pub mod Words
