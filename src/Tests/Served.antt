-- ===== src/Tests/Served.antt =====
-- Concrete rows, written to the files of an index and served.
use looka.Common.{[], ◌∷◌}
use looka.Common.Bytes.{Bytes}
use looka.Searchd.{Index}

abbrev junk : Bytes
junk = 1 ∷ 2 ∷ 3 ∷ []
