-- ===== src/Programs.antt =====
-- The main functions of src/indexer/looka_indexer_main.cpp and src/searchd/looka_searchd_main.cpp,
-- from the loaded configuration on: which indexes `DoIndex` is called for and which one is served. `none` is
-- the end of the process, a fault the read through a null pointer.
use looka.Common.{List, [], ◌∷◌, Option, none, some, if◌then◌else◌}
use looka.Common.Bytes.{Bytes, codes, bytes_beq}
use looka.Common.Result.{Result, ok, fault}
use looka.Config.{Sections, get_section_names}
use looka.Config.Sources.{
  SourceConfig, IndexConfig, SearchdConfig, source_config, index_config, searchd_config,
}

infixl 5 ◌>>=◌
abbrev ◌>>=◌ {ℓ κ} : {A : Type ℓ} {B : Type κ} → Option A → (A → Option B) → Option B
none >>= f = none
some a >>= f = f a

-- `std::map::find`: an `insert` of a key that is there has no effect.
abbrev find_config {ℓ} : {A : Type ℓ} → Bytes → List (Bytes × A) → Option A
find_config name [] = none
find_config name ((k, a) ∷ m) = if bytes_beq k name then some a else find_config name m

-- `lc_source.insert` for each name of a source section.
unfoldable pub sources :
    (Bytes → Option Bytes) → List Bytes → Sections → Option (List (Bytes × SourceConfig))
unfolding source_config
sources files [] m = some []
sources files (name ∷ names) m = do
  cfg ← source_config files name m
  rest ← sources files names m
  some ((name, cfg) ∷ rest)

-- `lc_index.insert` for each name of an index section.
unfoldable pub indexes : List Bytes → Sections → Option (List (Bytes × IndexConfig))
unfolding index_config
indexes [] m = some []
indexes (name ∷ names) m = do
  cfg ← index_config name m
  rest ← indexes names m
  some ((name, cfg) ∷ rest)

-- The index of a name with its source: `none` where there is no such source.
abbrev pub pair_of :
    List (Bytes × SourceConfig)
    → List (Bytes × IndexConfig)
    → Bytes
    → Option (SourceConfig × IndexConfig)
pair_of lc_source lc_index name = do
  index_cfg ← find_config name lc_index
  source_cfg ← find_config index_cfg.source lc_source
  some (source_cfg, index_cfg)

-- The loop of the indexer: `DoIndex` for each index that has a source, the others are passed over.
unfoldable pub index_jobs :
    List (Bytes × SourceConfig)
    → List (Bytes × IndexConfig)
    → List Bytes
    → List (SourceConfig × IndexConfig)
index_jobs lc_source lc_index [] = []
index_jobs lc_source lc_index (name ∷ names) =
    let rest = index_jobs lc_source lc_index names in
    elim (pair_of lc_source lc_index name) [ none ↦ rest | some job ↦ job ∷ rest ]

-- The loop of the daemon: it breaks at the first index that has a source; `none` is the null
-- pointer that `searchd` keeps where there is no such index.
unfoldable pub served :
    List (Bytes × SourceConfig)
    → List (Bytes × IndexConfig)
    → List Bytes
    → Option (SourceConfig × IndexConfig)
served lc_source lc_index [] = none
served lc_source lc_index (name ∷ names) =
    let rest = served lc_source lc_index names in
    elim (pair_of lc_source lc_index name) [ none ↦ rest | some job ↦ some job ]

-- `main` of the indexer: what `DoIndex` is called for, in turn.
unfoldable pub indexer_main :
    (Bytes → Option Bytes) → Sections → Option (List (SourceConfig × IndexConfig))
unfolding get_section_names sources indexes index_jobs
indexer_main files m =
    let index_names = get_section_names (codes "index") m in
    do
      lc_source ← sources files (get_section_names (codes "source") m) m
      lc_index ← indexes index_names m
      some (index_jobs lc_source lc_index index_names)

abbrev with_settings :
    SearchdConfig
    → Option (SourceConfig × IndexConfig)
    → Result (SearchdConfig × SourceConfig × IndexConfig)
with_settings cfg none = fault
with_settings cfg (some (source, index)) = ok (cfg, source, index)

-- `main` of the daemon up to `Start`: the settings of the server, and the source and the index that
-- it serves. Without such an index it reads `searchd->m_searchd_cfg` through the null pointer.
unfoldable pub searchd_main :
    (Bytes → Option Bytes) → Sections → Option (Result (SearchdConfig × SourceConfig × IndexConfig))
unfolding get_section_names sources indexes served searchd_config
searchd_main files m =
    let index_names = get_section_names (codes "index") m in
    do
      lc_source ← sources files (get_section_names (codes "source") m) m
      lc_index ← indexes index_names m
      lc_searchd ← searchd_config [] m
      some (with_settings lc_searchd (served lc_source lc_index index_names))

abbrev first_of {ℓ} : {A : Type ℓ} → List A → Option A
first_of [] = none
first_of (a ∷ rest) = some a

-- A daemon with the settings `cfg` serves the first of the indexer's jobs, and faults without one.
abbrev pub serves_first :
    SearchdConfig
    → List (SourceConfig × IndexConfig)
    → Result (SearchdConfig × SourceConfig × IndexConfig)
serves_first cfg [] = fault
serves_first cfg ((source, index) ∷ jobs) = ok (cfg, source, index)
