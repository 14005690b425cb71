-- ===== src/Tests/Programs.antt =====
-- A concrete configuration: one source, one index of it, and the daemon.
use looka.Common.{List, [], ◌∷◌, ◌++◌, Option, none}
use looka.Common.Bytes.{Bytes, codes}
use looka.Config.{Sections, SectionInfo}
use looka.Common.Result.{Result}

abbrev section : Bytes → Bytes → List SectionInfo
section name conf = record { head = record { name = name; parent = [] }; conf = conf } ∷ []

abbrev line : Bytes → Bytes
line s = s ++ (10 ∷ [])

abbrev no_files : Bytes → Option Bytes
no_files path = none

abbrev config : Sections
config =
    (
      codes "index",
      section (codes "i")
          (line (codes "source=s") ++ (line (codes "dict_path=d") ++ line (codes "index_path=p"))),
    )
    ∷ (
      codes "searchd",
      section [] (
          line (codes "listen=1")
          ++ (line (codes "thread_num=1")
              ++ (line (codes "searchd_log=l")
                  ++ (line (codes "query_log=q")
                      ++ (line (codes "pid_file=p")
                          ++ (line (codes "max_matches=1")
                              ++ (line (codes "client_timeout=1")
                                  ++ line (codes "read_timeout=1")))))))),
    )
    ∷ (
      codes "source",
      section (codes "s") (
          line (codes "sql_host=h")
          ++ (line (codes "sql_user=u")
              ++ (line (codes "sql_db=d")
                  ++ (line (codes "sql_query=q") ++ line (codes "sql_port=1"))))),
    )
    ∷ []
