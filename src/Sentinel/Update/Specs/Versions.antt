-- ===== src/Sentinel/Update/Specs/Versions.antt =====
-- When the end of a round in cluster_update.go lets specifications and generations be.
use mathlib.Core.Option
use hysteron.Base.{Option, ℕ}
use hysteron.Cluster.Entities.{Db, DbSpec}
use hysteron.Sentinel.Update.Specs.{next_generation}

-- The specification and the generation of a database.
abbrev pub version : Db → DbSpec × ℕ
version db = (db.spec, db.generation)

abbrev bumped : Option Db → Db → Db
bumped prev db = record db { generation = next_generation prev db }
