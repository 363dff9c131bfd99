-- ===== src/Examples/Documents.antt =====
-- The theorems on timelines and WAL files, applied to concrete values.
use hysteron.Base.{true, some, [], ◌∷◌, ◌≡◌, ◌↔◌, arith, leb, ◌+◌, ◌*◌, ◌/◌}
use hysteron.Cluster.Timeline.{detect_timeline_branch_divergence}
use hysteron.Cluster.Timeline.Divergence.{Diverged, different_iff_Diverged}
use hysteron.Postgres.Wal.{pg_lsn_to_int, int_to_pg_lsn, is_required_wal_available, wal_seg_size}
use hysteron.Postgres.Wal.Order.{wal_file_name, is_required_wal_available_lem}
use hysteron.Postgres.Wal.RoundTrip.{pg_lsn_to_int-int_to_pg_lsn}
use hysteron.Examples.World.{ended}

different_iff_Diverged_example :
    ((detect_timeline_branch_divergence 2 (ended 1 70 ∷ []) 90 1 [] 80).different ≡ true)
    ↔ Diverged 2 (ended 1 70 ∷ []) 1 [] 80
different_iff_Diverged_example = different_iff_Diverged 2 (ended 1 70 ∷ []) 90 1 [] 80

is_required_wal_available_lem_example :
    is_required_wal_available 50_000_000 (wal_file_name 1 0 2) wal_seg_size
    ≡ some (leb (0 * 256 + 2) (50_000_000 / wal_seg_size))
is_required_wal_available_lem_example =
    is_required_wal_available_lem 50_000_000 1 0 2 (omega arith) (omega arith) (omega arith)

pg_lsn_to_int-int_to_pg_lsn_example : pg_lsn_to_int (int_to_pg_lsn 50_000_000) ≡ some 50_000_000
pg_lsn_to_int-int_to_pg_lsn_example = pg_lsn_to_int-int_to_pg_lsn 50_000_000 (omega arith)
