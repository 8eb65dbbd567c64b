-- ===== src/Tests/Finalize.antt =====
-- `FinalizeBackup` at a concrete target.
use kube_rsync_machine.Common.{◌+◌, ◌%◌, [], ◌∷◌, some}
use kube_rsync_machine.Common.Int.{negsuc}
use kube_rsync_machine.Common.Eq.{GoString_eq}
use kube_rsync_machine.Common.Text.{codes}
use kube_rsync_machine.Dataplane.Files.{FilePath_eq, Files, directory, file}
use kube_rsync_machine.Dataplane.Finalize.{Calendar, FinalizeOptions}
use kube_rsync_machine.Dataplane.Finalize.Promoted.{Finalized, finalize_backup}
use kube_rsync_machine.Tests.Retention.{system}

-- Every text is the tenth day, a Sunday.
abbrev calendar : Calendar
calendar = record {
  parse = λ text. some 10;
  weekday = λ day. (day + 4) % 7;
  day_text = λ day. (b'0' + day) ∷ [];
  month_text = λ day. codes "m";
}

abbrev options : FinalizeOptions
options = record {
  target_root = codes "/target";
  run_id = codes "r";
  timestamp = codes "t";
  sources = codes "a" ∷ [];
  retention = record {
    hourly_count = negsuc 0;
    daily_count = negsuc 0;
    weekly_count = negsuc 0;
    monthly_count = negsuc 0;
  };
}

abbrev received : Files
received =
    (codes ".partial" ∷ [], directory)
    ∷ (codes ".partial" ∷ codes "r" ∷ [], directory)
    ∷ (codes ".partial" ∷ codes "r" ∷ codes "a" ∷ [], directory)
    ∷ (codes ".partial" ∷ codes "r" ∷ codes "a" ∷ codes "f" ∷ [], file 3)
    ∷ []

abbrev run : Finalized
run = finalize_backup system calendar options received
