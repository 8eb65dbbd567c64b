-- ===== src/Controller/Runs/Transfers.antt =====
-- The loop over the transfers in `ApplySourceEventToBackupJob` of internal/controller/events.go.
use kube_rsync_machine.Common.{
  ◌≡◌, refl, false, List, [], ◌∷◌, Option, none, some, if◌then◌else◌, arith, Bool-cases, inl, inr,
}
use kube_rsync_machine.Common.Text.{GoString, str_eq, str_eq_iff}
use kube_rsync_machine.Control.Types.{SourceEvent}
use kube_rsync_machine.Controller.Clock.{Time, Clock, at}
use kube_rsync_machine.Controller.Transfers.{TransferStatus, new_transfer, update_transfer}
use kube_rsync_machine.Controller.Transfers.Laws.{HasTimes, update_transfer_again}
use kube_rsync_machine.Controller.Runs.{update_source}

-- The first transfer of a source.
abbrev pub of_source : GoString → List TransferStatus → Option TransferStatus
of_source source [] = none
of_source source (t ∷ transfers) =
    if str_eq t.source source then some t else of_source source transfers

-- No source has two transfers.
abbrev pub AreDistinct : List TransferStatus → Type 0
AreDistinct [] = Unit
AreDistinct (t ∷ transfers) = (of_source t.source transfers ≡ none) × AreDistinct transfers

abbrev pub or_new : GoString → Option TransferStatus → TransferStatus
or_new source none = new_transfer source
or_new source (some transfer) = transfer

update_transfer-source :
    (clock : Clock) (transfer : TransferStatus) (event : SourceEvent) (phase : GoString)
    → (update_transfer clock transfer event phase).0.source ≡ transfer.source
unfolding update_transfer
update_transfer-source clock transfer event phase = refl

pub of_source-update_source :
    (clock : Clock) (event : SourceEvent) (phase source other : GoString)
    (transfers : List TransferStatus)
    → of_source other (update_source clock event phase source transfers).0 ≡ (
        if str_eq source other
        then some (update_transfer clock (or_new source (of_source source transfers)) event phase).0
        else of_source other transfers)
unfolding update_source
of_source-update_source clock event phase source other [] =
    ground (arith, update_transfer-source clock (new_transfer source) event phase)
of_source-update_source clock event phase source other (t ∷ transfers) =
    elim (Bool-cases (str_eq t.source source)) [
      | inl same ↦ rw same (
          ground
            (arith, same, update_transfer-source clock t event phase, str_eq_iff t.source source))
      | inr new ↦ rw new (
          ground (
            arith,
            new,
            of_source-update_source clock event phase source other transfers,
            str_eq_iff t.source source,
            str_eq_iff t.source other,
            str_eq_iff source other,
          ))
    ]

pub update_source-AreDistinct :
    (clock : Clock) (event : SourceEvent) (phase source : GoString)
    (transfers : List TransferStatus)
    → AreDistinct transfers
    → AreDistinct (update_source clock event phase source transfers).0
unfolding update_source
update_source-AreDistinct clock event phase source [] d = (refl, tt)
update_source-AreDistinct clock event phase source (t ∷ transfers) (new, d) =
    elim (Bool-cases (str_eq t.source source)) [
      | inl same ↦ rw same (rw (update_transfer-source clock t event phase) new, d)
      | inr other ↦ rw other (
        ground (
          arith,
          other,
          new,
          of_source-update_source clock event phase source t.source transfers,
          str_eq_iff t.source source,
          str_eq_iff source t.source,
        ),
        update_source-AreDistinct clock event phase source transfers d,
      )
    ]

pub update_source_again :
    (clock : Clock) (now : Time) (event : SourceEvent) (phase source : GoString)
    (transfers : List TransferStatus)
    → HasTimes clock event
    → update_source
        (at clock now)
        event
        phase
        source
        (update_source clock event phase source transfers).0
      ≡ ((update_source clock event phase source transfers).0, false)
unfolding update_source
update_source_again clock now event phase source [] h = ground (
  arith,
  update_transfer-source clock (new_transfer source) event phase,
  update_transfer_again clock now (new_transfer source) event phase h,
  str_eq_iff source source,
)
update_source_again clock now event phase source (t ∷ transfers) h =
    elim (Bool-cases (str_eq t.source source)) [
      | inl same ↦ rw same (
          ground (
            arith,
            same,
            update_transfer-source clock t event phase,
            update_transfer_again clock now t event phase h,
          ))
      | inr other ↦
          rw other
            (ground (arith, other, update_source_again clock now event phase source transfers h))
    ]
