-- ===== src/System/Protocol/Provenance.antt =====
-- Where the credentials in the store come from, over the moves of the whole firmware.
use esp32_hydroponics_govern.Prelude.{Text, List, inr}
use esp32_hydroponics_govern.Wifi.Credentials.{NvsApi}
use esp32_hydroponics_govern.Wifi.Protocol.{Link}
use esp32_hydroponics_govern.Wifi.Protocol.Provenance.{
  Written, untouched, erased, wrote, StagedFrom, step-Written,
}
use esp32_hydroponics_govern.System.Protocol.{
  Move, step, staging, launching, starting, opening, giving_up, wiping, Moves, still, later, Kept,
}

module _ {S : Type 0} {api : NvsApi S} {all : List Text} {first : S} where
  Written-Kept : {s t : S} → Written api all s t → Kept api all first s → Kept api all first t
  Written-Kept untouched k = k
  Written-Kept (erased w) k = Kept.erased (Written-Kept w k)
  Written-Kept (wrote c named w) k = Kept.wrote c named (Written-Kept w k)

  Move-Kept :
      {k l : Link S}
      → Move api all k l
      → StagedFrom k.staged all
      → Kept api all first k.store
      → StagedFrom l.staged all × Kept api all first l.store
  Move-Kept {k} {l} (step o within st) from kept =
      let (from', w) = step-Written {first = k.store} all st within from untouched in
      (from', Written-Kept w kept)
  Move-Kept (staging name may named) from kept = (inr named, kept)
  Move-Kept (launching went) from kept = (from, kept)
  Move-Kept (starting fresh) from kept = (from, kept)
  Move-Kept (opening fresh) from kept = (from, kept)
  Move-Kept giving_up from kept = (from, Kept.erased kept)
  Move-Kept wiping from kept = (from, Kept.wiped kept)

  pub Moves-Kept :
      {k l : Link S}
      → Moves api all k l
      → StagedFrom k.staged all
      → Kept api all first k.store
      → StagedFrom l.staged all × Kept api all first l.store
  Moves-Kept still from kept = (from, kept)
  Moves-Kept (later moves move) from kept =
      let (from', kept') = Moves-Kept moves from kept in Move-Kept move from' kept'
