-- ===== src/System/Paused.antt =====
-- The pieces of src/web_server.c's `save_handler` keep the invariant of the system.
use esp32_hydroponics_govern.Prelude.{
  Text, codes, cstr, Bool, List, Option, none, some, ◌==◌, Bool-cases, inl, inr, arith,
}
use esp32_hydroponics_govern.Platform.{StaConfig, Run, returned, aborted}
use esp32_hydroponics_govern.Platform.Checks.{Returns-check}
use esp32_hydroponics_govern.Device.{Telnet, Device, ApRecord}
use esp32_hydroponics_govern.Wifi.Credentials.{is_empty}
use esp32_hydroponics_govern.Wifi.Connect.{Answer, may_connect, launch}
use esp32_hydroponics_govern.Wifi.Connect.Paused.{
  Slot, begin_attempt, finish_attempt, resume_attempt,
}
use esp32_hydroponics_govern.Wifi.Connect.Pointer.{
  IsBelow, find_slot-IsBelow, reread-IsBelow, begin-WifiFits,
}
use esp32_hydroponics_govern.Web.Save.{Request, is_busy, field_string, recv_size, is_one}
use esp32_hydroponics_govern.Web.Save.Paused.{
  Worker, serving, settling, realigning, overwritten, Served, waiting, answered, answer_save,
  begin_connect, begin_save, served_piece, resume_save,
}
use esp32_hydroponics_govern.System.Sound.{IsSound, SoundRun}

-- The pointer of the HTTP task is within `s_scan_records[20]`.
abbrev pub PointsInside : Worker → Type 0
PointsInside serving = Unit
PointsInside (settling slot cfg) = IsBelow 20 slot
PointsInside (realigning cfg) = Unit

-- What a piece of the handler ends with.
abbrev pub SoundServed : {S : Type 0} → Bool → Telnet → Served S → Type 0
SoundServed up tel (waiting w d) = PointsInside w × IsSound up tel d
SoundServed up tel (answered r) = SoundRun up tel r

pub overwritten-PointsInside :
    (records : List ApRecord) (w : Worker) → PointsInside w → PointsInside (overwritten records w)
overwritten-PointsInside records serving h = tt
overwritten-PointsInside records (settling slot cfg) h = reread-IsBelow records 20 slot h
overwritten-PointsInside records (realigning cfg) h = tt

answer-SoundRun :
    {S : Type 0} (up : Bool) (tel : Telnet) (r : Run (Device S) (Unit {0}))
    → SoundRun up tel r
    → SoundRun up tel (answer_save r)
unfolding answer_save
answer-SoundRun up tel (returned u d) v = v
answer-SoundRun up tel (aborted d) v = v

module _ {S : Type 0} {up : Bool} {tel : Telnet} where
  begin-IsSound :
      (ssid pass : Text) (is_open : Bool) (d : Device S)
      → IsSound up tel d
      → IsSound up tel (begin_attempt ssid pass is_open d).0
  unfolding begin_attempt
  begin-IsSound ssid pass is_open d v =
      let w = begin-WifiFits ssid pass is_open d v.fits in ground arith

  begin_connect-SoundServed :
      (ssid pass : Text) (is_open : Bool) (d : Device S)
      → IsSound up tel d
      → SoundServed up tel (begin_connect ssid pass is_open d)
  unfolding begin_connect
  begin_connect-SoundServed ssid pass is_open d v = elim (Bool-cases (may_connect d.wifi.state)) [
    | inr barred ↦ rw barred v
    | inl may ↦ rw may (
      find_slot-IsBelow d.wifi.scan_records ssid 20 v.fits.scan_records,
      begin-IsSound ssid pass is_open d v,
    )
  ]

  pub begin_save-SoundServed :
      (req : Request) (d : Device S) → IsSound up tel d → SoundServed up tel (begin_save req d)
  unfolding begin_save
  begin_save-SoundServed req d v =
      let bytes = req.recv (recv_size req) in
      let body = cstr bytes in
      let ssid = field_string body (codes "s") 64 in
      let pass = field_string body (codes "p") 64 in
      let is_open = is_one (field_string body (codes "o") 4) in
      elim (Bool-cases (is_busy d.wifi.state)) [
        | inl busy ↦ rw busy v
        | inr free ↦ rw free (elim (Bool-cases (is_empty bytes)) [
          | inl hollow ↦ rw hollow v
          | inr whole ↦ rw whole (elim (Bool-cases (is_empty ssid)) [
            | inl unnamed ↦ rw unnamed v
            | inr named ↦ rw named (begin_connect-SoundServed ssid pass is_open d v)
          ])
        ])
      ]

  finish-SoundRun :
      (a : Answer) (cfg : StaConfig) (d : Device S)
      → IsSound up tel d
      → SoundRun up tel (finish_attempt a cfg d)
  unfolding finish_attempt launch
  finish-SoundRun a cfg d v = Returns-check (IsSound up tel) a.set_config _ _ (ground arith)

  resume-SoundServed :
      (a : Answer) (slot : Option Slot) (cfg : StaConfig) (d : Device S)
      → IsSound up tel d
      → SoundServed up tel (served_piece (resume_attempt a slot cfg d))
  unfolding served_piece resume_attempt
  resume-SoundServed a none cfg d v = answer-SoundRun up tel _ (finish-SoundRun a cfg _ v)
  resume-SoundServed a (some (i, r)) cfg d v = elim (Bool-cases (a.curr_chan == r.primary)) [
    | inl same ↦ rw same (answer-SoundRun up tel _ (finish-SoundRun a cfg _ v))
    | inr other ↦ rw other (tt, v)
  ]

  pub resume_save-SoundServed :
      (a : Answer) (w : Worker) (d : Device S)
      → IsSound up tel d
      → SoundServed up tel (resume_save a w d)
  unfolding resume_save
  resume_save-SoundServed a serving d v = (tt, v)
  resume_save-SoundServed a (settling slot cfg) d v = resume-SoundServed a slot cfg d v
  resume_save-SoundServed a (realigning cfg) d v =
      answer-SoundRun up tel _ (finish-SoundRun a cfg d v)
