-- ===== src/System/Lives/Provenance.antt =====
-- Where the credentials come from that a device has in its store after any number of power cycles.
use esp32_hydroponics_govern.Prelude.{◌≡◌, refl, Text, true, List, [], ◌∷◌, some, inl, inr}
use esp32_hydroponics_govern.Platform.{FloatOps}
use esp32_hydroponics_govern.Device.{boot}
use esp32_hydroponics_govern.Wifi.Credentials.{NvsApi}
use esp32_hydroponics_govern.Wifi.Protocol.{link}
use esp32_hydroponics_govern.System.{Outcome, crashed, halted, running, power_on}
use esp32_hydroponics_govern.System.Safety.{SoundOutcome}
use esp32_hydroponics_govern.System.PowerOn.{power_on-IsSound}
use esp32_hydroponics_govern.System.Protocol.{Kept, untouched}
use esp32_hydroponics_govern.System.Protocol.Provenance.{Moves-Kept}
use esp32_hydroponics_govern.System.Protocol.Runs.{posted_names, Among, Among-append, Follows}
use esp32_hydroponics_govern.System.Lives.{
  Life, LivesFit, names_of_lives, store_left, lives, power_on-Follows,
}

Among-cons : (n : Text) (ns all : List Text) → Among ns all → Among ns (n ∷ all)
Among-cons n [] all h = tt
Among-cons n (m ∷ ms) all h = (inr h.0, Among-cons n ms all h.1)

Among-self : (ns : List Text) → Among ns ns
Among-self [] = tt
Among-self (n ∷ ns) = (inl refl, Among-cons n ns ns (Among-self ns))

module _ {S : Type 0} (api : NvsApi S) (fp : FloatOps) (all : List Text) (first : S) where
  outcome-Kept :
      (store : S) (o : Outcome S)
      → SoundOutcome true o
      → Follows api all (link (boot store)) o
      → Kept api all first store
      → (store' : S) × (store_left o ≡ some store') × Kept api all first store'
  unfolding boot
  outcome-Kept store crashed sound follows kept = absurd sound
  outcome-Kept store (halted d) sound follows kept =
      (d.nvs, refl, (Moves-Kept follows (inl refl) kept).1)
  outcome-Kept store (running s) sound follows kept =
      (s.device.nvs, refl, (Moves-Kept follows (inl refl) kept).1)

  lives_from :
      (ls : List Life) (store : S)
      → LivesFit ls
      → Among (names_of_lives ls) all
      → Kept api all first store
      → (store' : S) × (lives api fp ls store ≡ some store') × Kept api all first store'
  unfolding lives
  lives_from [] store fits named kept = (store, refl, kept)
  lives_from (l ∷ ls) store fits named kept =
      let (here, rest) = Among-append (posted_names l.turns) (names_of_lives ls) all named in
      let o = power_on api fp l.answer l.last l.turns store in
      let sound =
        power_on-IsSound api fp l.answer l.last l.turns store fits.0.scan fits.0.events
          fits.0.turns in
      let (store1, ends, kept1) =
        outcome-Kept store o sound (power_on-Follows api all fp l.answer l.last l.turns store here)
          kept in
      let (store2, goes, kept2) = lives_from ls store1 fits.1 rest kept1 in
      (store2, rw (ends, lives) goes, kept2)

module _ {S : Type 0} (api : NvsApi S) (fp : FloatOps) where
  -- Over any number of power cycles, whatever the libraries answer and in any order of the turns of
  -- each, the store that is left is made of the first store by erasing it, by erasing the flash, and by
  -- saving credentials whose name a request to `/save` has posted in one of these cycles, as far as its
  -- buffer holds it; attempts that other tasks run in the middle of are no exception. The condition: each scan
  -- delivers what was asked of it, and a DNS query leaves room for its answer.
  pub lives-Kept :
      (ls : List Life) (store : S)
      → LivesFit ls
      → (store' : S) × (lives api fp ls store ≡ some store')
        × Kept api (names_of_lives ls) store store'
  lives-Kept ls store fits =
      lives_from api fp (names_of_lives ls) store ls store fits (Among-self (names_of_lives ls))
        untouched
