-- ===== src/Wifi/Protocol/Provenance.antt =====
-- src/wifi_manager.c: where the credentials in the store come from.
use esp32_hydroponics_govern.Prelude.{
  ◌≡◌, ◌⊎◌, refl, sym, subst, Text, true, List, [], ◌∷◌, ◌++◌, Option, none, some, take, inl, inr,
  arith,
}
use esp32_hydroponics_govern.Device.{Device}
use esp32_hydroponics_govern.Wifi.Credentials.{NvsApi, Credentials, is_empty, nvs_write, nvs_clear}
use esp32_hydroponics_govern.Wifi.Protocol.{
  Link, Step, stay, attempt, ignored, rejoin, again, given_up, refused, lost, joined, saved, submit,
  Steps, done, more, WifiOp, wifi_ops, names_of,
}
use esp32_hydroponics_govern.Wifi.Protocol.Simulation.{wifi_ops-Steps}

-- The name is one of these, cut to its 64-byte buffer.
abbrev pub IsNamed : Text → List Text → Type 0
IsNamed x [] = ⊥
IsNamed x (n ∷ ns) = (x ≡ take 63 n) ⊎ IsNamed x ns

-- What erasing the store, and saving credentials of these names, make of it.
pub data Written {S : Type 0} (api : NvsApi S) (names : List Text) (first : S) : S → Type 0 where
  untouched : Written api names first first
  erased : {s : S} → Written api names first s → Written api names first (nvs_clear api s)
  wrote :
      {s : S}
      → (c : Credentials) → IsNamed c.ssid names
      → Written api names first s
      → Written api names first (nvs_write api c s).0

-- What is staged, if anything is, has one of these names.
abbrev pub StagedFrom : Text → List Text → Type 0
StagedFrom x names = (is_empty x ≡ true) ⊎ IsNamed x names

abbrev pub Within : List Text → List Text → Type 0
Within ns all = (x : Text) → IsNamed x ns → IsNamed x all

IsNamed-append : (x : Text) (ns ms : List Text) → IsNamed x ns → IsNamed x (ns ++ ms)
IsNamed-append x [] ms h = absurd h
IsNamed-append x (n ∷ ns) ms (inl e) = inl e
IsNamed-append x (n ∷ ns) ms (inr h) = inr (IsNamed-append x ns ms h)

head-Within : (o : Option Text) (names : List Text) → Within (submit o []) (submit o names)
head-Within none names x h = absurd h
head-Within (some name) names x (inl e) = inl e
head-Within (some name) names x (inr h) = absurd h

tail-Within : (o : Option Text) (names : List Text) → Within names (submit o names)
tail-Within none names x h = h
tail-Within (some name) names x h = inr h

module _ {S : Type 0} {api : NvsApi S} {first : S} where
  pub step-Written :
      {o : Option Text} {k l : Link S} (all : List Text)
      → Step api o k l
      → Within (submit o []) all
      → StagedFrom k.staged all
      → Written api all first k.store
      → StagedFrom l.staged all × Written api all first l.store
  step-Written all stay sub from w = (from, w)
  step-Written all (attempt name went may) sub from w = (inr (sub (take 63 name) (inl refl)), w)
  step-Written all (ignored name barred) sub from w = (from, w)
  step-Written all (rejoin went) sub from w = (from, w)
  step-Written all (again c t) sub from w = (from, w)
  step-Written all (given_up c) sub from w = (inl refl, w)
  step-Written all (refused c) sub from w = (inl refl, erased w)
  step-Written all (lost c) sub from w = (from, w)
  step-Written all (joined e) sub from w = (from, w)
  step-Written all (saved c name something) sub (inl nothing) w =
      absurd (ground (arith, something, nothing))
  step-Written all (saved c name something) sub (inr named) w =
      (inl refl, wrote c (subst (λ x. IsNamed x all) (sym name) named) w)

  steps-Written :
      {names : List Text} {k l : Link S} (all : List Text)
      → Steps api names k l
      → Within names all
      → StagedFrom k.staged all
      → Written api all first k.store
      → Written api all first l.store
  steps-Written all done sub from w = w
  steps-Written all (more {o} {names} step steps) sub from w =
      let (from', w') = step-Written all step (λ x h. sub x (head-Within o names x h)) from w in
      steps-Written all steps (λ x h. sub x (tail-Within o names x h)) from' w'

module _ {S : Type 0} (api : NvsApi S) where
  -- Credentials come into the store only through an attempt: from a device on which nothing is staged,
  -- through any sequence of attempts, reconnects, events, scans and shutdowns, the store that is left
  -- is made of the first by erasing it and by saving credentials whose name one of the attempts had,
  -- as far as its buffer holds it.
  wifi_ops-Written :
      (os : List WifiOp) (d d' : Device S)
      → d.wifi.pending_ssid ≡ []
      → wifi_ops api os d ≡ some d'
      → Written api (names_of os) d.nvs d'.nvs
  wifi_ops-Written os d d' clear h =
      let (names, rest, all, steps) = wifi_ops-Steps api os d d' h in
      steps-Written (names_of os) steps
        (λ x named. subst (IsNamed x) all (IsNamed-append x names rest named)) (inl (rw clear refl))
        untouched
