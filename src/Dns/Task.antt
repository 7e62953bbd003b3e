-- ===== src/Dns/Task.antt =====
-- src/dns_server.c: the life of the task.
use esp32_hydroponics_govern.Prelude.{
  ℕ, ◌≤◌, ◌≡◌, refl, ◌∙◌, List, [], ◌∷◌, ◌++◌, Option-cases, Bool-cases, ◌≢◌, inl, inr, none, some,
  Bool, true, false, length, arith, if◌then◌else◌,
}
use esp32_hydroponics_govern.Device.{Device}
use esp32_hydroponics_govern.Dns.{
  DnsEvent, packet, recv_failed, stop, dns_round, dns_loop, build_reply, dns_server_stop, dns_exit,
}

-- Every packet leaves room for the answer.
abbrev pub PacketsFit : List DnsEvent → Type 0
PacketsFit [] = Unit
PacketsFit (packet buf ∷ es) = (length buf ≤ 496) × PacketsFit es
PacketsFit (_ ∷ es) = PacketsFit es

-- What `recvfrom` returns, not a call of another task.
abbrev pub IsRound : DnsEvent → Type 0
IsRound stop = ⊥
IsRound _ = Unit

goes_on : {A : Type 0} (b : Bool) (x y z : A) → b ≡ true → x ≡ z → (if b then x else y) ≡ z
goes_on b x y z on same = rw on same

module _ {S : Type 0} where
  dns_running-dns_round :
      (buf : List ℕ) (d d' : Device S) → dns_round buf d ≡ some d' → d'.dns_running ≡ d.dns_running
  unfolding dns_round
  dns_running-dns_round buf d d' h = ground arith

  pub dns_round_total : (buf : List ℕ) (d : Device S) → length buf ≤ 496 → dns_round buf d ≢ none
  unfolding dns_round build_reply
  dns_round_total buf d h = ground arith

  -- While no packet is longer than 496 bytes, the task writes in bounds, whatever else happens and
  -- for as long as it runs.
  pub dns_loop-in_bounds :
      (es : List DnsEvent) (d : Device S) → PacketsFit es → dns_loop es d ≢ none
  unfolding dns_loop
  dns_loop-in_bounds [] d h = ground arith
  dns_loop-in_bounds (stop ∷ es) d h = ground (arith, dns_loop-in_bounds es (dns_server_stop d) h)
  dns_loop-in_bounds (recv_failed ∷ es) d h = ground (arith, dns_loop-in_bounds es d h)
  dns_loop-in_bounds (packet buf ∷ es) d h = elim (Option-cases (dns_round buf d)) [
    | inl overrun ↦ absurd (dns_round_total buf d h.0 overrun)
    | inr (d', fine) ↦ ground (arith, dns_loop-in_bounds es d' h.1)
  ]

  -- With `s_running` false, the result of the `recvfrom` that is under way is the last one.
  loop_ends :
      (e : DnsEvent) (d : Device S)
      → d.dns_running ≡ false
      → IsRound e
      → PacketsFit (e ∷ [])
      → (d' : Device S) × ((later : List DnsEvent) → dns_loop (e ∷ later) d ≡ some (dns_exit d'))
  unfolding dns_loop
  loop_ends stop d off round fits = absurd round
  loop_ends recv_failed d off round fits = (d, λ later. rw off refl)
  loop_ends (packet buf) d off round fits = elim (Option-cases (dns_round buf d)) [
    | inl overrun ↦ absurd (dns_round_total buf d fits.0 overrun)
    | inr (d', fine) ↦
        (d', λ later. rw (fine, dns_loop) (rw (dns_running-dns_round buf d d' fine ∙ off) refl))
  ]

  -- Once `dns_server_stop` has been called, the task is over within one `recvfrom`, whatever came before and
  -- whatever comes later: the call that is under way may still be answered, and then the loop ends, the socket
  -- is closed and the task deleted. The condition: no packet is longer than 496 bytes.
  pub dns_loop-stop :
      (before : List DnsEvent) (e : DnsEvent) (d : Device S)
      → IsRound e
      → PacketsFit before
      → PacketsFit (e ∷ [])
      → (d' : Device S) × ((later : List DnsEvent)
          → dns_loop (before ++ stop ∷ e ∷ later) d ≡ some (dns_exit d'))
  unfolding dns_loop
  dns_loop-stop [] e d round fits last =
      loop_ends e (dns_server_stop d) (unfold dns_server_stop in refl) round last
  dns_loop-stop (stop ∷ es) e d round fits last =
      dns_loop-stop es e (dns_server_stop d) round fits last
  dns_loop-stop (recv_failed ∷ es) e d round fits last = elim (Bool-cases d.dns_running) [
    | inr off ↦ (d, λ later. rw off refl)
    | inl on ↦
        let (d', ends) = dns_loop-stop es e d round fits last in
        (d', λ later. goes_on _ _ _ _ on (ends later))
  ]
  dns_loop-stop (packet buf ∷ es) e d round fits last = elim (Option-cases (dns_round buf d)) [
    | inl overrun ↦ absurd (dns_round_total buf d fits.0 overrun)
    | inr (d1, fine) ↦ elim (Bool-cases d1.dns_running) [
      | inr off ↦ (d1, λ later. rw (fine, dns_loop) (rw off refl))
      | inl on ↦
          let (d', ends) = dns_loop-stop es e d1 round fits.1 last in
          (d', λ later. rw (fine, dns_loop) (goes_on _ _ _ _ on (ends later)))
    ]
  ]
