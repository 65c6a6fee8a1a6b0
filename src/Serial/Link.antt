-- ===== src/Serial/Link.antt =====
-- bridge/serial/serial.go: `Send`, under the lock of the link.
use mathlib.Core.Logic.{◌⊎◌}
use claw.Prelude.{
  ℕ, zero, suc, ◌+◌, ◌*◌, ◌<◌, Bool, true, false, List, [], ◌∷◌, ◌++◌, append_assoc, ◌≡◌, refl, sym,
  ap, subst, arith, length, take, Bytes, inl, inr, ◌∙◌,
}
use claw.Serial.Frame.{Frame, encode}

-- The milliseconds between two bytes.
abbrev pub byte_delay : ℕ
byte_delay = 45

-- The index that `OnSendByte` gets: of a payload byte, or -1 behind the last.
pub data Report : Type 0 where
  byte_at : ℕ → Report
  behind_last : Report

-- The bytes that the connection took, the milliseconds slept, the calls of `OnSendByte`, and
-- whether no error is returned.
pub record Sent : Type 0 where
  pub written : Bytes
  pub slept : ℕ
  pub reports : List Report
  pub ok : Bool

abbrev pub wrote_byte : ℕ → Sent → Sent
wrote_byte b s = record s { written = b ∷ s.written; slept = byte_delay + s.slept }

-- The loop over `data`: `takes i` is whether the write of byte `i` succeeds, and `reports` is
-- what follows the last byte.
unfoldable pub send_bytes : (ℕ → Bool) → List Report → ℕ → Bytes → Sent
send_bytes takes reports i [] = record { written = []; slept = 0; reports = reports; ok = true }
send_bytes takes reports i (b ∷ bs) =
    let rest = send_bytes takes reports (i + 1) bs in
    elim (takes i) [
      | true ↦ wrote_byte b rest
      | false ↦ record { written = []; slept = 0; reports = []; ok = false }
    ]

-- `for i := range f.Payload`, and the call behind it.
unfoldable pub reports_from : ℕ → Bytes → List Report
reports_from i [] = behind_last ∷ []
reports_from i (p ∷ ps) = byte_at i ∷ reports_from (i + 1) ps

-- With whether `OnSendByte` is set.
unfoldable pub reports_of : Bool → Bytes → List Report
reports_of false payload = []
reports_of true [] = []
reports_of true (p ∷ ps) = reports_from 0 (p ∷ ps)

unfoldable pub send : (ℕ → Bool) → Bool → Frame → Sent
send takes on_send_byte f = send_bytes takes (reports_of on_send_byte f.payload) 0 (encode f)

-- No byte is refused, all are written, 45 ms are slept for each, and the reports follow; or the connection
-- refuses a byte, and those before it are all that was written, with no report.
abbrev pub Sends : (ℕ → Bool) → List Report → ℕ → Bytes → Sent → Type 0
Sends takes reports i bs s =
    ((s.ok ≡ true)
      × ((k : ℕ) → k < length bs → takes (i + k) ≡ true)
      × (s.written ≡ bs)
      × (s.slept ≡ byte_delay * length bs)
      × (s.reports ≡ reports))
    ⊎ ((k : ℕ) × (k < length bs)
        × (takes (i + k) ≡ false)
        × (s.ok ≡ false)
        × (s.written ≡ take k bs)
        × (s.slept ≡ byte_delay * k)
        × (s.reports ≡ []))

send_bytes-Sends :
    (takes : ℕ → Bool) (reports : List Report) (i : ℕ) (bs : Bytes)
    → Sends takes reports i bs (send_bytes takes reports i bs)
unfolding send_bytes
send_bytes-Sends takes reports i [] =
    inl (refl, (λ k h. absurd (omega arith)), refl, omega arith, refl)
send_bytes-Sends takes reports i (b ∷ bs) =
    first (takes i) refl (send_bytes-Sends takes reports (i + 1) bs)
  where
    taken :
        takes i ≡ true
        → ((k : ℕ) → k < length bs → takes (i + 1 + k) ≡ true)
        → (k : ℕ) → k < length (b ∷ bs)
        → takes (i + k) ≡ true
    taken e h zero l = ap takes (omega arith) ∙ e
    taken e h (suc k) l = ap takes (omega arith) ∙ h k (omega arith)

    first :
        (t : Bool)
        → takes i ≡ t
        → Sends takes reports (i + 1) bs (send_bytes takes reports (i + 1) bs)
        → Sends takes reports i (b ∷ bs) (elim t [
          | true ↦ wrote_byte b (send_bytes takes reports (i + 1) bs)
          | false ↦ record { written = []; slept = 0; reports = []; ok = false }
        ])
    first false e h =
        inr (0, omega arith, ap takes (omega arith) ∙ e, refl, refl, omega arith, refl)
    first true e (inl h) = inl (h.0, taken e h.1, ap (◌∷◌ b) h.2, omega (arith, h.3), h.4)
    first true e (inr h) = inr (
      suc h.0,
      omega (arith, h.1),
      ap takes (omega arith) ∙ h.2,
      h.3,
      ap (◌∷◌ b) h.4,
      omega (arith, h.5),
      h.6,
    )

-- The reports of `n` payload bytes: one for each index, in order, and one behind the last.
abbrev pub each_byte : ℕ → List Report
each_byte zero = []
each_byte (suc k) = each_byte k ++ (byte_at k ∷ [])

abbrev pub all_reports : Bool → ℕ → List Report
all_reports false n = []
all_reports true zero = []
all_reports true (suc k) = each_byte (suc k) ++ (behind_last ∷ [])

closed : ℕ → List Report
closed n = each_byte n ++ (behind_last ∷ [])

reports_from-each_byte :
    (i : ℕ) (ps : Bytes) → each_byte i ++ reports_from i ps ≡ closed (length ps + i)
unfolding reports_from closed
reports_from-each_byte i [] = ap closed same
  where
    same : i ≡ length {A = ℕ} [] + i
    same = omega arith
reports_from-each_byte i (p ∷ ps) =
    ap (λ n. each_byte i ++ (byte_at i ∷ reports_from n ps)) next
    ∙ sym (append_assoc (each_byte i) (byte_at i ∷ []) (reports_from (suc i) ps))
    ∙ reports_from-each_byte (suc i) ps
    ∙ ap closed more
  where
    next : i + 1 ≡ suc i
    next = omega arith

    more : length ps + suc i ≡ length (p ∷ ps) + i
    more = omega arith

reports_of-all_reports :
    (on : Bool) (payload : Bytes) → reports_of on payload ≡ all_reports on (length payload)
unfolding reports_of closed
reports_of-all_reports false payload = refl
reports_of-all_reports true [] = refl
reports_of-all_reports true (p ∷ ps) = reports_from-each_byte 0 (p ∷ ps) ∙ ap closed same
  where
    same : length (p ∷ ps) + 0 ≡ suc (length ps)
    same = omega arith

-- No byte is refused, and `Send` writes what `encode` gives, 45 ms for each byte, and then reports
-- each index of the payload once, in order, and its end, if it is not empty and reports are wanted; or
-- the connection refuses a byte, and those before it are all that was written, with no report.
pub send-Sends :
    (takes : ℕ → Bool) (on_send_byte : Bool) (f : Frame)
    → Sends takes
        (all_reports on_send_byte (length f.payload))
        0
        (encode f)
        (send takes on_send_byte f)
unfolding send
send-Sends takes on_send_byte f =
    subst (λ reports. Sends takes reports 0 (encode f) (send takes on_send_byte f))
      (reports_of-all_reports on_send_byte f.payload)
      (send_bytes-Sends takes (reports_of on_send_byte f.payload) 0 (encode f))
