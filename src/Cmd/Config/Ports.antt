-- ===== src/Cmd/Config/Ports.antt =====
-- The ports file of cmd/claw64-bridge/main.go, as a worktree's setup writes it.
use claw.Prelude.{
  ◌≤◌, ltb, lt→ltb, length, length-append, true, false, some, [], ◌∷◌, ◌++◌, ◌≡◌, refl, ap, sym,
  ◌∙◌, arith, Bytes, codes, is_nil, same_text, is_space, trim_left, trim_right, trim_space, before,
  behind, contains_rune, split,
}
use claw.Prelude.Text.Trims.{Lacks, trim_right_idem}
use claw.Prelude.Text.Splits.{split-cons}
use claw.Cmd.Config.{
  Addrs, local_host, default_addrs, set_port, port_line, port_lines, default_port_addrs, max_line,
}

-- A port that the file can hold.
pub record IsPort (p : Bytes) : Type 0 where
  pub one_line : Lacks b'\n' p
  pub trimmed : trim_space p ≡ p
  pub some_text : is_nil p ≡ false
  pub fits : length p ≤ 65522

abbrev pub ports_file : Bytes → Bytes → Bytes
ports_file serial monitor =
    codes "SERIAL_PORT="
    ++ (serial ++ (b'\n' ∷ (codes "MONITOR_PORT=" ++ (monitor ++ (b'\n' ∷ [])))))

trim_right-append :
    (front p : Bytes) → trim_right p ≡ p → is_nil p ≡ false → trim_right (front ++ p) ≡ front ++ p
unfolding trim_right
trim_right-append [] p h n = h
trim_right-append (c ∷ front) [] h n = cc
trim_right-append (c ∷ []) (d ∷ p) h n = rw h (ground arith)
trim_right-append (c ∷ e ∷ front) (d ∷ p) h n =
    rw (trim_right-append (e ∷ front) (d ∷ p) h n) (ground arith)

trim_right-port : (p : Bytes) → IsPort p → trim_right p ≡ p
unfolding trim_space
trim_right-port p h = ap trim_right (sym h.trimmed) ∙ trim_right_idem (trim_left p) ∙ h.trimmed

serial_line :
    (p : Bytes) (a : Addrs)
    → IsPort p
    → port_line (codes "SERIAL_PORT=" ++ p) a ≡ record a { serial = local_host ++ p }
unfolding port_line set_port same_text contains_rune before behind
serial_line p a h = rw (trimmed_line, key, h.trimmed, h.some_text) refl
  where
    trimmed_line : trim_space (codes "SERIAL_PORT=" ++ p) ≡ codes "SERIAL_PORT=" ++ p
    trimmed_line =
        unfold trim_space trim_left is_space in
        (trim_right-append (codes "SERIAL_PORT=") p (trim_right-port p h) h.some_text)

    key : trim_space (codes "SERIAL_PORT") ≡ codes "SERIAL_PORT"
    key = unfold trim_space trim_left trim_right is_space in refl

monitor_line :
    (p : Bytes) (a : Addrs)
    → IsPort p
    → port_line (codes "MONITOR_PORT=" ++ p) a ≡ record a { monitor = local_host ++ p }
unfolding port_line set_port same_text contains_rune before behind
monitor_line p a h = rw (trimmed_line, key, h.trimmed, h.some_text) refl
  where
    trimmed_line : trim_space (codes "MONITOR_PORT=" ++ p) ≡ codes "MONITOR_PORT=" ++ p
    trimmed_line =
        unfold trim_space trim_left is_space in
        (trim_right-append (codes "MONITOR_PORT=") p (trim_right-port p h) h.some_text)

    key : trim_space (codes "MONITOR_PORT") ≡ codes "MONITOR_PORT"
    key = unfold trim_space trim_left trim_right is_space in refl

empty_line : (a : Addrs) → port_line [] a ≡ a
unfolding port_line trim_space trim_left trim_right
empty_line a = refl

Lacks-newline : (key p : Bytes) → Lacks b'\n' key → Lacks b'\n' p → Lacks b'\n' (key ++ p)
Lacks-newline [] p h k = k
Lacks-newline (c ∷ key) p h k = (h.0, Lacks-newline key p h.1 k)

-- A ports file that names a serial and a monitor port, as the setup of a worktree writes it, is
-- read back as these ports on the local host, whatever else the ports are than blank, several
-- lines, with spaces around them or longer than 65522 bytes.
pub default_port_addrs-ports_file :
    (serial monitor : Bytes)
    → IsPort serial
    → IsPort monitor
    → default_port_addrs (some (ports_file serial monitor))
      ≡ record { serial = local_host ++ serial; monitor = local_host ++ monitor }
unfolding default_port_addrs port_lines split
default_port_addrs-ports_file serial monitor hs hm =
    rw
      (
        lines,
        fits (codes "SERIAL_PORT=") serial (omega arith) hs.fits,
        fits (codes "MONITOR_PORT=") monitor (omega arith) hm.fits,
        serial_line serial default_addrs hs,
        monitor_line monitor _ hm,
        empty_line,
      )
      refl
  where
    fits :
        (key p : Bytes)
        → length key ≤ 13
        → length p ≤ 65522
        → ltb (length (key ++ p)) max_line ≡ true
    fits key p h k = lt→ltb (length (key ++ p)) max_line (omega (arith, length-append key p))

    lines :
        split (ports_file serial monitor) b'\n'
        ≡ (codes "SERIAL_PORT=" ++ serial) ∷ (codes "MONITOR_PORT=" ++ monitor) ∷ [] ∷ []
    lines =
        split-cons b'\n' (codes "SERIAL_PORT=" ++ serial) _
          (Lacks-newline (codes "SERIAL_PORT=") serial (omega arith) hs.one_line)
        ∙ ap (λ l. (codes "SERIAL_PORT=" ++ serial) ∷ l)
            (split-cons b'\n' (codes "MONITOR_PORT=" ++ monitor) []
              (Lacks-newline (codes "MONITOR_PORT=") monitor (omega arith) hm.one_line))
