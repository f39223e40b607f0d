-- ===== src/Prologix/Valid.antt =====
-- What the line interpreter keeps of its state: src/prologix.rs.
use ugpibd.Prelude.{
  ℕ, ◌+◌, ◌-◌, ◌*◌, ◌≤◌, inl, inr, Bool, true, false, ◌||◌, Option, none, some, List, [], ◌∷◌,
  arith, ltb, ◌==◌, Bool-cases, Option-cases,
}
use ugpibd.Prelude.Text.{
  codes, list_eq, strip_prefix, trim_end, parse_uint, parse_digits, some_digits,
}
use ugpibd.Prologix.{
  LineResult, ok, response, error, serial_poll, trigger, srq, listen_only, device_mode, bus_lines,
  forward, read, device_clear, go_to_local, local_lockout, ifc, reset, PrologixState,
}
use ugpibd.Prologix.Commands.{
  Command, c_addr, c_auto, c_eoi, c_eos, c_eot_enable, c_eot_char, c_read_tmo_ms, c_read, c_clr,
  c_ifc, c_rst, c_ver, c_mode, c_srq, c_lines, c_dev, c_lon, c_spoll, c_trg, c_llo, c_loc,
  c_ignored, c_unknown, command_of, is_empty, in_range, parse_pad, invalid_address,
  parse_optional_pad, on_pad, Switch, zero_arg, one_arg, empty_arg, other_arg, switch_of, eos_arg,
  set_switch, set_number, read_number, read_command, mode_command, dev_address, dev_command,
  lon_command, run, split_command, handle_command, handle_data, is_line_end, command_or_data,
  handle_line,
}

unfoldable pub IsValid : PrologixState → Type 0
IsValid st =
    (st.addr ≤ 30) × (st.eos_mode ≤ 3) × (st.eot_char ≤ 255) × (st.read_tmo_ms ≤ 0xffffffff)

-- The address a result names, if any, is a primary address.
abbrev pub NamesPad : LineResult → Type 0
NamesPad (serial_poll pad) = pad ≤ 30
NamesPad (trigger pad) = pad ≤ 30
NamesPad (forward pad bytes send_eoi auto_read) = pad ≤ 30
NamesPad (device_clear pad) = pad ≤ 30
NamesPad (go_to_local pad) = pad ≤ 30
NamesPad (device_mode (some (some pad))) = pad ≤ 30
NamesPad (device_mode (some none)) = Unit
NamesPad (device_mode none) = Unit
NamesPad ok = Unit
NamesPad (response s) = Unit
NamesPad (error s) = Unit
NamesPad srq = Unit
NamesPad (listen_only b) = Unit
NamesPad bus_lines = Unit
NamesPad (read e c) = Unit
NamesPad local_lockout = Unit
NamesPad ifc = Unit
NamesPad reset = Unit

-- What each step gives: a valid state and a result with a valid address.
abbrev Good : PrologixState × LineResult → Type 0
Good r = IsValid r.0 × NamesPad r.1

-- A parsed number is within `max`.
abbrev Within : ℕ → Option ℕ → Type 0
Within max none = Unit
Within max (some n) = n ≤ max

parse_digits-Within : (max n : ℕ) (s : List ℕ) → n ≤ max → Within max (parse_digits max n s)
unfolding parse_digits
parse_digits-Within max n [] h = h
parse_digits-Within max n (c ∷ cs) h = elim (Bool-cases (ltb max (n * 10 + (c - b'0')))) [
  | inl e ↦ ground arith
  | inr e ↦ ground (arith, parse_digits-Within max (n * 10 + (c - b'0')) cs)
]

some_digits-Within : (max : ℕ) (s : List ℕ) → Within max (some_digits max s)
some_digits-Within max [] = tt
some_digits-Within max (c ∷ cs) = parse_digits-Within max 0 (c ∷ cs) (omega arith)

parse_uint-Within : (max : ℕ) (s : List ℕ) → Within max (parse_uint max s)
unfolding parse_uint parse_digits
parse_uint-Within max [] = tt
parse_uint-Within max (c ∷ cs) = elim (Bool-cases (c == b'+')) [
  | inl e ↦ rw e (some_digits-Within max cs)
  | inr e ↦ rw e (parse_digits-Within max 0 (c ∷ cs) (omega arith))
]

parse_pad-Within : (s : List ℕ) → Within 30 (parse_pad s)
unfolding parse_pad in_range
parse_pad-Within s = elim (Option-cases (parse_uint 255 s)) [
  | inl e ↦ rw e tt
  | inr (n, e) ↦ rw e (ground arith)
]

eos_arg-Within : (s : List ℕ) → Within 3 (eos_arg s)
unfolding eos_arg
eos_arg-Within s = ground arith

set_switch-Good :
    (set : Bool → PrologixState) (st : PrologixState) (now : Bool) (msg : List ℕ) (sw : Switch)
    → IsValid st
    → ((b : Bool) → IsValid (set b))
    → Good (set_switch set st now msg sw)
unfolding set_switch
set_switch-Good set st now msg zero_arg h hs = (hs false, tt)
set_switch-Good set st now msg one_arg h hs = (hs true, tt)
set_switch-Good set st now msg empty_arg h hs = (h, tt)
set_switch-Good set st now msg other_arg h hs = (h, tt)

set_number-Good :
    (max : ℕ) (set : ℕ → PrologixState) (st : PrologixState) (now : ℕ) (msg : List ℕ)
    (parsed : Option ℕ) (args : List ℕ)
    → IsValid st
    → Within max parsed
    → ((n : ℕ) → n ≤ max → IsValid (set n))
    → Good (set_number set st now msg parsed args)
unfolding set_number
set_number-Good max set st now msg parsed [] h w hs = (h, tt)
set_number-Good max set st now msg none (c ∷ cs) h w hs = (h, tt)
set_number-Good max set st now msg (some n) (c ∷ cs) h w hs = (hs n w, tt)

read_number-NamesPad : (n : Option ℕ) (args : List ℕ) → NamesPad (read_number n args)
read_number-NamesPad none args = tt
read_number-NamesPad (some n) args = tt

read_command-NamesPad : (args : List ℕ) → NamesPad (read_command args)
unfolding read_command
read_command-NamesPad args = elim (Bool-cases (list_eq args (codes "eoi") || is_empty args)) [
  | inl e ↦ rw e tt
  | inr e ↦ rw e (read_number-NamesPad (parse_uint 255 args) args)
]

dev_address-NamesPad : (n : Option ℕ) → Within 30 n → NamesPad (dev_address n)
dev_address-NamesPad none w = tt
dev_address-NamesPad (some n) w = w

dev_command-NamesPad : (args : List ℕ) → NamesPad (dev_command args)
unfolding dev_command
dev_command-NamesPad [] = tt
dev_command-NamesPad (c ∷ cs) = elim (Bool-cases (list_eq (c ∷ cs) (codes "off"))) [
  | inl e ↦ rw e tt
  | inr e ↦ rw e (dev_address-NamesPad (parse_pad (c ∷ cs)) (parse_pad-Within (c ∷ cs)))
]

mode_command-NamesPad : (sw : Switch) → NamesPad (mode_command sw)
mode_command-NamesPad zero_arg = tt
mode_command-NamesPad one_arg = tt
mode_command-NamesPad empty_arg = tt
mode_command-NamesPad other_arg = tt

lon_command-NamesPad : (sw : Switch) → NamesPad (lon_command sw)
lon_command-NamesPad zero_arg = tt
lon_command-NamesPad one_arg = tt
lon_command-NamesPad empty_arg = tt
lon_command-NamesPad other_arg = tt

-- An address argument, or the current address, for a result that names it.
on_pad-NamesPad :
    (f : ℕ → LineResult) (args : List ℕ) (addr : ℕ)
    → addr ≤ 30
    → ((n : ℕ) → n ≤ 30 → NamesPad (f n))
    → NamesPad (on_pad f (parse_optional_pad args addr))
unfolding parse_optional_pad
on_pad-NamesPad f [] addr h hf = hf addr h
on_pad-NamesPad f (c ∷ cs) addr h hf = elim (Option-cases (parse_pad (c ∷ cs))) [
  | inl e ↦ rw e tt
  | inr (n, e) ↦ rw e (hf n (rw e at (parse_pad-Within (c ∷ cs))))
]

run-Good :
    (st : PrologixState) (c : Command) (name args : List ℕ) → IsValid st → Good (run st c name args)
unfolding run IsValid
run-Good st c_addr name args h =
    set_number-Good 30 (λ (n : ℕ). record st { addr = n }) st st.addr (invalid_address args)
      (parse_pad args) args h (parse_pad-Within args) (λ n hn. (hn, h.1, h.2, h.3))
run-Good st c_auto name args h =
    set_switch-Good (λ (b : Bool). record st { auto_read = b }) st st.auto_read
      (codes "++auto requires 0 or 1") (switch_of args) h (λ b. h)
run-Good st c_eoi name args h =
    set_switch-Good (λ (b : Bool). record st { eoi = b }) st st.eoi (codes "++eoi requires 0 or 1")
      (switch_of args) h (λ b. h)
run-Good st c_eos name args h =
    set_number-Good 3 (λ (n : ℕ). record st { eos_mode = n }) st st.eos_mode
      (codes "++eos requires 0-3") (eos_arg args) args h (eos_arg-Within args)
      (λ n hn. (h.0, hn, h.2, h.3))
run-Good st c_eot_enable name args h =
    set_switch-Good (λ (b : Bool). record st { eot_enable = b }) st st.eot_enable
      (codes "++eot_enable requires 0 or 1") (switch_of args) h (λ b. h)
run-Good st c_eot_char name args h =
    set_number-Good 255 (λ (n : ℕ). record st { eot_char = n }) st st.eot_char
      (codes "++eot_char requires 0-255") (parse_uint 255 args) args h (parse_uint-Within 255 args)
      (λ n hn. (h.0, h.1, hn, h.3))
run-Good st c_read_tmo_ms name args h =
    set_number-Good 0xffffffff (λ (n : ℕ). record st { read_tmo_ms = n }) st st.read_tmo_ms
      (codes "++read_tmo_ms requires integer") (parse_uint 0xffffffff args) args h
      (parse_uint-Within 0xffffffff args) (λ n hn. (h.0, h.1, h.2, hn))
run-Good st c_read name args h = (h, read_command-NamesPad args)
run-Good st c_clr name args h = (h, h.0)
run-Good st c_ifc name args h = (h, tt)
run-Good st c_rst name args h = (h, tt)
run-Good st c_ver name args h = (h, tt)
run-Good st c_mode name args h = (h, mode_command-NamesPad (switch_of args))
run-Good st c_srq name args h = (h, tt)
run-Good st c_lines name args h = (h, tt)
run-Good st c_dev name args h = (h, dev_command-NamesPad args)
run-Good st c_lon name args h = (h, lon_command-NamesPad (switch_of args))
run-Good st c_spoll name args h = (h, on_pad-NamesPad serial_poll args st.addr h.0 (λ n hn. hn))
run-Good st c_trg name args h = (h, on_pad-NamesPad trigger args st.addr h.0 (λ n hn. hn))
run-Good st c_llo name args h = (h, tt)
run-Good st c_loc name args h = (h, on_pad-NamesPad go_to_local args st.addr h.0 (λ n hn. hn))
run-Good st c_ignored name args h = (h, tt)
run-Good st c_unknown name args h = (h, tt)

command_or_data-Good :
    (st : PrologixState) (line : List ℕ) (rest : Option (List ℕ))
    → IsValid st
    → Good (command_or_data st line rest)
unfolding handle_command handle_data IsValid
command_or_data-Good st line none h = (h, h.0)
command_or_data-Good st line (some cmd) h =
    let (name, args) = split_command cmd in run-Good st (command_of name) name args h

-- From a valid state (address at most 30, eos mode at most 3, eot character a byte, timeout a
-- u32) any line leads to a valid state, and every address that its result names is at most 30.
pub handle_line-IsValid :
    (st : PrologixState) (raw : List ℕ)
    → IsValid st
    → IsValid (handle_line st raw).0 × NamesPad (handle_line st raw).1
unfolding handle_line
handle_line-IsValid st raw h =
    let line = trim_end is_line_end raw in
    command_or_data-Good st line (strip_prefix (codes "++") line) h
