-- ===== src/Prologix/Commands.antt =====
-- The handlers of the line interpreter: `impl PrologixState` of src/prologix.rs, and the address
-- argument it parses.
use ugpibd.Prelude.{
  ℕ, zero, suc, ◌⊎◌, inl, inr, Bool, true, false, ◌||◌, Option, none, some, List, [], ◌∷◌, ◌++◌,
  leb, ◌==◌, if◌then◌else◌,
}
use ugpibd.Prelude.Text.{
  codes, decimal, is_whitespace, list_eq, parse_uint, split_once, strip_prefix, trim, trim_end,
  utf8,
}
use ugpibd.Prologix.{
  LineResult, ok, response, error, serial_poll, trigger, srq, listen_only, device_mode, bus_lines,
  forward, read, device_clear, go_to_local, local_lockout, ifc, reset, PrologixState,
}

-- The arms of the match on a command's name.
pub data Command : Type 0 where
  c_addr : Command
  c_auto : Command
  c_eoi : Command
  c_eos : Command
  c_eot_enable : Command
  c_eot_char : Command
  c_read_tmo_ms : Command
  c_read : Command
  c_clr : Command
  c_ifc : Command
  c_rst : Command
  c_ver : Command
  c_mode : Command
  c_srq : Command
  c_lines : Command
  c_dev : Command
  c_lon : Command
  c_spoll : Command
  c_trg : Command
  c_llo : Command
  c_loc : Command
  c_ignored : Command
  c_unknown : Command

unfoldable pub command_of : List ℕ → Command
command_of name =
    if list_eq name (codes "addr")
    then c_addr
    else if list_eq name (codes "auto")
    then c_auto
    else if list_eq name (codes "eoi")
    then c_eoi
    else if list_eq name (codes "eos")
    then c_eos
    else if list_eq name (codes "eot_enable")
    then c_eot_enable
    else if list_eq name (codes "eot_char")
    then c_eot_char
    else if list_eq name (codes "read_tmo_ms")
    then c_read_tmo_ms
    else if list_eq name (codes "read")
    then c_read
    else if list_eq name (codes "clr")
    then c_clr
    else if list_eq name (codes "ifc")
    then c_ifc
    else if list_eq name (codes "rst")
    then c_rst
    else if list_eq name (codes "ver")
    then c_ver
    else if list_eq name (codes "mode")
    then c_mode
    else if list_eq name (codes "srq")
    then c_srq
    else if list_eq name (codes "lines")
    then c_lines
    else if list_eq name (codes "dev")
    then c_dev
    else if list_eq name (codes "lon")
    then c_lon
    else if list_eq name (codes "spoll")
    then c_spoll
    else if list_eq name (codes "trg")
    then c_trg
    else if list_eq name (codes "llo")
    then c_llo
    else if list_eq name (codes "loc")
    then c_loc
    else if list_eq name (codes "status") || list_eq name (codes "savecfg")
    then c_ignored
    else c_unknown

abbrev pub is_empty : List ℕ → Bool
is_empty [] = true
is_empty (c ∷ cs) = false

-- `Ok(n) if n <= 30`
unfoldable pub in_range : Option ℕ → Option ℕ
in_range none = none
in_range (some n) = if leb n 30 then some n else none

unfoldable pub parse_pad : List ℕ → Option ℕ
parse_pad args = in_range (parse_uint 255 args)

abbrev pub invalid_address : List ℕ → List ℕ
invalid_address args = codes "invalid address: " ++ args

abbrev pub valid_address : Option ℕ → List ℕ → List ℕ ⊎ ℕ
valid_address none args = inl (invalid_address args)
valid_address (some n) args = inr n

-- The left is the text of the `Err`.
unfoldable pub parse_optional_pad : List ℕ → ℕ → List ℕ ⊎ ℕ
parse_optional_pad [] default = inr default
parse_optional_pad (c ∷ cs) default = valid_address (parse_pad (c ∷ cs)) (c ∷ cs)

abbrev pub on_pad : (ℕ → LineResult) → List ℕ ⊎ ℕ → LineResult
on_pad f (inl e) = error e
on_pad f (inr pad) = f pad

abbrev pub bit_text : Bool → List ℕ
bit_text b = if b then codes "1" else codes "0"

-- The arguments `0` and `1`, none, and all others.
pub data Switch : Type 0 where
  zero_arg : Switch
  one_arg : Switch
  empty_arg : Switch
  other_arg : Switch

unfoldable pub switch_of : List ℕ → Switch
switch_of args =
    if list_eq args (codes "0")
    then zero_arg
    else if list_eq args (codes "1")
    then one_arg
    else if list_eq args []
    then empty_arg
    else other_arg

-- `"0" | "1" | "2" | "3"` of `++eos`, with the number it parses to.
unfoldable pub eos_arg : List ℕ → Option ℕ
eos_arg args =
    if list_eq args (codes "0")
    then some 0
    else if list_eq args (codes "1")
    then some 1
    else if list_eq args (codes "2")
    then some 2
    else if list_eq args (codes "3")
    then some 3
    else none

-- A setting that is 0 or 1.
unfoldable pub set_switch :
    (Bool → PrologixState) → PrologixState → Bool → List ℕ → Switch → PrologixState × LineResult
set_switch set st now msg zero_arg = (set false, ok)
set_switch set st now msg one_arg = (set true, ok)
set_switch set st now msg empty_arg = (st, response (bit_text now))
set_switch set st now msg other_arg = (st, error msg)

-- A setting that is a number: the parse, and the error where it fails.
unfoldable pub set_number :
    (ℕ → PrologixState)
    → PrologixState
    → ℕ
    → List ℕ
    → Option ℕ
    → List ℕ
    → PrologixState × LineResult
set_number set st now msg parsed [] = (st, response (decimal now))
set_number set st now msg none (c ∷ cs) = (st, error msg)
set_number set st now msg (some n) (c ∷ cs) = (set n, ok)

abbrev pub read_number : Option ℕ → List ℕ → LineResult
read_number none args = error (codes "++read invalid arg: " ++ args)
read_number (some n) args = read true (some n)

unfoldable pub read_command : List ℕ → LineResult
read_command args =
    if list_eq args (codes "eoi") || is_empty args
    then read true none
    else read_number (parse_uint 255 args) args

abbrev pub mode_command : Switch → LineResult
mode_command one_arg = ok
mode_command zero_arg = error (codes "device mode not supported (hardware is controller-only)")
mode_command empty_arg = error (codes "++mode requires 0 or 1")
mode_command other_arg = error (codes "++mode requires 0 or 1")

abbrev pub dev_address : Option ℕ → LineResult
dev_address none = error (codes "++dev requires an address 0-30, or off")
dev_address (some n) = device_mode (some (some n))

unfoldable pub dev_command : List ℕ → LineResult
dev_command args =
    if is_empty args
    then device_mode none
    else if list_eq args (codes "off")
    then device_mode (some none)
    else dev_address (parse_pad args)

abbrev pub lon_command : Switch → LineResult
lon_command empty_arg = listen_only none
lon_command zero_arg = listen_only (some false)
lon_command one_arg = listen_only (some true)
lon_command other_arg = error (codes "++lon requires 0 or 1")

-- The body of each arm.
unfoldable pub run : PrologixState → Command → List ℕ → List ℕ → PrologixState × LineResult
run st c_addr name args =
    set_number (λ (n : ℕ). record st { addr = n }) st st.addr (invalid_address args)
      (parse_pad args) args
run st c_auto name args =
    set_switch (λ (b : Bool). record st { auto_read = b }) st st.auto_read
      (codes "++auto requires 0 or 1") (switch_of args)
run st c_eoi name args =
    set_switch (λ (b : Bool). record st { eoi = b }) st st.eoi (codes "++eoi requires 0 or 1")
      (switch_of args)
run st c_eos name args =
    set_number (λ (n : ℕ). record st { eos_mode = n }) st st.eos_mode (codes "++eos requires 0-3")
      (eos_arg args) args
run st c_eot_enable name args =
    set_switch (λ (b : Bool). record st { eot_enable = b }) st st.eot_enable
      (codes "++eot_enable requires 0 or 1") (switch_of args)
run st c_eot_char name args =
    set_number (λ (n : ℕ). record st { eot_char = n }) st st.eot_char
      (codes "++eot_char requires 0-255") (parse_uint 255 args) args
run st c_read_tmo_ms name args =
    set_number (λ (n : ℕ). record st { read_tmo_ms = n }) st st.read_tmo_ms
      (codes "++read_tmo_ms requires integer") (parse_uint 0xffffffff args) args
run st c_read name args = (st, read_command args)
run st c_clr name args = (st, device_clear st.addr)
run st c_ifc name args = (st, ifc)
run st c_rst name args = (st, reset)
run st c_ver name args = (st, response (codes "Prologix GPIB-USB Controller version 6.107"))
run st c_mode name args = (st, mode_command (switch_of args))
run st c_srq name args = (st, srq)
run st c_lines name args = (st, bus_lines)
run st c_dev name args = (st, dev_command args)
run st c_lon name args = (st, lon_command (switch_of args))
run st c_spoll name args = (st, on_pad serial_poll (parse_optional_pad args st.addr))
run st c_trg name args = (st, on_pad trigger (parse_optional_pad args st.addr))
run st c_llo name args = (st, local_lockout)
run st c_loc name args = (st, on_pad go_to_local (parse_optional_pad args st.addr))
run st c_ignored name args = (st, ok)
run st c_unknown name args = (st, error (codes "unknown command: " ++ name))

-- The name and its arguments.
unfoldable pub trim_parts : List ℕ → Option (List ℕ × List ℕ) → List ℕ × List ℕ
trim_parts cmd none = (trim cmd, [])
trim_parts cmd (some (n, a)) = (trim n, trim a)

unfoldable pub split_command : List ℕ → List ℕ × List ℕ
split_command cmd = trim_parts cmd (split_once is_whitespace cmd)

unfoldable pub handle_command : PrologixState → List ℕ → PrologixState × LineResult
handle_command st cmd = let (name, args) = split_command cmd in run st (command_of name) name args

-- What `eos_mode` appends.
abbrev pub terminator : ℕ → List ℕ
terminator zero = b'\r' ∷ b'\n' ∷ []
terminator (suc zero) = b'\r' ∷ []
terminator (suc (suc zero)) = b'\n' ∷ []
terminator (suc (suc (suc n))) = []

unfoldable pub handle_data : PrologixState → List ℕ → LineResult
handle_data st line = forward st.addr (utf8 line ++ terminator st.eos_mode) st.eoi st.auto_read

abbrev pub is_line_end : ℕ → Bool
is_line_end c = c == b'\r' || c == b'\n'

abbrev pub command_or_data : PrologixState → List ℕ → Option (List ℕ) → PrologixState × LineResult
command_or_data st line none = (st, handle_data st line)
command_or_data st line (some rest) = handle_command st rest

unfoldable pub handle_line : PrologixState → List ℕ → PrologixState × LineResult
handle_line st raw =
    let line = trim_end is_line_end raw in command_or_data st line (strip_prefix (codes "++") line)

unfoldable pub apply_eot : PrologixState → List ℕ → List ℕ
apply_eot st bytes = if st.eot_enable then bytes ++ st.eot_char ∷ [] else bytes
