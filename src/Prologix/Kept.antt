-- ===== src/Prologix/Kept.antt =====
-- Lines and the state of the interpreter: src/prologix.rs.
use ugpibd.Prelude.{ℕ, ◌≡◌, refl, ◌⊎◌, inl, inr, Bool, Option, none, some, List, [], ◌∷◌}
use ugpibd.Prelude.Text.{codes, strip_prefix, trim_end, parse_uint}
use ugpibd.Prologix.{LineResult, ok, PrologixState}
use ugpibd.Prologix.Commands.{
  Command, c_addr, c_auto, c_eoi, c_eos, c_eot_enable, c_eot_char, c_read_tmo_ms, c_read, c_clr,
  c_ifc, c_rst, c_ver, c_mode, c_srq, c_lines, c_dev, c_lon, c_spoll, c_trg, c_llo, c_loc,
  c_ignored, c_unknown, command_of, parse_pad, invalid_address, Switch, zero_arg, one_arg,
  empty_arg, other_arg, switch_of, eos_arg, set_switch, set_number, run, split_command,
  handle_command, is_line_end, command_or_data, handle_line,
}

-- The state is kept, or the answer is `Ok`.
abbrev KeptOrOk : PrologixState → PrologixState × LineResult → Type 0
KeptOrOk st r = (r.0 ≡ st) ⊎ (r.1 ≡ ok)

switch_kept :
    (set : Bool → PrologixState) (st : PrologixState) (now : Bool) (msg : List ℕ) (sw : Switch)
    → KeptOrOk st (set_switch set st now msg sw)
unfolding set_switch
switch_kept set st now msg zero_arg = inr refl
switch_kept set st now msg one_arg = inr refl
switch_kept set st now msg empty_arg = inl refl
switch_kept set st now msg other_arg = inl refl

number_kept :
    (set : ℕ → PrologixState) (st : PrologixState) (now : ℕ) (msg : List ℕ) (parsed : Option ℕ)
    (args : List ℕ)
    → KeptOrOk st (set_number set st now msg parsed args)
unfolding set_number
number_kept set st now msg parsed [] = inl refl
number_kept set st now msg none (c ∷ cs) = inl refl
number_kept set st now msg (some n) (c ∷ cs) = inr refl

run_kept :
    (st : PrologixState) (c : Command) (name args : List ℕ) → KeptOrOk st (run st c name args)
unfolding run
run_kept st c_addr name args =
    number_kept (λ (n : ℕ). record st { addr = n }) st st.addr (invalid_address args)
      (parse_pad args) args
run_kept st c_auto name args =
    switch_kept (λ (b : Bool). record st { auto_read = b }) st st.auto_read
      (codes "++auto requires 0 or 1") (switch_of args)
run_kept st c_eoi name args =
    switch_kept (λ (b : Bool). record st { eoi = b }) st st.eoi (codes "++eoi requires 0 or 1")
      (switch_of args)
run_kept st c_eos name args =
    number_kept (λ (n : ℕ). record st { eos_mode = n }) st st.eos_mode (codes "++eos requires 0-3")
      (eos_arg args) args
run_kept st c_eot_enable name args =
    switch_kept (λ (b : Bool). record st { eot_enable = b }) st st.eot_enable
      (codes "++eot_enable requires 0 or 1") (switch_of args)
run_kept st c_eot_char name args =
    number_kept (λ (n : ℕ). record st { eot_char = n }) st st.eot_char
      (codes "++eot_char requires 0-255") (parse_uint 255 args) args
run_kept st c_read_tmo_ms name args =
    number_kept (λ (n : ℕ). record st { read_tmo_ms = n }) st st.read_tmo_ms
      (codes "++read_tmo_ms requires integer") (parse_uint 0xffffffff args) args
run_kept st c_read name args = inl refl
run_kept st c_clr name args = inl refl
run_kept st c_ifc name args = inl refl
run_kept st c_rst name args = inl refl
run_kept st c_ver name args = inl refl
run_kept st c_mode name args = inl refl
run_kept st c_srq name args = inl refl
run_kept st c_lines name args = inl refl
run_kept st c_dev name args = inl refl
run_kept st c_lon name args = inl refl
run_kept st c_spoll name args = inl refl
run_kept st c_trg name args = inl refl
run_kept st c_llo name args = inl refl
run_kept st c_loc name args = inl refl
run_kept st c_ignored name args = inl refl
run_kept st c_unknown name args = inl refl

command_or_data_kept :
    (st : PrologixState) (line : List ℕ) (rest : Option (List ℕ))
    → KeptOrOk st (command_or_data st line rest)
unfolding handle_command
command_or_data_kept st line none = inl refl
command_or_data_kept st line (some cmd) =
    let (name, args) = split_command cmd in run_kept st (command_of name) name args

-- A line either leaves the state as it was or answers Ok: no error, query, read or forwarded line
-- changes a setting.
pub changes_only_on_ok :
    (st : PrologixState) (raw : List ℕ)
    → ((handle_line st raw).0 ≡ st) ⊎ ((handle_line st raw).1 ≡ ok)
unfolding handle_line
changes_only_on_ok st raw =
    let line = trim_end is_line_end raw in
    command_or_data_kept st line (strip_prefix (codes "++") line)
