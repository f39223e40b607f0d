-- ===== src/Prologix/Queries.antt =====
-- The lines that set and ask for a setting, and data lines: src/prologix.rs.
use ugpibd.Prelude.{
  ℕ, zero, suc, ◌≤◌, ◌≡◌, refl, ◌∙◌, true, false, Option, none, some, List, [], ◌∷◌, ◌++◌, arith,
  All, All-append,
}
use ugpibd.Prelude.Text.{
  codes, list_eq, is_whitespace, trim_end, strip_prefix, split_once, decimal_fuel, decimal, utf8,
}
use ugpibd.Prelude.Text.Decimal.{
  trim_word, IsDigit, decimal-digits, parse_uint-decimal, decimal-cons, All-digits, trim_digits,
}
use ugpibd.Prologix.{ok, response, forward, PrologixState}
use ugpibd.Prologix.Commands.{
  command_of, in_range, parse_pad, eos_arg, set_number, run, trim_parts, split_command,
  handle_command, terminator, handle_data, is_line_end, handle_line,
}

abbrev pub IsLineText : List ℕ → Type 0
IsLineText s = All (λ (c : ℕ). is_line_end c ≡ false) s

abbrev pub IsLineEnds : List ℕ → Type 0
IsLineEnds s = All (λ (c : ℕ). is_line_end c ≡ true) s

trim_ends : (ends : List ℕ) → IsLineEnds ends → trim_end is_line_end ends ≡ []
unfolding trim_end
trim_ends [] h = refl
trim_ends (c ∷ cs) h = rw (trim_ends cs h.1, h.0) refl

cons_text :
    (c : ℕ) (s s' : List ℕ)
    → trim_end is_line_end s ≡ s'
    → is_line_end c ≡ false
    → trim_end is_line_end (c ∷ s) ≡ c ∷ s'
unfolding trim_end
cons_text c s [] e h = rw (e, h) refl
cons_text c s (d ∷ ds) e h = rw e refl

-- The line ends go, and only they.
trim_line :
    (s ends : List ℕ) → IsLineText s → IsLineEnds ends → trim_end is_line_end (s ++ ends) ≡ s
trim_line [] ends h e = trim_ends ends e
trim_line (c ∷ cs) ends h e = cons_text c (cs ++ ends) cs (trim_line cs ends h.1 e) h.0

digit_text : (c : ℕ) → IsDigit c → is_line_end c ≡ false
digit_text c h = ground arith

decimal-IsLineText : (n : ℕ) → IsLineText (decimal n)
decimal-IsLineText n = All-digits is_line_end (decimal n) digit_text (decimal-digits n)

-- A command line without its end.
command_line :
    (st : PrologixState) (cmd ends : List ℕ)
    → IsLineText cmd
    → IsLineEnds ends
    → handle_line st (codes "++" ++ cmd ++ ends) ≡ handle_command st cmd
unfolding handle_line
command_line st cmd ends h e =
    let t : trim_end is_line_end (codes "++" ++ cmd ++ ends) ≡ codes "++" ++ cmd =
      trim_line (codes "++" ++ cmd) ends (refl, (refl, h)) e in
    rw t (unfold strip_prefix in refl)

-- A line that does not begin with ++ is forwarded to the addressed instrument without its line
-- ends and with the terminator of the eos mode, and changes nothing.
pub data_forwarded :
    (st : PrologixState) (line ends : List ℕ)
    → IsLineText line
    → IsLineEnds ends
    → strip_prefix (codes "++") line ≡ none
    → handle_line st (line ++ ends)
      ≡ (st, forward st.addr (utf8 line ++ terminator st.eos_mode) st.eoi st.auto_read)
unfolding handle_line handle_data
data_forwarded st line ends h e p = rw (trim_line line ends h e, p) refl

abbrev IsWord : List ℕ → Type 0
IsWord s = All (λ (c : ℕ). is_whitespace c ≡ false) s

split_word :
    (name args : List ℕ)
    → IsWord name
    → split_once is_whitespace (name ++ b' ' ∷ args) ≡ some (name, args)
unfolding split_once
split_word [] args h = unfold is_whitespace in refl
split_word (c ∷ cs) args h = rw (split_word cs args h.1, h.0) refl

split_bare : (name : List ℕ) → IsWord name → split_once is_whitespace name ≡ none
unfolding split_once
split_bare [] h = refl
split_bare (c ∷ cs) h = rw (split_bare cs h.1, h.0) refl

split_setting :
    (name : List ℕ) (n : ℕ)
    → IsWord name
    → split_command (name ++ b' ' ∷ decimal n) ≡ (name, decimal n)
unfolding split_command trim_parts
split_setting name n h =
    rw (split_word name (decimal n) h, trim_word name h, trim_digits (decimal n) (decimal-digits n))
      refl

split_query : (name : List ℕ) → IsWord name → split_command name ≡ (name, [])
unfolding split_command trim_parts
split_query name h = rw (split_bare name h, trim_word name h) refl

-- The settings that are numbers.
pub data Setting : Type 0 where
  s_addr s_eos s_eot_char s_read_tmo_ms : Setting

abbrev pub setting_name : Setting → List ℕ
setting_name s_addr = codes "addr"
setting_name s_eos = codes "eos"
setting_name s_eot_char = codes "eot_char"
setting_name s_read_tmo_ms = codes "read_tmo_ms"

abbrev pub greatest : Setting → ℕ
greatest s_addr = 30
greatest s_eos = 3
greatest s_eot_char = 255
greatest s_read_tmo_ms = 0xffffffff

abbrev pub with_setting : Setting → PrologixState → ℕ → PrologixState
with_setting s_addr st n = record st { addr = n }
with_setting s_eos st n = record st { eos_mode = n }
with_setting s_eot_char st n = record st { eot_char = n }
with_setting s_read_tmo_ms st n = record st { read_tmo_ms = n }

setting_name-IsWord : (s : Setting) → IsWord (setting_name s)
unfolding is_whitespace
setting_name-IsWord s_addr = (refl, (refl, (refl, (refl, tt))))
setting_name-IsWord s_eos = (refl, (refl, (refl, tt)))
setting_name-IsWord s_eot_char = (refl, (refl, (refl, (refl, (refl, (refl, (refl, (refl, tt))))))))
setting_name-IsWord s_read_tmo_ms =
    (refl, (refl, (refl, (refl, (refl, (refl, (refl, (refl, (refl, (refl, (refl, tt)))))))))))

setting_name-IsLineText : (s : Setting) → IsLineText (setting_name s)
setting_name-IsLineText s_addr = (refl, (refl, (refl, (refl, tt))))
setting_name-IsLineText s_eos = (refl, (refl, (refl, tt)))
setting_name-IsLineText s_eot_char =
    (refl, (refl, (refl, (refl, (refl, (refl, (refl, (refl, tt))))))))
setting_name-IsLineText s_read_tmo_ms =
    (refl, (refl, (refl, (refl, (refl, (refl, (refl, (refl, (refl, (refl, (refl, tt)))))))))))

set_number_given :
    (set : ℕ → PrologixState) (st : PrologixState) (now : ℕ) (msg : List ℕ) (parsed : Option ℕ)
    (n : ℕ)
    → parsed ≡ some n
    → set_number set st now msg parsed (decimal n) ≡ (set n, ok)
unfolding set_number
set_number_given set st now msg parsed n e =
    let (c, cs, split, d) = decimal-cons n in rw (split, e) refl

parse_pad-decimal : (n : ℕ) → n ≤ 30 → parse_pad (decimal n) ≡ some n
unfolding parse_pad in_range
parse_pad-decimal n h = rw (parse_uint-decimal 255 n (omega arith) (omega arith)) (ground arith)

eos_arg-decimal : (n : ℕ) → n ≤ 3 → eos_arg (decimal n) ≡ some n
unfolding eos_arg decimal decimal_fuel list_eq
eos_arg-decimal zero h = refl
eos_arg-decimal (suc zero) h = refl
eos_arg-decimal (suc (suc zero)) h = refl
eos_arg-decimal (suc (suc (suc zero))) h = refl
eos_arg-decimal (suc (suc (suc (suc n)))) h = ground arith

run_setting :
    (s : Setting) (st : PrologixState) (n : ℕ)
    → n ≤ greatest s
    → run st (command_of (setting_name s)) (setting_name s) (decimal n) ≡ (with_setting s st n, ok)
unfolding run command_of list_eq
run_setting s_addr st n h = set_number_given _ st _ _ _ n (parse_pad-decimal n h)
run_setting s_eos st n h = set_number_given _ st _ _ _ n (eos_arg-decimal n h)
run_setting s_eot_char st n h =
    set_number_given _ st _ _ _ n (parse_uint-decimal 255 n (omega arith) h)
run_setting s_read_tmo_ms st n h =
    set_number_given _ st _ _ _ n (parse_uint-decimal 0xffffffff n (omega arith) h)

run_query :
    (s : Setting) (st : PrologixState) (n : ℕ)
    → run (with_setting s st n) (command_of (setting_name s)) (setting_name s) []
      ≡ (with_setting s st n, response (decimal n))
unfolding run command_of list_eq set_number
run_query s_addr st n = refl
run_query s_eos st n = refl
run_query s_eot_char st n = refl
run_query s_read_tmo_ms st n = refl

set_line :
    (s : Setting) (st : PrologixState) (n : ℕ) (ends : List ℕ)
    → n ≤ greatest s
    → IsLineEnds ends
    → handle_line st (codes "++" ++ (setting_name s ++ b' ' ∷ decimal n) ++ ends)
      ≡ (with_setting s st n, ok)
unfolding handle_command
set_line s st n ends h e =
    command_line st (setting_name s ++ b' ' ∷ decimal n) ends
      (All-append (λ (c : ℕ). is_line_end c ≡ false) (setting_name s) (b' ' ∷ decimal n)
        (setting_name-IsLineText s) (refl, decimal-IsLineText n))
      e
    ∙ rw (split_setting (setting_name s) n (setting_name-IsWord s)) (run_setting s st n h)

-- For each numeric setting and a number within its range, the line that sets it, with any line
-- ends, answers Ok and changes that setting alone, and the query answers the number in decimal.
pub set_then_query :
    (s : Setting) (st : PrologixState) (n : ℕ) (ends ends' : List ℕ)
    → n ≤ greatest s
    → IsLineEnds ends
    → IsLineEnds ends'
    → (handle_line st (codes "++" ++ (setting_name s ++ b' ' ∷ decimal n) ++ ends)
        ≡ (with_setting s st n, ok))
      × (handle_line (with_setting s st n) (codes "++" ++ setting_name s ++ ends')
          ≡ (with_setting s st n, response (decimal n)))
unfolding handle_command
set_then_query s st n ends ends' h e e' = (
  set_line s st n ends h e,
  command_line (with_setting s st n) (setting_name s) ends' (setting_name-IsLineText s) e'
      ∙ rw (split_query (setting_name s) (setting_name-IsWord s)) (run_query s st n),
)
