-- ===== src/Prologix.antt =====
-- The Prologix line interpreter: src/prologix.rs.
pub mod Commands
pub mod Valid
pub mod Kept
pub mod Queries
pub mod Tests
use ugpibd.Prelude.{
  ℕ, zero, suc, ◌+◌, ◌-◌, ◌*◌, ◌/◌, ◌%◌, ◌^◌, ◌≤◌, ◌<◌, min, String, ◌≡◌, refl, sym, ap, subst, ◌∙◌,
  ◌≢◌, ◌↔◌, ◌⊎◌, inl, inr, Bool, true, false, not, ◌&&◌, ◌||◌, Option, none, some, List, [], ◌∷◌,
  ◌++◌, map, append_assoc, append-nil, arith, ltb, leb, ◌==◌, if◌then◌else◌, ltb→lt, lt→ltb,
  le→ltb_false, leb→le, ==_iff, Bool-cases, Option-cases, All,
}

pub data LineResult : Type 0 where
  ok : LineResult
  response : List ℕ → LineResult
  error : List ℕ → LineResult
  serial_poll : ℕ → LineResult
  trigger : ℕ → LineResult
  srq : LineResult
  listen_only : Option Bool → LineResult
  device_mode : Option (Option ℕ) → LineResult
  bus_lines : LineResult
  forward : (pad : ℕ) → (bytes : List ℕ) → (send_eoi : Bool) → (auto_read : Bool) → LineResult
  read : (until_eoi : Bool) → (until_char : Option ℕ) → LineResult
  device_clear : ℕ → LineResult
  go_to_local : ℕ → LineResult
  local_lockout : LineResult
  ifc : LineResult
  reset : LineResult

pub record PrologixState : Type 0 where
  pub addr : ℕ
  pub auto_read : Bool
  pub eoi : Bool
  pub eos_mode : ℕ
  pub eot_enable : Bool
  pub eot_char : ℕ
  pub read_tmo_ms : ℕ

abbrev pub default : PrologixState
default = record {
  addr = 0;
  auto_read = false;
  eoi = true;
  eos_mode = 0;
  eot_enable = false;
  eot_char = 0;
  read_tmo_ms = 3000;
}

unfoldable pub with_addr : ℕ → PrologixState
with_addr addr = record default { addr = addr }
