-- ===== src/Vxi11/Server/Docmd.antt =====
-- vxi11/server.rs: the interface commands of device_docmd. What a command does on the bus is an
-- action, and the bus answers it.
use ugpibd.Prelude.{
  ℕ, ◌≤◌, ◌≡◌, refl, ap, subst, ◌⊎◌, inl, inr, Bool, true, false, not, ◌&&◌, ◌||◌, Option, none,
  some, List, arith, ltb, leb, ◌==◌, if◌then◌else◌, ==_iff,
}
use ugpibd.Prelude.Lists.{length}
use ugpibd.Prelude.Words.{ℤ, pos, negsuc}
use ugpibd.Vxi11.Codes.{ErrorCode, parameter_error, operation_not_supported}
use ugpibd.Vxi11.Messages.DeviceDocmdParms.{DeviceDocmdParms}
use ugpibd.Vxi11.Server.Values.{uint_in}

pub data Action : Type 0 where
  send_command : List ℕ → Action
  bus_status : ℕ → Action
  set_atn : Bool → Action
  set_ren : Bool → Action
  set_controller_pad : ℕ → Action
  pulse_ifc : Action

abbrev pub is_number : ℕ → ℤ → Bool
is_number n (pos m) = m == n
is_number n (negsuc m) = false

-- `len.contains(&parms.data_in.len()) && parms.datasize == datasize`
unfoldable pub sizes_ok : DeviceDocmdParms → ℕ → ℕ → ℕ → Bool
sizes_ok p lo hi size =
    leb lo (length p.data_in) && leb (length p.data_in) hi && is_number size p.datasize

abbrev pub value_of : DeviceDocmdParms → ℕ
value_of p = uint_in p.data_in p.network_order

abbrev pub if_sized : Bool → ErrorCode ⊎ Action → ErrorCode ⊎ Action
if_sized true r = r
if_sized false r = inl parameter_error

-- The match on the command, up to the bus.
unfoldable pub docmd_action : DeviceDocmdParms → ErrorCode ⊎ Action
docmd_action p =
    if is_number 0x020000 p.cmd
    then if_sized (sizes_ok p 0 128 1) (inr (send_command p.data_in))
    else if is_number 0x020001 p.cmd
    then if_sized (sizes_ok p 2 2 2) (inr (bus_status (value_of p)))
    else if is_number 0x020002 p.cmd
    then if_sized (sizes_ok p 2 2 2) (inr (set_atn (not (value_of p == 0))))
    else if is_number 0x020003 p.cmd
    then if_sized (sizes_ok p 2 2 2) (inr (set_ren (not (value_of p == 0))))
    else if is_number 0x020004 p.cmd
    then if_sized (sizes_ok p 4 4 4) (inl operation_not_supported)
    else if is_number 0x02000A p.cmd
    then if_sized (sizes_ok p 4 4 4)
        (if ltb 30 (value_of p) then inl parameter_error else inr (set_controller_pad (value_of p)))
    else if is_number 0x020010 p.cmd
    then if_sized (length p.data_in == 0) (inr pulse_ifc)
    else inl operation_not_supported

-- The control lines that the status command reads, and the controller's address.
pub record Lines : Type 0 where
  pub ren : Bool
  pub srq : Bool
  pub ndac : Bool

abbrev live : Bool → ℕ
live b = if b then 1 else 0

-- `bus_status`; the lines are none where the backend cannot read them.
unfoldable pub status_value : Option Lines → ℕ → ℕ → ErrorCode ⊎ ℕ
status_value (some l) pad selector =
    if selector == 1
    then inr (live l.ren)
    else if selector == 2
    then inr (live l.srq)
    else if selector == 3
    then inr (live l.ndac)
    else if selector == 4 || selector == 5
    then inr 1
    else if selector == 6 || selector == 7
    then inr 0
    else if selector == 8
    then inr pad
    else inl parameter_error
status_value none pad selector =
    if selector == 1 || selector == 2 || selector == 3
    then inl operation_not_supported
    else if selector == 4 || selector == 5
    then inr 1
    else if selector == 6 || selector == 7
    then inr 0
    else if selector == 8
    then inr pad
    else inl parameter_error

-- The action keeps to what the bus can carry: at most 128 command bytes, an address of a device.
abbrev pub Carried : Action → Type 0
Carried (send_command bytes) = length bytes ≤ 128
Carried (bus_status selector) = Unit
Carried (set_atn b) = Unit
Carried (set_ren b) = Unit
Carried (set_controller_pad n) = n ≤ 30
Carried pulse_ifc = Unit

abbrev pub code_of : Action → ℕ
code_of (send_command bytes) = 0x020000
code_of (bus_status selector) = 0x020001
code_of (set_atn b) = 0x020002
code_of (set_ren b) = 0x020003
code_of (set_controller_pad n) = 0x02000A
code_of pulse_ifc = 0x020010

abbrev Right : DeviceDocmdParms → ErrorCode ⊎ Action → Type 0
Right p (inl e) = Unit
Right p (inr a) = (p.cmd ≡ pos (code_of a)) × Carried a

is_number-eq : (n : ℕ) (z : ℤ) → is_number n z ≡ true → z ≡ pos n
is_number-eq n (pos m) e = ap pos ((==_iff m n).0 e)
is_number-eq n (negsuc m) e = cc

either :
    (p : DeviceDocmdParms) (b : Bool) (r r' : ErrorCode ⊎ Action)
    → (b ≡ true → Right p r)
    → (b ≡ false → Right p r')
    → Right p (if b then r else r')
either p true r r' h h' = h refl
either p false r r' h h' = h' refl

sized :
    (p : DeviceDocmdParms) (b : Bool) (r : ErrorCode ⊎ Action)
    → (b ≡ true → Right p r)
    → Right p (if_sized b r)
sized p true r h = h refl
sized p false r h = tt

few_bytes : (p : DeviceDocmdParms) → sizes_ok p 0 128 1 ≡ true → length p.data_in ≤ 128
unfolding sizes_ok
few_bytes p e = ground (arith, e)

action-Right : (p : DeviceDocmdParms) → Right p (docmd_action p)
unfolding docmd_action
action-Right p =
    either p (is_number 0x020000 p.cmd) _ _
      (λ e. sized p (sizes_ok p 0 128 1) _ (λ k. (is_number-eq 0x020000 p.cmd e, few_bytes p k)))
      (λ _.
        either p (is_number 0x020001 p.cmd) _ _
          (λ e. sized p (sizes_ok p 2 2 2) _ (λ k. (is_number-eq 0x020001 p.cmd e, tt)))
          (λ _.
            either p (is_number 0x020002 p.cmd) _ _
              (λ e. sized p (sizes_ok p 2 2 2) _ (λ k. (is_number-eq 0x020002 p.cmd e, tt)))
              (λ _.
                either p (is_number 0x020003 p.cmd) _ _
                  (λ e. sized p (sizes_ok p 2 2 2) _ (λ k. (is_number-eq 0x020003 p.cmd e, tt)))
                  (λ _.
                    either p (is_number 0x020004 p.cmd) _ _
                      (λ e. sized p (sizes_ok p 4 4 4) _ (λ k. tt))
                      (λ _.
                        either p (is_number 0x02000A p.cmd) _ _
                          (λ e. sized p (sizes_ok p 4 4 4) _ (λ k.
                            either p (ltb 30 (value_of p)) _ _ (λ far. tt)
                              (λ near. (is_number-eq 0x02000A p.cmd e, ground (arith, near)))))
                          (λ _.
                            either p (is_number 0x020010 p.cmd) _ _
                              (λ e.
                                sized p (length p.data_in == 0) _
                                  (λ k. (is_number-eq 0x020010 p.cmd e, tt)))
                              (λ _. tt)))))))

-- An interface command that acts on the bus is the one that its number names, sends at most 128
-- command bytes, and moves the controller to no address above 30; no number but the six that act
-- leads to an action.
pub docmd_action-Carried :
    (p : DeviceDocmdParms) (a : Action)
    → docmd_action p ≡ inr a
    → (p.cmd ≡ pos (code_of a)) × Carried a
docmd_action-Carried p a e = subst (Right p) e (action-Right p)
