-- ===== src/Backend/Agilent/Driver/CaptureTests.antt =====
-- A capture on a bus where nothing is said.
use ugpibd.Prelude.{ℕ, zero, suc, refl, ◌≢◌, true, false, [], ◌∷◌, All}
use ugpibd.Backend.Agilent.Actions.{Answer, got, silent, failed, Controller}
use ugpibd.Backend.Agilent.Driver.{read}
use ugpibd.Backend.Agilent.Driver.Capture.{IsCapture, read-IsCapture}

abbrev capturing : Controller
capturing = record {
  eos_char = 10;
  eos_enabled = false;
  hw_control_bits = 0;
  listen_only = true;
  my_pad = 0;
}

-- The register write is answered, and then there is silence.
abbrev quiet_bus : ℕ → Answer
quiet_bus zero = got []
quiet_bus (suc zero) = got (0xfb ∷ 0 ∷ [])
quiet_bus (suc (suc zero)) = got []
quiet_bus (suc (suc (suc n))) = silent

quiet_bus_sound : (n : ℕ) → quiet_bus n ≢ failed
quiet_bus_sound zero = λ e. cc e
quiet_bus_sound (suc zero) = λ e. cc e
quiet_bus_sound (suc (suc zero)) = λ e. cc e
quiet_bus_sound (suc (suc (suc n))) = λ e. cc e

read-IsCapture_example :
    All IsCapture (read quiet_bus 5 100 (record { controller = capturing; calls = [] })).1.calls
read-IsCapture_example = read-IsCapture quiet_bus capturing 5 100 quiet_bus_sound refl
