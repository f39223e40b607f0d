-- ===== src/Backend/Select/Tests.antt =====
-- The choice among two adapters.
use ugpibd.Prelude.{◌≡◌, refl, ◌≢◌, ◌↔◌, none, some, [], ◌∷◌}
use ugpibd.Prelude.Results.{ok}
use ugpibd.Prelude.Text.{codes, list_eq}
use ugpibd.Backend.Select.{
  DiscoveredAdapter, at_port, port, segment_from, linux_port_input_matches, linux, macos,
  port_input_matches, kept, resolve,
}
use ugpibd.Backend.Select.Wanted.{IsWanted}
use ugpibd.Backend.Select.Choice.{IsOnly, resolve-IsOnly}

abbrev agilent : DiscoveredAdapter
agilent = record { kind_id = codes "82357"; port_id = codes "1-1.2" }

abbrev ni : DiscoveredAdapter
ni = record { kind_id = codes "ni"; port_id = codes "1-1.3" }

linux_only : linux ≢ macos
linux_only e = cc e

resolve-IsOnly_example :
    (resolve linux (agilent ∷ ni ∷ []) (some (codes "ni")) (at_port (codes "/sys/1-1.3")) ≡ ok ni)
    ↔ IsOnly
        (IsWanted linux (some (codes "ni")) (at_port (codes "/sys/1-1.3")))
        ni
        (agilent ∷ ni ∷ [])
resolve-IsOnly_example =
    resolve-IsOnly linux (agilent ∷ ni ∷ []) (some (codes "ni")) (at_port (codes "/sys/1-1.3")) ni
      linux_only

tail_selects : resolve linux (agilent ∷ ni ∷ []) none (at_port (codes "/sys/1-1.3")) ≡ ok ni
unfolding resolve kept port port_input_matches linux_port_input_matches segment_from list_eq
tail_selects = refl
