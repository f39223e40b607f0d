-- ===== src/Prologix/Tests.antt =====
-- The line interpreter on single lines.
use ugpibd.Prelude.{ℕ, ◌≡◌, refl, ◌⊎◌, none, List, [], ◌∷◌, ◌++◌, arith}
use ugpibd.Prelude.Text.{codes, strip_prefix}
use ugpibd.Prologix.{ok, default}
use ugpibd.Prologix.Commands.{handle_line}
use ugpibd.Prologix.Valid.{IsValid, NamesPad, handle_line-IsValid}
use ugpibd.Prologix.Kept.{changes_only_on_ok}

abbrev line_end : List ℕ
line_end = b'\r' ∷ b'\n' ∷ []

default-IsValid : IsValid default
unfolding IsValid
default-IsValid = (omega arith, omega arith, omega arith, omega arith)

handle_line-IsValid_example :
    IsValid (handle_line default (codes "++addr 31" ++ line_end)).0
    × NamesPad (handle_line default (codes "++addr 31" ++ line_end)).1
handle_line-IsValid_example =
    handle_line-IsValid default (codes "++addr 31" ++ line_end) default-IsValid

changes_only_on_ok_example :
    ((handle_line default (codes "++eos 7")).0 ≡ default)
    ⊎ ((handle_line default (codes "++eos 7")).1 ≡ ok)
changes_only_on_ok_example = changes_only_on_ok default (codes "++eos 7")

no_prefix : strip_prefix (codes "++") (codes "*IDN?") ≡ none
unfolding strip_prefix
no_prefix = refl
