-- ===== src/Vxi11/Server/LinkLocks.antt =====
-- vxi11/server.rs: the holder ids of links.
use ugpibd.Prelude.{ℕ, ◌≢◌, arith}
use ugpibd.Prelude.Dict.{nat_key}
use ugpibd.Frontend.Lock.Table.{vxi11_id}

pub lids_differ : (a b : ℕ) → a ≢ b → vxi11_id a ≢ vxi11_id b
unfolding vxi11_id
lids_differ a b ne = omega arith
