-- ===== src/Backend/Usbtmc/Tags.antt =====
-- The tags of bulk messages and of status requests: src/backend/usbtmc/protocol.rs.
use ugpibd.Prelude.{ℕ, zero, suc, ◌+◌, ◌≤◌, ◌<◌, ◌≡◌, refl, ap, ◌≢◌, arith}
use ugpibd.Backend.Usbtmc.{next_tag, next_status_tag, notify_srq}

pub next_tag_range :
    (tag : ℕ) → tag < 256 → (1 ≤ next_tag tag) × (next_tag tag ≤ 255) × (next_tag tag ≢ tag)
unfolding next_tag
next_tag_range tag h = ground arith

-- A status tag lies in 2 to 127, differs from the one before, and its notification differs from
-- the service request's.
pub next_status_tag_range :
    (tag : ℕ)
    → (2 ≤ next_status_tag tag)
      × (next_status_tag tag ≤ 127)
      × (next_status_tag tag ≢ tag)
      × (0x80 + next_status_tag tag ≢ notify_srq)
unfolding next_status_tag
next_status_tag_range tag = ground arith

-- `n` steps from a tag.
abbrev pub steps : (ℕ → ℕ) → ℕ → ℕ → ℕ
steps f zero tag = tag
steps f (suc n) tag = f (steps f n tag)

steps_below : (n : ℕ) → n < 255 → steps next_tag n 1 ≡ suc n
unfolding next_tag
steps_below zero h = refl
steps_below (suc n) h = rw (steps_below n (omega arith)) (ground arith)

-- From tag 1, the tags of the first 255 messages are 1 to 255, and the next one is 1 again.
pub tag_period : (n : ℕ) → n < 255 → (steps next_tag n 1 ≡ suc n) × (steps next_tag 255 1 ≡ 1)
unfolding next_tag
tag_period n h = (steps_below n h, ap next_tag (steps_below 254 (omega arith)))
