-- ===== src/Backend/Ni/Matching.antt =====
-- Which reply answers which request: `reply_answers_request` of src/backend/ni_usb_hs/protocol.rs.
use ugpibd.Prelude.{ℕ, ◌<◌, ◌≡◌, Bool, true, ◌||◌, List, [], ◌∷◌, arith, ◌==◌, if◌then◌else◌}
use ugpibd.Backend.Ni.{
  ibrd_data_id, ibrd_extended_id, ibrd_status_id, register_start_id, register_end_id, data_read_op,
  reg_read_id, pad_to_4,
}
use ugpibd.Backend.Ni.RegisterReads.{register_reply}
use ugpibd.Backend.Ni.DataReads.{BlockKind, short, extended, reply}

unfoldable pub answers_op : ℕ → ℕ → Bool
answers_op op id =
    if op == data_read_op
    then id == ibrd_data_id || id == ibrd_extended_id || id == ibrd_status_id
    else if op == reg_read_id
    then id == register_start_id || id == register_end_id
    else id == op

unfoldable pub reply_answers_request : List ℕ → List ℕ → Bool
reply_answers_request (op ∷ _) (id ∷ _) = answers_op op id
reply_answers_request _ _ = true

data_reply_answers :
    (k : BlockKind) (bs : List (List ℕ)) (op hi lo code tail : ℕ) (request : List ℕ)
    → op < register_start_id
    → reply_answers_request (op ∷ request) (reply k bs hi lo code tail) ≡ (op == data_read_op)
unfolding reply_answers_request answers_op
data_reply_answers k [] op hi lo code tail request h = ground arith
data_reply_answers short (b ∷ bs) op hi lo code tail request h = ground arith
data_reply_answers extended (b ∷ bs) op hi lo code tail request h = ground arith

register_reply_answers :
    (values : List ℕ) (op count : ℕ) (request : List ℕ)
    → op < register_start_id
    → reply_answers_request (op ∷ request) (register_reply values count) ≡ (op == reg_read_id)
unfolding reply_answers_request answers_op register_reply pad_to_4
register_reply_answers [] op count request h = ground arith
register_reply_answers (a ∷ []) op count request h = ground arith
register_reply_answers (a ∷ b ∷ []) op count request h = ground arith
register_reply_answers (a ∷ b ∷ c ∷ values) op count request h = ground arith

-- Whatever it carries, the reply to a data read answers data reads and no other request, and the
-- reply to a register read answers register reads and no other, for requests whose operation is
-- below 0x34.
pub replies_answer :
    (k : BlockKind) (bs : List (List ℕ)) (values request : List ℕ) (op hi lo code tail count : ℕ)
    → op < register_start_id
    → (reply_answers_request (op ∷ request) (reply k bs hi lo code tail) ≡ (op == data_read_op))
      × (reply_answers_request (op ∷ request) (register_reply values count) ≡ (op == reg_read_id))
replies_answer k bs values request op hi lo code tail count h = (
  data_reply_answers k bs op hi lo code tail request h,
  register_reply_answers values op count request h,
)
