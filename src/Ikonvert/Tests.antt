-- ===== src/Ikonvert/Tests.antt =====
-- A gateway that was just plugged in, and the theorems at concrete inputs.
use navigation_server.Base.{ℕ, List, ◌≡◌, ◌≢◌, ◌≤◌, refl, inl, true, none, some, [], ◌∷◌, arith}
use navigation_server.Base.Texts.{split}
use navigation_server.Message.{new_msg}
use navigation_server.Pdgy.{as_pdgy}
use navigation_server.Pdgy.Tests.{
  shifted, unshifted, unshifted-shifted, shifted-Lacks_44, shifted-Lacks_13, shifted-Lacks_10,
  position,
}
use navigation_server.Ikonvert.{not_conn, n2k_of, decode_line}
use navigation_server.Ikonvert.Connection.{
  read_lines, line, read_error, n0183_data, Ikonvert, idle, wait_none, wait_msg, starts, opening,
  waits_status, failed, wait_for, open_step, receive_line, opens, Reach, here, next,
}
use navigation_server.Ikonvert.Semaphore.{IsSound}
use navigation_server.Ikonvert.Opening.{open-IsSound}
use navigation_server.Ikonvert.Replies.{proceeds, open_proceeds}
use navigation_server.Ikonvert.Delivery.{read_lines-queue}
use navigation_server.Ikonvert.RoundTrip.{decode_line-as_pdgy}

abbrev plugged : Ikonvert
plugged = record {
  ikstate = idle;
  wait_event = wait_none;
  wait_sem = 0;
  queue = [];
  queue_size = 10;
  cmd_result = none;
  status_count = 0;
  total_msg_raw = 0;
}

plugged-waits :
    Reach (record { caller = starts; gateway = plugged }) (wait_for wait_msg waits_status plugged)
unfolding open_step
plugged-waits =
    next (next here (opens (record { caller = opening; gateway = plugged }) refl))
      (opens (wait_for wait_msg waits_status plugged) refl)

open-IsSound_example :
    (waits_status ≢ failed) × (0 ≤ 1) × IsSound (wait_for wait_msg waits_status plugged)
open-IsSound_example =
    open-IsSound plugged (wait_for wait_msg waits_status plugged) refl refl plugged-waits

open_proceeds_example :
    proceeds (open_step (receive_line (not_conn none) (wait_for wait_msg waits_status plugged)))
    ≡ true
open_proceeds_example =
    open_proceeds plugged (wait_for wait_msg waits_status plugged) (not_conn none) refl refl
      plugged-waits (inl refl) tt

filled : shifted position.payload ≢ []
filled e = absurd (ground arith)

decode_line-as_pdgy_example :
    decode_line unshifted 9000 (as_pdgy shifted position)
    ≡ n2k_of (as_pdgy shifted position) (new_msg 9000 129025 2 15 0 (some (1 ∷ 44 ∷ 3 ∷ [])) 0)
decode_line-as_pdgy_example =
    decode_line-as_pdgy shifted unshifted unshifted-shifted shifted-Lacks_44 shifted-Lacks_13
      shifted-Lacks_10 9000 position filled

-- $GPA,1 and $GPB,2
abbrev first_line : List ℕ
first_line = 36 ∷ 71 ∷ 80 ∷ 65 ∷ 44 ∷ 49 ∷ 13 ∷ 10 ∷ []

abbrev second_line : List ℕ
second_line = 36 ∷ 71 ∷ 80 ∷ 66 ∷ 44 ∷ 50 ∷ 13 ∷ 10 ∷ []

read_lines-queue_example :
    ((read_lines unshifted
        ((0, line first_line) ∷ (7, read_error) ∷ (9, line second_line) ∷ [])
        (record plugged { queue_size = 1 })).queue
      ≡ n0183_data first_line ∷ [])
    × ((read_lines unshifted
          ((0, line first_line) ∷ (7, read_error) ∷ (9, line second_line) ∷ [])
          (record plugged { queue_size = 1 })).queue_size
        ≡ 1)
unfolding decode_line split
read_lines-queue_example =
    read_lines-queue unshifted ((0, line first_line) ∷ (7, read_error) ∷ (9, line second_line) ∷ [])
      (record plugged { queue_size = 1 }) (omega arith)
