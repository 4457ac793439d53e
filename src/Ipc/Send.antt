-- ===== src/Ipc/Send.antt =====
-- `ipc_frame_send` of common/ipc_frame.c. What `write` answers, call by call, is a list: the loop
-- runs once for each answer, and is still running (`none`) if they run out. `eagain` is the
-- platform's EAGAIN. The clock readings of the retry log do not change the result.
use green_right_topst_linux.Base.{
  ℕ, ◌+◌, ◌≤◌, ◌≡◌, ◌≢◌, ◌⊎◌, inl, inr, refl, suc, ◌∙◌, List, [], ◌∷◌, ◌++◌, Option, none, some,
  Bool, ◌||◌, ◌==◌, if◌then◌else◌, arith, length, All,
}
use green_right_topst_linux.Ipc.{ipc_frame_build, ipc_max_packet_size}
use green_right_topst_linux.Ipc.Frame.{length-built, ipc_frame_build_fits}

pub data WriteResult : Type 0 where
  wrote : ℕ → WriteResult
  failed : ℕ → WriteResult

pub data SendStatus : Type 0 where
  sent send_error : SendStatus

-- `n < 0 && (errno == 62 || errno == EAGAIN)`
unfoldable pub is_busy : ℕ → WriteResult → Bool
is_busy eagain (wrote n) = Bool.false
is_busy eagain (failed errno) = errno == 62 || errno == eagain

-- `n == (ssize_t)total_size`
unfoldable pub is_full : ℕ → WriteResult → Bool
is_full total_size (wrote n) = n == total_size
is_full total_size (failed errno) = Bool.false

-- The loop, with the retries so far; the result comes with their number.
unfoldable pub send_loop : ℕ → ℕ → ℕ → List WriteResult → Option (SendStatus × ℕ)
send_loop eagain total_size retry_count [] = none
send_loop eagain total_size retry_count (r ∷ rs) =
    let again = send_loop eagain total_size (retry_count + 1) rs in
    if is_full total_size r
    then some (sent, retry_count)
    else if is_busy eagain r
    then again
    else some (send_error, retry_count)

unfoldable pub ipc_frame_send : ℕ → ℕ → ℕ → ℕ → List ℕ → List WriteResult → Option (SendStatus × ℕ)
unfolding send_loop is_busy is_full
ipc_frame_send eagain channel_bitmask tx_only_channel_bitmask can_id payload answers =
    elim (ipc_frame_build channel_bitmask tx_only_channel_bitmask can_id payload
      ipc_max_packet_size) [
        | none ↦ some (send_error, 0)
        | some frame_buf ↦ send_loop eagain (length frame_buf) 0 answers
      ]

-- The device is busy: `write` fails with ETIME, which is 62, or with EAGAIN.
abbrev pub IsBusy : ℕ → WriteResult → Type 0
IsBusy eagain (wrote n) = ⊥
IsBusy eagain (failed errno) = (errno ≡ 62) ⊎ (errno ≡ eagain)

-- What any other answer means for a frame of `size` bytes.
abbrev pub status_of : ℕ → WriteResult → SendStatus
status_of size (wrote n) = if n == size then sent else send_error
status_of size (failed errno) = send_error

send_loop_ends :
    (eagain total_size n : ℕ) (rest : List WriteResult) (r : WriteResult)
    → ¬ IsBusy eagain r
    → send_loop eagain total_size n (r ∷ rest) ≡ some (status_of total_size r, n)
unfolding send_loop is_busy is_full
send_loop_ends eagain total_size n rest (wrote m) d = ground arith
send_loop_ends eagain total_size n rest (failed errno) d =
    let not_time : (errno == 62) ≡ Bool.false = not_equal errno 62 (λ e. d (inl e)) in
    let not_again : (errno == eagain) ≡ Bool.false = not_equal errno eagain (λ e. d (inr e)) in
    simp (not_time, not_again) refl
  where
    not_equal : (a b : ℕ) → a ≢ b → (a == b) ≡ Bool.false
    not_equal a b h = ground arith

send_loop_busy :
    (eagain total_size n : ℕ) (rest : List WriteResult) (r : WriteResult)
    → IsBusy eagain r
    → send_loop eagain total_size n (r ∷ rest) ≡ send_loop eagain total_size (n + 1) rest
unfolding send_loop is_busy is_full
send_loop_busy eagain total_size n rest (wrote m) h = absurd h
send_loop_busy eagain total_size n rest (failed errno) (inl h) = ground (arith, h)
send_loop_busy eagain total_size n rest (failed errno) (inr h) = ground (arith, h)

send_loop_after_busy :
    (eagain total_size n : ℕ) (busy rest : List WriteResult) (r : WriteResult)
    → All (IsBusy eagain) busy
    → ¬ IsBusy eagain r
    → send_loop eagain total_size n (busy ++ r ∷ rest)
      ≡ some (status_of total_size r, n + length busy)
send_loop_after_busy eagain total_size n [] rest r h d =
    let z : n + 0 ≡ n = omega arith in rw z (send_loop_ends eagain total_size n rest r d)
send_loop_after_busy eagain total_size n (b ∷ bs) rest r h d =
    let next : n + 1 + length bs ≡ n + suc (length bs) = omega arith in
    send_loop_busy eagain total_size n (bs ++ r ∷ rest) b h.0
    ∙ send_loop_after_busy eagain total_size (n + 1) bs rest r h.1 d
    ∙ rw next refl

-- For a payload of 1 to 1009 bytes: while `write` fails with errno 62 (ETIME) or EAGAIN the frame is written
-- again; the first other answer ends the call, after as many retries as there were such failures, and
-- with success exactly if that answer is a write of the whole frame, 15 bytes more than the payload.
pub ipc_frame_send_retries :
    (eagain channel tx_only can_id : ℕ) (payload : List ℕ) (busy rest : List WriteResult)
    (r : WriteResult)
    → length payload ≢ 0
    → length payload ≤ 1009
    → All (IsBusy eagain) busy
    → ¬ IsBusy eagain r
    → ipc_frame_send eagain channel tx_only can_id payload (busy ++ r ∷ rest)
      ≡ some (status_of (15 + length payload) r, length busy)
unfolding ipc_frame_send
ipc_frame_send_retries eagain channel tx_only can_id payload busy rest r h k b d =
    rw
      (
        ipc_frame_build_fits channel tx_only can_id payload 0x400 h (omega arith) (omega arith),
        ipc_frame_send,
        length-built channel tx_only can_id payload,
      )
      (send_loop_after_busy eagain (15 + length payload) 0 busy rest r b d
        ∙ (let z : 0 + length busy ≡ length busy = omega arith in rw z))
