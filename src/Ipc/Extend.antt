-- ===== src/Ipc/Extend.antt =====
-- `ipc_frame_parse` of common/ipc_frame.c looks at no byte past the length that it is given.
use green_right_topst_linux.Base.{
  ℕ, ◌-◌, ◌≤◌, ◌≡◌, List, ◌++◌, leb, if◌then◌else◌, arith, length, get_or, get_or-append,
  take-drop-append,
}
use green_right_topst_linux.Crc.{ipc_calc_crc16-append_le}
use green_right_topst_linux.Ipc.{big_endian16, ipc_frame_parse}
use green_right_topst_linux.Ipc.Frame.{IsFrame}

pub ipc_frame_parse-append :
    (xs ys : List ℕ) (n : ℕ)
    → 11 ≤ n
    → n ≤ length xs
    → ipc_frame_parse (xs ++ ys) n ≡ ipc_frame_parse xs n
unfolding ipc_frame_parse
ipc_frame_parse-append xs ys n h k =
    let L = big_endian16 (get_or xs 7 0) (get_or xs 8 0) in
    rw (
      get_or-append xs ys 0 0 (omega arith),
      get_or-append xs ys 1 0 (omega arith),
      get_or-append xs ys 2 0 (omega arith),
      get_or-append xs ys 7 0 (omega arith),
      get_or-append xs ys 8 0 (omega arith),
      get_or-append xs ys (n - 2) 0 (omega arith),
      get_or-append xs ys (n - 1) 0 (omega arith),
      ipc_calc_crc16-append_le xs ys (n - 2) (omega arith),
      take-drop-append xs ys (if leb L (n - 9) then L else n - 9) 9 (ground arith),
    )

pub IsFrame-append : (xs ys : List ℕ) (n : ℕ) → n ≤ length xs → IsFrame xs n → IsFrame (xs ++ ys) n
IsFrame-append xs ys n k v = ground (
  arith,
  get_or-append xs ys 0 0,
  get_or-append xs ys 1 0,
  get_or-append xs ys 2 0,
  get_or-append xs ys 7 0,
  get_or-append xs ys 8 0,
  get_or-append xs ys (n - 2) 0,
  get_or-append xs ys (n - 1) 0,
  ipc_calc_crc16-append_le xs ys (n - 2),
)
