-- ===== src/Can/Device.antt =====
-- handler/can_handler.c: opening and closing the device. What `open` answers is an argument; `open` and
-- `close` are collected in a list.
use green_right_topst_linux.Base.{
  ℕ, List, [], ◌∷◌, Bool, true, false, ◌&&◌, Option, none, some, if◌then◌else◌, Str, codes,
}
use green_right_topst_linux.Can.Rx.{CanHandler}

pub data DeviceCall : Type 0 where
  device_open : Str → Option ℕ → DeviceCall
  device_close : ℕ → DeviceCall

abbrev pub can_handler_default_dev_path : Str
can_handler_default_dev_path = codes "/dev/tcc_ipc_micom"

abbrev pub path_or_default : Option Str → Str
path_or_default none = can_handler_default_dev_path
path_or_default (some dev_path) = dev_path

abbrev pub is_open : Option ℕ → Bool
is_open none = false
is_open (some fd) = true

unfoldable pub open_ipc_device :
    CanHandler → Option Str → Option ℕ → CanHandler × List DeviceCall × Bool
open_ipc_device handler dev_path answer = (
  record handler { fd = answer },
  device_open (path_or_default dev_path) answer ∷ [],
  is_open answer,
)

-- The handler after `memset` and the assignments.
abbrev pub blank_handler : Bool → Bool → CanHandler
blank_handler rx_mock_mode tx_mock_mode = record {
  fd = none;
  rx_mock_mode = rx_mock_mode;
  tx_mock_mode = tx_mock_mode;
  mock_tick = 0;
  rx_buffer = [];
  ego_rx_count = 0;
  ego_rx_last_ms = 0;
  ego_rx_last_gap_ms = 0;
  ego_rx_max_gap_ms = 0;
  initialized = false;
  ego_calls = [];
}

unfoldable pub can_handler_init :
    Option Str → Bool → Bool → Option ℕ → CanHandler × List DeviceCall × Bool
can_handler_init dev_path rx_mock_mode tx_mock_mode answer =
    let blank = blank_handler rx_mock_mode tx_mock_mode in
    if rx_mock_mode && tx_mock_mode
    then (record blank { initialized = true }, [], true)
    else (let (handler, calls, ok) = open_ipc_device blank dev_path answer in
        (record handler { initialized = ok }, calls, ok))

abbrev pub close_calls : Option ℕ → List DeviceCall
close_calls none = []
close_calls (some fd) = device_close fd ∷ []

unfoldable pub can_handler_cleanup : CanHandler → CanHandler × List DeviceCall
can_handler_cleanup handler =
    if handler.initialized
    then (record handler { fd = none; initialized = false }, close_calls handler.fd)
    else (handler, [])
