-- ===== src/Tests/Sessions.antt =====
-- The sessions of the transport, on a USB library with one bridge, whose world is what is open.
use remote_mfi.Prelude.{
  ℕ, List, suc, ◌+◌, ◌-◌, ◌≡◌, refl, Bool, true, false, if◌then◌else◌, ◌==◌, [], ◌∷◌, none, some,
  arith, length,
}
use remote_mfi.Prelude.Int.{ℤ}
use remote_mfi.Transport.Session.Accounting.{IsAccounted}
use remote_mfi.Transport.Inspection.Accounting.{operations-IsAccounted}
use mathlib.Core.List.{Permᴰ}
use remote_mfi.Errors.{ok, err, text}
use remote_mfi.Httpapi.Messages.{LibraryTexts}
use remote_mfi.Fmt.{hex4}
use remote_mfi.Config.UsbIds.{UsbId}
use remote_mfi.Transport.Encoder.{speed_command}
use remote_mfi.Transport.Usb.{Usb, DeviceDesc}
use remote_mfi.Transport.Devices.{
  Direction, TransferType, Setting, Configs, config_at, config_numbers, sort_ints, insert_int,
  bulk_endpoints, search_settings, search_interfaces, search_configs, find_bulk_endpoints,
}
use remote_mfi.Transport.Devices.Order.{find_bulk_endpoints-perm}
use remote_mfi.Transport.Devices.Search.{IsOffered, find_bulk_endpoints-Finds}
use remote_mfi.Transport.Session.{
  Session, Ch341, new_ch341, open_endpoints, claim, open_session, try_id, try_ids, ensure_session,
  current_session, transaction, close,
}
use remote_mfi.Transport.Usb.Counting.{Handles, Counting}
use remote_mfi.Transport.Execution.Keeps.{Keeps}
use remote_mfi.Transport.Inspection.{inspect_usb}
use remote_mfi.Transport.Interleaving
use remote_mfi.Transport.Interleaving.Sound.{IsSound, Reach-IsSound}

abbrev bulk_setting : Setting
bulk_setting = record {
  number = 0;
  alternate = 0;
  endpoints =
      record { number = 1; direction = Direction.input; transfer_type = TransferType.interrupt }
      ∷ record { number = 2; direction = Direction.input; transfer_type = TransferType.bulk }
      ∷ record { number = 3; direction = Direction.output; transfer_type = TransferType.bulk }
      ∷ [];
}

abbrev two_configs : Configs
two_configs = (2, (bulk_setting ∷ []) ∷ []) ∷ (1, (bulk_setting ∷ []) ∷ []) ∷ []

abbrev two_configs_swapped : Configs
two_configs_swapped = (1, (bulk_setting ∷ []) ∷ []) ∷ (2, (bulk_setting ∷ []) ∷ []) ∷ []

-- The first configuration by number is taken.
chosen_run :
    find_bulk_endpoints two_configs
    ≡ some (record {
      config_number = 1;
      interface_number = 0;
      alternate = 0;
      input_number = 2;
      output_number = 3;
    })
unfolding find_bulk_endpoints search_configs search_interfaces search_settings bulk_endpoints
    config_at config_numbers sort_ints insert_int
chosen_run = refl

find_bulk_endpoints-Finds_example : IsOffered two_configs (2 ∷ 1 ∷ []) (record {
  config_number = 1;
  interface_number = 0;
  alternate = 0;
  input_number = 2;
  output_number = 3;
})
unfolding find_bulk_endpoints search_configs search_interfaces search_settings bulk_endpoints
    config_at config_numbers sort_ints insert_int
find_bulk_endpoints-Finds_example = find_bulk_endpoints-Finds two_configs

find_bulk_endpoints-perm_example :
    find_bulk_endpoints two_configs ≡ find_bulk_endpoints two_configs_swapped
find_bulk_endpoints-perm_example =
    find_bulk_endpoints-perm ∣ Permᴰ.swap refl refl ∣₁ (((λ e. absurd (omega arith)), tt), (tt, tt))

abbrev pub bridge_desc : DeviceDesc
bridge_desc = record {
  bus = 1;
  address = 4;
  vendor = 0x1a86;
  product = 0x5512;
  speed = "full";
  class = 255;
  configs = two_configs;
}

abbrev pub one_bridge : Usb
one_bridge = record {
  World = Handles;
  Device = Unit;
  Listed = Unit;
  ConfigHandle = Unit;
  Interface = Unit;
  InEndpoint = Unit;
  OutEndpoint = Unit;
  open_device = λ vendor product w. (ok (some tt), record w { devices = suc w.devices });
  open_devices = λ strings w.
      if strings
      then ((bridge_desc ∷ [], tt ∷ []), record w { listed = w.listed + 1 })
      else ((bridge_desc ∷ [], []), record w { listed = w.listed + 0 });
  descriptor = λ d. bridge_desc;
  listed_descriptor = λ d. bridge_desc;
  manufacturer = λ d w. ("wch", w);
  product = λ d w. ("CH341", w);
  device_config = λ d n w. (ok tt, record w { configs = suc w.configs });
  config_interface = λ c n a w. (ok tt, record w { interfaces = suc w.interfaces });
  in_endpoint = λ i n w. (ok tt, w);
  out_endpoint = λ i n w. (ok tt, w);
  max_packet_size = λ i. 32;
  write_context = λ o bytes timeout w. (ok (length bytes), w);
  read_context = λ i n timeout w. (ok [], w);
  close_interface = λ i w. record w { interfaces = w.interfaces - 1 };
  close_config = λ c w.
      if w.interfaces == 0
      then (ok tt, record w { configs = w.configs - 1 })
      else (err (text "interfaces are claimed"), w);
  close_device = λ d w.
      if w.configs == 0
      then (ok tt, record w { devices = w.devices - 1 })
      else (err (text "a configuration is claimed"), w);
  close_listed = λ d w. (ok tt, record w { listed = w.listed - 1 });
  close_context = λ w. (ok tt, w);
  sleep = λ d w. w;
}

one_bridge-counting : Counting one_bridge
one_bridge-counting = record {
  handles = λ w. w;
  open_device-handles = λ vendor product w. refl;
  open_devices-handles = λ strings w. listed strings w;
  manufacturer-handles = λ d w. refl;
  product-handles = λ d w. refl;
  device_config-handles = λ d n w. refl;
  config_interface-handles = λ c n a w. refl;
  in_endpoint-handles = λ i n w. refl;
  out_endpoint-handles = λ i n w. refl;
  write_context-handles = λ o bytes timeout w. refl;
  read_context-handles = λ i n timeout w. refl;
  sleep-handles = λ d w. refl;
  close_interface-handles = λ i w. refl;
  close_config-handles = λ c w free. ground (arith, free);
  close_device-handles = λ d w free. ground (arith, free);
  close_listed-handles = λ d w. refl;
  close_context-handles = λ w. refl;
}
  where
    listed :
        (strings : Bool) (w : Handles)
        → (one_bridge.open_devices strings w).1
          ≡ record w { listed = w.listed + length (one_bridge.open_devices strings w).0.1 }
    listed true w = refl
    listed false w = refl

abbrev pub texts : LibraryTexts
texts = record { context_text = λ c. ""; transfer_text = λ s. ""; usb_text = λ e. "" }

abbrev pub bridge : UsbId
bridge = record { vendor = 0x1a86; product = 0x5512 }

abbrev pub nothing_open : Handles
nothing_open = record { devices = 0; configs = 0; interfaces = 0; listed = 0 }

abbrev pub fresh : Ch341 one_bridge
fresh = record { usb_ids = bridge ∷ []; speed = 100; session = none; closed = false; allocated = 0 }

fresh_run : new_ch341 one_bridge (bridge ∷ []) 100 ≡ ok fresh
unfolding new_ch341 speed_command
fresh_run = refl

abbrev bridge_session : Session one_bridge
bridge_session = record {
  pointer = 0;
  device = tt;
  config = tt;
  iface = tt;
  input = tt;
  output = tt;
  identity = "1a86:5512";
}

abbrev executing : Interleaving.System texts one_bridge
executing = record {
  transport = record fresh { session = some bridge_session; allocated = 1 };
  world = record { devices = 1; configs = 1; interfaces = 1; listed = 1 };
  inspections = (tt ∷ []) ∷ [];
  section = Interleaving.Section.executing bridge_session;
}

executing_run :
    Interleaving.Reach texts one_bridge
      (Interleaving.at_rest texts one_bridge fresh nothing_open)
      executing
unfolding current_session ensure_session try_ids try_id open_session claim open_endpoints
    find_bulk_endpoints search_configs search_interfaces search_settings bulk_endpoints config_at
    config_numbers sort_ints insert_int hex4
executing_run =
    Interleaving.next
      (Interleaving.next
        (Interleaving.next (Interleaving.next Interleaving.here (Interleaving.begin refl))
          (Interleaving.list true))
        (Interleaving.opened bridge_session refl refl))
      (Interleaving.write bridge_session (0xaa ∷ []) 1 refl)

Reach-IsSound_example : IsSound texts one_bridge one_bridge-counting executing
unfolding one_bridge-counting
Reach-IsSound_example =
    Reach-IsSound texts one_bridge one_bridge-counting (bridge ∷ []) 100 fresh_run refl
      executing_run

fresh-IsAccounted : IsAccounted one_bridge one_bridge-counting 0 (fresh, nothing_open)
unfolding one_bridge-counting
fresh-IsAccounted = record { all_held = refl; closed_empty = λ closed. refl }

operations-IsAccounted_example :
    ((address : ℕ) (bytes : List ℕ) (read_length : ℤ)
      → Keeps
          (IsAccounted one_bridge one_bridge-counting 0)
          (transaction one_bridge address bytes read_length (fresh, nothing_open)))
    × ((strings : Bool)
        → let (status, t, w) = inspect_usb texts one_bridge strings fresh nothing_open in
          IsAccounted one_bridge one_bridge-counting 0 (t, w))
    × (let (r, t, w) = close one_bridge fresh nothing_open in
        IsAccounted one_bridge one_bridge-counting 0 (t, w))
operations-IsAccounted_example =
    operations-IsAccounted one_bridge one_bridge-counting texts 0 fresh nothing_open
      fresh-IsAccounted
