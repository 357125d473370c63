-- ===== src/Protocol/Types.antt =====
-- nodeinnet-api/src/lib.rs, and the small types of nodeinnet-api/src/rtc.rs and
-- nodeinnet-p2p/src/p2p.rs. A `Uuid` is its 128-bit number and an `f32` its bit pattern.
use p2p_common.Common.{ℕ, String, Bool, true, false, Option, none, List, map}
use p2p_common.Common.Int.{ℤ}

abbrev pub Uuid : Type 0
Uuid = ℕ

pub data ResourceType : Type 0 where
  filesystem system_info terminal registry shared_network sync_folder remote_desktop : ResourceType

pub is_only_local : ResourceType → Bool
is_only_local sync_folder = true
is_only_local _ = false

pub is_only_remote : ResourceType → Bool
is_only_remote terminal = true
is_only_remote shared_network = true
is_only_remote remote_desktop = true
is_only_remote _ = false

pub record SharedResource : Type 0 where
  pub id : String
  pub name : String
  pub resource_type : ResourceType
  pub config : Option String
  pub is_active : Bool
  pub session_token : Option String

abbrev pub without_config : SharedResource → SharedResource
without_config r = record r { config = none }

pub record NodeInfo : Type 0 where
  pub id : String
  pub name : String
  pub os : String
  pub version : String
  pub app_type : String
  pub build_type : String
  pub public_key : String
  pub resources : List SharedResource
  pub is_online : Bool
  pub last_used : ℤ
  pub is_temporary : Bool

abbrev pub announced : NodeInfo → NodeInfo
announced n = record n { resources = map without_config n.resources }

pub record NodeTopologyInfo : Type 0 where
  pub id : String
  pub name : String
  pub public_key : String
  pub last_known_addresses : List String

pub data DesktopInputEvent : Type 0 where
  mouse_move : (x y : ℤ) → DesktopInputEvent
  mouse_down : (button : ℕ) → DesktopInputEvent
  mouse_up : (button : ℕ) → DesktopInputEvent
  mouse_scroll : (dy : ℤ) → DesktopInputEvent
  key_press : (keyval : ℕ) → DesktopInputEvent
  key_release : (keyval : ℕ) → DesktopInputEvent

pub record SyncFileInfo : Type 0 where
  pub relative_path : String
  pub md5_hash : String
  pub size : ℕ
  pub last_modified_ms : ℕ

pub record LaunchableApp : Type 0 where
  pub id : String
  pub name : String
  pub icon_name : Option String

pub record RemoteAppSession : Type 0 where
  pub session_id : Uuid
  pub app_id : String
  pub started_unix_ms : ℕ

pub record EntryInfo : Type 0 where
  pub name : String
  pub entry_type : String
  pub size : ℕ

pub data FileTransferStatus : Type 0 where
  accepted : (total_size : ℕ) → FileTransferStatus
  rejected : (reason : String) → FileTransferStatus

pub record SysInfo : Type 0 where
  pub hostname : String
  pub os_family : String
  pub os_type : String
  pub os_version : String
  pub cpu_arch : String
  pub cpu_cores : ℕ
  pub cpu_usage : ℕ
  pub total_memory : ℕ
  pub used_memory : ℕ
  pub total_swap : ℕ
  pub used_swap : ℕ
  pub uptime : ℕ
  pub network_interfaces : List String

pub data RegistryValueData : Type 0 where
  string : String → RegistryValueData
  multi_string : List String → RegistryValueData
  d_word : ℕ → RegistryValueData
  q_word : ℕ → RegistryValueData
  binary : List ℕ → RegistryValueData
  expand_string : String → RegistryValueData
  unknown : RegistryValueData

pub record RegistryValueInfo : Type 0 where
  pub name : String
  pub value : RegistryValueData
