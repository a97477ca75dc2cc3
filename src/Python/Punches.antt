-- ===== src/Python/Punches.antt =====
-- python/src/punch.rs: the server's punches, which are those of the common crate at a time of its zone.
-- `naive_local` and `and_local_timezone(Local)` are arguments, as is the difference of two times; the
-- latter is none where a time is skipped or comes twice, and `unwrap` panics.
pub mod Payloads
pub mod Tests
use yaroc.Prelude.{
  ℕ, Bool, true, false, Option, none, some, List, [], ◌∷◌, length, ◌==◌, if◌then◌else◌,
}
use yaroc.Prelude.Result.{Result, ok, err, panic, ◌>>=◌, unwrap}
use yaroc.Prelude.Text.{Text}
use yaroc.Error.{Error}
use yaroc.Chrono.{Chrono, DateTime}
use yaroc.Punch as Common
use yaroc.Punch.Payload.{chunks_of}

-- `io::Error`: a chunk of a wrong length, and what python/src/meshtastic.rs and
-- python/src/message_handler.rs refuse: a message that is not decoded, one without a packet, one that
-- is encrypted, and one of a host that is encrypted or not of the serial port.
pub data IoError : Type 0 where
  wrong_length : ℕ → IoError
  decoding missing_packet encrypted_message : IoError
  wrong_port : Text → IoError

-- `MacAddress` and `HostInfo` of python/src/logs.rs.
pub data MacAddress : Type 0 where
  full : ℕ → MacAddress
  meshtastic : ℕ → MacAddress

pub record HostInfo : Type 0 where
  pub name : Text
  pub mac_address : MacAddress

-- `HostInfo::new`.
unfoldable pub new_host : Text → ℕ → HostInfo
new_host name mac_addr = record { name = name; mac_address = full mac_addr }

module _ (chrono : Chrono) {Time Duration : Type 0} (naive_local : Time → DateTime chrono)
    (in_local_zone : DateTime chrono → Option Time) (minus : Time → Time → Duration) where
  pub record SiPunch : Type 0 where
    pub card : ℕ
    pub code : ℕ
    pub time : Time
    pub mode : ℕ
    pub raw : List ℕ

  pub record SiPunchLog : Type 0 where
    pub punch : SiPunch
    pub latency : Duration
    pub host_info : HostInfo

  pub new : ℕ → ℕ → Time → ℕ → Result Error SiPunch
  new card code time mode = do
    punch ← Common.new chrono card code (naive_local time) mode
    ok (record { card = card; code = code; time = time; mode = mode; raw = punch.raw })

  unfoldable pub from_raw : List ℕ → chrono.Date → Result Error SiPunch
  from_raw bytes today = do
    punch ← Common.from_raw chrono bytes today
    time ← unwrap (in_local_zone punch.time)
    ok (record {
      card = punch.card;
      code = punch.code;
      time = time;
      mode = punch.mode;
      raw = bytes;
    })

  pub decode_chunk : chrono.Date → List ℕ → Result Error (Result IoError SiPunch)
  decode_chunk today chunk =
      if length chunk == 20
      then (from_raw chunk today >>= λ punch. ok (ok punch))
      else ok (err (wrong_length (length chunk)))

  pub decode_chunks : chrono.Date → List (List ℕ) → Result Error (List (Result IoError SiPunch))
  decode_chunks today [] = ok []
  decode_chunks today (chunk ∷ chunks) = do
    item ← decode_chunk today chunk
    items ← decode_chunks today chunks
    ok (item ∷ items)

  pub punches_from_payload : List ℕ → chrono.Date → Result Error (List (Result IoError SiPunch))
  punches_from_payload payload today = decode_chunks today (chunks_of (length payload) payload)

  -- `SiPunchLog::new` and `SiPunchLog::from_raw`, at a time.
  unfoldable pub new_log : SiPunch → HostInfo → Time → SiPunchLog
  new_log punch host_info now = record {
    punch = punch;
    latency = minus now punch.time;
    host_info = host_info;
  }

  unfoldable pub log_from_raw : List ℕ → HostInfo → Time → chrono.Date → Result Error SiPunchLog
  log_from_raw payload host_info now today = do
    punch ← from_raw payload today
    ok (new_log punch host_info now)

  abbrev pub is_meshtastic_address : MacAddress → Bool
  is_meshtastic_address (full _) = false
  is_meshtastic_address (meshtastic _) = true

  pub is_meshtastic : SiPunchLog → Bool
  is_meshtastic log = is_meshtastic_address log.host_info.mac_address
