-- ===== src/Python/Status.antt =====
-- python/src/status.rs: the state of a node, by its mini call homes and its punches, and what is shown
-- of it. Times, f32 and f64 are types that the code only passes on; `Local::now()` is an argument. A `HashSet` is a list without repetitions, in no order that matters.
pub mod Codes
pub mod Tests
use yaroc.Prelude.{
  ℕ, Bool, true, false, ◌||◌, Option, none, some, List, [], ◌∷◌, ltb, ◌==◌, if◌then◌else◌, map,
}
use yaroc.Prelude.Int.{ℤ, pos, eq_ℤ, wrapped}
use yaroc.Prelude.Text.{Text}

pub contains : ℕ → List ℕ → Bool
contains c [] = false
contains c (d ∷ codes) = (d == c) || contains c codes

-- `HashSet::insert`.
pub insert : ℕ → List ℕ → List ℕ
insert c codes = if contains c codes then codes else c ∷ codes

pub data CellularConnectionState : Type 0 where
  unknown : CellularConnectionState
  mqtt_connected : ℤ → ℕ → Option ℤ → CellularConnectionState

-- `Option::map`.
abbrev pub mapped : {A B : Type 0} → (A → B) → Option A → Option B
mapped f none = none
mapped f (some a) = some (f a)

module _ (Time F32 F64 : Type 0) where
  -- `RssiSnr` and `PositionName` of python/src/logs.rs.
  pub record RssiSnr : Type 0 where
    pub rssi_dbm : ℤ
    pub snr : F32
    pub distance : Option (F32 × Text)

  pub record Position : Type 0 where
    pub lat : F32
    pub lon : F32
    pub elevation : ℤ
    pub timestamp : Time

  pub new_position : F32 → F32 → Time → Position
  new_position lat lon timestamp = record {
    lat = lat;
    lon = lon;
    elevation = pos 0;
    timestamp = timestamp;
  }

  pub record PositionName : Type 0 where
    pub position : Position
    pub name : Text

  -- `as i16`; 0 stands for a packet without a signal.
  unfoldable pub new_rssi_snr : ℤ → F32 → Option RssiSnr
  new_rssi_snr rssi_dbm snr =
      if eq_ℤ rssi_dbm (pos 0)
      then none
      else some (record { rssi_dbm = wrapped 32_768 rssi_dbm; snr = snr; distance = none })

  unfoldable pub add_distance : F32 → Text → RssiSnr → RssiSnr
  add_distance dist_m name self = record self { distance = some (dist_m, name) }

  unfoldable pub new_position_name : Position → Text → PositionName
  new_position_name position name = record { position = position; name = name }

  -- `Location::new` of a latitude and a longitude, `distance_to`, and `meters`, of the geoutils crate;
  -- none is an error, of which only a text is known.
  unfoldable pub distance_m :
      {Location Distance : Type 0}
      → (F32 → F32 → Location)
      → (Location → Location → Option Distance)
      → (Distance → F64)
      → Position
      → Position
      → Option F64
  distance_m location distance_to meters self other =
      mapped meters (distance_to (location self.lat self.lon) (location other.lat other.lon))

  -- What a status uses of a punch.
  pub record Punch : Type 0 where
    pub code : ℕ
    pub time : Time

  pub record NodeInfo : Type 0 where
    pub name : Text
    pub rssi_dbm : Option ℤ
    pub snr_db : Option F32
    pub cellid : Option ℕ
    pub codes : List ℕ
    pub last_update : Option Time
    pub last_punch : Option Time

  pub record CellularRocStatus : Type 0 where
    pub name : Text
    pub state : CellularConnectionState
    pub voltage : Option F64
    pub codes : List ℕ
    pub last_update : Option Time
    pub last_punch : Option Time

  unfoldable pub new_cellular : Text → CellularRocStatus
  new_cellular name = record {
    name = name;
    state = unknown;
    voltage = none;
    codes = [];
    last_update = none;
    last_punch = none;
  }

  unfoldable pub disconnect : Time → CellularRocStatus → CellularRocStatus
  disconnect now self = record self { state = unknown; last_update = some now }

  unfoldable pub update_voltage : F64 → CellularRocStatus → CellularRocStatus
  update_voltage voltage self = record self { voltage = some voltage }

  unfoldable pub mqtt_connect_update :
      Time → ℤ → ℕ → Option ℤ → CellularRocStatus → CellularRocStatus
  mqtt_connect_update now rssi_dbm cellid snr_cb self = record self {
    state = mqtt_connected rssi_dbm cellid snr_cb;
    last_update = some now;
  }

  unfoldable pub cellular_punch : Punch → CellularRocStatus → CellularRocStatus
  cellular_punch punch self = record self {
    last_punch = some punch.time;
    codes = insert punch.code self.codes;
  }

  abbrev pub state_rssi : CellularConnectionState → Option ℤ
  state_rssi unknown = none
  state_rssi (mqtt_connected rssi_dbm _ _) = some rssi_dbm

  -- `by_ten` divides by 10 as an f32.
  abbrev pub state_snr : (ℤ → F32) → CellularConnectionState → Option F32
  state_snr by_ten unknown = none
  state_snr by_ten (mqtt_connected _ _ none) = none
  state_snr by_ten (mqtt_connected _ _ (some snr_cb)) = some (by_ten snr_cb)

  abbrev pub state_cellid : CellularConnectionState → Option ℕ
  state_cellid unknown = none
  state_cellid (mqtt_connected _ cellid _) = if ltb 0 cellid then some cellid else none

  pub serialize_cellular : (ℤ → F32) → CellularRocStatus → NodeInfo
  serialize_cellular by_ten self = record {
    name = self.name;
    rssi_dbm = state_rssi self.state;
    snr_db = state_snr by_ten self.state;
    cellid = state_cellid self.state;
    codes = self.codes;
    last_update = self.last_update;
    last_punch = self.last_punch;
  }

  pub record MeshtasticRocStatus : Type 0 where
    pub name : Text
    pub battery : Option ℕ
    pub rssi_snr : Option RssiSnr
    pub position : Option Position
    pub codes : List ℕ
    pub last_update : Option Time
    pub last_punch : Option Time

  unfoldable pub new_meshtastic : Text → MeshtasticRocStatus
  new_meshtastic name = record {
    name = name;
    battery = none;
    rssi_snr = none;
    position = none;
    codes = [];
    last_update = none;
    last_punch = none;
  }

  unfoldable pub update_battery : Time → ℕ → MeshtasticRocStatus → MeshtasticRocStatus
  update_battery now battery self = record self { battery = some battery; last_update = some now }

  unfoldable pub update_rssi_snr : Time → RssiSnr → MeshtasticRocStatus → MeshtasticRocStatus
  update_rssi_snr now rssi_snr self = record self {
    rssi_snr = some rssi_snr;
    last_update = some now;
  }

  unfoldable pub clear_rssi_snr : Time → MeshtasticRocStatus → MeshtasticRocStatus
  clear_rssi_snr now self = record self { rssi_snr = none; last_update = some now }

  unfoldable pub meshtastic_punch : Punch → MeshtasticRocStatus → MeshtasticRocStatus
  meshtastic_punch punch self = record self {
    last_punch = some punch.time;
    codes = insert punch.code self.codes;
  }

  pub serialize_meshtastic : MeshtasticRocStatus → NodeInfo
  serialize_meshtastic self = record {
    name = self.name;
    rssi_dbm = mapped (λ (x : RssiSnr). x.rssi_dbm) self.rssi_snr;
    snr_db = mapped (λ (x : RssiSnr). x.snr) self.rssi_snr;
    cellid = none;
    codes = self.codes;
    last_update = self.last_update;
    last_punch = self.last_punch;
  }
