-- ===== src/Billing.antt =====
-- pkg/billing: the detail record of a call, the mask of its features, its meter and its price.
pub mod Feature
pub mod Units
pub mod Wal
use Prim.Native.Nat.{bit_or, ◌^◌}
use clear_stream.Prelude.{
  ℕ, ◌+◌, ◌-◌, ◌*◌, ◌/◌, ◌%◌, Bool, List, [], ◌∷◌, ltb, leb, if◌then◌else◌, ℤ, pos, negsuc,
  pos_part, neg_part, sub_ℕ, leb_ℤ, ltb_ℤ, u8, u32, Float,
}
use clear_stream.Billing.Feature.{has, feature_spectral_nr, feature_rn_noise}
use clear_stream.Billing.Feature.{feature_deep_filter, feature_agc}
use clear_stream.Billing.Feature.{feature_rtp_monitor, feature_eval}

abbrev pub default_pulse_ms : ℤ
default_pulse_ms = pos 6000

pub record Cdr (F : Type 0) : Type 0 where
  pub session_id : List ℕ
  pub account_id : List ℕ
  pub region : List ℕ
  pub node_id : List ℕ
  pub start_time : ℕ  -- in nanoseconds
  pub end_time : ℕ
  pub duration_ms : ℤ  -- int64
  pub features : ℕ  -- uint8
  pub pulse_ms : ℤ  -- int32
  pub billed_units : ℤ  -- int32
  pub avg_latency_ms : F
  pub packet_loss_pct : F
  pub snr_est_db : F
  pub error_code : ℤ  -- int8

-- Time.Sub, which stops at the largest and the smallest Duration.
abbrev pub sub_time : ℕ → ℕ → ℤ
sub_time a b =
    let d = sub_ℕ a b in
    if ltb_ℤ (pos (2 ^ 63 - 1)) d
    then pos (2 ^ 63 - 1)
    else if ltb_ℤ d (sub_ℕ 0 (2 ^ 63))
    then sub_ℕ 0 (2 ^ 63)
    else d

-- Duration.Milliseconds, which drops the fraction.
abbrev pub milliseconds : ℤ → ℤ
milliseconds (pos n) = pos (n / 1000000)
milliseconds (negsuc n) = sub_ℕ 0 ((n + 1) / 1000000)

-- The low 32 bits, as a signed number.
abbrev pub int32 : ℤ → ℤ
int32 a =
    let low = (pos_part a % 2 ^ 32 + 2 ^ 32 - neg_part a % 2 ^ 32) % 2 ^ 32 in
    if ltb low (2 ^ 31) then pos low else sub_ℕ low (2 ^ 32)

-- The duration of a record: a clock that went back counts as no time.
abbrev pub duration_of : ℕ → ℕ → ℤ
duration_of start_time end_time =
    let d = milliseconds (sub_time end_time start_time) in if ltb_ℤ d (pos 0) then pos 0 else d

abbrev pub pulse_of : ℤ → ℤ
pulse_of pulse_ms = if leb_ℤ pulse_ms (pos 0) then default_pulse_ms else pulse_ms

-- The pulses that a duration has begun, at least one.
unfoldable pub units_of : {F : Type 0} → Float F → ℤ → ℤ → ℤ
units_of fl duration_ms pulse =
    let units = int32 (fl.to_int (fl.ceil (fl.div (fl.of_int duration_ms) (fl.of_int pulse)))) in
    if ltb_ℤ units (pos 1) then pos 1 else units

module _ {F : Type 0} ⦃fl : Float F⦄ where
  unfoldable pub new_cdr :
      (session_id account_id region node_id : List ℕ) (start_time end_time features : ℕ)
      → (pulse_ms : ℤ) (avg_latency_ms packet_loss_pct snr_est_db : F) (err_code : ℤ) → Cdr F
  new_cdr session_id account_id region node_id start_time end_time features pulse_ms lat loss snr
        err_code =
      let duration = duration_of start_time end_time in
      let pulse = pulse_of pulse_ms in
      record {
        session_id = session_id;
        account_id = account_id;
        region = region;
        node_id = node_id;
        start_time = start_time;
        end_time = end_time;
        duration_ms = duration;
        features = features;
        pulse_ms = pulse;
        billed_units = units_of fl duration pulse;
        avg_latency_ms = lat;
        packet_loss_pct = loss;
        snr_est_db = snr;
        error_code = err_code;
      }

  unfoldable pub billed_seconds : Cdr F → F
  billed_seconds c =
      fl.div (fl.mul (fl.of_int c.billed_units) (fl.of_int c.pulse_ms)) (fl.ratio 1000 1)

  unfoldable pub cost : Cdr F → F → F
  cost c unit_price_inr = fl.mul (fl.of_int c.billed_units) unit_price_inr

pub record StaticRateCard (F : Type 0) : Type 0 where
  pub base_price : F
  pub feature_prices : List (ℕ × F)  -- a map, in the order that the loop meets it

pub record MeterConfig : Type 0 where
  pub session_id : List ℕ
  pub account_id : List ℕ
  pub region : List ℕ
  pub node_id : List ℕ
  pub pulse_ms : ℤ

pub record SessionMeter : Type 0 where
  pub cfg : MeterConfig
  pub start_ms : ℕ
  pub features : ℕ  -- uint32

-- The name of the host, empty where the system has none to give.
unfoldable pub name_or : List ℕ → List ℕ → List ℕ
name_or [] host = host
name_or (c ∷ name) host = c ∷ name

-- A meter started at a time, in nanoseconds.
unfoldable pub new_session_meter : MeterConfig → (host : List ℕ) → (now : ℕ) → SessionMeter
new_session_meter cfg host now = record {
  cfg = record cfg { pulse_ms = pulse_of cfg.pulse_ms; node_id = name_or cfg.node_id host };
  start_ms = now / 1000000;
  features = 0;
}

-- The compare-and-swap loop stores the union of what it last read and the feature.
unfoldable pub enable_feature : ℕ → SessionMeter → SessionMeter
enable_feature f m = record m { features = u32 (bit_or m.features f) }

module _ {F : Type 0} ⦃fl : Float F⦄ where
  -- The record at hang-up. It is also handed to the log, in a goroutine of its own.
  unfoldable pub finalize : SessionMeter → (now : ℕ) → (lat loss snr : F) → (err_code : ℤ) → Cdr F
  finalize m now lat loss snr err_code =
      let cfg = m.cfg in
      new_cdr cfg.session_id cfg.account_id cfg.region cfg.node_id (m.start_ms * 1000000) now
        (u8 m.features) cfg.pulse_ms lat loss snr err_code

  unfoldable pub add_prices : ℕ → List (ℕ × F) → F → F
  add_prices features [] price = price
  add_prices features ((flag, extra) ∷ rest) price =
      add_prices features rest (if has features flag then fl.add price extra else price)

  unfoldable pub unit_price : StaticRateCard F → ℕ → F
  unit_price r features = add_prices features r.feature_prices r.base_price

  -- Rupees, by the tenth of a millionth.
  abbrev pub default_telephony_rate_card : StaticRateCard F
  default_telephony_rate_card = record {
    base_price = fl.ratio 955 10000000;
    feature_prices =
        (feature_spectral_nr, fl.ratio 478 10000000)
        ∷ (feature_rn_noise, fl.ratio 955 10000000)
        ∷ (feature_deep_filter, fl.ratio 1433 10000000)
        ∷ (feature_agc, fl.ratio 191 10000000)
        ∷ (feature_rtp_monitor, fl.ratio 287 10000000)
        ∷ (feature_eval, fl.ratio 955 10000000)
        ∷ [];
  }
