-- ===== src/Health/Tests.antt =====
-- Charging control on a device whose nodes keep what is written.
use Prim.Native.String.{String}
use Prim.Native.Char.{code}
use text.Mathlib.Text as Text
use text.Mathlib.TextPositions.{eq_refl}
use text.Mathlib.TextEquality.{eq_iff}
use hardware_voltage_interfa.Base.{
  Bool-cases, ==_iff, ◌&&◌, ℕ, ◌≡◌, ◌≢◌, refl, inl, inr, Bool, true, false, Option, none, some, [],
  ◌∷◌, leb, ◌==◌, ap, zero, suc, if◌then◌else◌, arith,
}
use hardware_voltage_interfa.Base.Int.{ℤ, pos, negsuc}
use hardware_voltage_interfa.Health.Files.{ok, Files, Numbers, AreFaithful}
use hardware_voltage_interfa.Health.ChargingControl.{
  ChargingControl, ChargingLimitInfo, find_node, get_charging_enabled, set_charging_enabled,
  get_charging_limit, set_charging_limit,
}
use hardware_voltage_interfa.Health.ChargingControl.Search.{IsIn, find_node_ends}
use hardware_voltage_interfa.Health.ChargingControl.Roundtrips.{
  IsLevel, get-set_charging_enabled, get-set_charging_limit,
}
use hardware_voltage_interfa.Health.FastCharge.{FastChargeConfig}

-- A line break at the end of a text, as the kernel's nodes have it, and the text without.
abbrev end_line : String → String
end_line String.[] = "\n"
end_line (String.◌∷◌ c s) = String.◌∷◌ c (end_line s)

abbrev is_nothing : String → Bool
is_nothing String.[] = true
is_nothing (String.◌∷◌ c s) = false

unfoldable trim_end : String → String
trim_end String.[] = String.[]
trim_end (String.◌∷◌ c s) =
    let rest = trim_end s in
    if code c == 10 && is_nothing rest then String.[] else String.◌∷◌ c rest

-- Every node keeps its text, and ends it with a line break.
abbrev disk : Files (String → Option String)
disk = record {
  read = λ p w. w p;
  write = λ p v w. (λ q. if Text.◌==◌ p q then some (end_line v) else w q, true);
}

-- A number in base one, with its sign; what follows the digits is ignored.
unfoldable marks : ℕ → String
marks zero = String.[]
marks (suc n) = String.◌∷◌ "x" (marks n)

unfoldable count : String → ℕ
count String.[] = 0
count (String.◌∷◌ c s) = let rest = count s in if code c == 120 then suc rest else 0

unfoldable printed : ℤ → String
unfolding marks
printed (pos n) = String.◌∷◌ "+" (marks n)
printed (negsuc n) = String.◌∷◌ "-" (marks n)

unfoldable parsed : String → Option ℤ
unfolding count
parsed String.[] = none
parsed (String.◌∷◌ c s) =
    if code c == 43
    then some (pos (count s))
    else if code c == 45
    then some (negsuc (count s))
    else none

abbrev base_one : Numbers
base_one = record { trim = trim_end; to_string = printed; stoll = parsed }

trim_end-end_line : (s : String) → trim_end (end_line s) ≡ trim_end s
unfolding trim_end
trim_end-end_line String.[] = refl
trim_end-end_line (String.◌∷◌ c s) = rw (trim_end-end_line s) refl

trim_end-marks : (n : ℕ) → trim_end (marks n) ≡ marks n
unfolding trim_end marks
trim_end-marks zero = refl
trim_end-marks (suc n) = ap (String.◌∷◌ "x") (trim_end-marks n)

trim_end-printed : (n : ℤ) → trim_end (printed n) ≡ printed n
unfolding trim_end printed
trim_end-printed (pos n) = ap (String.◌∷◌ "+") (trim_end-marks n)
trim_end-printed (negsuc n) = ap (String.◌∷◌ "-") (trim_end-marks n)

count-marks : (n : ℕ) → count (marks n) ≡ n
unfolding count marks
count-marks zero = refl
count-marks (suc n) = ap suc (count-marks n)

parsed-printed : (n : ℤ) → parsed (printed n) ≡ some n
unfolding parsed printed
parsed-printed (pos n) = ap (λ k. some (pos k)) (count-marks n)
parsed-printed (negsuc n) = ap (λ k. some (negsuc k)) (count-marks n)

count-trim_end : (s : String) → count (trim_end s) ≡ count s
unfolding count trim_end
count-trim_end String.[] = refl
count-trim_end (String.◌∷◌ c s) = elim (Bool-cases (code c == 10 && is_nothing (trim_end s))) [
  | inl e ↦
      let letter : (code c == 120) ≡ false =
        ground (arith, ==_iff (code c) 10, ==_iff (code c) 120) in
      rw (e, letter) refl
  | inr e ↦ rw (e, count-trim_end s) refl
]

parsed-trim_end : (s : String) → parsed (trim_end s) ≡ parsed s
unfolding parsed trim_end
parsed-trim_end String.[] = refl
parsed-trim_end (String.◌∷◌ c s) = elim (Bool-cases (code c == 10 && is_nothing (trim_end s))) [
  | inl e ↦
      let plus : (code c == 43) ≡ false = ground (arith, ==_iff (code c) 10, ==_iff (code c) 43) in
      let minus : (code c == 45) ≡ false = ground (arith, ==_iff (code c) 10, ==_iff (code c) 45) in
      rw (e, plus, minus) refl
  | inr e ↦ rw (e, count-trim_end s) refl
]

disk-AreFaithful : AreFaithful disk base_one
disk-AreFaithful = record {
  read-write = λ p v w h. (end_line v, ground (arith, eq_refl p), trim_end-end_line v);
  read-write_ne = λ p q v w ne. ground (arith, eq_iff p q);
  stoll-to_string = λ n h. parsed-printed n;
  stoll-trim = parsed-trim_end;
  trim-to_string = trim_end-printed;
}

abbrev nothing_written : String → Option String
nothing_written p = none

abbrev charging : ChargingControl
charging = record {
  build = record {
    supports_toggle = true;
    supports_bypass = false;
    supports_deadline = false;
    supports_limit = true;
  };
  charging_enabled_node = record {
    path = "input_suspend";
    value_true = "0";
    value_false = "1";
    supported_mode = none;
  };
  charging_deadline_node = "charge_deadline";
  charging_limit_node = record { min_path = "charge_start_level"; max_path = "charge_stop_level" };
}

differ : {s t : String} → (Text.◌==◌ s t) ≡ false → s ≢ t
differ {s} {t} h = ground (arith, eq_iff s t)

reports_off :
    get_charging_enabled disk base_one charging
      (set_charging_enabled disk base_one charging false nothing_written).0
    ≡ ok false
unfolding set_charging_enabled trim_end
reports_off =
    get-set_charging_enabled disk base_one charging disk-AreFaithful false nothing_written
      (differ refl) refl refl refl

abbrev limit : ChargingLimitInfo
limit = record { max = pos 80; min = pos 70 }

get-set_charging_limit_example :
    get_charging_limit disk base_one charging
      (set_charging_limit disk base_one charging limit nothing_written).0
    ≡ ok limit
unfolding set_charging_limit IsLevel
get-set_charging_limit_example =
    get-set_charging_limit disk base_one charging disk-AreFaithful limit nothing_written
      (ground arith, ground arith) (ground arith, ground arith) (differ refl) refl

-- The second of two nodes appears after 25 waits.
abbrev can : ℕ → String → Bool
can t p = Text.◌==◌ p "charge_deadline" && leb 25 t

find_node_ends_example :
    (t : ℕ) × (x : String) × (find_node can 26 ("charging_enabled" ∷ "charge_deadline" ∷ []) 0
      ≡ (t, some x))
    × (can t x ≡ true)
unfolding IsIn
find_node_ends_example =
    find_node_ends can ("charging_enabled" ∷ "charge_deadline" ∷ []) 25 "charge_deadline"
      (inr (inl refl)) (λ t h. ground arith)

abbrev fast : FastChargeConfig
fast = record {
  node = some "fast_charge";
  value_none = some "0";
  value_fast_charge = some "1";
  value_super_fast_charge = none;
  fast_charge_bit = 1;
  super_fast_charge_bit = 2;
}
