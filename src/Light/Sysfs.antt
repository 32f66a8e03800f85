-- ===== src/Light/Sysfs.antt =====
-- light/Utils.h and the nodes of light/devices: the files of the devices. What the kernel answers is
-- the parameter `Sysfs`; it may depend on what was done before, as a node may come and go with what
-- is written to another. The log holds all that was done, the newest first.
use Prim.Native.String.{String}
use text.Mathlib.Text as Text
use hardware_voltage_interfa.Base.{
  ℕ, Bool, true, false, ◌&&◌, ◌==◌, none, some, Option, List, [], ◌∷◌, if◌then◌else◌,
}
use hardware_voltage_interfa.Base.Int.{ℤ}

-- The files of a device's directory.
pub data Node : Type 0 where
  brightness : Node
  max_brightness : Node
  breath : Node
  blink : Node
  start_idx : Node
  duty_pcts : Node
  pause_lo : Node
  pause_hi : Node
  ramp_step_ms : Node
  trigger : Node
  delay_off : Node
  delay_on : Node
  -- The path with no file name behind it.
  directory : Node

abbrev pub node_index : Node → ℕ
node_index brightness = 0
node_index max_brightness = 1
node_index breath = 2
node_index blink = 3
node_index start_idx = 4
node_index duty_pcts = 5
node_index pause_lo = 6
node_index pause_hi = 7
node_index ramp_step_ms = 8
node_index trigger = 9
node_index delay_off = 10
node_index delay_on = 11
node_index directory = 12

pub data FilePath : Type 0 where
  backlight_node : String → Node → FilePath
  led_node : String → Node → FilePath
  file : String → FilePath

-- What a stream prints: a number, a text, or numbers with commas between them.
pub data Content : Type 0 where
  number : ℤ → Content
  word : String → Content
  numbers : List ℕ → Content

pub data Event : Type 0 where
  write : FilePath → Content → Event
  sleep : ℕ → Event

abbrev pub Log : Type 0
Log = List Event

-- `good`: `std::ifstream(path)` is good; `can_write`: `std::ofstream(path)` is. `read_number` is what
-- `>>` stores from a file that can be opened, and `read_lines` are the lines of one.
pub record Sysfs : Type 0 where
  pub good : Log → FilePath → Bool
  pub can_write : Log → FilePath → Bool
  pub read_number : Log → FilePath → Option ℕ
  pub read_lines : Log → FilePath → List String

module _ (sys : Sysfs) where
  open sys use {can_write}

  -- `writeToFile`: a file that cannot be opened is left alone.
  unfoldable pub write_to_file : FilePath → Content → Log → Log × Bool
  write_to_file p c l = if can_write l p then (write p c ∷ l, true) else (l, false)

  -- `writeToFile(..) && writeToFile(..)`: up to the first that fails.
  unfoldable pub write_while_ok : List (FilePath × Content) → Log → Log × Bool
  unfolding write_to_file
  write_while_ok [] l = (l, true)
  write_while_ok ((p, c) ∷ ws) l =
      let rest = write_while_ok ws (write p c ∷ l) in if can_write l p then rest else (l, false)

abbrev pub same_text : String → String → Bool
same_text s t = Text.◌==◌ s t

-- Whether a path is that of a node of the LED `name`.
abbrev pub is_node : String → Node → FilePath → Bool
is_node name x (led_node other y) = same_text other name && node_index y == node_index x
is_node name x (backlight_node other y) = false
is_node name x (file f) = false

-- What was written last to a node of the LED `name`.
unfoldable pub last_at : String → Node → Log → Option Content
last_at name x [] = none
last_at name x (sleep ms ∷ l) = last_at name x l
last_at name x (write p c ∷ l) = if is_node name x p then some c else last_at name x l
