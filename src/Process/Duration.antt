-- ===== src/Process/Duration.antt =====
-- `durationToMs` of process.types.ts, over the characters of the text. Digits are read as exact
-- numbers (the durations of the processes are far below 2 ^ 53).
use Prim.Native.Char.{code}
use pastel_marketplace.Base.{
  ℕ, ◌+◌, ◌-◌, ◌*◌, ◌≡◌, refl, String, Bool, true, false, Option, none, some, ◌&&◌, leb, ◌==◌,
  if◌then◌else◌, or_else,
}
use pastel_marketplace.Base.Text.{◌⊕◌}
use pastel_marketplace.Base.Result.{Result, ok, err, error}

-- Reads `(\d+)U` for the unit's code `U`: the number and what follows. `seen` says that a digit was
-- read.
component_from : ℕ → Bool → ℕ → String → Option (ℕ × String)
component_from unit seen n String.[] = none
component_from unit seen n (String.◌∷◌ c s) =
    let more = component_from unit true (n * 10 + (code c - b'0')) s in
    if leb b'0' (code c) && leb (code c) b'9'
    then more
    else if seen && code c == unit
    then some (n, s)
    else none

-- The optional group `(?:(\d+)U)?`: it matches nothing where the unit does not follow.
pub component : ℕ → String → Option ℕ × String
unfolding component_from
component unit s = elim (component_from unit false 0 s) [
  | none ↦ (none, s)
  | some (n, rest) ↦ (some n, rest)
]

-- The whole rest must be used up.
at_end : String → ℕ → Option ℕ
at_end String.[] total = some total
at_end (String.◌∷◌ c s) total = none

-- `(?:T(?:(\d+)H)?(?:(\d+)M)?(?:(\d+)S)?)?$`, on top of the seconds of the days.
time_part : ℕ → String → Option ℕ
unfolding component at_end
time_part days String.[] = some days
time_part days (String.◌∷◌ c s) =
    let (h, after_h) = component b'H' s in
    let (m, after_m) = component b'M' after_h in
    let (sec, rest) = component b'S' after_m in
    if code c == b'T'
    then at_end rest (days + or_else h 0 * 3600 + or_else m 0 * 60 + or_else sec 0)
    else none

parse_duration : String → Option ℕ
unfolding component time_part
parse_duration String.[] = none
parse_duration (String.◌∷◌ c s) =
    let (d, rest) = component b'D' s in
    if code c == b'P' then time_part (or_else d 0 * 86400) rest else none

unfoldable pub duration_to_ms : String → Result ℕ
unfolding parse_duration
duration_to_ms iso = elim (parse_duration iso) [
  | none ↦ err (error ("Unsupported ISO-8601 duration: " ⊕ iso))
  | some seconds ↦ ok (seconds * 1000)
]

fifteen_minutes : duration_to_ms "PT15M" ≡ ok 900000
unfolding duration_to_ms
fifteen_minutes = refl

mixed : duration_to_ms "P1DT2H3M4S" ≡ ok 93784000
unfolding duration_to_ms
mixed = refl

weeks_refused : duration_to_ms "P2W" ≡ err (error "Unsupported ISO-8601 duration: P2W")
unfolding duration_to_ms
weeks_refused = refl
