-- ===== src/Devices/Naming.antt =====
-- The names that src/devices_api.rs accepts for a device (`validate_name`).
use Prim.Native.String.{count}
use realm_guard_server.Prelude.{
  ◌≡◌, refl, ap, ◌∙◌, ◌≤◌, inl, inr, String, false, ◌&&◌, Bool-cases, arith, ltb,
}
use realm_guard_server.Prelude.Text.{is_whitespace, is_empty, trim_start, trim_end, trim}
use realm_guard_server.Result.{ok}
use realm_guard_server.Devices.Api.{validate_name, max_name_len}

-- A text whose first character is no white space.
abbrev pub IsTight : String → Type 0
IsTight String.[] = Unit
IsTight (String.◌∷◌ c s) = is_whitespace c ≡ false

IsTight-trim_start : (s : String) → IsTight (trim_start s)
unfolding trim_start
IsTight-trim_start String.[] = tt
IsTight-trim_start (String.◌∷◌ c s) = elim (Bool-cases (is_whitespace c)) [
  | inl e ↦ rw e (IsTight-trim_start s)
  | inr e ↦ rw e e
]

trim_start-of_IsTight : (s : String) → IsTight s → trim_start s ≡ s
unfolding trim_start
trim_start-of_IsTight String.[] h = refl
trim_start-of_IsTight (String.◌∷◌ c s) h = rw h refl

IsTight-trim_end : (s : String) → IsTight s → IsTight (trim_end s)
unfolding trim_end
IsTight-trim_end String.[] h = tt
IsTight-trim_end (String.◌∷◌ c s) h = rw h h

trim_end-trim_end : (s : String) → trim_end (trim_end s) ≡ trim_end s
unfolding trim_end
trim_end-trim_end String.[] = refl
trim_end-trim_end (String.◌∷◌ c s) = elim (Bool-cases (is_whitespace c && is_empty (trim_end s))) [
  | inl e ↦ rw e refl
  | inr e ↦ rw (e, trim_end-trim_end s, e) refl
]

pub trim-trim : (s : String) → trim (trim s) ≡ trim s
unfolding trim
trim-trim s =
    ap trim_end (
      trim_start-of_IsTight (trim_end (trim_start s))
        (IsTight-trim_end (trim_start s) (IsTight-trim_start s)))
    ∙ trim_end-trim_end (trim_start s)

IsTight-trim : (s : String) → IsTight (trim s)
unfolding trim
IsTight-trim s = IsTight-trim_end (trim_start s) (IsTight-trim_start s)

-- A name that is accepted is the trimmed one, has no white space at its start, is not empty and has
-- at most 100 characters, and would be accepted again as it is.
pub validate_name-stable :
    (name accepted : String)
    → validate_name name ≡ ok accepted
    → (accepted ≡ trim name)
      × IsTight accepted
      × (is_empty accepted ≡ false)
      × (count accepted ≤ max_name_len)
      × (validate_name accepted ≡ ok accepted)
unfolding validate_name
validate_name-stable name accepted h =
    let same : accepted ≡ trim name = ground arith in
    let full : is_empty accepted ≡ false = ground arith in
    let short : ltb max_name_len (count accepted) ≡ false = ground arith in
    (
      same,
      rw same (IsTight-trim name),
      full,
      ground arith,
      ground (arith, rw (← same) at (trim-trim name)),
    )
